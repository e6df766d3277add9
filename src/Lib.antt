-- ===== src/Lib.antt =====
-- Verification of varnish-rs, the Rust library by which Varnish modules (VMODs) are written.
--
-- The program is a layer between Rust code and the C structs of varnishd. The parts modelled are:
--
-- - The workspace (varnish-sys/src/vcl/ws.rs, varnish-sys/src/validate.rs): an arena with a first
--   free byte `f`, an end `e` and a reservation `r`. Workspace.antt has `Ws` (`ffi::ws` with the
--   memory), the allocator's calls as the record `Runtime`, and one function for each method of
--   `Workspace` that changes it: `alloc`, `allocate`, `allocate_zeroed`, `copy_value`, `copy_bytes`,
--   `copy_blob`, `copy_txt`, `copy_cstr`, `copy_bytes_with_null`. Workspace/Allocator.antt is the
--   allocator that the source has for tests, and `TestWS`. Workspace/Contract.antt states what an
--   allocator promises (`IsRuntime`); the theorems on `Workspace` hold for every allocator that keeps
--   it. Memory.antt has the byte memory and Outcome.antt the results: a value, a `VclError` or a
--   panic, always with the state that is left.
-- - `WsBuffer` (varnish-sys/src/vcl/ws_str_buffer.rs): the free region of a workspace as a vector.
--   WsBuffer.antt has `new`, `push`, `extend_from_slice`, `write`, `release`, `drop` and the three
--   `finish`, over any item type given by its size, alignment and byte image (`Layout`). Its children
--   are the alignment arithmetic (Align), creation and the invariant (Create), the items in memory
--   (Items), appending (Fill), releasing (Finish) and the finished values (Results).
-- - HTTP objects (varnish-sys/src/vcl/http.rs, varnish-sys/src/txt.rs,
--   varnish-sys/src/vcl/str_or_bytes.rs): HeaderText.antt reads a header from memory (`parse_header`,
--   `StrOrBytes`); Http.antt has the slots of an object with its workspace and log (`Http`), and
--   `change_header`, `set_header`, `unset_header` and the setters over them; Http/Lookup has the
--   functions that read, Http/Etag `weaken_etag`. Http/State states what the slots stand for
--   (`IsHttp`: special slots, headers, free slots); its siblings say what is found (Find), what goes
--   (Unset), what is appended (Set, RoundTrip), what a special slot takes (Special) and how a tag
--   becomes weak (Weaken). The indices of the special slots come from the C headers of varnishd and
--   are an argument (`HdrIndex`).
-- - Delivery and fetch processors (varnish-sys/src/vcl/processor.rs): the callbacks that varnishd
--   calls with a private pointer. Processors.antt has the results and statuses;
--   Processors/Delivery.antt `gen_vdp_init`, `gen_vdp_push`, `gen_vdp_fini` and
--   `DeliveryProcCtx::push`; Processors/Fetch.antt `wrap_vfp_init`, `wrap_vfp_pull`,
--   `wrap_vfp_fini` and `FetchProcCtx::pull`. A processor is a record of a vmod's functions.
--   Lifecycle follows a processor from its start to its end, Chains puts one processor before another. Boxes
--   are counted (Boxes.antt).
-- - Backends (varnish-sys/src/vcl/backend/backend_main.rs): Backends.antt has one fetch, on HTTP
--   objects and the workspace: `wrap_gethdrs`, `vfp_pull`, `wrap_getip` and `wrap_finish`, over a
--   vmod's functions (`VclBackend`) and varnishd's (`Varnishd`). The response headers and the busyobj
--   have the same workspace, as in varnishd. Backends/Steps has the steps before the connection,
--   Fetches how a fetch ends, Leaks the box that is lost.
-- - References to backends and the callbacks of directors
--   (varnish-sys/src/vcl/backend/backend_ref.rs, varnish-sys/src/vcl/backend/director.rs):
--   Directors.antt has `BackendRef` over the directors of varnishd by address, `new`, `clone` and
--   `drop`, and the callbacks `wrap_director_resolve`, `wrap_director_healthy` and
--   `wrap_director_list`. Directors/Counts states that counts and references agree, Balance that
--   every operation keeps it.
-- - Metrics (varnish/src/metrics_reader.rs): Metrics.antt has the table of points with the callbacks
--   `add_point` and `del_point`, `update`, the kinds of a metric and `get_clamped_value`;
--   Metrics/Balance says how the reported handles account for the table.
-- - Bodies of requests (varnish-sys/src/vcl/ctx.rs): Bodies.antt has `req_body_state` and `req_body`
--   with its callback `write_body_iterate`, over a writer and varnishd's two iterators (`Iterators`);
--   Bodies/Copies says what a streamed body leaves in a backend.
-- - Probes (varnish-sys/src/vcl/probe.rs, varnish-sys/src/vcl/convert.rs): Probes.antt has `Probe`, the
--   C struct of varnishd, `into_vcl_probe` and `from_vcl_probe`, over the bytes of the struct and the
--   conversions of durations (`ProbeLayout`). A C string is looked for in a number of bytes that the
--   theorem takes above its length. Probes/RoundTrip gives a probe away and reads it back.
-- - Filter registries (varnish-sys/src/vcl/processor.rs): `FetchFilters` and `DeliveryFilters` as
--   one registry over the way a filter is named to varnishd, with the log of the calls
--   `VRT_AddFilter` and `VRT_RemoveFilter` (Filters.antt, Filters/Laws.antt, Filters/Balance.antt).
-- - The round-robin director (examples/vmod_round_robin/src/lib.rs): RoundRobin.antt has its state,
--   `add_backend`, `count`, `resolve`, `probe` and `health_stats`; its children say which backend is
--   picked (Resolve), that backends take turns (Rotation) and what is reported (Health).
-- - The parser of the macro `vmod` (varnish-macros/src/parser.rs, parser_args.rs, parser_utils.rs,
--   model.rs):
--   Macros/Syntax.antt has the part of `syn::Type` that the code looks at and the functions `as_*`;
--   Macros/Types.antt the parameter types with their names (`ParamTy`); Macros/Output.antt the return
--   types (`OutputTy`), with Output/Laws; Macros/Attributes.antt the attributes of an argument and
--   its default; Macros/Params.antt the state (`FuncStatus`, `SharedTypes`), the checks and
--   `store_shared`; Macros/Arguments.antt `ParamType::parse` branch by branch (`parse_param`),
--   `ParamTypeInfo::parse` (`parse_arg`) and the loop over arguments (`parse_args`). Its children
--   are proofs: rules for the steps (Rules), defaults (Fits), the branches (Kinds, Accepted), lists
--   (Lists). Macros/Functions.antt has `FuncInfo::parse` (`parse_func`) with the errors that it
--   gathers, Macros/Modules.antt `VmodInfo::validate`, and Macros/Items.antt `ObjInfo::parse` and
--   `VmodInfo::parse`; Functions/Laws, Modules/Validity and Items/Accepted say what they accept. Printing a type, parsing it again and reading a number as JSON are arguments.
-- - The generator of the macro `vmod` (varnish-macros/src/names.rs, varnish-macros/src/gen_func.rs):
--   Macros/Names.antt has `Names`; Macros/Wrappers.antt the lists that `FuncProcessor` gathers for a
--   parameter (`do_fn_param`), Wrappers/Prototype what `init` gathers, `gen_cproto` and `json_func`,
--   Wrappers/Body `gen_callback_fn` with the wrapper as data (`Wrapper`), Wrappers/Generate `init` and
--   `from_info` as a whole. Agreement and Signatures compare the signature of the wrapper with its C
--   prototype, and Json and Published the JSON with it; Scopes, Closed, Variables, Whole, Callbacks,
--   Kept, Calls and InScope follow the variables of the wrapper; Results is about the function that is
--   generated; Names/Collisions compares names. What `format_ident!` takes for an identifier is an
--   argument. Its texts are checked together, since a panic is the same at each place; the names that
--   the code fixes (`__vp`, `__ctx`, the masks of scopes) are identifiers.
--
-- Conventions. Numbers are natural numbers; addresses are numbers and 0 is the null pointer. Casts
-- to 32 bits and subtraction of pointers keep their wrap-around (`as_u32`, `ptr_sub`). `assert!`,
-- `expect` and index errors are the outcome `panic`. Types of Rust enter by size, alignment and byte
-- image. The loop of `resolve` takes as many rounds as there are backends, as in the source; every
-- other loop is a recursion on a list or on a count that the source has.
--
-- Not modelled: the rest of the context, the conversion of other types, the builder of native
-- backends, and the module around generated wrappers. The documentation texts of functions are left out. varnishd behind the FFI
-- (the allocator, `VRT_*`, `VSL*`) enters as arguments with
-- named assumptions or as a log of calls; the search of the crate memchr is an argument, assumed to
-- return the first index; the reports of the director are formatting of the values modelled.
mod Prelude
pub mod Outcome
pub mod Memory
pub mod Workspace
pub mod WsBuffer
pub mod Filters
pub mod HeaderText
pub mod Boxes
pub mod Http
pub mod Processors
pub mod Backends
pub mod Directors
pub mod Metrics
pub mod Probes
pub mod Bodies
pub mod RoundRobin
pub mod Macros
