-- ===== src/Macros/Params.antt =====
-- varnish-macros/src/parser_args.rs and varnish-macros/src/parser_utils.rs: the kinds of
-- parameters, the state of parsing the arguments of a function, and the checks on them.
use Prim.Native.String.{String}
use text.Mathlib.Text.{◌==◌ as str_eq}
use varnish_rs.Prelude.{Bool, true, false, not, Option, none, some, List, if◌then◌else◌}
use varnish_rs.Outcome.{Result, ok, err, Fallible, pure, fail, gets, ◌>>=◌}
use varnish_rs.Macros.Syntax.{
  Ty, and_then, as_ref_ty, as_ref_mut_ty, as_option_type, as_box_type, as_ref_cell_type,
}
use varnish_rs.Macros.Types.{FuncType, function, constructor, method, event, ParamTy}
use varnish_rs.Macros.Output.{is_event}
use varnish_rs.Macros.Attributes.{
  Attribute, OnAttributes, remove_attr, Value, Special, ctx_or_ws, shared_per_task, shared_per_vcl,
  event_kind, vcl_name, fetch_filters, delivery_filters, ParamError, twice, shared_type_shape,
  shared_type_differs, not_parsed_again, not_a_ref_cell,
}

-- `FuncStatus`: the kind of the function, and which special parameters were met.
pub record FuncStatus : Type 0 where
  pub func_type : FuncType
  pub has_ctx_or_ws : Bool
  pub has_shared_per_task : Bool
  pub has_shared_per_vcl : Bool
  pub has_event : Bool
  pub has_vcl_name : Bool
  pub has_fetch_filters : Bool
  pub has_delivery_filters : Bool

abbrev pub new_status : FuncType → FuncStatus
new_status t = record {
  func_type = t;
  has_ctx_or_ws = false;
  has_shared_per_task = false;
  has_shared_per_vcl = false;
  has_event = false;
  has_vcl_name = false;
  has_fetch_filters = false;
  has_delivery_filters = false;
}

abbrev pub has : Special → FuncStatus → Bool
has ctx_or_ws s = s.has_ctx_or_ws
has shared_per_task s = s.has_shared_per_task
has shared_per_vcl s = s.has_shared_per_vcl
has event_kind s = s.has_event
has vcl_name s = s.has_vcl_name
has fetch_filters s = s.has_fetch_filters
has delivery_filters s = s.has_delivery_filters

abbrev pub mark : Special → FuncStatus → FuncStatus
mark ctx_or_ws s = record s { has_ctx_or_ws = true }
mark shared_per_task s = record s { has_shared_per_task = true }
mark shared_per_vcl s = record s { has_shared_per_vcl = true }
mark event_kind s = record s { has_event = true }
mark vcl_name s = record s { has_vcl_name = true }
mark fetch_filters s = record s { has_fetch_filters = true }
mark delivery_filters s = record s { has_delivery_filters = true }

pub record SharedTypes : Type 0 where
  pub shared_per_task_ty : Option String
  pub shared_per_vcl_ty : Option String

-- What parsing an argument changes.
pub record Parsing : Type 0 where
  pub status : FuncStatus
  pub shared : SharedTypes
  pub attrs : List Attribute

abbrev pub Parser : Type 0 → Type 0
Parser A = Fallible ParamError Parsing A

pub data ParamKind : Type 0 where
  regular optional required : ParamKind

pub record ParamInfo (N : Type 0) : Type 0 where
  pub kind : ParamKind
  pub default : Value N
  pub ty_info : ParamTy

pub data ParamType (N : Type 0) : Type 0 where
  context : Bool → ParamType N
  workspace : Bool → ParamType N
  self_type : ParamType N
  event_param : ParamType N
  name_param : ParamInfo N → ParamType N
  per_task_mut : ParamType N
  per_task_ref : ParamType N
  per_task_ref_cell : ParamType N
  per_vcl_ref : ParamType N
  per_vcl_mut : ParamType N
  fetch_filters_param : ParamType N
  delivery_filters_param : ParamType N
  value : ParamInfo N → ParamType N

-- The macros `error!`, `unique!`, `only_in!` and `not_in!`.
abbrev pub fail_if : Bool → ParamError → Parser (Unit {0})
fail_if b e = if b then fail e else pure tt

abbrev marked : Special → Parser (Unit {0})
marked c s = (ok tt, record s { status = mark c s.status })

unfoldable pub unique : Special → Parser (Unit {0})
unique c s = if has c s.status then (err (twice c), s) else marked c s

abbrev pub kind_of_function : Parser FuncType
kind_of_function = gets (λ s. s.status.func_type)

unfoldable pub only_in : (FuncType → Bool) → ParamError → Parser (Unit {0})
only_in allowed e = do t ← kind_of_function; fail_if (not (allowed t)) e

unfoldable pub not_in_event : ParamError → Parser (Unit {0})
not_in_event e = do t ← kind_of_function; fail_if (is_event t) e

abbrev pub constructor_or_event : FuncType → Bool
constructor_or_event constructor = true
constructor_or_event event = true
constructor_or_event _ = false

abbrev pub function_or_method : FuncType → Bool
function_or_method function = true
function_or_method method = true
function_or_method _ = false

-- Runs an operation on the attributes alone.
abbrev pub on_attributes : {A : Type 0} → OnAttributes A → Parser A
on_attributes m s = ((m s.attrs).0, record s { attrs = (m s.attrs).1 })

abbrev pub is_some : {A : Type 0} → Option A → Bool
is_some none = false
is_some (some a) = true

unfoldable pub remove : String → Parser Bool
unfolding remove_attr
remove name s =
    (ok (is_some (remove_attr name s.attrs).0), record s { attrs = (remove_attr name s.attrs).1 })

-- The store of the type that is shared per task, and of the one shared per VCL.
pub data Store : Type 0 where
  task_store vcl_store : Store

abbrev pub stored : Store → SharedTypes → Option String
stored task_store t = t.shared_per_task_ty
stored vcl_store t = t.shared_per_vcl_ty

abbrev pub keep : Store → String → SharedTypes → SharedTypes
keep task_store ty t = record t { shared_per_task_ty = some ty }
keep vcl_store ty t = record t { shared_per_vcl_ty = some ty }

-- `to_text` prints a type after its lifetimes were made anonymous, and `parses` says whether a text
-- is a type again.
module _ (to_text : Ty → String) (parses : String → Bool) where
  abbrev pub store_text :
      Store → String → Parsing → Option String → Result ParamError (Unit {0}) × Parsing
  store_text store ty s (some t) = (if str_eq t ty then ok tt else err (shared_type_differs t), s)
  store_text store ty s none =
      if parses ty
      then (ok tt, record s { shared = keep store ty s.shared })
      else (err (not_parsed_again ty), s)

  unfoldable pub store_shared : Store → Option Ty → Bool → Parser (Unit {0})
  store_shared store none is_mut s = (err (shared_type_shape is_mut), s)
  store_shared store (some ty) is_mut s = store_text store (to_text ty) s (stored store s.shared)

  unfoldable pub parse_shared_mut : Store → Ty → Parser (Unit {0})
  unfolding store_shared as_ref_mut_ty as_option_type as_box_type
  parse_shared_mut store arg_ty =
      store_shared store (and_then (and_then (as_ref_mut_ty arg_ty) as_option_type) as_box_type)
        true

  unfoldable pub parse_shared_ref : Store → Ty → Parser (Unit {0})
  unfolding store_shared as_ref_ty as_option_type
  parse_shared_ref store arg_ty =
      store_shared store (and_then (as_option_type arg_ty) as_ref_ty) false

  abbrev pub of_option : Ty → Option Ty
  of_option t = if is_some (and_then (as_ref_cell_type t) as_option_type) then some t else none

  unfoldable pub parse_shared_ref_cell : Store → Ty → Parser (Unit {0})
  unfolding store_shared
  parse_shared_ref_cell store arg_ty =
      let refcell_ty = and_then (as_ref_ty arg_ty) of_option in
      if is_some refcell_ty then store_shared store refcell_ty false else fail not_a_ref_cell
