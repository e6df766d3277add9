-- ===== src/Macros/Names/Collisions.antt =====
-- Names of wrappers that are the same.
use Prim.Native.String.{String, ◌++◌}
use text.Mathlib.TextLemmas.{append_assoc, nil-append}
use varnish_rs.Prelude.{◌≡◌, sym, ap, ◌∙◌, none, some}
use varnish_rs.Macros.Types.{function, method}
use varnish_rs.Macros.Names.{Names, wrapper_fn_name}

abbrev pub method_names : String → String → String → Names
method_names m obj name = record { module_name = m; object = some obj; func = some (method, name) }

abbrev pub function_names : String → String → Names
function_names m name = record { module_name = m; object = none; func = some (function, name) }

-- In every module, the wrapper of the method `name` of an object `obj` has the name of the wrapper of
-- a function `obj_name`.
pub wrapper_names_collide :
    (m obj name : String)
    → wrapper_fn_name (method_names m obj name)
      ≡ wrapper_fn_name (function_names m (obj ++ ("_" ++ name)))
unfolding wrapper_fn_name
wrapper_names_collide m obj name =
    ap (λ (t : String). some ("vmod_c" ++ t))
      (append_assoc "_" obj ("_" ++ name) ∙ sym (nil-append ("_" ++ (obj ++ ("_" ++ name)))))
