-- ===== src/Macros/Names.antt =====
-- varnish-macros/src/names.rs: the names of generated items. None stands for a panic of `expect` or
-- of `assert!`. Where a name is made an identifier, Macros/Wrappers/Generate checks that it is one.
pub mod Collisions
use Prim.Native.String.{String, ◌++◌}
use varnish_rs.Prelude.{Bool, true, false, Option, none, some}
use varnish_rs.Macros.Syntax.{and_then}
use varnish_rs.Macros.Types.{FuncType, function, constructor, destructor, method, event}

pub record Names : Type 0 where
  pub module_name : String
  pub object : Option String
  pub func : Option (FuncType × String)

abbrev pub names_of : String → Names
names_of mod_name = record { module_name = mod_name; object = none; func = none }

abbrev object_in : Option String → Option (FuncType × String) → String → String → Option Names
object_in none none mod_name obj =
    some (record { module_name = mod_name; object = some obj; func = none })
object_in _ _ mod_name obj = none

unfoldable pub to_obj : String → Names → Option Names
to_obj obj n = object_in n.object n.func n.module_name obj

abbrev func_in : Option (FuncType × String) → FuncType → String → Names → Option Names
func_in none t name n = some (record n { func = some (t, name) })
func_in (some f) t name n = none

unfoldable pub to_func : FuncType → String → Names → Option Names
to_func t name n = func_in n.func t name n

abbrev pub obj_name : Names → Option String
obj_name n = n.object

abbrev pub c_fn_name : FuncType × String → String
c_fn_name (destructor, name) = "_fini"
c_fn_name (_, name) = name

abbrev pub fn_name : Names → Option String
fn_name n = elim n.func [ none ↦ none | some f ↦ some (c_fn_name f) ]

abbrev pub user_name : Option (FuncType × String) → Option String
user_name none = none
user_name (some f) = some (f.1)

abbrev pub fn_name_user : Names → Option String
fn_name_user n = user_name n.func

abbrev pub func_struct_name : Names → String
func_struct_name n = "Vmod_vmod_" ++ (n.module_name ++ "_Func")

abbrev pub data_struct_name : Names → String
data_struct_name n = "Vmod_" ++ (n.module_name ++ "_Data")

abbrev pub struct_name_of : String → String → String
struct_name_of mod_name obj = "struct vmod_" ++ (mod_name ++ ("_" ++ obj))

abbrev pub struct_obj_name : Names → Option String
struct_obj_name n = elim n.object [
  | none ↦ none
  | some obj ↦ some (struct_name_of n.module_name obj)
]

-- The underscore and the object's name, if there is an object.
abbrev pub obj_name_parts : Option String → String
obj_name_parts none = ""
obj_name_parts (some obj) = "_" ++ obj

abbrev pub joined : String → Option String → Option (FuncType × String) → Option String
joined prefix object none = none
joined prefix object (some f) = some (prefix ++ (obj_name_parts object ++ ("_" ++ c_fn_name f)))

abbrev pub named : String → Names → Option String
named prefix n = joined prefix n.object n.func

unfoldable pub wrapper_fn_name : Names → Option String
wrapper_fn_name n = named "vmod_c" n

unfoldable pub arg_struct_name : Names → Option String
arg_struct_name n = named ("arg_vmod_" ++ n.module_name) n

unfoldable pub typedef_name : Names → Option String
typedef_name n = named ("td_vmod_" ++ n.module_name) n

unfoldable pub f_fn_name : Names → Option String
f_fn_name n = named "f" n
