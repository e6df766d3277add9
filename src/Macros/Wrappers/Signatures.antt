-- ===== src/Macros/Wrappers/Signatures.antt =====
-- The processor that `init` fills: its signature and its prototype agree.
use Prim.Native.String.{String, ◌++◌ as cat}
use varnish_rs.Prelude.{
  ◌≡◌, refl, ap, ◌∙◌, Bool, true, false, Option, none, some, List, [], ◌∷◌, ◌++◌,
}
use varnish_rs.Macros.Types.{FuncType, function, constructor, destructor, method, event}
use varnish_rs.Macros.Total.{Total, Total-and_then}
use varnish_rs.Macros.Attributes.{Value}
use varnish_rs.Macros.Params.{SharedTypes}
use varnish_rs.Macros.Functions.{FuncInfo}
use varnish_rs.Macros.Names.{Names, arg_struct_name, joined}
use varnish_rs.Macros.Wrappers.{args_ptr, FuncProcessor, decl, has_signature, or_unit}
use varnish_rs.Macros.Wrappers.Prototype.{
  kind_args, optional_args, gather, opt_struct_name, no_steps, use_shared_per_vcl,
}
use varnish_rs.Macros.Wrappers.Agreement.{
  type_texts, type_texts-snoc, Agrees, AllInStruct, params-Agrees, per_vcl-Agrees,
}

-- Before the arguments of the function.
abbrev Fresh : FuncProcessor → Type 0
Fresh p =
    (type_texts p.names.module_name p.wrap_fn_arg_decl ≡ p.cproto_fn_arg_decl) × Agrees false p

-- A function of an object has its name.
abbrev pub HasObject : FuncType → Option String → Type 0
HasObject constructor none = ⊥
HasObject destructor none = ⊥
HasObject method none = ⊥
HasObject _ _ = Unit {0}

kind_args-Fresh :
    (t : FuncType) (o : Option String) (names : Names) (ty : String)
    → has_signature t ≡ true
    → HasObject t o
    → Total Fresh (kind_args t o (no_steps names ty))
kind_args-Fresh function none names ty c h = (refl, (refl, refl))
kind_args-Fresh function (some obj) names ty c h = (refl, (refl, refl))
kind_args-Fresh constructor (some obj) names ty c h = (refl, (refl, refl))
kind_args-Fresh method (some obj) names ty c h = (refl, (refl, refl))
kind_args-Fresh constructor none names ty c h = elim h [ ]
kind_args-Fresh method none names ty c h = elim h [ ]
kind_args-Fresh destructor o names ty c h = cc
kind_args-Fresh event o names ty c h = cc

optional_args-Agrees : (b : Bool) (p : FuncProcessor) → Fresh p → Agrees b (optional_args b p)
optional_args-Agrees true p (h, (k, l)) =
    let m = p.names.module_name in
    (
      type_texts-snoc m p.wrap_fn_arg_decl (decl "__args" (args_ptr p.opt_args_ty_name))
          ∙ ap (λ (r : List String). r ++ cat "struct " (cat p.opt_args_ty_name " *") ∷ []) h,
      l,
    )
optional_args-Agrees false p (h, a) = a

-- The names of a function have it.
abbrev pub HasFunction : Option (FuncType × String) → Type 0
HasFunction none = ⊥
HasFunction (some f) = Unit {0}

abbrev pub Any : {A : Type 0} → A → Type 0
Any a = Unit {0}

pub joined-Total :
    (prefix : String) (o : Option String) (f : Option (FuncType × String))
    → HasFunction f
    → Total Any (joined prefix o f)
joined-Total prefix o none h = h
joined-Total prefix o (some f) h = tt

pub opt_struct_name-Total :
    (used : Bool) (names : Names) → HasFunction names.func → Total Any (opt_struct_name used names)
unfolding opt_struct_name arg_struct_name
opt_struct_name-Total true names h = joined-Total _ names.object names.func h
opt_struct_name-Total false names h = tt

module _ {N : Type 0} (to_string : Value N → String) (parses : String → Bool) (info : FuncInfo N)
    (shared : SharedTypes) where
  abbrev b : Bool
  b = info.has_optional_args

  pub gather-Agrees :
      (names : Names) (ty : String)
      → has_signature info.func_type ≡ true
      → HasObject info.func_type names.object
      → parses (or_unit shared.shared_per_task_ty) ≡ true
      → parses (or_unit shared.shared_per_vcl_ty) ≡ true
      → AllInStruct b info.args
      → Total (Agrees b) (gather to_string parses info shared (no_steps names ty))
  unfolding gather
  gather-Agrees names ty c o e f s =
      Total-and_then Fresh (Agrees b) (kind_args info.func_type names.object (no_steps names ty)) _
        (kind_args-Fresh info.func_type names.object names ty c o)
        (λ q fresh.
          Total-and_then (Agrees b) (Agrees b) _ _
            (per_vcl-Agrees to_string info shared c parses (use_shared_per_vcl info)
              (optional_args b q) f (optional_args-Agrees b q fresh))
            (λ r agrees. params-Agrees to_string info shared c parses info.args r e s agrees))
