-- ===== src/Http/Find.antt =====
-- varnish-sys/src/vcl/http.rs: `header` finds the first header of the name.
use varnish_rs.Prelude.{
  ◌≡◌, refl, Option, none, some, List, [], ◌∷◌, if◌then◌else◌, Bool-cases, inl, inr,
}
use varnish_rs.Outcome.{Bytes, ok}
use varnish_rs.Workspace.{Ws}
use varnish_rs.HeaderText.{StrOrBytes, eq_ignore_ascii_case}
use varnish_rs.Http.{Slot, Http, HdrIndex}
use varnish_rs.Http.Lookup.{find_value, header}
use varnish_rs.Http.State.{Row, slots_of, AllHave, IsHttp, iter-IsHttp}

-- The value of the first header of the name, without regard to case.
abbrev pub lookup : Bytes → List Row → Option StrOrBytes
lookup name [] = none
lookup name (r ∷ rows) = if eq_ignore_ascii_case name r.name then some r.value else lookup name rows

find_value-lookup :
    (name : Bytes) (w : Ws) (rows : List Row)
    → AllHave w rows
    → find_value name w.mem (slots_of rows) ≡ ok (lookup name rows)
unfolding find_value
find_value-lookup name w [] h = refl
find_value-lookup name w (r ∷ rows) ((s, e), hs) =
    rw (e, find_value-lookup name w rows hs)
      (elim (Bool-cases (eq_ignore_ascii_case name r.name)) [
        | inl same ↦ rw same
        | inr other ↦ rw other
      ])

-- Looking a header up gives the value of the first header of the name, compared without regard to
-- case, or none.
pub header_lem :
    (ix : HdrIndex) (special : List Slot) (rows : List Row) (h : Http) (name : Bytes)
    → IsHttp ix special rows h
    → header ix name h ≡ ok (lookup name rows)
unfolding header
header_lem ix special rows h name v =
    rw (iter-IsHttp h v) (find_value-lookup name h.ws rows v.headers)
