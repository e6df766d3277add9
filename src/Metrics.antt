-- ===== src/Metrics.antt =====
-- varnish/src/metrics_reader.rs: the table of points that varnishd fills by callbacks, the kinds of
-- a metric, and its clamped value.
pub mod Balance
mod Tests
use varnish_rs.Prelude.{
  ℕ, zero, suc, ◌+◌, ◌^◌, Bool, true, false, not, ◌&&◌, Option, none, some, List, [], ◌∷◌, ◌++◌,
  ltb, ◌==◌, if◌then◌else◌, filterb,
}
use varnish_rs.Outcome.{Bytes, Outcome, ok, err, panic, Exec, pure, gets, ◌>>=◌, ◌>>◌}
use varnish_rs.HeaderText.{is_utf8}

pub data Semantics : Type 0 where
  counter gauge bitmap unknown : Semantics

pub data MetricFormat : Type 0 where
  integer bytes_format bitmap_format duration unknown_format : MetricFormat

-- By the code of a C character.
abbrev pub semantics_from : ℕ → Semantics
semantics_from value =
    if value == b'c'
    then counter
    else if value == b'g'
    then gauge
    else if value == b'b'
    then bitmap
    else unknown

abbrev pub semantics_char : Semantics → ℕ
semantics_char counter = b'c'
semantics_char gauge = b'g'
semantics_char bitmap = b'b'
semantics_char unknown = b'?'

abbrev pub format_from : ℕ → MetricFormat
format_from value =
    if value == b'i'
    then integer
    else if value == b'B'
    then bytes_format
    else if value == b'b'
    then bitmap_format
    else if value == b'd'
    then duration
    else unknown_format

abbrev pub format_char : MetricFormat → ℕ
format_char integer = b'i'
format_char bytes_format = b'B'
format_char bitmap_format = b'b'
format_char duration = b'd'
format_char unknown_format = b'?'

-- The value is the address of the counter.
pub record Metric : Type 0 where
  pub value : ℕ
  pub name : Bytes
  pub short_desc : Bytes
  pub long_desc : Bytes
  pub semantics : Semantics
  pub format : MetricFormat

-- `ffi::VSC_point`, with its C strings.
pub record VscPoint : Type 0 where
  pub ptr : ℕ
  pub name : Bytes
  pub sdesc : Bytes
  pub ldesc : Bytes
  pub semantics : ℕ
  pub format : ℕ

-- The map from handles to metrics is a list of pairs.
pub record MetricsReaderImpl : Type 0 where
  pub points : List (ℕ × Metric)
  pub added : List ℕ
  pub deleted : List ℕ

abbrev pub contains_key : ℕ → List (ℕ × Metric) → Bool
contains_key k [] = false
contains_key k ((key, m) ∷ points) = if key == k then true else contains_key k points

abbrev pub remove : ℕ → List (ℕ × Metric) → List (ℕ × Metric)
remove k [] = []
remove k ((key, m) ∷ points) = if key == k then remove k points else (key, m) ∷ remove k points

abbrev pub insert : ℕ → Metric → List (ℕ × Metric) → List (ℕ × Metric)
insert k m points = (k, m) ∷ remove k points

abbrev pub metric_of : VscPoint → Metric
metric_of p = record {
  value = p.ptr;
  name = p.name;
  short_desc = p.sdesc;
  long_desc = p.ldesc;
  semantics = semantics_from p.semantics;
  format = format_from p.format;
}

-- The strings of the point are UTF-8.
abbrev pub has_texts : VscPoint → Bool
has_texts p = is_utf8 p.name && (is_utf8 p.sdesc && is_utf8 p.ldesc)

-- With the address of the point, which is its handle. A handle that is taken is a panic.
unfoldable pub add_point : ℕ → VscPoint → Exec MetricsReaderImpl (Unit {0})
add_point k p r =
    let put = record r { points = insert k (metric_of p) r.points } in
    if not (has_texts p)
    then (panic, r)
    else if contains_key k r.points
    then (panic, put)
    else (ok tt, record put { added = r.added ++ k ∷ [] })

unfoldable pub del_point : ℕ → Exec MetricsReaderImpl (Unit {0})
del_point k r =
    if contains_key k r.points
    then (ok tt, record r { points = remove k r.points; deleted = r.deleted ++ k ∷ [] })
    else (panic, r)

-- The calls of varnishd in one `VSC_Iter`.
pub data PointCall : Type 0 where
  add : ℕ → VscPoint → PointCall
  del : ℕ → PointCall

abbrev pub run_call : PointCall → Exec MetricsReaderImpl (Unit {0})
run_call (add k p) = add_point k p
run_call (del k) = del_point k

unfoldable pub vsc_iter : List PointCall → Exec MetricsReaderImpl (Unit {0})
vsc_iter [] = pure tt
vsc_iter (call ∷ calls) = run_call call >> vsc_iter calls

-- `mem::take` leaves the lists empty.
abbrev pub take_changes : Exec MetricsReaderImpl (List ℕ × List ℕ)
take_changes r = (ok (r.added, r.deleted), record r { added = []; deleted = [] })

unfoldable pub update : List PointCall → Exec MetricsReaderImpl (List ℕ × List ℕ)
unfolding vsc_iter
update calls = do vsc_iter calls; take_changes

-- Of the 64 bits behind the address: a gauge that went below 0 reads as 0.
unfoldable pub get_clamped_value : ℕ → ℕ
get_clamped_value v = if ltb v (2 ^ 63) then v else 0
