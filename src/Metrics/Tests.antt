-- ===== src/Metrics/Tests.antt =====
-- Runs of the table of metrics, and an instance of its theorem.
use varnish_rs.Prelude.{◌≡◌, ◌⊎◌, refl, List, [], ◌∷◌}
use varnish_rs.Outcome.{ok, panic}
use varnish_rs.HeaderText.{is_utf8}
use varnish_rs.Metrics.{
  Semantics, counter, gauge, bitmap, unknown, semantics_from, semantics_char, MetricFormat,
  format_from, format_char, VscPoint, metric_of, MetricsReaderImpl, PointCall, add, del, add_point,
  del_point, update, vsc_iter, get_clamped_value,
}
use varnish_rs.Metrics.Balance.{Allowed, Reports, Panics, update_lem}

abbrev uptime : VscPoint
uptime = record {
  ptr = 4096;
  name = b'u' ∷ b'p' ∷ [];
  sdesc = [];
  ldesc = [];
  semantics = b'c';
  format = b'd';
}

abbrev empty : MetricsReaderImpl
empty = record { points = []; added = []; deleted = [] }

abbrev calls : List PointCall
calls = add 8 uptime ∷ add 9 uptime ∷ del 8 ∷ []

update_reports :
    update calls empty
    ≡ (ok (8 ∷ 9 ∷ [], 8 ∷ []), record empty { points = (9, metric_of uptime) ∷ [] })
unfolding update vsc_iter add_point del_point is_utf8
update_reports = refl

add_twice : (update (add 8 uptime ∷ add 8 uptime ∷ []) empty).0 ≡ panic
unfolding update vsc_iter add_point is_utf8
add_twice = refl

not_utf8 : (add_point 8 (record uptime { name = 0xff ∷ [] }) empty).0 ≡ panic
unfolding add_point is_utf8
not_utf8 = refl

below_zero : get_clamped_value 18446744073709551615 ≡ 0
unfolding get_clamped_value
below_zero = refl

-- The character of a kind stands for that kind.
semantics_back : (s : Semantics) → semantics_from (semantics_char s) ≡ s
semantics_back counter = refl
semantics_back gauge = refl
semantics_back bitmap = refl
semantics_back unknown = refl

format_back : (f : MetricFormat) → format_from (format_char f) ≡ f
format_back MetricFormat.integer = refl
format_back MetricFormat.bytes_format = refl
format_back MetricFormat.bitmap_format = refl
format_back MetricFormat.duration = refl
format_back MetricFormat.unknown_format = refl

update_lem_example :
    (Allowed calls [] × Reports calls empty)
    ⊎ ((Allowed calls [] → ⊥) × Panics (update calls empty))
update_lem_example = update_lem calls empty refl refl
