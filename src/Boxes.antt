-- ===== src/Boxes.antt =====
-- The boxes that callbacks hand to varnishd as pointers: `Box::into_raw` makes one, and
-- `Box::from_raw` drops it (varnish-sys/src/vcl/processor.rs, varnish-sys/src/vcl/backend).
use varnish_rs.Prelude.{ℕ, suc}

pub record Boxes : Type 0 where
  pub made : ℕ
  pub dropped : ℕ

abbrev pub one_made : Boxes → Boxes
one_made b = record b { made = suc b.made }

abbrev pub one_dropped : Boxes → Boxes
one_dropped b = record b { dropped = suc b.dropped }
