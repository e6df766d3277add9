-- ===== src/Probes/Tests.antt =====
-- A probe that is given to varnishd and read back.
use varnish_rs.Prelude.{ℕ, ◌≡◌, refl, none, some, [], ◌∷◌, arith}
use varnish_rs.Outcome.{Bytes, ok}
use varnish_rs.Memory.{Memory}
use varnish_rs.Workspace.{Ws, Runtime}
use varnish_rs.Workspace.Allocator.{test_runtime}
use varnish_rs.Workspace.Contract.{position, test_runtime-IsRuntime, fresh_ws, fresh_ws-IsIdle}
use varnish_rs.Workspace.Text.{text_of}
use varnish_rs.HeaderText.{is_utf8}
use varnish_rs.Probes.{url, Probe, VrtBackendProbe, ProbeLayout, into_vcl_probe, from_vcl_probe}
use varnish_rs.Probes.RoundTrip.{IsLayout, into_vcl_probe-from_vcl_probe}

-- A struct as one number for each field.
abbrev fields : VrtBackendProbe ℕ → Bytes
fields p =
    p.magic ∷ p.url ∷ p.request ∷ p.timeout ∷ p.interval ∷ p.exp_status ∷ p.window ∷ p.threshold
    ∷ p.initial ∷ []

abbrev no_fields : VrtBackendProbe ℕ
no_fields = record {
  magic = 0;
  url = 0;
  request = 0;
  timeout = 0;
  interval = 0;
  exp_status = 0;
  window = 0;
  threshold = 0;
  initial = 0;
}

abbrev of_fields : Bytes → VrtBackendProbe ℕ
of_fields (a ∷ b ∷ c ∷ d ∷ e ∷ f ∷ g ∷ h ∷ i ∷ []) = record {
  magic = a;
  url = b;
  request = c;
  timeout = d;
  interval = e;
  exp_status = f;
  window = g;
  threshold = h;
  initial = i;
}
of_fields _ = no_fields

abbrev layout : ProbeLayout ℕ ℕ
layout = record {
  into_dur = λ d. d;
  from_dur = λ d. d;
  lossy = λ bs. bs;
  magic = 5;
  size = 9;
  image = fields;
  decode = of_fields;
}

layout-IsLayout : IsLayout layout
layout-IsLayout = record {
  sized = omega arith;
  small = omega arith;
  image_size = λ p. refl;
  decode-image = λ p. refl;
  lossy_keeps = λ bs u. refl;
}

abbrev memory : Memory
memory a = 7

abbrev small : Ws
small = fresh_ws 64 36 memory

abbrev rt : Runtime
rt = test_runtime position

abbrev health : Probe ℕ
health = record {
  request = url (b'/' ∷ []);
  timeout = 2;
  interval = 5;
  exp_status = 200;
  window = 8;
  threshold = 3;
  initial = 2;
}

no_probe : from_vcl_probe layout 9 memory 0 ≡ ok none
unfolding from_vcl_probe
no_probe = refl

into_vcl_probe-from_vcl_probe_example :
    (p : ℕ) × (w' : Ws) × (into_vcl_probe layout rt health small ≡ (ok p, w'))
    × (from_vcl_probe layout 9 w'.mem p ≡ ok (some (record health { threshold = 0 })))
unfolding is_utf8 text_of
into_vcl_probe-from_vcl_probe_example =
    into_vcl_probe-from_vcl_probe layout layout-IsLayout rt test_runtime-IsRuntime health small 9
      (fresh_ws-IsIdle 64 36 memory (omega arith) (omega arith) (omega arith) (omega arith)) refl
      refl (omega arith) (omega arith) refl refl (omega arith)
