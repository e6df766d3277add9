-- ===== src/Processors/Tests.antt =====
-- Runs of processors that count, and instances of their theorems.
use varnish_rs.Prelude.{
  ℕ, ◌+◌, ◌≡◌, refl, true, none, some, List, [], ◌∷◌, ℤ, pos, negsuc, length, arith,
}
use varnish_rs.Outcome.{utf8_error, ok, panic}
use varnish_rs.Memory.{read}
use varnish_rs.Processors.{
  PushResult, push_err, push_ok, push_end, pull_ok, init_err, init_ok, init_pass, VdpAction,
  act_null, act_flush, act_other,
}
use varnish_rs.Processors.Delivery.{
  DeliveryProcessor, VdpCall, gen_vdp_init, gen_vdp_push, gen_vdp_fini,
}
use varnish_rs.Processors.Fetch.{FetchProcessor, VfpCall, wrap_vfp_pull, ctx_pull}
use varnish_rs.Processors.Lifecycle.{Chunk, push_all, push_and_close, Started, gen_vdp_lem}
use varnish_rs.Processors.Chains.{next_pull, Sees, ctx_pull-wrap_vfp_pull}

-- Adds the lengths of its buffers to the world, and stops at a flush.
abbrev answer_to : VdpAction → PushResult
answer_to act_flush = push_end
answer_to _ = push_ok

abbrev counter : DeliveryProcessor ℕ ℕ
counter = record {
  create = λ w. (init_ok 0, w);
  handle = λ act buf t w. (answer_to act, t + 1, w + length buf);
}

abbrev refusing : DeliveryProcessor ℕ ℕ
refusing = record {
  create = λ w. (init_err utf8_error, w);
  handle = λ act buf t w. (push_err, t, w);
}

abbrev call : VdpCall ℕ ℕ
call = record {
  place = some none;
  ctx_valid = true;
  vdp_valid = true;
  mem = λ a. a;
  world = 0;
  boxes = record { made = 0; dropped = 0 };
}

abbrev chunks : List Chunk
chunks = (act_null, 8, 3) ∷ (act_flush, 0, 9) ∷ (act_other 7, 8, 1) ∷ []

-- A null buffer is empty, and an action that is not known has the status 1.
-- The processor of `call`, started.
abbrev started : VdpCall ℕ ℕ
started = record call { place = some (some 0); boxes = record { made = 1; dropped = 0 } }

push_and_close_counts : push_and_close counter chunks started ≡ (
  ok (pos 0 ∷ pos 1 ∷ pos 1 ∷ []),
  record call { place = some none; world = 3; boxes = record { made = 1; dropped = 1 } },
)
unfolding push_and_close push_all gen_vdp_push gen_vdp_fini read
push_and_close_counts = refl

start_refused : (gen_vdp_init refusing call).0 ≡ ok (negsuc 0)
unfolding gen_vdp_init
start_refused = refl

start_twice : (gen_vdp_init counter (record call { place = some (some 4) })).0 ≡ panic
unfolding gen_vdp_init
start_twice = refl

gen_vdp_lem_example :
    (code : ℤ) × (c1 : VdpCall ℕ ℕ) × (gen_vdp_init counter call ≡ (ok code, c1))
    × Started counter (init_ok 0) call code c1
gen_vdp_lem_example = gen_vdp_lem counter call refl refl refl

-- Writes as many bytes as the world says.
abbrev source : FetchProcessor ℕ ℕ
source = record { create = λ w. (init_pass, w); fetch = λ buf t w. (pull_ok w, buf, t, w) }

abbrev entry : ℕ → VfpCall ℕ ℕ
entry w = record {
  ctx_valid = true;
  vfp_valid = true;
  entry_valid = true;
  priv1 = some 0;
  buf = some (0 ∷ 0 ∷ []);
  len = pos 2;
  world = w;
  boxes = record { made = 1; dropped = 0 };
}

pull_too_much : (ctx_pull (next_pull source) 2 (entry 3)).0 ≡ panic
unfolding ctx_pull wrap_vfp_pull
pull_too_much = refl

ctx_pull-wrap_vfp_pull_example :
    Sees source (pull_ok 1) 2 (ctx_pull (next_pull source) 2 (entry 1)).0
ctx_pull-wrap_vfp_pull_example =
    ctx_pull-wrap_vfp_pull source (entry 1) 0 2 refl refl refl (omega arith)
