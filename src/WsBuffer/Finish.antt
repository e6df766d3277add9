-- ===== src/WsBuffer/Finish.antt =====
-- varnish-sys/src/vcl/ws_str_buffer.rs: `release`, `drop` and the three `finish`.
use varnish_rs.Prelude.{
  ℕ, ◌+◌, ◌-◌, ◌^◌, ◌≤◌, ◌≡◌, ◌≢◌, refl, arith, lt→ltb, ne→==, le→leb, Bool, true,
}
use varnish_rs.Outcome.{ok}
use varnish_rs.Memory.{null}
use varnish_rs.Workspace.{Runtime}
use varnish_rs.Workspace.Allocator.{round_up}
use varnish_rs.Workspace.Contract.{IsIdle, IsRuntime}
use varnish_rs.WsBuffer.{Layout, Suffix, WsBuffer, get_suffix_ptr, release, drop}
use varnish_rs.WsBuffer.Align.{align_up-le}
use varnish_rs.WsBuffer.Create.{IsSuffix, IsBuffer}

module _ {A : Type 0} (item : Layout A) (sfx : Suffix) (is : IsSuffix sfx) (b : WsBuffer)
    (v : IsBuffer item sfx b) where
  -- In a well-formed buffer the place for the suffix behind the items is inside the workspace.
  pub suffix_fits : (b.unused ≤ get_suffix_ptr sfx b) × (get_suffix_ptr sfx b + sfx.size ≤ b.ws.e)
  unfolding get_suffix_ptr
  suffix_fits =
      let r : b.unused ≤ v.last = omega (arith, v.room) in
      let up = align_up-le b.unused sfx.align v.last is.align_pos r v.last_aligned in
      (omega arith, omega (arith, up, v.last_fits))

  start-ne-null : b.start_items ≢ null
  start-ne-null = omega (arith, v.start_at, v.reserved.ws.base, v.reserved.ws.lower)

  module _ (rt : Runtime) (laws : IsRuntime rt) where
    -- The state after a release that keeps `n` bytes.
    abbrev pub released : ℕ → WsBuffer
    released n = record b {
      ws = record (b.ws) { f = b.ws.f + round_up n; r = null };
      start_items = null;
    }

    pub released-IsIdle : (n : ℕ) → b.ws.f + n ≤ b.ws.e → IsIdle (released n).ws
    released-IsIdle n h = record {
      ws = record {
        magic_ok = v.reserved.ws.magic_ok;
        base = v.reserved.ws.base;
        lower = omega (arith, v.reserved.ws.lower);
        upper = omega (arith, v.reserved.ws.f_aligned, v.reserved.ws.e_aligned);
        f_aligned = omega (arith, v.reserved.ws.f_aligned);
        e_aligned = v.reserved.ws.e_aligned;
        fits = v.reserved.ws.fits;
        address = v.reserved.ws.address;
      };
      free = refl;
    }

    -- Dropping a well-formed buffer succeeds, ends the reservation, takes no byte of the workspace
    -- and writes nothing.
    pub drop_lem :
        (b' : WsBuffer) × (drop rt sfx b ≡ (ok tt, b'))
        × IsIdle b'.ws
        × (b'.ws.f ≡ b.ws.f)
        × (b'.ws.mem ≡ b.ws.mem)
        × (b'.start_items ≡ null)
    unfolding drop
    drop_lem = (
      released 0,
      rw (
        ne→== b.start_items null start-ne-null,
        laws.release_reserved 0 b.ws v.reserved (omega (arith, v.reserved.ws.upper)),
      ),
      released-IsIdle 0 (omega (arith, v.reserved.ws.upper)),
      omega arith,
      refl,
      refl,
    )

    -- The bytes that a release keeps.
    abbrev pub used : ℕ
    used = get_suffix_ptr sfx b - b.ws.f + sfx.size

    pub used-fits : b.ws.f + used ≤ b.ws.e
    used-fits = omega (arith, suffix_fits, v.start_at, v.unused_at)

    pub release_lem : release rt sfx true b ≡ (ok tt, released used)
    unfolding release
    release_lem = rw (
      ne→== b.start_items null start-ne-null,
      le→leb b.ws.f (get_suffix_ptr sfx b) (omega (arith, suffix_fits, v.start_at, v.unused_at)),
      lt→ltb used (2 ^ 32) (omega (arith, used-fits, v.reserved.ws.lower, v.reserved.ws.fits)),
      laws.release_reserved used b.ws v.reserved used-fits,
    )

-- A second release does nothing.
pub release_null :
    (rt : Runtime) (sfx : Suffix) (keep : Bool) (b : WsBuffer)
    → b.start_items ≡ null
    → release rt sfx keep b ≡ (ok tt, record b { start_items = null })
unfolding release
release_null rt sfx keep b h = ground arith
