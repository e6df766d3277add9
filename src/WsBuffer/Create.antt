-- ===== src/WsBuffer/Create.antt =====
-- varnish-sys/src/vcl/ws_str_buffer.rs: the invariant of a `WsBuffer`, and its creation.
use native.Mathlib.Nat.{div-mul-le_self, lt-div-mul-add, div-eq_of_lt}
use varnish_rs.Prelude.{
  ℕ, ◌+◌, ◌-◌, ◌*◌, ◌/◌, ◌%◌, ◌≤◌, ◌<◌, ◌≡◌, refl, arith, ◌⊎◌, inl, inr, le-cases, [], length, ltb,
  if◌then◌else◌, eq→==, lt→ltb, le→ltb, le→leb,
}
use varnish_rs.Outcome.{ok, err, ws_out_of_memory}
use varnish_rs.Workspace.{Ws, Runtime}
use varnish_rs.Workspace.Contract.{IsIdle, IsReserved, IsRuntime}
use varnish_rs.WsBuffer.{
  Layout, Suffix, WsBuffer, align_offset, last_suffix, new, len, calc_len, remaining, as_ref, items,
}
use varnish_rs.WsBuffer.Align.{
  align_up-aligned, last_suffix-aligned, last_suffix-fits, last_suffix-latest,
}

-- The image of a value has the size of its type, and determines the value.
pub record IsLayout {A : Type 0} (item : Layout A) : Type 0 where
  pub size_pos : 0 < item.size
  pub align_pos : 0 < item.align
  pub image_size : (x : A) → length (item.to_bytes x) ≡ item.size
  pub reads_back : (x : A) → item.of_bytes (item.to_bytes x) ≡ x

-- A suffix without a size has the alignment of `()`.
pub record IsSuffix (sfx : Suffix) : Type 0 where
  pub align_pos : 0 < sfx.align
  pub unit : sfx.size ≡ 0 → sfx.align ≡ 1

-- The buffer holds `count` items, and the unused items end before the place of the suffix.
pub record IsBuffer {A : Type 0} (item : Layout A) (sfx : Suffix) (b : WsBuffer) : Type 0 where
  pub count : ℕ
  pub last : ℕ
  pub reserved : IsReserved b.ws
  pub start_at : b.start_items ≡ b.ws.f + align_offset b.ws.f item.align
  pub unused_at : b.unused ≡ b.start_items + count * item.size
  pub room : b.unused + b.unused_len * item.size ≤ last
  pub last_aligned : last % sfx.align ≡ 0
  pub last_fits : last + sfx.size ≤ b.ws.e

module _ {A : Type 0} (item : Layout A) (sfx : Suffix) where
  -- The bytes that a buffer needs at least.
  pub required : Ws → ℕ
  required w =
      align_offset w.f item.align
      + (if ltb 0 sfx.size then w.e - last_suffix sfx w.e else item.size)

  -- The empty buffer over the free part of `w`.
  abbrev pub fresh : Ws → WsBuffer
  fresh w = record {
    ws = record w { r = w.e };
    start_items = w.f + align_offset w.f item.align;
    unused = w.f + align_offset w.f item.align;
    unused_len =
        (w.e - w.f - align_offset w.f item.align - (w.e - last_suffix sfx w.e)) / item.size;
  }

  module _ (il : IsLayout item) (is : IsSuffix sfx) (w : Ws) (idle : IsIdle w)
      (low : sfx.size ≤ w.s) where
    stop-eq : w.f + (w.e - w.f) ≡ w.e
    stop-eq = omega (arith, idle.ws.upper)

    suffix_aligned : last_suffix sfx w.e % sfx.align ≡ 0
    suffix_aligned = last_suffix-aligned sfx w.e is.align_pos (omega arith) (omega arith)

    suffix_fits : last_suffix sfx w.e + sfx.size ≤ w.e
    suffix_fits = last_suffix-fits sfx w.e is.align_pos (omega arith) (omega arith)

    -- A suffix without a size takes no byte.
    suffix_unit : sfx.size ≡ 0 → last_suffix sfx w.e ≡ w.e
    suffix_unit z =
        let u : sfx.align ≡ 1 = is.unit z in
        omega
          (arith, last_suffix-latest sfx w.e is.align_pos (omega arith) (omega arith), suffix_fits)

    required-cases :
        ((0 < sfx.size) × (required w ≡ align_offset w.f item.align + (w.e - last_suffix sfx w.e)))
        ⊎ ((last_suffix sfx w.e ≡ w.e) × (required w ≡ align_offset w.f item.align + item.size))
    unfolding required
    required-cases = elim (le-cases sfx.size 0) [
      | inl z ↦ inr (suffix_unit (omega arith), rw (le→ltb 0 sfx.size z))
      | inr pos ↦ inl (pos, rw (lt→ltb 0 sfx.size pos))
    ]

    as_ref-fresh : as_ref item (fresh w) ≡ []
    unfolding as_ref len calc_len items
    as_ref-fresh =
        let start = w.f + align_offset w.f item.align in
        let e : start - start ≡ 0 = omega arith in rw (e, div-eq_of_lt il.size_pos)

    fresh-IsBuffer : required w ≤ w.e - w.f → IsBuffer item sfx (fresh w)
    fresh-IsBuffer enough = record {
      count = 0;
      last = last_suffix sfx w.e;
      reserved = record {
        ws = record {
          magic_ok = idle.ws.magic_ok;
          base = idle.ws.base;
          lower = idle.ws.lower;
          upper = idle.ws.upper;
          f_aligned = idle.ws.f_aligned;
          e_aligned = idle.ws.e_aligned;
          fits = idle.ws.fits;
          address = idle.ws.address;
        };
        taken = refl;
      };
      start_at = refl;
      unused_at = omega arith;
      room = omega (
        arith,
        required-cases,
        suffix_fits,
        div-mul-le_self (w.e - w.f - align_offset w.f item.align - (w.e - last_suffix sfx w.e))
            item.size,
      );
      last_aligned = suffix_aligned;
      last_fits = suffix_fits;
    }

    module _ (rt : Runtime) (laws : IsRuntime rt) where
      new-room : required w ≤ w.e - w.f → new rt item sfx w ≡ (ok (fresh w), record w { r = w.e })
      unfolding new required
      new-room enough = rw (
        laws.reserve_idle w idle,
        stop-eq,
        eq→== (last_suffix sfx w.e % sfx.align) 0 suffix_aligned,
        le→leb (last_suffix sfx w.e) w.e (omega (arith, suffix_fits)),
        eq→== ((w.f + align_offset w.f item.align) % item.align) 0
            (align_up-aligned w.f item.align il.align_pos),
        le→ltb (w.e - w.f) (required w) enough,
      )

      new-full :
          w.e - w.f < required w
          → new rt item sfx w ≡ (err (ws_out_of_memory (required w)), record w { r = w.e })
      unfolding new required
      new-full short = rw (
        laws.reserve_idle w idle,
        stop-eq,
        eq→== (last_suffix sfx w.e % sfx.align) 0 suffix_aligned,
        le→leb (last_suffix sfx w.e) w.e (omega (arith, suffix_fits)),
        eq→== ((w.f + align_offset w.f item.align) % item.align) 0
            (align_up-aligned w.f item.align il.align_pos),
        lt→ltb (w.e - w.f) (required w) short,
      )

      -- In an idle workspace that starts above the size of the suffix: if the required bytes are
      -- free, the buffer is created empty and well-formed over the reserved workspace, and one
      -- more item than it has room for would not end before the suffix; if they are not free, the
      -- error names them, and the workspace is left reserved.
      pub new_lem :
          ((required w ≤ w.e - w.f)
            × ((b : WsBuffer) × (new rt item sfx w ≡ (ok b, record w { r = w.e }))
                × IsBuffer item sfx b
                × (as_ref item b ≡ [])
                × (last_suffix sfx w.e < b.start_items + (remaining b + 1) * item.size)))
          ⊎ ((w.e - w.f < required w)
              × (new rt item sfx w ≡ (err (ws_out_of_memory (required w)), record w { r = w.e })))
      unfolding remaining
      new_lem = elim (le-cases (required w) (w.e - w.f)) [
        | inl enough ↦ inl (
          enough,
          (
            fresh w,
            new-room enough,
            fresh-IsBuffer enough,
            as_ref-fresh,
            omega (
              arith,
              suffix_fits,
              lt-div-mul-add
                  {a = w.e - w.f - align_offset w.f item.align - (w.e - last_suffix sfx w.e)}
                  il.size_pos,
            ),
          ),
        )
        | inr short ↦ inr (short, new-full short)
      ]
