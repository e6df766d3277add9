-- ===== src/WsBuffer/Results.antt =====
-- varnish-sys/src/vcl/ws_str_buffer.rs: what `finish` of a string, a blob and a temporary buffer
-- hands over.
use varnish_rs.Prelude.{
  ℕ, zero, suc, ◌+◌, ◌*◌, ◌%◌, ◌≤◌, ◌<◌, ◌≡◌, refl, sym, ap, ◌∙◌, arith, ◌⊎◌, inl, inr, [], ◌∷◌,
  length,
}
use varnish_rs.Outcome.{Bytes, ok}
use varnish_rs.Memory.{Memory, read, write_outside, read-write, read-write_disjoint}
use varnish_rs.Workspace.{Runtime, Slice}
use varnish_rs.Workspace.Contract.{IsIdle, IsRuntime}
use varnish_rs.WsBuffer.{
  Layout, Suffix, WsBuffer, len, items, as_ref, get_suffix_ptr, finish_str, finish_blob,
  finish_temp, poke, byte, str_suffix, blob_suffix, no_suffix,
}
use varnish_rs.WsBuffer.Align.{align_up-aligned}
use varnish_rs.WsBuffer.Create.{IsLayout, IsSuffix, IsBuffer}
use varnish_rs.WsBuffer.Items.{len-eq-count}
use varnish_rs.WsBuffer.Finish.{
  suffix_fits, release_lem, released, released-IsIdle, used, used-fits,
}

pub byte-IsLayout : IsLayout byte
byte-IsLayout = record {
  size_pos = omega arith;
  align_pos = omega arith;
  image_size = λ x. refl;
  reads_back = λ x. refl;
}

pub str_suffix-IsSuffix : IsSuffix str_suffix
str_suffix-IsSuffix = record { align_pos = omega arith; unit = λ h. refl }

pub blob_suffix-IsSuffix : IsSuffix blob_suffix
blob_suffix-IsSuffix = record { align_pos = omega arith; unit = λ h. absurd (omega arith) }

pub no_suffix-IsSuffix : IsSuffix no_suffix
no_suffix-IsSuffix = record { align_pos = omega arith; unit = λ h. refl }

-- The items of a byte buffer are its bytes.
items-byte : (m : Memory) (p n : ℕ) → items byte m p n ≡ read m p n
unfolding items read
items-byte m p zero = refl
items-byte m p (suc n) =
    let e : p + 1 ≡ suc p = omega arith in rw e (ap (◌∷◌ (m p)) (items-byte m (suc p) n))

abbrev poked : ℕ → Bytes → WsBuffer → WsBuffer
poked p bs b = (poke p bs b).1

poked-IsBuffer :
    {A : Type 0} (item : Layout A) (sfx : Suffix) (p : ℕ) (bs : Bytes) (b : WsBuffer)
    → IsBuffer item sfx b
    → IsBuffer item sfx (poked p bs b)
poked-IsBuffer item sfx p bs b v = record {
  count = v.count;
  last = v.last;
  reserved = record {
    ws = record {
      magic_ok = v.reserved.ws.magic_ok;
      base = v.reserved.ws.base;
      lower = v.reserved.ws.lower;
      upper = v.reserved.ws.upper;
      f_aligned = v.reserved.ws.f_aligned;
      e_aligned = v.reserved.ws.e_aligned;
      fits = v.reserved.ws.fits;
      address = v.reserved.ws.address;
    };
    taken = v.reserved.taken;
  };
  start_at = v.start_at;
  unused_at = v.unused_at;
  room = v.room;
  last_aligned = v.last_aligned;
  last_fits = v.last_fits;
}

-- What a finished string buffer leaves: the bytes written stand at the returned pointer, with a
-- NUL behind them, in the part of an idle workspace that is taken.
pub record FinishedStr (b : WsBuffer) (p : ℕ) (b' : WsBuffer) : Type 0 where
  pub idle : IsIdle b'.ws
  pub content : read b'.ws.mem p (len byte b) ≡ as_ref byte b
  pub terminated : read b'.ws.mem (p + len byte b) 1 ≡ 0 ∷ []
  pub inside : p + len byte b < b'.ws.f
  pub begins : p ≡ b.ws.f
  pub keeps : (a : ℕ) → (a < b.unused) ⊎ (b.unused < a) → b'.ws.mem a ≡ b.ws.mem a

module _ (rt : Runtime) (laws : IsRuntime rt) where
  -- Finishing a well-formed string buffer succeeds, also when the buffer is full: the returned
  -- pointer is that of the bytes written, with a NUL behind them, and only the NUL's byte changes.
  pub finish_str_lem :
      (b : WsBuffer)
      → IsBuffer byte str_suffix b
      → (p : ℕ) × (b' : WsBuffer) × (finish_str rt b ≡ (ok p, b')) × FinishedStr b p b'
  unfolding finish_str as_ref
  finish_str_lem b v =
      let c = poked b.unused (0 ∷ []) b in
      let vc = poked-IsBuffer byte str_suffix b.unused (0 ∷ []) b v in
      let is = str_suffix-IsSuffix in
      let n = used byte str_suffix is c vc rt laws in
      let fits = suffix_fits byte str_suffix is c vc in
      let k = len-eq-count byte byte-IsLayout b v in
      let s : b.start_items ≡ b.ws.f = omega (arith, v.start_at) in
      let u : b.unused ≡ b.ws.f + v.count = omega (arith, v.start_at, v.unused_at) in
      (
        b.ws.f,
        released byte str_suffix is c vc rt laws n,
        rw (release_lem byte str_suffix is c vc rt laws),
        record {
          idle =
              released-IsIdle byte str_suffix is c vc rt laws n
                (used-fits byte str_suffix is c vc rt laws);
          content =
              read-write_disjoint b.ws.mem b.unused (0 ∷ []) b.ws.f (len byte b)
                (inl (omega (arith, k, u)))
              ∙ sym (items-byte b.ws.mem b.ws.f (len byte b))
              ∙ ap (λ q. items byte b.ws.mem q (len byte b)) (sym s);
          terminated =
              let e : b.ws.f + len byte b ≡ b.unused = omega (arith, k, u) in
              rw e (read-write b.ws.mem b.unused (0 ∷ []));
          inside = omega (arith, k, u, fits);
          begins = refl;
          keeps = λ a away.
              write_outside b.ws.mem b.unused (0 ∷ []) a
                (elim away [ inl below ↦ inl below | inr above ↦ inr (omega arith) ]);
        },
      )

-- What a finished blob buffer leaves: an aligned struct, in the part of an idle workspace that is
-- taken, which describes the bytes written.
pub record FinishedBlob (image : ℕ → ℕ → Bytes) (b : WsBuffer) (p : ℕ) (b' : WsBuffer)
    : Type 0 where
  pub idle : IsIdle b'.ws
  pub struct : read b'.ws.mem p 24 ≡ image b.start_items (len byte b)
  pub content : read b'.ws.mem b.start_items (len byte b) ≡ as_ref byte b
  pub apart : b.start_items + len byte b ≤ p
  pub inside : p + 24 ≤ b'.ws.f
  pub aligned : p % 8 ≡ 0

module _ (rt : Runtime) (laws : IsRuntime rt) (image : ℕ → ℕ → Bytes)
    (size : (p n : ℕ) → length (image p n) ≡ 24) where
  -- Finishing a well-formed blob buffer with a struct of 24 bytes succeeds, also when the buffer
  -- is full: the returned pointer is that of an aligned struct that holds the place and the
  -- number of the bytes written, which do not meet the struct.
  pub finish_blob_lem :
      (b : WsBuffer)
      → IsBuffer byte blob_suffix b
      → (p : ℕ) × (b' : WsBuffer) × (finish_blob image rt b ≡ (ok p, b'))
        × FinishedBlob image b p b'
  unfolding finish_blob as_ref
  finish_blob_lem b v =
      let place = get_suffix_ptr blob_suffix b in
      let bs = image b.start_items (len byte b) in
      let z : length bs ≡ 24 = size b.start_items (len byte b) in
      let c = poked place bs b in
      let vc = poked-IsBuffer byte blob_suffix place bs b v in
      let is = blob_suffix-IsSuffix in
      let n = used byte blob_suffix is c vc rt laws in
      let fits = suffix_fits byte blob_suffix is b v in
      let k = len-eq-count byte byte-IsLayout b v in
      (
        place,
        released byte blob_suffix is c vc rt laws n,
        rw (release_lem byte blob_suffix is c vc rt laws),
        record {
          idle =
              released-IsIdle byte blob_suffix is c vc rt laws n
                (used-fits byte blob_suffix is c vc rt laws);
          struct = rw z at (read-write b.ws.mem place bs);
          content =
              read-write_disjoint b.ws.mem place bs b.start_items (len byte b)
                (inl (omega (arith, k, fits, v.unused_at)))
              ∙ sym (items-byte b.ws.mem b.start_items (len byte b));
          apart = omega (arith, k, fits, v.unused_at);
          inside = omega (arith, fits, v.start_at, v.unused_at);
          aligned = align_up-aligned b.unused 8 (omega arith);
        },
      )

-- What a finished temporary buffer leaves: its items, in the part of an idle workspace that is
-- taken.
pub record FinishedTemp {A : Type 0} (item : Layout A) (b : WsBuffer) (p : Slice) (b' : WsBuffer)
    : Type 0 where
  pub idle : IsIdle b'.ws
  pub content : items item b'.ws.mem p.ptr p.len ≡ as_ref item b
  pub inside : p.ptr + p.len * item.size ≤ b'.ws.f
  pub unwritten : b'.ws.mem ≡ b.ws.mem

module _ (rt : Runtime) (laws : IsRuntime rt) {A : Type 0} (item : Layout A)
    (il : IsLayout item) where
  -- Finishing a well-formed temporary buffer succeeds, returns its items and keeps them from the
  -- allocations that follow, without a write.
  pub finish_temp_lem :
      (b : WsBuffer)
      → IsBuffer item no_suffix b
      → (p : Slice) × (b' : WsBuffer) × (finish_temp item rt b ≡ (ok p, b'))
        × FinishedTemp item b p b'
  unfolding finish_temp as_ref
  finish_temp_lem b v =
      let is = no_suffix-IsSuffix in
      let n = used item no_suffix is b v rt laws in
      let fits = suffix_fits item no_suffix is b v in
      let k = len-eq-count item il b v in
      (
        record { ptr = b.start_items; len = len item b },
        released item no_suffix is b v rt laws n,
        rw (release_lem item no_suffix is b v rt laws),
        record {
          idle =
              released-IsIdle item no_suffix is b v rt laws n
                (used-fits item no_suffix is b v rt laws);
          content = refl;
          inside = omega (arith, fits, v.start_at, v.unused_at, ap (λ (t : ℕ). t * item.size) k);
          unwritten = refl;
        },
      )
