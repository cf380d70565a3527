-- ===== src/Crypto/Stream/Size.antt =====
-- `EncryptedSize` of pkg/crypto/aesgcm.go, of a length that is not negative. The result is an int64 by its
-- 64 bits, as the sums wrap.
use strato.Prelude.{
  ℕ, ap, ◌∷◌, ◌+◌, ◌*◌, ◌/◌, ◌%◌, ◌^◌, ◌<◌, ◌≤◌, ◌≡◌, ◌⊎◌, ◌||◌, [], ◌++◌, arith, length,
  length-append, ltb, ◌==◌, if◌then◌else◌,
}
use native.Mathlib.Decide.{dec_lt}
use native.Mathlib.Nat.{
  mul-add-div_right, mul-add-mod_self_right, mod-eq_of_lt, mod_self, div-eq_of_lt, div_self,
}
use strato.Crypto.Cipher.{Bytes, Aead, overhead}
use strato.Crypto.Stream.Frame.{
  magic_len, nonce_prefix_len, seg_header_len, length-seg_header, flag_more, flag_final, seg_header,
  nonce, default_segment_size,
}
use strato.Crypto.Stream.Writer.{effective_size}
use strato.Crypto.Stream.Emitted.{frame, Emitted, nothing, emit, Stream}

unfoldable pub encrypted_size : ℕ → ℕ → ℕ
encrypted_size n segment_size =
    let size = effective_size segment_size in
    let full = n / size in
    let segs = if ltb 0 (n % size) || full == 0 then full + 1 else full in
    (magic_len + nonce_prefix_len + segs * seg_header_len + segs * overhead + n) % 2 ^ 64

module _ (a : Aead) (key prefix : Bytes) where
  pub length-frame :
      (c flag : ℕ) (pt : Bytes) → length (frame a key prefix c flag pt) ≡ length pt + 21
  unfolding frame
  length-frame c flag pt = omega (
    arith,
    length-append {0} (seg_header (length (a.seal key (nonce prefix c) (flag ∷ []) pt)) flag),
    length-seg_header (length (a.seal key (nonce prefix c) (flag ∷ []) pt)) flag,
    a.length-seal key (nonce prefix c) (flag ∷ []) pt,
  )

  Emitted-length :
      (size : ℕ) {k c : ℕ} {pt out : Bytes}
      → Emitted a key prefix size k c pt out
      → (length pt ≡ k * size) × (length out ≡ length pt + k * 21)
  Emitted-length size nothing = (omega arith, omega arith)
  Emitted-length size (emit {k} {c} {pt} {out} s em e) =
      let ih = Emitted-length size em in
      (
        omega (arith, ih.0, length-append pt s),
        omega (
          arith,
          ih.1,
          length-append pt s,
          length-append out (frame a key prefix c flag_more s),
          length-frame c flag_more s,
        ),
      )

-- The count of segments: the last one is full, or the rest of the division, or the only one.
segments_lem :
    (size k l : ℕ)
    → 0 < size
    → l ≤ size
    → (0 < l) ⊎ (k ≡ 0)
    → (if ltb 0 ((k * size + l) % size) || (k * size + l) / size == 0
        then (k * size + l) / size + 1
        else (k * size + l) / size)
      ≡ k + 1
segments_lem size k l pos fit kept = elim (dec_lt l size) [
  | yes small ↦ ground (
    arith,
    mul-add-div_right pos k l,
    mul-add-mod_self_right k size l,
    mod-eq_of_lt small,
    div-eq_of_lt small,
  )
  | no full ↦ ground (
    arith,
    mul-add-div_right pos k l,
    mul-add-mod_self_right k size l,
    mod_self size,
    div_self pos,
  )
]

module _ (a : Aead) (key prefix : Bytes) where
  -- The lengths of a plaintext and its stream by the segments before the last.
  Stream-length :
      (size : ℕ) (pt bytes : Bytes)
      → length prefix ≡ nonce_prefix_len
      → (s : Stream a key prefix size pt bytes)
      → (length pt ≡ s.segments * size + length s.last)
        × (length bytes ≡ length pt + s.segments * 21 + 33)
  Stream-length size pt bytes h s =
      let (before, body) = Emitted-length a key prefix size s.emitted in
      let total : length pt ≡ s.segments * size + length s.last =
        omega (arith, ap length s.content, length-append s.before s.last, before) in
      (
        total,
        omega (
          arith,
          ap length s.layout,
          total,
          before,
          body,
          h,
          length-append prefix (s.body ++ frame a key prefix s.counter flag_final s.last),
          length-append s.body (frame a key prefix s.counter flag_final s.last),
          length-frame a key prefix s.counter flag_final s.last,
        ),
      )

  -- With the default segments, the stream of a plaintext of less than 2 ^ 62 bytes is below the bound.
  pub Stream-bounded :
      (pt bytes : Bytes)
      → length prefix ≡ nonce_prefix_len
      → length pt < 2 ^ 62
      → Stream a key prefix default_segment_size pt bytes
      → length bytes < 2 ^ 63
  Stream-bounded pt bytes h small s =
      let (total, whole) = Stream-length default_segment_size pt bytes h s in
      omega (arith, total, whole, small)

  -- A whole stream of less than 2 ^ 63 bytes has exactly the size that `EncryptedSize` announces for its
  -- plaintext.
  pub Stream-encrypted_size :
      (segment_size : ℕ) (pt bytes : Bytes)
      → length prefix ≡ nonce_prefix_len
      → length bytes < 2 ^ 63
      → Stream a key prefix (effective_size segment_size) pt bytes
      → length bytes ≡ encrypted_size (length pt) segment_size
  unfolding encrypted_size
  Stream-encrypted_size segment_size pt bytes h fits s =
      let size = effective_size segment_size in
      let pos : 0 < size = ground arith in
      let (total, whole) = Stream-length size pt bytes h s in
      let count = segments_lem size s.segments (length s.last) pos s.fits s.last_kept in
      rw (total, count) (omega (arith, total, whole, fits))
