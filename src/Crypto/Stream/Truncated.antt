-- ===== src/Crypto/Stream/Truncated.antt =====
-- Truncation in pkg/crypto/aesgcm.go: a stream that is cut short is never read as a whole one.
use strato.Prelude.{
  ℕ, zero, suc, ◌+◌, ◌-◌, ◌<◌, ◌≤◌, ◌≡◌, refl, ap, ◌∙◌, ◌⊎◌, inl, inr, false, [], ◌∷◌, ◌++◌, Option,
  none, some, arith, length, take, drop, ◌==◌, ◌&&◌, ◌||◌, length-append, length-drop, length-take,
  append_assoc, leb, if◌then◌else◌,
}
use native.Mathlib.Decide.{dec_lt}
use strato.Crypto.Cipher.{Bytes, Aead, overhead, key_size, new_gcm}
use strato.Crypto.Stream.Frame.{
  flag_more, flag_final, next_counter, stream_magic, nonce_prefix_len, nonce, seg_header, put_u32,
  u32_of-put_u32,
}
use strato.Crypto.Stream.Writer.{effective_size}
use strato.Crypto.Stream.Reader.{
  ReadError, corrupt, Reader, read_full, new_stream_reader, open_segment, next_segment, read_all,
}
use strato.Crypto.Stream.Emitted.{frame, Emitted, nothing, emit, Stream}
use strato.Crypto.Stream.Reading.{
  reader_at, Fails, read_all-some, read_all-corrupt, read-corrupt, read-plain, read-segment,
  next_segment-frame, Fails-plain, new_stream_reader-header,
}
use strato.Crypto.Stream.Size.{length-frame}

-- A cut of a join falls in the first part, or behind it.
take-append_short : (m : ℕ) (xs ys : Bytes) → m ≤ length xs → take m (xs ++ ys) ≡ take m xs
take-append_short zero xs ys h = refl
take-append_short (suc m) [] ys h = absurd (omega arith)
take-append_short (suc m) (x ∷ xs) ys h = ap (◌∷◌ x) (take-append_short m xs ys (omega arith))

take-append_long :
    (m : ℕ) (xs ys : Bytes) → length xs ≤ m → take m (xs ++ ys) ≡ xs ++ take (m - length xs) ys
take-append_long zero [] ys h = refl
take-append_long zero (x ∷ xs) ys h = absurd (omega arith)
take-append_long (suc m) [] ys h =
    ap (λ (k : ℕ). take k ys) (let e : suc m ≡ suc m - 0 = omega arith in e)
take-append_long (suc m) (x ∷ xs) ys h = ap (◌∷◌ x) (
    take-append_long m xs ys (omega arith)
    ∙ ap (λ (k : ℕ). xs ++ take k ys)
        (let e : m - length xs ≡ suc m - length (x ∷ xs) = omega arith in e))

module _ (a : Aead) (key prefix : Bytes) (size n : ℕ) (small : size < 4294967280)
    (pos : 0 < n) where
  Fails-corrupt :
      (c c' : ℕ) (src rest : Bytes)
      → next_segment a (reader_at a key prefix size n small pos c [] src false)
        ≡ (reader_at a key prefix size n small pos c' [] rest false, some corrupt)
      → Fails a key prefix size n small pos c src
  Fails-corrupt c c' src rest e = Fails-plain a key prefix size n small pos c src go
    where
      go :
          (fuel : ℕ)
          → length src + 2 ≤ fuel
          → (read_all a fuel n (reader_at a key prefix size n small pos c [] src false)).1
            ≡ some corrupt
      go zero enough = absurd (omega arith)
      go (suc zero) enough = absurd (omega arith)
      go (suc (suc fuel)) enough =
          ap (λ (r : Bytes × Option ReadError). r.1)
            (read_all-corrupt a key prefix size n small pos (suc fuel) _ _ []
              (read-corrupt a key prefix size n small pos fuel c c' src rest e).1)

  -- A whole segment that is not the last one, before what fails.
  Fails-segment :
      (c : ℕ) (s rest : Bytes)
      → length s ≡ size
      → 0 < size
      → Fails a key prefix size n small pos (next_counter c) rest
      → Fails a key prefix size n small pos c (frame a key prefix c flag_more s ++ rest)
  Fails-segment c [] rest e full h = absurd (omega arith)
  Fails-segment c (x ∷ xs) rest e full h = Fails-plain a key prefix size n small pos c _ go
    where
      src : Bytes
      src = frame a key prefix c flag_more (x ∷ xs) ++ rest

      shorter : length xs + 22 + length rest ≡ length src
      shorter = omega (
        arith,
        length-append (frame a key prefix c flag_more (x ∷ xs)) rest,
        length-frame a key prefix c flag_more (x ∷ xs),
      )

      go :
          (fuel : ℕ)
          → length src + 2 ≤ fuel
          → (read_all a fuel n (reader_at a key prefix size n small pos c [] src false)).1
            ≡ some corrupt
      go zero enough = absurd (omega arith)
      go (suc zero) enough = absurd (omega arith)
      go (suc (suc zero)) enough = absurd (omega (arith, shorter))
      go (suc (suc (suc fuel))) enough =
          ap (λ (r : Bytes × Option ReadError). r.1)
            (read_all-some a key prefix size n small pos (suc (suc fuel)) _ _ _ (
              read-segment a key prefix size n small pos (suc fuel) c src false _ (
                next_segment-frame a key prefix size n small pos c flag_more (x ∷ xs) rest
                  (inl refl) (omega arith))
              ∙ read-plain a key prefix size n small pos fuel (next_counter c) x xs rest false))
          ∙ h (suc (suc fuel)) (drop n (x ∷ xs)) (omega (arith, length-drop n (x ∷ xs), shorter))

  open_segment-short :
      (c len flag : ℕ) (src ct : Bytes)
      → length ct < len
      → (rest : Bytes) × (open_segment a
            (reader_at a key prefix size n small pos c [] src false)
            len
            flag
            ct
          ≡ (reader_at a key prefix size n small pos c [] rest false, some corrupt))
  unfolding open_segment read_full
  open_segment-short c len flag src ct h = (
    if (flag == flag_more || flag == flag_final) && leb len (size + overhead) then [] else ct,
    ground arith,
  )

  -- A segment that is cut short is refused, wherever the cut falls.
  frame_cut-Fails :
      (m c flag : ℕ) (s : Bytes)
      → length s ≤ size
      → m < length (frame a key prefix c flag s)
      → Fails a key prefix size n small pos c (take m (frame a key prefix c flag s))
  unfolding frame seg_header put_u32 next_segment
  frame_cut-Fails zero c flag s fit h = Fails-corrupt c c _ [] refl
  frame_cut-Fails (suc zero) c flag s fit h = Fails-corrupt c c _ [] refl
  frame_cut-Fails (suc (suc zero)) c flag s fit h = Fails-corrupt c c _ [] refl
  frame_cut-Fails (suc (suc (suc zero))) c flag s fit h = Fails-corrupt c c _ [] refl
  frame_cut-Fails (suc (suc (suc (suc zero)))) c flag s fit h = Fails-corrupt c c _ [] refl
  frame_cut-Fails (suc (suc (suc (suc (suc m))))) c flag s fit h =
      let ct = a.seal key (nonce prefix c) (flag ∷ []) s in
      let len : length ct ≡ length s + overhead =
        a.length-seal key (nonce prefix c) (flag ∷ []) s in
      let (rest, e) =
        open_segment-short c (length ct) flag
          (take (suc (suc (suc (suc (suc m))))) (frame a key prefix c flag s)) (take m ct)
          (omega (arith, length-take m ct)) in
      Fails-corrupt c c _ rest (rw (u32_of-put_u32 (length ct) (omega (arith, len))) e)

  -- Behind full segments too.
  Emitted-Fails :
      {k c : ℕ} {pt out : Bytes} (rest : Bytes)
      → 0 < size
      → Emitted a key prefix size k c pt out
      → ((m : ℕ) → m < length rest → Fails a key prefix size n small pos c (take m rest))
      → (m : ℕ) → m < length (out ++ rest)
      → Fails a key prefix size n small pos 0 (take m (out ++ rest))
  Emitted-Fails rest full nothing h m short = h m short
  Emitted-Fails rest full (emit {k} {c} {pt} {out} s em e) h m short =
      rw (append_assoc out (frame a key prefix c flag_more s) rest) (
        Emitted-Fails (frame a key prefix c flag_more s ++ rest) full em cut m
          (rw (append_assoc out (frame a key prefix c flag_more s) rest) at short))
    where
      f : Bytes
      f = frame a key prefix c flag_more s

      cut :
          (j : ℕ)
          → j < length (f ++ rest)
          → Fails a key prefix size n small pos c (take j (f ++ rest))
      cut j less = elim (dec_lt j (length f)) [
        | yes inside ↦
            rw (take-append_short j f rest (omega arith))
              (frame_cut-Fails j c flag_more s (omega arith) inside)
        | no behind ↦ rw (take-append_long j f rest (omega arith)) (
            Fails-segment c s (take (j - length f) rest) e full
              (h (j - length f) (omega (arith, length-append f rest))))
      ]

new_stream_reader-cut :
    (key rest : Bytes) (segment_size : ℕ)
    → length key ≡ key_size
    → length rest < nonce_prefix_len
    → new_stream_reader (stream_magic ++ rest) key segment_size ≡ (none, some corrupt)
unfolding new_stream_reader new_gcm read_full
new_stream_reader-cut key rest segment_size hk short = ground arith

new_stream_reader-no_magic :
    (key src : Bytes) (segment_size : ℕ)
    → length key ≡ key_size
    → length src < 4
    → new_stream_reader src key segment_size ≡ (none, some corrupt)
unfolding new_stream_reader new_gcm read_full
new_stream_reader-no_magic key src segment_size hk short = ground arith

-- The source is refused when it is opened, or when it is read to the end, with `more` rounds of fuel
-- than two and one for each byte.
abbrev pub Refused : Aead → Bytes → ℕ → ℕ → ℕ → Bytes → Type 0
Refused a key segment_size n more src =
    (new_stream_reader src key segment_size ≡ (none, some corrupt))
    ⊎ ((r : Reader) × (new_stream_reader src key segment_size ≡ (some r, none))
        × ((read_all a (length src + 2 + more) n r).1 ≡ some corrupt))

-- A whole stream of which any number of last bytes is missing is refused as corrupt: when it is
-- opened, or by reading it to the end, whatever the size of the buffer and any fuel that is enough.
pub Stream-truncated :
    (a : Aead) (key prefix : Bytes) (segment_size n m more : ℕ) (pt bytes : Bytes)
    → length key ≡ key_size
    → length prefix ≡ nonce_prefix_len
    → effective_size segment_size < 4294967280
    → 0 < n
    → Stream a key prefix (effective_size segment_size) pt bytes
    → m < length bytes
    → Refused a key segment_size n more (take m bytes)
Stream-truncated a key prefix segment_size n m more pt bytes hk hp small pos s short =
    elim (dec_lt m 4) [
      | yes no_magic ↦ inl (
          new_stream_reader-no_magic key (take m bytes) segment_size hk
            (omega (arith, length-take m bytes)))
      | no magic ↦ elim (dec_lt m 12) [
        | yes no_prefix ↦ inl (
            rw (cut, take-append_long m stream_magic after (omega arith))
              (new_stream_reader-cut key (take (m - 4) after) segment_size hk
                (omega (arith, length-take (m - 4) after))))
        | no header ↦ inr (
          _,
          rw (whole header) (new_stream_reader-header key prefix _ segment_size hk hp),
          gives (m - 4 - length prefix) (omega (arith, total)) _ [] (
              omega (
                arith,
                ap length (whole header),
                length-append prefix (take (m - 4 - length prefix) tail),
              )),
        )
      ]
    ]
  where
    open s use {body, last, counter}

    tail : Bytes
    tail = body ++ frame a key prefix counter flag_final last

    after : Bytes
    after = prefix ++ tail

    cut : take m bytes ≡ take m (stream_magic ++ after)
    cut = ap (take m) s.layout

    total : length bytes ≡ 12 + length tail
    total = omega (arith, ap length s.layout, length-append prefix tail, hp)

    whole :
        ¬ (m < 12) → take m bytes ≡ stream_magic ++ (prefix ++ take (m - 4 - length prefix) tail)
    whole h =
        cut
        ∙ take-append_long m stream_magic after (omega arith)
        ∙ ap (◌++◌ stream_magic) (take-append_long (m - 4) prefix tail (omega arith))

    gives :
        (j : ℕ)
        → j < length tail
        → Fails a key prefix (effective_size segment_size) n small pos 0 (take j tail)
    gives =
        Emitted-Fails a key prefix (effective_size segment_size) n small pos
          (frame a key prefix counter flag_final last) (ground arith) s.emitted
          λ j h.
            frame_cut-Fails a key prefix (effective_size segment_size) n small pos j counter
              flag_final last s.fits h
