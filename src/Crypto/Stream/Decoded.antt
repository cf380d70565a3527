-- ===== src/Crypto/Stream/Decoded.antt =====
-- What the reader of pkg/crypto/aesgcm.go makes of the streams that the writer writes.
use mathlib.Core.List.{flatten}
use strato.Prelude.{
  ℕ, zero, suc, ◌+◌, ◌<◌, ◌≤◌, ◌≡◌, refl, sym, ap, subst, ◌∙◌, inl, inr, Bool, true, false, List,
  [], ◌∷◌, ◌++◌, Option, none, some, arith, length, take, drop, length-append, length-drop,
  take-append-drop, append-nil, append_assoc,
}
use strato.Crypto.Cipher.{Bytes, Aead, key_size}
use strato.Crypto.Stream.Frame.{flag_more, flag_final, next_counter, stream_magic, nonce_prefix_len}
use strato.Crypto.Stream.Writer.{Writer, effective_size, new_stream_writer, write_all}
use strato.Crypto.Stream.Reader.{ReadError, Reader, new_stream_reader, next_segment, read_all}
use strato.Crypto.Stream.Emitted.{frame, Emitted, nothing, emit, Stream}
use strato.Crypto.Stream.Reading.{
  reader_at, Reads, read_all-some, read-plain, read-segment, read_all-end, read_all-via, read-done,
  next_segment-frame, Reads-plain, new_stream_reader-header,
}
use strato.Crypto.Stream.Written.{empty_dst, write_all-Stream}
use strato.Crypto.Stream.Size.{length-frame}

module _ (a : Aead) (key prefix : Bytes) (size n : ℕ) (small : size < 4294967280)
    (pos : 0 < n) where
  -- After a segment whose plaintext is not empty, its first bytes are handed out.
  Reads-segment :
      (c c' x : ℕ) (xs src rest q : Bytes) (final final' : Bool)
      → length xs + 21 + length rest ≤ length src
      → next_segment a (reader_at a key prefix size n small pos c [] src final)
        ≡ (reader_at a key prefix size n small pos c' (x ∷ xs) rest final', none)
      → Reads a key prefix size n small pos c' rest final' q
      → Reads a key prefix size n small pos c src final (x ∷ xs ++ q)
  Reads-segment c c' x xs src rest q final final' shorter e h =
      Reads-plain a key prefix size n small pos c src _ final go
    where
      go :
          (fuel : ℕ)
          → length src + 2 ≤ fuel
          → read_all a fuel n (reader_at a key prefix size n small pos c [] src final)
            ≡ (x ∷ xs ++ q, none)
      go zero enough = absurd (omega arith)
      go (suc zero) enough = absurd (omega arith)
      go (suc (suc zero)) enough = absurd (omega arith)
      go (suc (suc (suc fuel))) enough =
          read_all-some a key prefix size n small pos (suc (suc fuel)) _ _ _ (
            read-segment a key prefix size n small pos (suc fuel) c src final _ e
            ∙ read-plain a key prefix size n small pos fuel c' x xs rest final')
          ∙ ap (λ (r : Bytes × Option ReadError). (take n (x ∷ xs) ++ r.0, r.1))
              (h (suc (suc fuel)) (drop n (x ∷ xs)) (omega (arith, length-drop n (x ∷ xs))))
          ∙ ap (λ (l : Bytes). (l, none))
              (sym (append_assoc (take n (x ∷ xs)) _ q)
                ∙ ap (λ (l : Bytes). l ++ q) (take-append-drop n (x ∷ xs)))

  -- A source that ends with the final segment.
  Reads-nothing : (c : ℕ) (src : Bytes) → Reads a key prefix size n small pos c src true []
  Reads-nothing c src = Reads-plain a key prefix size n small pos c src [] true go
    where
      go :
          (fuel : ℕ)
          → length src + 2 ≤ fuel
          → read_all a fuel n (reader_at a key prefix size n small pos c [] src true) ≡ ([], none)
      go zero enough = absurd (omega arith)
      go (suc zero) enough = absurd (omega arith)
      go (suc (suc fuel)) enough = read_all-end a key prefix size n small pos fuel c src

  Reads-more :
      (c : ℕ) (s rest q : Bytes)
      → length s ≡ size
      → 0 < size
      → Reads a key prefix size n small pos (next_counter c) rest false q
      → Reads a key prefix size n small pos c
          (frame a key prefix c flag_more s ++ rest)
          false
          (s ++ q)
  Reads-more c [] rest q e full h = absurd (omega arith)
  Reads-more c (x ∷ xs) rest q e full h =
      Reads-segment c (next_counter c) x xs _ rest q false false
        (omega (
          arith,
          length-append (frame a key prefix c flag_more (x ∷ xs)) rest,
          length-frame a key prefix c flag_more (x ∷ xs),
        ))
        (next_segment-frame a key prefix size n small pos c flag_more (x ∷ xs) rest (inl refl)
          (omega arith))
        h

  -- The last segment; an empty one gives nothing, and the end is found in the same call.
  Reads-last :
      (c : ℕ) (s rest : Bytes)
      → length s ≤ size
      → Reads a key prefix size n small pos c (frame a key prefix c flag_final s ++ rest) false s
  Reads-last c (x ∷ xs) rest fit =
      subst (Reads a key prefix size n small pos c _ false) (append-nil (x ∷ xs)) (
        Reads-segment c (next_counter c) x xs _ rest [] false true
          (omega (
            arith,
            length-append (frame a key prefix c flag_final (x ∷ xs)) rest,
            length-frame a key prefix c flag_final (x ∷ xs),
          ))
          (next_segment-frame a key prefix size n small pos c flag_final (x ∷ xs) rest (inr refl)
            fit)
          (Reads-nothing _ rest))
  Reads-last c [] rest fit = Reads-plain a key prefix size n small pos c _ [] false go
    where
      go :
          (fuel : ℕ)
          → length (frame a key prefix c flag_final [] ++ rest) + 2 ≤ fuel
          → read_all a fuel n (
              reader_at a key prefix size n small pos c []
                (frame a key prefix c flag_final [] ++ rest)
                false)
            ≡ ([], none)
      go zero enough = absurd (omega arith)
      go (suc zero) enough = absurd (omega arith)
      go (suc (suc zero)) enough = absurd (
          omega (
            arith,
            length-append (frame a key prefix c flag_final []) rest,
            length-frame a key prefix c flag_final [],
          ))
      go (suc (suc (suc fuel))) enough =
          read_all-via a key prefix size n small pos (suc (suc fuel)) _ _ (
            read-segment a key prefix size n small pos (suc fuel) c _ false _
              (next_segment-frame a key prefix size n small pos c flag_final [] rest (inr refl) fit)
            ∙ read-done a key prefix size n small pos fuel (next_counter c) rest)

  -- The full segments come out in front of what the rest gives.
  Emitted-Reads :
      {k c : ℕ} {pt out : Bytes} (rest q : Bytes)
      → 0 < size
      → Emitted a key prefix size k c pt out
      → Reads a key prefix size n small pos c rest false q
      → Reads a key prefix size n small pos 0 (out ++ rest) false (pt ++ q)
  Emitted-Reads rest q full nothing h = h
  Emitted-Reads rest q full (emit {k} {c} {pt} {out} s em e) h =
      rw (append_assoc out (frame a key prefix c flag_more s) rest, append_assoc pt s q)
        (Emitted-Reads (frame a key prefix c flag_more s ++ rest) (s ++ q) full em
          (Reads-more c s rest q e full h))

-- Reading a whole stream to its end, with any buffer and any bytes behind it, gives its plaintext
-- and no error.
pub Stream-read_all :
    (a : Aead) (key prefix : Bytes) (segment_size n : ℕ) (pt bytes trailing : Bytes)
    → length key ≡ key_size
    → length prefix ≡ nonce_prefix_len
    → effective_size segment_size < 4294967280
    → 0 < n
    → Stream a key prefix (effective_size segment_size) pt bytes
    → (r : Reader) × (new_stream_reader (bytes ++ trailing) key segment_size ≡ (some r, none))
      × ((fuel : ℕ) → length (bytes ++ trailing) + 2 ≤ fuel → read_all a fuel n r ≡ (pt, none))
Stream-read_all a key prefix segment_size n pt bytes trailing hk hp small pos s =
    let body = s.body ++ (frame a key prefix s.counter flag_final s.last ++ trailing) in
    let whole : bytes ++ trailing ≡ stream_magic ++ (prefix ++ body) =
      ap (λ (b : Bytes). b ++ trailing) s.layout
      ∙ ap (◌++◌ stream_magic)
          (append_assoc prefix _ trailing ∙ ap (◌++◌ prefix) (append_assoc s.body _ trailing)) in
    let size = effective_size segment_size in
    let gives : Reads a key prefix size n small pos 0 body false pt =
      subst (Reads a key prefix size n small pos 0 body false) s.content (
        Emitted-Reads a key prefix size n small pos _ s.last (ground arith) s.emitted
          (Reads-last a key prefix size n small pos s.counter s.last trailing s.fits)) in
    (
      _,
      rw whole (new_stream_reader-header key prefix body segment_size hk hp),
      λ fuel enough. gives fuel [] (omega (arith, ap length whole, length-append prefix body)),
    )

-- What is written with any split into writes and then closed is read back whole: with the same key
-- and segment size, over a destination that does not fail, with any buffer of at least one byte and
-- any bytes behind the stream, reading to the end gives the plaintext and no error, with two more
-- rounds of fuel than there are bytes, or with any more.
pub read_all-write_all :
    (a : Aead) (key prefix : Bytes) (segment_size n more : ℕ) (ps : List Bytes) (trailing : Bytes)
    → length key ≡ key_size
    → length prefix ≡ nonce_prefix_len
    → effective_size segment_size < 4294967280
    → 0 < n
    → (w : Writer) × (r : Reader) × (new_stream_writer empty_dst key (some prefix) segment_size
        ≡ (some w, none))
      × ((write_all a w ps).1 ≡ none)
      × (new_stream_reader ((write_all a w ps).0.dst.written ++ trailing) key segment_size
          ≡ (some r, none))
      × (read_all a (length ((write_all a w ps).0.dst.written ++ trailing) + 2 + more) n r
          ≡ (flatten ps, none))
read_all-write_all a key prefix segment_size n more ps trailing hk hp small pos =
    let (w, opened, done) = write_all-Stream a key prefix segment_size ps hk in
    let (fine, stream) = done in
    let (r, reads, gives) =
      Stream-read_all a key prefix segment_size n (flatten ps) _ trailing hk hp small pos stream in
    (w, r, opened, fine, reads, gives _ (omega arith))
