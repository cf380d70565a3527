-- ===== src/Crypto/Stream/Written.antt =====
-- What the writer of pkg/crypto/aesgcm.go puts out, whatever the sizes of the writes.
use mathlib.Core.List.{flatten}
use strato.Prelude.{
  ℕ, zero, suc, ◌+◌, ◌-◌, ◌<◌, ◌≤◌, ◌≡◌, refl, sym, ap, ◌∙◌, ◌⊎◌, inl, inr, true, false, ◌&&◌, List,
  [], ◌∷◌, ◌++◌, Option, none, some, min, arith, length, take, drop, ltb, ◌==◌, length-append,
  length-take, length-drop, take-append-drop, append-nil, append_assoc, Bool-cases, nil_of_length,
}
use strato.Crypto.Cipher.{Bytes, Aead, key_size, new_gcm}
use strato.Crypto.Stream.Frame.{flag_more, next_counter, stream_magic}
use strato.Crypto.Stream.Writer.{
  Fault, Dst, Writer, effective_size, flush_segment, absorb, flush_full, write_loop, write, close,
  write_all, new_stream_writer,
}
use strato.Crypto.Stream.Emitted.{frame, Emitted, nothing, emit, Stream}

module _ (a : Aead) (key prefix : Bytes) (size : ℕ) where
  -- An open writer that has not failed, over a destination that does not fail.
  abbrev open_writer : ℕ → Bytes → Bytes → Writer
  open_writer c buf out = record {
    dst = record { written = out; failures = [] };
    key = key;
    nonce_prefix = prefix;
    buf = buf;
    seg_size = size;
    counter = c;
    closed = false;
    failed = none;
  }

  -- `r` is a success after `pt` in all, of which the full segments are out behind `header`.
  record Progress (header pt : Bytes) (r : Writer × ℕ × Option Fault) : Type 0 where
    segments : ℕ
    counter : ℕ
    flushed : Bytes
    buf : Bytes
    out : Bytes
    result : r ≡ (open_writer counter buf (header ++ out), 0, none)
    emitted : Emitted a key prefix size segments counter flushed out
    content : flushed ++ buf ≡ pt
    fits : length buf ≤ size
    kept : (0 < length buf) ⊎ (segments ≡ 0)

  flush_open :
      (c flag : ℕ) (buf header out : Bytes)
      → flush_segment a (open_writer c buf (header ++ out)) flag
        ≡ (open_writer (next_counter c) [] (header ++ (out ++ frame a key prefix c flag buf)), none)
  unfolding flush_segment frame
  flush_open c flag buf header out =
      ap (λ (o : Bytes). (open_writer (next_counter c) [] o, none))
        (append_assoc (header ++ out) _ _ ∙ append_assoc header out _)

  -- With no input left, the loop has made the progress that it began with.
  write_loop-nil :
      (fuel k c : ℕ) (flushed buf header out rest pt : Bytes)
      → length rest ≡ 0
      → length buf ≤ size
      → Emitted a key prefix size k c flushed out
      → (0 < length buf) ⊎ (k ≡ 0)
      → flushed ++ buf ≡ pt
      → Progress header pt (write_loop a fuel (open_writer c buf (header ++ out)) rest)
  unfolding write_loop
  write_loop-nil fuel k c flushed buf header out [] pt none_left fit em kept e = record {
    segments = k;
    counter = c;
    flushed = flushed;
    buf = buf;
    out = out;
    result = refl;
    emitted = em;
    content = e;
    fits = fit;
    kept = kept;
  }
  write_loop-nil fuel k c flushed buf header out (b ∷ bs) pt none_left fit em kept e =
      absurd (omega arith)

  -- A round with no failure.
  write_loop-suc :
      (fuel : ℕ) (w w' v : Writer) (b : ℕ) (bs rest : Bytes)
      → absorb a w (b ∷ bs) ≡ (w', rest)
      → flush_full a w' rest ≡ (v, none)
      → write_loop a (suc fuel) w (b ∷ bs) ≡ write_loop a fuel v rest
  unfolding write_loop
  write_loop-suc fuel w w' v b bs rest e f = ground arith

  flush_full-full :
      (w : Writer) (rest : Bytes)
      → (length w.buf == w.seg_size && ltb 0 (length rest)) ≡ true
      → flush_full a w rest ≡ flush_segment a w flag_more
  unfolding flush_full
  flush_full-full w rest e = rw e

  flush_full-room :
      (w : Writer) (rest : Bytes)
      → (length w.buf == w.seg_size && ltb 0 (length rest)) ≡ false
      → flush_full a w rest ≡ (w, none)
  unfolding flush_full
  flush_full-room w rest e = rw e

  write_loop-Progress :
      (fuel k c : ℕ) (flushed buf header out p pt : Bytes)
      → 0 < size
      → length p + (length buf + 1 - size) ≤ fuel
      → length buf ≤ size
      → Emitted a key prefix size k c flushed out
      → (0 < length buf + length p) ⊎ (k ≡ 0)
      → flushed ++ (buf ++ p) ≡ pt
      → Progress header pt (write_loop a fuel (open_writer c buf (header ++ out)) p)
  write_loop-Progress fuel k c flushed buf header out [] pt pos enough fit em kept e =
      write_loop-nil fuel k c flushed buf header out [] pt refl fit em (omega arith)
        (rw append-nil at e)
  write_loop-Progress zero k c flushed buf header out (b ∷ bs) pt pos enough fit em kept e =
      absurd (omega arith)
  write_loop-Progress (suc fuel) k c flushed buf header out (b ∷ bs) pt pos enough fit em kept e =
      elim (Bool-cases (length (buf ++ taken) == size && ltb 0 (length rest))) [
        | inl full ↦
            rw
              (write_loop-suc fuel _ after (open_writer (next_counter c) [] (header ++ more_out)) b
                bs rest absorbed
                (flush_full-full after rest full
                  ∙ flush_open c flag_more (buf ++ taken) header out))
              (write_loop-Progress fuel (suc k) (next_counter c) (flushed ++ (buf ++ taken)) []
                header more_out rest pt pos (ground (arith, left, gained)) (omega arith)
                (emit _ em (ground arith)) (inl (ground arith)) regrouped)
        | inr more ↦
            rw
              (write_loop-suc fuel _ after after b bs rest absorbed
                (flush_full-room after rest more))
              (write_loop-nil fuel k c flushed (buf ++ taken) header out rest pt
                (ground (arith, left, gained)) (omega (arith, gained)) em (omega (arith, gained))
                (all_taken (ground (arith, left, gained))))
      ]
    where
      p : Bytes
      p = b ∷ bs

      n : ℕ
      n = min (size - length buf) (length p)

      taken : Bytes
      taken = take n p

      rest : Bytes
      rest = drop n p

      after : Writer
      after = open_writer c (buf ++ taken) (header ++ out)

      absorbed : absorb a (open_writer c buf (header ++ out)) p ≡ (after, rest)
      absorbed = unfold absorb in refl

      more_out : Bytes
      more_out = out ++ frame a key prefix c flag_more (buf ++ taken)

      left : length rest ≡ length p - n
      left = length-drop n p

      gained : length (buf ++ taken) ≡ length buf + n
      gained = omega (arith, length-append buf taken, length-take n p)

      regrouped : (flushed ++ (buf ++ taken)) ++ rest ≡ pt
      regrouped =
          append_assoc flushed (buf ++ taken) rest
          ∙ ap (◌++◌ flushed) (append_assoc buf taken rest ∙ ap (◌++◌ buf) (take-append-drop n p))
          ∙ e

      all_taken : length rest ≡ 0 → flushed ++ (buf ++ taken) ≡ pt
      all_taken z =
          sym (append-nil _)
          ∙ ap (◌++◌ (flushed ++ (buf ++ taken))) (sym (nil_of_length rest z))
          ∙ regrouped

  -- The header that `NewStreamWriter` writes.
  abbrev header : Bytes
  header = stream_magic ++ prefix

  -- `r` is a success, and what is written is a whole stream of `pt`.
  abbrev pub Finished : Bytes → Writer × Option Fault → Type 0
  Finished pt r = (r.1 ≡ none) × Stream a key prefix size pt r.0.dst.written

  close-Finished :
      (k c : ℕ) (flushed buf out pt : Bytes)
      → length buf ≤ size
      → Emitted a key prefix size k c flushed out
      → (0 < length buf) ⊎ (k ≡ 0)
      → flushed ++ buf ≡ pt
      → Finished pt (close a (open_writer c buf (header ++ out)))
  unfolding close flush_segment frame
  close-Finished k c flushed buf out pt fit em kept e = (
    refl,
    record {
      segments = k;
      counter = c;
      before = flushed;
      body = out;
      last = buf;
      emitted = em;
      content = e;
      fits = fit;
      last_kept = kept;
      layout = ap (◌++◌ stream_magic) (simp append_assoc);
    },
  )

  write_open :
      (c : ℕ) (buf out p : Bytes) (w : Writer) (left : ℕ)
      → write_loop a (suc (length p)) (open_writer c buf out) p ≡ (w, left, none)
      → write a (open_writer c buf out) p ≡ (w, length p - left, none)
  unfolding write
  write_open c buf out p w left e = ground arith

  write_all-cons :
      (w v : Writer) (n : ℕ) (p : Bytes) (ps : List Bytes)
      → write a w p ≡ (v, n, none)
      → write_all a w (p ∷ ps) ≡ write_all a v ps
  unfolding write_all
  write_all-cons w v n p ps e = ground arith

  regroup : (b c d e : Bytes) → (b ++ (c ++ d)) ++ e ≡ b ++ (c ++ (d ++ e))
  regroup b c d e = simp append_assoc

  write_all-Finished :
      (ps : List Bytes) (k c : ℕ) (flushed buf out pt : Bytes)
      → 0 < size
      → length buf ≤ size
      → Emitted a key prefix size k c flushed out
      → (0 < length buf) ⊎ (k ≡ 0)
      → flushed ++ (buf ++ flatten ps) ≡ pt
      → Finished pt (write_all a (open_writer c buf (header ++ out)) ps)
  unfolding flatten
  write_all-Finished [] k c flushed buf out pt pos fit em kept e =
      unfold write_all in close-Finished k c flushed buf out pt fit em kept (rw append-nil at e)
  write_all-Finished (p ∷ ps) k c flushed buf out pt pos fit em kept e =
      let s : Progress header (flushed ++ (buf ++ p)) _ =
        write_loop-Progress (suc (length p)) k c flushed buf header out p _ pos (omega arith) fit em
          (omega arith) refl in
      rw (write_all-cons _ _ _ p ps (write_open c buf (header ++ out) p _ 0 s.result)) (
        write_all-Finished ps s.segments s.counter s.flushed s.buf s.out pt pos s.fits s.emitted
          s.kept
          (sym (append_assoc s.flushed s.buf _)
            ∙ ap (λ (l : Bytes). l ++ flatten ps) s.content
            ∙ regroup flushed buf p _
            ∙ e))

abbrev pub empty_dst : Dst
empty_dst = record { written = []; failures = [] }

module _ (a : Aead) where
  -- A new writer over an empty destination that does not fail, given a key of 32 bytes and any
  -- split of a plaintext into writes, takes them all without an error and, once closed, has written
  -- a whole stream of that plaintext.
  pub write_all-Stream :
      (key prefix : Bytes) (size : ℕ) (ps : List Bytes)
      → length key ≡ key_size
      → (w : Writer) × (new_stream_writer empty_dst key (some prefix) size ≡ (some w, none))
        × Finished a key prefix (effective_size size) (flatten ps) (write_all a w ps)
  unfolding new_stream_writer new_gcm
  write_all-Stream key prefix size ps h = (
    open_writer a key prefix (effective_size size) 0 [] (stream_magic ++ prefix),
    ground arith,
    rw (← append-nil (stream_magic ++ prefix)) (
        write_all-Finished a key prefix (effective_size size) ps 0 0 [] [] [] (flatten ps)
          (ground arith) (omega arith) nothing (inr refl) refl),
  )
