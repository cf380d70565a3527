-- ===== src/Crypto/Stream/Writer.antt =====
-- `StreamWriter` of pkg/crypto/aesgcm.go. `dst` is the bytes written so far and, for each later
-- call of its `Write`, whether that fails (where the list ends, none fails).
use strato.Prelude.{
  ℕ, zero, suc, ◌-◌, Bool, true, false, ◌&&◌, List, [], ◌∷◌, ◌++◌, Option, none, some, min, length,
  take, drop, ltb, ◌==◌, if◌then◌else◌,
}
use strato.Crypto.Cipher.{Bytes, Aead, new_gcm}
use strato.Crypto.Stream.Frame.{
  default_segment_size, flag_more, flag_final, stream_magic, nonce, next_counter, seg_header,
}

pub data Fault : Type 0 where
  bad_key entropy_failed header_failed segment_failed write_after_close stuck : Fault

pub record Dst : Type 0 where
  pub written : Bytes
  pub failures : List Bool

pub record Writer : Type 0 where
  pub dst : Dst
  pub key : Bytes
  pub nonce_prefix : Bytes
  pub buf : Bytes
  pub seg_size : ℕ
  pub counter : ℕ
  pub closed : Bool
  pub failed : Option Fault

-- One call of `dst.Write`: it writes all of `p`, or fails.
unfoldable pub dst_write : Dst → Bytes → Dst × Bool
dst_write d p = elim d.failures [
  | [] ↦ (record d { written = d.written ++ p }, true)
  | false ∷ fs ↦ (record { written = d.written ++ p; failures = fs }, true)
  | true ∷ fs ↦ (record d { failures = fs }, false)
]

abbrev pub effective_size : ℕ → ℕ
effective_size n = if n == 0 then default_segment_size else n

new_writer : Dst → Bytes → Bytes → ℕ → Writer
new_writer dst key prefix size = record {
  dst = dst;
  key = key;
  nonce_prefix = prefix;
  buf = [];
  seg_size = size;
  counter = 0;
  closed = false;
  failed = none;
}

write_header : Dst → Bytes → Bytes → ℕ → Writer × Option Fault
unfolding dst_write new_writer
write_header dst key prefix size =
    let (d, fine) = dst_write dst stream_magic in
    let (d', fine') = dst_write d prefix in
    if fine
    then (if fine'
        then (new_writer d' key prefix size, none)
        else (new_writer d' key prefix size, some header_failed))
    else (new_writer d key prefix size, some header_failed)

-- `NewStreamWriter`. `entropy` is what rand.Read gives for the nonce prefix, if it does. A negative
-- segment size is 0 here: both select the default. The writer beside an error is not used.
unfoldable pub new_stream_writer : Dst → Bytes → Option Bytes → ℕ → Option Writer × Option Fault
unfolding write_header new_gcm
new_stream_writer dst key entropy segment_size =
    if new_gcm key
    then (elim entropy [
      | none ↦ (none, some entropy_failed)
      | some prefix ↦
          let (w, e) = write_header dst key prefix (effective_size segment_size) in
          elim e [ none ↦ (some w, none) | some f ↦ (none, some f) ]
    ])
    else (none, some bad_key)

module _ (a : Aead) where
  -- `flushSegment`: the counter and the buffer move on before the writes, and a failure is kept.
  unfoldable pub flush_segment : Writer → ℕ → Writer × Option Fault
  unfolding dst_write
  flush_segment w flag =
      let ct = a.seal w.key (nonce w.nonce_prefix w.counter) (flag ∷ []) w.buf in
      let v = record w { counter = next_counter w.counter; buf = [] } in
      let (d, fine) = dst_write w.dst (seg_header (length ct) flag) in
      let (d', fine') = dst_write d ct in
      if fine
      then (if fine'
          then (record v { dst = d' }, none)
          else (record v { dst = d'; failed = some segment_failed }, some segment_failed))
      else (record v { dst = d; failed = some header_failed }, some header_failed)

  -- One round of the loop of `Write` up to the flush: the writer with more in its buffer, and what
  -- is left of `p`.
  unfoldable pub absorb : Writer → Bytes → Writer × Bytes
  absorb w p =
      let n = min (w.seg_size - length w.buf) (length p) in
      (record w { buf = w.buf ++ take n p }, drop n p)

  -- The end of a round: a full buffer with input remaining is flushed as not final.
  unfoldable pub flush_full : Writer → Bytes → Writer × Option Fault
  flush_full w rest =
      if length w.buf == w.seg_size && ltb 0 (length rest)
      then flush_segment w flag_more
      else (w, none)

  -- The loop of `Write` over what is left of `p`. It returns the count of bytes not consumed when a
  -- flush fails. `stuck` is no value of the code: the fuel ran out.
  unfoldable pub write_loop : ℕ → Writer → Bytes → Writer × ℕ × Option Fault
  write_loop fuel w [] = (w, 0, none)
  write_loop zero w (b ∷ bs) = (w, length (b ∷ bs), some stuck)
  write_loop (suc fuel) w (b ∷ bs) =
      let (w', rest) = absorb w (b ∷ bs) in
      let (v, e) = flush_full w' rest in
      elim e [ none ↦ write_loop fuel v rest | some f ↦ (v, length rest, some f) ]

  -- `Write`: the writer, the count of bytes taken and the error.
  unfoldable pub write : Writer → Bytes → Writer × ℕ × Option Fault
  write w p = elim w.failed [
    | some f ↦ (w, 0, some f)
    | none ↦
        if w.closed
        then (w, 0, some write_after_close)
        else (let (v, left, e) = write_loop (suc (length p)) w p in (v, length p - left, e))
  ]

  -- `Close`.
  unfoldable pub close : Writer → Writer × Option Fault
  close w = elim w.failed [
    | some f ↦ (w, some f)
    | none ↦ if w.closed then (w, none) else flush_segment (record w { closed = true }) flag_final
  ]

  -- A client that writes the parts in turn and then closes, stopping at the first error.
  unfoldable pub write_all : Writer → List Bytes → Writer × Option Fault
  write_all w [] = close w
  write_all w (p ∷ ps) =
      let (v, _, e) = write w p in
      let rest = write_all v ps in elim e [ none ↦ rest | some f ↦ (v, some f) ]
