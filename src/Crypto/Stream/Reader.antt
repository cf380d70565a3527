-- ===== src/Crypto/Stream/Reader.antt =====
-- `StreamReader` of pkg/crypto/aesgcm.go. `src` is the bytes that the source still has: a source
-- that fails and one that ends are one to the reader, which maps both to `ErrCiphertextCorrupt`.
use strato.Prelude.{
  ℕ, zero, suc, ◌+◌, Bool, false, ◌&&◌, ◌||◌, [], ◌∷◌, ◌++◌, Option, none, some, length, take, drop,
  bytes_equal, nonempty, leb, ◌==◌, if◌then◌else◌,
}
use strato.Crypto.Cipher.{Bytes, Aead, overhead, new_gcm}
use strato.Crypto.Stream.Frame.{
  nonce_prefix_len, magic_len, flag_more, flag_final, stream_magic, nonce, next_counter, u32_of,
}
use strato.Crypto.Stream.Writer.{effective_size}

pub data ReadError : Type 0 where
  eof corrupt bad_key stuck : ReadError

pub record Reader : Type 0 where
  pub src : Bytes
  pub key : Bytes
  pub nonce_prefix : Bytes
  pub plain : Bytes
  pub counter : ℕ
  pub max_segment : ℕ
  pub saw_final : Bool
  pub failed : Option ReadError

-- io.ReadFull of `n` bytes: those and the rest, if there are as many.
unfoldable pub read_full : ℕ → Bytes → Option (Bytes × Bytes)
read_full n src = if leb n (length src) then some (take n src, drop n src) else none

-- `NewStreamReader`.
unfoldable pub new_stream_reader : Bytes → Bytes → ℕ → Option Reader × Option ReadError
unfolding new_gcm read_full
new_stream_reader src key segment_size =
    if new_gcm key
    then (elim (read_full magic_len src) [
      | none ↦ (none, some corrupt)
      | some (magic, rest) ↦
          if bytes_equal magic stream_magic
          then (elim (read_full nonce_prefix_len rest) [
            | none ↦ (none, some corrupt)
            | some (prefix, body) ↦ (
              some (record {
                src = body;
                key = key;
                nonce_prefix = prefix;
                plain = [];
                counter = 0;
                max_segment = effective_size segment_size;
                saw_final = false;
                failed = none;
              }),
              none,
            )
          ])
          else (none, some corrupt)
    ])
    else (none, some bad_key)

module _ (a : Aead) where
  -- What `nextSegment` does with a header that it has read: the length and flag tests, the body,
  -- the nonce and the decryption.
  unfoldable pub open_segment : Reader → ℕ → ℕ → Bytes → Reader × Option ReadError
  unfolding read_full
  open_segment r ct_len flag src =
      if (flag == flag_more || flag == flag_final) && leb ct_len (r.max_segment + overhead)
      then (elim (read_full ct_len src) [
        | none ↦ (record r { src = [] }, some corrupt)
        | some (ct, rest) ↦
            let r' = record r { src = rest; counter = next_counter r.counter } in
            elim (a.unseal r.key (nonce r.nonce_prefix r.counter) (flag ∷ []) ct) [
              | none ↦ (r', some corrupt)
              | some pt ↦
                  (record r' { plain = pt; saw_final = r.saw_final || flag == flag_final }, none)
            ]
      ])
      else (record r { src = src }, some corrupt)

  -- `nextSegment`: five bytes of header are read first.
  unfoldable pub next_segment : Reader → Reader × Option ReadError
  unfolding open_segment
  next_segment r = if r.saw_final then (r, some eof) else (elim r.src [
    | l0 ∷ l1 ∷ l2 ∷ l3 ∷ flag ∷ rest ↦ open_segment r (u32_of l0 l1 l2 l3) flag rest
    | _ ↦ (record r { src = [] }, some corrupt)
  ])

  -- `Read` into a buffer of `n` bytes. Each round that goes on has taken a segment from the source.
  unfoldable pub read : ℕ → ℕ → Reader → Reader × Bytes × Option ReadError
  unfolding next_segment
  read zero n r = (r, [], some stuck)
  read (suc fuel) n r =
      let (r', e) = next_segment r in
      let again = read fuel n r' in
      let failing = record r' { failed = e } in
      let after_error = read fuel n failing in
      if nonempty r.plain
      then (record r { plain = drop n r.plain }, take n r.plain, none)
      else (elim r.failed [
        | some f ↦ (r, [], some f)
        | none ↦ elim e [
          | none ↦ again
          | some f ↦ if nonempty r'.plain then after_error else (failing, [], some f)
        ]
      ])

  -- io.ReadAll: read until an error, which is none of its own where it is EOF.
  unfoldable pub read_all : ℕ → ℕ → Reader → Bytes × Option ReadError
  read_all zero n r = ([], some stuck)
  read_all (suc fuel) n r =
      let (r', p, e) = read fuel n r in
      let more : Bytes × Option ReadError = read_all fuel n r' in
      elim e [ none ↦ (p ++ more.0, more.1) | some eof ↦ (p, none) | some f ↦ (p, some f) ]
