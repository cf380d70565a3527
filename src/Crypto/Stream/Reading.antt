-- ===== src/Crypto/Stream/Reading.antt =====
-- How the reader of pkg/crypto/aesgcm.go goes through its source, one segment at a time.
use strato.Prelude.{
  ℕ, zero, suc, ◌+◌, ◌<◌, ◌≤◌, ◌≡◌, refl, sym, ap, ◌∙◌, ◌⊎◌, Bool, true, false, [], ◌∷◌, ◌++◌,
  Option, none, some, arith, length, take, drop, ◌==◌, length-append, length-drop, take-append-drop,
  append_assoc, take-append_left, drop-append_left,
}
use strato.Crypto.Cipher.{Bytes, Aead, overhead, key_size, new_gcm}
use strato.Crypto.Stream.Frame.{
  nonce_prefix_len, stream_magic, flag_more, flag_final, nonce, next_counter, seg_header, put_u32,
  u32_of-put_u32,
}
use strato.Crypto.Stream.Reader.{
  ReadError, eof, corrupt, Reader, read_full, new_stream_reader, open_segment, next_segment, read,
  read_all,
}
use strato.Crypto.Stream.Writer.{effective_size}
use strato.Crypto.Stream.Emitted.{frame}

pub read_full-append :
    (m : ℕ) (xs ys : Bytes) → length xs ≡ m → read_full m (xs ++ ys) ≡ some (xs, ys)
unfolding read_full
read_full-append m xs ys e =
    ground (arith, length-append {0} xs ys, take-append_left m xs ys e, drop-append_left m xs ys e)

-- `NewStreamReader` on a stream's header, with a key of the right length.
pub new_stream_reader-header :
    (key prefix body : Bytes) (segment_size : ℕ)
    → length key ≡ key_size
    → length prefix ≡ nonce_prefix_len
    → new_stream_reader (stream_magic ++ (prefix ++ body)) key segment_size ≡ (
      some (record {
        src = body;
        key = key;
        nonce_prefix = prefix;
        plain = [];
        counter = 0;
        max_segment = effective_size segment_size;
        saw_final = false;
        failed = none;
      }),
      none,
    )
unfolding new_stream_reader new_gcm
new_stream_reader-header key prefix body segment_size hk hp = ground (
  arith,
  read_full-append 4 stream_magic (prefix ++ body) refl,
  read_full-append 8 prefix body hp,
)

module _ (a : Aead) (key prefix : Bytes) (size n : ℕ) (small : size < 4294967280)
    (pos : 0 < n) where
  -- A reader that has not failed.
  abbrev pub reader_at : ℕ → Bytes → Bytes → Bool → Reader
  reader_at c plain src final = record {
    src = src;
    key = key;
    nonce_prefix = prefix;
    plain = plain;
    counter = c;
    max_segment = size;
    saw_final = final;
    failed = none;
  }

  -- With enough fuel for `src`, reading to the end gives `q` after what is in the buffer.
  abbrev pub Reads : ℕ → Bytes → Bool → Bytes → Type 0
  Reads c src final q =
      (fuel : ℕ) (plain : Bytes)
      → length plain + length src + 2 ≤ fuel
      → read_all a fuel n (reader_at c plain src final) ≡ (plain ++ q, none)

  -- With enough fuel for `src`, reading to the end fails.
  abbrev pub Fails : ℕ → Bytes → Type 0
  Fails c src =
      (fuel : ℕ) (plain : Bytes)
      → length plain + length src + 2 ≤ fuel
      → (read_all a fuel n (reader_at c plain src false)).1 ≡ some corrupt

  pub read_all-some :
      (fuel : ℕ) (r r' : Reader) (p : Bytes)
      → read a fuel n r ≡ (r', p, none)
      → read_all a (suc fuel) n r ≡ (p ++ (read_all a fuel n r').0, (read_all a fuel n r').1)
  unfolding read_all
  read_all-some fuel r r' p e = ground arith

  pub read_all-corrupt :
      (fuel : ℕ) (r r' : Reader) (p : Bytes)
      → read a fuel n r ≡ (r', p, some corrupt)
      → read_all a (suc fuel) n r ≡ (p, some corrupt)
  unfolding read_all
  read_all-corrupt fuel r r' p e = ground arith

  pub read-plain :
      (fuel c x : ℕ) (xs src : Bytes) (final : Bool)
      → read a (suc fuel) n (reader_at c (x ∷ xs) src final)
        ≡ (reader_at c (drop n (x ∷ xs)) src final, take n (x ∷ xs), none)
  unfolding read
  read-plain fuel c x xs src final = refl

  -- A segment is taken from the source, and the call goes round once more.
  pub read-segment :
      (fuel c : ℕ) (src : Bytes) (final : Bool) (r : Reader)
      → next_segment a (reader_at c [] src final) ≡ (r, none)
      → read a (suc fuel) n (reader_at c [] src final) ≡ read a fuel n r
  unfolding read
  read-segment fuel c src final r e = ground arith

  pub read-corrupt :
      (fuel c c' : ℕ) (src rest : Bytes)
      → next_segment a (reader_at c [] src false) ≡ (reader_at c' [] rest false, some corrupt)
      → (r : Reader) × (read a (suc fuel) n (reader_at c [] src false) ≡ (r, [], some corrupt))
  unfolding read
  read-corrupt fuel c c' src rest e =
      (record (reader_at c' [] rest false) { failed = some corrupt }, ground arith)

  pub read_all-via :
      (fuel : ℕ) (r r' : Reader)
      → read a fuel n r ≡ (r', [], some eof)
      → read_all a (suc fuel) n r ≡ ([], none)
  unfolding read_all
  read_all-via fuel r r' e = ground arith

  pub read-done :
      (fuel c : ℕ) (src : Bytes)
      → read a (suc fuel) n (reader_at c [] src true)
        ≡ (record (reader_at c [] src true) { failed = some eof }, [], some eof)
  unfolding read next_segment
  read-done fuel c src = refl

  pub read_all-end :
      (fuel c : ℕ) (src : Bytes)
      → read_all a (suc (suc fuel)) n (reader_at c [] src true) ≡ ([], none)
  unfolding read_all read next_segment
  read_all-end fuel c src = refl

  open_segment-seal :
      (c len flag : ℕ) (s ct src rest : Bytes)
      → (flag ≡ flag_more) ⊎ (flag ≡ flag_final)
      → length ct ≡ len
      → len ≤ size + overhead
      → a.unseal key (nonce prefix c) (flag ∷ []) ct ≡ some s
      → open_segment a (reader_at c [] src false) len flag (ct ++ rest)
        ≡ (reader_at (next_counter c) s rest (flag == flag_final), none)
  unfolding open_segment
  open_segment-seal c len flag s ct src rest ok e fit opened =
      ground (arith, read_full-append len ct rest e)

  pub next_segment-frame :
      (c flag : ℕ) (s rest : Bytes)
      → (flag ≡ flag_more) ⊎ (flag ≡ flag_final)
      → length s ≤ size
      → next_segment a (reader_at c [] (frame a key prefix c flag s ++ rest) false)
        ≡ (reader_at (next_counter c) s rest (flag == flag_final), none)
  unfolding next_segment frame seg_header put_u32
  next_segment-frame c flag s rest ok fit =
      let ct = a.seal key (nonce prefix c) (flag ∷ []) s in
      let len : length ct ≡ length s + overhead =
        a.length-seal key (nonce prefix c) (flag ∷ []) s in
      let bounded : length ct < 4294967296 = omega (arith, len) in
      rw (u32_of-put_u32 (length ct) bounded) (
        open_segment-seal c (length ct) flag s ct (frame a key prefix c flag s ++ rest) rest ok refl
          (omega (arith, len)) (a.unseal-seal key (nonce prefix c) (flag ∷ []) s))

  -- Handing out what is in the buffer keeps what reading to the end gives.
  module _ (c : ℕ) (src q : Bytes) (final : Bool) where
    pub Reads-plain :
        ((fuel : ℕ)
          → length src + 2 ≤ fuel
          → read_all a fuel n (reader_at c [] src final) ≡ (q, none))
        → Reads c src final q
    Reads-plain empty fuel [] enough = empty fuel (omega arith)
    Reads-plain empty zero (x ∷ xs) enough = absurd (omega arith)
    Reads-plain empty (suc zero) (x ∷ xs) enough = absurd (omega arith)
    Reads-plain empty (suc (suc fuel)) (x ∷ xs) enough =
        let ih =
          Reads-plain empty (suc fuel) (drop n (x ∷ xs)) (omega (arith, length-drop n (x ∷ xs))) in
        read_all-some (suc fuel) _ _ _ (read-plain fuel c x xs src final)
        ∙ ap (λ (r : Bytes × Option ReadError). (take n (x ∷ xs) ++ r.0, r.1)) ih
        ∙ ap (λ (l : Bytes). (l, none))
            (sym (append_assoc (take n (x ∷ xs)) _ q)
              ∙ ap (λ (l : Bytes). l ++ q) (take-append-drop n (x ∷ xs)))

  module _ (c : ℕ) (src : Bytes) where
    pub Fails-plain :
        ((fuel : ℕ)
          → length src + 2 ≤ fuel
          → (read_all a fuel n (reader_at c [] src false)).1 ≡ some corrupt)
        → Fails c src
    Fails-plain empty fuel [] enough = empty fuel (omega arith)
    Fails-plain empty zero (x ∷ xs) enough = absurd (omega arith)
    Fails-plain empty (suc zero) (x ∷ xs) enough = absurd (omega arith)
    Fails-plain empty (suc (suc fuel)) (x ∷ xs) enough =
        let ih =
          Fails-plain empty (suc fuel) (drop n (x ∷ xs)) (omega (arith, length-drop n (x ∷ xs))) in
        ap (λ (r : Bytes × Option ReadError). r.1)
          (read_all-some (suc fuel) _ _ _ (read-plain fuel c x xs src false))
        ∙ ih
