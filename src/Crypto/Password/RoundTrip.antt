-- ===== src/Crypto/Password/RoundTrip.antt =====
-- What pkg/crypto/password.go writes it reads back.
use strato.Prelude.{
  ℕ, ◌^◌, ◌<◌, ◌≡◌, refl, sym, ap, ◌∙◌, true, false, List, [], ◌∷◌, ◌++◌, some, ◌==◌, All, All-map,
  arith, ==_iff, append-nil, bytes_equal, length, ltb, ◌%◌, ◌||◌, true,
}
use strato.Encoding.Base64.{std_encoding, encode, digit}
use strato.Encoding.Space.{leading_space}
use strato.Encoding.Base64.RoundTrip.{IsByte, decode-encode, digits-Avoid, std_encoding-Readable}
use strato.Encoding.Decimal.{format, scan}
use strato.Encoding.Decimal.RoundTrip.{format-All}
use strato.Encoding.Scan.{scan_uint, scan_int, literal, literal-append, scan_uint-format}
use strato.Encoding.Split.{split, split-join, Lacks}
use strato.Crypto.Cipher.{Bytes}
use strato.Crypto.Password.{
  Argon2Params, IdKey, version, hash_password, verify_password, needs_rehash, argon2id,
  version_text, params_text, encode_hash, version_ok, scan_params, decode_hash,
}

-- The parameters are numbers of their types.
abbrev pub Fits : Argon2Params → Type 0
Fits p = (p.memory < 2 ^ 32) × (p.iterations < 2 ^ 32) × (p.parallelism < 2 ^ 8)

version-read : version_ok version_text ≡ true
unfolding version_ok literal scan_int format scan leading_space
version-read = refl

last-read : (bound n : ℕ) → n < bound → scan_uint bound (format n) ≡ some (n, [])
last-read bound n h =
    ap (scan_uint bound) (sym (append-nil (format n))) ∙ scan_uint-format bound n [] tt h

params-read :
    (p : Argon2Params)
    → Fits p
    → scan_params (params_text p) ≡ some (record p { salt_length = 0; key_length = 0 })
unfolding scan_params
params-read p fits =
    let tail3 = format p.parallelism in
    let tail2 = format p.iterations ++ b',' ∷ b'p' ∷ b'=' ∷ tail3 in
    let tail1 = format p.memory ++ b',' ∷ b't' ∷ b'=' ∷ tail2 in
    rw
      (
        literal-append (b'm' ∷ b'=' ∷ []) tail1,
        scan_uint-format (2 ^ 32) p.memory (b',' ∷ b't' ∷ b'=' ∷ tail2) refl fits.0,
        literal-append (b',' ∷ b't' ∷ b'=' ∷ []) tail2,
        scan_uint-format (2 ^ 32) p.iterations (b',' ∷ b'p' ∷ b'=' ∷ tail3) refl fits.1,
        literal-append (b',' ∷ b'p' ∷ b'=' ∷ []) tail3,
        last-read (2 ^ 8) p.parallelism fits.2,
      )
      refl

append-Lacks : (sep : ℕ) (s t : List ℕ) → Lacks sep s → Lacks sep t → Lacks sep (s ++ t)
append-Lacks sep [] t h k = k
append-Lacks sep (c ∷ s) t h k = (h.0, append-Lacks sep s t h.1 k)

format-Lacks : (n : ℕ) → Lacks b'$' (format n)
format-Lacks n = All-map _ _ (format n) (λ c h. ground arith) (format-All n)

digit-Lacks : (n : ℕ) → n < 64 → (digit std_encoding n == b'$') ≡ false
unfolding digit
digit-Lacks n h = ground arith

argon2id-Lacks : Lacks b'$' argon2id
argon2id-Lacks = (refl, (refl, (refl, (refl, (refl, (refl, (refl, (refl, tt))))))))

version-Lacks : Lacks b'$' version_text
version-Lacks = (refl, (refl, format-Lacks version))

params-Lacks : (p : Argon2Params) → Lacks b'$' (params_text p)
params-Lacks p =
    let after_t =
      append-Lacks b'$' _ _ (format-Lacks p.iterations)
        (refl, (refl, (refl, format-Lacks p.parallelism))) in
    (refl, (refl, append-Lacks b'$' _ _ (format-Lacks p.memory) (refl, (refl, (refl, after_t)))))

base64-Lacks : (bs : Bytes) → All IsByte bs → Lacks b'$' (encode std_encoding bs)
base64-Lacks bs h =
    digits-Avoid std_encoding std_encoding-Readable (λ c. (c == b'$') ≡ false) digit-Lacks bs h

-- The parts of a PHC string are found again.
parts-read :
    (p : Argon2Params) (salt hash : Bytes)
    → All IsByte salt
    → All IsByte hash
    → split b'$' (encode_hash p salt hash)
      ≡ []
        ∷ argon2id
        ∷ version_text
        ∷ params_text p
        ∷ encode std_encoding salt
        ∷ encode std_encoding hash
        ∷ []
unfolding encode_hash
parts-read p salt hash s h = split-join b'$' [] _ tt (
  argon2id-Lacks,
  (version-Lacks, (params-Lacks p, (base64-Lacks salt s, (base64-Lacks hash h, tt)))),
)

-- `decodeHash` reads back what `HashPassword` writes, but for the two lengths, which it does not set.
decode_hash-encode_hash :
    (p : Argon2Params) (salt hash : Bytes)
    → Fits p
    → All IsByte salt
    → All IsByte hash
    → decode_hash (encode_hash p salt hash)
      ≡ some (record {
        params = record p { salt_length = 0; key_length = 0 };
        salt = salt;
        hash = hash;
      })
unfolding decode_hash
decode_hash-encode_hash p salt hash fits s h = rw (parts-read p salt hash s h) (
    rw
      (
        version-read,
        params-read p fits,
        decode-encode std_encoding std_encoding-Readable salt s,
        decode-encode std_encoding std_encoding-Readable hash h,
      )
      refl)

pub bytes_equal_refl : (s : Bytes) → bytes_equal s s ≡ true
bytes_equal_refl [] = refl
bytes_equal_refl (c ∷ s) = rw ((==_iff c c).1 refl, bytes_equal_refl s) refl

module _ (id_key : IdKey)
    (bytes : (pw salt : Bytes) (t m p n : ℕ) → All IsByte (id_key pw salt t m p n))
    (sized : (pw salt : Bytes) (t m p n : ℕ) → length (id_key pw salt t m p n) ≡ n) where
  verify_password-key :
      (password other salt : Bytes) (p : Argon2Params)
      → Fits p
      → p.key_length < 2 ^ 32
      → All IsByte salt
      → verify_password id_key other (hash_password id_key password p salt)
        ≡ some (
            bytes_equal
              (id_key password salt p.iterations p.memory p.parallelism p.key_length)
              (id_key other salt p.iterations p.memory p.parallelism p.key_length))
  unfolding verify_password hash_password
  verify_password-key password other salt p fits short s =
      let key = id_key password salt p.iterations p.memory p.parallelism p.key_length in
      let whole : length key % 2 ^ 32 ≡ p.key_length =
        omega (arith, sized password salt p.iterations p.memory p.parallelism p.key_length) in
      rw
        (decode_hash-encode_hash p salt key fits s
          (bytes password salt p.iterations p.memory p.parallelism p.key_length))
        (rw whole refl)

  pub verify_password-own :
      (password salt : Bytes) (p : Argon2Params)
      → Fits p
      → p.key_length < 2 ^ 32
      → All IsByte salt
      → verify_password id_key password (hash_password id_key password p salt) ≡ some true
  verify_password-own password salt p fits short s =
      verify_password-key password password salt p fits short s
      ∙ ap some
          (bytes_equal_refl (id_key password salt p.iterations p.memory p.parallelism p.key_length))

  -- For parameters of their types and a salt of bytes, where argon2 gives as many bytes as are asked:
  -- `VerifyPassword` accepts a password for its own hash, and another one only if argon2 gives it the
  -- same key; and `NeedsRehash` finds the parameters with which the hash was made.
  pub verify_password-hash_password :
      (password other salt : Bytes) (p current : Argon2Params)
      → Fits p
      → p.key_length < 2 ^ 32
      → All IsByte salt
      → (verify_password id_key password (hash_password id_key password p salt) ≡ some true)
        × (verify_password id_key other (hash_password id_key password p salt)
            ≡ some (
                bytes_equal
                  (id_key password salt p.iterations p.memory p.parallelism p.key_length)
                  (id_key other salt p.iterations p.memory p.parallelism p.key_length)))
        × (needs_rehash (hash_password id_key password p salt) current ≡ (
            ltb p.memory current.memory
            || (ltb p.iterations current.iterations || ltb p.parallelism current.parallelism)))
  unfolding needs_rehash hash_password
  verify_password-hash_password password other salt p current fits short s = (
    verify_password-own password salt p fits short s,
    verify_password-key password other salt p fits short s,
    rw
        (decode_hash-encode_hash p salt _ fits s
          (bytes password salt p.iterations p.memory p.parallelism p.key_length))
        refl,
  )
