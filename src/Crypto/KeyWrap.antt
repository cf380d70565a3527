-- ===== src/Crypto/KeyWrap.antt =====
-- `WrapKey` and `UnwrapKey` of pkg/crypto/keywrap.go.
use strato.Prelude.{
  ℕ, ◌+◌, ◌≡◌, [], ◌++◌, Option, none, some, arith, length, take, drop, leb, if◌then◌else◌,
  length-append, take-append_left, drop-append_left,
}
use strato.Crypto.Cipher.{Bytes, Aead, key_size, new_gcm}

-- `NonceSize()` of GCM with its standard nonce.
abbrev pub nonce_size : ℕ
nonce_size = 12

pub data WrapError : Type 0 where
  bad_key entropy_failed ciphertext_corrupt : WrapError

pub data Wrapped : Type 0 where
  ok : Bytes → Wrapped
  err : WrapError → Wrapped

module _ (a : Aead) where
  -- `entropy` is what rand.Read gives for the nonce, if it does.
  unfoldable pub wrap_key : Bytes → Bytes → Option Bytes → Wrapped
  unfolding new_gcm
  wrap_key kek dek entropy =
      if new_gcm kek
      then (elim entropy [
        | none ↦ err entropy_failed
        | some nonce ↦ ok (nonce ++ a.seal kek nonce [] dek)
      ])
      else err bad_key

  unfoldable pub unwrap_key : Bytes → Bytes → Wrapped
  unfolding new_gcm
  unwrap_key kek wrapped =
      if new_gcm kek
      then (if leb nonce_size (length wrapped)
          then (elim (a.unseal kek (take nonce_size wrapped) [] (drop nonce_size wrapped)) [
            | none ↦ err ciphertext_corrupt
            | some dek ↦ ok dek
          ])
          else err ciphertext_corrupt)
      else err bad_key

  -- A key that was wrapped under a 32-byte key with a full nonce is unwrapped to itself, and what is
  -- stored is 28 bytes longer.
  pub unwrap_key-wrap_key :
      (kek dek nonce : Bytes)
      → length kek ≡ key_size
      → length nonce ≡ nonce_size
      → (w : Bytes) × (wrap_key kek dek (some nonce) ≡ ok w)
        × (length w ≡ length dek + 28)
        × (unwrap_key kek w ≡ ok dek)
  unfolding wrap_key unwrap_key
  unwrap_key-wrap_key kek dek nonce hk hn =
      let ct = a.seal kek nonce [] dek in
      let size = a.length-seal kek nonce [] dek in
      (
        nonce ++ ct,
        ground arith,
        omega (arith, length-append nonce ct, size, hn),
        ground (
          arith,
          length-append {0} nonce ct,
          take-append_left 12 nonce ct hn,
          drop-append_left 12 nonce ct hn,
          a.unseal-seal kek nonce [] dek,
        ),
      )
