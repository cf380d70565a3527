-- ===== src/Crypto/Stream/Emitted.antt =====
-- The stream format of pkg/crypto/aesgcm.go as a relation between plaintext and bytes.
use strato.Prelude.{ℕ, suc, ◌<◌, ◌≤◌, ◌≡◌, ◌⊎◌, [], ◌∷◌, ◌++◌, length}
use strato.Crypto.Cipher.{Bytes, Aead}
use strato.Crypto.Stream.Frame.{
  flag_more, flag_final, stream_magic, nonce, next_counter, seg_header,
}

module _ (a : Aead) (key prefix : Bytes) where
  -- One segment on the wire.
  unfoldable pub frame : ℕ → ℕ → Bytes → Bytes
  frame c flag pt =
      let ct = a.seal key (nonce prefix c) (flag ∷ []) pt in seg_header (length ct) flag ++ ct

  -- `k` full segments, none of them final, carry `pt` as `out`; `c` is the next counter.
  pub data Emitted (size : ℕ) : ℕ → ℕ → Bytes → Bytes → Type 0 where
    nothing : Emitted size 0 0 [] []
    emit :
        {k c : ℕ} {pt out : Bytes} (s : Bytes)
        → Emitted size k c pt out
        → length s ≡ size
        → Emitted size (suc k) (next_counter c) (pt ++ s) (out ++ frame c flag_more s)

  -- A whole stream: full segments, then a final one, which is empty in the empty stream only.
  pub record Stream (size : ℕ) (pt bytes : Bytes) : Type 0 where
    pub segments : ℕ
    pub counter : ℕ
    pub before : Bytes
    pub body : Bytes
    pub last : Bytes
    pub emitted : Emitted size segments counter before body
    pub content : before ++ last ≡ pt
    pub fits : length last ≤ size
    pub last_kept : (0 < length last) ⊎ (segments ≡ 0)
    pub layout : bytes ≡ stream_magic ++ (prefix ++ (body ++ frame counter flag_final last))
