-- ===== src/Crypto/Stream/Frame.antt =====
-- The wire format of pkg/crypto/aesgcm.go: magic, nonces and segment headers.
use strato.Prelude.{ℕ, ◌+◌, ◌*◌, ◌/◌, ◌%◌, ◌<◌, ◌≡◌, refl, [], ◌∷◌, ◌++◌, arith, length}
use strato.Crypto.Cipher.{Bytes}

-- `DefaultSegmentSize`.
abbrev pub default_segment_size : ℕ
default_segment_size = 64 * 1024

abbrev pub nonce_prefix_len : ℕ
nonce_prefix_len = 8

abbrev pub magic_len : ℕ
magic_len = 4

abbrev pub seg_header_len : ℕ
seg_header_len = 5

-- `flagMore` and `flagFinal`.
abbrev pub flag_more : ℕ
flag_more = 0

abbrev pub flag_final : ℕ
flag_final = 1

-- "SGC1".
abbrev pub stream_magic : Bytes
stream_magic = b'S' ∷ b'G' ∷ b'C' ∷ b'1' ∷ []

-- binary.BigEndian.PutUint32 and Uint32.
unfoldable pub put_u32 : ℕ → Bytes
put_u32 v = (v / 16777216 % 256) ∷ (v / 65536 % 256) ∷ (v / 256 % 256) ∷ (v % 256) ∷ []

unfoldable pub u32_of : ℕ → ℕ → ℕ → ℕ → ℕ
u32_of a b c d = a * 16777216 + b * 65536 + c * 256 + d

-- What the header's four bytes are read as, for a value that the conversion to uint32 keeps.
pub u32_of-put_u32 :
    (v : ℕ)
    → v < 4294967296
    → u32_of
        (v % 4294967296 / 16777216 % 256)
        (v % 4294967296 / 65536 % 256)
        (v % 4294967296 / 256 % 256)
        (v % 4294967296 % 256)
      ≡ v
unfolding u32_of
u32_of-put_u32 v h = omega arith

-- The nonce of segment `counter`: the prefix, then the counter in big-endian order.
unfoldable pub nonce : Bytes → ℕ → Bytes
nonce prefix counter = prefix ++ put_u32 counter

-- `counter++` on a uint32.
abbrev pub next_counter : ℕ → ℕ
next_counter c = (c + 1) % 4294967296

-- `uint32(len(ct))` in big-endian order, and the flag: the segment header.
unfoldable pub seg_header : ℕ → ℕ → Bytes
seg_header ct_len flag = put_u32 (ct_len % 4294967296) ++ (flag ∷ [])

pub length-seg_header : (n flag : ℕ) → length (seg_header n flag) ≡ seg_header_len
unfolding seg_header put_u32
length-seg_header n flag = refl
