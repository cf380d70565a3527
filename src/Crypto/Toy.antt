-- ===== src/Crypto/Toy.antt =====
-- A concrete cipher with the laws of `Aead`: the bytes in the clear behind a tag of sixteen bytes.
-- It shows that the laws can hold, and runs in the examples.
use strato.Prelude.{
  ℕ, zero, suc, ◌+◌, ◌*◌, ◌≡◌, refl, [], ◌∷◌, ◌++◌, Option, none, some, arith, ◌==◌, if◌then◌else◌,
}
use strato.Crypto.Cipher.{Bytes, Aead}

abbrev sum : Bytes → ℕ
sum [] = 0
sum (x ∷ xs) = x + sum xs

abbrev zeros : ℕ → Bytes
zeros zero = []
zeros (suc n) = 0 ∷ zeros n

abbrev tag : Bytes → Bytes → Bytes → Bytes
tag k n ad = (sum k + 3 * sum n + 7 * sum ad) ∷ zeros 15

abbrev strip : Bytes → Bytes → Option Bytes
strip [] ys = some ys
strip (x ∷ xs) [] = none
strip (x ∷ xs) (y ∷ ys) = if x == y then strip xs ys else none

pub strip-append : (t p : Bytes) → strip t (t ++ p) ≡ some p
strip-append [] p = refl
strip-append (x ∷ t) p = ground (arith, strip-append t p)

abbrev pub toy : Aead
toy = record {
  seal = λ k n ad pt. tag k n ad ++ pt;
  unseal = λ k n ad ct. strip (tag k n ad) ct;
  unseal-seal = λ k n ad pt. strip-append (tag k n ad) pt;
  length-seal = λ k n ad pt. omega arith;
}
