-- ===== src/Examples/Signer.antt =====
-- Signed queries of internal/service/signer.go on small inputs.
use strato.Prelude.{
  ℕ, zero, suc, ◌+◌, ◌*◌, ◌≡◌, ap, true, [], ◌∷◌, some, if◌then◌else◌, ltb, bytes_equal, refl,
  arith, ◌≤◌,
}
use strato.Entity.Account.{Text}
use strato.Encoding.Split.{Lacks}
use strato.Domain.Error.{ok, err, unauthenticated}
use strato.Encoding.Decimal.{parse_int64}
use strato.Service.Signer.{UrlSigner, Query, unix, sign, verify, signature}
use strato.Service.Signer.Binding.{verify-sign, verify-ok, signed_text-Binds}

-- Ids are written as so many letters.
abbrev pub letters : ℕ → Text
letters zero = []
letters (suc n) = b'a' ∷ letters n

abbrev pub count : Text → ℕ
count [] = 0
count (c ∷ t) = suc (count t)

abbrev pub signer : UrlSigner
signer = record { hmac = λ text. text; uuid_text = letters; parse_uuid = λ t. some (count t) }

pub count-letters : (n : ℕ) → count (letters n) ≡ n
count-letters zero = refl
count-letters (suc n) = ap suc (count-letters n)

letters-Lacks : (n : ℕ) → Lacks b'|' (letters n)
letters-Lacks zero = tt
letters-Lacks (suc n) = (refl, letters-Lacks n)

abbrev pub second : ℕ
second = 1_000_000_000

verify-sign_example : verify signer (13 * second) 1 (sign signer (3 * second) 1 2 (10 * second)) ≡ (
    if ltb (unix (3 * second + 10 * second)) (unix (13 * second))
    then err unauthenticated
    else ok 2)
verify-sign_example =
    verify-sign signer (3 * second) (13 * second) 1 2 (10 * second)
      (λ id. ap some (count-letters id)) (ground arith)

abbrev pub query : Query
query = sign signer (3 * second) 1 2 (10 * second)

verified : verify signer (4 * second) 1 query ≡ ok 2
verified =
    verify-sign signer (3 * second) (4 * second) 1 2 (10 * second)
      (λ id. ap some (count-letters id)) (ground arith)

verify-ok_example :
    (exp : ℕ) × (signer.parse_uuid query.uid ≡ some 2)
    × (parse_int64 query.exp ≡ some exp)
    × (unix (4 * second) ≤ exp)
    × (bytes_equal (signature signer 1 2 exp) query.sig ≡ true)
verify-ok_example = verify-ok signer (4 * second) 1 2 query verified

signed_text-Binds_example : ◌≡◌ {A = ℕ} 1 1 × ◌≡◌ {A = ℕ} 2 2 × ◌≡◌ {A = ℕ} 5 5
signed_text-Binds_example =
    signed_text-Binds signer 1 2 5 1 2 5 (λ id. ap some (count-letters id)) letters-Lacks
      (ground arith) (ground arith) refl
