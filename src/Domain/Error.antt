-- ===== src/Domain/Error.antt =====
-- internal/domain/errors.go. A wrapped sentinel is the sentinel: its text is not modelled.
use strato.Prelude.{Bool, true, false, ◌≡◌, ap}

-- `infra` is any error that matches none of the sentinels: a driver, network or cipher failure.
pub data Error : Type 0 where
  not_found already_exists unauthenticated permission_denied invalid_argument quota_exceeded
        file_locked checksum_mismatch upload_incomplete upload_expired token_reuse rate_limited
        password_required infra :
      Error

abbrev pub is_not_found : Error → Bool
is_not_found Error.not_found = true
is_not_found _ = false

abbrev pub is_already_exists : Error → Bool
is_already_exists Error.already_exists = true
is_already_exists _ = false

pub data Result {ℓ} (A : Type ℓ) : Type ℓ where
  ok : A → Result A
  err : Error → Result A

pub ok-injective {ℓ} : {A : Type ℓ} {a b : A} → ok a ≡ ok b → a ≡ b
ok-injective {a = a} e = ap (λ r. elim r [ ok x ↦ x | err _ ↦ a ]) e
