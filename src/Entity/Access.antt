-- ===== src/Entity/Access.antt =====
-- internal/entity/share.go and the principal of internal/domain/service.go.
use strato.Prelude.{ℕ, Bool, true, false, Option, none, some, ltb, leb, if◌then◌else◌}
use strato.Entity.Account.{Text, Role, is_set}

-- `Permission` is a string in Go: `other` stands for every string but the three constants.
pub data Permission : Type 0 where
  viewer editor owner other : Permission

-- The map `rank` of `Allows`, which gives 0 for a string that is no key.
unfoldable pub rank : Permission → ℕ
rank viewer = 1
rank editor = 2
rank owner = 3
rank other = 0

-- `Allows`.
unfoldable pub allows : Permission → Permission → Bool
unfolding rank
allows p required = leb (rank required) (rank p)

-- `Valid`.
unfoldable pub valid : Permission → Bool
valid other = false
valid _ = true

pub record Share : Type 0 where
  pub id : ℕ
  pub file_id : ℕ
  pub owner_id : ℕ
  pub grantee_id : Option ℕ
  pub token_hash : Option ℕ
  pub permission : Permission
  pub password_hash : Option Text
  pub expires_at : Option ℕ
  pub created_at : ℕ
  pub revoked_at : Option ℕ

abbrev expired_at : Option ℕ → ℕ → Bool
expired_at none now = false
expired_at (some t) now = ltb t now

-- `Share.IsActive`.
unfoldable pub share_active : Share → ℕ → Bool
share_active s now =
    if is_set s.revoked_at then false else if expired_at s.expires_at now then false else true

-- `IsPublicLink`.
unfoldable pub is_public_link : Share → Bool
is_public_link s = is_set s.token_hash

-- `domain.Identity`.
pub record Identity : Type 0 where
  pub user_id : ℕ
  pub email : Text
  pub role : Role
