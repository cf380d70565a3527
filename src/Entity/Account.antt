-- ===== src/Entity/Account.antt =====
-- internal/entity/user.go: accounts, refresh-token sessions and quotas.
use strato.Prelude.{
  ℕ, ◌+◌, ◌^◌, Bool, true, false, ◌&&◌, List, Option, none, some, ltb, leb, if◌then◌else◌,
}

abbrev pub Text : Type 0
Text = List ℕ

-- `Role` is a string in Go: `other_role` stands for every string but the two constants.
pub data Role : Type 0 where
  role_user role_admin other_role : Role

abbrev pub is_admin_role : Role → Bool
is_admin_role role_admin = true
is_admin_role _ = false

pub record User : Type 0 where
  pub id : ℕ
  pub email : Text
  pub password_hash : Text
  pub display_name : Text
  pub role : Role
  pub created_at : ℕ
  pub updated_at : ℕ
  pub deleted_at : Option ℕ

-- `IsAdmin`.
unfoldable pub is_admin : User → Bool
is_admin u = is_admin_role u.role

pub record Session : Type 0 where
  pub id : ℕ
  pub user_id : ℕ
  pub family_id : ℕ
  pub token_hash : ℕ
  pub user_agent : Text
  pub ip : Text
  pub expires_at : ℕ
  pub created_at : ℕ
  pub revoked_at : Option ℕ
  pub replaced_by : Option ℕ

abbrev pub is_set {ℓ} : {A : Type ℓ} → Option A → Bool
is_set none = false
is_set (some _) = true

abbrev pub is_unset {ℓ} : {A : Type ℓ} → Option A → Bool
is_unset none = true
is_unset (some _) = false

-- `Session.IsActive`.
unfoldable pub session_active : Session → ℕ → Bool
session_active s now = is_unset s.revoked_at && ltb now s.expires_at

pub record Quota : Type 0 where
  pub user_id : ℕ
  pub quota_bytes : ℕ
  pub used_bytes : ℕ
  pub updated_at : ℕ

-- `CanStore`, on counts of bytes that are not negative: an int64 sum of 2^63 or more wraps to a
-- negative number, which is at most any quota.
unfoldable pub can_store : Quota → ℕ → Bool
can_store q n =
    if ltb (q.used_bytes + n) (2 ^ 63) then leb (q.used_bytes + n) q.quota_bytes else true
