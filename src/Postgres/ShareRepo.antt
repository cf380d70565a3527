-- ===== src/Postgres/ShareRepo.antt =====
-- internal/repository/postgres/share_repo.go; `ListByOwner` stands in Listings.
use strato.Prelude.{
  ℕ, Bool, true, false, ◌&&◌, ◌||◌, not, Option, none, some, ◌++◌, ◌∷◌, [], ltb, ◌==◌,
  if◌then◌else◌, same_id, find_row, any_row, update_rows,
}
use strato.Entity.Account.{is_unset, is_set}
use strato.Entity.Access.{Share, valid}
use strato.Domain.Error.{Result, ok, err, not_found, already_exists, infra}
use strato.Domain.World.{Db, World}
use strato.Domain.Action.{Action, statement, query}
use strato.Postgres.BlobRepo.{found, exec_one}

abbrev pub held : Option ℕ → Option ℕ → Bool
held none other = false
held (some a) other = same_id (some a) other

-- A row that shares_grantee_file_uq counts: it looks at the revocation, and not at the expiry.
abbrev pub same_grant : Share → Share → Bool
same_grant s t = held s.grantee_id t.grantee_id && (t.file_id == s.file_id && is_unset t.revoked_at)

abbrev pub by_token : ℕ → Share → Bool
by_token hash s = same_id (some hash) s.token_hash

abbrev pub taken : Share → Share → Bool
taken s t = t.id == s.id || (held s.token_hash t.token_hash || same_grant s t)

exists_user : Option ℕ → Db → Bool
exists_user none db = true
exists_user (some id) db = any_row (λ u. u.id == id) db.users

-- `Create`: the CHECKs ask for a known permission and for one of grantee and token.
unfoldable pub create_row : Share → World → Db → Result (Unit {0} × Db)
unfolding exists_user
create_row s w db =
    if not (valid s.permission)
      || ((is_set s.grantee_id && is_set s.token_hash)
          || (is_unset s.grantee_id && is_unset s.token_hash))
    then err infra
    else (if any_row (taken s) db.shares
        then err already_exists
        else (if any_row (λ f. f.id == s.file_id) db.files
              && (any_row (λ u. u.id == s.owner_id) db.users && exists_user s.grantee_id db)
            then ok (
              tt,
              record db {
                shares = db.shares ++ record s { created_at = w.db_clock; revoked_at = none } ∷ [];
              },
            )
            else err not_found))

unfoldable pub create : Share → Action (Unit {0})
unfolding create_row
create s = statement (create_row s)

-- `GetByID`.
unfoldable pub get_by_id : ℕ → Action Share
get_by_id id = query (λ w db. found (find_row (λ s. s.id == id) db.shares))

-- `GetByTokenHash`.
unfoldable pub get_by_token_hash : ℕ → Action Share
get_by_token_hash hash = query (λ w db. found (find_row (by_token hash) db.shares))

abbrev pub later_than : ℕ → Option ℕ → Bool
later_than now none = true
later_than now (some t) = ltb now t

-- The rows of `FindGrant`.
abbrev pub grants : ℕ → ℕ → ℕ → Share → Bool
grants file_id user_id now s =
    s.file_id == file_id
    && (same_id (some user_id) s.grantee_id
        && (is_unset s.revoked_at && later_than now s.expires_at))

-- `FindGrant`.
unfoldable pub find_grant : ℕ → ℕ → Action Share
find_grant file_id user_id =
    query (λ w db. found (find_row (grants file_id user_id w.db_clock) db.shares))

abbrev pub unrevoked : ℕ → Share → Bool
unrevoked id s = s.id == id && is_unset s.revoked_at

-- `Revoke`.
unfoldable pub revoke : ℕ → Action (Unit {0})
revoke id = statement λ w db. exec_one (any_row (unrevoked id) db.shares) (record db {
  shares = update_rows (unrevoked id) (λ s. record s { revoked_at = some w.db_clock }) db.shares;
})
