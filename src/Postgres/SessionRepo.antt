-- ===== src/Postgres/SessionRepo.antt =====
-- internal/repository/postgres/session_repo.go: the refresh-token sessions.
use strato.Prelude.{
  ℕ, Bool, ◌&&◌, ◌||◌, ◌++◌, ◌∷◌, [], Option, none, some, ltb, ◌==◌, if◌then◌else◌, find_row,
  any_row, update_rows, delete_rows, select_rows, length, true, false, List,
}
use strato.Entity.Account.{Session, is_unset}
use strato.Domain.Error.{Result, ok, err, not_found, already_exists}
use strato.Domain.World.{Db, World}
use strato.Domain.Action.{Action, statement, query}
use strato.Postgres.BlobRepo.{found, exec_one}

abbrev pub by_id : ℕ → Session → Bool
by_id id s = s.id == id

abbrev pub by_token : ℕ → Session → Bool
by_token hash s = s.token_hash == hash

-- `Create`, for an address that inet prints as it was given.
unfoldable pub create_row : Session → World → Db → Result (Unit {0} × Db)
create_row s w db =
    if any_row (by_id s.id) db.sessions || any_row (by_token s.token_hash) db.sessions
    then err already_exists
    else (if any_row (λ u. u.id == s.user_id) db.users
        then ok (
          tt,
          record db {
            sessions =
                db.sessions
                ++ record s { created_at = w.db_clock; revoked_at = none; replaced_by = none } ∷ [];
          },
        )
        else err not_found)

unfoldable pub create : Session → Action (Unit {0})
unfolding create_row
create s = statement (create_row s)

-- `GetByTokenHash`.
unfoldable pub get_by_token_hash : ℕ → Action Session
get_by_token_hash hash = query (λ w db. found (find_row (by_token hash) db.sessions))

abbrev pub unrevoked : ℕ → Session → Bool
unrevoked id s = s.id == id && is_unset s.revoked_at

exists_session : Option ℕ → Db → Bool
exists_session none db = true
exists_session (some id) db = any_row (by_id id) db.sessions

-- `Revoke`, whose successor is a row of the table: a session that is revoked already is none to revoke.
unfoldable pub revoke_row : ℕ → Option ℕ → World → Db → Result (Unit {0} × Db)
unfolding exists_session
revoke_row id replaced_by w db =
    exec_one (any_row (unrevoked id) db.sessions && exists_session replaced_by db) (record db {
      sessions =
          update_rows (unrevoked id)
            (λ s. record s { revoked_at = some w.db_clock; replaced_by = replaced_by }) db.sessions;
    })

unfoldable pub revoke : ℕ → Option ℕ → Action (Unit {0})
unfolding revoke_row
revoke id replaced_by = statement (revoke_row id replaced_by)

abbrev pub of_family : ℕ → Session → Bool
of_family family_id s = s.family_id == family_id && is_unset s.revoked_at

-- `RevokeFamily`.
unfoldable pub revoke_family_rows : ℕ → World → Db → Db
revoke_family_rows family_id w db = record db {
  sessions =
      update_rows (of_family family_id) (λ s. record s { revoked_at = some w.db_clock })
        db.sessions;
}

unfoldable pub revoke_family : ℕ → Action (Unit {0})
unfolding revoke_family_rows
revoke_family family_id = statement (λ w db. ok (tt, revoke_family_rows family_id w db))

abbrev expired : ℕ → Session → Bool
expired before s = ltb s.expires_at before

successor_in : List Session → Option ℕ → Bool
successor_in sessions none = false
successor_in sessions (some id) = any_row (by_id id) sessions

-- `DeleteExpired`: the count of the rows. No session that stays may name one that goes as its
-- successor (the foreign key of replaced_by).
unfoldable pub delete_expired : ℕ → Action ℕ
unfolding successor_in
delete_expired before = statement λ w db.
    let gone = select_rows (expired before) db.sessions in
    let kept = delete_rows (expired before) db.sessions in
    if any_row (λ s. successor_in gone s.replaced_by) kept
    then err not_found
    else ok (length gone, record db { sessions = kept })
