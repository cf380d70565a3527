-- ===== src/Postgres/UserRepo.antt =====
-- internal/repository/postgres/user_repo.go.
use strato.Prelude.{
  ℕ, Bool, ◌&&◌, ◌||◌, ◌++◌, ◌∷◌, [], none, ◌==◌, if◌then◌else◌, bytes_equal, find_row, any_row,
  update_rows,
}
use strato.Entity.Account.{Text, User, is_unset}
use strato.Domain.Error.{Result, ok, err, already_exists}
use strato.Domain.World.{Db, World}
use strato.Domain.Action.{Action, statement, query}
use strato.Postgres.BlobRepo.{found, exec_one}

-- Addresses are citext: this compares them as `Register` and `Login` store and ask for them, in
-- lower case.
abbrev pub by_email : Text → User → Bool
by_email email u = bytes_equal u.email email

abbrev pub live : ℕ → User → Bool
live id u = u.id == id && is_unset u.deleted_at

-- `Create`.
unfoldable pub create_row : User → World → Db → Result (Unit {0} × Db)
create_row u w db =
    if any_row (λ v. v.id == u.id) db.users || any_row (by_email u.email) db.users
    then err already_exists
    else ok (
      tt,
      record db {
        users =
            db.users
            ++ record u { created_at = w.db_clock; updated_at = w.db_clock; deleted_at = none }
              ∷ [];
      },
    )

unfoldable pub create : User → Action (Unit {0})
unfolding create_row
create u = statement (create_row u)

-- `GetByID`.
unfoldable pub get_by_id : ℕ → Action User
get_by_id id = query (λ w db. found (find_row (live id) db.users))

-- `GetByEmail`.
unfoldable pub get_by_email : Text → Action User
get_by_email email =
    query λ w db. found (find_row (λ u. by_email email u && is_unset u.deleted_at) db.users)

-- `UpdatePasswordHash`.
unfoldable pub update_password_hash : ℕ → Text → Action (Unit {0})
update_password_hash id hash = statement λ w db.
    exec_one (any_row (live id) db.users) (record db {
      users = update_rows (live id) (λ u. record u { password_hash = hash }) db.users;
    })
