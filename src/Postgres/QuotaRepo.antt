-- ===== src/Postgres/QuotaRepo.antt =====
-- internal/repository/postgres/quota_repo.go.
use strato.Prelude.{
  ℕ, zero, suc, ◌+◌, ◌-◌, ◌^◌, Bool, ◌&&◌, ◌++◌, ◌∷◌, [], none, some, leb, ◌==◌, if◌then◌else◌,
  find_row, any_row, update_rows,
}
use strato.Entity.Account.{Quota}
use strato.Domain.Error.{Result, ok, err, not_found, already_exists, quota_exceeded, infra}
use strato.Domain.World.{Db, World}
use strato.Domain.Action.{Action, statement, query, pure, fail, ◌>>=◌}

abbrev pub of_user : ℕ → Quota → Bool
of_user user_id q = q.user_id == user_id

-- The change of a counter: an int64 that is not negative, or the size of one that is.
pub data Delta : Type 0 where
  charge : ℕ → Delta
  release : ℕ → Delta

-- `-total` for a total that is not negative.
unfoldable pub negated : ℕ → Delta
negated zero = charge 0
negated (suc n) = release (suc n)

unfoldable pub create_row : Quota → World → Db → Result (Unit {0} × Db)
create_row q w db =
    if any_row (of_user q.user_id) db.quotas
    then err already_exists
    else (if any_row (λ u. u.id == q.user_id) db.users
        then ok (tt, record db { quotas = db.quotas ++ q ∷ [] })
        else err not_found)

-- `Create`.
unfoldable pub create : Quota → Action (Unit {0})
unfolding create_row
create q = statement (create_row q)

unfoldable pub get_row : ℕ → Db → Result Quota
get_row user_id db = elim (find_row (of_user user_id) db.quotas) [
  | none ↦ err not_found
  | some q ↦ ok q
]

-- `Get`.
unfoldable pub get : ℕ → Action Quota
unfolding get_row
get user_id = query (λ w db. get_row user_id db)

-- The rows that the UPDATE of a charge takes: the sum is PostgreSQL's bigint, whose overflow is an
-- error and not a wrap.
abbrev pub fits : ℕ → ℕ → Quota → Bool
fits user_id n q = q.user_id == user_id && leb (q.used_bytes + n) q.quota_bytes

abbrev overflows : ℕ → ℕ → Quota → Bool
overflows user_id n q = q.user_id == user_id && leb (2 ^ 63) (q.used_bytes + n)

-- The UPDATE of a charge, and whether it took a row.
unfoldable pub charge_row : ℕ → ℕ → Db → Result (Bool × Db)
charge_row user_id n db =
    if any_row (overflows user_id n) db.quotas
    then err infra
    else ok (
      any_row (fits user_id n) db.quotas,
      record db {
        quotas =
            update_rows (fits user_id n) (λ q. record q { used_bytes = q.used_bytes + n })
              db.quotas;
      },
    )

-- The UPDATE of a release, which stops at 0.
unfoldable pub release_row : ℕ → ℕ → Db → Result (Unit {0} × Db)
release_row user_id n db =
    if any_row (of_user user_id) db.quotas
    then ok (
      tt,
      record db {
        quotas =
            update_rows (of_user user_id) (λ q. record q { used_bytes = q.used_bytes - n })
              db.quotas;
      },
    )
    else err not_found

-- A charge that takes no row looks the row up, to tell a missing one from a full one.
unfoldable pub after_charge : ℕ → Bool → Action (Unit {0})
unfolding get
after_charge user_id taken = if taken then pure tt else (get user_id >>= λ _. fail quota_exceeded)

-- `AddUsage`.
unfoldable pub add_usage : ℕ → Delta → Action (Unit {0})
unfolding charge_row release_row after_charge
add_usage user_id (charge n) =
    statement (λ w db. charge_row user_id n db) >>= λ taken. after_charge user_id taken
add_usage user_id (release n) = statement (λ w db. release_row user_id n db)
