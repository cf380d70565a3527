-- ===== src/Usecase/Auth/Replay.antt =====
-- A refresh token that is shown again after its rotation (`Refresh` of internal/usecase/auth_uc.go).
use strato.Prelude.{
  ℕ, inl, inr, Bool-cases, All, List, ◌&&◌, ◌≡◌, refl, true, false, [], some, ==_iff, arith,
  update_rows, All-update_rows,
}
use strato.Entity.Account.{Text, Session, is_unset}
use strato.Domain.Error.{Result, err, token_reuse}
use strato.Domain.World.{World}
use strato.Domain.Ends.{Ends, Ends-weaken}
use strato.Outside.{Env}
use strato.Postgres.SessionRepo
use strato.Postgres.AuditRepo
use strato.Usecase.Audit.{audit}
use strato.Domain.Action.{◌>>=◌, attempt, ignore, gets, fail, query, statement, outside}
use strato.Usecase.Auth.Token.{AuthEnv, hash_token}
use strato.Usecase.Auth.Session.{TokenPair, RequestMeta, refresh_revoked, refresh_session, refresh}
use strato.Usecase.Auth.Rotation.{Spent, refresh-Spent}

-- No session of that digest can be refreshed.
abbrev pub Revoked : ℕ → List Session → Type 0
Revoked hash ss = All (λ n. (SessionRepo.by_token hash n && is_unset n.revoked_at) ≡ false) ss

family-Revoked :
    (hash family_id now : ℕ) (ss : List Session)
    → All (λ n. SessionRepo.by_token hash n ≡ true → n.family_id ≡ family_id) ss
    → Revoked hash
        (update_rows (SessionRepo.of_family family_id) (λ n. record n { revoked_at = some now }) ss)
family-Revoked hash family_id now ss h =
    All-update_rows _ _ (SessionRepo.of_family family_id) (λ n. record n { revoked_at = some now })
      ss (λ n k hit. ground arith)
      (λ n k miss. elim (Bool-cases (SessionRepo.by_token hash n)) [
        | inl named ↦
            let same = (==_iff n.family_id family_id).1 (k named) in rw (named) (rw same at miss)
        | inr other ↦ rw other refl
      ])
      h

-- A replay, where no call fails, is refused and revokes the family.
replay-Revoked :
    (env : Env) (auth : AuthEnv) (meta : RequestMeta) (token : Text) (next now : ℕ) (v : World)
    → Spent (hash_token env token) next v.db
    → ((refresh env auth meta token (record v { faults = []; clock = now })).0 ≡ err token_reuse)
      × Revoked next
          (refresh env auth meta token (record v { faults = []; clock = now })).1.db.sessions
unfolding refresh refresh_session refresh_revoked SessionRepo.get_by_token_hash
    SessionRepo.revoke_family audit AuditRepo.insert ◌>>=◌ attempt ignore gets fail query statement
    outside SessionRepo.revoke_family_rows
replay-Revoked env auth meta token next now v spent =
    rw (spent.at, spent.revoked, spent.replaced)
      (refl, family-Revoked next spent.session.family_id v.db_clock v.db.sessions spent.family)

-- What a refresh does that meets a replay: it fails with `ErrTokenReuse`, and no session of the
-- digest can be refreshed.
abbrev pub Caught : ℕ → Result TokenPair × World → Type 0
Caught hash r = (r.0 ≡ err token_reuse) × Revoked hash r.1.db.sessions

-- After a refresh that gave a pair, in any world and whatever other calls failed, the same token shown
-- again while no call fails, at any later or earlier time, by whomever, is refused with
-- `ErrTokenReuse`, and every session of the refresh token of the pair is revoked.
pub refresh-Caught :
    (env : Env) (auth : AuthEnv) (meta other : RequestMeta) (token : Text) (now : ℕ) (w : World)
    → Ends (refresh env auth meta token w) (λ pair v.
      Caught
        (hash_token env pair.refresh_token)
        (refresh env auth other token (record v { faults = []; clock = now })))
refresh-Caught env auth meta other token now w =
    Ends-weaken _ _ _ (λ pair v. replay-Revoked env auth other token _ now v)
      (refresh-Spent env auth meta token w)
