-- ===== src/Usecase/Auth/Session.antt =====
-- `mintPair`, `Refresh` and `Logout` of internal/usecase/auth_uc.go.
use strato.Prelude.{ℕ, ◌+◌, not, Option, none, some, if◌then◌else◌}
use strato.Entity.Account.{Text, User, Session, is_set, session_active}
use strato.Domain.Error.{Result, ok, err, unauthenticated, token_reuse}
use strato.Domain.World.{user_logout, token_reuse_detected}
use strato.Domain.Action.{
  Action, pure, fail, gets, attempt, ignore, fail_if, within_tx, ◌>>=◌, ◌>>◌,
}
use strato.Outside.{Env, new_id}
use strato.Postgres.SessionRepo
use strato.Postgres.UserRepo
use strato.Usecase.Audit.{audit}
use strato.Usecase.Auth.Token.{AuthEnv, random_token, hash_token, issue_access_token}

-- `RequestMeta` of internal/auth/context.go.
pub record RequestMeta : Type 0 where
  pub ip : Text
  pub user_agent : Text

pub record TokenPair : Type 0 where
  pub access_token : Text
  pub refresh_token : Text
  pub access_expires_at : ℕ

-- The session that a refresh rotates out, if any.
unfoldable pub rotate_out : Option ℕ → ℕ → Action (Unit {0})
rotate_out none id = pure tt
rotate_out (some prev) id = SessionRepo.revoke prev (some id)

module _ (env : Env) (auth : AuthEnv) (meta : RequestMeta) where
  -- The session of a new refresh token.
  abbrev pub new_session : User → ℕ → Text → ℕ → ℕ → Session
  new_session user family_id refresh_token id now = record {
    id = id;
    user_id = user.id;
    family_id = family_id;
    token_hash = hash_token env refresh_token;
    user_agent = meta.user_agent;
    ip = meta.ip;
    expires_at = now + auth.refresh_token_ttl;
    created_at = 0;
    revoked_at = none;
    replaced_by = none;
  }

  -- `mintPair`.
  unfoldable pub mint_pair : User → ℕ → Option ℕ → Action TokenPair
  unfolding rotate_out
  mint_pair user family_id prev = random_token env 32 >>= λ refresh_token. new_id env >>= λ id.
      gets (λ w. w.clock) >>= λ now.
      within_tx
        (SessionRepo.create (new_session user family_id refresh_token id now) >> rotate_out prev id)
      >> (issue_access_token env auth user >>= λ access. pure (record {
        access_token = access.token;
        refresh_token = refresh_token;
        access_expires_at = access.expires_at;
      }))

  -- `Refresh`, once its user is looked up.
  unfoldable pub refresh_user : Session → Result User → Action TokenPair
  unfolding mint_pair
  refresh_user s (err _) = fail unauthenticated
  refresh_user s (ok user) = mint_pair user s.family_id (some s.id)

  -- `Refresh`, of a revoked session: one with a successor is a replay of its token.
  unfoldable pub refresh_revoked : Session → Action TokenPair
  refresh_revoked s =
      if is_set s.replaced_by
      then ignore (SessionRepo.revoke_family s.family_id)
        >> (audit (some s.user_id) token_reuse_detected s.id >> fail token_reuse)
      else fail unauthenticated

  -- `Refresh`, once its session is looked up.
  unfoldable pub refresh_session : Result Session → Action TokenPair
  unfolding refresh_user refresh_revoked
  refresh_session (err _) = fail unauthenticated
  refresh_session (ok s) = gets (λ w. w.clock) >>= λ now.
      if is_set s.revoked_at
      then refresh_revoked s
      else (fail_if (not (session_active s now)) unauthenticated
          >> (attempt (UserRepo.get_by_id s.user_id) >>= refresh_user s))

  -- `Refresh`.
  unfoldable pub refresh : Text → Action TokenPair
  unfolding refresh_session
  refresh refresh_token =
      attempt (SessionRepo.get_by_token_hash (hash_token env refresh_token)) >>= refresh_session

logout_session : Result Session → Action (Unit {0})
logout_session (err _) = pure tt
logout_session (ok s) =
    SessionRepo.revoke_family s.family_id >> audit (some s.user_id) user_logout s.id

-- `Logout`: an unknown token is no error.
unfoldable pub logout : Env → Text → Action (Unit {0})
unfolding logout_session
logout env refresh_token =
    attempt (SessionRepo.get_by_token_hash (hash_token env refresh_token)) >>= logout_session
