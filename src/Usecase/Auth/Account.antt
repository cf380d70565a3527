-- ===== src/Usecase/Auth/Account.antt =====
-- `Register`, `Login` and `Profile` of internal/usecase/auth_uc.go.
use strato.Prelude.{
  ℕ, suc, ◌-◌, ◌-◌, Bool, true, false, ◌&&◌, not, [], ◌∷◌, Option, none, some, map, length, ltb,
  leb, ◌==◌, if◌then◌else◌, any_row, ◌+◌,
}
use strato.Encoding.Space.{trim_space}
use strato.Crypto.Password.{default_argon2_params, hash_password, verify_password, needs_rehash}
use strato.Entity.Account.{Text, User, Quota, role_user}
use strato.Entity.Access.{Identity}
use strato.Domain.Error.{Result, ok, err, invalid_argument, unauthenticated}
use strato.Domain.World.{user_registered, user_login, user_login_failed}
use strato.Domain.Action.{Action, pure, fail, attempt, ignore, fail_if, within_tx, ◌>>=◌, ◌>>◌}
use strato.Outside.{Env, new_id, random_bytes}
use strato.Postgres.UserRepo
use strato.Postgres.QuotaRepo
use strato.Usecase.Audit.{audit}
use strato.Usecase.Auth.Token.{AuthEnv}
use strato.Usecase.Auth.Session.{RequestMeta, TokenPair, mint_pair}

lower : ℕ → ℕ
lower c = if leb b'A' c && leb c b'Z' then c + 32 else c

-- strings.ToLower.
unfoldable pub to_lower : AuthEnv → Text → Text
unfolding lower
to_lower auth s = if any_row (λ c. leb 128 c) s then auth.unicode_lower s else map lower s

-- strings.IndexByte.
index_byte : ℕ → Text → Option ℕ
index_byte b [] = none
index_byte b (c ∷ s) =
    let rest = index_byte b s in
    if c == b then some 0 else (elim rest [ none ↦ none | some i ↦ some (suc i) ])

-- `validateEmail`, whether it accepts.
unfoldable pub email_ok : Text → Bool
unfolding index_byte
email_ok email =
    leb 3 (length email)
    && (leb (length email) 254
        && ((elim (index_byte b'@' email) [
          | none ↦ false
          | some at ↦ ltb 0 at && not (at == length email - 1)
        ])
            && not (any_row (λ c. c == b' ') email)))

-- `validatePassword`, whether it accepts.
unfoldable pub password_ok : Text → Bool
password_ok password = leb 10 (length password) && leb (length password) 128

module _ (env : Env) (auth : AuthEnv) where
  -- The account that `Register` makes.
  abbrev pub new_user : Text → Text → Text → Text → ℕ → User
  new_user email password display_name salt id = record {
    id = id;
    email = email;
    password_hash = hash_password auth.id_key password default_argon2_params salt;
    display_name = trim_space display_name;
    role = role_user;
    created_at = 0;
    updated_at = 0;
    deleted_at = none;
  }

  abbrev pub new_quota : ℕ → Quota
  new_quota id = record {
    user_id = id;
    quota_bytes = auth.default_quota_bytes;
    used_bytes = 0;
    updated_at = 0;
  }

  -- `Register`.
  unfoldable pub register : Text → Text → Text → Action User
  unfolding to_lower email_ok password_ok
  register raw_email password display_name =
      let email = to_lower auth (trim_space raw_email) in
      fail_if (not (email_ok email)) invalid_argument
      >> (fail_if (not (password_ok password)) invalid_argument
          >> (fail_if (ltb 100 (length display_name)) invalid_argument
              >> (random_bytes env default_argon2_params.salt_length >>= λ salt.
                  new_id env >>= λ id.
                  let user = new_user email password display_name salt id in
                  within_tx (UserRepo.create user >> QuotaRepo.create (new_quota id))
                  >> (audit (some id) user_registered id >> pure user))))

  -- The hash of a password made under weaker parameters is made again; any failure is dropped.
  unfoldable pub rehash : User → Text → Action (Unit {0})
  rehash user password =
      if needs_rehash user.password_hash default_argon2_params
      then ignore (
          random_bytes env default_argon2_params.salt_length >>= λ salt.
          UserRepo.update_password_hash user.id
            (hash_password auth.id_key password default_argon2_params salt))
      else pure tt

  -- `Login` of an account, after the test of the password.
  unfoldable pub login_checked : RequestMeta → Text → User → Option Bool → Action TokenPair
  unfolding rehash
  login_checked meta password user (some true) =
      rehash user password
      >> (new_id env >>= λ family. mint_pair env auth meta user family none >>= λ pair.
          audit (some user.id) user_login user.id >> pure pair)
  login_checked meta password user _ =
      audit (some user.id) user_login_failed user.id >> fail unauthenticated

  -- `Login`, once the account is looked up. The password is tested for a missing account too, which
  -- takes time and nothing else.
  unfoldable pub login_found : RequestMeta → Text → Result User → Action TokenPair
  unfolding login_checked
  login_found meta password (err _) = fail unauthenticated
  login_found meta password (ok user) =
      login_checked meta password user (verify_password auth.id_key password user.password_hash)

  -- `Login`.
  unfoldable pub login : RequestMeta → Text → Text → Action TokenPair
  unfolding to_lower login_found
  login meta raw_email password =
      attempt (UserRepo.get_by_email (to_lower auth (trim_space raw_email)))
      >>= login_found meta password

-- `Profile`.
unfoldable pub profile : Identity → Action (User × Quota)
profile ident = UserRepo.get_by_id ident.user_id >>= λ user.
    QuotaRepo.get ident.user_id >>= λ quota. pure (user, quota)
