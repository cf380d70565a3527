-- ===== src/Usecase/Auth/Login.antt =====
-- Who `Login` of internal/usecase/auth_uc.go gives a token pair, and what `Register` leaves for it.
use strato.Prelude.{
  ℕ, ◌≡◌, refl, ap, ◌∙◌, Bool, true, false, ◌&&◌, ◌||◌, List, [], ◌∷◌, ◌++◌, Option, some, none,
  length, ◌==◌, ==_iff, find_row, any_row, All, arith, find_row-append, any_row-append,
}
use strato.Encoding.Base64.RoundTrip.{IsByte}
use strato.Encoding.Space.{trim_space}
use strato.Crypto.Cipher.{Bytes}
use strato.Crypto.Password.{default_argon2_params, hash_password, verify_password, needs_rehash}
use strato.Crypto.Password.RoundTrip.{verify_password-hash_password, bytes_equal_refl}
use strato.Entity.Account.{Text, User, Quota, Session, is_unset}
use strato.Domain.Error.{ok}
use strato.Domain.World.{Db, World, AuditAction}
use strato.Domain.Ends.{
  Ends, Ends-bind, Ends-fail, Ends-fail_if, Ends-statement, Ends-attempt_query, Ends-always,
  Ends-weaken, Ends-pure,
}
use strato.Domain.Keeps.{Keeps, Keeps-Ends, Keeps-ignore, Keeps-statement, Ends-within_tx}
use strato.Outside.{Env}
use strato.Outside.Tables.{random_bytes-Ends, new_id-Ends}
use strato.Postgres.UserRepo
use strato.Postgres.AuditRepo
use strato.Usecase.Audit.{audit}
use strato.Postgres.QuotaRepo
use strato.Postgres.BlobRepo.{found-ok}
use strato.Usecase.Auth.Token.{AuthEnv}
use strato.Usecase.Auth.Session.{RequestMeta}
use strato.Usecase.Auth.Account.{
  to_lower, new_user, new_quota, register, login_checked, login_found, login,
}

abbrev pub named : Text → User → Bool
named email u = UserRepo.by_email email u && is_unset u.deleted_at

or_true : (b : Bool) → (b || true) ≡ true
or_true true = refl
or_true false = refl

module _ (env : Env) (auth : AuthEnv) where
  -- An account of the tables has the address, and the password is its.
  pub record Verified (email password : Text) (db : Db) : Type 0 where
    pub user : User
    pub at : find_row (named email) db.users ≡ some user
    pub accepted : verify_password auth.id_key password user.password_hash ≡ some true

  login_checked-Verified :
      (meta : RequestMeta) (email password : Text) (u : User) (db : Db) (w : World)
      → find_row (named email) db.users ≡ some u
      → (o : Option Bool) → verify_password auth.id_key password u.password_hash ≡ o
      → Ends (login_checked env auth meta password u o w) (λ _ _. Verified email password db)
  unfolding login_checked
  login_checked-Verified meta email password u db w at (some true) e =
      Ends-always _ _ (λ _ _. record { user = u; at = at; accepted = e })
  login_checked-Verified meta email password u db w at (some false) e =
      Ends-bind _ _ _ _ (Ends-always _ _ (λ _ _. Ends-fail _ _ _))
  login_checked-Verified meta email password u db w at none e =
      Ends-bind _ _ _ _ (Ends-always _ _ (λ _ _. Ends-fail _ _ _))

  -- Whenever `Login` gives a token pair, the tables hold a live account with the address, in lower case
  -- and without the spaces round it, and `VerifyPassword` accepts the password for its hash.
  pub login-Verified :
      (meta : RequestMeta) (email password : Text) (w : World)
      → Ends
          (login env auth meta email password w)
          (λ _ _. Verified (to_lower auth (trim_space email)) password w.db)
  unfolding login login_found UserRepo.get_by_email
  login-Verified meta email password w =
      Ends-attempt_query _ _ _ w
        (λ v u same e.
          login_checked-Verified meta (to_lower auth (trim_space email)) password u w.db v
            (found-ok _ u e) _ refl)
        (λ v x same. Ends-fail _ _ _)

  abbrev opened_of : ℕ → Quota → Bool
  opened_of id q =
      q.user_id == id && (q.used_bytes == 0 && q.quota_bytes == auth.default_quota_bytes)

  -- What `Register` leaves: the account, whose password is accepted and whose hash is up to date, a quota row
  -- for it, and the sessions that there were.
  pub record Registered (email password : Text) (id : ℕ) (sessions : List Session) (db : Db)
      : Type 0 where
    pub account : Verified email password db
    pub is_new : account.user.id ≡ id
    pub current : needs_rehash account.user.password_hash default_argon2_params ≡ false
    pub kept : db.sessions ≡ sessions
    pub quota : any_row (opened_of id) db.quotas ≡ true

  created_user :
      (u : User) (v : World) (db d : Db)
      → UserRepo.create_row u v db ≡ ok (tt, d)
      → u.deleted_at ≡ none
      → (d.users
          ≡ db.users
            ++ record u { created_at = v.db_clock; updated_at = v.db_clock; deleted_at = none }
              ∷ [])
        × (any_row (UserRepo.by_email u.email) db.users ≡ false)
        × (d.sessions ≡ db.sessions)
  unfolding UserRepo.create_row
  created_user u v db d e alive = ground arith

  created_quota :
      (q : Quota) (v : World) (db d : Db)
      → QuotaRepo.create_row q v db ≡ ok (tt, d)
      → (d.users ≡ db.users) × (d.quotas ≡ db.quotas ++ q ∷ []) × (d.sessions ≡ db.sessions)
  unfolding QuotaRepo.create_row
  created_quota q v db d e = ground arith

  none-named :
      (email : Text) (us : List User)
      → any_row (UserRepo.by_email email) us ≡ false
      → any_row (named email) us ≡ false
  none-named email [] h = refl
  none-named email (u ∷ us) h = ground (arith, none-named email us)

  registered :
      (email password display_name salt : Text) (id : ℕ) (sessions : List Session) (v1 v2 : World)
      (db d1 d2 : Db)
      → verify_password auth.id_key password
          (hash_password auth.id_key password default_argon2_params salt)
        ≡ some true
      → needs_rehash
          (hash_password auth.id_key password default_argon2_params salt)
          default_argon2_params
        ≡ false
      → db.sessions ≡ sessions
      → UserRepo.create_row (new_user env auth email password display_name salt id) v1 db
        ≡ ok (tt, d1)
      → QuotaRepo.create_row (new_quota env auth id) v2 d1 ≡ ok (tt, d2)
      → Registered email password id sessions d2
  registered email password display_name salt id sessions v1 v2 db d1 d2 accepts strong base e1 e2 =
      let (users, absent, same_sessions) = created_user _ v1 db d1 e1 refl in
      let (same, quotas, still) = created_quota _ v2 d1 d2 e2 in
      record {
        account = record {
          user = record (new_user env auth email password display_name salt id) {
            created_at = v1.db_clock;
            updated_at = v1.db_clock;
          };
          at =
              let fresh = none-named email db.users absent in
              rw
                (
                  same,
                  users,
                  find_row-append (named email) db.users _,
                  fresh,
                  bytes_equal_refl email,
                )
                refl;
          accepted = accepts;
        };
        is_new = refl;
        current = strong;
        kept = still ∙ same_sessions ∙ base;
        quota =
            let own : (id == id) ≡ true = (==_iff id id).1 refl in
            let set : (auth.default_quota_bytes == auth.default_quota_bytes) ≡ true =
              (==_iff _ _).1 refl in
            rw (quotas, any_row-append (opened_of id) d1.quotas _, own, set)
              (or_true (any_row (opened_of id) d1.quotas));
      }

  Registered-same :
      (email password : Text) (id : ℕ) (sessions : List Session) (d d' : Db)
      → d'.users ≡ d.users
      → d'.quotas ≡ d.quotas
      → d'.sessions ≡ d.sessions
      → Registered email password id sessions d
      → Registered email password id sessions d'
  Registered-same email password id sessions d d' u q s r = record {
    account = record {
      user = r.account.user;
      at = rw u r.account.at;
      accepted = r.account.accepted;
    };
    is_new = r.is_new;
    current = r.current;
    kept = s ∙ r.kept;
    quota = rw q r.quota;
  }

  audit-Registered :
      (email password : Text) (id : ℕ) (sessions : List Session) (user_id : Option ℕ)
      (action : AuditAction) (resource_id : ℕ)
      → Keeps (Registered email password id sessions) (audit user_id action resource_id)
  unfolding audit AuditRepo.insert
  audit-Registered email password id sessions user_id action resource_id = Keeps-ignore _ _ (
      Keeps-statement _ _ λ w d d' a e r.
        Registered-same email password id sessions d d' (ground arith) (ground arith) (ground arith)
          r)

  pub register-Registered :
      (email password display_name : Text) (w : World)
      → ((pw salt : Bytes) (t m p n : ℕ) → All IsByte (auth.id_key pw salt t m p n))
      → ((pw salt : Bytes) (t m p n : ℕ) → length (auth.id_key pw salt t m p n) ≡ n)
      → ((d n : ℕ) → All IsByte (env.random d n))
      → Ends (register env auth email password display_name w) (λ user v.
        Registered (to_lower auth (trim_space email)) password user.id w.db.sessions v.db)
  unfolding register UserRepo.create QuotaRepo.create
  register-Registered raw password display_name w bytes sized drawn =
      let email = to_lower auth (trim_space raw) in
      Ends-fail_if _ _ _ _ _ λ _. Ends-fail_if _ _ _ _ _ λ _. Ends-fail_if _ _ _ _ _ λ _.
        Ends-bind _ _ _ _ (
          random_bytes-Ends env _ _ _ λ v0 same0.
            let salt = env.random v0.drawn default_argon2_params.salt_length in
            let accepts =
              verify_password-hash_password auth.id_key bytes sized password password salt
                default_argon2_params default_argon2_params (omega arith, omega arith, omega arith)
                (omega arith) (drawn _ _) in
            Ends-bind _ _ _ _ (
              new_id-Ends env _ _ (
                Ends-bind _ _ _ _ (
                  Ends-weaken _ _ _
                    (λ _ v stored. Ends-bind _ _ _ _ (
                      Ends-weaken _ _ _ (λ _ x still. Ends-pure _ _ _ still)
                        (Keeps-Ends (Registered email password _ w.db.sessions) _ v
                          (audit-Registered email password _ w.db.sessions _ _ _) stored)))
                    (Ends-within_tx (Registered email password _ w.db.sessions) _ _ λ v same.
                      Ends-bind _ _ _ _ (
                        Ends-statement _ _ _ λ v1 _ d1 e1. Ends-statement _ _ _ λ v2 _ d2 e2.
                          registered email password display_name salt _ w.db.sessions v1 v2 v.db d1
                            d2 accepts.0 accepts.2 (ap (λ d. d.sessions) (same ∙ same0)) e1 e2))))))
