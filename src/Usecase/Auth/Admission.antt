-- ===== src/Usecase/Auth/Admission.antt =====
-- `Login` after `Register` (internal/usecase/auth_uc.go).
use strato.Prelude.{
  ℕ, suc, ◌++◌, ◌+◌, arith, ◌≡◌, refl, true, false, List, [], ◌∷◌, some, none, length, ◌==◌,
  any_row, find_row, All, ==_iff,
}
use strato.Encoding.Base64.{url_encoding, encode}
use strato.Encoding.Base64.RoundTrip.{IsByte}
use strato.Encoding.Space.{trim_space}
use strato.Crypto.Cipher.{Bytes}
use strato.Entity.Account.{Text, User, Session}
use strato.Domain.Error.{ok}
use strato.Domain.World.{Db, World}
use strato.Domain.Ends.{Ends, Ends-weaken}
use strato.Domain.Action.{
  attempt, query, ◌>>=◌, outside, gets, pure, lift, statement, within_tx, reach, ignore,
}
use strato.Outside.{Env, new_id, random_bytes}
use strato.Postgres.UserRepo
use strato.Postgres.AuditRepo
use strato.Postgres.SessionRepo
use strato.Usecase.Audit.{audit}
use strato.Usecase.Auth.Token.{AuthEnv, Claims, random_token, hash_token, issue_access_token}
use strato.Usecase.Auth.Session.{RequestMeta, TokenPair, mint_pair, rotate_out, new_session}
use strato.Usecase.Auth.Account.{to_lower, register, rehash, login_checked, login_found, login}
use strato.Usecase.Auth.Login.{named, Registered, register-Registered}

-- The row that a lookup finds is there under its id.
found-present :
    (email : Text) (us : List User) (u : User)
    → find_row (named email) us ≡ some u
    → any_row (λ x. x.id == u.id) us ≡ true
found-present email [] u e = cc
found-present email (x ∷ us) u e =
    ground (arith, found-present email us u, (==_iff x.id x.id).1 refl)

module _ (env : Env) (auth : AuthEnv) where
  -- The draws of the random source are none of the sessions.
  pub record Fresh (sessions : List Session) : Type 0 where
    pub ids : (d : ℕ) → any_row (SessionRepo.by_id (env.uuid d)) sessions ≡ false
    pub tokens :
        (d : ℕ)
        → any_row
            (SessionRepo.by_token (hash_token env (encode url_encoding (env.random d 32))))
            sessions
          ≡ false

  create_row-Fresh :
      (s : Session) (w : World) (db : Db)
      → any_row (SessionRepo.by_id s.id) db.sessions ≡ false
      → any_row (SessionRepo.by_token s.token_hash) db.sessions ≡ false
      → any_row (λ u. u.id == s.user_id) db.users ≡ true
      → (d : Db) × (SessionRepo.create_row s w db ≡ ok (tt, d))
  unfolding SessionRepo.create_row
  create_row-Fresh s w db a b c = (
    record db {
      sessions =
          db.sessions
          ++ record s { created_at = w.db_clock; revoked_at = none; replaced_by = none } ∷ [];
    },
    rw (a, b, c) refl,
  )

  -- The pair of the first draws of a world.
  abbrev pair_of : (Claims → Text) → User → World → TokenPair
  pair_of token user w = record {
    access_token = token (record {
      issuer = auth.issuer;
      subject = user.id;
      issued_at = w.clock;
      expires_at = w.clock + auth.ttl;
      jti = env.uuid (suc (suc w.drawn));
      email = user.email;
      role = user.role;
    });
    refresh_token = encode url_encoding (env.random w.drawn 32);
    access_expires_at = w.clock + auth.ttl;
  }

  mint_pair-Fresh :
      (token : Claims → Text) (meta : RequestMeta) (user : User) (family : ℕ)
      (sessions : List Session) (w : World)
      → ((c : Claims) → auth.sign c ≡ ok (token c))
      → Fresh sessions
      → w.db.sessions ≡ sessions
      → any_row (λ u. u.id == user.id) w.db.users ≡ true
      → (v : World) × (mint_pair env auth meta user family none (record w { faults = [] })
          ≡ (ok (pair_of token user w), v))
  unfolding mint_pair rotate_out issue_access_token random_token new_id random_bytes
      SessionRepo.create ◌>>=◌ outside gets pure lift statement within_tx reach hash_token
  mint_pair-Fresh token meta user family sessions w signs fresh kept present =
      let created =
        create_row-Fresh
          (new_session env auth meta user family (encode url_encoding (env.random w.drawn 32))
            (env.uuid (suc w.drawn)) w.clock)
          (record w { faults = []; drawn = suc (suc w.drawn) }) w.db
          (rw (kept) (fresh.ids (suc w.drawn))) (rw (kept) (fresh.tokens w.drawn)) present in
      (
        record w { faults = []; drawn = suc (suc (suc w.drawn)); db = created.0 },
        rw (created.1, signs) refl,
      )

  login-Registered :
      (token : Claims → Text) (meta : RequestMeta) (raw password : Text) (id : ℕ)
      (sessions : List Session) (w : World)
      → ((c : Claims) → auth.sign c ≡ ok (token c))
      → Fresh sessions
      → Registered env auth (to_lower auth (trim_space raw)) password id sessions w.db
      → (pair : TokenPair) × ((login env auth meta raw password (record w { faults = [] })).0
          ≡ ok pair)
  unfolding login login_found login_checked rehash new_id audit AuditRepo.insert
      UserRepo.get_by_email attempt query ◌>>=◌ outside pure statement ignore
  login-Registered token meta raw password id sessions w signs fresh r =
      let user = r.account.user in
      let minted =
        mint_pair-Fresh token meta user (env.uuid w.drawn) sessions
          (record w { faults = []; drawn = suc w.drawn }) signs fresh r.kept
          (found-present _ w.db.users user r.account.at) in
      (
        pair_of token user (record w { drawn = suc w.drawn }),
        rw (r.account.at, r.account.accepted, r.current, minted.1) refl,
      )

  -- Whenever `Register` returns an account, in any world and whatever calls failed: the tables hold a live
  -- account with that id under the address that it was given, in lower case and without the spaces round it,
  -- for whose hash `VerifyPassword` accepts the password that it was given, and a quota row for it with
  -- nothing used and the quota of the policy; and `Login` with the same address and password, by anyone and at
  -- any time while no call fails, gives a token pair. Argon2 gives as many bytes as are asked, random bytes
  -- are bytes, every set of claims can be signed, and what is drawn is not the id or the token of a session.
  pub register-Admitted :
      (token : Claims → Text) (meta : RequestMeta) (raw password display_name : Text) (now : ℕ)
      (w : World)
      → ((pw salt : Bytes) (t m p n : ℕ) → All IsByte (auth.id_key pw salt t m p n))
      → ((pw salt : Bytes) (t m p n : ℕ) → length (auth.id_key pw salt t m p n) ≡ n)
      → ((d n : ℕ) → All IsByte (env.random d n))
      → ((c : Claims) → auth.sign c ≡ ok (token c))
      → Fresh w.db.sessions
      → Ends (register env auth raw password display_name w) (λ user v.
        Registered env auth (to_lower auth (trim_space raw)) password user.id w.db.sessions v.db
        × (pair : TokenPair) × ((login env auth meta raw password
              (record v { faults = []; clock = now })).0
            ≡ ok pair))
  register-Admitted token meta raw password display_name now w bytes sized drawn signs fresh =
      Ends-weaken _ _ _
        (λ user v r.
          let (pair, given) =
            login-Registered token meta raw password user.id w.db.sessions
              (record v { clock = now }) signs fresh r in
          (r, pair, given))
        (register-Registered env auth raw password display_name w bytes sized drawn)
