-- ===== src/Usecase/Auth/Rotation.antt =====
-- Rotation of refresh tokens (`Refresh` and `mintPair` of internal/usecase/auth_uc.go).
use strato.Prelude.{
  ℕ, All, any_row, List, ◌≡◌, refl, sym, ap, ◌∙◌, true, false, [], ◌∷◌, ◌++◌, Option, some, none,
  ==_iff, arith, find_row, update_rows, find_row-append, All-append, All-update_rows,
  find_row-update_rows, any_row-find_row,
}
use strato.Entity.Account.{Text, Session, User, is_set, is_unset}
use strato.Domain.Error.{ok}
use strato.Domain.World.{Db, World}
use strato.Domain.Ends.{
  Ends, Ends-bind, Ends-fail, Ends-fail_if, Ends-gets, Ends-pure, Ends-statement,
  Ends-attempt_query, Ends-cases, Ends-if, Ends-always, Ends-weaken,
}
use strato.Domain.Keeps.{
  Keeps, Keeps-Ends, Keeps-bind, Keeps-pure, Keeps-lift, Keeps-gets, Ends-within_tx,
}
use strato.Outside.{Env}
use strato.Outside.Tables.{random_bytes-Keeps, new_id-Keeps}
use strato.Postgres.SessionRepo
use strato.Postgres.UserRepo
use strato.Postgres.BlobRepo.{found-ok}
use strato.Usecase.Auth.Token.{AuthEnv, hash_token, random_token, issue_access_token}
use strato.Usecase.Auth.Session.{
  RequestMeta, new_session, rotate_out, mint_pair, refresh_user, refresh_revoked, refresh_session,
  refresh,
}

-- The token of the digest `hash` is one of a session that was rotated out, and that of `next` is of its
-- family.
pub record Spent (hash next : ℕ) (db : Db) : Type 0 where
  pub session : Session
  pub at : find_row (SessionRepo.by_token hash) db.sessions ≡ some session
  pub revoked : is_set session.revoked_at ≡ true
  pub replaced : is_set session.replaced_by ≡ true
  pub family :
      All (λ n. SessionRepo.by_token next n ≡ true → n.family_id ≡ session.family_id) db.sessions

create_row-ok :
    (n : Session) (w : World) (db d : Db)
    → SessionRepo.create_row n w db ≡ ok (tt, d)
    → (d.sessions
        ≡ db.sessions
          ++ record n { created_at = w.db_clock; revoked_at = none; replaced_by = none } ∷ [])
      × (any_row (SessionRepo.by_token n.token_hash) db.sessions ≡ false)
unfolding SessionRepo.create_row
create_row-ok n w db d e = ground arith

-- A session that is found stays the one that is found.
created-found :
    (hash : ℕ) (s n : Session) (w : World) (db d : Db)
    → SessionRepo.create_row n w db ≡ ok (tt, d)
    → find_row (SessionRepo.by_token hash) db.sessions ≡ some s
    → find_row (SessionRepo.by_token hash) d.sessions ≡ some s
created-found hash s n w db d e h =
    let grown = (create_row-ok n w db d e).0 in
    let there = any_row-find_row (SessionRepo.by_token hash) db.sessions s h in
    rw (grown, find_row-append (SessionRepo.by_token hash) db.sessions _, there) h

absent-All :
    (hash family_id : ℕ) (ss : List Session)
    → any_row (SessionRepo.by_token hash) ss ≡ false
    → All (λ n. SessionRepo.by_token hash n ≡ true → n.family_id ≡ family_id) ss
absent-All hash family_id [] h = tt
absent-All hash family_id (s ∷ ss) h = ground (arith, absent-All hash family_id ss)

-- The only session of a new token is the new one.
created-family :
    (n : Session) (w : World) (db d : Db)
    → SessionRepo.create_row n w db ≡ ok (tt, d)
    → All (λ r. SessionRepo.by_token n.token_hash r ≡ true → r.family_id ≡ n.family_id) d.sessions
created-family n w db d e =
    let (grown, absent) = create_row-ok n w db d e in
    rw grown (
      All-append _ db.sessions _ (absent-All n.token_hash n.family_id db.sessions absent)
        (λ _. refl))

revoke_row-ok :
    (id next : ℕ) (w : World) (db d : Db)
    → SessionRepo.revoke_row id (some next) w db ≡ ok (tt, d)
    → d.sessions
      ≡ update_rows
          (SessionRepo.unrevoked id)
          (λ s. record s { revoked_at = some w.db_clock; replaced_by = some next })
          db.sessions
unfolding SessionRepo.revoke_row
revoke_row-ok id next w db d e = ground arith

unset : {A : Type 0} (o : Option A) → is_set o ≡ false → is_unset o ≡ true
unset none e = refl
unset (some a) e = sym e

unrevoked-own : (s : Session) → is_set s.revoked_at ≡ false → SessionRepo.unrevoked s.id s ≡ true
unrevoked-own s live = rw ((==_iff s.id s.id).1 refl, unset s.revoked_at live) refl

revoked-Spent :
    (hash next_hash next : ℕ) (s : Session) (w : World) (db d : Db)
    → SessionRepo.revoke_row s.id (some next) w db ≡ ok (tt, d)
    → find_row (SessionRepo.by_token hash) db.sessions ≡ some s
    → is_set s.revoked_at ≡ false
    → All (λ n. SessionRepo.by_token next_hash n ≡ true → n.family_id ≡ s.family_id) db.sessions
    → Spent hash next_hash d
revoked-Spent hash next_hash next s w db d e h live family =
    let revise =
      λ (r : Session). record r { revoked_at = some w.db_clock; replaced_by = some next } in
    let updated =
      find_row-update_rows (SessionRepo.by_token hash) (SessionRepo.unrevoked s.id) revise
        db.sessions s (λ r. refl) h in
    let own = unrevoked-own s live in
    record {
      session = revise s;
      at =
          ap (find_row (SessionRepo.by_token hash)) (revoke_row-ok s.id next w db d e)
          ∙ (rw own at updated);
      revoked = refl;
      replaced = refl;
      family = rw (revoke_row-ok s.id next w db d e) (
          All-update_rows _ _ (SessionRepo.unrevoked s.id) revise db.sessions (λ n h _. h)
            (λ n h _. h) family);
    }

module _ (env : Env) (auth : AuthEnv) (meta : RequestMeta) where
  random_token-Keeps : (I : Db → Type 0) (n : ℕ) → Keeps I (random_token env n)
  unfolding random_token
  random_token-Keeps I n = Keeps-bind _ _ _ (random_bytes-Keeps _ env n) λ b. Keeps-pure _ _

  issue_access_token-Keeps :
      (I : Db → Type 0) (user : User) → Keeps I (issue_access_token env auth user)
  unfolding issue_access_token
  issue_access_token-Keeps I user = Keeps-bind _ _ _ (Keeps-gets _ _) λ now.
      Keeps-bind _ _ _ (new_id-Keeps _ env)
        λ id. Keeps-bind _ _ _ (Keeps-lift _ _) λ token. Keeps-pure _ _

  mint_pair-Spent :
      (hash : ℕ) (user : User) (s : Session) (w : World)
      → find_row (SessionRepo.by_token hash) w.db.sessions ≡ some s
      → is_set s.revoked_at ≡ false
      → Ends
          (mint_pair env auth meta user s.family_id (some s.id) w)
          (λ pair v. Spent hash (hash_token env pair.refresh_token) v.db)
  unfolding mint_pair rotate_out SessionRepo.create SessionRepo.revoke
  mint_pair-Spent hash user s w h live =
      let Found = λ (d : Db). find_row (SessionRepo.by_token hash) d.sessions ≡ some s in
      Ends-bind _ _ _ _ (
        Ends-weaken _ _ _
          (λ token w1 h1. Ends-bind _ _ _ _ (
            Ends-weaken _ _ _
              (λ id w2 h2. Ends-bind _ _ _ _ (
                Ends-gets _ _ _ (
                  Ends-bind _ _ _ _ (
                    Ends-weaken _ _ _
                      (λ _ w3 spent. Ends-bind _ _ _ _ (
                        Ends-weaken _ _ _ (λ access w4 kept_spent. Ends-pure _ _ _ kept_spent)
                          (Keeps-Ends (Spent hash (hash_token env token)) _ w3
                            (issue_access_token-Keeps (Spent hash (hash_token env token)) user)
                            spent)))
                      (Ends-within_tx (Spent hash (hash_token env token)) _ w2 λ v same.
                        let n = new_session env auth meta user s.family_id token id w2.clock in
                        Ends-bind _ _ _ _ (
                          Ends-statement _ _ _ λ v1 _ d c. Ends-statement _ _ _ λ v2 _ d' c'.
                            revoked-Spent hash (hash_token env token) id s v2 d d' c'
                              (created-found hash s n v1 v.db d c (rw same h2)) live
                              (created-family n v1 v.db d c)))))))
              (Keeps-Ends Found _ w1 (new_id-Keeps Found env) h1)))
          (Keeps-Ends Found _ w (random_token-Keeps Found 32) h))

  -- A refresh that succeeds spends its token.
  pub refresh-Spent :
      (token : Text) (w : World)
      → Ends
          (refresh env auth meta token w)
          (λ pair v. Spent (hash_token env token) (hash_token env pair.refresh_token) v.db)
  unfolding refresh SessionRepo.get_by_token_hash UserRepo.get_by_id refresh_session refresh_revoked
      refresh_user
  refresh-Spent token w =
      Ends-attempt_query _ _ _ w
        (λ v s same e. Ends-bind _ _ _ _ (
          Ends-gets _ _ _ (
            Ends-cases _ (is_set s.revoked_at) _ _ v
              (λ _.
                Ends-if _ (is_set s.replaced_by) _ _ v
                  (Ends-bind _ _ _ _ (
                    Ends-always _ _
                      (λ _ x. Ends-bind _ _ _ _ (Ends-always _ _ (λ _ y. Ends-fail _ _ _)))))
                  (Ends-fail _ _ _))
              (λ live. Ends-fail_if _ _ _ _ _ λ active.
                Ends-attempt_query _ _ _ v
                  (λ v1 user same1 e1.
                    mint_pair-Spent (hash_token env token) user s v1
                      (rw (same1, same) (found-ok _ s e)) live)
                  (λ v1 x same1. Ends-fail _ _ _)))))
        (λ v x same. Ends-fail _ _ _)
