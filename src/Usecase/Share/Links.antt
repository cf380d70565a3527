-- ===== src/Usecase/Share/Links.antt =====
-- That a public link opens what it was made for (internal/usecase/share_uc.go).
use strato.Prelude.{
  subst, ℕ, true, false, ◌≡◌, refl, sym, List, [], ◌∷◌, Option, none, some, ◌==◌, ==_iff, find_row,
  any_row, All, arith, find_row-append, length,
}
use strato.Encoding.Base64.RoundTrip.{IsByte}
use strato.Crypto.Cipher.{Bytes}
use strato.Crypto.Password.{default_argon2_params}
use strato.Crypto.Password.RoundTrip.{verify_password-own}
use strato.Entity.Account.{Text}
use strato.Entity.Storage.{File}
use strato.Entity.Access.{Permission, Share, Identity}
use strato.Domain.Error.{Result, ok}
use strato.Domain.World.{Db, World, AuditAction}
use strato.Domain.Action.{
  attempt, query, ◌>>=◌, outside, gets, fail, fail_if, pure, ignore, statement,
}
use strato.Domain.Ends.{
  Ends, Ends-bind, Ends-fail_if, Ends-fail_if_last, Ends-statement, Ends-gets, Ends-weaken,
  Ends-pure,
}
use strato.Domain.Keeps.{Keeps, Keeps-Ends, Keeps-ignore, Keeps-statement}
use strato.Outside.{Env}
use strato.Outside.Tables.{random_bytes-Ends, new_id-Ends}
use strato.Postgres.AuditRepo
use strato.Postgres.FileRepo
use strato.Postgres.ShareRepo
use strato.Postgres.ShareRepo.{by_token}
use strato.Usecase.Audit.{audit}
use strato.Usecase.Auth.Token.{AuthEnv, random_token, hash_token}
use strato.Usecase.Share.{
  past, or_error, opens, link_share, link_password, validate_expiry, create_public_link,
  resolve_public_link,
}
use strato.Usecase.Share.Row.{Row, Row-id, Row-same, created_share, new-active, shared_file-Ends}

-- What the tables hold once a link is made.
record Linked (file_id : ℕ) (f : File) (hash : ℕ) (s : Share) (db : Db) : Type 0 where
  pub row : Row file_id db f
  pub live : f.is_deleted ≡ false
  pub created : ℕ
  pub link :
      find_row (by_token hash) db.shares
      ≡ some (record s { created_at = created; revoked_at = none })

untaken :
    (hash : ℕ) (s : Share) (ss : List Share)
    → s.token_hash ≡ some hash
    → any_row (ShareRepo.taken s) ss ≡ false
    → any_row (by_token hash) ss ≡ false
untaken hash s [] e h = refl
untaken hash s (t ∷ ts) e h =
    let head : ShareRepo.taken s t ≡ false = ground arith in
    let miss : by_token hash t ≡ false = ground (arith, rw e at head) in
    rw miss (untaken hash s ts e (ground arith))

created-Linked :
    (file_id : ℕ) (f : File) (hash : ℕ) (s : Share) (v : World) (db d : Db)
    → s.token_hash ≡ some hash
    → f.is_deleted ≡ false
    → Row file_id db f
    → ShareRepo.create_row s v db ≡ ok (tt, d)
    → Linked file_id f hash s d
created-Linked file_id f hash s v db d to live row e =
    let (shares, free, files, versions, blobs) = created_share s v db d e in
    record {
      row = Row-same file_id db d f files versions blobs row;
      live = live;
      created = v.db_clock;
      link =
          let same : (hash == hash) ≡ true = (==_iff hash hash).1 refl in
          let none' = untaken hash s db.shares to free in
          rw (shares, find_row-append (by_token hash) db.shares _, none', to, same) refl;
    }

audit-Linked :
    (file_id : ℕ) (f : File) (hash : ℕ) (s : Share) (who : Option ℕ) (action : AuditAction)
    (resource_id : ℕ)
    → Keeps (Linked file_id f hash s) (audit who action resource_id)
unfolding audit AuditRepo.insert
audit-Linked file_id f hash s who action resource_id = Keeps-ignore _ _ (
    Keeps-statement _ _ λ w d d' a e r.
      let shares : d'.shares ≡ d.shares = ground arith in
      record {
        row = Row-same file_id d d' f (ground arith) (ground arith) (ground arith) r.row;
        live = r.live;
        created = r.created;
        link = rw shares r.link;
      })

resolve_public_link-Linked :
    (env : Env) (auth : AuthEnv) (file_id : ℕ) (f : File) (token password : Text) (s : Share)
    (now : ℕ) (v : World)
    → s.file_id ≡ file_id
    → past s.expires_at now ≡ false
    → opens auth password s.password_hash ≡ true
    → (r : Linked file_id f (hash_token env token) s v.db)
    → (resolve_public_link env auth token password (record v { faults = []; clock = now })).0
      ≡ ok (f, record s { created_at = r.created; revoked_at = none })
unfolding resolve_public_link ShareRepo.get_by_token_hash FileRepo.get_by_id or_error audit
    AuditRepo.insert ◌>>=◌ attempt gets fail fail_if pure query statement outside ignore
resolve_public_link-Linked env auth file_id f token password s now v of b c r =
    let row : Row s.file_id v.db f = subst (λ i. Row i v.db f) (sym of) r.row in
    rw (r.link, new-active s r.created now b, c, row, r.live) refl

-- The hash of a link's password takes that password.
link_password-Ends :
    (env : Env) (auth : AuthEnv) (password : Text) (Q : Option Text → World → Type 0) (w : World)
    → ((pw salt : Bytes) (t m p n : ℕ) → All IsByte (auth.id_key pw salt t m p n))
    → ((pw salt : Bytes) (t m p n : ℕ) → length (auth.id_key pw salt t m p n) ≡ n)
    → ((d n : ℕ) → All IsByte (env.random d n))
    → ((h : Option Text) (v : World) → v.db ≡ w.db → opens auth password h ≡ true → Q h v)
    → Ends (link_password env auth password w) Q
unfolding link_password opens
link_password-Ends env auth [] Q w bytes sized drawn k = Ends-pure _ _ _ (k none w refl refl)
link_password-Ends env auth (c ∷ pw) Q w bytes sized drawn k = Ends-fail_if _ _ _ _ _ λ _.
    Ends-bind _ _ _ _ (
      random_bytes-Ends env _ _ _ λ v same.
        let salt = env.random v.drawn default_argon2_params.salt_length in
        let accepts =
          verify_password-own auth.id_key bytes sized (c ∷ pw) salt default_argon2_params
            (omega arith, omega arith, omega arith) (omega arith) (drawn _ _) in
        Ends-pure _ _ _ (k _ _ same (rw accepts refl)))

random_token-Ends :
    (env : Env) (n : ℕ) (Q : Text → World → Type 0) (w : World)
    → ((t : Text) (v : World) → v.db ≡ w.db → Q t v)
    → Ends (random_token env n w) Q
unfolding random_token
random_token-Ends env n Q w k =
    Ends-bind _ _ _ _ (random_bytes-Ends env _ _ _ λ v same. Ends-pure _ _ _ (k _ _ same))

-- What the token of a link opens: the file it was made for, with its share.
pub record Opens (id : ℕ) (file_id : ℕ) (r : Result (File × Share)) : Type 0 where
  pub file : File
  pub share : Share
  pub given : r ≡ ok (file, share)
  pub of_file : file.id ≡ file_id
  pub of_share : share.id ≡ id

-- Whenever `CreatePublicLink` makes a link, in any world and whatever calls failed, where argon2 gives as
-- many bytes as are asked and random bytes are bytes: its token and the password that it was made with
-- open the file, while no call fails, at any time at which the link has not expired.
pub create_public_link-Opens :
    (env : Env) (auth : AuthEnv) (ident : Identity) (file_id : ℕ) (perm : Permission)
    (expires_at : Option ℕ) (password : Text) (now : ℕ) (w : World)
    → ((pw salt : Bytes) (t m p n : ℕ) → All IsByte (auth.id_key pw salt t m p n))
    → ((pw salt : Bytes) (t m p n : ℕ) → length (auth.id_key pw salt t m p n) ≡ n)
    → ((d n : ℕ) → All IsByte (env.random d n))
    → past expires_at now ≡ false
    → Ends (create_public_link env auth ident file_id perm expires_at password w) (λ r v.
      Opens r.0.id file_id
        (resolve_public_link env auth r.1 password (record v { faults = []; clock = now })).0)
unfolding create_public_link validate_expiry ShareRepo.create
create_public_link-Opens env auth ident file_id perm expires_at password now w bytes sized drawn b =
    Ends-fail_if _ _ _ _ _ λ _. Ends-bind _ _ _ _ (
      Ends-bind _ _ _ _ (
        Ends-gets _ _ _ (
          Ends-fail_if_last _ _ _ _ λ _. Ends-bind _ _ _ _ (
            shared_file-Ends _ ident file_id w λ f v same row live. Ends-bind _ _ _ _ (
              random_token-Ends env _ _ _ λ token v1 same1. Ends-bind _ _ _ _ (
                link_password-Ends env auth password _ _ bytes sized drawn λ h v2 same2 takes.
                  Ends-bind _ _ _ _ (
                    new_id-Ends env _ _ (
                      let share =
                        link_share ident f (hash_token env token) perm h expires_at
                          (env.uuid v2.drawn) in
                      Ends-bind _ _ _ _ (
                        Ends-statement _ _ _ λ x _ d e. Ends-bind _ _ _ _ (
                          Ends-weaken _ _ _
                            (λ _ y still. Ends-pure _ _ _ (record {
                              file = f;
                              share = record share {
                                created_at = still.created;
                                revoked_at = none;
                              };
                              given =
                                  resolve_public_link-Linked env auth file_id f token password share
                                    now y (Row-id file_id w.db f row) b takes still;
                              of_file = Row-id file_id w.db f row;
                              of_share = refl;
                            }))
                            (Keeps-Ends (Linked file_id f (hash_token env token) share) _ _
                              (audit-Linked file_id f (hash_token env token) share _ _ _)
                              (created-Linked file_id f (hash_token env token) share x v2.db d refl
                                live (rw (same2, same1, same) row) e))))))))))))
