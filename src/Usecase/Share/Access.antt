-- ===== src/Usecase/Share/Access.antt =====
-- What shares of internal/usecase/share_uc.go give access to.
use strato.Prelude.{List, Bool, true, false, ◌≡◌, some, find_row, arith}
use strato.Entity.Account.{Text}
use strato.Entity.Access.{Share, share_active}
use strato.Entity.Storage.{File}
use strato.Domain.Error.{Error, Result, ok}
use strato.Domain.World.{Db, World}
use strato.Domain.Ends.{
  Ends, Ends-bind, Ends-fail, Ends-fail_if, Ends-attempt_query_at, Ends-always, Ends-gets,
  Ends-pure,
}
use strato.Domain.Action.{attempt, query, ◌>>=◌}
use strato.Outside.{Env}
use strato.Postgres.BlobRepo.{found-ok}
use strato.Postgres.FileRepo
use strato.Postgres.ShareRepo
use strato.Postgres.ShareRepo.{by_token}
use strato.Usecase.Auth.Token.{AuthEnv, hash_token}
use strato.Usecase.Share.{or_error, opens, resolve_public_link}

-- A lookup whose failures are turned into one error.
pub Ends-or_error {ℓ} :
    {A : Type ℓ} (Q : A → World → Type 0) (e : Error) (f : World → Db → Result A) (w : World)
    → ((gs : List Bool) (a : A)
        → f (record w { faults = gs }) w.db ≡ ok a
        → Q a (record w { faults = gs }))
    → Ends ((attempt (query f) >>= or_error e) w) Q
unfolding or_error
Ends-or_error Q e f w h =
    Ends-attempt_query_at Q f (or_error e) w
      (λ gs a g. Ends-pure Q a (record w { faults = gs }) (h gs a g))
      (λ gs x. Ends-fail Q e (record w { faults = gs }))

-- The link of a token is open to a password: its row is active and takes the password, and its file is
-- live.
pub record Open (env : Env) (auth : AuthEnv) (token password : Text) (w : World) (f : File)
    (s : Share) : Type 0 where
  pub row : find_row (by_token (hash_token env token)) w.db.shares ≡ some s
  pub active : share_active s w.clock ≡ true
  pub taken : opens auth password s.password_hash ≡ true
  pub file : FileRepo.joined (find_row (FileRepo.by_id s.file_id) w.db.files) w.db ≡ ok f
  pub live : f.is_deleted ≡ false

-- Whenever `ResolvePublicLink` gives a file and a share: the share is the row of the token, it is not
-- revoked and not expired by the program's clock, it has no password or `VerifyPassword` accepts the
-- one given, and the file is the share's and not in the trash.
pub resolve_public_link-Open :
    (env : Env) (auth : AuthEnv) (token password : Text) (w : World)
    → Ends
        (resolve_public_link env auth token password w)
        (λ r _. Open env auth token password w r.0 r.1)
unfolding resolve_public_link ShareRepo.get_by_token_hash FileRepo.get_by_id
resolve_public_link-Open env auth token password w = Ends-bind _ _ _ _ (
    Ends-or_error _ _ _ _ λ gs s e. Ends-bind _ _ _ _ (
      Ends-gets _ _ _ (
        Ends-fail_if _ _ _ _ _ λ active. Ends-fail_if _ _ _ _ _ λ takes. Ends-bind _ _ _ _ (
          Ends-or_error _ _ _ _ λ hs f e'. Ends-fail_if _ _ _ _ _ λ live. Ends-bind _ _ _ _ (
            Ends-always _ _ λ _ y. Ends-pure _ _ _ (record {
              row = found-ok _ s e;
              active = ground arith;
              taken = ground arith;
              file = e';
              live = live;
            }))))))
