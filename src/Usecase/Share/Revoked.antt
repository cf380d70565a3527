-- ===== src/Usecase/Share/Revoked.antt =====
-- Who can revoke a share, and that a revoked link opens nothing (internal/usecase/share_uc.go).
use strato.Prelude.{
  sym, ℕ, Bool, true, false, ◌&&◌, ◌||◌, ◌≡◌, refl, List, [], ◌∷◌, Option, some, ◌==◌, find_row,
  any_row, update_rows, All, All-find_row, arith,
}
use strato.Entity.Account.{Text, is_admin_role, is_unset}
use strato.Entity.Storage.{File}
use strato.Entity.Access.{Share, share_active, Identity}
use strato.Domain.Error.{Error, ok, err, not_found}
use strato.Domain.World.{Db, World, AuditAction}
use strato.Domain.Ends.{
  Ends, Ends-bind, Ends-fail, Ends-fail_if, Ends-attempt_statement, Ends-weaken, Ends-pure,
}
use strato.Domain.Keeps.{Keeps, Keeps-Ends, Keeps-ignore, Keeps-statement}
use strato.Outside.{Env}
use strato.Postgres.AuditRepo
use strato.Postgres.BlobRepo.{found-ok, exec_one}
use strato.Postgres.ShareRepo
use strato.Postgres.ShareRepo.{by_token, unrevoked}
use strato.Usecase.Audit.{audit}
use strato.Usecase.Auth.Token.{AuthEnv, hash_token}
use strato.Usecase.Share.{revoked, revoke, resolve_public_link}
use strato.Usecase.Share.Access.{Ends-or_error, Open, resolve_public_link-Open}

-- No share of that id is in force.
abbrev Closed : ℕ → Db → Type 0
Closed id db = All (λ s. unrevoked id s ≡ false) db.shares

audit-Closed :
    (id : ℕ) (who : Option ℕ) (action : AuditAction) (resource_id : ℕ)
    → Keeps (Closed id) (audit who action resource_id)
unfolding audit AuditRepo.insert
audit-Closed id who action resource_id = Keeps-ignore _ _ (
    Keeps-statement _ _ λ w d d' a e r. let same : d'.shares ≡ d.shares = ground arith in rw same r)

revoked-Closed :
    (id now : ℕ) (ss : List Share)
    → All
        (λ s. unrevoked id s ≡ false)
        (update_rows (unrevoked id) (λ s. record s { revoked_at = some now }) ss)
revoked-Closed id now [] = tt
revoked-Closed id now (s ∷ ss) = ground (arith, revoked-Closed id now ss)

none-Closed :
    (id : ℕ) (ss : List Share)
    → any_row (unrevoked id) ss ≡ false
    → All (λ s. unrevoked id s ≡ false) ss
none-Closed id [] h = tt
none-Closed id (s ∷ ss) h = (ground arith, none-Closed id ss (ground arith))

-- Whose share it is, by the tables before: the caller's, or the caller is an admin.
abbrev pub Allowed : Identity → ℕ → Db → Type 0
Allowed ident id db =
    (s : Share) × (find_row (λ t. t.id == id) db.shares ≡ some s)
    × ((s.owner_id == ident.user_id || is_admin_role ident.role) ≡ true)

repo-ok :
    (id now : ℕ) (db d : Db) (u : Unit {0})
    → exec_one (any_row (unrevoked id) db.shares) (record db {
      shares = update_rows (unrevoked id) (λ s. record s { revoked_at = some now }) db.shares;
    })
      ≡ ok (u, d)
    → Closed id d
repo-ok id now db d u e =
    let same : d.shares
        ≡ update_rows (unrevoked id) (λ s. record s { revoked_at = some now }) db.shares =
      ground arith in
    rw same (revoked-Closed id now db.shares)

repo-err :
    (id : ℕ) (b : Bool) (db d : Db) (e : Error)
    → b ≡ any_row (unrevoked id) db.shares
    → exec_one b d ≡ err e
    → Closed id db
repo-err id true db d e same h = absurd (ground arith)
repo-err id false db d e same h = none-Closed id db.shares (sym same)

refused-Closed :
    (ident : Identity) (id : ℕ) (e : Error) (v : World)
    → Closed id v.db
    → Ends (revoked ident id (err e) v) (λ _ x. Closed id x.db)
unfolding revoked
refused-Closed ident id not_found v h = Ends-pure _ _ _ h
refused-Closed ident id e v h = Ends-fail _ _ _

revoke-Closed :
    (ident : Identity) (id : ℕ) (w : World)
    → Ends (revoke ident id w) (λ _ v. Allowed ident id w.db × Closed id v.db)
unfolding revoke ShareRepo.get_by_id ShareRepo.revoke revoked
revoke-Closed ident id w = Ends-bind _ _ _ _ (
    Ends-or_error _ _ _ w λ gs s e. Ends-fail_if _ _ _ _ _ λ mine.
      Ends-weaken _ _ _ (λ _ x c. ((s, found-ok _ s e, ground arith), c))
        (Ends-attempt_statement _ _ _ _
          (λ v u d e'.
            Keeps-Ends (Closed id) _ _ (audit-Closed id _ _ _) (repo-ok id v.db_clock w.db d u e'))
          (λ v x same e'. refused-Closed ident id x v (rw same (repo-err id _ w.db _ x refl e')))
          (λ v same. Ends-fail _ _ _)))

and_true : (b : Bool) → (b && true) ≡ b
and_true true = refl
and_true false = refl

active-unset : (s : Share) (now : ℕ) → share_active s now ≡ true → is_unset s.revoked_at ≡ true
unfolding share_active
active-unset s now h = ground arith

other_share :
    (env : Env) (auth : AuthEnv) (token password : Text) (id : ℕ) (x : World) (r : File × Share)
    → Closed id x.db
    → Open env auth token password x r.0 r.1
    → (r.1.id == id) ≡ false
other_share env auth token password id x r c o =
    let closed : unrevoked id r.1 ≡ false =
      All-find_row (λ s. unrevoked id s ≡ false) (by_token (hash_token env token)) x.db.shares r.1 c
        o.row in
    rw (active-unset r.1 x.clock o.active, and_true (r.1.id == id)) at closed

-- Whenever `Revoke` succeeds, in any world and whatever calls failed, also where it finds the share
-- revoked already: the tables held the share, and the caller made it or is an admin; and from then on
-- `ResolvePublicLink`, at any time, whatever fails, gives no one that share, whatever the token and the
-- password.
pub revoke-Closes :
    (env : Env) (auth : AuthEnv) (ident : Identity) (id : ℕ) (token password : Text) (now : ℕ)
    (faults : List Bool) (w : World)
    → Ends (revoke ident id w) (λ _ v.
      Allowed ident id w.db
      × Ends
          (resolve_public_link env auth token password (record v { faults = faults; clock = now }))
          (λ r _. (r.1.id == id) ≡ false))
revoke-Closes env auth ident id token password now faults w =
    Ends-weaken _ _ _
      (λ _ v c. (
        c.0,
        Ends-weaken _ _ _
            (λ r _ o.
              other_share env auth token password id (record v { faults = faults; clock = now }) r
                c.1 o)
            (resolve_public_link-Open env auth token password _),
      ))
      (revoke-Closed ident id w)
