-- ===== src/Examples/Share.antt =====
-- internal/usecase/share_uc.go on a file of one user that is shared with another.
use strato.Prelude.{◌≡◌, refl, false, [], ◌∷◌, none, some, ◌==◌, arith}
use strato.Entity.Account.{role_user}
use strato.Entity.Access.{viewer, allows, Share}
use strato.Domain.World.{World}
use strato.Domain.Ends.{Ends}
use strato.Usecase.Auth.Account.{register}
use strato.Usecase.Share.{create_share, create_public_link, revoke, resolve_public_link}
use strato.Usecase.Share.Access.{Open, resolve_public_link-Open}
use strato.Usecase.Share.Granting.{Admits, create_share-Admits}
use strato.Usecase.Share.Links.{Opens, create_public_link-Opens}
use strato.Usecase.Share.Revoked.{Allowed, revoke-Closes}
use strato.Examples.Storage.{env, ann, world}
use strato.Examples.Auth.{auth, email, password, repeat-IsByte, key-IsByte, length-key}

-- A second user has registered.
abbrev joined : World
joined = (register env auth email password [] (world [])).1

create_share-Admits_example :
    Ends (create_share env auth ann 4 email viewer (some 90) joined) (λ s v.
      Admits auth email joined.db 4
        (λ id. record { user_id = id; email = []; role = role_user })
        viewer
        (record v { faults = []; clock = 80; db_clock = 70 }))
unfolding allows
create_share-Admits_example =
    create_share-Admits env auth ann 4 email viewer viewer (some 90) [] role_user 80 70 joined refl
      refl refl

create_public_link-Opens_example :
    Ends (create_public_link env auth ann 4 viewer (some 90) password (world [])) (λ r v.
      Opens r.0.id 4
        (resolve_public_link env auth r.1 password (record v { faults = []; clock = 80 })).0)
create_public_link-Opens_example =
    create_public_link-Opens env auth ann 4 viewer (some 90) password 80 (world []) key-IsByte
      length-key (λ d n. repeat-IsByte n 0 (omega arith)) refl

-- The link of a token, with no password.
abbrev link : Share
link = record {
  id = 30;
  file_id = 4;
  owner_id = 1;
  grantee_id = none;
  token_hash = some 66;
  permission = viewer;
  password_hash = none;
  expires_at = none;
  created_at = 0;
  revoked_at = none;
}

abbrev linked : World
linked = record (world []) { db = record (world []).db { shares = link ∷ [] } }

resolve_public_link-Open_example :
    Ends
      (resolve_public_link env auth (66 ∷ []) [] linked)
      (λ r _. Open env auth (66 ∷ []) [] linked r.0 r.1)
resolve_public_link-Open_example = resolve_public_link-Open env auth (66 ∷ []) [] linked

revoke-Closes_example : Ends (revoke ann 30 linked) (λ _ v.
    Allowed ann 30 linked.db
    × Ends
        (resolve_public_link env auth (66 ∷ []) [] (record v { faults = []; clock = 80 }))
        (λ r _. (r.1.id == 30) ≡ false))
revoke-Closes_example = revoke-Closes env auth ann 30 (66 ∷ []) [] 80 [] linked
