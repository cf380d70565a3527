-- ===== src/Transport/Rpc.antt =====
-- What the handlers of internal/transport/grpc share: the identity of the context, the ids and pages of a
-- request, and the status of a failure.
use strato.Prelude.{ℕ, [], ◌∷◌, Option, none, some}
use strato.Entity.Account.{Text}
use strato.Entity.Access.{Identity}
use strato.Domain.Error.{Error, Result, ok, err}
use strato.Domain.World.{World}
use strato.Domain.Action.{Action}
use strato.Middleware.{Context, Reply, answer, status}
use strato.Pagination.{Cursor}
use strato.Transport.Status.{Failure, domain, invalid_cursor, to_status}
use strato.Transport.Messages.{Wire, PageRequest, page_from_proto}

abbrev pub Rpc {ℓ} : Type ℓ → Type ℓ
Rpc A = World → Reply A × World

module _ {ℓ} {A : Type ℓ} where
  -- `return nil, toStatus(ctx, err)`.
  unfoldable pub refuse : Failure → Rpc A
  refuse e w = (status (to_status e), w)

  replied : Result A × World → Reply A × World
  replied (ok a, w) = (answer a, w)
  replied (err e, w) = (status (to_status (domain e)), w)

  -- The result of a use case, or the status of its error.
  unfoldable pub respond : Action A → Rpc A
  unfolding replied
  respond m w = replied (m w)

  -- `IdentityFromContext`.
  unfoldable pub with_identity : Option Identity → (Identity → Rpc A) → Rpc A
  with_identity none k = refuse (domain Error.unauthenticated)
  with_identity (some ident) k = k ident

  parsed : Option ℕ → (ℕ → Rpc A) → Rpc A
  parsed none k = refuse (domain Error.invalid_argument)
  parsed (some id) k = k id

  -- `parseUUID`.
  unfoldable pub with_id : Wire → Text → (ℕ → Rpc A) → Rpc A
  unfolding parsed
  with_id wire raw k = parsed (wire.parse_uuid raw) k

  -- `optionalUUID`.
  unfoldable pub with_optional_id : Wire → Text → (Option ℕ → Rpc A) → Rpc A
  with_optional_id wire [] k = k none
  with_optional_id wire (c ∷ raw) k = with_id wire (c ∷ raw) (λ id. k (some id))

  paged : Option (Cursor × ℕ) → (Cursor → ℕ → Rpc A) → Rpc A
  paged none k = refuse invalid_cursor
  paged (some (cur, limit)) k = k cur limit

  unfoldable pub with_page : Wire → Option PageRequest → (Cursor → ℕ → Rpc A) → Rpc A
  unfolding paged
  with_page wire p k = paged (page_from_proto wire p) k

  -- `identAndID`.
  unfoldable pub ident_and_id : Wire → Context → Text → (Identity → ℕ → Rpc A) → Rpc A
  ident_and_id wire ctx raw k =
      with_identity ctx.identity (λ ident. with_id wire raw (λ id. k ident id))
