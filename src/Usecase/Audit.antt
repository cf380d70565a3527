-- ===== src/Usecase/Audit.antt =====
-- `Auditor.Record` of internal/usecase/audit.go: best effort, a failed insert is dropped.
use strato.Prelude.{ℕ, Option}
use strato.Domain.World.{AuditAction}
use strato.Domain.Action.{Action, ignore}
use strato.Postgres.AuditRepo

unfoldable pub audit : Option ℕ → AuditAction → ℕ → Action (Unit {0})
audit user_id action resource_id =
    ignore
      (AuditRepo.insert (record { user_id = user_id; action = action; resource_id = resource_id }))
