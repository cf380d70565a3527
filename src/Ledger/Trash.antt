-- ===== src/Ledger/Trash.antt =====
-- The transaction of `sweepTrash` (internal/service/gc.go) keeps the accounts.
use mathlib.Core.Bool.{true≢false}
use strato.Prelude.{
  Bool-cases, ℕ, zero, suc, ◌+◌, ◌-◌, ◌≤◌, ◌≡◌, refl, sym, subst, ap, ◌∙◌, Bool, true, false, List,
  arith, inl, inr, ◌==◌, any_row, update_rows, count_rows, All,
}
use strato.Entity.Account.{Quota}
use strato.Entity.Storage.{File}
use strato.Domain.Error.{Result, ok, ok-injective}
use strato.Domain.World.{Db, World}
use strato.Domain.Action.{◌>>=◌, ◌>>◌}
use strato.Domain.Ends.{
  Ends, Ends-bind, Ends-statement, Ends-query, Ends-pure, Ends-fail, Ends-always, Ends-weaken,
}
use strato.Domain.Keeps.{
  Keeps, Keeps-Ends, within_tx-leads, Keeps-bind, Keeps-statement, Keeps-if, Keeps-query,
  Keeps-pure, Keeps-fail,
}
use strato.Postgres.QuotaRepo
use strato.Postgres.QuotaRepo.{
  of_user, fits, Delta, charge, release, negated, charge_row, release_row,
}
use strato.Postgres.VersionRepo
use strato.Postgres.VersionRepo.{of_file, total_of}
use strato.Postgres.FileRepo
use strato.Postgres.BlobRepo
use strato.Service.Gc.{purge_file}
use strato.Ledger.Balance.{owned, Used, Ledger, any_row-update_rows, count_rows-update_rows}
use strato.Ledger.Steps.{Ledger-same}
use strato.Ledger.Purge.{
  left_versions, left_files, left_blobs, lessened, left-Ledger, released, released-usage, uncharged,
  uncharged-usage,
}

charge_none-ok :
    (user_id : ℕ) (db d : Db) (taken : Bool)
    → charge_row user_id 0 db ≡ ok (taken, d)
    → d ≡ record db {
      quotas =
          update_rows (fits user_id 0) (λ q. record q { used_bytes = q.used_bytes + 0 }) db.quotas;
    }
unfolding charge_row
charge_none-ok user_id db d taken e = ground arith

release_row-ok :
    (user_id n : ℕ) (db d : Db)
    → release_row user_id n db ≡ ok (tt, d)
    → d ≡ record db {
      quotas =
          update_rows (of_user user_id) (λ q. record q { used_bytes = q.used_bytes - n }) db.quotas;
    }
unfolding release_row
release_row-ok user_id n db d e = ground arith

module _ (db : Db) (id owner_id : ℕ) (touch : File → File) (hi : (x : File) → (touch x).id ≡ x.id)
    (ho : (x : File) → (touch x).owner_id ≡ x.owner_id)
    (own : (u : ℕ) → owned u id db.files ≡ (owner_id == u)) where
  -- The quotas with the bytes of the file given back.
  Settled : List Quota → Type 0
  Settled qs =
      All
        (Used (left_files db id owner_id touch hi ho own)
          (left_versions db id owner_id touch hi ho own))
        qs
      × ((u : ℕ) → count_rows (of_user u) qs ≤ 1)

  Settles : World → World → Type 0
  Settles w x = (qs : List Quota) × (x.db ≡ record w.db { quotas = qs }) × Settled qs

  uncharged-Settles :
      (taken : Bool) (w v : World) (d : Db)
      → total_of id db ≡ 0
      → w.db.quotas ≡ db.quotas
      → Ledger db
      → charge_row owner_id 0 w.db ≡ ok (taken, d)
      → Ends (QuotaRepo.after_charge owner_id taken (record v { db = d })) (λ _ x. Settles w x)
  unfolding QuotaRepo.after_charge Settles Settled uncharged
  uncharged-Settles true w v d none_left same l e = Ends-pure _ _ _ (
    update_rows (fits owner_id 0) (uncharged db id owner_id touch hi ho own) db.quotas,
    rw same at (charge_none-ok owner_id w.db d true e),
    (
      uncharged-usage db id owner_id touch hi ho own none_left l.usage,
      λ u.
          subst (λ (n : ℕ). n ≤ 1)
            (sym (
              count_rows-update_rows (of_user u) (fits owner_id 0)
                (uncharged db id owner_id touch hi ho own) db.quotas (λ q. refl)))
            (l.one_quota u),
    ),
  )
  uncharged-Settles false w v d none_left same l e =
      Ends-bind _ _ _ _ (Ends-always _ _ λ q x. Ends-fail _ _ _)

  add_usage-Settles :
      (n : ℕ) (w : World)
      → n ≡ total_of id db
      → w.db.quotas ≡ db.quotas
      → Ledger db
      → Ends (QuotaRepo.add_usage owner_id (negated n) w) (λ _ x. Settles w x)
  unfolding QuotaRepo.add_usage negated Settles Settled released
  add_usage-Settles zero w e same l =
      Ends-bind _ _ _ _
        (Ends-statement _ _ _ λ v taken d c. uncharged-Settles taken w v d (sym e) same l c)
  add_usage-Settles (suc n) w e same l = Ends-statement _ _ _ λ v _ d c. (
    update_rows (of_user owner_id) (released db id owner_id touch hi ho own) db.quotas,
    rw (same, e) at (release_row-ok owner_id (suc n) w.db d c),
    (
      released-usage db id owner_id touch hi ho own l.usage,
      λ u.
          subst (λ (n : ℕ). n ≤ 1)
            (sym (
              count_rows-update_rows (of_user u) (of_user owner_id)
                (released db id owner_id touch hi ho own) db.quotas (λ q. refl)))
            (l.one_quota u),
    ),
  )

-- The rows of a file are its own, if it is there.
abbrev pub Known : File → Db → Type 0
Known f db =
    any_row (FileRepo.by_id f.id) db.files ≡ true
    → (u : ℕ) → owned u f.id db.files ≡ (f.owner_id == u)

purge-ok :
    (id : ℕ) (db d : Db)
    → BlobRepo.exec_one (any_row (FileRepo.by_id id) db.files) (FileRepo.purge_rows id db)
      ≡ ok (tt, d)
    → (any_row (FileRepo.by_id id) db.files ≡ true) × (d ≡ FileRepo.purge_rows id db)
purge-ok id db d e = ground arith

pub purge-Ends :
    (id : ℕ) (w : World) (Q : Unit {0} → World → Type 0)
    → ((v : World)
        → any_row (FileRepo.by_id id) w.db.files ≡ true
        → Q tt (record v {
          db = FileRepo.purge_rows id (record w.db {
            files = update_rows (FileRepo.by_id id) FileRepo.unlinked w.db.files;
          });
        }))
    → Ends (FileRepo.purge id w) Q
unfolding FileRepo.purge
purge-Ends id w Q h = Ends-bind _ _ _ _ (
    Ends-statement _ _ _ λ v _ d c. Ends-statement _ _ _ λ x _ d' c'.
      let unlinked_files : d
          ≡ record w.db { files = update_rows (FileRepo.by_id id) FileRepo.unlinked w.db.files } =
        sym (ap (λ (p : Unit {0} × Db). p.1) (ok-injective c)) in
      let (there, rows) = purge-ok id d d' c' in
      let same =
        any_row-update_rows (FileRepo.by_id id) (FileRepo.by_id id) FileRepo.unlinked w.db.files
          (λ f. refl) in
      rw (rows, unlinked_files) (h x (sym same ∙ (rw unlinked_files at there))))

decremented :
    (id : ℕ) (db d : Db)
    → ◌≡◌ {A = Result (Unit {0} × Db)}
        (ok (tt, BlobRepo.decrement_rows_for_file id db))
        (ok (tt, d))
    → d ≡ BlobRepo.decrement_rows_for_file id db
decremented id db d c = sym (ap (λ (p : Unit {0} × Db). p.1) (ok-injective c))

pub decremented-files :
    (id : ℕ) (db d : Db)
    → ◌≡◌ {A = Result (Unit {0} × Db)}
        (ok (tt, BlobRepo.decrement_rows_for_file id db))
        (ok (tt, d))
    → d.files ≡ db.files
unfolding BlobRepo.decrement_rows_for_file
decremented-files id db d c = ap (λ (x : Db). x.files) (decremented id db d c)

add_usage-Gone :
    (id user_id : ℕ) (n : Delta)
    → Keeps (λ d. any_row (FileRepo.by_id id) d.files ≡ false) (QuotaRepo.add_usage user_id n)
unfolding QuotaRepo.add_usage QuotaRepo.after_charge QuotaRepo.get charge_row release_row
add_usage-Gone id user_id (charge n) =
    Keeps-bind _ _ _ (Keeps-statement _ _ λ w d d' a e g. ground arith) λ taken.
      Keeps-if _ taken _ _ (Keeps-pure _ _)
        (Keeps-bind _ _ _ (Keeps-query _ _) λ _. Keeps-fail _ _ _)
add_usage-Gone id user_id (release n) = Keeps-statement _ _ λ w d d' a e g. ground arith

-- A file that is gone is not purged.
gone-Ends :
    (f : File) (w : World)
    → any_row (FileRepo.by_id f.id) w.db.files ≡ false
    → Ends
        ((VersionRepo.total_bytes f.id >>= λ total.
            BlobRepo.decrement_refs_for_file f.id
            >> (QuotaRepo.add_usage f.owner_id (negated total) >> FileRepo.purge f.id))
          w)
        (λ _ x. Ledger x.db)
unfolding VersionRepo.total_bytes BlobRepo.decrement_refs_for_file QuotaRepo.add_usage
gone-Ends f w gone =
    let Gone = λ (d : Db). any_row (FileRepo.by_id f.id) d.files ≡ false in
    Ends-bind _ _ _ _ (
      Ends-query _ _ _ λ v total same _. Ends-bind _ _ _ _ (
        Ends-statement _ _ _ λ v2 _ d c.
          let kept = decremented-files f.id v.db d c in
          Ends-bind _ _ _ _ (
            Ends-weaken _ _ _
              (λ _ x still. purge-Ends f.id x _ λ y there. absurd (true≢false (sym there ∙ still)))
              (Keeps-Ends Gone _ (record v2 { db = d })
                (add_usage-Gone f.id f.owner_id (negated total)) (rw (kept, same) gone)))))

-- A file that is there is purged with what is its own.
own-Ends :
    (f : File) (w : World)
    → Ledger w.db
    → ((u : ℕ) → owned u f.id w.db.files ≡ (f.owner_id == u))
    → Ends
        ((VersionRepo.total_bytes f.id >>= λ total.
            BlobRepo.decrement_refs_for_file f.id
            >> (QuotaRepo.add_usage f.owner_id (negated total) >> FileRepo.purge f.id))
          w)
        (λ _ x. Ledger x.db)
unfolding VersionRepo.total_bytes BlobRepo.decrement_refs_for_file BlobRepo.decrement_rows_for_file
    Settles Settled left_versions left_files left_blobs lessened FileRepo.purge_rows
own-Ends f w l own = Ends-bind _ _ _ _ (
    Ends-query _ _ _ λ v total same e. Ends-bind _ _ _ _ (
      Ends-statement _ _ _ λ v2 _ d c.
        let dec = decremented f.id v.db d c in
        Ends-bind _ _ _ _ (
          Ends-weaken _ _ _
            (λ _ x k. purge-Ends f.id x _ λ y there.
              rw (k.1, dec, same)
                (Ledger-same _ _ refl refl refl refl (
                  left-Ledger w.db f.id f.owner_id FileRepo.unlinked (λ _. refl) (λ _. refl) own k.0
                    k.2.0 k.2.1 l)))
            (add_usage-Settles w.db f.id f.owner_id FileRepo.unlinked (λ _. refl) (λ _. refl) own
              total (record v2 { db = d }) (sym (ok-injective e))
              (ap (λ (x : Db). x.quotas) dec ∙ ap (λ (x : Db). x.quotas) same) l))))

-- The transaction of `sweepTrash` for a file, at any world and with any faults: where the counters
-- are right, and the file, if it is still there, is owned by the owner that was listed, the counters
-- are right afterwards.
pub purge_file-Ledger :
    (f : File) (w : World) → Ledger w.db → Known f w.db → Ledger (purge_file f w).1.db
unfolding purge_file
purge_file-Ledger f w l known = elim (Bool-cases (any_row (FileRepo.by_id f.id) w.db.files)) [
  | inl there ↦
      within_tx-leads Ledger _ w l λ v same. own-Ends f v (rw same l) (rw same (known there))
  | inr gone ↦ within_tx-leads Ledger _ w l λ v same. gone-Ends f v (rw same gone)
]
