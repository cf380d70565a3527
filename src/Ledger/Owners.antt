-- ===== src/Ledger/Owners.antt =====
-- What the purges of the trash sweep (`sweepTrash` of internal/service/gc.go) leave known of the
-- files still to purge.
use mathlib.Core.Bool.{true≢false}
use strato.Prelude.{
  ℕ, ◌≤◌, ◌≡◌, refl, sym, ◌∙◌, false, List, [], ◌∷◌, arith, inl, inr, Bool-cases, ==_iff, ◌==◌,
  any_row, update_rows, delete_rows, count_rows, All, All-map, All-both,
}
use strato.Entity.Storage.{File}
use strato.Domain.World.{Db}
use strato.Domain.Ends.{Ends-bind, Ends-statement, Ends-query, Ends-weaken}
use strato.Domain.Keeps.{
  Keeps, Keeps-Ends, Keeps-bind, Keeps-statement, Keeps-if, Keeps-query, Keeps-pure, Keeps-fail,
  Keeps-within_tx,
}
use strato.Postgres.QuotaRepo
use strato.Postgres.QuotaRepo.{Delta, charge, release, negated, charge_row, release_row}
use strato.Postgres.VersionRepo
use strato.Postgres.FileRepo
use strato.Postgres.BlobRepo
use strato.Service.Gc.{purge_file}
use strato.Ledger.Balance.{owned, owned-update_rows, any_row-update_rows, count_rows-none}
use strato.Ledger.Deletion.{owned-delete_rows, any_row-delete_rows}
use strato.Ledger.Trash.{Known, purge-Ends, decremented-files}

-- Each row of a table with one file for each id is what its id finds.
pub rows-owned :
    (fs : List File)
    → ((id : ℕ) → count_rows (FileRepo.by_id id) fs ≤ 1)
    → All (λ f. (u : ℕ) → owned u f.id fs ≡ (f.owner_id == u)) fs
rows-owned [] one = tt
rows-owned (x ∷ fs) one =
    let rest = rows-owned fs (λ id. let fewer = one id in ground arith) in
    let alone = let most = one x.id in count_rows-none (FileRepo.by_id x.id) fs (ground arith) in
    (
      λ u. ground arith,
      All-map _ _ fs (λ f k u. let here = k.0 u in let other = k.1 in ground arith)
          (All-both _ _ fs rest alone),
    )

any_row-gone :
    (id : ℕ) (fs : List File)
    → any_row (FileRepo.by_id id) (delete_rows (FileRepo.by_id id) fs) ≡ false
any_row-gone id [] = refl
any_row-gone id (x ∷ fs) = ground (arith, any_row-gone id fs)

-- The removal of a file leaves what is known of the files.
Known-delete_rows :
    (g : File) (id : ℕ) (db : Db)
    → Known g db
    → Known g (
        FileRepo.purge_rows id
          (record db { files = update_rows (FileRepo.by_id id) FileRepo.unlinked db.files }))
unfolding FileRepo.purge_rows
Known-delete_rows g id db k there u = elim (Bool-cases (g.id == id)) [
  | inl e ↦
      let same : g.id ≡ id = (==_iff g.id id).0 e in
      absurd (true≢false (sym (rw same at there) ∙ any_row-gone id _))
  | inr e ↦
      let found =
        sym (
          any_row-delete_rows g.id id _ e
          ∙ any_row-update_rows (FileRepo.by_id g.id) (FileRepo.by_id id) FileRepo.unlinked db.files
              (λ _. refl))
        ∙ there in
      owned-delete_rows u g.id id _ e
      ∙ owned-update_rows u g.id (FileRepo.by_id id) FileRepo.unlinked db.files (λ _. refl)
          (λ _. refl)
      ∙ k found u
]

Known-same : (g : File) (db d : Db) → d.files ≡ db.files → Known g db → Known g d
Known-same g db d e k = rw e k

add_usage-Known :
    (g : File) (user_id : ℕ) (n : Delta) → Keeps (Known g) (QuotaRepo.add_usage user_id n)
unfolding QuotaRepo.add_usage QuotaRepo.after_charge QuotaRepo.get charge_row release_row
add_usage-Known g user_id (charge n) =
    Keeps-bind _ _ _ (Keeps-statement _ _ λ w d d' a e k. Known-same g d d' (ground arith) k)
      λ taken.
        Keeps-if _ taken _ _ (Keeps-pure _ _)
          (Keeps-bind _ _ _ (Keeps-query _ _) λ _. Keeps-fail _ _ _)
add_usage-Known g user_id (release n) =
    Keeps-statement _ _ λ w d d' a e k. Known-same g d d' (ground arith) k

pub purge_file-Known : (g f : File) → Keeps (Known g) (purge_file f)
unfolding purge_file VersionRepo.total_bytes BlobRepo.decrement_refs_for_file
    BlobRepo.decrement_rows_for_file
purge_file-Known g f = Keeps-within_tx _ _ λ w k. Ends-bind _ _ _ _ (
    Ends-query _ _ _ λ v total same _. Ends-bind _ _ _ _ (
      Ends-statement _ _ _ λ v2 _ d c. Ends-bind _ _ _ _ (
        Ends-weaken _ _ _
          (λ _ x here. purge-Ends f.id x _ λ y _. Known-delete_rows g f.id x.db here)
          (Keeps-Ends (Known g) _ (record v2 { db = d })
            (add_usage-Known g f.owner_id (negated total))
            (Known-same g v.db d (decremented-files f.id v.db d c) (rw same k))))))
