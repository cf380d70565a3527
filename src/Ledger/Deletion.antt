-- ===== src/Ledger/Deletion.antt =====
-- What a DELETE takes from the counts and sums of a table.
use strato.Prelude.{
  ℕ, ◌+◌, ◌≤◌, ◌≡◌, refl, sym, subst, Bool, false, ◌&&◌, List, [], ◌∷◌, arith, inl, inr, Bool-cases,
  ==_iff, ◌==◌, if◌then◌else◌, any_row, delete_rows, count_rows, sum_rows, All,
}
use strato.Entity.Storage.{File, Version}
use strato.Postgres.VersionRepo.{of_file}
use strato.Postgres.FileRepo
use strato.Ledger.Balance.{owned}

module _ {ℓ} {A : Type ℓ} where
  -- The rows that fit are those that stay and those that go.
  pub count_rows-delete_rows :
      (p q : A → Bool) (xs : List A)
      → count_rows p xs ≡ count_rows p (delete_rows q xs) + count_rows (λ x. q x && p x) xs
  count_rows-delete_rows p q [] = refl
  count_rows-delete_rows p q (x ∷ xs) = ground (arith, count_rows-delete_rows p q xs)

  pub sum_rows-delete_rows :
      (p q : A → Bool) (f : A → ℕ) (xs : List A)
      → sum_rows p f xs ≡ sum_rows p f (delete_rows q xs) + sum_rows (λ x. q x && p x) f xs
  sum_rows-delete_rows p q f [] = refl
  sum_rows-delete_rows p q f (x ∷ xs) = ground (arith, sum_rows-delete_rows p q f xs)

  pub count_rows-fewer :
      (p q : A → Bool) (xs : List A) → count_rows p (delete_rows q xs) ≤ count_rows p xs
  count_rows-fewer p q xs = grind (arith, count_rows-delete_rows p q xs)

  pub delete_rows-rest : (q : A → Bool) (xs : List A) → All (λ x. q x ≡ false) (delete_rows q xs)
  delete_rows-rest q [] = tt
  delete_rows-rest q (x ∷ xs) = ground (arith, delete_rows-rest q xs)

-- Another id's file is not touched by the removal of one.
pub owned-delete_rows :
    (u j id : ℕ) (fs : List File)
    → (j == id) ≡ false
    → owned u j (delete_rows (FileRepo.by_id id) fs) ≡ owned u j fs
owned-delete_rows u j id [] h = refl
owned-delete_rows u j id (x ∷ fs) h = ground (arith, owned-delete_rows u j id fs h)

pub any_row-delete_rows :
    (j id : ℕ) (fs : List File)
    → (j == id) ≡ false
    → any_row (FileRepo.by_id j) (delete_rows (FileRepo.by_id id) fs)
      ≡ any_row (FileRepo.by_id j) fs
any_row-delete_rows j id [] h = refl
any_row-delete_rows j id (x ∷ fs) h = ground (arith, any_row-delete_rows j id fs h)

module _ (id owner_id : ℕ) (files : List File)
    (own : (u : ℕ) → owned u id files ≡ (owner_id == u)) where
  -- The usage that goes with a file is its owner's.
  pub usage-gone :
      (u : ℕ) (vs : List Version)
      → sum_rows (λ v. of_file id v && owned u v.file_id files) (λ v. v.size_bytes) vs
        ≡ (if owner_id == u then sum_rows (of_file id) (λ v. v.size_bytes) vs else 0)
  usage-gone u [] = ground arith
  usage-gone u (v ∷ vs) =
      let rest = usage-gone u vs in
      let whose = own u in
      elim (Bool-cases (v.file_id == id)) [
        | inl e ↦
            let same : owned u v.file_id files ≡ (owner_id == u) =
              subst (λ (n : ℕ). owned u n files ≡ (owner_id == u)) (sym ((==_iff v.file_id id).0 e))
                whose in
            ground arith
        | inr e ↦ ground arith
      ]
