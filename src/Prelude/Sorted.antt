-- ===== src/Prelude/Sorted.antt =====
-- What holds of all rows of a table holds of all rows of a query on it.
use Prim.Native.Nat.{ℕ, zero, suc}
use mathlib.Core.Bool.{Bool}
use mathlib.Core.Logic.{inl, inr}
use mathlib.Core.List.{List, [], ◌∷◌, map}
use strato.Prelude.Tests.{ltb, Bool-cases}
use strato.Prelude.Lists.{take, insert_by, sort_onto, order_by}
use strato.Prelude.Rows.{All, select_rows}

module _ {ℓ κ} {A : Type ℓ} (P : A → Type κ) where
  pub All-take : (n : ℕ) (xs : List A) → All P xs → All P (take n xs)
  All-take zero xs h = tt
  All-take (suc n) [] h = tt
  All-take (suc n) (x ∷ xs) h = (h.0, All-take n xs h.1)

  pub All-select_rows : (p : A → Bool) (xs : List A) → All P xs → All P (select_rows p xs)
  All-select_rows p [] h = tt
  All-select_rows p (x ∷ xs) h =
      let rest = All-select_rows p xs h.1 in
      elim (Bool-cases (p x)) [ inl e ↦ rw e (h.0, rest) | inr e ↦ rw e rest ]

  All-insert_by : (key : A → ℕ) (r : A) (xs : List A) → P r → All P xs → All P (insert_by key r xs)
  All-insert_by key r [] e h = (e, tt)
  All-insert_by key r (x ∷ xs) e h =
      let rest = All-insert_by key r xs e h.1 in
      elim (Bool-cases (ltb (key r) (key x))) [ inl t ↦ rw t (e, h) | inr t ↦ rw t (h.0, rest) ]

  All-sort_onto :
      (key : A → ℕ) (sorted xs : List A) → All P sorted → All P xs → All P (sort_onto key sorted xs)
  All-sort_onto key sorted [] s h = s
  All-sort_onto key sorted (x ∷ xs) s h =
      All-sort_onto key (insert_by key x sorted) xs (All-insert_by key x sorted h.0 s) h.1

  pub All-order_by : (key : A → ℕ) (xs : List A) → All P xs → All P (order_by key xs)
  All-order_by key xs h = All-sort_onto key [] xs tt h

pub All-mapped {ℓ κ μ} :
    {A : Type ℓ} {B : Type μ} (P : B → Type κ) (g : A → B) (xs : List A)
    → All (λ x. P (g x)) xs
    → All P (map g xs)
All-mapped P g [] h = tt
All-mapped P g (x ∷ xs) h = (h.0, All-mapped P g xs h.1)
