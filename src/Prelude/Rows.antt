-- ===== src/Prelude/Rows.antt =====
-- Tables as lists of rows, and the statements that a query makes on them: the first row that
-- fits, an update or a deletion where a test holds, a count and a sum.
use Prim.Native.Nat.{ℕ, suc, ◌+◌}
use mathlib.Core.Path.{◌≡◌, refl}
use mathlib.Core.Logic.{inl, inr}
use mathlib.Core.Bool.{Bool, true, false, ◌||◌}
use mathlib.Core.Option.{Option, none, some}
use mathlib.Core.List.{List, [], ◌∷◌, ◌++◌}
use native.Mathlib.Omega.{arith}
use strato.Prelude.Tests.{if◌then◌else◌, Bool-cases}

module _ {ℓ} {A : Type ℓ} where
  abbrev pub find_row : (A → Bool) → List A → Option A
  find_row p [] = none
  find_row p (r ∷ rs) = if p r then some r else find_row p rs

  abbrev pub any_row : (A → Bool) → List A → Bool
  any_row p [] = false
  any_row p (r ∷ rs) = p r || any_row p rs

  abbrev pub update_rows : (A → Bool) → (A → A) → List A → List A
  update_rows p f [] = []
  update_rows p f (r ∷ rs) = (if p r then f r else r) ∷ update_rows p f rs

  abbrev pub select_rows : (A → Bool) → List A → List A
  select_rows p [] = []
  select_rows p (r ∷ rs) = let rest = select_rows p rs in if p r then r ∷ rest else rest

  abbrev pub delete_rows : (A → Bool) → List A → List A
  delete_rows p [] = []
  delete_rows p (r ∷ rs) = let rest = delete_rows p rs in if p r then rest else r ∷ rest

  abbrev pub count_rows : (A → Bool) → List A → ℕ
  count_rows p [] = 0
  count_rows p (r ∷ rs) = let rest = count_rows p rs in if p r then suc rest else rest

  -- The sum of `f` over the rows that fit.
  abbrev pub sum_rows : (A → Bool) → (A → ℕ) → List A → ℕ
  sum_rows p f [] = 0
  sum_rows p f (r ∷ rs) = let rest = sum_rows p f rs in if p r then f r + rest else rest

  abbrev pub All {κ} : (A → Type κ) → List A → Type κ
  All P [] = Unit {κ}
  All P (r ∷ rs) = P r × All P rs

module _ {ℓ} {A : Type ℓ} where
  pub count_rows-append :
      (p : A → Bool) (xs : List A) (y : A)
      → count_rows p (xs ++ y ∷ []) ≡ count_rows p xs + (if p y then 1 else 0)
  count_rows-append p [] y = ground arith
  count_rows-append p (x ∷ xs) y = ground (arith, count_rows-append p xs y)

  pub sum_rows-append :
      (p : A → Bool) (f : A → ℕ) (xs : List A) (y : A)
      → sum_rows p f (xs ++ y ∷ []) ≡ sum_rows p f xs + (if p y then f y else 0)
  sum_rows-append p f [] y = ground arith
  sum_rows-append p f (x ∷ xs) y = ground (arith, sum_rows-append p f xs y)

  pub any_row-append :
      (p : A → Bool) (xs : List A) (y : A) → any_row p (xs ++ y ∷ []) ≡ (any_row p xs || p y)
  any_row-append p [] y = ground arith
  any_row-append p (x ∷ xs) y = ground (arith, any_row-append p xs y)

  pub find_row-append :
      (p : A → Bool) (xs : List A) (y : A)
      → find_row p (xs ++ y ∷ [])
        ≡ (if any_row p xs then find_row p xs else if p y then some y else none)
  find_row-append p [] y = refl
  find_row-append p (x ∷ xs) y = ground (arith, find_row-append p xs y)

  -- A row that is found fits, and is found again by any weaker look.
  pub find_row-fits : (p : A → Bool) (xs : List A) (r : A) → find_row p xs ≡ some r → p r ≡ true
  find_row-fits p [] r e = cc
  find_row-fits p (x ∷ xs) r e = ground (arith, find_row-fits p xs r)

  pub find_row-update_rows :
      (p q : A → Bool) (f : A → A) (xs : List A) (r : A)
      → ((x : A) → p (f x) ≡ p x)
      → find_row p xs ≡ some r
      → find_row p (update_rows q f xs) ≡ some (if q r then f r else r)
  find_row-update_rows p q f [] r h e = cc
  find_row-update_rows p q f (x ∷ xs) r h e = elim (Bool-cases (p x)) [
    | inl hit ↦ let same = h x in ground arith
    | inr miss ↦
        let rest = find_row-update_rows p q f xs r h (ground arith) in
        let same = h x in ground arith
  ]

  pub any_row-find_row :
      (p : A → Bool) (xs : List A) (r : A) → find_row p xs ≡ some r → any_row p xs ≡ true
  any_row-find_row p [] r e = cc
  any_row-find_row p (x ∷ xs) r e = ground (arith, any_row-find_row p xs r)

module _ {ℓ κ} {A : Type ℓ} (P : A → Type κ) where
  pub All-append : (xs : List A) (y : A) → All P xs → P y → All P (xs ++ y ∷ [])
  All-append [] y h e = (e, tt)
  All-append (x ∷ xs) y h e = (h.0, All-append xs y h.1 e)

  pub All-find_row : (p : A → Bool) (xs : List A) (r : A) → All P xs → find_row p xs ≡ some r → P r
  All-find_row p [] r h e = cc
  All-find_row p (x ∷ xs) r h e = elim (Bool-cases (p x)) [
    | inl hit ↦ ground arith
    | inr miss ↦ All-find_row p xs r h.1 (ground arith)
  ]

  pub All-delete_rows : (p : A → Bool) (xs : List A) → All P xs → All P (delete_rows p xs)
  All-delete_rows p [] h = tt
  All-delete_rows p (x ∷ xs) h = ground (arith, All-delete_rows p xs h.1)

module _ {ℓ κ μ} {A : Type ℓ} (P : A → Type κ) (Q : A → Type μ) where
  pub All-map : (xs : List A) → ((x : A) → P x → Q x) → All P xs → All Q xs
  All-map [] k h = tt
  All-map (x ∷ xs) k h = (k x h.0, All-map xs k h.1)

  -- Rows that fit are updated, the others stay.
  pub All-update_rows :
      (p : A → Bool) (f : A → A) (xs : List A)
      → ((x : A) → P x → p x ≡ true → Q (f x))
      → ((x : A) → P x → p x ≡ false → Q x)
      → All P xs
      → All Q (update_rows p f xs)
  All-update_rows p f [] hit miss h = tt
  All-update_rows p f (x ∷ xs) hit miss h =
      let rest = All-update_rows p f xs hit miss h.1 in
      elim (Bool-cases (p x)) [
        | inl e ↦ rw e (hit x h.0 e, rest)
        | inr e ↦ rw e (miss x h.0 e, rest)
      ]

module _ {ℓ κ μ} {A : Type ℓ} (P : A → Type κ) (Q : A → Type μ) where
  pub All-both : (xs : List A) → All P xs → All Q xs → All (λ x. P x × Q x) xs
  All-both [] h k = tt
  All-both (x ∷ xs) h k = ((h.0, k.0), All-both xs h.1 k.1)

pub All-every {ℓ κ} : {A : Type ℓ} (P : A → Type κ) (xs : List A) → ((x : A) → P x) → All P xs
All-every P [] h = tt
All-every P (x ∷ xs) h = (h x, All-every P xs h)
