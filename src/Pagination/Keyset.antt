-- ===== src/Pagination/Keyset.antt =====
-- That the pages of a listing are the listing, cut (pkg/pagination/pagination.go with the queries).
pub mod Walk
use strato.Prelude.{
  ℕ, zero, suc, ◌+◌, ◌≤◌, ◌<◌, ◌≡◌, refl, sym, ap, ◌∙◌, Bool, true, false, not, ◌&&◌, ◌||◌, List,
  [], ◌∷◌, ◌++◌, Option, none, some, ltb, ◌==◌, ==_iff, if◌then◌else◌, take, length, select_rows,
  length, ◌==◌, Option, none, some, All-take, All, All-map, arith, Bool-cases, inl, inr,
  All-select_rows,
}
use strato.Pagination.{
  Cursor, zero_cursor, is_zero, less, after, insert, ordered, page, last_key, next_cursor,
}

after_trans :
    (d : Bool) (a b c : Cursor) → after d a b ≡ true → after d b c ≡ true → after d a c ≡ true
unfolding after
after_trans false a b c h g = ground arith
after_trans true a b c h g = ground arith

after_irrefl : (d : Bool) (a : Cursor) → after d a a ≡ false
unfolding after
after_irrefl false a = ground arith
after_irrefl true a = ground arith

after_asym : (d : Bool) (a b : Cursor) → after d a b ≡ true → after d b a ≡ false
unfolding after
after_asym false a b h = ground arith
after_asym true a b h = ground arith

after_total :
    (d : Bool) (a b : Cursor) → ((a.id == b.id) ≡ false) → after d a b ≡ false → after d b a ≡ true
unfolding after
after_total false a b h g = ground arith
after_total true a b h g = ground arith

pub All-middle {ℓ κ} :
    {A : Type ℓ} (P : A → Type κ) (pre : List A) (x : A) (post : List A)
    → All P (pre ++ x ∷ post)
    → P x
All-middle P [] x post h = h.0
All-middle P (y ∷ pre) x post h = All-middle P pre x post h.1

module _ {ℓ} {A : Type ℓ} (key : A → Cursor) (d : Bool) where
  -- Each row comes before all that follow it.
  abbrev pub Ordered : List A → Type ℓ
  Ordered [] = Unit
  Ordered (x ∷ xs) = All (λ y. after d (key x) (key y) ≡ true) xs × Ordered xs

  -- Rows with ids of their own.
  abbrev pub Distinct : List A → Type ℓ
  Distinct [] = Unit
  Distinct (x ∷ xs) = All (λ y. ((key x).id == (key y).id) ≡ false) xs × Distinct xs

  All-insert : (P : A → Type 0) (r : A) (xs : List A) → P r → All P xs → All P (insert key d r xs)
  unfolding insert
  All-insert P r [] h k = (h, tt)
  All-insert P r (x ∷ xs) h k =
      let rest = All-insert P r xs h k.1 in
      elim (Bool-cases (after d (key r) (key x))) [ inl e ↦ rw e (h, k) | inr e ↦ rw e (k.0, rest) ]

  pub All-ordered : (P : A → Type 0) (xs : List A) → All P xs → All P (ordered key d xs)
  unfolding ordered
  All-ordered P [] h = tt
  All-ordered P (x ∷ xs) h = All-insert P x (ordered key d xs) h.0 (All-ordered P xs h.1)

  All-page :
      (P : A → Type 0) (cur : Cursor) (limit : ℕ) (rows : List A)
      → All P rows
      → All P (page key d cur limit rows)
  unfolding page
  All-page P cur limit rows h = elim (Bool-cases (is_zero cur)) [
    | inl e ↦ rw e (All-take _ limit _ (All-ordered P rows h))
    | inr e ↦ rw e (All-take _ limit _ (All-ordered P _ (All-select_rows _ _ rows h)))
  ]

  -- `P` holds of the cursor, if there is one.
  abbrev pub Holds : (Cursor → Type 0) → Option Cursor → Type 0
  Holds P none = Unit {0}
  Holds P (some c) = P c

  last_key-Holds :
      (P : Cursor → Type 0) (xs : List A) → All (λ r. P (key r)) xs → Holds P (last_key key d xs)
  last_key-Holds P [] h = tt
  last_key-Holds P (x ∷ []) h = h.0
  last_key-Holds P (x ∷ y ∷ xs) h = last_key-Holds P (y ∷ xs) h.1

  -- What holds of the keys of all rows holds of the cursor that a page of them tells.
  pub next_cursor-Holds :
      (P : Cursor → Type 0) (cur : Cursor) (limit : ℕ) (rows : List A)
      → All (λ r. P (key r)) rows
      → Holds P (next_cursor key d limit (page key d cur limit rows))
  unfolding next_cursor
  next_cursor-Holds P cur limit rows h =
      elim (Bool-cases (length (page key d cur limit rows) == limit)) [
        | inl e ↦ rw e (last_key-Holds P _ (All-page _ cur limit rows h))
        | inr e ↦ rw e tt
      ]

  weaken-after :
      (r x : A) (xs : List A)
      → after d (key r) (key x) ≡ true
      → All (λ y. after d (key x) (key y) ≡ true) xs
      → All (λ y. after d (key r) (key y) ≡ true) xs
  weaken-after r x xs h k = All-map _ _ xs (λ y g. after_trans d (key r) (key x) (key y) h g) k

  insert-Ordered :
      (r : A) (xs : List A)
      → All (λ y. ((key r).id == (key y).id) ≡ false) xs
      → Ordered xs
      → Ordered (insert key d r xs)
  unfolding insert
  insert-Ordered r [] h k = (tt, tt)
  insert-Ordered r (x ∷ xs) h k = elim (Bool-cases (after d (key r) (key x))) [
    | inl e ↦ rw e ((e, weaken-after r x xs e k.0), k)
    | inr e ↦
        let back : after d (key x) (key r) ≡ true = after_total d (key r) (key x) h.0 e in
        rw e (All-insert _ r xs back k.0, insert-Ordered r xs h.1 k.1)
  ]

  pub ordered-Ordered : (xs : List A) → Distinct xs → Ordered (ordered key d xs)
  unfolding ordered
  ordered-Ordered [] h = tt
  ordered-Ordered (x ∷ xs) h =
      insert-Ordered x (ordered key d xs) (All-ordered _ xs h.0) (ordered-Ordered xs h.1)

  insert-first :
      (r : A) (xs : List A)
      → All (λ y. after d (key r) (key y) ≡ true) xs
      → insert key d r xs ≡ r ∷ xs
  unfolding insert
  insert-first r [] h = refl
  insert-first r (x ∷ xs) h = rw (h.0) refl

  select-insert :
      (p : A → Bool) (r : A) (xs : List A)
      → Ordered xs
      → select_rows p (insert key d r xs)
        ≡ (if p r then insert key d r (select_rows p xs) else select_rows p xs)
  unfolding insert
  select-insert p r [] h = refl
  select-insert p r (x ∷ xs) h =
      let rest = select-insert p r xs h.1 in
      elim (Bool-cases (after d (key r) (key x))) [
        | inl e ↦
            let later : All (λ y. after d (key r) (key y) ≡ true) (x ∷ xs) =
              (e, weaken-after r x xs e h.0) in
            let first =
              insert-first r (select_rows p (x ∷ xs)) (All-select_rows _ p (x ∷ xs) later) in
            rw (e, first) refl
        | inr e ↦ elim (Bool-cases (p r)) [
          | inl t ↦ elim (Bool-cases (p x)) [
            | inl u ↦ rw (e, t, u, e, rw t at rest) refl
            | inr u ↦ rw (e, t, u, rw t at rest) refl
          ]
          | inr t ↦ rw (e, t, rw t at rest) refl
        ]
      ]

  pub select-ordered :
      (p : A → Bool) (xs : List A)
      → Distinct xs
      → select_rows p (ordered key d xs) ≡ ordered key d (select_rows p xs)
  unfolding ordered
  select-ordered p [] h = refl
  select-ordered p (x ∷ xs) h =
      let rest = select-ordered p xs h.1 in
      let step = select-insert p x (ordered key d xs) (ordered-Ordered xs h.1) in
      elim (Bool-cases (p x)) [
        | inl e ↦ (rw e at step) ∙ ap (insert key d x) rest ∙ (rw e refl)
        | inr e ↦ (rw e at step) ∙ rest ∙ (rw e refl)
      ]

  select-none :
      (cur : Cursor) (xs : List A)
      → All (λ y. after d cur (key y) ≡ false) xs
      → select_rows (λ r. after d cur (key r)) xs ≡ []
  select-none cur [] h = refl
  select-none cur (x ∷ xs) h = rw h.0 (select-none cur xs h.1)

  select-all :
      (cur : Cursor) (xs : List A)
      → All (λ y. after d cur (key y) ≡ true) xs
      → select_rows (λ r. after d cur (key r)) xs ≡ xs
  select-all cur [] h = refl
  select-all cur (x ∷ xs) h = rw (h.0, select-all cur xs h.1) refl

  -- What comes after the cursor of a row of a listing.
  pub select-after :
      (pre : List A) (x : A) (post : List A)
      → Ordered (pre ++ x ∷ post)
      → select_rows (λ r. after d (key x) (key r)) (pre ++ x ∷ post) ≡ post
  select-after [] x post h = rw (after_irrefl d (key x)) (select-all (key x) post h.0)
  select-after (y ∷ pre) x post h =
      rw (after_asym d (key y) (key x) (All-middle _ pre x post h.0)) (select-after pre x post h.1)
