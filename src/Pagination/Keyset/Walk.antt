-- ===== src/Pagination/Keyset/Walk.antt =====
-- What a client meets that follows the page tokens of a listing to its end.
use strato.Prelude.{
  subst, ℕ, zero, suc, ◌≤◌, ◌<◌, ◌≡◌, refl, sym, ap, ◌∙◌, Bool, true, false, List, [], ◌∷◌, ◌++◌,
  Option, none, some, ltb, ◌==◌, ==_iff, take, length, count_rows, All, arith, Bool-cases, inl, inr,
  append-nil, append_assoc, ◌⊎◌,
}
use strato.Pagination.{
  Cursor, zero_cursor, is_zero, after, insert, ordered, page, last_key, next_cursor,
}
use strato.Pagination.Keyset.{
  Ordered, Distinct, ordered-Ordered, select-ordered, select-after, All-ordered, All-middle,
}

lt-cases : (a b : ℕ) → (a < b) ⊎ (b ≤ a)
lt-cases a b = elim (Bool-cases (ltb a b)) [
  | inl e ↦ inl (ground arith)
  | inr e ↦ inr (ground arith)
]

module _ {ℓ} {A : Type ℓ} (key : A → Cursor) (d : Bool) where
  -- The pages that `fetch` gives, each from the cursor that the one before it tells.
  abbrev pub follow : (Cursor → List A) → Option Cursor → List A
  follow k none = []
  follow k (some cur) = k cur

  unfoldable pub walk : ℕ → ℕ → (Cursor → List A) → Cursor → List A
  walk zero limit fetch cur = []
  walk (suc n) limit fetch cur =
      fetch cur ++ follow (walk n limit fetch) (next_cursor key d limit (fetch cur))

  count-insert :
      (p : A → Bool) (r : A) (xs : List A)
      → count_rows p (insert key d r xs) ≡ count_rows p (r ∷ xs)
  unfolding insert
  count-insert p r [] = refl
  count-insert p r (x ∷ xs) =
      let rest = count-insert p r xs in
      elim (Bool-cases (after d (key r) (key x))) [
        | inl e ↦ rw e refl
        | inr e ↦ rw (e, rest) (ground arith)
      ]

  count-ordered : (p : A → Bool) (xs : List A) → count_rows p (ordered key d xs) ≡ count_rows p xs
  unfolding ordered
  count-ordered p [] = refl
  count-ordered p (x ∷ xs) = count-insert p x (ordered key d xs) ∙ (rw (count-ordered p xs) refl)

  length-insert : (r : A) (xs : List A) → length (insert key d r xs) ≡ suc (length xs)
  unfolding insert
  length-insert r [] = refl
  length-insert r (x ∷ xs) = elim (Bool-cases (after d (key r) (key x))) [
    | inl e ↦ rw e refl
    | inr e ↦ rw (e, length-insert r xs) refl
  ]

  length-ordered : (xs : List A) → length (ordered key d xs) ≡ length xs
  unfolding ordered
  length-ordered [] = refl
  length-ordered (x ∷ xs) = length-insert x (ordered key d xs) ∙ ap suc (length-ordered xs)

  -- The rows from `x` on, of a list that is as long.
  record Cut (n : ℕ) (xs : List A) : Type ℓ where
    pub pre : List A
    pub last : A
    pub post : List A
    pub whole : xs ≡ pre ++ last ∷ post
    pub taken : take (suc n) xs ≡ pre ++ last ∷ []
    pub long : length pre ≡ n
    pub less_left : length post < length xs

  cut : (n : ℕ) (xs : List A) → n < length xs → Cut n xs
  cut n [] h = absurd (omega arith)
  cut zero (x ∷ xs) h = record {
    pre = [];
    last = x;
    post = xs;
    whole = refl;
    taken = refl;
    long = refl;
    less_left = omega arith;
  }
  cut (suc n) (x ∷ xs) h =
      let c = cut n xs (omega arith) in
      record {
        pre = x ∷ c.pre;
        last = c.last;
        post = c.post;
        whole = ap (λ ys. x ∷ ys) c.whole;
        taken = ap (λ ys. x ∷ ys) c.taken;
        long = rw c.long refl;
        less_left = let left = c.less_left in omega arith;
      }

  last_key-append : (pre : List A) (x : A) → last_key key d (pre ++ x ∷ []) ≡ some (key x)
  last_key-append [] x = refl
  last_key-append (y ∷ []) x = refl
  last_key-append (y ∷ z ∷ pre) x = last_key-append (z ∷ pre) x

  length-last : (pre : List A) (x : A) → length (pre ++ x ∷ []) ≡ suc (length pre)
  length-last [] x = refl
  length-last (y ∷ pre) x = ap suc (length-last pre x)

  next-full :
      (n : ℕ) (pre : List A) (x : A)
      → length pre ≡ n
      → next_cursor key d (suc n) (pre ++ x ∷ []) ≡ some (key x)
  unfolding next_cursor
  next-full n pre x h =
      let same : (suc (length pre) == suc n) ≡ true = (==_iff _ _).1 (ap suc h) in
      rw (length-last pre x, same) (last_key-append pre x)

  next-short : (n : ℕ) (xs : List A) → length xs ≤ n → next_cursor key d (suc n) xs ≡ none
  unfolding next_cursor
  next-short n xs h = let other : (length xs == suc n) ≡ false = ground arith in rw other refl

  take-short : (n : ℕ) (xs : List A) → length xs ≤ n → take n xs ≡ xs
  take-short zero [] h = refl
  take-short zero (x ∷ xs) h = absurd (omega arith)
  take-short (suc n) [] h = refl
  take-short (suc n) (x ∷ xs) h = ap (λ ys. x ∷ ys) (take-short n xs (omega arith))

  -- The page behind a row of the listing.
  page-after :
      (limit : ℕ) (rows pre : List A) (x : A) (post : List A)
      → Distinct key d rows
      → is_zero (key x) ≡ false
      → ordered key d rows ≡ pre ++ x ∷ post
      → page key d (key x) limit rows ≡ take limit post
  unfolding page
  page-after limit rows pre x post distinct nonzero whole =
      let sorted : Ordered key d (pre ++ x ∷ post) =
        subst (Ordered key d) whole (ordered-Ordered key d rows distinct) in
      rw
        (
          nonzero,
          sym (select-ordered key d (λ r. after d (key x) (key r)) rows distinct),
          whole,
          select-after key d pre x post sorted,
        )
        refl

  module _ (l : ℕ) (rows : List A) (distinct : Distinct key d rows)
      (nonzero : All (λ r. is_zero (key r) ≡ false) rows) where
    step :
        (n : ℕ) (cur : Cursor) (p next : List A)
        → page key d cur (suc l) rows ≡ p
        → follow (walk n (suc l) (λ c. page key d c (suc l) rows)) (next_cursor key d (suc l) p)
          ≡ next
        → walk (suc n) (suc l) (λ c. page key d c (suc l) rows) cur ≡ p ++ next
    unfolding walk
    step n cur p next e f = rw (e, f) refl

    -- From a cursor whose pages begin where `rest` does, the walk gives `rest`.
    walk-rest :
        (n : ℕ) (cur : Cursor) (done rest : List A)
        → ordered key d rows ≡ done ++ rest
        → page key d cur (suc l) rows ≡ take (suc l) rest
        → length rest < n
        → walk n (suc l) (λ c. page key d c (suc l) rows) cur ≡ rest
    walk-rest zero cur done rest whole p h = absurd (omega arith)
    walk-rest (suc n) cur done rest whole p h = elim (lt-cases l (length rest)) [
      | inl long ↦
          let c = cut l rest long in
          let place : ordered key d rows ≡ (done ++ c.pre) ++ c.last ∷ c.post =
            whole
            ∙ ap (λ ys. done ++ ys) c.whole
            ∙ sym (append_assoc done c.pre (c.last ∷ c.post)) in
          let place' : ordered key d rows ≡ ((done ++ c.pre) ++ c.last ∷ []) ++ c.post =
            place ∙ sym (append_assoc (done ++ c.pre) (c.last ∷ []) c.post) in
          let own : is_zero (key c.last) ≡ false =
            All-middle _ (done ++ c.pre) c.last c.post (
              subst (All (λ r. is_zero (key r) ≡ false)) place
                (All-ordered key d _ rows nonzero)) in
          let later =
            walk-rest n (key c.last) ((done ++ c.pre) ++ c.last ∷ []) c.post place'
              (page-after (suc l) rows (done ++ c.pre) c.last c.post distinct own place)
              (let left = c.less_left in omega arith) in
          step n cur (c.pre ++ c.last ∷ []) c.post (p ∙ c.taken)
            (rw (next-full l c.pre c.last c.long) later)
          ∙ append_assoc c.pre (c.last ∷ []) c.post
          ∙ sym c.whole
      | inr short ↦
          step n cur rest [] (p ∙ take-short (suc l) rest (omega arith))
            (rw (next-short l rest short) refl)
          ∙ append-nil rest
    ]

    -- The listing, whole and in its order.
    pub walk-whole :
        (n : ℕ)
        → length rows < n
        → walk n (suc l) (λ c. page key d c (suc l) rows) zero_cursor ≡ ordered key d rows
    walk-whole n h =
        let first : page key d zero_cursor (suc l) rows ≡ take (suc l) (ordered key d rows) =
          unfold page is_zero in refl in
        let same = length-ordered rows in
        walk-rest n zero_cursor [] (ordered key d rows) refl first (omega arith)

  -- All of the rows, as often as they are there, in their order.
  abbrev pub Listing : List A → (A → Bool) → List A → Type ℓ
  Listing found p rows = Ordered key d found × (count_rows p found ≡ count_rows p rows)

  pub walk-Listing :
      (n l : ℕ) (p : A → Bool) (rows : List A)
      → Distinct key d rows
      → All (λ r. is_zero (key r) ≡ false) rows
      → length rows < n
      → Listing (walk n (suc l) (λ c. page key d c (suc l) rows) zero_cursor) p rows
  walk-Listing n l p rows distinct nonzero h =
      rw (walk-whole l rows distinct nonzero n h)
        (ordered-Ordered key d rows distinct, count-ordered p rows)
