-- ===== src/Encoding/Split.antt =====
-- strings.Split at one byte, and joining with it.
use strato.Prelude.{ℕ, ◌≡◌, refl, false, List, [], ◌∷◌, ◌++◌, ◌==◌, if◌then◌else◌, arith, All}

abbrev prepend : ℕ → List (List ℕ) → List (List ℕ)
prepend c [] = (c ∷ []) ∷ []
prepend c (p ∷ ps) = (c ∷ p) ∷ ps

-- The parts between the separators: one for a text with none.
unfoldable pub split : ℕ → List ℕ → List (List ℕ)
split sep [] = [] ∷ []
split sep (c ∷ s) = let rest = split sep s in if c == sep then [] ∷ rest else prepend c rest

abbrev pub Lacks : ℕ → List ℕ → Type 0
Lacks sep s = All (λ c. (c == sep) ≡ false) s

split-last : (sep : ℕ) (s : List ℕ) → Lacks sep s → split sep s ≡ s ∷ []
unfolding split
split-last sep [] h = refl
split-last sep (c ∷ s) h = rw (h.0, split-last sep s h.1) refl

split-cons :
    (sep : ℕ) (s rest : List ℕ) → Lacks sep s → split sep (s ++ sep ∷ rest) ≡ s ∷ split sep rest
unfolding split
split-cons sep [] rest h = ground arith
split-cons sep (c ∷ s) rest h = rw (h.0, split-cons sep s rest h.1) refl

unfoldable pub join : ℕ → List ℕ → List (List ℕ) → List ℕ
join sep p [] = p
join sep p (q ∷ ps) = p ++ sep ∷ join sep q ps

-- Splitting a join gives the parts that lack the separator.
pub split-join :
    (sep : ℕ) (p : List ℕ) (ps : List (List ℕ))
    → Lacks sep p
    → All (Lacks sep) ps
    → split sep (join sep p ps) ≡ p ∷ ps
unfolding join
split-join sep p [] h k = split-last sep p h
split-join sep p (q ∷ ps) h k =
    rw (split-cons sep p (join sep q ps) h, split-join sep q ps k.0 k.1) refl
