-- ===== src/Pool/Progress.antt =====
-- `Shutdown` of pkg/workerpool/pool.go: that it can end, and the race with `Submit`.
use strato.Prelude.{
  ℕ, zero, suc, ◌+◌, ◌*◌, ◌<◌, ◌≡◌, ◌⊎◌, inl, inr, refl, sym, ap, ◌∙◌, true, false, List, [], ◌∷◌,
  arith, length,
}
use mathlib.Core.List.{cons-ne-nil}
use strato.Pool.Delivery.{Inv, new-Inv, Reach-Inv}
use strato.Pool.{
  new, Pool, Step, took, finishes, ends, closes, sent_closed, Reach, here, next, Stopped,
}

-- What the workers have left to do.
abbrev left : Pool → ℕ
left p = 3 * length p.queue + 2 * length p.running + p.idle

-- A worker can go on, or all have ended.
worker-moves :
    (p : Pool)
    → Inv p
    → p.closed ≡ true
    → Stopped p ⊎ ((q : Pool) × Step p q × (q.closed ≡ true) × (left q < left p))
worker-moves p i shut = go p.queue p.running p.idle refl refl refl
  where
    go :
        (queue running : List ℕ) (idle : ℕ)
        → p.queue ≡ queue
        → p.running ≡ running
        → p.idle ≡ idle
        → Stopped p ⊎ ((q : Pool) × Step p q × (q.closed ≡ true) × (left q < left p))
    go queue (t ∷ rest) idle a b c =
        inr (_, finishes [] rest t b, shut, let was = ap length b in omega arith)
    go [] [] zero a b c = inl (shut, c, b)
    go [] [] (suc n) a b c = inr (_, ends n a shut c, shut, omega arith)
    go (t ∷ rest) [] (suc n) a b c =
        inr (_, took t n rest a c, shut, let was = ap length a in omega arith)
    go (t ∷ rest) [] zero a b c =
        let none_running = ap length b in
        let staffed = i.staffed in absurd (cons-ne-nil t rest (sym a ∙ (i.drained (omega arith)).0))

Reach-trans : {p q r : Pool} → Reach p q → Reach q r → Reach p r
Reach-trans s here = s
Reach-trans s (next t st) = next (Reach-trans s t) st

stops_within :
    (n : ℕ) (p : Pool) → left p < n → Inv p → p.closed ≡ true → (q : Pool) × Reach p q × Stopped q
stops_within zero p few i shut = absurd (omega arith)
stops_within (suc n) p few i shut = elim (worker-moves p i shut) [
  | inl stopped ↦ (p, here, stopped)
  | inr (q, step, shut', less) ↦
      let (r, steps, stopped) =
        stops_within n q (omega arith) (Reach-Inv i (next here step)) shut' in
      (r, Reach-trans (next here step) steps, stopped)
]

-- From every state that the pool reaches with the channel closed, the workers can go on to the state in
-- which `Shutdown` returns: it is never stuck, whatever callers of `Submit` are left.
pub closed-Stops :
    (workers depth : ℕ) (p : Pool)
    → Reach (new workers depth) p
    → p.closed ≡ true
    → (q : Pool) × Reach p q × Stopped q
closed-Stops workers depth p r shut =
    stops_within (suc (left p)) p (omega arith) (Reach-Inv (new-Inv workers depth) r) shut

-- A caller of `Submit` that has seen an open pool is in danger: if `Shutdown` comes before its send,
-- the send can panic. So it is in every state with such a caller.
pub submitting-Panics :
    (p : Pool) (t : ℕ) (rest : List ℕ)
    → p.submitting ≡ t ∷ rest
    → p.closed ≡ false
    → (q : Pool) × Reach p q × (q.panicked ≡ true)
submitting-Panics p t rest e unshut =
    (_, next (next here (closes unshut)) (sent_closed [] rest t e refl), refl)
