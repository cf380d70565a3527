-- ===== src/Pool/Delivery.antt =====
-- Every task that `Submit` of pkg/workerpool/pool.go took is run once.
use strato.Prelude.{
  ℕ, ◌+◌, ◌≡◌, refl, sym, ap, true, List, [], ◌∷◌, ◌++◌, ◌==◌, count_rows, arith, length,
  length-append, ◌<◌, ◌∙◌,
}
use mathlib.Core.Bool.{true≢false}
use mathlib.Core.List.{cons-ne-nil}
use strato.Pool.{
  Pool, new, Step, seen_open, sent, handed, gave_up, sent_closed, took, finishes, ends, closes,
  cancels, Reach, here, next, Stopped,
}

abbrev pub times : ℕ → List ℕ → ℕ
times a xs = count_rows (λ x. x == a) xs

times-append : (a : ℕ) (xs ys : List ℕ) → times a (xs ++ ys) ≡ times a xs + times a ys
times-append a [] ys = omega arith
times-append a (x ∷ xs) ys = ground (arith, times-append a xs ys)

Step-delivered :
    {p q : Pool} (a : ℕ)
    → Step p q
    → times a p.accepted ≡ times a p.queue + times a p.running + times a p.finished
    → times a q.accepted ≡ times a q.queue + times a q.running + times a q.finished
Step-delivered a (seen_open t unshut) i = i
Step-delivered {p} a (sent before after t e unshut room) i =
    let more = times-append a p.queue (t ∷ []) in ground arith
Step-delivered a (handed before after t n e unshut empty some_idle) i = ground arith
Step-delivered a (gave_up before after t e) i = i
Step-delivered a (sent_closed before after t e shut) i = i
Step-delivered {p} a (took t n rest e some_idle) i = let was = ap (times a) e in ground arith
Step-delivered {p} a (finishes before after t e) i =
    let was = ap (times a) e in
    let old = times-append a before (t ∷ after) in
    let now = times-append a before after in ground arith
Step-delivered a (ends n e shut some_idle) i = i
Step-delivered a (closes unshut) i = i
Step-delivered a (cancels shut) i = i

-- A worker ends only when the channel is closed and empty.
abbrev pub Drained : Pool → Type 0
Drained p = 0 < p.ended → (p.queue ≡ []) × (p.closed ≡ true)

Step-Drained : {p q : Pool} → Step p q → Drained p → Drained q
Step-Drained (seen_open t unshut) i = i
Step-Drained (sent before after t e unshut room) i = λ h. absurd (true≢false (sym (i h).1 ∙ unshut))
Step-Drained (handed before after t n e unshut empty some_idle) i = i
Step-Drained (gave_up before after t e) i = i
Step-Drained (sent_closed before after t e shut) i = i
Step-Drained (took t n rest e some_idle) i = λ h. absurd (cons-ne-nil t rest (sym e ∙ (i h).0))
Step-Drained (finishes before after t e) i = i
Step-Drained (ends n e shut some_idle) i = λ h. (e, shut)
Step-Drained (closes unshut) i = λ h. ((i h).0, refl)
Step-Drained (cancels shut) i = i

abbrev pub workers_of : Pool → ℕ
workers_of p = p.idle + length p.running + p.ended

Step-workers : {p q : Pool} → Step p q → workers_of q ≡ workers_of p
Step-workers (seen_open t unshut) = refl
Step-workers (sent before after t e unshut room) = refl
Step-workers (handed before after t n e unshut empty some_idle) = ground arith
Step-workers (gave_up before after t e) = refl
Step-workers (sent_closed before after t e shut) = refl
Step-workers (took t n rest e some_idle) = ground arith
Step-workers (finishes before after t e) =
    let was = ap length e in
    let old = length-append before (t ∷ after) in
    let now = length-append before after in omega arith
Step-workers (ends n e shut some_idle) = omega arith
Step-workers (closes unshut) = refl
Step-workers (cancels shut) = refl

pub record Inv (p : Pool) : Type 0 where
  pub delivered :
      (a : ℕ) → times a p.accepted ≡ times a p.queue + times a p.running + times a p.finished
  pub drained : Drained p
  pub staffed : 0 < workers_of p

pub new-Inv : (workers depth : ℕ) → Inv (new workers depth)
unfolding new
new-Inv workers depth = record {
  delivered = λ a. omega arith;
  drained = λ h. absurd (omega arith);
  staffed = ground arith;
}

pub Reach-Inv : {p q : Pool} → Inv p → Reach p q → Inv q
Reach-Inv i here = i
Reach-Inv i (next {q} r s) =
    let before = Reach-Inv i r in
    record {
      delivered = λ a. Step-delivered a s (before.delivered a);
      drained = Step-Drained s before.drained;
      staffed = omega (arith, Step-workers s, before.staffed);
    }

-- When `Shutdown` returns, every task has been run to its end as often as a `Submit` of it returned
-- nil: none is lost and none is run twice.
pub Stopped-delivered :
    (workers depth : ℕ) (p : Pool) (a : ℕ)
    → Reach (new workers depth) p
    → Stopped p
    → times a p.finished ≡ times a p.accepted
Stopped-delivered workers depth p a r stopped =
    let i = Reach-Inv (new-Inv workers depth) r in
    let staffed = i.staffed in
    let none_running = ap length stopped.2 in
    let empty = (i.drained (omega arith)).0 in
    sym (i.delivered a ∙ rw (empty, stopped.2) (omega arith))
