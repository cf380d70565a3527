-- ===== src/Redis/RateLimiter/Bounded.antt =====
-- No window of the rate limiter holds more requests than the limit.
use strato.Prelude.{
  ℕ, ◌+◌, ◌≤◌, ◌<◌, ◌≡◌, refl, Bool, true, false, List, [], ◌∷◌, ◌++◌, leb, ltb, ◌==◌,
  if◌then◌else◌, length, delete_rows, count_rows, any_row, arith, All, Bool-cases, inl, inr,
  All-append, All-delete_rows, All-map, count_rows-append, subst, length-append, ◌-◌,
}
use strato.Redis.RateLimiter.{Entry, Log, trimmed, allow}

pub record Request : Type 0 where
  pub at : ℕ
  pub member : ℕ

module _ (limit window : ℕ) where
  -- Requests in a row, from the times of those that were allowed already.
  unfoldable pub run : List Request → Log → List ℕ → Log × List ℕ
  run [] log passed = (log, passed)
  run (r ∷ rs) log passed =
      let (allowed, log') = allow limit window r.at r.member log in
      run rs log' (if allowed then passed ++ r.at ∷ [] else passed)

  -- The requests among `passed` whose window reaches past `now`.
  abbrev pub recent : ℕ → List ℕ → ℕ
  recent now passed = count_rows (λ t. ltb now (t + window)) passed

  abbrev live : ℕ → List Entry → ℕ
  live now entries = count_rows (λ e. ltb now (e.score + window)) entries

  record Inv (now : ℕ) (log : Log) (passed : List ℕ) : Type 0 where
    few : length log.entries ≤ limit
    counted : (x : ℕ) → recent (now + x) passed ≤ live (now + x) log.entries
    expiring : All (λ e. e.score + window ≤ log.expires_at) log.entries
    past : All (λ e. e.score ≤ now) log.entries

  live-le-length : (x : ℕ) (es : List Entry) → live x es ≤ length es
  live-le-length x [] = omega arith
  live-le-length x (e ∷ es) = ground (arith, live-le-length x es)

  live-trimmed :
      (now x : ℕ) (es : List Entry)
      → live (now + x) (delete_rows (λ e. leb (e.score + window) now) es) ≡ live (now + x) es
  live-trimmed now x [] = refl
  live-trimmed now x (e ∷ es) = ground (arith, live-trimmed now x es)

  length-trimmed :
      (now : ℕ) (es : List Entry)
      → length (delete_rows (λ e. leb (e.score + window) now) es) ≤ length es
  length-trimmed now [] = omega arith
  length-trimmed now (e ∷ es) = ground (arith, length-trimmed now es)

  live-expired :
      (now x : ℕ) (es : List Entry) → All (λ e. e.score + window ≤ now) es → live (now + x) es ≡ 0
  live-expired now x [] h = refl
  live-expired now x (e ∷ es) h = ground (arith, live-expired now x es h.1)

  counted_later :
      (now now' x : ℕ) (log : Log) (passed : List ℕ)
      → now ≤ now'
      → Inv now log passed
      → recent (now' + x) passed ≤ live (now' + x) log.entries
  counted_later now now' x log passed h i =
      let same : now + (now' - now + x) ≡ now' + x = omega arith in
      subst (λ y. recent y passed ≤ live y log.entries) same (i.counted (now' - now + x))

  found-Inv :
      (now now' : ℕ) (log : Log) (passed : List ℕ)
      → now ≤ now'
      → Inv now log passed
      → Inv now' (record log { entries = trimmed limit window now' log }) passed
  found-Inv now now' log passed h i = elim (Bool-cases (leb log.expires_at now')) [
    | inl gone ↦
        let all_past =
          All-map _ (λ (e : Entry). e.score + window ≤ now') log.entries (λ e k. ground arith)
            i.expiring in
        rw gone (record {
          few = omega arith;
          counted = λ x. omega (
            arith,
            counted_later now now' x log passed h i,
            live-expired now' x log.entries all_past,
          );
          expiring = tt;
          past = tt;
        })
    | inr here ↦ rw here (record {
      few = omega (arith, length-trimmed now' log.entries, i.few);
      counted = λ x. rw (live-trimmed now' x log.entries) (counted_later now now' x log passed h i);
      expiring = All-delete_rows _ _ log.entries i.expiring;
      past =
          All-delete_rows _ _ log.entries
            (All-map _ (λ (e : Entry). e.score ≤ now') log.entries (λ e k. omega arith) i.past);
    })
  ]

  delete_rows-none :
      (member : ℕ) (es : List Entry)
      → All (λ e. (e.member == member) ≡ false) es
      → delete_rows (λ e. e.member == member) es ≡ es
  delete_rows-none member [] h = refl
  delete_rows-none member (e ∷ es) h = rw (h.0, delete_rows-none member es h.1) refl

  -- The log after a request that is allowed, where no other has its member.
  added-Inv :
      (now member : ℕ) (log : Log) (passed : List ℕ)
      → length log.entries < limit
      → Inv now log passed
      → Inv now
          (record {
            entries = log.entries ++ record { score = now; member = member } ∷ [];
            expires_at = now + window;
          })
          (passed ++ now ∷ [])
  added-Inv now member log passed room i = record {
    few =
        rw (length-append log.entries (record { score = now; member = member } ∷ [])) (omega arith);
    counted = λ x.
        rw
          (
            count_rows-append (λ t. ltb (now + x) (t + window)) passed now,
            count_rows-append (λ (e : Entry). ltb (now + x) (e.score + window)) log.entries
                (record { score = now; member = member }),
          )
          (let before = i.counted x in omega arith);
    expiring =
        All-append (λ (e : Entry). e.score + window ≤ now + window) log.entries _
          (All-map _ _ log.entries (λ e k. omega arith) i.past) (omega arith);
    past = All-append (λ (e : Entry). e.score ≤ now) log.entries _ i.past (omega arith);
  }

  trimmed-All :
      (P : Entry → Type 0) (now : ℕ) (log : Log)
      → All P log.entries
      → All P (trimmed limit window now log)
  trimmed-All P now log h = elim (Bool-cases (leb log.expires_at now)) [
    | inl gone ↦ rw gone tt
    | inr here ↦ rw here (All-delete_rows _ _ log.entries h)
  ]

  -- Each request is made no earlier than the one before, by the clock of the program.
  abbrev pub Ordered : ℕ → List Request → Type 0
  Ordered now [] = Unit {0}
  Ordered now (r ∷ rs) = (now ≤ r.at) × Ordered r.at rs

  abbrev pub used_by : List Request → ℕ → Bool
  used_by rs member = any_row (λ r. member == r.member) rs

  abbrev pub Distinct : List Request → Type 0
  Distinct [] = Unit {0}
  Distinct (r ∷ rs) = (used_by rs r.member ≡ false) × Distinct rs

  abbrev Apart : List Request → List Entry → Type 0
  Apart rs es = All (λ e. used_by rs e.member ≡ false) es

  abbrev pub last_at : ℕ → List Request → ℕ
  last_at now [] = now
  last_at now (r ∷ rs) = last_at r.at rs

  allow-full :
      (now member : ℕ) (log : Log)
      → leb limit (length (trimmed limit window now log)) ≡ true
      → allow limit window now member log
        ≡ (false, record log { entries = trimmed limit window now log })
  unfolding allow
  allow-full now member log h = rw h refl

  allow-room :
      (now member : ℕ) (log : Log)
      → leb limit (length (trimmed limit window now log)) ≡ false
      → allow limit window now member log ≡ (
        true,
        record {
          entries =
              delete_rows (λ e. e.member == member) (trimmed limit window now log)
              ++ record { score = now; member = member } ∷ [];
          expires_at = now + window;
        },
      )
  unfolding allow
  allow-room now member log h = rw h refl

  run-Inv :
      (rs : List Request) (now : ℕ) (log : Log) (passed : List ℕ)
      → Ordered now rs
      → Distinct rs
      → Apart rs log.entries
      → Inv now log passed
      → Inv (last_at now rs) (run rs log passed).0 (run rs log passed).1
  unfolding run
  run-Inv [] now log passed order distinct apart i = i
  run-Inv (r ∷ rs) now log passed order distinct apart i =
      let kept = trimmed limit window r.at log in
      let i' = found-Inv now r.at log passed order.0 i in
      let apart' = trimmed-All _ r.at log apart in
      let rest =
        All-map _ (λ (e : Entry). used_by rs e.member ≡ false) kept (λ e k. ground arith) apart' in
      let other =
        All-map _ (λ (e : Entry). (e.member == r.member) ≡ false) kept (λ e k. ground arith)
          apart' in
      elim (Bool-cases (leb limit (length kept))) [
        | inl full ↦
            rw (run, allow-full r.at r.member log full)
              (run-Inv rs r.at _ passed order.1 distinct.1 rest i')
        | inr room ↦
            let new : Entry = record { score = r.at; member = r.member } in
            rw (run, allow-room r.at r.member log room, delete_rows-none r.member kept other)
              (run-Inv rs r.at _ _ order.1 distinct.1
                (All-append (λ (e : Entry). used_by rs e.member ≡ false) kept new rest distinct.0)
                (added-Inv r.at r.member _ passed (ground arith) i'))
      ]

  empty-Inv : Inv 0 (record { entries = []; expires_at = 0 }) []
  empty-Inv = record { few = omega arith; counted = λ x. omega arith; expiring = tt; past = tt }

  -- For requests in the order of their times, of which no two have the same member: at the time of the
  -- last one and at any time after it, the requests that were allowed within the window before it are
  -- at most `limit`.
  pub recent-le-limit :
      (rs : List Request) (x : ℕ)
      → Ordered 0 rs
      → Distinct rs
      → recent (last_at 0 rs + x) (run rs (record { entries = []; expires_at = 0 }) []).1 ≤ limit
  recent-le-limit rs x order distinct =
      let i = run-Inv rs 0 _ [] order distinct tt empty-Inv in
      let log = (run rs (record { entries = []; expires_at = 0 }) []).0 in
      omega (arith, i.counted x, live-le-length (last_at 0 rs + x) log.entries, i.few)
