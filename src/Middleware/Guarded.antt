-- ===== src/Middleware/Guarded.antt =====
-- What the interceptors let through, and which callers share a budget
-- (internal/middleware/interceptors.go).
use strato.Prelude.{
  ℕ, zero, leb, sym, ◌∙◌, suc, ◌≤◌, ◌<◌, ◌≡◌, refl, ap, Bool, true, false, [], ◌∷◌, ◌++◌, Option,
  none, some, length, ltb, Bool-cases, inl, inr, ◌⊎◌, take, arith,
}
use strato.Entity.Account.{Text}
use strato.Entity.Access.{Identity}
use strato.Domain.Error.{Result, ok, err}
use strato.Usecase.Auth.Session.{RequestMeta}
use strato.Middleware.{
  Context, Call, Code, Reply, answer, status, panic, RateLimit, is_public, meta_of, bearer_prefix,
  bearer_from_md, caller_key, key_of, budget, request_meta, recovery, rate_limit, authentication,
  unary, recovered, with_token,
}

-- Who is asking, by the token of the call.
pub record Named (parse : Text → Result Identity) (call : Call) (ctx : Context) : Type 0 where
  pub token : Text
  pub ident : Identity
  pub bearer : bearer_from_md call.authorization ≡ some token
  pub parsed : parse token ≡ ok ident
  pub carried : ctx.identity ≡ some ident

-- The handler has answered, in a context that the interceptors have made.
pub record Guarded {ℓ} {A : Type ℓ} (cfg : RateLimit) (allow : Text → ℕ → Bool)
    (parse : Text → Result Identity) (call : Call) (handler : Context → Reply A) (a : A)
    : Type ℓ where
  pub ctx : Context
  pub answered : handler ctx ≡ answer a
  pub meta : ctx.meta ≡ meta_of call
  pub known : (is_public call.method ≡ true) ⊎ Named parse call ctx
  pub budgeted :
      (cfg.enabled ≡ false)
      ⊎ (allow (budget cfg call (meta_of call)).0 (budget cfg call (meta_of call)).1 ≡ true)

module _ {ℓ} {A : Type ℓ} (cfg : RateLimit) (allow : Text → ℕ → Bool)
    (parse : Text → Result Identity) (call : Call) (handler : Context → Reply A) where
  status-answer : (c : Code) (a : A) → ¬ (◌≡◌ {A = Reply A} (status c) (answer a))
  status-answer c a h = cc

  recovered-answer : (r : Reply A) (a : A) → recovered r ≡ answer a → r ≡ answer a
  unfolding recovered
  recovered-answer (answer b) a e = e
  recovered-answer (status c) a e = e
  recovered-answer panic a e = cc

  parsed-Named :
      (ctx : Context) (a : A) (token : Text) (r : Result Identity)
      → bearer_from_md call.authorization ≡ some token
      → parse token ≡ r
      → (elim r [
        | err _ ↦ status Code.unauthenticated
        | ok ident ↦ handler (record ctx { identity = some ident })
      ])
        ≡ answer a
      → (c : Context) × (handler c ≡ answer a) × (c.meta ≡ ctx.meta) × Named parse call c
  parsed-Named ctx a token (err e) b p h = cc
  parsed-Named ctx a token (ok ident) b p h = (
    record ctx { identity = some ident },
    h,
    refl,
    record { token = token; ident = ident; bearer = b; parsed = p; carried = refl },
  )

  token-Named :
      (ctx : Context) (a : A) (o : Option Text)
      → bearer_from_md call.authorization ≡ o
      → with_token parse o handler ctx ≡ answer a
      → (c : Context) × (handler c ≡ answer a) × (c.meta ≡ ctx.meta) × Named parse call c
  unfolding with_token
  token-Named ctx a none b h = cc
  token-Named ctx a (some token) b h = parsed-Named ctx a token (parse token) b refl h

  authentication-answer :
      (ctx : Context) (a : A)
      → authentication parse call handler ctx ≡ answer a
      → (c : Context) × (handler c ≡ answer a)
        × (c.meta ≡ ctx.meta)
        × ((is_public call.method ≡ true) ⊎ Named parse call c)
  unfolding authentication
  authentication-answer ctx a h = elim (Bool-cases (is_public call.method)) [
    | inl e ↦ (ctx, rw e at h, refl, inl e)
    | inr e ↦
        let (c, g, m, n) = token-Named ctx a (bearer_from_md call.authorization) refl (rw e at h) in
        (c, g, m, inr n)
  ]

  started : Context
  started = record { identity = none; meta = meta_of call }

  Guarded-of :
      (a : A)
      → ((cfg.enabled ≡ false)
          ⊎ (allow (budget cfg call (meta_of call)).0 (budget cfg call (meta_of call)).1 ≡ true))
      → authentication parse call handler started ≡ answer a
      → Guarded cfg allow parse call handler a
  unfolding started
  Guarded-of a room h =
      let (c, g, m, n) = authentication-answer started a h in
      record { ctx = c; answered = g; meta = m; known = n; budgeted = room }

  limited-Guarded :
      (a : A)
      → rate_limit cfg allow call (authentication parse call handler) started ≡ answer a
      → Guarded cfg allow parse call handler a
  unfolding rate_limit started
  limited-Guarded a h = elim (Bool-cases cfg.enabled) [
    | inl on ↦
        elim (Bool-cases
          (allow (budget cfg call (meta_of call)).0 (budget cfg call (meta_of call)).1)) [
            | inl room ↦ Guarded-of a (inr room) (rw (room, on) at h)
            | inr over ↦ absurd (status-answer Code.resource_exhausted a (rw (over, on) at h))
          ]
    | inr off ↦ Guarded-of a (inl off) (rw off at h)
  ]

  -- Whenever a unary call is answered with what the handler gives and not with a status: the handler ran in
  -- a context with the metadata of the call, the method is public or the context carries the identity that
  -- `ParseAccessToken` reads from the bearer token of the call, and rate limits are off or the limiter
  -- allowed the call under its key and limit.
  pub unary-Guarded :
      (a : A)
      → unary cfg allow parse call handler ≡ answer a
      → Guarded cfg allow parse call handler a
  unfolding unary request_meta recovery started
  unary-Guarded a h = limited-Guarded a (recovered-answer _ a h)

bearer-token : (t : Text) → 0 < length t → bearer_from_md ((bearer_prefix ++ t) ∷ []) ≡ some t
unfolding bearer_from_md
bearer-token [] h = absurd (omega arith)
bearer-token (c ∷ t) h =
    let long : leb (length (bearer_prefix ++ c ∷ t)) 7 ≡ false = ground arith in rw long refl

take-front : (n : ℕ) (h s : Text) → n ≤ length h → take n (h ++ s) ≡ take n h
take-front zero h s e = refl
take-front (suc n) [] s e = absurd (omega arith)
take-front (suc n) (c ∷ h) s e = ap (λ t. c ∷ t) (take-front n h s (omega arith))

key-front :
    (header s : Text) (x : RequestMeta)
    → 16 ≤ length header
    → 16 < length (header ++ s)
    → key_of (some (header ++ s)) x ≡ b't' ∷ b'o' ∷ b'k' ∷ b':' ∷ take 16 header
unfolding key_of
key-front header s x long longer =
    let lengthy : ltb 16 (length (header ++ s)) ≡ true = ground arith in
    rw (lengthy, take-front 16 header s (omega arith)) refl

call-front :
    (a : Call) (x : RequestMeta) (header s : Text)
    → a.authorization ≡ (bearer_prefix ++ header ++ s) ∷ []
    → 16 ≤ length header
    → 16 < length (header ++ s)
    → caller_key a x ≡ b't' ∷ b'o' ∷ b'k' ∷ b':' ∷ take 16 header
unfolding caller_key
call-front a x header s p long longer =
    ap (λ m. key_of (bearer_from_md m) x) p
    ∙ ap (λ o. key_of o x) (bearer-token (header ++ s) (omega arith))
    ∙ key-front header s x long longer

-- Two calls whose access tokens are longer than 16 bytes and have the same first 16 share a key of the rate
-- limiter, whoever makes them and from where: so do all that golang-jwt signs under one algorithm, which begin
-- with the text of one header.
pub caller_key-Shared :
    (a b : Call) (x y : RequestMeta) (header s t : Text)
    → a.authorization ≡ (bearer_prefix ++ header ++ s) ∷ []
    → b.authorization ≡ (bearer_prefix ++ header ++ t) ∷ []
    → length header ≡ 16
    → 16 < length (header ++ s)
    → 16 < length (header ++ t)
    → caller_key a x ≡ caller_key b y
caller_key-Shared a b x y header s t p q sixteen long_s long_t =
    call-front a x header s p (omega arith) long_s
    ∙ sym (call-front b y header t q (omega arith) long_t)
