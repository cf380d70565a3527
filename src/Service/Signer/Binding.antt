-- ===== src/Service/Signer/Binding.antt =====
-- What a signed query of internal/service/signer.go says, and for how long.
use mathlib.Core.Option.{some-injective}
use strato.Crypto.Password.RoundTrip.{bytes_equal_refl}
use strato.Prelude.{
  zero, suc, subst, All-map, ℕ, ◌+◌, ◌^◌, ◌<◌, ◌≤◌, ◌≡◌, refl, sym, ap, ◌∙◌, true, false, List, [],
  ◌∷◌, Option, none, some, ltb, ◌==◌, if◌then◌else◌, bytes_equal, arith, append-nil, Bool-cases,
  inl, inr,
}
use strato.Encoding.Decimal.{format, scan, parse_int64}
use strato.Encoding.Decimal.RoundTrip.{Starts, format-Starts, format-All, scan-format}
use strato.Encoding.Split.{split, split-join, Lacks}
use strato.Entity.Account.{Text}
use strato.Domain.Error.{ok, err, unauthenticated, ok-injective}
use strato.Service.Signer.{
  UrlSigner, Query, unix, signed_text, signature, sign, verify_parsed, verify,
}

scan-whole : (n : ℕ) → n < 2 ^ 63 → scan (2 ^ 63) (format n) ≡ some (n, [])
scan-whole n h = ap (scan (2 ^ 63)) (sym (append-nil (format n))) ∙ scan-format (2 ^ 63) n [] tt h

not-ok : (n : ℕ) → ¬ (ok n ≡ err unauthenticated)
not-ok n h = cc

format-Lacks : (n : ℕ) → Lacks b'|' (format n)
format-Lacks n = All-map _ _ (format n) (λ c h. ground arith) (format-All n)

part : ℕ → List Text → Text
part n [] = []
part zero (p ∷ ps) = p
part (suc n) (p ∷ ps) = part n ps

module _ (s : UrlSigner) where
  parse_int64-Starts :
      (n : ℕ) (t : Text) → Starts t → scan (2 ^ 63) t ≡ some (n, []) → parse_int64 t ≡ some n
  unfolding parse_int64
  parse_int64-Starts n [] h e = absurd h
  parse_int64-Starts n (c ∷ t) h e =
      let plain : (c == b'-') ≡ false = ground arith in
      let plain' : (c == b'+') ≡ false = ground arith in rw (plain, plain', e) refl

  -- A query that `Sign` makes, with an expiry of 64 bits: `Verify` gives its user for that file until the
  -- second of its expiry, and no one from the next second on.
  pub verify-sign :
      (now later file_id user_id ttl : ℕ)
      → ((id : ℕ) → s.parse_uuid (s.uuid_text id) ≡ some id)
      → unix (now + ttl) < 2 ^ 63
      → verify s later file_id (sign s now file_id user_id ttl)
        ≡ (if ltb (unix (now + ttl)) (unix later) then err unauthenticated else ok user_id)
  unfolding verify sign verify_parsed
  verify-sign now later file_id user_id ttl parses fits =
      rw
        (
          parses user_id,
          parse_int64-Starts (unix (now + ttl)) (format (unix (now + ttl)))
              (subst Starts (append-nil (format (unix (now + ttl))))
                (format-Starts (unix (now + ttl)) []))
              (scan-whole (unix (now + ttl)) fits),
          bytes_equal_refl (signature s file_id user_id (unix (now + ttl))),
        )
        refl

  parsed-ok :
      (now file_id user_id : ℕ) (q : Query) (u e : Option ℕ)
      → s.parse_uuid q.uid ≡ u
      → parse_int64 q.exp ≡ e
      → verify_parsed s now file_id q.sig u e ≡ ok user_id
      → (exp : ℕ) × (s.parse_uuid q.uid ≡ some user_id)
        × (parse_int64 q.exp ≡ some exp)
        × (unix now ≤ exp)
        × (bytes_equal (signature s file_id user_id exp) q.sig ≡ true)
  unfolding verify_parsed
  parsed-ok now file_id user_id q none e a b h = absurd (ground arith)
  parsed-ok now file_id user_id q (some u) none a b h = absurd (ground arith)
  parsed-ok now file_id user_id q (some u) (some exp) a b h =
      elim (Bool-cases (ltb exp (unix now))) [
        | inl over ↦ absurd (not-ok user_id (sym (rw over at h)))
        | inr alive ↦ elim (Bool-cases (bytes_equal (signature s file_id u exp) q.sig)) [
          | inl good ↦
              let same : u ≡ user_id = ok-injective (rw (alive, good) at h) in
              (
                exp,
                a ∙ ap some same,
                b,
                ground arith,
                subst (λ v. bytes_equal (signature s file_id v exp) q.sig ≡ true) same good,
              )
          | inr bad ↦ absurd (not-ok user_id (sym (rw (alive, bad) at h)))
        ]
      ]

  -- Whenever `Verify` gives a user, the query names that user and an expiry that is not over, and its
  -- signature is the one of the file, that user and that expiry.
  pub verify-ok :
      (now file_id user_id : ℕ) (q : Query)
      → verify s now file_id q ≡ ok user_id
      → (exp : ℕ) × (s.parse_uuid q.uid ≡ some user_id)
        × (parse_int64 q.exp ≡ some exp)
        × (unix now ≤ exp)
        × (bytes_equal (signature s file_id user_id exp) q.sig ≡ true)
  unfolding verify
  verify-ok now file_id user_id q h = parsed-ok now file_id user_id q _ _ refl refl h

  split-signed :
      (f u e : ℕ)
      → ((id : ℕ) → Lacks b'|' (s.uuid_text id))
      → split b'|' (signed_text s f u e) ≡ s.uuid_text f ∷ s.uuid_text u ∷ format e ∷ []
  split-signed f u e plain =
      split-join b'|' (s.uuid_text f) (s.uuid_text u ∷ format e ∷ []) (plain f)
        (plain u, (format-Lacks e, tt))

  -- The signed text says which file, which user and which expiry: no two of its parts can be swapped, and
  -- none moved into another. UUID texts have no bar, and are parsed back; an expiry has 64 bits.
  pub signed_text-Binds :
      (f u e f' u' e' : ℕ)
      → ((id : ℕ) → s.parse_uuid (s.uuid_text id) ≡ some id)
      → ((id : ℕ) → Lacks b'|' (s.uuid_text id))
      → e < 2 ^ 63
      → e' < 2 ^ 63
      → signed_text s f u e ≡ signed_text s f' u' e'
      → (f ≡ f') × (u ≡ u') × (e ≡ e')
  unfolding part
  signed_text-Binds f u e f' u' e' parses plain fits fits' h =
      let parts =
        sym (split-signed f u e plain) ∙ ap (split b'|') h ∙ split-signed f' u' e' plain in
      let file : s.uuid_text f ≡ s.uuid_text f' = ap (part 0) parts in
      let user : s.uuid_text u ≡ s.uuid_text u' = ap (part 1) parts in
      let exp : format e ≡ format e' = ap (part 2) parts in
      (
        some-injective f f' (sym (parses f) ∙ ap s.parse_uuid file ∙ parses f'),
        some-injective u u' (sym (parses u) ∙ ap s.parse_uuid user ∙ parses u'),
        ap (λ (r : ℕ × List ℕ). r.0)
            (some-injective (e, []) (e', [])
              (sym (scan-whole e fits) ∙ ap (scan (2 ^ 63)) exp ∙ scan-whole e' fits')),
      )
