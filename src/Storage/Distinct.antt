-- ===== src/Storage/Distinct.antt =====
-- That objects of different keys are different objects (internal/storage/keys.go).
use mathlib.Core.Option.{some-injective}
use strato.Prelude.{
  ℕ, zero, suc, ◌-◌, ◌≤◌, ◌≡◌, refl, sym, ap, ◌∙◌, List, [], ◌∷◌, ◌++◌, Option, some, length, take,
  drop, All-map, arith, append-nil,
}
use strato.Encoding.Decimal.{format, scan_digits}
use strato.Encoding.Decimal.RoundTrip.{format-All, scan_digits-format}
use strato.Encoding.Split.{split, join, split-join, Lacks}
use strato.Entity.Account.{Text}
use strato.Entity.Storage.{Key, blob_key, chunk_key}
use strato.Storage.{zeros, padded, key_text}

zeros-Lacks : (n : ℕ) (s : Text) → Lacks b'/' s → Lacks b'/' (zeros n s)
unfolding zeros
zeros-Lacks zero s h = h
zeros-Lacks (suc n) s h = (refl, zeros-Lacks n s h)

padded-Lacks : (n : ℕ) → Lacks b'/' (padded n)
unfolding padded
padded-Lacks n =
    zeros-Lacks (6 - length (format n)) (format n)
      (All-map _ _ (format n) (λ c h. ground arith) (format-All n))

scan_digits-zeros : (n : ℕ) (s : Text) → scan_digits 0 (zeros n s) ≡ scan_digits 0 s
unfolding scan_digits zeros
scan_digits-zeros zero s = refl
scan_digits-zeros (suc n) s = scan_digits-zeros n s

scan_digits-padded : (n : ℕ) → (scan_digits 0 (padded n)).0 ≡ n
unfolding padded
scan_digits-padded n =
    ap (λ (r : ℕ × Text). r.0)
      (scan_digits-zeros (6 - length (format n)) (format n)
        ∙ ap (scan_digits 0) (sym (append-nil (format n)))
        ∙ scan_digits-format n [] tt)

first_byte : Text → ℕ
first_byte [] = 0
first_byte (c ∷ s) = c

part : ℕ → List Text → Text
part n [] = []
part zero (p ∷ ps) = p
part (suc n) (p ∷ ps) = part n ps

-- The digest behind the directories of a blob.
blob_tail :
    (h : Text) → 4 ≤ length h → drop 6 (take 2 h ++ b'/' ∷ take 2 (drop 2 h) ++ b'/' ∷ h) ≡ h
blob_tail [] e = absurd (omega arith)
blob_tail (a ∷ []) e = absurd (omega arith)
blob_tail (a ∷ b ∷ []) e = absurd (omega arith)
blob_tail (a ∷ b ∷ c ∷ []) e = absurd (omega arith)
blob_tail (a ∷ b ∷ c ∷ d ∷ h) e = refl

-- Different keys have different texts, so that no object stands for two of them: digests have at least four
-- characters and are read back from them, as are UUIDs, which have no slash.
pub key_text-injective :
    (hex uuid_text : ℕ → Text) (unhex parse_uuid : Text → Option ℕ) (a b : Key)
    → ((d : ℕ) → unhex (hex d) ≡ some d)
    → ((d : ℕ) → 4 ≤ length (hex d))
    → ((id : ℕ) → parse_uuid (uuid_text id) ≡ some id)
    → ((id : ℕ) → Lacks b'/' (uuid_text id))
    → key_text hex uuid_text a ≡ key_text hex uuid_text b
    → a ≡ b
unfolding key_text first_byte join part
key_text-injective hex uuid_text unhex parse_uuid (blob_key c) (blob_key d) reads long parses plain
      e =
    let tails : hex c ≡ hex d =
      sym (blob_tail (hex c) (long c)) ∙ ap (λ t. drop 12 t) e ∙ blob_tail (hex d) (long d) in
    ap blob_key (some-injective c d (sym (reads c) ∙ ap unhex tails ∙ reads d))
key_text-injective hex uuid_text unhex parse_uuid (blob_key c) (chunk_key s i) reads long parses
      plain e =
    let apart : ◌≡◌ {A = ℕ} b'b' b's' = ap first_byte e in absurd (omega arith)
key_text-injective hex uuid_text unhex parse_uuid (chunk_key s i) (blob_key c) reads long parses
      plain e =
    let apart : ◌≡◌ {A = ℕ} b's' b'b' = ap first_byte e in absurd (omega arith)
key_text-injective hex uuid_text unhex parse_uuid (chunk_key s i) (chunk_key t j) reads long parses
      plain e =
    let parts =
      sym (split-join b'/' (uuid_text s) (padded i ∷ []) (plain s) (padded-Lacks i, tt))
      ∙ ap (λ k. split b'/' (drop 8 k)) e
      ∙ split-join b'/' (uuid_text t) (padded j ∷ []) (plain t) (padded-Lacks j, tt) in
    let session : s ≡ t =
      some-injective s t (sym (parses s) ∙ ap (λ ps. parse_uuid (part 0 ps)) parts ∙ parses t) in
    let index : i ≡ j =
      sym (scan_digits-padded i)
      ∙ ap (λ ps. (scan_digits 0 (part 1 ps)).0) parts
      ∙ scan_digits-padded j in
    ap (λ k. chunk_key k i) session ∙ ap (λ k. chunk_key t k) index
