-- ===== src/Entity/Chunks.antt =====
-- The chunks of an upload session cover its size exactly (internal/entity/upload.go, and the count
-- of internal/usecase/upload_uc.go).
use native.Mathlib.Decide.{ℕ_discrete}
use native.Mathlib.Nat.{div-add-mod', mod-lt, div-eq_of_lt-le}
use strato.Prelude.{
  ℕ, zero, suc, ◌+◌, ◌-◌, ◌*◌, ◌/◌, ◌%◌, ◌<◌, ◌≡◌, refl, ap, ◌∙◌, arith, ◌==◌, if◌then◌else◌,
}
use strato.Entity.Upload.{UploadSession, expected_chunk_size, chunk_count}

-- The bytes expected in the first `n` chunks.
abbrev pub expected_total : UploadSession → ℕ → ℕ
expected_total u zero = 0
expected_total u (suc n) = expected_total u n + expected_chunk_size u n

expected_total-full :
    (u : UploadSession) (n : ℕ) → n < u.total_chunks → expected_total u n ≡ n * u.chunk_size
unfolding expected_chunk_size
expected_total-full u zero h = omega arith
expected_total-full u (suc n) h = ground (arith, expected_total-full u n)

-- With q and r the quotient and the rest of size by chunk_size, the count is q, or q + 1 if r > 0.
chunk_count_lem :
    (size chunk_size : ℕ)
    → 0 < chunk_size
    → chunk_count size chunk_size
      ≡ (if size % chunk_size == 0 then size / chunk_size else suc (size / chunk_size))
unfolding chunk_count
chunk_count_lem size chunk_size pos = elim (ℕ_discrete (size % chunk_size) 0) [
  | yes e ↦ ground (
    arith,
    div-eq_of_lt-le {k = q} chunk_size {m = size + chunk_size - 1} (omega (arith, whole))
        (omega (arith, whole)),
  )
  | no ne ↦ ground (
    arith,
    div-eq_of_lt-le {k = suc q} chunk_size {m = size + chunk_size - 1} (omega (arith, whole))
        (omega (arith, whole, small)),
  )
]
  where
    q : ℕ
    q = size / chunk_size

    whole : q * chunk_size + size % chunk_size ≡ size
    whole = div-add-mod' size chunk_size

    small : size % chunk_size < chunk_size
    small = mod-lt size pos

expected_last :
    (u : UploadSession) (n : ℕ)
    → suc n ≡ u.total_chunks
    → expected_chunk_size u n
      ≡ (if u.size_bytes % u.chunk_size == 0 then u.chunk_size else u.size_bytes % u.chunk_size)
unfolding expected_chunk_size
expected_last u n e = ground arith

-- The chunks that a session with the count of `InitUpload` expects have together exactly the size
-- that was declared, for a size and a chunk size that are not 0.
pub expected_total-size :
    (u : UploadSession)
    → 0 < u.size_bytes
    → 0 < u.chunk_size
    → u.total_chunks ≡ chunk_count u.size_bytes u.chunk_size
    → expected_total u u.total_chunks ≡ u.size_bytes
expected_total-size u size pos e = go u.total_chunks refl
  where
    whole : u.size_bytes / u.chunk_size * u.chunk_size + u.size_bytes % u.chunk_size ≡ u.size_bytes
    whole = div-add-mod' u.size_bytes u.chunk_size

    count : u.total_chunks ≡ (
        if u.size_bytes % u.chunk_size == 0
        then u.size_bytes / u.chunk_size
        else suc (u.size_bytes / u.chunk_size))
    count = e ∙ chunk_count_lem u.size_bytes u.chunk_size pos

    go : (n : ℕ) → u.total_chunks ≡ n → expected_total u n ≡ u.size_bytes
    go zero z = grind (arith, whole, count)
    go (suc n) z =
        let full = expected_total-full u n (omega arith) in
        let last = expected_last u n (omega arith) in
        let q = u.size_bytes / u.chunk_size in
        elim (ℕ_discrete (u.size_bytes % u.chunk_size) 0) [
          | yes r ↦
              let m : suc n ≡ q = ground (arith, count) in
              let product = ap (λ (t : ℕ). t * u.chunk_size) m in
              ground (arith, whole, full, last, product)
          | no r ↦
              let m : n ≡ q = ground (arith, count) in
              let product = ap (λ (t : ℕ). t * u.chunk_size) m in
              ground (arith, whole, full, last, product)
        ]
