-- ===== src/Retry/Shift.antt =====
-- The wrap-around of the shift in `Backoff` of retry.go: the bits below the count are zero.
use native.Mathlib.Nat.{
  mod-eq-sub-mul-div, mul-sub, mul_assoc, mul_comm, mul_left_comm, pow-suc, add-suc, mul-mod_right,
  mul-one,
}
use native.Mathlib.Numerals.{unary_clauses}
use go_adcore.Common.{
  ℕ, zero, suc, ◌+◌, ◌-◌, ◌*◌, ◌/◌, ◌%◌, ◌^◌, ◌≤◌, ◌<◌, ◌≡◌, ◌⊎◌, inl, inr, refl, sym, ap, ◌∙◌,
  arith, leb, Bool-cases,
}

pow-add : (b m n : ℕ) → b ^ (m + n) ≡ b ^ m * b ^ n
pow-add b m zero = simp unary_clauses (sym (mul-one (b ^ m)))
pow-add b m (suc n) =
    rw add-suc (pow-suc b (m + n))
    ∙ ap (λ x. x * b) (pow-add b m n)
    ∙ mul_assoc (b ^ m) (b ^ n) b
    ∙ ap (λ x. b ^ m * x) (sym (pow-suc b n))

-- What is left of a multiple of `p`, modulo another, is a multiple of it.
mod_multiple : (i p r : ℕ) → i * p % (p * r) ≡ p * (i - r * (i * p / (p * r)))
mod_multiple i p r =
    mod-eq-sub-mul-div (i * p) (p * r)
    ∙ ap (λ x. x - p * r * (i * p / (p * r))) (mul_comm i p)
    ∙ ap (λ x. p * i - x) (mul_assoc p r (i * p / (p * r)))
    ∙ sym (mul-sub p i (r * (i * p / (p * r))))

none_or_more : (p t : ℕ) → (p * t ≡ 0) ⊎ (p ≤ p * t)
none_or_more p zero = inl (simp unary_clauses refl)
none_or_more p (suc t) = inr (simp unary_clauses (omega arith))

multiple_or_zero : (i p r w : ℕ) → w ≡ p * r → (i * p % w ≡ 0) ⊎ (p ≤ i * p % w)
multiple_or_zero i p r w e = rw (e, mod_multiple i p r) (none_or_more p _)

shifted_out : (i k : ℕ) → i * 2 ^ (64 + k) % 2 ^ 64 ≡ 0
shifted_out i k =
    ap (λ x. i * x % 2 ^ 64) (pow-add 2 64 k)
    ∙ ap (λ x. x % 2 ^ 64) (mul_left_comm i (2 ^ 64) (2 ^ k))
    ∙ mul-mod_right (2 ^ 64) (i * 2 ^ k)

pub le-or-lt : (a b : ℕ) → (a ≤ b) ⊎ (b < a)
le-or-lt a b = elim (Bool-cases (leb a b)) [
  | inl h ↦ inl (ground arith)
  | inr h ↦ inr (ground arith)
]

-- A shift by `n` leaves nothing, or at least the bit `n`.
pub shifted_word : (i n : ℕ) → (i * 2 ^ n % 2 ^ 64 ≡ 0) ⊎ (2 ^ n ≤ i * 2 ^ n % 2 ^ 64)
shifted_word i n = elim (le-or-lt n 64) [
  | inl h ↦
      let split : 64 ≡ n + (64 - n) = omega arith in
      multiple_or_zero i (2 ^ n) (2 ^ (64 - n)) (2 ^ 64)
        (ap (λ x. 2 ^ x) split ∙ pow-add 2 n (64 - n))
  | inr h ↦
      let split : n ≡ 64 + (n - 64) = omega arith in
      inl (ap (λ x. i * 2 ^ x % 2 ^ 64) split ∙ shifted_out i (n - 64))
]
