-- ===== src/Retry/Delay.antt =====
-- What `Backoff` of retry.go waits for: the delay stays in its bounds, and is the doubling delay.
use native.Mathlib.Nat.{mul-le-mul_left, mul-le-mul_right, mod-eq_of_lt, one-le-pow, one-le-mul}
use go_adcore.Retry.Shift.{shifted_word, le-or-lt}
use go_adcore.Common.{
  ℕ, zero, suc, ◌*◌, ◌%◌, ◌^◌, ◌≤◌, ◌<◌, ◌≡◌, ◌⊎◌, inl, inr, refl, ap, ◌∙◌, ltb, if◌then◌else◌, not,
  ◌||◌, ℤ, pos, negsuc, is_positive, arith, Bool-cases,
}
use go_adcore.Retry.{
  Floats, RetryConfig, with_defaults, capped_delay, shift_left, lt_int, int_of_word,
}

abbrev cap : ℕ → ℤ → ℤ
cap m s = if lt_int (pos m) s || not (is_positive s) then pos m else s

cap_bounds : (m : ℕ) (s : ℤ) → 1 ≤ m → (d : ℕ) × (cap m s ≡ pos d) × (1 ≤ d) × (d ≤ m)
cap_bounds m (negsuc k) h = (m, refl, h, omega arith)
cap_bounds m (pos zero) h = (m, ground arith, h, omega arith)
cap_bounds m (pos (suc k)) h = elim (Bool-cases (ltb m (suc k))) [
  | inl e ↦ (m, ground arith, h, omega arith)
  | inr e ↦ (suc k, ground arith, omega arith, ground arith)
]

defaults_positive :
    (i : ℤ) (k : ℕ) → (m : ℕ) × ((if is_positive i then i else pos (suc k)) ≡ pos (suc m))
defaults_positive (pos zero) k = (k, refl)
defaults_positive (pos (suc n)) k = (n, refl)
defaults_positive (negsuc n) k = (k, refl)

cap_fitting :
    (m s : ℕ) → 1 ≤ s → s < 2 ^ 63 → cap m (int_of_word s) ≡ pos (if ltb m s then m else s)
cap_fitting m zero h k = absurd (omega arith)
cap_fitting m (suc s) h k = ground arith

cap_wrapped : (m w : ℕ) → (w ≡ 0) ⊎ (m < w) → cap m (int_of_word w) ≡ pos m
cap_wrapped m zero h = ground arith
cap_wrapped m (suc w) h = ground arith

if_lt : (m s : ℕ) → m < s → m ≡ (if ltb m s then m else s)
if_lt m s h = ground arith

-- A product that overflows has its second factor above the cap.
cap_below : (i n m : ℕ) → i * m < 2 ^ 63 → 2 ^ 63 ≤ i * 2 ^ n → m < 2 ^ n
cap_below i n m h wraps = elim (le-or-lt (2 ^ n) m) [
  | inl k ↦ absurd (omega (arith, mul-le-mul_left i k))
  | inr k ↦ k
]

cap_word :
    (i n m : ℕ)
    → 1 ≤ i
    → 1 ≤ m
    → i * m < 2 ^ 63
    → cap m (shift_left (pos i) n) ≡ pos (if ltb m (i * 2 ^ n) then m else i * 2 ^ n)
unfolding shift_left
cap_word i n m hi hm h =
    let le1 : i * 1 ≤ i * m = mul-le-mul_left i hm in
    let le2 : 1 * m ≤ i * m = mul-le-mul_right m hi in
    let small : i < 2 ^ 63 = omega (arith, le1) in
    let same : i % 2 ^ 64 ≡ i = mod-eq_of_lt (omega arith) in
    elim (le-or-lt (2 ^ 63) (i * 2 ^ n)) [
      | inr fits ↦
          let word : i * 2 ^ n % 2 ^ 64 ≡ i * 2 ^ n = mod-eq_of_lt (omega arith) in
          rw (same, word)
            (cap_fitting m (i * 2 ^ n) (one-le-mul hi (one-le-pow n 2 (omega arith))) fits)
      | inl wraps ↦ rw same (
          cap_wrapped m (i * 2 ^ n % 2 ^ 64) (elim (shifted_word i n) [
            | inl gone ↦ inl gone
            | inr more ↦ inr (omega (arith, cap_below i n m h wraps))
          ])
          ∙ ap pos (if_lt m (i * 2 ^ n) (omega (arith, le2))))
    ]

module _ (f : Floats) where
  -- With the defaults filled in, whatever the settings were and whatever the count of the shift,
  -- the delay before the jitter is positive and at most the cap.
  pub capped_delay_bounds :
      (cfg : RetryConfig f) (n : ℕ)
      → (m : ℕ) × (d : ℕ) × ((with_defaults f cfg).max_backoff ≡ pos m)
        × (capped_delay f (with_defaults f cfg) n ≡ pos d)
        × (1 ≤ d)
        × (d ≤ m)
  unfolding capped_delay with_defaults
  capped_delay_bounds cfg n =
      let (m, e) = defaults_positive cfg.max_backoff 4999999999 in
      let s =
        shift_left (if is_positive cfg.initial_backoff then cfg.initial_backoff else pos 250000000)
          n in
      let (d, e', h1, h2) = cap_bounds (suc m) s (omega arith) in (suc m, d, e, rw e e', h1, h2)

  -- Where the first delay and the cap are positive and their product fits an int64, the delay is the first delay
  -- doubled at each attempt, cut at the cap: the wrap-around of the shift never shows.
  pub capped_delay_lem :
      (cfg : RetryConfig f) (n i m : ℕ)
      → 1 ≤ i
      → 1 ≤ m
      → cfg.initial_backoff ≡ pos i
      → cfg.max_backoff ≡ pos m
      → i * m < 2 ^ 63
      → capped_delay f cfg n ≡ pos (if ltb m (i * 2 ^ n) then m else i * 2 ^ n)
  unfolding capped_delay
  capped_delay_lem cfg n i m hi hm ei em h = rw (ei, em) (cap_word i n m hi hm h)
