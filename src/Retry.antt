-- ===== src/Retry.antt =====
-- retry.go: the retry settings and the delay between attempts. A `time.Duration` is an int64.
-- Floating point, the random number, the timer and the context are parameters.
pub mod Shift
pub mod Delay
use mathlib.Core.List.{[]}
use go_adcore.Common.{
  ℕ, zero, suc, ◌-◌, ◌*◌, ◌%◌, ◌^◌, Bool, true, false, not, ◌||◌, Option, none, some, ltb,
  if◌then◌else◌, ℤ, pos, negsuc, is_positive,
}
use go_adcore.Errors.{GoError, nil, transport}
use go_adcore.Spec.{new_error}

-- `float64`
pub record Floats : Type 1 where
  pub Float : Type 0
  pub lt : Float → Float → Bool
  pub literal : ℕ → Float
  pub one_fifth : Float
  pub of_int : ℤ → Float
  pub to_int : Float → ℤ
  pub add : Float → Float → Float
  pub sub : Float → Float → Float
  pub mul : Float → Float → Float

-- `<` on int64
abbrev pub lt_int : ℤ → ℤ → Bool
lt_int (pos m) (pos n) = ltb m n
lt_int (pos m) (negsuc n) = false
lt_int (negsuc m) (pos n) = true
lt_int (negsuc m) (negsuc n) = ltb n m

-- an int64 as the word of its two's complement, and back
abbrev pub word_of_int : ℤ → ℕ
word_of_int (pos n) = n % 2 ^ 64
word_of_int (negsuc n) = 2 ^ 64 - 1 - n % 2 ^ 64

abbrev pub int_of_word : ℕ → ℤ
int_of_word w = if ltb w (2 ^ 63) then pos w else negsuc (2 ^ 64 - 1 - w)

-- `d << n` on int64
unfoldable pub shift_left : ℤ → ℕ → ℤ
shift_left d n = int_of_word (word_of_int d * 2 ^ n % 2 ^ 64)

-- how `select` ends: the context with the error of its cancellation, or the timer
pub data Wakeup : Type 0 where
  cancelled : GoError → Wakeup
  fired : Wakeup

module _ (f : Floats) where
  -- `type RetryConfig`
  pub record RetryConfig : Type 0 where
    pub max_attempts : ℤ
    pub initial_backoff : ℤ
    pub max_backoff : ℤ
    pub jitter : f.Float

  -- `func (r RetryConfig) WithDefaults`
  unfoldable pub with_defaults : RetryConfig → RetryConfig
  with_defaults r = record {
    max_attempts = if is_positive r.max_attempts then r.max_attempts else pos 4;
    initial_backoff = if is_positive r.initial_backoff then r.initial_backoff else pos 250000000;
    max_backoff = if is_positive r.max_backoff then r.max_backoff else pos 5000000000;
    jitter =
        if f.lt r.jitter (f.literal 0) || f.lt (f.literal 1) r.jitter
        then f.one_fifth
        else r.jitter;
  }

  -- the delay of `Backoff` before the jitter, for the shift by `attempt - 1`
  unfoldable pub capped_delay : RetryConfig → ℕ → ℤ
  capped_delay cfg n =
      let d = shift_left cfg.initial_backoff n in
      if lt_int cfg.max_backoff d || not (is_positive d) then cfg.max_backoff else d

  -- the jitter, for the value of `rand.Float64()`
  unfoldable pub jittered : RetryConfig → f.Float → ℤ → ℤ
  jittered cfg random d =
      let spread = f.mul (f.of_int d) cfg.jitter in
      if f.lt (f.literal 0) cfg.jitter
      then f.to_int (f.add (f.sub (f.of_int d) spread) (f.mul (f.mul random (f.literal 2)) spread))
      else d

  -- `func Backoff`: the duration of the timer and the error returned; none is the panic of a shift
  -- by a negative count.
  unfoldable pub backoff : f.Float → Wakeup → RetryConfig → ℤ → Option (ℤ × GoError)
  backoff random wake cfg (negsuc n) = none
  backoff random wake cfg (pos zero) = none
  backoff random wake cfg (pos (suc n)) = some (
    jittered cfg random (capped_delay cfg n),
    elim wake [ cancelled e ↦ new_error transport [] e | fired ↦ nil ],
  )
