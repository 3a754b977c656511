-- ===== src/Locks/Draining.antt =====
-- Progress of the goroutines of locks.go: who has called `Lock` gets the key, unlocks it and is done.
use go_adcore.Common.{
  ℕ, zero, suc, ◌+◌, ◌*◌, ◌≤◌, ◌≡◌, refl, sym, ap, ◌∙◌, Bool, true, false, List, [], ◌∷◌, ◌++◌,
  length, length-append, ◌⊎◌, inl, inr, arith,
}
use mathlib.Core.Path.{subst}
use go_adcore.Bytes.{Bytes}
use go_adcore.Locks.{
  KeyedMutex, size, Pc, idle, waiting, holding, leaving, System, system, Step, entered, locked,
  unlocked, left, all_idle, Reach, start, later,
}
use go_adcore.Locks.Invariant.{total, replace, holds, bit, Inv, All-parts}
use go_adcore.Locks.Exclusion.{Reach-Inv}
use go_adcore.Locks.Emptying.{idle_keyed_mutex_size}

-- the steps that a goroutine is from being idle again
abbrev pub steps_left : Pc → ℕ
steps_left idle = 0
steps_left (waiting key p) = 3
steps_left (holding key p) = 2
steps_left (leaving key p) = 1

abbrev pub work : System → ℕ
work s = total steps_left s.threads

-- the step is the start of a call of `Lock`
abbrev pub enters : {s t : System} → Step s t → Bool
enters (entered k key before after) = true
enters (locked k key p before after free) = false
enters (unlocked k key p before after) = false
enters (left k key p before after) = false

-- a schedule of `m` steps, in which no goroutine calls `Lock` anew
pub data Run : ℕ → System → System → Type 0 where
  stay : {s : System} → Run zero s s
  onward :
      {m : ℕ} {s t v : System}
      → Run m s t
      → (step : Step t v) → enters step ≡ false
      → Run (suc m) s v

-- what the goroutines show of where the next step is
data Sight (l : List Pc) : Type 0 where
  quiet : l ≡ all_idle (length l) → ((q : ℕ) → total (holds q) l ≡ 0) → Sight l
  holder :
      (key : Bytes) (p : ℕ) (before after : List Pc) → l ≡ before ++ holding key p ∷ after → Sight l
  leaver :
      (key : Bytes) (p : ℕ) (before after : List Pc) → l ≡ before ++ leaving key p ∷ after → Sight l
  waiter :
      (key : Bytes) (p : ℕ) (before after : List Pc)
      → l ≡ before ++ waiting key p ∷ after
      → ((q : ℕ) → total (holds q) l ≡ 0)
      → Sight l

-- A goroutine that holds nothing stands before the others.
idle-Sight : (l : List Pc) → Sight l → Sight (idle ∷ l)
idle-Sight l (quiet e z) = quiet (ap (λ m. idle ∷ m) e) (λ q. omega (arith, z q))
idle-Sight l (holder key p before after e) =
    holder key p (idle ∷ before) after (ap (λ m. idle ∷ m) e)
idle-Sight l (leaver key p before after e) =
    leaver key p (idle ∷ before) after (ap (λ m. idle ∷ m) e)
idle-Sight l (waiter key p before after e z) =
    waiter key p (idle ∷ before) after (ap (λ m. idle ∷ m) e) (λ q. omega (arith, z q))

waiting-Sight : (k : Bytes) (a : ℕ) (l : List Pc) → Sight l → Sight (waiting k a ∷ l)
waiting-Sight k a l (quiet e z) = waiter k a [] l refl (λ q. omega (arith, z q))
waiting-Sight k a l (holder key p before after e) =
    holder key p (waiting k a ∷ before) after (ap (λ m. waiting k a ∷ m) e)
waiting-Sight k a l (leaver key p before after e) =
    leaver key p (waiting k a ∷ before) after (ap (λ m. waiting k a ∷ m) e)
waiting-Sight k a l (waiter key p before after e z) = waiter k a [] l refl (λ q. omega (arith, z q))

sight : (l : List Pc) → Sight l
sight [] = quiet refl (λ q. refl)
sight (idle ∷ l) = idle-Sight l (sight l)
sight (waiting k a ∷ l) = waiting-Sight k a l (sight l)
sight (holding k a ∷ l) = holder k a [] l refl
sight (leaving k a ∷ l) = leaver k a [] l refl

-- All goroutines are idle, or one of them can take a step of its call.
pub CanMove : System → Type 0
CanMove t = (v : System) × (step : Step t v) × (enters step ≡ false)

abbrev at : KeyedMutex → List Pc → System
at k l = record { mutex = k; threads = l }

waiter-moves :
    (k : KeyedMutex) (key : Bytes) (p : ℕ) (before after : List Pc)
    → Inv (system k before (waiting key p) after)
    → ((q : ℕ) → total (holds q) (before ++ waiting key p ∷ after) ≡ 0)
    → CanMove (system k before (waiting key p) after)
unfolding CanMove
waiter-moves k key p before after i z =
    let (a, listed, b) = All-parts k before (waiting key p) after i.active in
    let none_holds : bit (k.heap p).locked ≡ 0 = i.held p listed.1 ∙ z p in
    (_, locked k key p before after (ground (arith, none_holds)), refl)

moves :
    (k : KeyedMutex) (l : List Pc)
    → Inv (at k l)
    → Sight l
    → (l ≡ all_idle (length l)) ⊎ CanMove (at k l)
unfolding CanMove
moves k l i (quiet e z) = inl e
moves k l i (holder key p before after e) =
    inr (subst (λ m. CanMove (at k m)) (sym e) (_, unlocked k key p before after, refl))
moves k l i (leaver key p before after e) =
    inr (subst (λ m. CanMove (at k m)) (sym e) (_, left k key p before after, refl))
moves k l i (waiter key p before after e z) = inr (
    subst (λ m. CanMove (at k m)) (sym e)
      (waiter-moves k key p before after (subst (λ m. Inv (at k m)) e i)
        (subst (λ m. (q : ℕ) → total (holds q) m ≡ 0) e z)))

Step-work : {s t : System} (step : Step s t) → enters step ≡ false → work s ≡ 1 + work t
Step-work (entered k key before after) e = cc
Step-work (locked k key p before after free) e =
    omega (arith, replace steps_left before after (waiting key p) (holding key p))
Step-work (unlocked k key p before after) e =
    omega (arith, replace steps_left before after (holding key p) (leaving key p))
Step-work (left k key p before after) e =
    omega (arith, replace steps_left before after (leaving key p) idle)

Run-work : {m : ℕ} {s t : System} → Run m s t → m + work t ≡ work s
Run-work stay = omega arith
Run-work (onward r step e) = omega (arith, Run-work r, Step-work step e)

Run-Reach : {n m : ℕ} {s t : System} → Reach n s → Run m s t → Reach n t
Run-Reach r stay = r
Run-Reach r (onward run step e) = later (Run-Reach r run) step

threads_le : (l : List Pc) → total steps_left l ≤ 3 * length l
threads_le [] = omega arith
threads_le (idle ∷ l) = omega (arith, threads_le l)
threads_le (waiting k p ∷ l) = omega (arith, threads_le l)
threads_le (holding k p ∷ l) = omega (arith, threads_le l)
threads_le (leaving k p ∷ l) = omega (arith, threads_le l)

length-replace :
    (before after : List Pc) (t t' : Pc)
    → length (before ++ t' ∷ after) ≡ length (before ++ t ∷ after)
length-replace before after t t' =
    length-append before (t' ∷ after) ∙ sym (length-append before (t ∷ after))

Step-length : {s t : System} → Step s t → length t.threads ≡ length s.threads
Step-length (entered k key before after) = length-replace before after _ _
Step-length (locked k key p before after free) = length-replace before after _ _
Step-length (unlocked k key p before after) = length-replace before after _ _
Step-length (left k key p before after) = length-replace before after _ _

length-all_idle : (n : ℕ) → length (all_idle n) ≡ n
length-all_idle zero = refl
length-all_idle (suc n) = ap suc (length-all_idle n)

Reach-length : {n : ℕ} {s : System} → Reach n s → length s.threads ≡ n
Reach-length {n = n} start = length-all_idle n
Reach-length (later r step) = Step-length step ∙ Reach-length r

idle_work : (n : ℕ) → total steps_left (all_idle n) ≡ 0
idle_work zero = refl
idle_work (suc n) = omega (arith, idle_work n)

-- From every state that `n` goroutines reach, however they are scheduled from there on, if none of
-- them calls `Lock` anew: the number of steps taken and of those still to take add up to the same
-- number, which is at most `3 * n`, so that every schedule ends. At any point of it some goroutine can
-- take a step, unless all are idle, with no step left, and the table of the keys is empty.
pub keyed_mutex_drains :
    (n m : ℕ) (s t : System)
    → Reach n s
    → Run m s t
    → (m + work t ≡ work s)
      × (work s ≤ 3 * n)
      × (((t.threads ≡ all_idle n) × (work t ≡ 0) × (size t.mutex ≡ 0)) ⊎ CanMove t)
keyed_mutex_drains n m s t r run =
    let there = Run-Reach r run in
    let many = Reach-length there in
    (
      Run-work run,
      omega (arith, threads_le s.threads, Reach-length r),
      elim (moves t.mutex t.threads (Reach-Inv there) (sight t.threads)) [
        | inr move ↦ inr move
        | inl none_left ↦
            let all : t.threads ≡ all_idle n = none_left ∙ ap all_idle many in
            inl (
              all,
              ap (total steps_left) all ∙ idle_work n,
              idle_keyed_mutex_size n n t.mutex (subst (λ l. Reach n (at t.mutex l)) all there),
            )
      ],
    )
