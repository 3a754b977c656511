-- ===== src/Locks/Exclusion.antt =====
-- Mutual exclusion of the `KeyedMutex` of locks.go.
use go_adcore.Common.{ℕ, zero, suc, ◌≤◌, ◌≡◌, List, ◌∷◌, ◌++◌, All, arith, inl, inr, Option-cases}
use go_adcore.Bytes.{Bytes}
use go_adcore.Locks.{
  KeyedMutex, new_keyed_mutex, enter, Pc, idle, waiting, holding, System, system, Step, entered,
  locked, unlocked, left, all_idle, Reach, start, later,
}
use go_adcore.Maps.{lookup}
use go_adcore.Locks.Invariant.{total, total-append, holds, Active, bit_le, Inv, All-parts}
use go_adcore.Locks.Entering.{locked-Inv, unlocked-Inv, known-Inv, fresh-Inv}
use go_adcore.Locks.Leaving.{leave-Inv}

enter-Inv :
    (k : KeyedMutex) (key : Bytes) (before after : List Pc)
    → Inv (system k before idle after)
    → Inv (system (enter k key).1 before (waiting key (enter k key).0) after)
unfolding enter
enter-Inv k key before after i = elim (Option-cases (lookup k.table key)) [
  | inl e ↦ rw (e, enter) (fresh-Inv k key k.next before after e i)
  | inr (p, e) ↦ rw (e, enter) (known-Inv k key p before after e i)
]

pub Step-Inv : {s t : System} → Step s t → Inv s → Inv t
Step-Inv (entered k key before after) i = enter-Inv k key before after i
Step-Inv (locked k key p before after free) i = locked-Inv k key p before after free i
Step-Inv (unlocked k key p before after) i = unlocked-Inv k key p before after i
Step-Inv (left k key p before after) i = leave-Inv k key p before after i

idle-Active : (n : ℕ) → All (Active new_keyed_mutex) (all_idle n)
idle-Active zero = tt
idle-Active (suc n) = (tt, idle-Active n)

pub Reach-Inv : {n : ℕ} {s : System} → Reach n s → Inv s
unfolding lookup
Reach-Inv {n = n} start = record {
  bounded = λ key p h. cc;
  active = idle-Active n;
  counted = λ p h. absurd (omega arith);
  held = λ p h. absurd (omega arith);
}
Reach-Inv (later r s) = Step-Inv s (Reach-Inv r)

two_holders :
    (p q : ℕ) (key : Bytes) (before between after : List Pc)
    → p ≡ q
    → 2 ≤ total (holds p) (before ++ holding key p ∷ (between ++ holding key q ∷ after))
two_holders p q key before between after e = ground (
  arith,
  total-append (holds p) before (holding key p ∷ (between ++ holding key q ∷ after)),
  total-append (holds p) between (holding key q ∷ after),
)

-- However the goroutines are interleaved, no two of them hold the same key at once.
pub keyed_mutex_excludes :
    (n : ℕ) (k : KeyedMutex) (key : Bytes) (p q : ℕ) (before between after : List Pc)
    → ¬ Reach n (record {
      mutex = k;
      threads = before ++ holding key p ∷ (between ++ holding key q ∷ after);
    })
keyed_mutex_excludes n k key p q before between after r =
    let i = Reach-Inv r in
    let (a, b, c) = All-parts k before (holding key p) _ i.active in
    let (d, e, f) = All-parts k between (holding key q) after c in
    let one_entry : p ≡ q = ground (arith, b.0, e.0) in
    absurd (
      omega (
        arith,
        two_holders p q key before between after one_entry,
        i.held p b.1,
        bit_le (k.heap p).locked,
      ))
