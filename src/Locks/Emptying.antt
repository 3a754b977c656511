-- ===== src/Locks/Emptying.antt =====
-- No entry of the `KeyedMutex` of locks.go outlives the goroutines that have its pointer.
use go_adcore.Common.{
  ℕ, zero, suc, ◌-◌, ◌≤◌, ◌≡◌, ◌≢◌, refl, ap, ◌∙◌, Bool, true, false, List, [], ◌∷◌, ◌++◌, some,
  ◌==◌, length, arith, Bool-cases, inl, inr, Option-cases,
}
use go_adcore.Bytes.{Bytes, equal_iff}
use go_adcore.Locks.{
  KeyedMutex, enter, leave, set_locked, size, Pc, idle, waiting, holding, leaving, System, system,
  Step, entered, locked, unlocked, left, all_idle, Reach, start, later,
}
use go_adcore.Maps.{lookup, delete_key}
use go_adcore.Locks.Invariant.{total, points, replace, Inv, All-parts}
use go_adcore.Locks.Entering.{more}
use go_adcore.Locks.Leaving.{lookup_deleted, delete_bound, leaving_counts}
use go_adcore.Locks.Exclusion.{Reach-Inv}

-- Every key has an entry of its own, and every entry a goroutine.
pub record Used (s : System) : Type 0 where
  pub apart :
      (x y : Bytes) (p : ℕ)
      → lookup s.mutex.table x ≡ some p
      → lookup s.mutex.table y ≡ some p
      → x ≡ y
  pub used : (x : Bytes) (p : ℕ) → lookup s.mutex.table x ≡ some p → 1 ≤ total (points p) s.threads

locked-Used :
    (k : KeyedMutex) (key : Bytes) (p : ℕ) (b : Bool) (before after : List Pc) (t t' : Pc)
    → ((q : ℕ) → points q t ≡ points q t')
    → Used (system k before t after)
    → Used (system (set_locked k p b) before t' after)
unfolding set_locked
locked-Used k key p b before after t t' same_points v = record {
  apart = v.apart;
  used = λ x q h. omega (arith, v.used x q h, replace (points q) before after t t', same_points q);
}

more-Used :
    (k : KeyedMutex) (key : Bytes) (p : ℕ) (before after : List Pc)
    → Used (system k before idle after)
    → Used (system (more k key p before after) before (waiting key p) after)
more-Used k key p before after v = record {
  apart = v.apart;
  used =
      λ x q h. ground (arith, v.used x q h, replace (points q) before after idle (waiting key p));
}

fresh_apart :
    (k : KeyedMutex) (key : Bytes) (p : ℕ) (before after : List Pc)
    → Inv (system k before idle after)
    → Used (system k before idle after)
    → (x y : Bytes) (q : ℕ) → lookup ((key, k.next) ∷ k.table) x ≡ some q
    → lookup ((key, k.next) ∷ k.table) y ≡ some q
    → x ≡ y
unfolding lookup
fresh_apart k key p before after i v x y q h l =
    ground (arith, equal_iff key x, equal_iff key y, i.bounded x q, i.bounded y q, v.apart x y q)

fresh-Used :
    (k : KeyedMutex) (key : Bytes) (before after : List Pc)
    → Used (system k before idle after)
    → (x : Bytes) (q : ℕ) → lookup ((key, k.next) ∷ k.table) x ≡ some q
    → 1 ≤ total (points q) (before ++ waiting key k.next ∷ after)
unfolding lookup
fresh-Used k key before after v x q h =
    ground (arith, v.used x q, replace (points q) before after idle (waiting key k.next))

-- Behind the last goroutine of an entry the key is gone, and no other key had the entry.
last-Used :
    (k : KeyedMutex) (key : Bytes) (p : ℕ) (before after : List Pc)
    → lookup k.table key ≡ some p
    → Used (system k before (leaving key p) after)
    → (x : Bytes) (q : ℕ) → lookup (delete_key k.table key) x ≡ some q
    → 1 ≤ total (points q) (before ++ idle ∷ after)
last-Used k key p before after e v x q h =
    let was = delete_bound k key p before after k.table x q h in
    let other : q ≢ p = λ s.
      let gone = ap (lookup (delete_key k.table key)) (v.apart x key p (was ∙ ap some s) e) in
      cc (h, gone, lookup_deleted k key p before after k.table) in
    ground (arith, v.used x q was, replace (points q) before after (leaving key p) idle)

leave-Used :
    (k : KeyedMutex) (key : Bytes) (p : ℕ) (before after : List Pc)
    → Inv (system k before (leaving key p) after)
    → Used (system k before (leaving key p) after)
    → Used (system (leave k key p) before idle after)
unfolding leave
leave-Used k key p before after i v = elim (Bool-cases ((k.heap p).refs - 1 == 0)) [
  | inl e ↦
      let (a, b, c) = All-parts k before (leaving key p) after i.active in
      rw e (record {
        apart = λ x y q h l.
            v.apart x y q (delete_bound k key p before after k.table x q h)
              (delete_bound k key p before after k.table y q l);
        used = last-Used k key p before after b.0 v;
      })
  | inr e ↦
      let (m, n) = leaving_counts k key p before after i in
      rw e (record {
        apart = v.apart;
        used = λ x q h.
            ground
              (arith, v.used x q h, replace (points q) before after (leaving key p) idle, m, n);
      })
]

enter-Used :
    (k : KeyedMutex) (key : Bytes) (before after : List Pc)
    → Inv (system k before idle after)
    → Used (system k before idle after)
    → Used (system (enter k key).1 before (waiting key (enter k key).0) after)
unfolding enter
enter-Used k key before after i v = elim (Option-cases (lookup k.table key)) [
  | inl e ↦
      rw (e, enter)
        (record {
          apart = fresh_apart k key k.next before after i v;
          used = fresh-Used k key before after v;
        })
  | inr (p, e) ↦ rw (e, enter) (more-Used k key p before after v)
]

Step-Used : {s t : System} → Step s t → Inv s → Used s → Used t
Step-Used (entered k key before after) i v = enter-Used k key before after i v
Step-Used (locked k key p before after free) i v =
    locked-Used k key p true before after (waiting key p) (holding key p) (λ q. refl) v
Step-Used (unlocked k key p before after) i v =
    locked-Used k key p false before after (holding key p) (leaving key p) (λ q. refl) v
Step-Used (left k key p before after) i v = leave-Used k key p before after i v

Reach-Used : {n : ℕ} {s : System} → Reach n s → Used s
unfolding lookup
Reach-Used start = record { apart = λ x y p h l. cc; used = λ x p h. cc }
Reach-Used (later r s) = Step-Used s (Reach-Inv r) (Reach-Used r)

idle_points : (p m : ℕ) → total (points p) (all_idle m) ≡ 0
idle_points p zero = refl
idle_points p (suc m) = omega (arith, idle_points p m)

-- Once no goroutine is left in `Lock` or in what it returned, the table is empty, whatever the
-- interleaving was: no key leaks.
pub idle_keyed_mutex_size :
    (n m : ℕ) (k : KeyedMutex) → Reach n (record { mutex = k; threads = all_idle m }) → size k ≡ 0
unfolding size lookup
idle_keyed_mutex_size n m k r = go k.table (λ x p h. (Reach-Used r).used x p h)
  where
    go :
        (table : List (Bytes × ℕ))
        → ((x : Bytes) (p : ℕ) → lookup table x ≡ some p → 1 ≤ total (points p) (all_idle m))
        → length table ≡ 0
    go [] u = refl
    go ((x, p) ∷ table) u =
        absurd (omega (arith, u x p (rw ((equal_iff x x).1 refl) refl), idle_points p m))
