-- ===== src/Locks/Invariant.antt =====
-- What always holds of a `KeyedMutex` of locks.go and its goroutines: the entry of an active
-- goroutine is the one in the table, its count is that of the goroutines with its pointer, and its
-- mutex is held by at most one.
use go_adcore.Common.{
  ℕ, ◌+◌, ◌≤◌, ◌<◌, ◌≡◌, refl, Bool, true, false, List, [], ◌∷◌, ◌++◌, some, ◌==◌, if◌then◌else◌,
  All, arith,
}
use go_adcore.Bytes.{Bytes, equal, equal_iff}
use go_adcore.Locks.{KeyedMutex, Pc, idle, waiting, holding, leaving, System}
use go_adcore.Maps.{lookup, delete_key}

abbrev pub total : (Pc → ℕ) → List Pc → ℕ
total w [] = 0
total w (t ∷ l) = w t + total w l

pub total-append : (w : Pc → ℕ) (l m : List Pc) → total w (l ++ m) ≡ total w l + total w m
total-append w [] m = omega arith
total-append w (t ∷ l) m = omega (arith, total-append w l m)

abbrev pub same : ℕ → ℕ → ℕ
same p q = if q == p then 1 else 0

-- 1 where the goroutine has the pointer, and where it holds the mutex of the entry
abbrev pub points : ℕ → Pc → ℕ
points p idle = 0
points p (waiting k q) = same p q
points p (holding k q) = same p q
points p (leaving k q) = same p q

abbrev pub holds : ℕ → Pc → ℕ
holds p (holding k q) = same p q
holds p _ = 0

abbrev pub Listed : KeyedMutex → Bytes → ℕ → Type 0
Listed k key p = (lookup k.table key ≡ some p) × (p < k.next)

-- The entry of an active goroutine is the one in the table.
abbrev pub Active : KeyedMutex → Pc → Type 0
Active k idle = Unit
Active k (waiting key p) = Listed k key p
Active k (holding key p) = Listed k key p
Active k (leaving key p) = Listed k key p

abbrev pub bit : Bool → ℕ
bit b = if b then 1 else 0

pub bit_le : (b : Bool) → bit b ≤ 1
bit_le true = omega arith
bit_le false = omega arith

pub record Inv (s : System) : Type 0 where
  pub bounded : (key : Bytes) (p : ℕ) → lookup s.mutex.table key ≡ some p → p < s.mutex.next
  pub active : All (Active s.mutex) s.threads
  pub counted : (p : ℕ) → p < s.mutex.next → (s.mutex.heap p).refs ≡ total (points p) s.threads
  pub held : (p : ℕ) → p < s.mutex.next → bit (s.mutex.heap p).locked ≡ total (holds p) s.threads

pub lookup-delete_key :
    (table : List (Bytes × ℕ)) (key other : Bytes)
    → equal key other ≡ false
    → lookup (delete_key table key) other ≡ lookup table other
unfolding lookup delete_key
lookup-delete_key [] key other h = refl
lookup-delete_key ((k, p) ∷ table) key other h =
    ground (arith, lookup-delete_key table key other h, equal_iff k key, equal_iff k other)

pub points_zero : (k : KeyedMutex) (l : List Pc) → All (Active k) l → total (points k.next) l ≡ 0
points_zero k [] h = refl
points_zero k (idle ∷ l) h = omega (arith, points_zero k l h.1)
points_zero k (waiting key p ∷ l) h = ground (arith, points_zero k l h.1)
points_zero k (holding key p ∷ l) h = ground (arith, points_zero k l h.1)
points_zero k (leaving key p ∷ l) h = ground (arith, points_zero k l h.1)

pub holds_zero : (k : KeyedMutex) (l : List Pc) → All (Active k) l → total (holds k.next) l ≡ 0
holds_zero k [] h = refl
holds_zero k (idle ∷ l) h = omega (arith, holds_zero k l h.1)
holds_zero k (waiting key p ∷ l) h = omega (arith, holds_zero k l h.1)
holds_zero k (holding key p ∷ l) h = ground (arith, holds_zero k l h.1)
holds_zero k (leaving key p ∷ l) h = omega (arith, holds_zero k l h.1)

-- A change of the table that keeps what active goroutines look up.
pub Active-mono :
    (k k' : KeyedMutex) (l : List Pc)
    → ((key : Bytes) (p : ℕ) → Listed k key p → Listed k' key p)
    → All (Active k) l
    → All (Active k') l
Active-mono k k' [] f h = tt
Active-mono k k' (idle ∷ l) f h = (tt, Active-mono k k' l f h.1)
Active-mono k k' (waiting key p ∷ l) f h = (f key p h.0, Active-mono k k' l f h.1)
Active-mono k k' (holding key p ∷ l) f h = (f key p h.0, Active-mono k k' l f h.1)
Active-mono k k' (leaving key p ∷ l) f h = (f key p h.0, Active-mono k k' l f h.1)

pub replace :
    (w : Pc → ℕ) (before after : List Pc) (t t' : Pc)
    → total w (before ++ t' ∷ after) + w t ≡ total w (before ++ t ∷ after) + w t'
replace w before after t t' =
    omega (arith, total-append w before (t ∷ after), total-append w before (t' ∷ after))

pub All-parts :
    (k : KeyedMutex) (before : List Pc) (t : Pc) (after : List Pc)
    → All (Active k) (before ++ t ∷ after)
    → All (Active k) before × Active k t × All (Active k) after
All-parts k [] t after h = (tt, h.0, h.1)
All-parts k (x ∷ before) t after h =
    let (a, b, c) = All-parts k before t after h.1 in ((h.0, a), b, c)

pub All-whole :
    (k : KeyedMutex) (before : List Pc) (t : Pc) (after : List Pc)
    → All (Active k) before
    → Active k t
    → All (Active k) after
    → All (Active k) (before ++ t ∷ after)
All-whole k [] t after a b c = (b, c)
All-whole k (x ∷ before) t after a b c = (a.0, All-whole k before t after a.1 b c)
