-- ===== src/Locks.antt =====
-- locks.go: `KeyedMutex` with its goroutines. An entry is a pointer into a heap; what runs under
-- `k.mu` is one step, and so is each operation on the mutex of an entry.
pub mod Invariant
pub mod Entering
pub mod Leaving
pub mod Exclusion
pub mod Emptying
pub mod Draining
use go_adcore.Common.{
  ℕ, zero, suc, ◌+◌, ◌-◌, ◌≡◌, Bool, true, false, List, [], ◌∷◌, ◌++◌, none, some, ◌==◌,
  if◌then◌else◌, length,
}
use go_adcore.Bytes.{Bytes}
use go_adcore.Maps.{lookup, delete_key}

-- `type keyedEntry`
pub record KeyedEntry : Type 0 where
  pub locked : Bool
  pub refs : ℕ

-- `type KeyedMutex`, with the heap of its entries and the next free address
pub record KeyedMutex : Type 0 where
  pub table : List (Bytes × ℕ)
  pub heap : ℕ → KeyedEntry
  pub next : ℕ

abbrev pub set_entry : (ℕ → KeyedEntry) → ℕ → KeyedEntry → ℕ → KeyedEntry
set_entry heap p e q = if q == p then e else heap q

-- `func NewKeyedMutex`
abbrev pub new_keyed_mutex : KeyedMutex
new_keyed_mutex = record { table = []; heap = λ _. record { locked = false; refs = 0 }; next = 0 }

-- `func (k *KeyedMutex) Lock` up to `k.mu.Unlock()`: the entry of the key, and the mutex after it
unfoldable pub enter : KeyedMutex → Bytes → ℕ × KeyedMutex
enter k key = elim (lookup k.table key) [
  | some p ↦
      (p, record k { heap = set_entry k.heap p (record (k.heap p) { refs = (k.heap p).refs + 1 }) })
  | none ↦ (
    k.next,
    record {
      table = (key, k.next) ∷ k.table;
      heap = set_entry k.heap k.next (record { locked = false; refs = 1 });
      next = k.next + 1;
    },
  )
]

-- the function returned by `Lock`, from `k.mu.Lock()` on
unfoldable pub leave : KeyedMutex → Bytes → ℕ → KeyedMutex
leave k key p =
    let rest = (k.heap p).refs - 1 in
    record k {
      table = if rest == 0 then delete_key k.table key else k.table;
      heap = set_entry k.heap p (record (k.heap p) { refs = rest });
    }

-- `e.mu.Lock()` and `e.mu.Unlock()`
unfoldable pub set_locked : KeyedMutex → ℕ → Bool → KeyedMutex
set_locked k p b = record k { heap = set_entry k.heap p (record (k.heap p) { locked = b }) }

-- `func (k *KeyedMutex) Size`
unfoldable pub size : KeyedMutex → ℕ
size k = length k.table

-- where a goroutine stands in `Lock` and in the function that it returns
pub data Pc : Type 0 where
  idle : Pc
  waiting holding leaving : Bytes → ℕ → Pc

pub record System : Type 0 where
  pub mutex : KeyedMutex
  pub threads : List Pc

abbrev pub system : KeyedMutex → List Pc → Pc → List Pc → System
system k before t after = record { mutex = k; threads = before ++ t ∷ after }

-- One goroutine moves. `sync.Once` lets each call of `Lock` be undone once only.
pub data Step : System → System → Type 0 where
  entered :
      (k : KeyedMutex) (key : Bytes) (before after : List Pc)
      → Step
          (system k before idle after)
          (system (enter k key).1 before (waiting key (enter k key).0) after)
  locked :
      (k : KeyedMutex) (key : Bytes) (p : ℕ) (before after : List Pc)
      → (k.heap p).locked ≡ false
      → Step
          (system k before (waiting key p) after)
          (system (set_locked k p true) before (holding key p) after)
  unlocked :
      (k : KeyedMutex) (key : Bytes) (p : ℕ) (before after : List Pc)
      → Step
          (system k before (holding key p) after)
          (system (set_locked k p false) before (leaving key p) after)
  left :
      (k : KeyedMutex) (key : Bytes) (p : ℕ) (before after : List Pc)
      → Step (system k before (leaving key p) after) (system (leave k key p) before idle after)

abbrev pub all_idle : ℕ → List Pc
all_idle zero = []
all_idle (suc n) = idle ∷ all_idle n

-- what `n` goroutines can reach
pub data Reach (n : ℕ) : System → Type 0 where
  start : Reach n (record { mutex = new_keyed_mutex; threads = all_idle n })
  later : {s t : System} → Reach n s → Step s t → Reach n t
