-- ===== src/Locks/Leaving.antt =====
-- The release of an entry, which deletes its key behind the last goroutine, keeps the invariant.
use go_adcore.Common.{
  ℕ, ◌+◌, ◌-◌, ◌≡◌, ◌≢◌, refl, sym, ap, ◌∙◌, List, [], ◌∷◌, ◌++◌, none, some, ◌==◌, All, arith,
  Bool-cases, inl, inr,
}
use go_adcore.Bytes.{Bytes, equal, equal_iff}
use go_adcore.Locks.{KeyedMutex, set_entry, leave, Pc, idle, waiting, holding, leaving, system}
use go_adcore.Maps.{lookup, delete_key}
use go_adcore.Locks.Invariant.{
  total, total-append, points, holds, Active, Inv, lookup-delete_key, Active-mono, replace,
  All-parts, All-whole,
}

module _ (k : KeyedMutex) (key : Bytes) (p : ℕ) (before after : List Pc) where
  pub lookup_deleted : (table : List (Bytes × ℕ)) → lookup (delete_key table key) key ≡ none
  unfolding lookup delete_key
  lookup_deleted [] = refl
  lookup_deleted ((x, q) ∷ table) = ground (arith, lookup_deleted table)

  pub delete_bound :
      (table : List (Bytes × ℕ)) (x : Bytes) (q : ℕ)
      → lookup (delete_key table key) x ≡ some q
      → lookup table x ≡ some q
  delete_bound table x q h = elim (Bool-cases (equal key x)) [
    | inl e ↦ absurd (
        ground
          (arith, ap (lookup (delete_key table key)) ((equal_iff key x).0 e), lookup_deleted table))
    | inr e ↦ sym (lookup-delete_key table key x e) ∙ h
  ]

  -- Without the key of `p`, the goroutines without the pointer `p` look up what they did.
  pub deleted_keeps :
      lookup k.table key ≡ some p
      → (x : Bytes) (q : ℕ) → q ≢ p
      → lookup k.table x ≡ some q
      → lookup (delete_key k.table key) x ≡ some q
  deleted_keeps e x q ne h = elim (Bool-cases (equal key x)) [
    | inl s ↦ absurd (ground (arith, ap (lookup k.table) ((equal_iff key x).0 s)))
    | inr s ↦ lookup-delete_key k.table key x s ∙ h
  ]

  abbrev pub last_gone : KeyedMutex
  last_gone = record k {
    table = delete_key k.table key;
    heap = set_entry k.heap p (record (k.heap p) { refs = (k.heap p).refs - 1 });
  }

  pub Active-deleted :
      (l : List Pc)
      → lookup k.table key ≡ some p
      → total (points p) l ≡ 0
      → All (Active k) l
      → All (Active last_gone) l
  Active-deleted [] e z h = tt
  Active-deleted (idle ∷ l) e z h = (tt, Active-deleted l e (omega arith) h.1)
  Active-deleted (waiting x q ∷ l) e z h =
      ((deleted_keeps e x q (ground arith) h.0.0, h.0.1), Active-deleted l e (ground arith) h.1)
  Active-deleted (holding x q ∷ l) e z h =
      ((deleted_keeps e x q (ground arith) h.0.0, h.0.1), Active-deleted l e (ground arith) h.1)
  Active-deleted (leaving x q ∷ l) e z h =
      ((deleted_keeps e x q (ground arith) h.0.0, h.0.1), Active-deleted l e (ground arith) h.1)

  -- The goroutine that leaves is among those with the pointer.
  pub leaving_counts :
      Inv (system k before (leaving key p) after)
      → (total (points p) (before ++ leaving key p ∷ after)
          ≡ total (points p) before + total (points p) after + 1)
        × ((k.heap p).refs ≡ total (points p) before + total (points p) after + 1)
  leaving_counts i =
      let (a, b, c) = All-parts k before (leaving key p) after i.active in
      let n = total-append (points p) before (leaving key p ∷ after) in
      (ground arith, ground (arith, i.counted p b.1))

  pub last_gone-Inv :
      (k.heap p).refs ≡ 1
      → Inv (system k before (leaving key p) after)
      → Inv (system last_gone before idle after)
  last_gone-Inv one i =
      let (a, b, c) = All-parts k before (leaving key p) after i.active in
      let (m, n) = leaving_counts i in
      record {
        bounded = λ x q h. i.bounded x q (delete_bound k.table x q h);
        active =
            All-whole last_gone before idle after (Active-deleted before b.0 (omega arith) a) tt
              (Active-deleted after b.0 (omega arith) c);
        counted = λ q h.
            ground (arith, i.counted q h, replace (points q) before after (leaving key p) idle);
        held =
            λ q h. ground (arith, i.held q h, replace (holds q) before after (leaving key p) idle);
      }

  abbrev pub fewer : KeyedMutex
  fewer = record k { heap = set_entry k.heap p (record (k.heap p) { refs = (k.heap p).refs - 1 }) }

  pub fewer-Inv : Inv (system k before (leaving key p) after) → Inv (system fewer before idle after)
  fewer-Inv i =
      let (a, b, c) = All-parts k before (leaving key p) after i.active in
      let (m, n) = leaving_counts i in
      record {
        bounded = i.bounded;
        active =
            All-whole fewer before idle after (Active-mono k fewer before (λ x q l. l) a) tt
              (Active-mono k fewer after (λ x q l. l) c);
        counted = λ q h.
            ground (arith, i.counted q h, replace (points q) before after (leaving key p) idle);
        held =
            λ q h. ground (arith, i.held q h, replace (holds q) before after (leaving key p) idle);
      }

  pub leave-Inv :
      Inv (system k before (leaving key p) after) → Inv (system (leave k key p) before idle after)
  unfolding leave
  leave-Inv i = elim (Bool-cases ((k.heap p).refs - 1 == 0)) [
    | inl e ↦
        let (m, n) = leaving_counts i in
        let one : (k.heap p).refs ≡ 1 = ground arith in rw e (last_gone-Inv one i)
    | inr e ↦ rw e (fewer-Inv i)
  ]
