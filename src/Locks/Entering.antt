-- ===== src/Locks/Entering.antt =====
-- The steps of `KeyedMutex.Lock`, and the unlocking of an entry, keep the invariant.
use go_adcore.Common.{
  ℕ, ◌+◌, ◌<◌, ◌≡◌, refl, ap, ◌∙◌, true, false, List, ◌∷◌, ◌++◌, none, some, ◌==◌, arith, ==_iff,
  Bool-cases, inl, inr,
}
use go_adcore.Bytes.{Bytes, equal_iff}
use go_adcore.Locks.{KeyedMutex, set_entry, set_locked, Pc, idle, waiting, holding, leaving, system}
use go_adcore.Maps.{lookup}
use go_adcore.Locks.Invariant.{
  total, points, holds, Listed, bit, bit_le, Inv, points_zero, holds_zero, Active-mono, replace,
  All-parts, All-whole,
}

module _ (k : KeyedMutex) (key : Bytes) (p : ℕ) (before after : List Pc) where
  pub locked-Inv :
      (k.heap p).locked ≡ false
      → Inv (system k before (waiting key p) after)
      → Inv (system (set_locked k p true) before (holding key p) after)
  unfolding set_locked
  locked-Inv free i =
      let (a, b, c) = All-parts k before (waiting key p) after i.active in
      record {
        bounded = i.bounded;
        active =
            All-whole (set_locked k p true) before (holding key p) after
              (Active-mono k (set_locked k p true) before (λ x q l. l) a) b
              (Active-mono k (set_locked k p true) after (λ x q l. l) c);
        counted = λ q h.
            ground (
              arith,
              i.counted q h,
              replace (points q) before after (waiting key p) (holding key p),
            );
        held = λ q h. ground (
          arith,
          free,
          i.held q h,
          replace (holds q) before after (waiting key p) (holding key p),
        );
      }

  pub unlocked-Inv :
      Inv (system k before (holding key p) after)
      → Inv (system (set_locked k p false) before (leaving key p) after)
  unfolding set_locked
  unlocked-Inv i =
      let (a, b, c) = All-parts k before (holding key p) after i.active in
      record {
        bounded = i.bounded;
        active =
            All-whole (set_locked k p false) before (leaving key p) after
              (Active-mono k (set_locked k p false) before (λ x q l. l) a) b
              (Active-mono k (set_locked k p false) after (λ x q l. l) c);
        counted = λ q h.
            ground (
              arith,
              i.counted q h,
              replace (points q) before after (holding key p) (leaving key p),
            );
        held = λ q h. ground (
          arith,
          i.held q h,
          replace (holds q) before after (holding key p) (leaving key p),
          bit_le (k.heap q).locked,
        );
      }

  abbrev pub more : KeyedMutex
  more = record k { heap = set_entry k.heap p (record (k.heap p) { refs = (k.heap p).refs + 1 }) }

  pub known-Inv :
      lookup k.table key ≡ some p
      → Inv (system k before idle after)
      → Inv (system more before (waiting key p) after)
  known-Inv e i =
      let (a, b, c) = All-parts k before idle after i.active in
      record {
        bounded = i.bounded;
        active =
            All-whole more before (waiting key p) after (Active-mono k more before (λ x q l. l) a)
              (e, i.bounded key p e) (Active-mono k more after (λ x q l. l) c);
        counted = λ q h.
            ground (arith, i.counted q h, replace (points q) before after idle (waiting key p));
        held =
            λ q h. ground (arith, i.held q h, replace (holds q) before after idle (waiting key p));
      }

  abbrev pub fresh : KeyedMutex
  fresh = record {
    table = (key, k.next) ∷ k.table;
    heap = set_entry k.heap k.next (record { locked = false; refs = 1 });
    next = k.next + 1;
  }

  pub fresh_keeps :
      lookup k.table key ≡ none → (x : Bytes) (q : ℕ) → Listed k x q → Listed fresh x q
  unfolding lookup
  fresh_keeps e x q l = (ground (arith, l.0, e, equal_iff key x), omega (arith, l.1))

  pub fresh_bounded :
      lookup k.table key ≡ none
      → ((x : Bytes) (q : ℕ) → lookup k.table x ≡ some q → q < k.next)
      → (x : Bytes) (q : ℕ) → lookup fresh.table x ≡ some q
      → q < fresh.next
  unfolding lookup
  fresh_bounded e b x q h = ground (arith, b x q)

  pub fresh_listed : lookup fresh.table key ≡ some k.next
  unfolding lookup
  fresh_listed = rw ((equal_iff key key).1 refl) refl

  pub fresh_counted :
      Inv (system k before idle after)
      → (q : ℕ) → q < k.next + 1
      → (fresh.heap q).refs ≡ total (points q) (before ++ waiting key k.next ∷ after)
  fresh_counted i q h = elim (Bool-cases (q == k.next)) [
    | inl e ↦
        let e' : q ≡ k.next = (==_iff q k.next).0 e in
        let none_yet : total (points q) (before ++ idle ∷ after) ≡ 0 =
          ap (λ z. total (points z) (before ++ idle ∷ after)) e' ∙ points_zero k _ i.active in
        ground (arith, none_yet, replace (points q) before after idle (waiting key k.next))
    | inr e ↦
        let lt : q < k.next = ground arith in
        ground (arith, i.counted q lt, replace (points q) before after idle (waiting key k.next))
  ]

  pub fresh_held :
      Inv (system k before idle after)
      → (q : ℕ) → q < k.next + 1
      → bit (fresh.heap q).locked ≡ total (holds q) (before ++ waiting key k.next ∷ after)
  fresh_held i q h = elim (Bool-cases (q == k.next)) [
    | inl e ↦
        let e' : q ≡ k.next = (==_iff q k.next).0 e in
        let none_yet : total (holds q) (before ++ idle ∷ after) ≡ 0 =
          ap (λ z. total (holds z) (before ++ idle ∷ after)) e' ∙ holds_zero k _ i.active in
        ground (arith, none_yet, replace (holds q) before after idle (waiting key k.next))
    | inr e ↦
        let lt : q < k.next = ground arith in
        ground (arith, i.held q lt, replace (holds q) before after idle (waiting key k.next))
  ]

  pub fresh-Inv :
      lookup k.table key ≡ none
      → Inv (system k before idle after)
      → Inv (system fresh before (waiting key k.next) after)
  fresh-Inv e i =
      let (a, b, c) = All-parts k before idle after i.active in
      record {
        bounded = fresh_bounded e i.bounded;
        active =
            All-whole fresh before (waiting key k.next) after
              (Active-mono k fresh before (fresh_keeps e) a) (fresh_listed, omega arith)
              (Active-mono k fresh after (fresh_keeps e) c);
        counted = fresh_counted i;
        held = fresh_held i;
      }
