-- ===== src/Fake/View.antt =====
-- The directory of adcorefake/ seen as a map from GUIDs to objects, which forgets the DNs that the
-- store is keyed by and its order, and the writes in that view.
use go_adcore.Common.{
  ℕ, ◌≡◌, refl, sym, ap, ◌∙◌, false, List, Option, none, some, if◌then◌else◌, Bool-cases, inl, inr,
  arith,
}
use go_adcore.Bytes.{Bytes, equal, equal_iff}
use go_adcore.Folding.{CaseFolding}
use go_adcore.Identity.{by_guid}
use go_adcore.Maps.{put, lookup, delete_key, lookup-put, lookup-delete_key}
use go_adcore.Fake.Objects.{Object, Store}
use go_adcore.Fake.Lookup.{find_in, find}
use go_adcore.Fake.Invariant.{
  IsConsistent, IsFree, find_in-by_guid, find_in-by_guid-some, put-cases, delete_key-some,
}
use go_adcore.Fake.Relocating.{found-put}

Option-ext {ℓ} :
    {A : Type ℓ} (a b : Option A)
    → ((x : A) → a ≡ some x → b ≡ some x)
    → ((x : A) → b ≡ some x → a ≡ some x)
    → a ≡ b
Option-ext none none f g = refl
Option-ext none (some y) f g = g y refl
Option-ext (some x) b f g = sym (f x refl)

-- The objects by their GUIDs.
abbrev pub view : CaseFolding → {T : Type 0} → Store T → Bytes → Option (Object T)
view u s guid = find u (by_guid guid) s

-- One object is set in the view, and one is taken out.
abbrev pub Sets :
    {T : Type 0} → (Bytes → Option (Object T)) → Object T → (Bytes → Option (Object T)) → Type 0
Sets v o v' = (g : Bytes) → v' g ≡ (if equal o.guid g then some o else v g)

abbrev pub Drops :
    {T : Type 0} → (Bytes → Option (Object T)) → Bytes → (Bytes → Option (Object T)) → Type 0
Drops v guid v' = (g : Bytes) → v' g ≡ (if equal guid g then none else v g)

module _ (u : CaseFolding) {T : Type 0} (n : ℕ) (m : List (Bytes × Object T))
    (c : IsConsistent n m) where
  -- What else the map holds at the DN of `o` has its GUID.
  abbrev pub Replaces : Object T → Type 0
  Replaces o = (p : Object T) → lookup m o.dn ≡ some p → p.guid ≡ o.guid

  pub put-Sets :
      (k : ℕ) (o : Object T)
      → IsConsistent k (put m o.dn o)
      → IsFree m o.dn o.guid
      → Replaces o
      → Sets (λ g. find_in u m (by_guid g)) o (λ g. find_in u (put m o.dn o) (by_guid g))
  put-Sets k o c' free same g = elim (Bool-cases (equal o.guid g)) [
    | inl e ↦
        let is = (equal_iff o.guid g).0 e in
        rw e (
          ap (λ g. find_in u (put m o.dn o) (by_guid g)) (sym is)
          ∙ find_in-by_guid u k (put m o.dn o) o.dn o c' (found-put m o))
    | inr e ↦ rw e (
        Option-ext _ _
          (λ p h.
            let (there, is) = find_in-by_guid-some u k (put m o.dn o) g p c' h in
            elim (put-cases m o.dn o p.dn p there) [
              | inl a ↦
                  absurd
                    (ground (arith, equal_iff o.guid g, ap (λ (x : Object T). x.guid) a.1 ∙ is, e))
              | inr a ↦
                  ap (λ g. find_in u m (by_guid g)) (sym is) ∙ find_in-by_guid u n m p.dn p c a.1
            ])
          (λ p h.
            let (there, is) = find_in-by_guid-some u n m g p c h in
            let apart : equal o.dn p.dn ≡ false = elim (Bool-cases (equal o.dn p.dn)) [
              | inl a ↦
                  let at = ap (lookup m) ((equal_iff o.dn p.dn).0 a) ∙ there in
                  absurd (ground (arith, equal_iff o.guid g, same p at, is, e))
              | inr a ↦ a
            ] in
            ap (λ g. find_in u (put m o.dn o) (by_guid g)) (sym is)
            ∙ find_in-by_guid u k (put m o.dn o) p.dn p c'
                (lookup-put m o.dn o p.dn ∙ rw apart there)))
  ]

  pub delete_key-Drops :
      (o : Object T)
      → IsConsistent n (delete_key m o.dn)
      → lookup m o.dn ≡ some o
      → Drops (λ g. find_in u m (by_guid g)) o.guid (λ g. find_in u (delete_key m o.dn) (by_guid g))
  delete_key-Drops o c' at g = elim (Bool-cases (equal o.guid g)) [
    | inl e ↦ rw e (
        Option-ext _ _
          (λ p h.
            let (there, is) = find_in-by_guid-some u n (delete_key m o.dn) g p c' h in
            let (ne, here) = delete_key-some m o.dn p.dn p there in
            let same : o.dn ≡ p.dn =
              c.unique o.dn p.dn o p at here ((equal_iff o.guid g).0 e ∙ sym is) in
            absurd (ground (arith, ne, same, equal_iff o.dn p.dn)))
          (λ p h. cc))
    | inr e ↦ rw e (
        Option-ext _ _
          (λ p h.
            let (there, is) = find_in-by_guid-some u n (delete_key m o.dn) g p c' h in
            ap (λ g. find_in u m (by_guid g)) (sym is)
            ∙ find_in-by_guid u n m p.dn p c (delete_key-some m o.dn p.dn p there).1)
          (λ p h.
            let (there, is) = find_in-by_guid-some u n m g p c h in
            let apart : equal o.dn p.dn ≡ false = elim (Bool-cases (equal o.dn p.dn)) [
              | inl a ↦
                  let its : some o ≡ some p =
                    sym at ∙ ap (lookup m) ((equal_iff o.dn p.dn).0 a) ∙ there in
                  let same : o ≡ p = cc in
                  absurd
                    (ground (arith, equal_iff o.guid g, ap (λ (x : Object T). x.guid) same ∙ is, e))
              | inr a ↦ a
            ] in
            ap (λ g. find_in u (delete_key m o.dn) (by_guid g)) (sym is)
            ∙ find_in-by_guid u n (delete_key m o.dn) p.dn p c'
                (lookup-delete_key m o.dn p.dn ∙ rw apart there)))
  ]
