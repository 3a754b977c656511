-- ===== src/Fake/Deleting.antt =====
-- `Delete` of every class of adcorefake/ in the view of the directory by GUIDs.
use mathlib.Core.Path.{subst}
use go_adcore.Common.{
  ℕ, ◌≡◌, ◌≢◌, refl, Bool, true, false, none, some, Result, ok, err, if◌then◌else◌, ◌==◌,
  Option-cases, Bool-cases, inl, inr, arith, ap, ◌∙◌, ◌↔◌, List, [], ◌∷◌, ◌++◌, not, ◌&&◌, or_true,
}
use go_adcore.Bytes.{Bytes, equal, equal_iff}
use go_adcore.Folding.{CaseFolding}
use go_adcore.Identity.{Identity}
use go_adcore.Errors.{GoError}
use go_adcore.Maps.{lookup, keys, has_key, equal_same}
use go_adcore.Fake.Objects.{Object, Store}
use go_adcore.Fake.Lookup.{remove, count_children, is_below, eq_dn}
use go_adcore.Fake.Naming.{has_suffix_iff}
use go_adcore.Fake.Classes.{find_class, delete_object}
use go_adcore.Fake.Invariant.{find_in-some, delete_key-IsConsistent}
use go_adcore.Fake.Updating.{find_class-some}
use go_adcore.Fake.Reachable.{Valid}
use go_adcore.Fake.View.{view, Drops, delete_key-Drops}
use go_adcore.Fake.Units.{unit_name, delete_ou}

module _ (u : CaseFolding) where
  -- The lower-cased DN ends with a comma and the lower-cased base, and the two are not equal as DNs.
  abbrev pub IsUnder : Bytes → Bytes → Type 0
  IsUnder k base =
      ((front : Bytes) × (u.to_lower k ≡ front ++ (b',' ∷ u.to_lower base)))
      × (eq_dn u k base ≡ false)

  counted : Bytes → Bytes → Bool
  counted k dn = not (eq_dn u k dn) && is_below u k dn

  counted_iff : (k dn : Bytes) → (counted k dn ≡ true) ↔ IsUnder k dn
  unfolding counted is_below
  counted_iff k dn =
      let ends = has_suffix_iff (u.to_lower k) (b',' ∷ u.to_lower dn) in
      (
        λ h. (ends.0 (ground (arith, h)), ground (arith, h)),
        λ (below, apart). let test = ends.1 below in ground (arith, test, apart),
      )

module _ (u : CaseFolding) {T : Type 0} where
  remove-Drops :
      (s : Store T) (o : Object T)
      → Valid s
      → lookup s.by_dn o.dn ≡ some o
      → Drops (view u s) o.guid (view u (remove o.dn s).1)
  unfolding remove
  remove-Drops s o v at =
      delete_key-Drops u s.seq s.by_dn v o (delete_key-IsConsistent s.seq s.by_dn o.dn v) at

  found_at :
      (class : Bytes) (id : Identity) (s : Store T) (o : Object T)
      → Valid s
      → find_class u class id s ≡ some o
      → lookup s.by_dn o.dn ≡ some o
  found_at class id s o v h =
      (find_in-some u s.seq s.by_dn id o v (find_class-some u class id s o h).0).0

  -- `Delete` of a group, a user, a service account or a computer always succeeds in a consistent store:
  -- where it finds an object of the class it takes this object out of the map from GUIDs to objects and
  -- leaves every other, and where it finds none it changes nothing.
  pub delete_object-Drops :
      (class : Bytes) (id : Identity) (s : Store T)
      → Valid s
      → ((delete_object u class id s).0 ≡ ok tt)
        × ((o : Object T)
            → find_class u class id s ≡ some o
            → Drops (view u s) o.guid (view u (delete_object u class id s).1))
        × (find_class u class id s ≡ none → (delete_object u class id s).1 ≡ s)
  unfolding delete_object remove
  delete_object-Drops class id s v = elim (Option-cases (find_class u class id s)) [
    | inl e ↦ rw (e, delete_object) (refl, (λ o h. cc), λ h. refl)
    | inr (o, e) ↦
        rw (e, delete_object)
          (
            refl,
            (λ p h.
                let same : o ≡ p = cc in
                subst (λ x. Drops (view u s) x.guid (view u (remove o.dn s).1)) same
                  (remove-Drops s o v (found_at class id s o v e))),
            λ h. cc,
          )
  ]

  count_one :
      (m : List (Bytes × Object T)) (dn k : Bytes)
      → has_key (keys m) k ≡ true
      → counted u k dn ≡ true
      → count_children u m dn ≢ 0
  unfolding count_children has_key counted
  count_one [] dn k h below z = cc
  count_one ((have, o) ∷ m) dn k h below z = elim (Bool-cases (equal have k)) [
    | inl e ↦
        let here : counted u have dn ≡ true =
          ap (λ x. counted u x dn) ((equal_iff have k).0 e) ∙ below in
        absurd (ground (arith, here, z))
    | inr e ↦ count_one m dn k (ground (arith, h, e)) below (ground (arith, z))
  ]

  count_none :
      (m : List (Bytes × Object T)) (dn : Bytes)
      → ((k : Bytes) → has_key (keys m) k ≡ true → counted u k dn ≡ false)
      → count_children u m dn ≡ 0
  unfolding count_children has_key counted
  count_none [] dn h = refl
  count_none ((have, o) ∷ m) dn h =
      let first = h have (rw (equal_same have) refl) in
      let later = count_none m dn (λ k there. h k (rw there (or_true _))) in
      ground (arith, first, later)

  -- `OU.Delete` in a consistent store: where a DN of the store, lower-cased, ends with a comma and the
  -- lower-cased DN of the OU, at any depth, and is not equal to it as a DN, it fails and changes nothing;
  -- where there is no such DN it succeeds, takes the OU out of the map from GUIDs to objects and leaves
  -- every other object; and where it finds no OU it succeeds and changes nothing.
  pub delete_ou-Drops :
      (id : Identity) (s : Store T)
      → Valid s
      → (find_class u unit_name id s ≡ none → delete_ou u id s ≡ (ok tt, s))
        × ((o : Object T) (k : Bytes)
            → find_class u unit_name id s ≡ some o
            → has_key (keys s.by_dn) k ≡ true
            → IsUnder u k o.dn
            → (e : GoError) × (delete_ou u id s ≡ (err e, s)))
        × ((o : Object T)
            → find_class u unit_name id s ≡ some o
            → ((k : Bytes) → has_key (keys s.by_dn) k ≡ true → ¬ IsUnder u k o.dn)
            → ((delete_ou u id s).0 ≡ ok tt)
              × Drops (view u s) o.guid (view u (delete_ou u id s).1))
  unfolding delete_ou remove
  delete_ou-Drops id s v = (
    λ h. rw (h, delete_ou) refl,
    λ o k h there under.
        let some_child = count_one s.by_dn o.dn k there ((counted_iff u k o.dn).1 under) in
        rw (h, delete_ou) (failing _ (test_false (count_children u s.by_dn o.dn) some_child) _ _ s),
    λ o h alone.
        let z = count_none s.by_dn o.dn (λ k there. elim (Bool-cases (counted u k o.dn)) [
          | inl e ↦ absurd (alone k there ((counted_iff u k o.dn).0 e))
          | inr e ↦ e
        ]) in
        let test : (count_children u s.by_dn o.dn == 0) ≡ true = rw z refl in
        rw (h, test, delete_ou) (refl, remove-Drops s o v (found_at unit_name id s o v h)),
  )
    where
      test_false : (n : ℕ) → n ≢ 0 → (n == 0) ≡ false
      test_false n ne = ground (arith, ne)

      failing :
          (b : Bool)
          → b ≡ false
          → (x : Result GoError (Unit {0}) × Store T) (e : GoError) (s : Store T)
          → (e' : GoError) × ((if b then x else (err e, s)) ≡ (err e', s))
      failing true h x e s = cc
      failing false h x e s = (e, refl)
