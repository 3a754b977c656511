-- ===== src/Fake/Nesting.antt =====
-- `MembersRecursive` of adcorefake/group.go against the nesting of groups as a relation.
use mathlib.Core.List.{Memᴰ}
use mathlib.Core.List.Memᴰ
use mathlib.Core.Path.{subst}
use go_adcore.Common.{
  ℕ, zero, suc, ◌+◌, ◌≡◌, ◌↔◌, refl, sym, ap, ◌∙◌, true, false, List, [], ◌∷◌, ◌++◌, Option, none,
  some, if◌then◌else◌, All, length, ok, Bool-cases, inl, inr, arith,
}
use go_adcore.Bytes.{Bytes, equal, equal_iff}
use go_adcore.Folding.{CaseFolding}
use go_adcore.Identity.{Identity}
use go_adcore.Maps.{has_key, equal_same}
use go_adcore.Models.{Member}
use go_adcore.Fake.Objects.{Object, Store}
use go_adcore.Fake.Actions.{after}
use go_adcore.Fake.Classes.{find_class}
use go_adcore.Fake.Contract.{require_class-eq}
use go_adcore.Fake.Groups.{group_name}
use go_adcore.Fake.Members.{
  Walk, leaf_model, and_then, walk_object, walk_objects, walk_members, walk_group,
  members_recursive,
}
use go_adcore.Fake.Walking.{AllSeen, Grew, walk_group-Ends, unseen_le_length}

-- A GUID in `root` or in a group that is nested in it, at any depth.
pub data IsNested {T : Type 0} (by_dn : List (Bytes × Object T)) (root : Object T)
    : Bytes → Type 0 where
  direct : (g : Bytes) → has_key root.members g ≡ true → IsNested by_dn root g
  through :
      (k : Bytes) (o : Object T) (g : Bytes)
      → Memᴰ (k, o) by_dn
      → equal o.class group_name ≡ true
      → IsNested by_dn root o.guid
      → has_key o.members g ≡ true
      → IsNested by_dn root g

-- The entry of an object that is no group and is nested in `root`.
pub record IsLeaf {T : Type 0} (by_dn : List (Bytes × Object T)) (root : Object T) (x : Member)
    : Type 0 where
  pub key : Bytes
  pub object : Object T
  pub held : Memᴰ (key, object) by_dn
  pub nested : IsNested by_dn root object.guid
  pub class : equal object.class group_name ≡ false
  pub shown : x ≡ leaf_model object

and_then-some :
    (x : Option Walk) (rest : Walk → Option Walk) (w' : Walk)
    → and_then x rest ≡ some w'
    → (w : Walk) × (x ≡ some w) × (rest w ≡ some w')
and_then-some none rest w' h = cc
and_then-some (some w) rest w' h = (w, refl, h)

All-Memᴰ {ℓ κ} : {A : Type ℓ} (P : A → Type κ) (l : List A) (x : A) → All P l → Memᴰ x l → P x
All-Memᴰ P [] x a m = absurd (Memᴰ.not-nil m)
All-Memᴰ P (y ∷ l) x a m = elim (Memᴰ.cases_cons m) [
  | inl e ↦ subst P (sym e) a.0
  | inr n ↦ All-Memᴰ P l x a.1 n
]

module _ {T : Type 0} (by_dn : List (Bytes × Object T)) (root : Object T) where
  abbrev OnlyLeaves : Walk → Type 0
  OnlyLeaves w = (x : Member) → Memᴰ x w.out → IsLeaf by_dn root x

  -- A walk from a group that is nested in the root lists nothing but leaves.
  abbrev KeepsLeaves : (Object T → Walk → Option Walk) → Type 0
  KeepsLeaves walk =
      (o : Object T) (w w' : Walk)
      → ((g : Bytes) → has_key o.members g ≡ true → IsNested by_dn root g)
      → OnlyLeaves w
      → walk o w ≡ some w'
      → OnlyLeaves w'

  module _ (walk : Object T → Walk → Option Walk) (keeps : KeepsLeaves walk) where
    walk_object-OnlyLeaves :
        (g k : Bytes) (o : Object T) (w w' : Walk)
        → Memᴰ (k, o) by_dn
        → IsNested by_dn root g
        → OnlyLeaves w
        → walk_object walk g o w ≡ some w'
        → OnlyLeaves w'
    walk_object-OnlyLeaves g k o w w' held nested only h = elim (Bool-cases (equal o.guid g)) [
      | inr e ↦ let same : w ≡ w' = ground (arith, e, h) in subst OnlyLeaves same only
      | inl e ↦
          let here : IsNested by_dn root o.guid =
            subst (IsNested by_dn root) (sym ((equal_iff o.guid g).0 e)) nested in
          elim (Bool-cases (equal o.class group_name)) [
            | inl c ↦
                keeps o w w' (λ g' there. through k o g' held c here there) only
                  (ground (arith, e, c, h))
            | inr c ↦
                let same : record w { out = w.out ++ leaf_model o ∷ [] } ≡ w' =
                  ground (arith, e, c, h) in
                subst OnlyLeaves same (λ x m. elim (Memᴰ.append_cases w.out m) [
                  | inl old ↦ only x old
                  | inr new ↦ record {
                    key = k;
                    object = o;
                    held = held;
                    nested = here;
                    class = c;
                    shown = Memᴰ.eq_of_singleton new;
                  }
                ])
          ]
    ]

    walk_objects-OnlyLeaves :
        (g : Bytes) (l : List (Bytes × Object T)) (w w' : Walk)
        → ((e : Bytes × Object T) → Memᴰ e l → Memᴰ e by_dn)
        → IsNested by_dn root g
        → OnlyLeaves w
        → walk_objects walk g l w ≡ some w'
        → OnlyLeaves w'
    unfolding walk_objects
    walk_objects-OnlyLeaves g [] w w' part nested only h =
        let same : w ≡ w' = cc in subst OnlyLeaves same only
    walk_objects-OnlyLeaves g ((k, o) ∷ l) w w' part nested only h =
        let (w1, first, rest) =
          and_then-some (walk_object walk g o w) (walk_objects walk g l) w' h in
        walk_objects-OnlyLeaves g l w1 w' (λ e m. part e (Memᴰ.tail m)) nested
          (walk_object-OnlyLeaves g k o w w1 (part (k, o) (Memᴰ.head refl)) nested only first) rest

    walk_members-OnlyLeaves :
        (l : List Bytes) (w w' : Walk)
        → ((g : Bytes) → has_key l g ≡ true → IsNested by_dn root g)
        → OnlyLeaves w
        → walk_members walk by_dn l w ≡ some w'
        → OnlyLeaves w'
    unfolding walk_members has_key
    walk_members-OnlyLeaves [] w w' nested only h =
        let same : w ≡ w' = cc in subst OnlyLeaves same only
    walk_members-OnlyLeaves (g ∷ l) w w' nested only h =
        let (w1, first, rest) =
          and_then-some
            (if has_key w.seen g
              then some w
              else walk_objects walk g by_dn (record w { seen = g ∷ w.seen }))
            (walk_members walk by_dn l) w' h in
        walk_members-OnlyLeaves l w1 w' (λ g' e. nested g' (ground (arith, e)))
          (elim (Bool-cases (has_key w.seen g)) [
            | inl e ↦ let same : w ≡ w1 = ground (arith, e, first) in subst OnlyLeaves same only
            | inr e ↦
                walk_objects-OnlyLeaves g by_dn (record w { seen = g ∷ w.seen }) w1 (λ e m. m)
                  (nested g (rw (equal_same g) refl)) only (ground (arith, e, first))
          ])
          rest

  walk_group-KeepsLeaves : (fuel : ℕ) → KeepsLeaves (walk_group fuel by_dn)
  unfolding walk_group
  walk_group-KeepsLeaves zero o w w' nested only h = cc
  walk_group-KeepsLeaves (suc fuel) o w w' nested only h =
      walk_members-OnlyLeaves (walk_group fuel by_dn) (walk_group-KeepsLeaves fuel) o.members w w'
        nested only h

  abbrev start : Walk
  start = record { seen = []; out = [] }

  -- At the end of the walk from the root, all that is nested in it is seen.
  nested-seen :
      (w : Walk)
      → Grew by_dn start w
      → AllSeen root.members w.seen
      → (g : Bytes) → IsNested by_dn root g
      → has_key w.seen g ≡ true
  unfolding has_key
  nested-seen w grew all g (direct j h) = all g h
  nested-seen w grew all g (through k o j held c nested there) =
      elim (grew.closed o.guid (nested-seen w grew all o.guid nested)) [
        | inl never ↦ cc
        | inr done ↦ (All-Memᴰ _ by_dn (k, o) done held (equal_same o.guid)).0 c g there
      ]

  leaf-listed :
      (w : Walk)
      → Grew by_dn start w
      → AllSeen root.members w.seen
      → (x : Member) → IsLeaf by_dn root x
      → Memᴰ x w.out
  unfolding has_key
  leaf-listed w grew all x leaf =
      elim (grew.closed leaf.object.guid (nested-seen w grew all leaf.object.guid leaf.nested)) [
        | inl never ↦ cc
        | inr done ↦
            subst (λ y. Memᴰ y w.out) (sym leaf.shown)
              ((All-Memᴰ _ by_dn (leaf.key, leaf.object) done leaf.held
                  (equal_same leaf.object.guid)).1
                leaf.class)
      ]

  walk_lem :
      (w : Walk) × (walk_group (length by_dn + 1) by_dn root start ≡ some w)
      × ((x : Member) → Memᴰ x w.out ↔ IsLeaf by_dn root x)
  walk_lem =
      let (w, is, grew, all) =
        walk_group-Ends by_dn (length by_dn + 1) root start
          (omega (arith, unseen_le_length by_dn [])) in
      (
        w,
        is,
        λ x. (
          walk_group-KeepsLeaves (length by_dn + 1) root start w direct
              (λ x m. absurd (Memᴰ.not-nil m)) is x,
          leaf-listed w grew all x,
        ),
      )

-- `MembersRecursive` of a group that is found ends, in every store, however its groups are nested and
-- also where they contain each other: it lists exactly the objects that are no groups and stand in
-- the group or in one nested in it, at any depth; and it leaves the store as it was.
pub members_recursive_lem :
    (u : CaseFolding) {T : Type 0} (id : Identity) (s : Store T) (root : Object T)
    → find_class u group_name id s ≡ some root
    → (l : List Member) × (members_recursive u id s ≡ (ok (some l), s))
      × ((x : Member) → Memᴰ x l ↔ IsLeaf s.by_dn root x)
unfolding members_recursive
members_recursive_lem u id s root h =
    let (w, is, exact) = walk_lem s.by_dn root in
    (
      w.out,
      ap (after _) (require_class-eq u group_name _ id s root h)
          ∙ ap (λ (o : Option Walk). (ok (elim o [ none ↦ none | some w ↦ some w.out ]), s)) is,
      exact,
    )
