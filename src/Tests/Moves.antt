-- ===== src/Tests/Moves.antt =====
-- `moveLocked` of adcorefake/fake.go on a unit with a child and on one beside it.
use mathlib.Core.Path.{subst}
use go_adcore.Common.{
  ℕ, ◌≡◌, refl, true, false, List, [], ◌∷◌, ◌++◌, some, if◌then◌else◌, arith, Bool-cases, inl, inr,
}
use go_adcore.Bytes.{Bytes, codes, equal, equal_iff}
use go_adcore.Folding.{ascii}
use go_adcore.Maps.{lookup, keys, has_key, Distinct}
use go_adcore.Fake.Objects.{Object, Store, new_object}
use go_adcore.Fake.Lookup.{is_below, has_suffix}
use go_adcore.Fake.Units.{unit_name}
use go_adcore.Fake.Moving.{with_dn, move_child, move_object}
use go_adcore.Fake.Subtree.{rebased}
use go_adcore.Fake.Renaming.{HasRoom, move_object_lem}

abbrev eng_key : Bytes
eng_key = codes "OU=Eng,DC=x"

abbrev child_key : Bytes
child_key = codes "OU=A,OU=Eng,DC=x"

abbrev beside_key : Bytes
beside_key = codes "OU=B,DC=x"

abbrev unit : Bytes → Bytes → Object ℕ
unit guid dn = new_object guid dn unit_name

abbrev small_store : Store ℕ
small_store = record {
  dnc = codes "DC=x";
  by_dn =
      (eng_key, unit (codes "1") eng_key)
      ∷ (child_key, unit (codes "2") child_key)
      ∷ (beside_key, unit (codes "3") beside_key)
      ∷ [];
  seq = 3;
  passwords = [];
}

small_store-Distinct : Distinct (keys small_store.by_dn)
unfolding has_key equal
small_store-Distinct = (refl, (refl, (refl, tt)))

-- the keys that are not the unit's
other_keys :
    (P : Bytes → Type 0)
    → P child_key
    → P beside_key
    → (k : Bytes) (p : Object ℕ) → lookup small_store.by_dn k ≡ some p
    → equal k eng_key ≡ false
    → P k
unfolding lookup
other_keys P child beside k p h e = elim (Bool-cases (equal child_key k)) [
  | inl c ↦ subst P ((equal_iff child_key k).0 c) child
  | inr c ↦ elim (Bool-cases (equal beside_key k)) [
    | inl b ↦ subst P ((equal_iff beside_key k).0 b) beside
    | inr b ↦ absurd (ground (arith, h, e, c, b, equal_iff eng_key k, equal_iff k eng_key))
  ]
]

small_store-HasRoom : HasRoom ascii eng_key (codes "OU=Ops,DC=x") small_store.by_dn
unfolding has_suffix is_below equal
small_store-HasRoom = record {
  clear = other_keys (λ k. has_suffix k (codes "OU=Ops,DC=x") ≡ false) refl refl;
  spelled =
      other_keys
        (λ k. is_below ascii k eng_key ≡ true → (front : Bytes) × (k ≡ front ++ (b',' ∷ eng_key)))
        (λ h. (codes "OU=A", refl)) (λ h. cc);
  outside =
      other_keys
        (λ k.
          is_below ascii k eng_key ≡ true
          → is_below ascii (rebased eng_key (codes "OU=Ops,DC=x") k) eng_key ≡ false)
        (λ h. refl) (λ h. cc);
}

move_object_lem_example :
    let moved =
      (move_object ascii (unit (codes "1") eng_key) (codes "OU=Ops,DC=x") small_store).1.by_dn in
    (lookup moved (codes "OU=Ops,DC=x")
      ≡ some (record (unit (codes "1") eng_key) { dn = codes "OU=Ops,DC=x" }))
    × ((k : Bytes) (p : Object ℕ)
        → lookup small_store.by_dn k ≡ some p
        → equal k eng_key ≡ false
        → lookup moved
            (if is_below ascii k eng_key then rebased eng_key (codes "OU=Ops,DC=x") k else k)
          ≡ some (
              if is_below ascii k eng_key
              then with_dn p (rebased eng_key (codes "OU=Ops,DC=x") k)
              else p))
    × ((k : Bytes) (p : Object ℕ) (by_dn : List (Bytes × Object ℕ))
        → lookup small_store.by_dn k ≡ some p
        → equal k eng_key ≡ false
        → is_below ascii k eng_key ≡ true
        → move_child ascii eng_key
            (codes "OU=Ops,DC=x")
            (rebased eng_key (codes "OU=Ops,DC=x") k)
            by_dn
          ≡ by_dn)
    × ((by_dn : List (Bytes × Object ℕ))
        → move_child ascii eng_key (codes "OU=Ops,DC=x") (codes "OU=Ops,DC=x") by_dn ≡ by_dn)
move_object_lem_example =
    move_object_lem ascii (unit (codes "1") eng_key) (codes "OU=Ops,DC=x") small_store
      small_store-Distinct small_store-HasRoom
