-- ===== src/Fake/Renaming.antt =====
-- `moveLocked` of adcorefake/fake.go where nothing stands under the new DN: the whole subtree moves.
use mathlib.Core.Path.{subst}
use mathlib.Core.List.{append_assoc, append_cancel_right}
use go_adcore.Common.{
  Option-cases, ◌-◌, ◌≡◌, refl, sym, ap, ◌∙◌, Bool, true, false, List, [], ◌∷◌, ◌++◌, some, take,
  length, length-append, if◌then◌else◌, arith, Bool-cases, inl, inr,
}
use go_adcore.Bytes.{Bytes, equal, equal_iff}
use go_adcore.Folding.{CaseFolding}
use go_adcore.Maps.{
  keys, lookup, put, delete_key, Distinct, lookup-put, lookup-delete_key, put-Distinct,
  delete_key-Distinct, equal_same,
}
use go_adcore.Fake.Objects.{Object, Store}
use go_adcore.Fake.Lookup.{is_below, has_suffix}
use go_adcore.Fake.Moving.{with_dn, move_child, move_children, move_object}
use go_adcore.Fake.Naming.{has_suffix-append}
use go_adcore.Fake.Subtree.{rebased, moves, IsApart, move_all, other_entry, equal-sym}

take-append : (s t : Bytes) → take (length s) (s ++ t) ≡ s
take-append [] t = refl
take-append (c ∷ s) t = rw (take-append s t) refl

rebased-append :
    (front old new_dn : Bytes)
    → rebased old new_dn (front ++ (b',' ∷ old)) ≡ front ++ (b',' ∷ new_dn)
rebased-append front old new_dn =
    let whole : (front ++ b',' ∷ []) ++ old ≡ front ++ (b',' ∷ old) =
      append_assoc front (b',' ∷ []) old in
    let cut : length ((front ++ b',' ∷ []) ++ old) - length old ≡ length (front ++ b',' ∷ []) =
      omega (arith, length-append (front ++ b',' ∷ []) old) in
    ap (rebased old new_dn) (sym whole)
    ∙ ap (λ n. take n ((front ++ b',' ∷ []) ++ old) ++ new_dn) cut
    ∙ ap (λ s. s ++ new_dn) (take-append (front ++ b',' ∷ []) old)
    ∙ append_assoc front (b',' ∷ []) new_dn

-- Nothing stands at the new DN or ends with it, and what lies below the old DN ends with a comma and
-- the old DN as it is written, and has a new DN that is not below the old one.
pub record HasRoom (u : CaseFolding) {T : Type 0} (old new_dn : Bytes) (m : List (Bytes × Object T))
    : Type 0 where
  pub clear :
      (k : Bytes) (p : Object T)
      → lookup m k ≡ some p
      → equal k old ≡ false
      → has_suffix k new_dn ≡ false
  pub spelled :
      (k : Bytes) (p : Object T)
      → lookup m k ≡ some p
      → equal k old ≡ false
      → is_below u k old ≡ true
      → (front : Bytes) × (k ≡ front ++ (b',' ∷ old))
  pub outside :
      (k : Bytes) (p : Object T)
      → lookup m k ≡ some p
      → equal k old ≡ false
      → is_below u k old ≡ true
      → is_below u (rebased old new_dn k) old ≡ false

module _ (u : CaseFolding) {T : Type 0} (old new_dn : Bytes) (m : List (Bytes × Object T))
    (o : Object T) (room : HasRoom u old new_dn m) where
  abbrev renamed : List (Bytes × Object T)
  renamed = put (delete_key m old) new_dn (record o { dn = new_dn })

  renamed_lem :
      (k : Bytes) (p : Object T)
      → lookup renamed k ≡ some p
      → equal k new_dn ≡ false
      → (lookup m k ≡ some p) × (equal k old ≡ false)
  renamed_lem k p h e = ground (
    arith,
    h,
    lookup-put (delete_key m old) new_dn (record o { dn = new_dn }) k,
    lookup-delete_key m old k,
    equal_iff k new_dn,
    equal_iff new_dn k,
    equal_iff old k,
    equal_iff k old,
  )

  -- an entry that moves
  mover :
      (k : Bytes) (p : Object T)
      → lookup renamed k ≡ some p
      → moves u old new_dn k ≡ true
      → (front : Bytes) × (k ≡ front ++ (b',' ∷ old))
  mover k p h mv =
      let (at, ne) = renamed_lem k p h (ground (arith, mv)) in
      room.spelled k p at ne (ground (arith, mv))

  longer : (front : Bytes) → equal (front ++ (b',' ∷ new_dn)) new_dn ≡ false
  longer front = elim (Bool-cases (equal (front ++ (b',' ∷ new_dn)) new_dn)) [
    | inr e ↦ e
    | inl e ↦
        absurd (omega (arith, ap length ((equal_iff _ _).0 e), length-append front (b',' ∷ new_dn)))
  ]

  suffix_apart : (front k : Bytes) → has_suffix k new_dn ≡ false → equal (front ++ new_dn) k ≡ false
  suffix_apart front k h = elim (Bool-cases (equal (front ++ new_dn) k)) [
    | inr e ↦ e
    | inl e ↦
        let never : true ≡ false =
          sym (has_suffix-append front new_dn)
          ∙ ap (λ x. has_suffix x new_dn) ((equal_iff _ _).0 e)
          ∙ h in
        cc
  ]

  renamed-IsApart : IsApart u old new_dn renamed
  renamed-IsApart = record {
    untaken = λ j k p q hj hk mv. elim (Bool-cases (equal k new_dn)) [
      | inl e ↦
          let (front, is) = mover j p hj mv in
          ap (λ x. equal (rebased old new_dn x) k) is
          ∙ ap (λ x. equal x k) (rebased-append front old new_dn)
          ∙ ap (equal (front ++ (b',' ∷ new_dn))) ((equal_iff k new_dn).0 e)
          ∙ longer front
      | inr e ↦
          let (at, ne) = renamed_lem k q hk e in
          suffix_apart (take (length j - length old) j) k (room.clear k q at ne)
    ];
    distinct = λ j k p q hj hk mj mk same.
        let (a, ja) = mover j p hj mj in
        let (b, kb) = mover k q hk mk in
        let one : a ++ (b',' ∷ new_dn) ≡ b ++ (b',' ∷ new_dn) =
          sym (rebased-append a old new_dn)
          ∙ ap (rebased old new_dn) (sym ja)
          ∙ same
          ∙ ap (rebased old new_dn) kb
          ∙ rebased-append b old new_dn in
        ja ∙ ap (λ x. x ++ (b',' ∷ old)) (append_cancel_right a b (b',' ∷ new_dn) one) ∙ sym kb;
  }

beside_unmoved :
    (u : CaseFolding) (old new_dn k : Bytes)
    → is_below u k old ≡ false
    → {T : Type 0} (m : List (Bytes × Object T)) → move_child u old new_dn k m ≡ m
unfolding move_child
beside_unmoved u old new_dn k h m = elim (Option-cases (lookup m k)) [
  | inl e ↦ rw (e, move_child) refl
  | inr (p, e) ↦ elim (Bool-cases (equal k new_dn)) [
    | inl b ↦ rw (e, b, move_child) refl
    | inr b ↦ rw (e, b, h, move_child) refl
  ]
]

new_unmoved :
    (u : CaseFolding) (old new_dn : Bytes) {T : Type 0} (m : List (Bytes × Object T))
    → move_child u old new_dn new_dn m ≡ m
unfolding move_child
new_unmoved u old new_dn m = elim (Option-cases (lookup m new_dn)) [
  | inl e ↦ rw (e, move_child) refl
  | inr (p, e) ↦ rw (e, equal_same new_dn, move_child) refl
]

moves_itself : (u : CaseFolding) (old new_dn : Bytes) → moves u old new_dn new_dn ≡ false
moves_itself u old new_dn = rw (equal_same new_dn) refl

moves_other :
    (u : CaseFolding) (old new_dn k : Bytes)
    → equal new_dn k ≡ false
    → moves u old new_dn k ≡ is_below u k old
moves_other u old new_dn k e = rw (equal-sym new_dn k e) (ground arith)

lookup-new_entry :
    {T : Type 0} (m : List (Bytes × Object T)) (old new_dn : Bytes) (o : Object T)
    → lookup (put (delete_key m old) new_dn o) new_dn ≡ some o
lookup-new_entry m old new_dn o =
    rw (lookup-put (delete_key m old) new_dn o new_dn, equal_same new_dn) refl

-- `moveLocked` of an object to a new DN, in a map of distinct keys where, leaving the key of the object's
-- DN aside, no key ends with the new DN, and each that lies below the old DN ends with a comma and the
-- old DN as it is written and has a new DN that does not lie below the old one: the object then stands at the new DN, each object below it at its own DN with
-- the old ending replaced by the new DN, which it carries on itself and on its models, and each other
-- object where it stood; so none is lost. Whatever the loop has done so far, a turn of it at the new DN or
-- at the new DN of a moved object, which are keys that the code adds to the map it runs over, changes
-- nothing; so it does not matter whether Go's loop meets them.
pub move_object_lem :
    (u : CaseFolding) {T : Type 0} (o : Object T) (new_dn : Bytes) (s : Store T)
    → Distinct (keys s.by_dn)
    → HasRoom u o.dn new_dn s.by_dn
    → (lookup (move_object u o new_dn s).1.by_dn new_dn ≡ some (record o { dn = new_dn }))
      × ((k : Bytes) (p : Object T)
          → lookup s.by_dn k ≡ some p
          → equal k o.dn ≡ false
          → lookup
              (move_object u o new_dn s).1.by_dn
              (if is_below u k o.dn then rebased o.dn new_dn k else k)
            ≡ some (if is_below u k o.dn then with_dn p (rebased o.dn new_dn k) else p))
      × ((k : Bytes) (p : Object T) (by_dn : List (Bytes × Object T))
          → lookup s.by_dn k ≡ some p
          → equal k o.dn ≡ false
          → is_below u k o.dn ≡ true
          → move_child u o.dn new_dn (rebased o.dn new_dn k) by_dn ≡ by_dn)
      × ((by_dn : List (Bytes × Object T)) → move_child u o.dn new_dn new_dn by_dn ≡ by_dn)
unfolding move_object
move_object_lem u {T} o new_dn s d room =
    let m = renamed u o.dn new_dn s.by_dn o room in
    let apart = renamed-IsApart u o.dn new_dn s.by_dn o room in
    let there =
      put-Distinct (delete_key s.by_dn o.dn) new_dn (record o { dn = new_dn })
        (delete_key-Distinct s.by_dn o.dn d) in
    let all = move_all u o.dn new_dn m apart there in
    (
      subst (λ b. At (move_children u o.dn new_dn (keys m) m) new_dn (record o { dn = new_dn }) b)
          (moves_itself u o.dn new_dn)
          (all new_dn (record o { dn = new_dn })
            (lookup-new_entry s.by_dn o.dn new_dn (record o { dn = new_dn }))),
      λ k p h ne.
          let ne_new = suffix_apart u o.dn new_dn s.by_dn o room [] k (room.clear k p h ne) in
          subst (At (move_children u o.dn new_dn (keys m) m) k p)
            (moves_other u o.dn new_dn k ne_new)
            (all k p (
              other_entry s.by_dn o.dn new_dn k (record o { dn = new_dn }) p h (equal-sym k o.dn ne)
                ne_new)),
      λ k p by_dn h ne below. beside_unmoved u o.dn new_dn _ (room.outside k p h ne below) by_dn,
      new_unmoved u o.dn new_dn,
    )
  where
    At : List (Bytes × Object T) → Bytes → Object T → Bool → Type 0
    At b k p moved =
        lookup b (if moved then rebased o.dn new_dn k else k)
        ≡ some (if moved then with_dn p (rebased o.dn new_dn k) else p)
