-- ===== src/Fake/Carrying.antt =====
-- What `moveLocked` of adcorefake/fake.go and the end of every `Update` do to the objects that the
-- `Update` is not about.
use go_adcore.Common.{
  ◌≡◌, refl, sym, ap, ◌∙◌, Bool, true, false, not, ◌||◌, List, [], ◌∷◌, ◌++◌, ◌-◌, take, length,
  some, Option-cases, Bool-cases, ◌⊎◌, inl, inr, arith,
}
use go_adcore.Bytes.{Bytes, equal, equal_iff}
use go_adcore.Folding.{CaseFolding}
use go_adcore.Maps.{put, lookup, delete_key, keys}
use go_adcore.Fake.Objects.{Object, Store}
use go_adcore.Fake.Lookup.{is_below, has_suffix, save}
use go_adcore.Fake.Naming.{has_suffix-append}
use go_adcore.Fake.Moving.{with_dn, move_child, move_children, move_object}
use go_adcore.Fake.Classes.{finish_update, save_moved, relabelled}
use go_adcore.Fake.Invariant.{put-cases, delete_key-some}

-- From the key `j` to the key `k` the object is the same at the same key, or it lay below the DN `old`
-- and lies under `new_dn`, and only its DN and that of its models has changed.
abbrev pub Carried :
    {T : Type 0} → CaseFolding → Bytes → Bytes → Bytes → Object T → Bytes → Object T → Type 0
Carried u old new_dn j o k p =
    ((k ≡ j) × (p ≡ o))
    ⊎ ((is_below u j old ≡ true)
        × (has_suffix k new_dn ≡ true)
        × (p ≡ record o {
          dn = k;
          ou = record o.ou { dn = k };
          group = record o.group { dn = k };
          user = record o.user { dn = k };
          computer = record o.computer { dn = k };
          gmsa = record o.gmsa { dn = k };
        }))

-- Every object with another GUID than `g` was there before.
abbrev pub CarriedAll :
    {T : Type 0}
    → CaseFolding
    → Bytes
    → Bytes
    → Bytes
    → List (Bytes × Object T)
    → List (Bytes × Object T)
    → Type 0
CarriedAll {T} u old new_dn g m m' =
    (k : Bytes) (p : Object T)
    → lookup m' k ≡ some p
    → equal p.guid g ≡ false
    → (j : Bytes) × (o : Object T) × (lookup m j ≡ some o) × Carried u old new_dn j o k p

module _ (u : CaseFolding) (old new_dn : Bytes) {T : Type 0} where
  pub Carried-guid : (j k : Bytes) (o p : Object T) → Carried u old new_dn j o k p → p.guid ≡ o.guid
  Carried-guid j k o p (inl e) = ap (λ (x : Object T). x.guid) e.1
  Carried-guid j k o p (inr e) = ap (λ (x : Object T). x.guid) e.2

  Carried-trans :
      (i j k : Bytes) (a b c : Object T)
      → Carried u old new_dn i a j b
      → Carried u old new_dn j b k c
      → Carried u old new_dn i a k c
  Carried-trans i j k a b c (inl e) (inl f) = inl (f.0 ∙ e.0, f.1 ∙ e.1)
  Carried-trans i j k a b c (inl e) (inr (below, ends, f)) =
      inr (ap (λ x. is_below u x old) (sym e.0) ∙ below, ends, f ∙ ap (λ x. with_dn x k) e.1)
  Carried-trans i j k a b c (inr (below, ends, e)) (inl f) =
      inr (below, ap (λ x. has_suffix x new_dn) f.0 ∙ ends, f.1 ∙ e ∙ ap (with_dn a) (sym f.0))
  Carried-trans i j k a b c (inr (below, ends, e)) (inr (below', ends', f)) =
      inr (below, ends', f ∙ ap (λ x. with_dn x k) e)

  module _ (g : Bytes) where
    CarriedAll-same : (m : List (Bytes × Object T)) → CarriedAll u old new_dn g m m
    CarriedAll-same m k p h ne = (k, p, h, inl (refl, refl))

    CarriedAll-trans :
        (a b c : List (Bytes × Object T))
        → CarriedAll u old new_dn g a b
        → CarriedAll u old new_dn g b c
        → CarriedAll u old new_dn g a c
    CarriedAll-trans a b c first second k p h ne =
        let (j, o, at, carried) = second k p h ne in
        let (i, q, there, before) =
          first j o at (ap (λ x. equal x g) (sym (Carried-guid j k o p carried)) ∙ ne) in
        (i, q, there, Carried-trans i j k q o p before carried)

    -- the writes of the object itself
    put-CarriedAll :
        (m : List (Bytes × Object T)) (k : Bytes) (o : Object T)
        → o.guid ≡ g
        → CarriedAll u old new_dn g m (put m k o)
    put-CarriedAll m k o e j p h ne = elim (put-cases m k o j p h) [
      | inl a ↦
          absurd
            (ground (arith, ne, equal_iff p.guid g, ap (λ (x : Object T). x.guid) (sym a.1) ∙ e))
      | inr a ↦ (j, p, a.1, inl (refl, refl))
    ]

    delete_key-CarriedAll :
        (m : List (Bytes × Object T)) (k : Bytes) → CarriedAll u old new_dn g m (delete_key m k)
    delete_key-CarriedAll m k j p h ne = (j, p, (delete_key-some m k j p h).1, inl (refl, refl))

    relocate-CarriedAll :
        (m : List (Bytes × Object T)) (dn front : Bytes) (child : Object T)
        → lookup m dn ≡ some child
        → is_below u dn old ≡ true
        → CarriedAll u old new_dn g m
            (put (delete_key m dn) (front ++ new_dn) (with_dn child (front ++ new_dn)))
    relocate-CarriedAll m dn front child at below j p h ne =
        let moved = front ++ new_dn in
        elim (put-cases (delete_key m dn) moved (with_dn child moved) j p h) [
          | inl a ↦ (
            dn,
            child,
            at,
            inr (
              below,
              ap (λ x. has_suffix x new_dn) (sym a.0) ∙ has_suffix-append front new_dn,
              sym a.1 ∙ ap (with_dn child) a.0,
            ),
          )
          | inr a ↦ (j, p, (delete_key-some m dn j p a.1).1, inl (refl, refl))
        ]

    move_child-CarriedAll :
        (dn : Bytes) (m : List (Bytes × Object T))
        → CarriedAll u old new_dn g m (move_child u old new_dn dn m)
    unfolding move_child
    move_child-CarriedAll dn m = elim (Option-cases (lookup m dn)) [
      | inl e ↦ rw (e, move_child) (CarriedAll-same m)
      | inr (child, e) ↦ elim (Bool-cases (equal dn new_dn || not (is_below u dn old))) [
        | inl b ↦ rw (e, b, move_child) (CarriedAll-same m)
        | inr b ↦
            rw (e, b, move_child)
              (relocate-CarriedAll m dn (take (length dn - length old) dn) child e
                (ground (arith, b)))
      ]
    ]

    move_children-CarriedAll :
        (met : List Bytes) (m : List (Bytes × Object T))
        → CarriedAll u old new_dn g m (move_children u old new_dn met m)
    unfolding move_children
    move_children-CarriedAll [] m = CarriedAll-same m
    move_children-CarriedAll (dn ∷ met) m =
        CarriedAll-trans m (move_child u old new_dn dn m)
          (move_children u old new_dn met (move_child u old new_dn dn m))
          (move_child-CarriedAll dn m) (move_children-CarriedAll met (move_child u old new_dn dn m))

module _ {T : Type 0} where
  save_moved-CarriedAll :
      (u : CaseFolding) (old new_dn g : Bytes) (m : List (Bytes × Object T)) (o : Object T)
      → o.guid ≡ g
      → CarriedAll u old new_dn g m (save_moved new_dn o m)
  unfolding save_moved
  save_moved-CarriedAll u old new_dn g m o e = elim (Option-cases (lookup m new_dn)) [
    | inl gone ↦ rw (gone, save_moved) (CarriedAll-same u old new_dn g m)
    | inr (p, at) ↦ elim (Bool-cases (equal p.guid o.guid)) [
      | inl b ↦ rw (at, b, save_moved) (put-CarriedAll u old new_dn g m new_dn o e)
      | inr b ↦ rw (at, b, save_moved) (CarriedAll-same u old new_dn g m)
    ]
  ]

  move_object-CarriedAll :
      (u : CaseFolding) (o : Object T) (new_dn : Bytes) (s : Store T)
      → CarriedAll u o.dn new_dn o.guid s.by_dn (move_object u o new_dn s).1.by_dn
  unfolding move_object
  move_object-CarriedAll u o new_dn s =
      let away = delete_key s.by_dn o.dn in
      let there = put away new_dn (record o { dn = new_dn }) in
      CarriedAll-trans u o.dn new_dn o.guid s.by_dn there _
        (CarriedAll-trans u o.dn new_dn o.guid s.by_dn away there
          (delete_key-CarriedAll u o.dn new_dn o.guid s.by_dn o.dn)
          (put-CarriedAll u o.dn new_dn o.guid away new_dn (record o { dn = new_dn }) refl))
        (move_children-CarriedAll u o.dn new_dn o.guid (keys there) there)

  -- The end of every `Update` leaves the other objects, but for the DNs of those that it moves along.
  pub finish_update-CarriedAll :
      (u : CaseFolding) (differs : Bool) (new_dn : Bytes) (relabel : Object T → Object T)
      (o : Object T) (s : Store T)
      → ((x : Object T) → (relabel x).guid ≡ x.guid)
      → CarriedAll u o.dn new_dn o.guid s.by_dn (finish_update u differs new_dn relabel o s).1.by_dn
  unfolding finish_update save relabelled move_object
  finish_update-CarriedAll u false new_dn relabel o s labels =
      put-CarriedAll u o.dn new_dn o.guid s.by_dn o.dn o refl
  finish_update-CarriedAll u true new_dn relabel o s labels =
      let saved : Store T = record s { by_dn = put s.by_dn o.dn o } in
      let moved = (move_object u o new_dn saved).1.by_dn in
      let last = relabel (record o { dn = new_dn }) in
      CarriedAll-trans u o.dn new_dn o.guid s.by_dn moved (save_moved new_dn last moved)
        (CarriedAll-trans u o.dn new_dn o.guid s.by_dn saved.by_dn moved
          (put-CarriedAll u o.dn new_dn o.guid s.by_dn o.dn o refl)
          (move_object-CarriedAll u o new_dn saved))
        (save_moved-CarriedAll u o.dn new_dn o.guid moved last (labels (record o { dn = new_dn })))
