-- ===== src/Fake/Relocating.antt =====
-- `moveLocked` of adcorefake/fake.go and the end of every `Update` keep what holds of `byDN`, and leave
-- the updated object under its new DN.
use mathlib.Core.Path.{subst}
use go_adcore.Common.{
  ℕ, ◌≡◌, refl, sym, ap, ◌∙◌, Bool, true, false, List, [], ◌∷◌, some, if◌then◌else◌, ok, arith, ◌<◌,
  ◌-◌, length, take, length-append, length-take, Bool-cases, Option-cases, inl, inr,
}
use go_adcore.Bytes.{Bytes, equal, equal_iff}
use go_adcore.Folding.{CaseFolding}
use go_adcore.Maps.{put, lookup, delete_key, lookup-put, equal_same, keys, has_key, has_key-lookup}
use go_adcore.Fake.Objects.{Object, Store}
use go_adcore.Fake.Lookup.{is_below, save}
use go_adcore.Fake.Moving.{move_child, move_children, move_object, with_dn}
use go_adcore.Fake.Classes.{finish_update, save_moved, relabelled}
use go_adcore.Fake.Subtree.{rebased, other_entry, equal-sym}
use go_adcore.Fake.Invariant.{
  IsConsistent, IsFree, Issued, put-IsConsistent, delete_key-IsConsistent, delete_key-IsFree,
  delete_key-some, put-cases,
}

-- What the loop keeps: the objects are consistent, and the GUID is under `new_dn` or nowhere.
abbrev Keeps : {T : Type 0} → ℕ → Bytes → Bytes → List (Bytes × Object T) → Type 0
Keeps n new_dn g m = IsConsistent n m × IsFree m new_dn g

module _ (u : CaseFolding) {T : Type 0} (n : ℕ) (old new_dn g : Bytes) where
  move_one :
      (m : List (Bytes × Object T)) (dn moved : Bytes) (child : Object T)
      → Keeps n new_dn g m
      → lookup m dn ≡ some child
      → equal dn new_dn ≡ false
      → Keeps n new_dn g (put (delete_key m dn) moved (with_dn child moved))
  move_one m dn moved child (c, f) h e = (
    put-IsConsistent n (delete_key m dn) (with_dn child moved) (delete_key-IsConsistent n m dn c)
        (c.issued dn child h) (delete_key-IsFree n m dn moved child c h),
    λ j p there is. elim (put-cases (delete_key m dn) moved (with_dn child moved) j p there) [
      | inl a ↦
          let its : child.guid ≡ g = ap (λ (x : Object T). x.guid) a.1 ∙ is in
          absurd (ground (arith, equal_iff dn new_dn, f dn child h its, e))
      | inr a ↦ f j p (delete_key-some m dn j p a.1).1 is
    ],
  )

  move_child-Keeps :
      (m : List (Bytes × Object T)) (dn : Bytes)
      → Keeps n new_dn g m
      → Keeps n new_dn g (move_child u old new_dn dn m)
  unfolding move_child
  move_child-Keeps m dn k = elim (Option-cases (lookup m dn)) [
    | inl e ↦ rw (e, move_child) k
    | inr (child, e) ↦ elim (Bool-cases (equal dn new_dn)) [
      | inl is ↦ rw (e, is, move_child) k
      | inr is ↦ elim (Bool-cases (is_below u dn old)) [
        | inl b ↦ rw (e, is, b, move_child) (move_one m dn _ child k e is)
        | inr b ↦ rw (e, is, b, move_child) k
      ]
    ]
  ]

  move_children-Keeps :
      (met : List Bytes) (m : List (Bytes × Object T))
      → Keeps n new_dn g m
      → Keeps n new_dn g (move_children u old new_dn met m)
  unfolding move_children
  move_children-Keeps [] m k = k
  move_children-Keeps (dn ∷ met) m k =
      move_children-Keeps met (move_child u old new_dn dn m) (move_child-Keeps m dn k)

module _ (u : CaseFolding) {T : Type 0} (old new_dn : Bytes) (o : Object T) where
  -- A moved key is longer than the new DN, so nothing is put in the place of the object itself.
  move_child-stays :
      (m : List (Bytes × Object T)) (dn : Bytes)
      → (equal new_dn dn ≡ false → is_below u dn old ≡ true → length old < length dn)
      → lookup m new_dn ≡ some o
      → lookup (move_child u old new_dn dn m) new_dn ≡ some o
  unfolding move_child
  move_child-stays m dn deeper h = elim (Option-cases (lookup m dn)) [
    | inl e ↦ rw (e, move_child) h
    | inr (child, e) ↦ elim (Bool-cases (equal dn new_dn)) [
      | inl is ↦ rw (e, is, move_child) h
      | inr is ↦ elim (Bool-cases (is_below u dn old)) [
        | inl b ↦
            let more = deeper (equal-sym dn new_dn is) b in
            rw (e, is, b, move_child)
              (other_entry m dn (rebased old new_dn dn) new_dn _ o h is (longer_apart dn more))
        | inr b ↦ rw (e, is, b, move_child) h
      ]
    ]
  ]
    where
      longer_apart :
          (dn : Bytes) → length old < length dn → equal (rebased old new_dn dn) new_dn ≡ false
      longer_apart dn more = elim (Bool-cases (equal (rebased old new_dn dn) new_dn)) [
        | inr e ↦ e
        | inl e ↦ absurd (
            omega (
              arith,
              more,
              ap length ((equal_iff _ _).0 e),
              length-append (take (length dn - length old) dn) new_dn,
              length-take (length dn - length old) dn (omega (arith)),
            ))
      ]

  move_children-stays :
      (met : List Bytes) (m : List (Bytes × Object T))
      → ((k : Bytes)
          → has_key met k ≡ true
          → equal new_dn k ≡ false
          → is_below u k old ≡ true
          → length old < length k)
      → lookup m new_dn ≡ some o
      → lookup (move_children u old new_dn met m) new_dn ≡ some o
  unfolding move_children has_key
  move_children-stays [] m deeper h = h
  move_children-stays (dn ∷ met) m deeper h =
      move_children-stays met (move_child u old new_dn dn m)
        (λ k there. deeper k (rw there (ground arith)))
        (move_child-stays m dn (deeper dn (rw (equal_same dn) refl)) h)

-- The DNs below `old` are longer than `old`, as they are where lower-casing keeps the length of a DN.
abbrev pub IsDeeper : CaseFolding → {T : Type 0} → Bytes → List (Bytes × Object T) → Type 0
IsDeeper u {T} old m =
    (k : Bytes) (p : Object T)
    → lookup m k ≡ some p
    → is_below u k old ≡ true
    → length old < length k

-- The store after an `Update`, of an object that stood at `old`, that ends in the object `o`.
pub record IsSettled (u : CaseFolding) {T : Type 0} (old : Bytes) (s : Store T) (o : Object T)
    (s' : Store T) : Type 0 where
  pub consistent : IsConsistent s'.seq s'.by_dn
  pub found : IsDeeper u old s.by_dn → lookup s'.by_dn o.dn ≡ some o
  pub seq : s'.seq ≡ s.seq
  pub dnc : s'.dnc ≡ s.dnc

module _ {T : Type 0} where
  pub found-put : (m : List (Bytes × Object T)) (o : Object T) → lookup (put m o.dn o) o.dn ≡ some o
  found-put m o = lookup-put m o.dn o o.dn ∙ rw (equal_same o.dn) refl

  same-IsFree :
      (n : ℕ) (m : List (Bytes × Object T)) (k g : Bytes) (o : Object T)
      → IsConsistent n m
      → lookup m k ≡ some o
      → o.guid ≡ g
      → IsFree m k g
  same-IsFree n m k g o c h e j p there is = c.unique j k p o there h (is ∙ sym e)

  replaced :
      (s : Store T) (old o : Object T)
      → IsConsistent s.seq s.by_dn
      → lookup s.by_dn o.dn ≡ some old
      → old.guid ≡ o.guid
      → IsConsistent s.seq (put s.by_dn o.dn o) × (lookup (put s.by_dn o.dn o) o.dn ≡ some o)
  replaced s old o c h e = (
    put-IsConsistent s.seq s.by_dn o c
        (let (i, le, is) = c.issued o.dn old h in (i, le, sym e ∙ is))
        (same-IsFree s.seq s.by_dn o.dn o.guid old c h e),
    found-put s.by_dn o,
  )

  other_put :
      (m : List (Bytes × Object T)) (o : Object T) (k : Bytes) (p : Object T)
      → lookup (put m o.dn o) k ≡ some p
      → equal o.dn k ≡ false
      → lookup m k ≡ some p
  other_put m o k p h ne = ground (arith, h, ne, lookup-put m o.dn o k)

  -- An object is replaced by one with its DN and its GUID.
  pub replace-IsSettled :
      (u : CaseFolding) (s : Store T) (old o : Object T)
      → IsConsistent s.seq s.by_dn
      → lookup s.by_dn o.dn ≡ some old
      → old.guid ≡ o.guid
      → IsSettled u o.dn s o (record s { by_dn = put s.by_dn o.dn o })
  replace-IsSettled u s old o c h e = record {
    consistent = (replaced s old o c h e).0;
    found = λ deeper. (replaced s old o c h e).1;
    seq = refl;
    dnc = refl;
  }

module _ (u : CaseFolding) {T : Type 0} where
  move_object-Keeps :
      (s : Store T) (o : Object T) (new_dn : Bytes)
      → IsConsistent s.seq s.by_dn
      → lookup s.by_dn o.dn ≡ some o
      → Keeps s.seq new_dn o.guid (move_object u o new_dn s).1.by_dn
  unfolding move_object
  move_object-Keeps s o new_dn c h =
      let m = delete_key s.by_dn o.dn in
      let away = delete_key-IsConsistent s.seq s.by_dn o.dn c in
      let there =
        put-IsConsistent s.seq m (record o { dn = new_dn }) away (c.issued o.dn o h)
          (delete_key-IsFree s.seq s.by_dn o.dn new_dn o c h) in
      move_children-Keeps u s.seq o.dn new_dn o.guid _ _ (
        there,
        same-IsFree s.seq (put m new_dn (record o { dn = new_dn })) new_dn o.guid
            (record o { dn = new_dn }) there (found-put m (record o { dn = new_dn })) refl,
      )

  save_moved-IsConsistent :
      (n : ℕ) (m : List (Bytes × Object T)) (dn : Bytes) (o : Object T)
      → IsConsistent n m
      → o.dn ≡ dn
      → Issued n o.guid
      → IsFree m dn o.guid
      → IsConsistent n (save_moved dn o m)
  unfolding save_moved
  save_moved-IsConsistent n m dn o c is issued free = elim (Option-cases (lookup m dn)) [
    | inl e ↦ rw (e, save_moved) c
    | inr (p, e) ↦ elim (Bool-cases (equal p.guid o.guid)) [
      | inl b ↦
          rw (e, b, save_moved)
            (subst (λ d. IsConsistent n (put m d o)) is
              (put-IsConsistent n m o c issued (λ j q at same. free j q at same ∙ sym is)))
      | inr b ↦ rw (e, b, save_moved) c
    ]
  ]

  save_moved-found :
      (m : List (Bytes × Object T)) (dn : Bytes) (o p : Object T)
      → lookup m dn ≡ some p
      → p.guid ≡ o.guid
      → lookup (save_moved dn o m) dn ≡ some o
  unfolding save_moved
  save_moved-found m dn o p h e =
      let same : equal p.guid o.guid ≡ true = (equal_iff p.guid o.guid).1 e in
      rw (h, same, save_moved) (lookup-put m dn o dn ∙ rw (equal_same dn) refl)

  move_object-stays :
      (s : Store T) (o : Object T) (new_dn : Bytes)
      → ((k : Bytes) (p : Object T)
          → lookup s.by_dn k ≡ some p
          → equal o.dn k ≡ false
          → is_below u k o.dn ≡ true
          → length o.dn < length k)
      → lookup (move_object u o new_dn s).1.by_dn new_dn ≡ some (record o { dn = new_dn })
  unfolding move_object
  move_object-stays s o new_dn deeper =
      let moved : Object T = record o { dn = new_dn } in
      let m = put (delete_key s.by_dn o.dn) new_dn moved in
      move_children-stays u o.dn new_dn moved (keys m) m
        (λ k met ne below.
          let (p, h) = has_key-lookup m k met in
          let away = other_put (delete_key s.by_dn o.dn) moved k p h ne in
          let (apart, there) = delete_key-some s.by_dn o.dn k p away in
          deeper k p there (ground (arith, apart, equal_iff o.dn k)) below)
        (found-put (delete_key s.by_dn o.dn) moved)

  -- `Update` gives the object that it returns: with the GUID of the one it found, and with a
  -- `relabel` that changes models only.
  pub finish_update-IsSettled :
      (s : Store T) (old o : Object T) (differs : Bool) (new_dn : Bytes)
      (relabel : Object T → Object T)
      → IsConsistent s.seq s.by_dn
      → lookup s.by_dn o.dn ≡ some old
      → old.guid ≡ o.guid
      → ((x : Object T)
          → ((relabel x).dn ≡ x.dn)
            × ((relabel x).guid ≡ x.guid)
            × ((relabel x).class ≡ x.class)
            × ((relabel x).members ≡ x.members)
            × ((relabel x).dacl ≡ x.dacl))
      → (last : Object T) × ((finish_update u differs new_dn relabel o s).0 ≡ ok last)
        × (last.guid ≡ o.guid)
        × (last.class ≡ o.class)
        × (last.members ≡ o.members)
        × (last.dacl ≡ o.dacl)
        × (last.dn ≡ (if differs then new_dn else o.dn))
        × IsSettled u o.dn s last (finish_update u differs new_dn relabel o s).1
  unfolding finish_update save relabelled move_object
  finish_update-IsSettled s old o false new_dn relabel c h e labels =
      (o, refl, refl, refl, refl, refl, refl, replace-IsSettled u s old o c h e)
  finish_update-IsSettled s old o true new_dn relabel c h e labels =
      let first = replaced s old o c h e in
      let (k, f) =
        move_object-Keeps (record s { by_dn = put s.by_dn o.dn o }) o new_dn first.0 first.1 in
      let m = (move_object u o new_dn (record s { by_dn = put s.by_dn o.dn o })).1.by_dn in
      let last = relabel (record o { dn = new_dn }) in
      let its_dn : last.dn ≡ new_dn = (labels (record o { dn = new_dn })).0 in
      let its_guid : last.guid ≡ o.guid = (labels (record o { dn = new_dn })).1 in
      (
        last,
        refl,
        its_guid,
        (labels (record o { dn = new_dn })).2,
        (labels (record o { dn = new_dn })).3,
        (labels (record o { dn = new_dn })).4,
        its_dn,
        record {
          consistent =
              save_moved-IsConsistent s.seq m new_dn last k its_dn
                (let (i, le, is) = first.0.issued o.dn o first.1 in (i, le, its_guid ∙ is))
                (λ j p there is. f j p there (is ∙ its_guid));
          found = λ deeper.
              ap (lookup (save_moved new_dn last m)) its_dn
              ∙ save_moved-found m new_dn last (record o { dn = new_dn })
                  (move_object-stays (record s { by_dn = put s.by_dn o.dn o }) o new_dn
                    (λ k p h ne. deeper k p (other_put s.by_dn o k p h ne)))
                  (sym its_guid);
          seq = refl;
          dnc = refl;
        },
      )
