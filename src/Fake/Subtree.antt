-- ===== src/Fake/Subtree.antt =====
-- The loop of `moveLocked` of adcorefake/fake.go, where no moved entry meets another one.
use mathlib.Core.Path.{subst}
use go_adcore.Common.{
  ◌-◌, ◌≡◌, refl, sym, ap, ◌∙◌, Bool, true, false, not, ◌&&◌, ◌||◌, List, [], ◌∷◌, ◌++◌, some, take,
  length, if◌then◌else◌, arith, Bool-cases, inl, inr,
}
use go_adcore.Bytes.{Bytes, equal, equal_iff}
use go_adcore.Folding.{CaseFolding}
use go_adcore.Maps.{
  keys, has_key, lookup, put, delete_key, Distinct, lookup-put, lookup-delete_key, lookup-has_key,
  has_key-lookup, equal_same,
}
use go_adcore.Fake.Objects.{Object}
use go_adcore.Fake.Lookup.{is_below}
use go_adcore.Fake.Moving.{with_dn, move_child, move_children}

-- the DN of a descendant after the move
abbrev pub rebased : Bytes → Bytes → Bytes → Bytes
rebased old new_dn dn = take (length dn - length old) dn ++ new_dn

-- An entry that is neither the one taken away nor the one put in.
pub other_entry :
    {A : Type 0} (b : List (Bytes × A)) (dn to p : Bytes) (x a : A)
    → lookup b p ≡ some a
    → equal dn p ≡ false
    → equal to p ≡ false
    → lookup (put (delete_key b dn) to x) p ≡ some a
other_entry b dn to p x a h e f =
    rw (lookup-put (delete_key b dn) to x p, f, lookup-delete_key b dn p, e) h

pub equal-sym : (a b : Bytes) → equal a b ≡ false → equal b a ≡ false
equal-sym a b h = ground (arith, h, equal_iff a b, equal_iff b a)

module _ (u : CaseFolding) (old new_dn : Bytes) where
  -- the loop moves the entry of the key
  abbrev pub moves : Bytes → Bool
  moves k = not (equal k new_dn || not (is_below u k old))

  -- it has done so, where it has still to look at the keys `met`
  abbrev gone : List Bytes → Bytes → Bool
  gone met k = moves k && not (has_key met k)

  abbrev place : List Bytes → Bytes → Bytes
  place met k = if gone met k then rebased old new_dn k else k

  gone-moves : (met : List Bytes) (k : Bytes) → gone met k ≡ true → moves k ≡ true
  gone-moves met k h = ground (arith, h)

  gone_head : (met : List Bytes) (dn : Bytes) → gone (dn ∷ met) dn ≡ false
  unfolding has_key
  gone_head met dn = ground (arith, equal_same dn)

  gone_tail :
      (met : List Bytes) (dn k : Bytes) → equal dn k ≡ false → gone (dn ∷ met) k ≡ gone met k
  unfolding has_key
  gone_tail met dn k h = rw h refl

  gone_fresh : (met : List Bytes) (dn : Bytes) → has_key met dn ≡ false → gone met dn ≡ moves dn
  gone_fresh met dn h = ground (arith, h)

  gone_met : (met : List Bytes) (k : Bytes) → has_key met k ≡ true → gone met k ≡ false
  gone_met met k h = ground (arith, h)

  gone_nil : (k : Bytes) → gone [] k ≡ moves k
  unfolding has_key
  gone_nil k = ground arith

module _ (u : CaseFolding) {T : Type 0} (old new_dn : Bytes) where
  abbrev shown : List Bytes → Bytes → Object T → Object T
  shown met k o = if gone u old new_dn met k then with_dn o (rebased old new_dn k) else o

  -- where the entries of `m` are in `b`
  abbrev Placed : List (Bytes × Object T) → List Bytes → List (Bytes × Object T) → Type 0
  Placed m met b =
      (k : Bytes) (o : Object T)
      → lookup m k ≡ some o
      → lookup b (place u old new_dn met k) ≡ some (shown met k o)

  -- No moved entry meets another one.
  pub record IsApart (m : List (Bytes × Object T)) : Type 0 where
    pub untaken :
        (j k : Bytes) (p o : Object T)
        → lookup m j ≡ some p
        → lookup m k ≡ some o
        → moves u old new_dn j ≡ true
        → equal (rebased old new_dn j) k ≡ false
    pub distinct :
        (j k : Bytes) (p o : Object T)
        → lookup m j ≡ some p
        → lookup m k ≡ some o
        → moves u old new_dn j ≡ true
        → moves u old new_dn k ≡ true
        → rebased old new_dn j ≡ rebased old new_dn k
        → j ≡ k

  -- what the loop makes of the entry of `dn`
  abbrev moved_to : List (Bytes × Object T) → Bytes → Object T → List (Bytes × Object T)
  moved_to b dn child =
      put (delete_key b dn) (rebased old new_dn dn) (with_dn child (rebased old new_dn dn))

  module _ (m : List (Bytes × Object T)) (apart : IsApart m) where
    other_place :
        (dn k : Bytes) (child o : Object T) (met : List Bytes)
        → lookup m dn ≡ some child
        → lookup m k ≡ some o
        → equal dn k ≡ false
        → moves u old new_dn dn ≡ true
        → (equal dn (place u old new_dn met k) ≡ false)
          × (equal (rebased old new_dn dn) (place u old new_dn met k) ≡ false)
    other_place dn k child o met at there ne mv = elim (Bool-cases (gone u old new_dn met k)) [
      | inl e ↦
          let mk = gone-moves u old new_dn met k e in
          rw e (
            equal-sym _ _ (apart.untaken k dn o child there at mk),
            elim (Bool-cases (equal (rebased old new_dn dn) (rebased old new_dn k))) [
              | inr f ↦ f
              | inl f ↦
                  let same : dn ≡ k =
                    apart.distinct dn k child o at there mv mk ((equal_iff _ _).0 f) in
                  absurd (ground (arith, ne, (equal_iff dn k).1 same))
            ],
          )
      | inr e ↦ rw e (ne, apart.untaken dn k child o at there mv)
    ]

    self_Placed :
        (dn : Bytes) (child : Object T) (met : List Bytes) (b : List (Bytes × Object T))
        → has_key met dn ≡ false
        → moves u old new_dn dn ≡ true
        → lookup (moved_to b dn child) (place u old new_dn met dn) ≡ some (shown met dn child)
    self_Placed dn child met b fresh mv =
        let e : gone u old new_dn met dn ≡ true = gone_fresh u old new_dn met dn fresh ∙ mv in
        rw
          (
            e,
            lookup-put (delete_key b dn) (rebased old new_dn dn)
                (with_dn child (rebased old new_dn dn)) (rebased old new_dn dn),
            equal_same (rebased old new_dn dn),
          )
          refl

    move_child_eq :
        (dn : Bytes) (child : Object T) (b : List (Bytes × Object T))
        → lookup b dn ≡ some child
        → move_child u old new_dn dn b ≡ (if moves u old new_dn dn then moved_to b dn child else b)
    unfolding move_child
    move_child_eq dn child b h = elim (Bool-cases (equal dn new_dn || not (is_below u dn old))) [
      | inl e ↦ rw (h, e, move_child) refl
      | inr e ↦ rw (h, e, move_child) refl
    ]

    -- an entry that the loop has moved, or has not
    abbrev At : List (Bytes × Object T) → Bytes → Object T → Bool → Type 0
    At b k o moved =
        lookup b (if moved then rebased old new_dn k else k)
        ≡ some (if moved then with_dn o (rebased old new_dn k) else o)

    own_turn :
        (dn : Bytes) (child : Object T) (met : List Bytes) (b : List (Bytes × Object T))
        → lookup m dn ≡ some child
        → has_key met dn ≡ false
        → lookup b dn ≡ some child
        → At (move_child u old new_dn dn b) dn child (gone u old new_dn met dn)
    own_turn dn child met b at fresh here = elim (Bool-cases (moves u old new_dn dn)) [
      | inl mv ↦
          subst (λ x. At x dn child (gone u old new_dn met dn))
            (sym
              (move_child_eq dn child b here ∙ ap (λ c. if c then moved_to b dn child else b) mv))
            (self_Placed dn child met b fresh mv)
      | inr mv ↦
          subst (At (move_child u old new_dn dn b) dn child)
            (sym (gone_fresh u old new_dn met dn fresh ∙ mv))
            (rw (move_child_eq dn child b here, mv) here)
    ]

    other_turn :
        (dn k : Bytes) (child o : Object T) (met : List Bytes) (b : List (Bytes × Object T))
        → lookup m dn ≡ some child
        → lookup m k ≡ some o
        → lookup b dn ≡ some child
        → equal dn k ≡ false
        → At b k o (gone u old new_dn met k)
        → At (move_child u old new_dn dn b) k o (gone u old new_dn met k)
    other_turn dn k child o met b at there here ne before =
        elim (Bool-cases (moves u old new_dn dn)) [
          | inl mv ↦
              let (apart_dn, apart_to) = other_place dn k child o met at there ne mv in
              rw (move_child_eq dn child b here, mv)
                (other_entry b dn (rebased old new_dn dn) (place u old new_dn met k)
                  (with_dn child (rebased old new_dn dn)) (shown met k o) before apart_dn apart_to)
          | inr mv ↦ rw (move_child_eq dn child b here, mv) before
        ]

    -- One turn of the loop puts its entry in place, and leaves the others in theirs.
    move_child-Placed :
        (dn : Bytes) (child : Object T) (met : List Bytes) (b : List (Bytes × Object T))
        → lookup m dn ≡ some child
        → has_key met dn ≡ false
        → Placed m (dn ∷ met) b
        → Placed m met (move_child u old new_dn dn b)
    move_child-Placed dn child met b at fresh before k o there =
        let here : lookup b dn ≡ some child =
          subst (At b dn child) (gone_head u old new_dn met dn) (before dn child at) in
        elim (Bool-cases (equal dn k)) [
          | inl e ↦
              let same : dn ≡ k = (equal_iff dn k).0 e in
              let found : some child ≡ some o = sym at ∙ ap (lookup m) same ∙ there in
              subst (λ x. At (move_child u old new_dn dn b) x o (gone u old new_dn met x)) same
                (own_turn dn o met b (at ∙ found) fresh (here ∙ found))
          | inr e ↦
              other_turn dn k child o met b at there here e
                (subst (At b k o) (gone_tail u old new_dn met dn k e) (before k o there))
        ]

    move_children-Placed :
        (met : List Bytes) (b : List (Bytes × Object T))
        → Distinct met
        → ((k : Bytes) → has_key met k ≡ true → (o : Object T) × (lookup m k ≡ some o))
        → Placed m met b
        → Placed m [] (move_children u old new_dn met b)
    unfolding move_children has_key
    move_children-Placed [] b d h before = before
    move_children-Placed (dn ∷ met) b d h before =
        let (child, at) = h dn (rw (equal_same dn) refl) in
        move_children-Placed met (move_child u old new_dn dn b) d.1 (λ k e. h k (ground (arith, e)))
          (move_child-Placed dn child met b at d.0 before)

  -- After the loop over all keys each entry is in its place.
  pub move_all :
      (m : List (Bytes × Object T))
      → IsApart m
      → Distinct (keys m)
      → (k : Bytes) (o : Object T) → lookup m k ≡ some o
      → lookup
          (move_children u old new_dn (keys m) m)
          (if moves u old new_dn k then rebased old new_dn k else k)
        ≡ some (if moves u old new_dn k then with_dn o (rebased old new_dn k) else o)
  move_all m apart d k o h =
      subst (At m apart (move_children u old new_dn (keys m) m) k o) (gone_nil u old new_dn k) (
        move_children-Placed m apart (keys m) m d (λ j e. has_key-lookup m j e)
          (λ j p at.
            subst (At m apart m j p)
              (sym (gone_met u old new_dn (keys m) j (lookup-has_key m j p at))) at)
          k o h)
