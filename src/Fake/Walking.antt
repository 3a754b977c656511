-- ===== src/Fake/Walking.antt =====
-- The walk of `MembersRecursive` in adcorefake/group.go: it ends, and at its end all it has seen is
-- dealt with.
use mathlib.Core.List.{Memᴰ}
use mathlib.Core.List.Memᴰ
use mathlib.Core.Path.{subst}
use go_adcore.Common.{
  ℕ, zero, suc, ◌+◌, ◌≤◌, ◌<◌, ◌≡◌, refl, sym, ap, ◌∙◌, Bool, true, false, ◌||◌, List, [], ◌∷◌,
  ◌++◌, Option, some, if◌then◌else◌, All, length, Bool-cases, ◌⊎◌, inl, inr, arith,
}
use go_adcore.Bytes.{Bytes, equal, equal_iff}
use go_adcore.Maps.{has_key}
use go_adcore.Models.{Member}
use go_adcore.Fake.Objects.{Object}
use go_adcore.Fake.Groups.{group_name}
use go_adcore.Fake.Members.{
  Walk, leaf_model, and_then, walk_object, walk_objects, walk_members, walk_group,
}

-- `members` is among `seen`.
abbrev pub AllSeen : List Bytes → List Bytes → Type 0
AllSeen members seen = (g : Bytes) → has_key members g ≡ true → has_key seen g ≡ true

seen_more : (g : Bytes) (seen : List Bytes) → AllSeen seen (g ∷ seen)
unfolding has_key
seen_more g seen h e = ground (arith, e)

module _ {T : Type 0} where
  -- the entries whose GUID is not seen
  abbrev pub unseen : List (Bytes × Object T) → List Bytes → ℕ
  unseen [] seen = 0
  unseen ((k, o) ∷ m) seen = (if has_key seen o.guid then 0 else 1) + unseen m seen

  pub unseen_le_length :
      (m : List (Bytes × Object T)) (seen : List Bytes) → unseen m seen ≤ length m
  unseen_le_length [] seen = omega arith
  unseen_le_length ((k, o) ∷ m) seen = ground (arith, unseen_le_length m seen)

  unseen_mono :
      (m : List (Bytes × Object T)) (a b : List Bytes) → AllSeen a b → unseen m b ≤ unseen m a
  unseen_mono [] a b h = omega arith
  unseen_mono ((k, o) ∷ m) a b h = ground (arith, unseen_mono m a b h, h o.guid)

  abbrev has_guid : List (Bytes × Object T) → Bytes → Bool
  has_guid [] g = false
  has_guid ((k, o) ∷ m) g = equal o.guid g || has_guid m g

  unseen_less :
      (m : List (Bytes × Object T)) (g : Bytes) (seen : List Bytes)
      → has_key seen g ≡ false
      → has_guid m g ≡ true
      → unseen m (g ∷ seen) < unseen m seen
  unfolding has_key
  unseen_less [] g seen h e = cc
  unseen_less ((k, o) ∷ m) g seen h e = elim (Bool-cases (equal o.guid g)) [
    | inl is ↦
        let same = (equal_iff o.guid g).0 is in
        let old : has_key seen o.guid ≡ false = ap (has_key seen) same ∙ h in
        let new : equal g o.guid ≡ true = (equal_iff g o.guid).1 (sym same) in
        rw (old, new) (omega (arith, unseen_mono m seen (g ∷ seen) (seen_more g seen)))
    | inr is ↦ ground (
      arith,
      unseen_less m g seen h,
      is,
      e,
      seen_more g seen o.guid,
      equal_iff g o.guid,
      equal_iff o.guid g,
    )
  ]

  -- An object whose GUID is seen is dealt with: a group when its members are seen, a leaf when it is
  -- listed.
  abbrev pub DealtWith : Walk → Object T → Type 0
  DealtWith w o =
      (equal o.class group_name ≡ true → AllSeen o.members w.seen)
      × (equal o.class group_name ≡ false → Memᴰ (leaf_model o) w.out)

  abbrev pub Done : List (Bytes × Object T) → Walk → Bytes → Type 0
  Done m w g = All (λ (e : Bytes × Object T). equal e.1.guid g ≡ true → DealtWith w e.1) m

module _ {T : Type 0} (by_dn : List (Bytes × Object T)) where
  -- What a part of the walk does: it forgets nothing, and deals with all that it sees.
  pub record Grew (w w' : Walk) : Type 0 where
    pub grows : AllSeen w.seen w'.seen
    pub lists : (x : Member) → Memᴰ x w.out → Memᴰ x w'.out
    pub closed :
        (g : Bytes) → has_key w'.seen g ≡ true → (has_key w.seen g ≡ true) ⊎ Done by_dn w' g

  Done-mono :
      (m : List (Bytes × Object T)) (w w' : Walk) (g : Bytes) → Grew w w' → Done m w g → Done m w' g
  Done-mono [] w w' g grew d = tt
  Done-mono ((k, o) ∷ m) w w' g grew d = (
    λ e. (
      λ is h there. grew.grows h ((d.0 e).0 is h there),
      λ is. grew.lists (leaf_model o) ((d.0 e).1 is),
    ),
    Done-mono m w w' g grew d.1,
  )

  Grew-refl : (w : Walk) → Grew w w
  Grew-refl w = record { grows = λ g e. e; lists = λ x m. m; closed = λ g e. inl e }

  Grew-trans : (a b c : Walk) → Grew a b → Grew b c → Grew a c
  Grew-trans a b c p q = record {
    grows = λ g e. q.grows g (p.grows g e);
    lists = λ x m. q.lists x (p.lists x m);
    closed = λ g e. elim (q.closed g e) [
      | inr d ↦ inr d
      | inl s ↦ elim (p.closed g s) [ inl t ↦ inl t | inr d ↦ inr (Done-mono by_dn b c g q d) ]
    ];
  }

  -- A walk with the room for `k` unseen entries ends, and sees all members of the group.
  abbrev pub Ends : (Object T → Walk → Option Walk) → ℕ → Type 0
  Ends walk k =
      (o : Object T) (w : Walk)
      → unseen by_dn w.seen < k
      → (w' : Walk) × (walk o w ≡ some w') × Grew w w' × AllSeen o.members w'.seen

  module _ (walk : Object T → Walk → Option Walk) (k : ℕ) (ends : Ends walk k) where
    walk_object_lem :
        (g : Bytes) (o : Object T) (w : Walk)
        → (equal o.guid g ≡ true → unseen by_dn w.seen < k)
        → (w' : Walk) × (walk_object walk g o w ≡ some w')
          × Grew w w'
          × (equal o.guid g ≡ true → DealtWith w' o)
    walk_object_lem g o w room = elim (Bool-cases (equal o.guid g)) [
      | inr e ↦ (w, rw e refl, Grew-refl w, λ is. absurd (ground (arith, e, is)))
      | inl e ↦ elim (Bool-cases (equal o.class group_name)) [
        | inl c ↦
            let (w', is, grew, all) = ends o w (room e) in
            (w', rw (e, c) is, grew, λ h. (λ i. all, λ i. absurd (ground (arith, c, i))))
        | inr c ↦ (
          record w { out = w.out ++ leaf_model o ∷ [] },
          rw (e, c) refl,
          record {
            grows = λ h i. i;
            lists = λ x m. Memᴰ.append_left (leaf_model o ∷ []) m;
            closed = λ h i. inl i;
          },
          λ h. (λ i. absurd (ground (arith, c, i)), λ i. Memᴰ.append_right w.out (Memᴰ.head refl)),
        )
      ]
    ]

    walk_objects_lem :
        (g : Bytes) (l : List (Bytes × Object T)) (w : Walk)
        → (has_guid l g ≡ true → unseen by_dn w.seen < k)
        → (w' : Walk) × (walk_objects walk g l w ≡ some w') × Grew w w' × Done l w' g
    unfolding walk_objects
    walk_objects_lem g [] w room = (w, refl, Grew-refl w, tt)
    walk_objects_lem g ((dn, o) ∷ l) w room =
        let (w1, is, grew, dealt) = walk_object_lem g o w (λ e. room (rw e refl)) in
        let (w2, is2, grew2, done) = walk_objects_lem g l w1 (λ e.
          omega (arith, unseen_mono by_dn w.seen w1.seen grew.grows, room (ground (arith, e)))) in
        (
          w2,
          ap (λ x. and_then x (walk_objects walk g l)) is ∙ is2,
          Grew-trans w w1 w2 grew grew2,
          (
            λ e. (
              λ c h there. grew2.grows h ((dealt e).0 c h there),
              λ c. grew2.lists (leaf_model o) ((dealt e).1 c),
            ),
            done,
          ),
        )

    -- Marking a member and dealing with its objects is a part of the walk.
    mark-Grew :
        (g : Bytes) (w w' : Walk)
        → Grew (record w { seen = g ∷ w.seen }) w'
        → Done by_dn w' g
        → Grew w w'
    unfolding has_key
    mark-Grew g w w' grew done = record {
      grows = λ h e. grew.grows h (seen_more g w.seen h e);
      lists = grew.lists;
      closed = λ h e. elim (grew.closed h e) [
        | inr d ↦ inr d
        | inl s ↦ elim (Bool-cases (equal g h)) [
          | inl is ↦ inr (subst (Done by_dn w') ((equal_iff g h).0 is) done)
          | inr is ↦ inl (ground (arith, s, is))
        ]
      ];
    }

    walk_members_lem :
        (l : List Bytes) (w : Walk)
        → unseen by_dn w.seen < suc k
        → (w' : Walk) × (walk_members walk by_dn l w ≡ some w') × Grew w w' × AllSeen l w'.seen
    unfolding walk_members has_key
    walk_members_lem [] w room = (w, refl, Grew-refl w, λ g e. cc)
    walk_members_lem (g ∷ l) w room = elim (Bool-cases (has_key w.seen g)) [
      | inl e ↦
          let (w', is, grew, all) = walk_members_lem l w room in
          (
            w',
            rw e is,
            grew,
            λ h there. elim (Bool-cases (equal g h)) [
              | inl same ↦ grew.grows h (ap (has_key w.seen) (sym ((equal_iff g h).0 same)) ∙ e)
              | inr apart ↦ all h (ground (arith, apart, there))
            ],
          )
      | inr e ↦
          let (w1, is, grew, done) =
            walk_objects_lem g by_dn (record w { seen = g ∷ w.seen })
              (λ has. omega (arith, unseen_less by_dn g w.seen e has, room)) in
          let grew1 = mark-Grew g w w1 grew done in
          let (w2, is2, grew2, all) =
            walk_members_lem l w1
              (omega (arith, unseen_mono by_dn w.seen w1.seen grew1.grows, room)) in
          (
            w2,
            rw e (ap (λ x. and_then x (walk_members walk by_dn l)) is ∙ is2),
            Grew-trans w w1 w2 grew1 grew2,
            λ h there. elim (Bool-cases (equal g h)) [
              | inl same ↦ grew2.grows h (grew.grows h (rw same refl))
              | inr apart ↦ all h (ground (arith, apart, there))
            ],
          )
    ]

  pub walk_group-Ends : (fuel : ℕ) → Ends (walk_group fuel by_dn) fuel
  unfolding walk_group
  walk_group-Ends zero o w room = absurd (omega (arith, room))
  walk_group-Ends (suc fuel) o w room =
      walk_members_lem (walk_group fuel by_dn) fuel (walk_group-Ends fuel) o.members w room
