-- ===== src/Fake/Membership.antt =====
-- `AddMembers`, `RemoveMembers` and `IsMember` of adcorefake/group.go.
use go_adcore.Common.{
  ◌≡◌, refl, sym, ap, ◌∙◌, Bool, true, false, ◌||◌, List, [], ◌∷◌, ◌++◌, Option, none, some,
  if◌then◌else◌, ok, Bool-cases, inl, inr, arith,
}
use go_adcore.Bytes.{Bytes, equal, equal_iff}
use go_adcore.Folding.{CaseFolding}
use go_adcore.Identity.{Identity, by_guid}
use go_adcore.Maps.{has_key, equal_same, put}
use go_adcore.Fake.Objects.{Object, Store}
use go_adcore.Fake.Actions.{after}
use go_adcore.Fake.Lookup.{find}
use go_adcore.Fake.Classes.{find_class}
use go_adcore.Fake.Groups.{group_name}
use go_adcore.Fake.Invariant.{find_in-some, find_in-by_guid}
use go_adcore.Fake.Relocating.{replace-IsSettled}
use go_adcore.Fake.Reachable.{Valid}
use go_adcore.Fake.Updating.{find_class-some}
use go_adcore.Fake.Contract.{require_class-eq, find_class-eq}
use go_adcore.Fake.View.{view, put-Sets}
use go_adcore.Fake.Members.{
  with_member, without_member, edit_member, edit_each, edit_members, is_member,
}

has_key-concat :
    (l : List Bytes) (g h : Bytes) → has_key (l ++ g ∷ []) h ≡ (equal g h || has_key l h)
unfolding has_key
has_key-concat [] g h = refl
has_key-concat (x ∷ l) g h = ground (arith, has_key-concat l g h)

has_key-with_member :
    (l : List Bytes) (g h : Bytes) → has_key (with_member l g) h ≡ (equal g h || has_key l h)
unfolding with_member
has_key-with_member l g h = elim (Bool-cases (has_key l g)) [
  | inr e ↦ rw e (has_key-concat l g h)
  | inl e ↦ elim (Bool-cases (equal g h)) [
    | inl is ↦ rw (e, is) (ap (has_key l) (sym ((equal_iff g h).0 is)) ∙ e)
    | inr is ↦ rw (e, is) refl
  ]
]

has_key-without_member :
    (l : List Bytes) (g h : Bytes)
    → has_key (without_member l g) h ≡ (if equal g h then false else has_key l h)
unfolding has_key without_member
has_key-without_member [] g h = ground arith
has_key-without_member (x ∷ l) g h =
    ground (arith, has_key-without_member l g h, equal_iff x g, equal_iff x h, equal_iff g h)

has_key-edit_member :
    (add : Bool) (l : List Bytes) (g h : Bytes)
    → has_key (edit_member add l g) h ≡ (if equal g h then add else has_key l h)
unfolding edit_member
has_key-edit_member true l g h = has_key-with_member l g h ∙ ground arith
has_key-edit_member false l g h = has_key-without_member l g h

module _ (u : CaseFolding) {T : Type 0} where
  edited : Bool → Object T → Object T → Object T
  edited add o t = record o { members = edit_member add o.members t.guid }

  edit_one :
      (op : Bytes) (add : Bool) (id m : Identity) (s : Store T) (o t : Object T)
      → find_class u group_name id s ≡ some o
      → find u m s ≡ some t
      → edit_members u op id (m ∷ []) add s
        ≡ (ok tt, record s { by_dn = put s.by_dn o.dn (edited add o t) })
  unfolding edit_members edit_each edited
  edit_one op add id m s o t h k = rw (h, k, edit_members, edit_each) refl

  is_member_lem :
      (id m : Identity) (s : Store T) (o t : Object T)
      → find_class u group_name id s ≡ some o
      → find u m s ≡ some t
      → is_member u id m s ≡ (ok (has_key o.members t.guid), s)
  unfolding is_member
  is_member_lem id m s o t h k =
      ap (after _) (require_class-eq u group_name _ id s o h) ∙ rw (k, after) refl

  -- In a consistent store, `AddMembers` or `RemoveMembers` of one member that is found, on a group that
  -- is found, succeeds; and `IsMember` then tells of each object whether it is this member, which is in
  -- the group after it was added and not after it was removed, and else what it told before.
  pub edit_members-is_member :
      (op : Bytes) (add : Bool) (id m : Identity) (s : Store T) (o t : Object T)
      → Valid s
      → find_class u group_name id s ≡ some o
      → find u m s ≡ some t
      → ((edit_members u op id (m ∷ []) add s).0 ≡ ok tt)
        × ((p : Object T)
            → view u s p.guid ≡ some p
            → (is_member u (by_guid o.guid) (by_guid p.guid) s ≡ (ok (has_key o.members p.guid), s))
              × ((is_member u
                    (by_guid o.guid)
                    (by_guid p.guid)
                    (edit_members u op id (m ∷ []) add s).1).0
                  ≡ ok (if equal t.guid p.guid then add else has_key o.members p.guid)))
  unfolding edited
  edit_members-is_member op add id m s o t v h k =
      let run = edit_one op add id m s o t h k in
      let (found, class) = find_class-some u group_name id s o h in
      let (there, _) = find_in-some u s.seq s.by_dn id o v found in
      let o' = edited add o t in
      let s' : Store T = record s { by_dn = put s.by_dn o.dn o' } in
      let settled = replace-IsSettled u s o o' v there refl in
      let sets =
        put-Sets u s.seq s.by_dn v s.seq o' settled.consistent
          (λ j p at e. v.unique j o.dn p o at there e)
          (λ p at. ap (λ (x : Option (Object T)). guid_or o x) (sym at ∙ there)) in
      let group : view u s' o.guid ≡ some o' = sets o.guid ∙ rw (equal_same o.guid) refl in
      (
        ap (λ r. r.0) run,
        λ p seen. (
          is_member_lem (by_guid o.guid) (by_guid p.guid) s o p
              (find_class-eq u group_name (by_guid o.guid) s o
                (find_in-by_guid u s.seq s.by_dn o.dn o v there) class)
              seen,
          ap (λ r. (is_member u (by_guid o.guid) (by_guid p.guid) r.1).0) run
              ∙ (elim (Bool-cases (equal o.guid p.guid)) [
                | inl e ↦
                    ap (λ r. r.0)
                      (is_member_lem (by_guid o.guid) (by_guid p.guid) s' o' o'
                        (find_class-eq u group_name (by_guid o.guid) s' o' group class)
                        (sets p.guid ∙ rw e refl))
                    ∙ ap ok (
                        ap (has_key o'.members) ((equal_iff o.guid p.guid).0 e)
                        ∙ has_key-edit_member add o.members t.guid p.guid)
                | inr e ↦
                    ap (λ r. r.0)
                      (is_member_lem (by_guid o.guid) (by_guid p.guid) s' o' p
                        (find_class-eq u group_name (by_guid o.guid) s' o' group class)
                        (sets p.guid ∙ rw e seen))
                    ∙ ap ok (has_key-edit_member add o.members t.guid p.guid)
              ]),
        ),
      )
    where
      guid_or : Object T → Option (Object T) → Bytes
      guid_or o none = o.guid
      guid_or o (some x) = x.guid
