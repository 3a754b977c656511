-- ===== src/Fake/Members.antt =====
-- The members of groups in adcorefake/group.go. The map `members` is the list of its keys.
use go_adcore.Common.{
  ℕ, zero, suc, ◌+◌, Bool, true, false, not, List, [], ◌∷◌, ◌++◌, Option, none, some, if◌then◌else◌,
  length, Result, ok, err,
}
use go_adcore.Bytes.{Bytes, codes, equal}
use go_adcore.Folding.{CaseFolding}
use go_adcore.Identity.{Identity}
use go_adcore.Errors.{GoError}
use go_adcore.Models.{Member}
use go_adcore.Maps.{put}
use go_adcore.Fake.Objects.{Object, Store}
use go_adcore.Fake.Actions.{Action, pure, raise, gets, ◌>>=◌}
use go_adcore.Fake.Lookup.{find}
use go_adcore.Fake.Classes.{find_class, require_class}
use go_adcore.Fake.Groups.{group_name}
use go_adcore.Fake.Entries.{not_found_error}
use go_adcore.Maps.{has_key}

-- `members[guid] = true` and `delete(members, guid)`
unfoldable pub with_member : List Bytes → Bytes → List Bytes
with_member members guid = if has_key members guid then members else members ++ guid ∷ []

unfoldable pub without_member : List Bytes → Bytes → List Bytes
without_member [] guid = []
without_member (g ∷ members) guid =
    let rest = without_member members guid in if equal g guid then rest else g ∷ rest

unfoldable pub edit_member : Bool → List Bytes → Bytes → List Bytes
unfolding with_member without_member
edit_member add members guid = if add then with_member members guid else without_member members guid

-- what `walk` of `MembersRecursive` shares: `seen` and `out`
pub record Walk : Type 0 where
  pub seen : List Bytes
  pub out : List Member

-- the rest of a loop, after a turn that may not end
abbrev pub and_then : Option Walk → (Walk → Option Walk) → Option Walk
and_then none rest = none
and_then (some w) rest = rest w

module _ {T : Type 0} where
  -- `adcore.Member{...}` of `memberModelsLocked`
  abbrev pub member_model : Object T → Member
  member_model m = record {
    guid = m.guid;
    dn = m.dn;
    class = m.class;
    sid = m.group.sid ++ m.user.sid;
  }

  -- the loop over `byDN` for one member
  unfoldable pub models_of : Bytes → List (Bytes × Object T) → List Member
  models_of guid [] = []
  models_of guid ((dn, m) ∷ by_dn) =
      let rest = models_of guid by_dn in if equal m.guid guid then member_model m ∷ rest else rest

  -- `func (f *fakeGroup) memberModelsLocked`
  unfoldable pub member_models : List (Bytes × Object T) → List Bytes → List Member
  member_models by_dn [] = []
  member_models by_dn (guid ∷ members) = models_of guid by_dn ++ member_models by_dn members

  -- `adcore.Member{...}` of `walk`
  abbrev pub leaf_model : Object T → Member
  leaf_model m = record { guid = m.guid; dn = m.dn; class = m.class; sid = m.user.sid }

  -- one turn of the loop of `walk` over `byDN`, for a member that was just marked; `walk` is the
  -- recursive call
  abbrev pub walk_object : (Object T → Walk → Option Walk) → Bytes → Object T → Walk → Option Walk
  walk_object walk guid m w =
      if not (equal m.guid guid)
      then some w
      else if equal m.class group_name
      then walk m w
      else some (record w { out = w.out ++ leaf_model m ∷ [] })

  -- this loop
  unfoldable pub walk_objects :
      (Object T → Walk → Option Walk) → Bytes → List (Bytes × Object T) → Walk → Option Walk
  walk_objects walk guid [] w = some w
  walk_objects walk guid ((dn, m) ∷ by_dn) w =
      and_then (walk_object walk guid m w) (walk_objects walk guid by_dn)

  -- the loop of `walk` over the members of a group
  unfoldable pub walk_members :
      (Object T → Walk → Option Walk) → List (Bytes × Object T) → List Bytes → Walk → Option Walk
  walk_members walk by_dn [] w = some w
  walk_members walk by_dn (guid ∷ members) w =
      and_then
        (if has_key w.seen guid
          then some w
          else walk_objects walk guid by_dn (record w { seen = guid ∷ w.seen }))
        (walk_members walk by_dn members)

  -- the closure `walk`, on fuel; none where the fuel runs out
  unfoldable pub walk_group : ℕ → List (Bytes × Object T) → Object T → Walk → Option Walk
  walk_group zero by_dn o w = none
  walk_group (suc fuel) by_dn o w = walk_members (walk_group fuel by_dn) by_dn o.members w

module _ (u : CaseFolding) {T : Type 0} where
  -- `func (f *fakeGroup) Members`
  unfoldable pub members : Identity → Action T (List Member)
  unfolding require_class member_models
  members id = do
    o ← require_class u group_name (codes "Group.Members") id
    gets (λ (s : Store T). member_models s.by_dn o.members)

  -- `func (f *fakeGroup) MembersRecursive`; the inner none is a walk that does not end
  unfoldable pub members_recursive : Identity → Action T (Option (List Member))
  unfolding require_class walk_group
  members_recursive id = do
    root ← require_class u group_name (codes "Group.MembersRecursive") id
    gets (λ (s : Store T).
        elim (walk_group (length s.by_dn + 1) s.by_dn root (record { seen = []; out = [] })) [
          | none ↦ none
          | some w ↦ some w.out
        ])

  -- the loop of `editMembers`: the error, and the group after it
  unfoldable pub edit_each :
      Bytes → Bool → List Identity → Object T → Store T → Result GoError (Unit {0}) × Object T
  edit_each op add [] o s = (ok tt, o)
  edit_each op add (m ∷ ms) o s = elim (find u m s) [
    | none ↦ (err (not_found_error op m), o)
    | some target ↦
        edit_each op add ms (record o { members = edit_member add o.members target.guid }) s
  ]

  -- `func (f *fakeGroup) editMembers`
  unfoldable pub edit_members : Bytes → Identity → List Identity → Bool → Action T Unit
  unfolding find_class
  edit_members op id [] add s = (ok tt, s)
  edit_members op id (m ∷ ms) add s = elim (find_class u group_name id s) [
    | none ↦ (err (not_found_error op id), s)
    | some o ↦
        let (r, o') = edit_each op add (m ∷ ms) o s in
        (r, record s { by_dn = put s.by_dn o'.dn o' })
  ]

  -- `func (f *fakeGroup) AddMembers` and `RemoveMembers`
  unfoldable pub add_members : Identity → List Identity → Action T Unit
  add_members id ms = edit_members (codes "Group.AddMembers") id ms true

  unfoldable pub remove_members : Identity → List Identity → Action T Unit
  remove_members id ms = edit_members (codes "Group.RemoveMembers") id ms false

  -- `func (f *fakeGroup) IsMember`
  unfoldable pub is_member : Identity → Identity → Action T Bool
  unfolding require_class
  is_member id member = do
    o ← require_class u group_name (codes "Group.IsMember") id
    found ← gets (find u member)
    elim found [
      | none ↦ raise (not_found_error (codes "Group.IsMember") member)
      | some target ↦ pure (has_key o.members target.guid)
    ]
