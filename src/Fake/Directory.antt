-- ===== src/Fake/Directory.antt =====
-- The directory of adcorefake/ as a whole: its operations that write, and what each run of them keeps.
use go_adcore.Common.{Option, none, some, List, [], ◌∷◌}
use go_adcore.Bytes.{Bytes, codes}
use go_adcore.Folding.{CaseFolding}
use go_adcore.Identity.{Identity}
use go_adcore.Secret.{Secret}
use go_adcore.Spec.{OuSpec, GroupSpec, UserSpec, GmsaSpec, ComputerSpec}
use go_adcore.Fake.Objects.{Object, Store}
use go_adcore.Fake.Actions.{Action, check}
use go_adcore.Fake.Entries.{grant, revoke}
use go_adcore.Fake.Classes.{given}
use go_adcore.Fake.Lookup.{find}
use go_adcore.Maps.{put}
use go_adcore.Errors.{GoError}
use go_adcore.Acl.{Ace}
use go_adcore.Fake.Classes.{Class, join_dn}
use go_adcore.Fake.Invariant.{IsConsistent}
use go_adcore.Fake.Creating.{
  Made, create_ou-Made, create_group-Made, create_user-Made, create_gmsa-Made, create_computer-Made,
}
use go_adcore.Fake.Updating.{
  Renewed, update_ou-Renewed, update_group-Renewed, update_user-Renewed, update_gmsa-Renewed,
  update_computer-Renewed,
}
use go_adcore.Fake.Units.{unit_class, create_ou, update_ou, delete_ou}
use go_adcore.Fake.Groups.{group_class, create_group, update_group, delete_group}
use go_adcore.Fake.Users.{user_class, create_user, update_user, delete_user, set_password, named}
use go_adcore.Fake.Accounts.{account_class, create_gmsa, update_gmsa, delete_gmsa}
use go_adcore.Fake.Computers.{computer_class, create_computer, update_computer, delete_computer}
use go_adcore.Fake.Members.{add_members, remove_members}

-- A spec with its class: what a `Create` or an `Update` is given.
pub data Request (T : Type 0) : Type 0 where
  an_ou : OuSpec → Request T
  a_group : GroupSpec → Request T
  a_user : UserSpec T → Request T
  a_gmsa : GmsaSpec T → Request T
  a_computer : ComputerSpec T → Request T

-- The calls that write; the reads leave the store alone by their definition.
pub data Command (T : Type 0) : Type 0 where
  creates : Request T → Command T
  updates : Identity → Request T → Command T
  deletes_ou : Identity → Command T
  deletes_group : Identity → Command T
  deletes_user : Identity → Command T
  deletes_gmsa : Identity → Command T
  deletes_computer : Identity → Command T
  sets_password : Identity → Secret → Command T
  adds_members : Identity → List Identity → Command T
  removes_members : Identity → List Identity → Command T
  grants : Identity → List Ace → Command T
  revokes : Identity → List Ace → Command T

abbrev pub class_of : {T : Type 0} → Request T → Class T
class_of (an_ou spec) = unit_class
class_of (a_group spec) = group_class
class_of (a_user spec) = user_class
class_of (a_gmsa spec) = account_class
class_of (a_computer spec) = computer_class

-- the DN that a `Create` gives its object
abbrev pub dn_of : {T : Type 0} → Request T → Bytes
dn_of (an_ou spec) = join_dn (codes "OU=") spec.name spec.container
dn_of (a_group spec) = join_dn (codes "CN=") spec.name spec.container
dn_of (a_user spec) = join_dn (codes "CN=") (named spec.name spec.sam_account_name) spec.container
dn_of (a_gmsa spec) = join_dn (codes "CN=") spec.name spec.container
dn_of (a_computer spec) = join_dn (codes "CN=") spec.name spec.container

-- the DN that an `Update` moves the object it finds to
abbrev pub target_dn : {T : Type 0} → Request T → Object T → Bytes
target_dn (an_ou spec) old = join_dn (codes "OU=") spec.name spec.container
target_dn (a_group spec) old = join_dn (codes "CN=") spec.name spec.container
target_dn (a_user spec) old = join_dn (codes "CN=") (named spec.name old.user.name) spec.container
target_dn (a_gmsa spec) old = join_dn (codes "CN=") spec.name spec.container
target_dn (a_computer spec) old = join_dn (codes "CN=") spec.name spec.container

module _ (u : CaseFolding) {T : Type 0} where
  unfoldable pub create : (r : Request T) → Action T (class_of r).Model
  create (an_ou spec) = create_ou u spec
  create (a_group spec) = create_group u spec
  create (a_user spec) = create_user u spec
  create (a_gmsa spec) = create_gmsa u spec
  create (a_computer spec) = create_computer u spec

  unfoldable pub update : Identity → (r : Request T) → Action T (class_of r).Model
  update id (an_ou spec) = update_ou u id spec
  update id (a_group spec) = update_group u id spec
  update id (a_user spec) = update_user u id spec
  update id (a_gmsa spec) = update_gmsa u id spec
  update id (a_computer spec) = update_computer u id spec

  -- `Grant` and `Revoke` on the store: the entries of the object that `findLocked` finds
  unfoldable pub edit_entries :
      (Option (List Ace) → Option (List Ace) × GoError) → Identity → Action T Unit
  edit_entries edit id s = elim (find u id s) [
    | none ↦ check (edit none).1 s
    | some o ↦ check (edit (some o.dacl)).1 (record s {
      by_dn = put s.by_dn o.dn (record o { dacl = given (edit (some o.dacl)).0 o.dacl });
    })
  ]

  -- the store after a call
  unfoldable pub perform : Command T → Store T → Store T
  unfolding create update edit_entries
  perform (creates r) s = (create r s).1
  perform (updates id r) s = (update id r s).1
  perform (deletes_ou id) s = (delete_ou u id s).1
  perform (deletes_group id) s = (delete_group u id s).1
  perform (deletes_user id) s = (delete_user u id s).1
  perform (deletes_gmsa id) s = (delete_gmsa u id s).1
  perform (deletes_computer id) s = (delete_computer u id s).1
  perform (sets_password id p) s = (set_password u id p s).1
  perform (adds_members id ms) s = (add_members u id ms s).1
  perform (removes_members id ms) s = (remove_members u id ms s).1
  perform (grants id list) s = (edit_entries (grant u id list) id s).1
  perform (revokes id list) s = (edit_entries (revoke u id list) id s).1

  -- the store after a list of calls
  unfoldable pub perform_all : List (Command T) → Store T → Store T
  unfolding perform
  perform_all [] s = s
  perform_all (c ∷ cs) s = perform_all cs (perform c s)

  pub create-Made : (s : Store T) (r : Request T) → Made u s (class_of r) (dn_of r) (create r s)
  unfolding create
  create-Made s (an_ou spec) = create_ou-Made u s spec
  create-Made s (a_group spec) = create_group-Made u s spec
  create-Made s (a_user spec) = create_user-Made u s spec
  create-Made s (a_gmsa spec) = create_gmsa-Made u s spec
  create-Made s (a_computer spec) = create_computer-Made u s spec

  pub update-Renewed :
      (s : Store T)
      → IsConsistent s.seq s.by_dn
      → (id : Identity) (r : Request T) → Renewed u s (class_of r) id (target_dn r) (update id r s)
  unfolding update
  update-Renewed s c id (an_ou spec) = update_ou-Renewed u s c id spec
  update-Renewed s c id (a_group spec) = update_group-Renewed u s c id spec
  update-Renewed s c id (a_user spec) = update_user-Renewed u s c id spec
  update-Renewed s c id (a_gmsa spec) = update_gmsa-Renewed u s c id spec
  update-Renewed s c id (a_computer spec) = update_computer-Renewed u s c id spec
