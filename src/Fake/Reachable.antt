-- ===== src/Fake/Reachable.antt =====
-- What every run of calls on the directory of adcorefake/ keeps.
use go_adcore.Common.{
  Option, none, some, ◌+◌, ◌≡◌, refl, sym, ap, ◌∙◌, Bool, true, false, List, [], ◌∷◌, Result, ok,
  err, ◌==◌, Option-cases, Bool-cases, inl, inr, arith,
}
use mathlib.Core.Path.{subst}
use go_adcore.Bytes.{Bytes}
use go_adcore.Folding.{CaseFolding}
use go_adcore.Identity.{Identity}
use go_adcore.Errors.{GoError}
use go_adcore.Secret.{Secret}
use go_adcore.Secret
use go_adcore.Maps.{put, lookup}
use go_adcore.Fake.Objects.{Object, Store, new_store}
use go_adcore.Fake.Lookup.{find, remove, count_children}
use go_adcore.Fake.Classes.{Class, find_class, delete_object}
use go_adcore.Fake.Invariant.{
  IsConsistent, put-IsConsistent, delete_key-IsConsistent, next-IsFree, more-IsConsistent,
  empty-IsConsistent, find_in-some,
}
use go_adcore.Fake.Relocating.{replace-IsSettled}
use go_adcore.Fake.Creating.{IsMade, Made}
use go_adcore.Fake.Updating.{Renewed, find_class-some}
use go_adcore.Fake.Units.{unit_name, delete_ou}
use go_adcore.Fake.Groups.{group_name, delete_group}
use go_adcore.Fake.Users.{delete_user, set_password, user_name}
use go_adcore.Fake.Accounts.{delete_gmsa}
use go_adcore.Fake.Computers.{delete_computer}
use go_adcore.Fake.Members.{edit_each, edit_members, add_members, remove_members}
use go_adcore.Fake.Actions.{check}
use go_adcore.Fake.Entries.{grant, revoke}
use go_adcore.Errors.{nil, other, adcore}
use go_adcore.Acl.{Ace}
use go_adcore.Fake.Classes.{given}
use go_adcore.Fake.Directory.{
  grants, revokes, edit_entries, Command, creates, updates, deletes_ou, deletes_group, deletes_user,
  deletes_gmsa, deletes_computer, sets_password, adds_members, removes_members, class_of, dn_of,
  target_dn, create, update, perform, perform_all, create-Made, update-Renewed,
}

abbrev pub Valid : {T : Type 0} → Store T → Type 0
Valid s = IsConsistent s.seq s.by_dn

module _ {T : Type 0} where
  kept-Valid : (s s' : Store T) → s' ≡ s → Valid s → Valid s'
  kept-Valid s s' e c = subst Valid (sym e) c

  pub made-Valid :
      (u : CaseFolding) (c : Class T) (dn : Bytes) (s : Store T) (m : c.Model) (s' : Store T)
      → Valid s
      → IsMade u c dn s m s'
      → Valid s'
  made-Valid u c dn s m s' v is =
      let o = is.object in
      let free = next-IsFree s.seq s.by_dn o.dn v in
      let there =
        put-IsConsistent (s.seq + 1) s.by_dn o (more-IsConsistent s.seq s.by_dn v)
          (s.seq + 1, omega arith, is.guid) (λ j p h e. free j p h (e ∙ is.guid)) in
      subst (λ n. IsConsistent n s'.by_dn) (sym is.seq)
        (subst (IsConsistent (s.seq + 1)) (sym is.by_dn)
          (subst (λ d. IsConsistent (s.seq + 1) (put s.by_dn d o)) is.dn_is there))

  outcome-Made :
      (u : CaseFolding) (c : Class T) (dn : Bytes) (s : Store T)
      (r : Result GoError c.Model × Store T)
      → Valid s
      → Made u s c dn r
      → Valid r.1
  outcome-Made u c dn s (ok m, s') v h = made-Valid u c dn s m s' v h
  outcome-Made u c dn s (err e, s') v h = kept-Valid s s' h v

  outcome-Renewed :
      (u : CaseFolding) (c : Class T) (id : Identity) (dn : Object T → Bytes) (s : Store T)
      (r : Result GoError c.Model × Store T)
      → Valid s
      → Renewed u s c id dn r
      → Valid r.1
  outcome-Renewed u c id dn s (ok m, s') v h = h.settled.consistent
  outcome-Renewed u c id dn s (err e, s') v h = kept-Valid s s' h v

module _ (u : CaseFolding) {T : Type 0} where
  remove-Valid : (dn : Bytes) (s : Store T) → Valid s → Valid (remove dn s).1
  unfolding remove
  remove-Valid dn s v = delete_key-IsConsistent s.seq s.by_dn dn v

  delete_object-Valid :
      (class : Bytes) (id : Identity) (s : Store T) → Valid s → Valid (delete_object u class id s).1
  unfolding delete_object
  delete_object-Valid class id s v = elim (Option-cases (find_class u class id s)) [
    | inl e ↦ rw (e, delete_object) v
    | inr (o, e) ↦ rw (e, delete_object) (remove-Valid o.dn s v)
  ]

  delete_ou-Valid : (id : Identity) (s : Store T) → Valid s → Valid (delete_ou u id s).1
  unfolding delete_ou
  delete_ou-Valid id s v = elim (Option-cases (find_class u unit_name id s)) [
    | inl e ↦ rw (e, delete_ou) v
    | inr (o, e) ↦ elim (Bool-cases (count_children u s.by_dn o.dn == 0)) [
      | inl z ↦ rw (e, z, delete_ou) (remove-Valid o.dn s v)
      | inr z ↦ rw (e, z, delete_ou) v
    ]
  ]

  set_password-Valid :
      (id : Identity) (p : Secret) (s : Store T) → Valid s → Valid (set_password u id p s).1
  unfolding set_password
  set_password-Valid id p s v = elim (Bool-cases (Secret.is_zero p)) [
    | inl z ↦ rw (z, set_password) v
    | inr z ↦ elim (Option-cases (find_class u user_name id s)) [
      | inl e ↦ rw (z, e, set_password) v
      | inr (o, e) ↦ rw (z, e, set_password) v
    ]
  ]

  -- `editMembers` changes the members of the group only.
  edit_each_lem :
      (op : Bytes) (add : Bool) (ms : List Identity) (o : Object T) (s : Store T)
      → ((edit_each u op add ms o s).1.dn ≡ o.dn)
        × ((edit_each u op add ms o s).1.guid ≡ o.guid)
        × ((edit_each u op add ms o s).1.class ≡ o.class)
  unfolding edit_each
  edit_each_lem op add [] o s = (refl, refl, refl)
  edit_each_lem op add (m ∷ ms) o s = elim (Option-cases (find u m s)) [
    | inl e ↦ rw (e, edit_each) (refl, refl, refl)
    | inr (t, e) ↦ rw (e, edit_each) (edit_each_lem op add ms _ s)
  ]

  edit_members-Valid :
      (op : Bytes) (id : Identity) (ms : List Identity) (add : Bool) (s : Store T)
      → Valid s
      → Valid (edit_members u op id ms add s).1
  unfolding edit_members
  edit_members-Valid op id [] add s v = v
  edit_members-Valid op id (m ∷ ms) add s v = elim (Option-cases (find_class u group_name id s)) [
    | inl e ↦ rw (e, edit_members) v
    | inr (o, e) ↦
        let (dn, guid, _) = edit_each_lem op add (m ∷ ms) o s in
        let (found, _) = find_class-some u group_name id s o e in
        let (there, _) = find_in-some u s.seq s.by_dn id o v found in
        rw (e, edit_members)
          (replace-IsSettled u s o (edit_each u op add (m ∷ ms) o s).1 v
            (ap (lookup s.by_dn) dn ∙ there) (sym guid)).consistent
  ]

  check_store : (e : GoError) (s : Store T) → (check e s).1 ≡ s
  check_store nil s = refl
  check_store (other text w) s = refl
  check_store (adcore i w) s = refl
  check_store (go_adcore.Errors.GoError.sentinel k) s = refl
  check_store (go_adcore.Errors.GoError.joined text v w) s = refl

  edit_entries-Valid :
      (edit : Option (List Ace) → Option (List Ace) × GoError) (id : Identity) (s : Store T)
      → Valid s
      → Valid (edit_entries u edit id s).1
  unfolding edit_entries
  edit_entries-Valid edit id s v = elim (Option-cases (find u id s)) [
    | inl e ↦ rw (e, edit_entries) (kept-Valid s _ (check_store (edit none).1 s) v)
    | inr (o, e) ↦
        let (there, _) = find_in-some u s.seq s.by_dn id o v e in
        rw (e, edit_entries)
          (kept-Valid _ _ (check_store (edit (some o.dacl)).1 _)
            (replace-IsSettled u s o (record o { dacl = given (edit (some o.dacl)).0 o.dacl }) v
              there refl).consistent)
  ]

  -- Every call, whether it succeeds or fails, keeps the store consistent.
  perform-Valid : (c : Command T) (s : Store T) → Valid s → Valid (perform u c s)
  unfolding perform delete_group delete_user delete_gmsa delete_computer add_members remove_members
  perform-Valid (creates r) s v =
      outcome-Made u (class_of r) (dn_of r) s (create u r s) v (create-Made u s r)
  perform-Valid (updates id r) s v =
      outcome-Renewed u (class_of r) id (target_dn r) s (update u id r s) v
        (update-Renewed u s v id r)
  perform-Valid (deletes_ou id) s v = delete_ou-Valid id s v
  perform-Valid (deletes_group id) s v = delete_object-Valid _ id s v
  perform-Valid (deletes_user id) s v = delete_object-Valid _ id s v
  perform-Valid (deletes_gmsa id) s v = delete_object-Valid _ id s v
  perform-Valid (deletes_computer id) s v = delete_object-Valid _ id s v
  perform-Valid (sets_password id p) s v = set_password-Valid id p s v
  perform-Valid (adds_members id ms) s v = edit_members-Valid _ id ms true s v
  perform-Valid (removes_members id ms) s v = edit_members-Valid _ id ms false s v
  perform-Valid (grants id list) s v = edit_entries-Valid (grant u id list) id s v
  perform-Valid (revokes id list) s v = edit_entries-Valid (revoke u id list) id s v

  perform_all-Valid : (cs : List (Command T)) (s : Store T) → Valid s → Valid (perform_all u cs s)
  unfolding perform_all
  perform_all-Valid [] s v = v
  perform_all-Valid (c ∷ cs) s v = perform_all-Valid cs (perform u c s) (perform-Valid c s v)

  -- Whatever calls that create, update or delete objects, set passwords, or change members or entries are
  -- made on a new directory, in whatever order and whether they succeed or fail, it ends consistent: the keys of its map are distinct, each object stands under its own DN, its GUID
  -- is one of those that were given out, and no two objects share a GUID.
  pub reachable-IsConsistent :
      (dnc : Bytes) (cs : List (Command T))
      → IsConsistent (perform_all u cs (new_store dnc)).seq (perform_all u cs (new_store dnc)).by_dn
  unfolding new_store
  reachable-IsConsistent dnc cs = perform_all-Valid cs (new_store dnc) (empty-IsConsistent 0)
