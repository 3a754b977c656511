-- ===== src/Fake/Updating.antt =====
-- `Update` of every class of adcorefake/ and what it leaves behind.
use mathlib.Core.Path.{subst, subst₂}
use go_adcore.Common.{
  ◌≡◌, refl, sym, ap, ◌∙◌, Bool, false, List, some, Result, ◌⊎◌, Bool-cases, inl, inr, arith,
}
use go_adcore.Bytes.{Bytes, codes, equal_iff}
use go_adcore.Folding.{CaseFolding}
use go_adcore.Identity.{Identity}
use go_adcore.Spec.{
  OuSpec, GroupSpec, UserSpec, GmsaSpec, ComputerSpec, validate_name, validate_container,
  validate_group, validate_user, validate_gmsa, validate_computer,
}
use go_adcore.Maps.{lookup}
use go_adcore.Fake.Objects.{Object, Store}
use go_adcore.Fake.Actions.{pure, ◌>>=◌}
use go_adcore.Fake.Lookup.{find}
use go_adcore.Fake.Classes.{Class, join_dn, find_class, finish_update}
use go_adcore.Fake.Invariant.{IsConsistent, find_in-some}
use go_adcore.Fake.Carrying.{CarriedAll, finish_update-CarriedAll}
use go_adcore.Fake.Relocating.{IsDeeper, IsSettled, finish_update-IsSettled}
use go_adcore.Fake.Creating.{Kept}
use go_adcore.Fake.Outcomes.{
  Outcome, bind-ok, check-Outcome, require_class-Outcome, updated_principals-Outcome,
  record_password-Outcome,
}
use go_adcore.Fake.Units.{unit_name, unit_class, moved_ou, update_ou, apply_ou}
use go_adcore.Fake.Groups.{group_name, group_class, moved_group, update_group, updated_group}
use go_adcore.Fake.Users.{user_name, user_class, moved_user, update_user, updated_user, named}
use go_adcore.Fake.Accounts.{account_name, account_class, moved_gmsa, update_gmsa, updated_gmsa}
use go_adcore.Fake.Computers.{
  computer_name, computer_class, moved_computer, update_computer, updated_computer,
}

-- What an `Update` that succeeds leaves: the object found has kept its GUID and its class, and
-- stands at its DN or at the new one; where no DN below its own is as short, it is there.
pub record IsRenewed (u : CaseFolding) {T : Type 0} (c : Class T) (id : Identity)
    (new_dn : Object T → Bytes) (s : Store T) (m : c.Model) (s' : Store T) : Type 0 where
  pub old : Object T
  pub object : Object T
  pub found : find_class u c.name id s ≡ some old
  pub shown : m ≡ c.model object
  pub guid : object.guid ≡ old.guid
  pub class : object.class ≡ c.name
  pub dn : (object.dn ≡ new_dn old) ⊎ (object.dn ≡ old.dn)
  pub members : object.members ≡ old.members
  pub dacl : object.dacl ≡ old.dacl
  pub settled : IsSettled u old.dn s object s'
  pub others : CarriedAll u old.dn (new_dn old) old.guid s.by_dn s'.by_dn

module _ (u : CaseFolding) {T : Type 0} where
  pub find_class-some :
      (class : Bytes) (id : Identity) (s : Store T) (o : Object T)
      → find_class u class id s ≡ some o
      → (find u id s ≡ some o) × (o.class ≡ class)
  unfolding find_class
  find_class-some class id s o h = ground (arith, equal_iff o.class class)

module _ (u : CaseFolding) {T : Type 0} (s : Store T) where
  -- The outcome of an `Update` of the class.
  abbrev pub Renewed :
      (k : Class T)
      → Identity
      → (Object T → Bytes)
      → Result go_adcore.Errors.GoError k.Model × Store T
      → Type 0
  Renewed k id dn = Outcome (IsRenewed u k id dn s) (Kept u s)

module _ (u : CaseFolding) {T : Type 0} (s : Store T) (c : IsConsistent s.seq s.by_dn) where
  -- The end of `Update`, for an object found with its model changed.
  finish_update-IsRenewed :
      (k : Class T) (id : Identity) (old o : Object T) (differs : Bool) (new_dn : Object T → Bytes)
      (relabel : Object T → Object T) (l : List (Bytes × List Bytes))
      → find_class u k.name id s ≡ some old
      → o.dn ≡ old.dn
      → o.guid ≡ old.guid
      → o.class ≡ old.class
      → o.members ≡ old.members
      → o.dacl ≡ old.dacl
      → ((x : Object T)
          → ((relabel x).dn ≡ x.dn)
            × ((relabel x).guid ≡ x.guid)
            × ((relabel x).class ≡ x.class)
            × ((relabel x).members ≡ x.members)
            × ((relabel x).dacl ≡ x.dacl))
      → Outcome (IsRenewed u k id new_dn s) (Kept u s) (
          (finish_update u differs (new_dn old) relabel o >>= λ x. pure (k.model x))
            (record s { passwords = l }))
  finish_update-IsRenewed k id old o differs new_dn relabel l h hd hg hc hm hl labels =
      let (found, class) = find_class-some u k.name id s old h in
      let (there, _) = find_in-some u s.seq s.by_dn id old c found in
      let (last, is, same_guid, same_class, same_members, same_dacl, dn, settled) =
        finish_update-IsSettled u (record s { passwords = l }) old o differs (new_dn old) relabel c
          (ap (lookup s.by_dn) hd ∙ there) (sym hg) labels in
      bind-ok (IsRenewed u k id new_dn s) (Kept u s)
        (finish_update u differs (new_dn old) relabel o) (λ x. pure (k.model x))
        (record s { passwords = l })
        (finish_update u differs (new_dn old) relabel o (record s { passwords = l })).1 last
        (ap
          (λ r.
            (r, (finish_update u differs (new_dn old) relabel o (record s { passwords = l })).1))
          is)
        (record {
          old = old;
          object = last;
          found = h;
          shown = refl;
          guid = same_guid ∙ hg;
          class = same_class ∙ hc ∙ class;
          dn = elim (Bool-cases differs) [
            | inl e ↦ inl (dn ∙ rw e refl)
            | inr e ↦ inr (dn ∙ rw e hd)
          ];
          members = same_members ∙ hm;
          dacl = same_dacl ∙ hl;
          others =
              subst₂
                (λ d g.
                  CarriedAll u d (new_dn old) g s.by_dn
                    (finish_update u differs (new_dn old) relabel o
                      (record s { passwords = l })).1.by_dn)
                hd hg
                (finish_update-CarriedAll u differs (new_dn old) relabel o
                  (record s { passwords = l }) (λ x. (labels x).1));
          settled = record {
            consistent = settled.consistent;
            found = λ deeper. settled.found (subst (λ d. IsDeeper u d s.by_dn) (sym hd) deeper);
            seq = settled.seq;
            dnc = settled.dnc;
          };
        })

  pub update_ou-Renewed :
      (id : Identity) (spec : OuSpec)
      → Renewed u s unit_class id
          (λ o. join_dn (codes "OU=") spec.name spec.container)
          (update_ou u id spec s)
  unfolding update_ou
  update_ou-Renewed id spec =
      let op = codes "OU.Update" in
      let dn = join_dn (codes "OU=") spec.name spec.container in
      check-Outcome _ (Kept u s) (validate_name op spec.name) _ s refl (
        check-Outcome _ (Kept u s) (validate_container op spec.container) _ s refl (
          require_class-Outcome _ (Kept u s) u unit_name op id _ s refl (λ o h.
            finish_update-IsRenewed unit_class id o (record o { ou = apply_ou o.ou spec }) _
              (λ x. dn) (moved_ou dn spec.name spec.container) s.passwords h refl refl refl refl
              refl (λ x. (refl, refl, refl, refl, refl)))))

  pub update_group-Renewed :
      (id : Identity) (spec : GroupSpec)
      → Renewed u s group_class id
          (λ o. join_dn (codes "CN=") spec.name spec.container)
          (update_group u id spec s)
  unfolding update_group
  update_group-Renewed id spec =
      let op = codes "Group.Update" in
      let dn = join_dn (codes "CN=") spec.name spec.container in
      check-Outcome _ (Kept u s) (validate_group spec op false) _ s refl (
        require_class-Outcome _ (Kept u s) u group_name op id _ s refl (λ o h.
          finish_update-IsRenewed group_class id o (record o { group = updated_group spec o.group })
            _ (λ x. dn) (moved_group dn spec.name spec.container) s.passwords h refl refl refl refl
            refl (λ x. (refl, refl, refl, refl, refl))))

  pub update_gmsa-Renewed :
      (id : Identity) (spec : GmsaSpec T)
      → Renewed u s account_class id
          (λ o. join_dn (codes "CN=") spec.name spec.container)
          (update_gmsa u id spec s)
  unfolding update_gmsa
  update_gmsa-Renewed id spec =
      let op = codes "ServiceAccount.Update" in
      let dn = join_dn (codes "CN=") spec.name spec.container in
      check-Outcome _ (Kept u s) (validate_gmsa spec op false) _ s refl (
        require_class-Outcome _ (Kept u s) u account_name op id _ s refl (λ o h.
          updated_principals-Outcome _ (Kept u s) u op spec.principals_allowed
            o.gmsa.principals_allowed _ s refl
            (λ l.
              finish_update-IsRenewed account_class id o
                (record o { gmsa = updated_gmsa u spec l o.gmsa }) _ (λ x. dn)
                (moved_gmsa dn spec.name spec.container) s.passwords h refl refl refl refl refl
                (λ x. (refl, refl, refl, refl, refl)))))

  pub update_computer-Renewed :
      (id : Identity) (spec : ComputerSpec T)
      → Renewed u s computer_class id
          (λ o. join_dn (codes "CN=") spec.name spec.container)
          (update_computer u id spec s)
  unfolding update_computer
  update_computer-Renewed id spec =
      let op = codes "Computer.Update" in
      let dn = join_dn (codes "CN=") spec.name spec.container in
      check-Outcome _ (Kept u s) (validate_computer spec op false) _ s refl (
        require_class-Outcome _ (Kept u s) u computer_name op id _ s refl (λ o h.
          updated_principals-Outcome _ (Kept u s) u op spec.principals_allowed
            o.computer.principals_allowed _ s refl
            (λ l.
              finish_update-IsRenewed computer_class id o
                (record o { computer = updated_computer u spec l o.computer }) _ (λ x. dn)
                (moved_computer dn spec.name spec.container) s.passwords h refl refl refl refl refl
                (λ x. (refl, refl, refl, refl, refl)))))

  pub update_user-Renewed :
      (id : Identity) (spec : UserSpec T)
      → Renewed u s user_class id
          (λ o. join_dn (codes "CN=") (named spec.name o.user.name) spec.container)
          (update_user u id spec s)
  unfolding update_user
  update_user-Renewed id spec =
      let op = codes "User.Update" in
      check-Outcome _ (Kept u s) (validate_user spec op) _ s refl (
        require_class-Outcome _ (Kept u s) u user_name op id _ s refl (λ o h.
          record_password-Outcome _ (Kept u s) o.guid spec.password _ s (λ l.
            finish_update-IsRenewed user_class id o (record o { user = updated_user u spec o.user })
              _ (λ x. join_dn (codes "CN=") (named spec.name x.user.name) spec.container)
              (moved_user (join_dn (codes "CN=") (named spec.name o.user.name) spec.container)
                (named spec.name o.user.name) spec.container)
              l h refl refl refl refl refl (λ x. (refl, refl, refl, refl, refl)))))
