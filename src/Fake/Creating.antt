-- ===== src/Fake/Creating.antt =====
-- `Create` of every class of adcorefake/ and what it leaves behind.
use go_adcore.Common.{◌+◌, ◌≡◌, refl, true, false, Result}
use go_adcore.Bytes.{Bytes, codes}
use go_adcore.Folding.{CaseFolding}
use go_adcore.Spec.{
  OuSpec, GroupSpec, UserSpec, GmsaSpec, ComputerSpec, validate_name, validate_container,
  validate_group, validate_user, validate_gmsa, validate_computer,
}
use go_adcore.Maps.{put}
use go_adcore.Fake.Objects.{Object, Store, guid_text}
use go_adcore.Fake.Lookup.{is_taken, next_guid, save}
use go_adcore.Fake.Classes.{Class, join_dn}
use go_adcore.Fake.Outcomes.{
  Outcome, check-Outcome, refuse_taken-Outcome, resolve_principals-Outcome, record_password-Outcome,
}
use go_adcore.Fake.Units.{unit_class, create_ou, new_unit}
use go_adcore.Fake.Groups.{group_class, create_group, new_group}
use go_adcore.Fake.Users.{user_class, create_user, new_user, named}
use go_adcore.Fake.Accounts.{account_class, create_gmsa, new_account}
use go_adcore.Fake.Computers.{computer_class, create_computer, new_computer}

-- What a `Create` that succeeds adds: an object with the next GUID, at a DN that was not taken.
pub record IsMade (u : CaseFolding) {T : Type 0} (c : Class T) (dn : Bytes) (s : Store T)
    (m : c.Model) (s' : Store T) : Type 0 where
  pub object : Object T
  pub shown : m ≡ c.model object
  pub guid : object.guid ≡ guid_text (s.seq + 1)
  pub dn_is : object.dn ≡ dn
  pub class : object.class ≡ c.name
  pub untaken : is_taken u s.by_dn dn ≡ false
  pub by_dn : s'.by_dn ≡ put s.by_dn dn object
  pub seq : s'.seq ≡ s.seq + 1
  pub dnc : s'.dnc ≡ s.dnc

module _ (u : CaseFolding) {T : Type 0} (s : Store T) where
  -- The store is as before an error.
  abbrev pub Kept : Store T → Type 0
  Kept s' = s' ≡ s

  -- The outcome of a `Create` of the class at a DN.
  abbrev pub Made :
      (c : Class T) → Bytes → Result go_adcore.Errors.GoError c.Model × Store T → Type 0
  Made c dn = Outcome (IsMade u c dn s) Kept

  pub create_ou-Made :
      (spec : OuSpec)
      → Made unit_class (join_dn (codes "OU=") spec.name spec.container) (create_ou u spec s)
  unfolding create_ou next_guid save
  create_ou-Made spec =
      let op = codes "OU.Create" in
      let dn = join_dn (codes "OU=") spec.name spec.container in
      check-Outcome _ Kept (validate_name op spec.name) _ s refl (
        check-Outcome _ Kept (validate_container op spec.container) _ s refl (
          refuse_taken-Outcome _ Kept u op dn _ s refl (λ free. record {
            object = new_unit spec (guid_text (s.seq + 1)) dn;
            shown = refl;
            guid = refl;
            dn_is = refl;
            class = refl;
            untaken = free;
            by_dn = refl;
            seq = refl;
            dnc = refl;
          })))

  pub create_group-Made :
      (spec : GroupSpec)
      → Made group_class (join_dn (codes "CN=") spec.name spec.container) (create_group u spec s)
  unfolding create_group next_guid save
  create_group-Made spec =
      let op = codes "Group.Create" in
      let dn = join_dn (codes "CN=") spec.name spec.container in
      check-Outcome _ Kept (validate_group spec op true) _ s refl (
        refuse_taken-Outcome _ Kept u op dn _ s refl (λ free. record {
          object = new_group spec (guid_text (s.seq + 1)) dn (s.seq + 1);
          shown = refl;
          guid = refl;
          dn_is = refl;
          class = refl;
          untaken = free;
          by_dn = refl;
          seq = refl;
          dnc = refl;
        }))

  pub create_user-Made :
      (spec : UserSpec T)
      → Made user_class
          (join_dn (codes "CN=") (named spec.name spec.sam_account_name) spec.container)
          (create_user u spec s)
  unfolding create_user next_guid save
  create_user-Made spec =
      let op = codes "User.Create" in
      let name = named spec.name spec.sam_account_name in
      let dn = join_dn (codes "CN=") name spec.container in
      check-Outcome _ Kept (validate_user spec op) _ s refl (
        refuse_taken-Outcome _ Kept u op dn _ s refl (λ free.
          record_password-Outcome _ Kept (guid_text (s.seq + 1)) spec.password _
            (record s { seq = s.seq + 1 })
            (λ l. record {
              object = new_user spec name (guid_text (s.seq + 1)) dn (s.seq + 1);
              shown = refl;
              guid = refl;
              dn_is = refl;
              class = refl;
              untaken = free;
              by_dn = refl;
              seq = refl;
              dnc = refl;
            })))

  pub create_gmsa-Made :
      (spec : GmsaSpec T)
      → Made account_class (join_dn (codes "CN=") spec.name spec.container) (create_gmsa u spec s)
  unfolding create_gmsa next_guid save
  create_gmsa-Made spec =
      let op = codes "ServiceAccount.Create" in
      let dn = join_dn (codes "CN=") spec.name spec.container in
      check-Outcome _ Kept (validate_gmsa spec op true) _ s refl (
        refuse_taken-Outcome _ Kept u op dn _ s refl (λ free.
          resolve_principals-Outcome _ Kept u op spec.principals_allowed _ s refl (λ l. record {
            object = new_account spec l (guid_text (s.seq + 1)) dn (s.seq + 1);
            shown = refl;
            guid = refl;
            dn_is = refl;
            class = refl;
            untaken = free;
            by_dn = refl;
            seq = refl;
            dnc = refl;
          })))

  pub create_computer-Made :
      (spec : ComputerSpec T)
      → Made computer_class
          (join_dn (codes "CN=") spec.name spec.container)
          (create_computer u spec s)
  unfolding create_computer next_guid save
  create_computer-Made spec =
      let op = codes "Computer.Create" in
      let dn = join_dn (codes "CN=") spec.name spec.container in
      check-Outcome _ Kept (validate_computer spec op true) _ s refl (
        refuse_taken-Outcome _ Kept u op dn _ s refl (λ free.
          resolve_principals-Outcome _ Kept u op spec.principals_allowed _ s refl (λ l. record {
            object = new_computer spec l (guid_text (s.seq + 1)) dn (s.seq + 1);
            shown = refl;
            guid = refl;
            dn_is = refl;
            class = refl;
            untaken = free;
            by_dn = refl;
            seq = refl;
            dnc = refl;
          })))
