-- ===== src/Fake/Objects.antt =====
-- The store of adcorefake/fake.go: its objects, and the texts of GUIDs and SIDs. An object is the
-- value behind its pointer, which the map holds under one key, the DN of the object.
use go_adcore.Common.{
  ℕ, zero, suc, ◌+◌, ◌-◌, ◌/◌, ◌%◌, false, List, [], ◌∷◌, ◌++◌, none, ◌==◌, ltb, length,
  if◌then◌else◌, pos,
}
use go_adcore.Bytes.{Bytes, codes}
use go_adcore.Models.{Ou, Group, User, Gmsa, Computer}
use go_adcore.Acl.{Ace}

-- `type object`; the keys of the map `members` are a list
pub record Object (T : Type 0) : Type 0 where
  pub guid : Bytes
  pub dn : Bytes
  pub class : Bytes
  pub ou : Ou
  pub group : Group
  pub user : User T
  pub computer : Computer T
  pub gmsa : Gmsa T
  pub members : List Bytes
  pub dacl : List Ace

-- `type store`; its locks are held for the whole of an operation
pub record Store (T : Type 0) : Type 0 where
  pub dnc : Bytes
  pub by_dn : List (Bytes × Object T)
  pub seq : ℕ
  pub passwords : List (Bytes × List Bytes)

-- the zero values
abbrev pub zero_ou : Ou
zero_ou = record {
  guid = [];
  dn = [];
  name = [];
  container = [];
  description = [];
  protected = false;
}

abbrev pub zero_group : Group
zero_group = record {
  guid = [];
  dn = [];
  name = [];
  sam_account_name = [];
  container = [];
  scope = [];
  category = [];
  description = [];
  managed_by = [];
  sid = [];
}

abbrev pub zero_user : {T : Type 0} → User T
zero_user = record {
  guid = [];
  dn = [];
  name = [];
  sam_account_name = [];
  user_principal_name = [];
  display_name = [];
  given_name = [];
  surname = [];
  description = [];
  container = [];
  enabled = false;
  sid = [];
  change_password_at_logon = false;
  can_change_password = false;
  password_expires = false;
  account_expiration = none;
}

abbrev pub zero_gmsa : {T : Type 0} → Gmsa T
zero_gmsa = record {
  guid = [];
  dn = [];
  name = [];
  sam_account_name = [];
  container = [];
  sid = [];
  dns_host_name = [];
  description = [];
  display_name = [];
  enabled = false;
  trusted_for_delegation = false;
  principals_allowed = [];
  service_principal_names = [];
  kerberos_encryption_type = [];
  managed_password_interval_in_days = pos 0;
  account_expiration = none;
}

abbrev pub zero_computer : {T : Type 0} → Computer T
zero_computer = record {
  guid = [];
  dn = [];
  name = [];
  sam_account_name = [];
  container = [];
  sid = [];
  enabled = false;
  dns_host_name = [];
  description = [];
  display_name = [];
  location = [];
  managed_by = [];
  trusted_for_delegation = false;
  service_principal_names = [];
  allowed_to_delegate_to = [];
  principals_allowed = [];
  kerberos_encryption_type = [];
  account_expiration = none;
  operating_system = [];
  operating_system_version = [];
  operating_system_service_pack = [];
}

-- `&object{guid: guid, dn: dn, class: class}`
abbrev pub new_object : {T : Type 0} → Bytes → Bytes → Bytes → Object T
new_object guid dn class = record {
  guid = guid;
  dn = dn;
  class = class;
  ou = zero_ou;
  group = zero_group;
  user = zero_user;
  computer = zero_computer;
  gmsa = zero_gmsa;
  members = [];
  dacl = [];
}

-- the store of `NewRecording`
unfoldable pub new_store : {T : Type 0} → Bytes → Store T
new_store dnc = record { dnc = dnc; by_dn = []; seq = 0; passwords = [] }

-- the digits of a number in a base up to 16, with fuel: more than the number is enough
unfoldable pub digits : ℕ → ℕ → ℕ → Bytes → Bytes
digits base zero n acc = acc
digits base (suc f) n acc =
    let d = if ltb (n % base) 10 then b'0' + n % base else b'a' + (n % base - 10) in
    let rest = digits base f (n / base) (d ∷ acc) in if n / base == 0 then d ∷ acc else rest

unfoldable pub padded : ℕ → Bytes → Bytes
padded zero s = s
padded (suc w) s = b'0' ∷ padded w s

-- `fmt.Sprintf("%08x-0000-0000-0000-000000000000", seq)`
unfoldable pub guid_text : ℕ → Bytes
unfolding digits padded
guid_text seq =
    let hex = digits 16 (seq + 1) seq [] in
    padded (8 - length hex) hex ++ codes "-0000-0000-0000-000000000000"

-- `"S-1-5-21-0-0-0-" + fmt.Sprint(seq)`
unfoldable pub sid_text : ℕ → Bytes
unfolding digits
sid_text seq = codes "S-1-5-21-0-0-0-" ++ digits 10 (seq + 1) seq []
