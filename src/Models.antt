-- ===== src/Models.antt =====
-- models.go: what a backend reads back, and the three-state time of a spec. A `time.Time` is an
-- abstract type, since the program only carries it.
use go_adcore.Common.{Bool, true, false, List, Option, none, some, ℤ}
use go_adcore.Bytes.{Bytes, codes}

-- `type OU`
pub record Ou : Type 0 where
  pub guid : Bytes
  pub dn : Bytes
  pub name : Bytes
  pub container : Bytes
  pub description : Bytes
  pub protected : Bool

-- the constants of `GroupScope` and `GroupCategory`
abbrev pub scope_global : Bytes
scope_global = codes "global"

abbrev pub scope_domain_local : Bytes
scope_domain_local = codes "domainlocal"

abbrev pub scope_universal : Bytes
scope_universal = codes "universal"

abbrev pub category_security : Bytes
category_security = codes "security"

abbrev pub category_distribution : Bytes
category_distribution = codes "distribution"

-- `type Group`
pub record Group : Type 0 where
  pub guid : Bytes
  pub dn : Bytes
  pub name : Bytes
  pub sam_account_name : Bytes
  pub container : Bytes
  pub scope : Bytes
  pub category : Bytes
  pub description : Bytes
  pub managed_by : Bytes
  pub sid : Bytes

-- `type Member`
pub record Member : Type 0 where
  pub guid : Bytes
  pub dn : Bytes
  pub class : Bytes
  pub sid : Bytes

-- `type User`, over the type of times
pub record User (T : Type 0) : Type 0 where
  pub guid : Bytes
  pub dn : Bytes
  pub name : Bytes
  pub sam_account_name : Bytes
  pub user_principal_name : Bytes
  pub display_name : Bytes
  pub given_name : Bytes
  pub surname : Bytes
  pub description : Bytes
  pub container : Bytes
  pub enabled : Bool
  pub sid : Bytes
  pub change_password_at_logon : Bool
  pub can_change_password : Bool
  pub password_expires : Bool
  pub account_expiration : Option T

-- `type GMSA`
pub record Gmsa (T : Type 0) : Type 0 where
  pub guid : Bytes
  pub dn : Bytes
  pub name : Bytes
  pub sam_account_name : Bytes
  pub container : Bytes
  pub sid : Bytes
  pub dns_host_name : Bytes
  pub description : Bytes
  pub display_name : Bytes
  pub enabled : Bool
  pub trusted_for_delegation : Bool
  pub principals_allowed : List Bytes
  pub service_principal_names : List Bytes
  pub kerberos_encryption_type : List Bytes
  pub managed_password_interval_in_days : ℤ
  pub account_expiration : Option T

-- `type Computer`
pub record Computer (T : Type 0) : Type 0 where
  pub guid : Bytes
  pub dn : Bytes
  pub name : Bytes
  pub sam_account_name : Bytes
  pub container : Bytes
  pub sid : Bytes
  pub enabled : Bool
  pub dns_host_name : Bytes
  pub description : Bytes
  pub display_name : Bytes
  pub location : Bytes
  pub managed_by : Bytes
  pub trusted_for_delegation : Bool
  pub service_principal_names : List Bytes
  pub allowed_to_delegate_to : List Bytes
  pub principals_allowed : List Bytes
  pub kerberos_encryption_type : List Bytes
  pub account_expiration : Option T
  pub operating_system : Bytes
  pub operating_system_version : Bytes
  pub operating_system_service_pack : Bytes

-- `type OptTime`; the field `val` of the zero value is the zero time, here none
pub record OptTime (T : Type 0) : Type 0 where
  pub set : Bool
  pub clear : Bool
  pub val : Option T

-- `func SetTime`
unfoldable pub set_time : {T : Type 0} → T → OptTime T
set_time t = record { set = true; clear = false; val = some t }

-- `func ClearTime`
unfoldable pub clear_time : {T : Type 0} → OptTime T
clear_time = record { set = false; clear = true; val = none }

-- `func (o OptTime) IsSet`, `IsClear` and `Value`
abbrev pub is_set : {T : Type 0} → OptTime T → Bool
is_set o = o.set

abbrev pub is_clear : {T : Type 0} → OptTime T → Bool
is_clear o = o.clear

abbrev pub value : {T : Type 0} → OptTime T → Option T
value o = o.val

-- `func String`, `func Bool` and `func Int`: a pointer to a copy of the value
abbrev pub string_pointer : Bytes → Option Bytes
string_pointer s = some s

abbrev pub bool_pointer : Bool → Option Bool
bool_pointer b = some b

abbrev pub int_pointer : ℤ → Option ℤ
int_pointer i = some i

-- The `switch` by which every `apply…Spec` moves the time of a spec onto a model.
unfoldable pub apply_time : {T : Type 0} → OptTime T → Option T → Option T
apply_time o old = go (is_set o) (is_clear o) (value o) old
  where
    go : {T : Type 0} → Bool → Bool → Option T → Option T → Option T
    go true clear val old = val
    go false true val old = none
    go false false val old = old
