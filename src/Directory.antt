-- ===== src/Directory.antt =====
-- directory.go: what a backend hands a consumer, as records of operations over a world, which is the
-- state that the backend reads and writes. A Go pair `(value, error)` may have both parts.
use go_adcore.Common.{Bool, List, Option, none, some}
use go_adcore.Bytes.{Bytes}
use go_adcore.Identity.{Identity}
use go_adcore.Errors.{GoError, nil}
use go_adcore.Models.{Ou, Group, User, Gmsa, Computer, Member}
use go_adcore.Search.{Query}
use go_adcore.Secret.{Secret}
use go_adcore.Acl.{SchemaRef, Ace}
use go_adcore.Spec.{OuSpec, GroupSpec, UserSpec, GmsaSpec, ComputerSpec}

-- a call with a pointer or a slice and an error, and one with an error alone
abbrev pub Call : Type 0 → Type 0 → Type 0
Call W A = W → (Option A × GoError) × W

abbrev pub Effect : Type 0 → Type 0
Effect W = W → GoError × W

-- `type DeleteOptions` of spec.go
pub record DeleteOptions : Type 0 where
  pub unprotect : Bool

-- `type OUDirectory`
pub record OuDirectory (W : Type 0) : Type 0 where
  pub create : OuSpec → Call W Ou
  pub get : Identity → Call W Ou
  pub search : Query → Call W (List Ou)
  pub update : Identity → OuSpec → Call W Ou
  pub delete : Identity → DeleteOptions → Effect W

-- `type GroupDirectory`
pub record GroupDirectory (W : Type 0) : Type 0 where
  pub create : GroupSpec → Call W Group
  pub get : Identity → Call W Group
  pub search : Query → Call W (List Group)
  pub update : Identity → GroupSpec → Call W Group
  pub delete : Identity → Effect W
  pub members : Identity → Call W (List Member)
  pub members_recursive : Identity → Call W (List Member)
  pub add_members : Identity → List Identity → Effect W
  pub remove_members : Identity → List Identity → Effect W
  pub is_member : Identity → Identity → W → (Bool × GoError) × W

-- `type UserDirectory`
pub record UserDirectory (W T : Type 0) : Type 0 where
  pub create : UserSpec T → Call W (User T)
  pub get : Identity → Call W (User T)
  pub search : Query → Call W (List (User T))
  pub update : Identity → UserSpec T → Call W (User T)
  pub delete : Identity → Effect W
  pub set_password : Identity → Secret → Effect W

-- `type ServiceAccountDirectory`
pub record ServiceAccountDirectory (W T : Type 0) : Type 0 where
  pub create : GmsaSpec T → Call W (Gmsa T)
  pub get : Identity → Call W (Gmsa T)
  pub search : Query → Call W (List (Gmsa T))
  pub update : Identity → GmsaSpec T → Call W (Gmsa T)
  pub delete : Identity → Effect W

-- `type ComputerDirectory`
pub record ComputerDirectory (W T : Type 0) : Type 0 where
  pub create : ComputerSpec T → Call W (Computer T)
  pub get : Identity → Call W (Computer T)
  pub search : Query → Call W (List (Computer T))
  pub update : Identity → ComputerSpec T → Call W (Computer T)
  pub delete : Identity → Effect W

-- `type ACLDirectory`
pub record AclDirectory (W : Type 0) : Type 0 where
  pub get : Identity → Call W (List Ace)
  pub grant : Identity → List Ace → Effect W
  pub revoke : Identity → List Ace → Effect W

-- `type SchemaDirectory`
pub record SchemaDirectory (W : Type 0) : Type 0 where
  pub resolve : List SchemaRef → Call W (List (SchemaRef × Bytes))

-- `type Directory`; the closer is none for a nil interface
pub record Directory (W T : Type 0) : Type 0 where
  pub ou : OuDirectory W
  pub group : GroupDirectory W
  pub user : UserDirectory W T
  pub service_account : ServiceAccountDirectory W T
  pub computer : ComputerDirectory W T
  pub acl : AclDirectory W
  pub schema : SchemaDirectory W
  pub server : Bytes
  pub dnc : Bytes
  pub closer : Option (Effect W)

-- `func (d Directory) Close`
unfoldable pub close : {W T : Type 0} → Directory W T → Effect W
close d w = elim d.closer [ none ↦ (nil, w) | some c ↦ c w ]
