-- ===== src/Delegation.antt =====
-- delegation.go, with `ACESpec` and the `DelegationTask` constants of acl.go: the curated tasks and
-- the access-control entries that each stands for.
use go_adcore.Common.{List, [], ◌∷◌, Result, ok, err, if◌then◌else◌}
use go_adcore.Bytes.{Bytes, codes, equal}
use go_adcore.Errors.{GoError, other, nil}

-- `type ACESpec`; the kind is its field `Type`
pub record AceSpec : Type 0 where
  pub rights : List Bytes
  pub object_type : Bytes
  pub scope : Bytes
  pub object_class : Bytes
  pub kind : Bytes

abbrev pub ace_allow : Bytes
ace_allow = codes "Allow"

abbrev pub inheritance_this : Bytes
inheritance_this = codes "this"

abbrev pub inheritance_descendants : Bytes
inheritance_descendants = codes "descendants"

abbrev pub task_reset_user_passwords : Bytes
task_reset_user_passwords = codes "reset_user_passwords"

abbrev pub task_manage_users : Bytes
task_manage_users = codes "manage_users"

abbrev pub task_modify_group_membership : Bytes
task_modify_group_membership = codes "modify_group_membership"

abbrev pub task_manage_groups : Bytes
task_manage_groups = codes "manage_groups"

-- `func Tasks`
unfoldable pub tasks : List Bytes
tasks =
    task_reset_user_passwords ∷ task_manage_users ∷ task_modify_group_membership
    ∷ task_manage_groups ∷ []

abbrev entry : List Bytes → Bytes → Bytes → Bytes → AceSpec
entry rights object_type scope object_class = record {
  rights = rights;
  object_type = object_type;
  scope = scope;
  object_class = object_class;
  kind = ace_allow;
}

-- the cases of `Template`
abbrev pub reset_user_passwords_specs : List AceSpec
reset_user_passwords_specs =
    entry (codes "ExtendedRight" ∷ []) (codes "Reset Password") inheritance_descendants
      (codes "user")
    ∷ entry (codes "ReadProperty" ∷ codes "WriteProperty" ∷ []) (codes "pwdLastSet")
        inheritance_descendants (codes "user")
    ∷ []

abbrev pub manage_users_specs : List AceSpec
manage_users_specs =
    entry (codes "CreateChild" ∷ codes "DeleteChild" ∷ []) (codes "user") inheritance_this []
    ∷ entry (codes "GenericAll" ∷ []) [] inheritance_descendants (codes "user")
    ∷ []

abbrev pub modify_group_membership_specs : List AceSpec
modify_group_membership_specs =
    entry (codes "ReadProperty" ∷ codes "WriteProperty" ∷ []) (codes "member")
      inheritance_descendants (codes "group")
    ∷ []

abbrev pub manage_groups_specs : List AceSpec
manage_groups_specs =
    entry (codes "CreateChild" ∷ codes "DeleteChild" ∷ []) (codes "group") inheritance_this []
    ∷ entry (codes "GenericAll" ∷ []) [] inheritance_descendants (codes "group")
    ∷ []

-- `func (d *Delegation) Template`
unfoldable pub template : Bytes → Result GoError (List AceSpec)
template task =
    if equal task task_reset_user_passwords
    then ok reset_user_passwords_specs
    else if equal task task_manage_users
    then ok manage_users_specs
    else if equal task task_modify_group_membership
    then ok modify_group_membership_specs
    else if equal task task_manage_groups
    then ok manage_groups_specs
    else err (other (codes "adcore: unknown delegation task %q") nil)
