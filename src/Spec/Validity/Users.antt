-- ===== src/Spec/Validity/Users.antt =====
-- `UserSpec.Validate` of spec.go.
use go_adcore.Common.{
  ◌≡◌, ◌≢◌, ◌↔◌, ◌⊎◌, inl, inr, refl, Bool, true, false, ◌&&◌, [], Option, none, some, is_nil,
  arith,
}
use go_adcore.Bytes.{Bytes}
use go_adcore.Errors.{nil}
use go_adcore.Spec.{validate_container, UserSpec, validate_user, is_true, is_false}
use go_adcore.Spec.Validity.{IsContainer, is_nil_iff, validate_container_iff}

abbrev CanRequireChange : Option Bool → Option Bool → Option Bool → Type 0
CanRequireChange at_logon expires can =
    (at_logon ≢ some true) ⊎ ((expires ≢ some false) × (can ≢ some false))

change_of_tests :
    (at_logon expires can : Option Bool)
    → (is_true at_logon && is_false expires) ≡ false
    → (is_true at_logon && is_false can) ≡ false
    → CanRequireChange at_logon expires can
change_of_tests none e c h k = inl (λ p. cc)
change_of_tests (some false) e c h k = inl (λ p. cc)
change_of_tests (some true) e c h k = inr (λ p. ground arith, λ p. ground arith)

tests_of_change :
    (at_logon expires can : Option Bool)
    → CanRequireChange at_logon expires can
    → ((is_true at_logon && is_false expires) ≡ false)
      × ((is_true at_logon && is_false can) ≡ false)
tests_of_change none e c h = (refl, refl)
tests_of_change (some false) e c h = (refl, refl)
tests_of_change (some true) e c h = (ground arith, ground arith)

module _ {T : Type 0} where
  -- What a `UserSpec` must be.
  pub record IsValidUser (s : UserSpec T) : Type 0 where
    pub sam_account_name : s.sam_account_name ≢ []
    pub container : IsContainer s.container
    pub one_expiration : (s.account_expiration.set ≡ false) ⊎ (s.account_expiration.clear ≡ false)
    pub can_require_change :
        (s.change_password_at_logon ≢ some true)
        ⊎ ((s.password_expires ≢ some false) × (s.can_change_password ≢ some false))

  validate_user_tests :
      (s : UserSpec T) (op : Bytes)
      → validate_user s op ≡ nil
      → (is_nil s.sam_account_name ≡ false)
        × (validate_container op s.container ≡ nil)
        × ((s.account_expiration.set && s.account_expiration.clear) ≡ false)
        × ((is_true s.change_password_at_logon && is_false s.password_expires) ≡ false)
        × ((is_true s.change_password_at_logon && is_false s.can_change_password) ≡ false)
  unfolding validate_user
  validate_user_tests s op h = ground arith

  validate_user_of_tests :
      (s : UserSpec T) (op : Bytes)
      → is_nil s.sam_account_name ≡ false
      → validate_container op s.container ≡ nil
      → (s.account_expiration.set && s.account_expiration.clear) ≡ false
      → (is_true s.change_password_at_logon && is_false s.password_expires) ≡ false
      → (is_true s.change_password_at_logon && is_false s.can_change_password) ≡ false
      → validate_user s op ≡ nil
  unfolding validate_user
  validate_user_of_tests s op h1 h2 h3 h4 h5 = rw (h1, h2, h3, h4, h5)

  -- A `UserSpec` is accepted exactly if it is valid: no change of the password at logon is
  -- demanded where the password never expires or the user may not change it.
  pub validate_user_iff : (s : UserSpec T) (op : Bytes) → (validate_user s op ≡ nil) ↔ IsValidUser s
  validate_user_iff s op = (
    λ h.
        let (h1, h2, h3, h4, h5) = validate_user_tests s op h in
        record {
          sam_account_name = (is_nil_iff s.sam_account_name).0 h1;
          container = (validate_container_iff op s.container).0 h2;
          one_expiration = ground arith;
          can_require_change =
              change_of_tests s.change_password_at_logon s.password_expires s.can_change_password h4
                h5;
        },
    λ v.
        let (h4, h5) =
          tests_of_change s.change_password_at_logon s.password_expires s.can_change_password
            v.can_require_change in
        validate_user_of_tests s op ((is_nil_iff s.sam_account_name).1 v.sam_account_name)
          ((validate_container_iff op s.container).1 v.container) (ground (arith, v.one_expiration))
          h4 h5,
  )
