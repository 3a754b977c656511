-- ===== src/Identity.antt =====
-- identity.go: the sealed identity argument.
use go_adcore.Common.{ℕ, ◌≡◌, ap, zero, suc, [], ◌∷◌, ◌++◌, arith}
use go_adcore.Bytes.{Bytes, codes}

-- `type identity`
pub record Identity : Type 0 where
  pub arg : Bytes
  pub form : Bytes

-- `func (i identity) String`
unfoldable pub to_string : Identity → Bytes
to_string i = i.form ++ (b':' ∷ i.arg)

-- `func IdentityArg`, `func IdentityForm`
abbrev pub identity_arg : Identity → Bytes
identity_arg id = id.arg

abbrev pub identity_form : Identity → Bytes
identity_form id = id.form

unfoldable pub by_guid : Bytes → Identity
by_guid guid = record { arg = guid; form = codes "guid" }

unfoldable pub by_dn : Bytes → Identity
by_dn dn = record { arg = dn; form = codes "dn" }

unfoldable pub by_sid : Bytes → Identity
by_sid sid = record { arg = sid; form = codes "sid" }

unfoldable pub by_sam : Bytes → Identity
by_sam sam = record { arg = sam; form = codes "sam" }

-- The values that the seal of the interface lets exist.
pub data IsSealed : Identity → Type 0 where
  from_guid : (arg : Bytes) → IsSealed (by_guid arg)
  from_dn : (arg : Bytes) → IsSealed (by_dn arg)
  from_sid : (arg : Bytes) → IsSealed (by_sid arg)
  from_sam : (arg : Bytes) → IsSealed (by_sam arg)

abbrev byte_at : ℕ → Bytes → ℕ
byte_at i [] = 0
byte_at zero (c ∷ cs) = c
byte_at (suc i) (c ∷ cs) = byte_at i cs

-- Two identities that print alike are the same: no argument can pass for another form.
pub to_string-injective :
    {i j : Identity} → IsSealed i → IsSealed j → to_string i ≡ to_string j → i ≡ j
unfolding to_string by_guid by_dn by_sid by_sam
to_string-injective (from_guid a) (from_guid b) h = cc
to_string-injective (from_guid a) (from_dn b) h = absurd (omega (arith, ap (byte_at 0) h))
to_string-injective (from_guid a) (from_sid b) h = absurd (omega (arith, ap (byte_at 0) h))
to_string-injective (from_guid a) (from_sam b) h = absurd (omega (arith, ap (byte_at 0) h))
to_string-injective (from_dn a) (from_guid b) h = absurd (omega (arith, ap (byte_at 0) h))
to_string-injective (from_dn a) (from_dn b) h = cc
to_string-injective (from_dn a) (from_sid b) h = absurd (omega (arith, ap (byte_at 0) h))
to_string-injective (from_dn a) (from_sam b) h = absurd (omega (arith, ap (byte_at 0) h))
to_string-injective (from_sid a) (from_guid b) h = absurd (omega (arith, ap (byte_at 0) h))
to_string-injective (from_sid a) (from_dn b) h = absurd (omega (arith, ap (byte_at 0) h))
to_string-injective (from_sid a) (from_sid b) h = cc
to_string-injective (from_sid a) (from_sam b) h = absurd (omega (arith, ap (byte_at 1) h))
to_string-injective (from_sam a) (from_guid b) h = absurd (omega (arith, ap (byte_at 0) h))
to_string-injective (from_sam a) (from_dn b) h = absurd (omega (arith, ap (byte_at 0) h))
to_string-injective (from_sam a) (from_sid b) h = absurd (omega (arith, ap (byte_at 1) h))
to_string-injective (from_sam a) (from_sam b) h = cc
