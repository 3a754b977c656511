-- ===== src/Dn/Compare.antt =====
-- `EqualFold` and `AncestorOfFold` of dn.go. A nil `other` is `none`.
use go_adcore.Common.{
  ℕ, zero, suc, ◌-◌, Bool, true, false, not, ◌&&◌, List, [], ◌∷◌, Option, none, some, ◌==◌, leb,
  if◌then◌else◌, length,
}
use go_adcore.Folding.{CaseFolding, equal_fold}
use go_adcore.Dn.{AttributeTypeAndValue, RelativeDn, Dn}

-- `make([]bool, n)`
unfoldable pub none_used : ℕ → List Bool
none_used zero = []
none_used (suc n) = false ∷ none_used n

-- `other.RDNs[offset:]`
unfoldable pub drop_rdns : ℕ → List RelativeDn → List RelativeDn
drop_rdns zero l = l
drop_rdns (suc n) [] = []
drop_rdns (suc n) (r ∷ l) = drop_rdns n l

unfoldable pub keep_flag : Bool → Option (List Bool) → Option (List Bool)
keep_flag x none = none
keep_flag x (some used) = some (x ∷ used)

module _ (u : CaseFolding) where
  unfoldable pub attribute_matches : AttributeTypeAndValue → AttributeTypeAndValue → Bool
  attribute_matches a b = equal_fold u a.kind b.kind && equal_fold u a.value b.value

  -- The inner loop: the first unused match is marked as used; none where there is none.
  unfoldable pub use_match :
      AttributeTypeAndValue → List AttributeTypeAndValue → List Bool → Option (List Bool)
  use_match a [] used = none
  use_match a (b ∷ bs) [] = none
  use_match a (b ∷ bs) (x ∷ used) =
      let rest = keep_flag x (use_match a bs used) in
      if x then rest else if attribute_matches a b then some (true ∷ used) else rest

  -- The outer loop
  unfoldable pub all_matched :
      List AttributeTypeAndValue → List AttributeTypeAndValue → List Bool → Bool
  all_matched [] bs used = true
  all_matched (a ∷ as') bs used = elim (use_match a bs used) [
    | none ↦ false
    | some used' ↦ all_matched as' bs used'
  ]

  -- `func (r *RelativeDN) equalFold`
  unfoldable pub rdn_equal_fold : RelativeDn → RelativeDn → Bool
  unfolding all_matched use_match attribute_matches none_used keep_flag
  rdn_equal_fold r other =
      if not (length r.attributes == length other.attributes)
      then false
      else all_matched r.attributes other.attributes (none_used (length other.attributes))

  -- the loop over the RDNs of two DNs; `other` is at least as long
  unfoldable pub rdns_equal_fold : List RelativeDn → List RelativeDn → Bool
  rdns_equal_fold [] other = true
  rdns_equal_fold (r ∷ rs) [] = false
  rdns_equal_fold (r ∷ rs) (o ∷ os) =
      if not (rdn_equal_fold r o) then false else rdns_equal_fold rs os

  -- `func (d *DN) EqualFold`
  unfoldable pub dn_equal_fold : Dn → Option Dn → Bool
  dn_equal_fold d none = false
  dn_equal_fold d (some other) =
      if not (length d.rdns == length other.rdns) then false else rdns_equal_fold d.rdns other.rdns

  -- `func (d *DN) AncestorOfFold`
  unfoldable pub ancestor_of_fold : Dn → Option Dn → Bool
  ancestor_of_fold d none = false
  ancestor_of_fold d (some other) =
      if leb (length other.rdns) (length d.rdns)
      then false
      else rdns_equal_fold d.rdns (drop_rdns (length other.rdns - length d.rdns) other.rdns)
