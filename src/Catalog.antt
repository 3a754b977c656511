-- ===== src/Catalog.antt =====
-- schema/catalog.go: the catalog of attributes and classes, and its integrity check. The loops over
-- sorted keys only order the problems.
pub mod Integrity
pub mod Loading
pub mod Embedded
use go_adcore.Common.{
  ℕ, Bool, true, false, not, ◌||◌, List, [], ◌∷◌, ◌++◌, Option, none, some, if◌then◌else◌, ℤ, ltb,
  length, take, is_nil, ok, err, Result,
}
use go_adcore.Bytes.{Bytes, equal}
use go_adcore.Maps.{keys, lookup}
use go_adcore.Acl.{sort_strings}

-- `type Source`
pub record Source : Type 0 where
  pub domain : Bytes
  pub forest_mode : Bytes
  pub schema_nc : Bytes
  pub object_version : ℤ
  pub exported_at : Bytes
  pub exporter : Bytes

-- `type Attribute`
pub record Attribute : Type 0 where
  pub oid : Bytes
  pub syntax : Bytes
  pub om_syntax : ℤ
  pub single_valued : Bool
  pub system_only : Bool
  pub range_lower : Option ℤ
  pub range_upper : Option ℤ
  pub indexed : Bool
  pub link_id : Option ℤ

-- `type Class`
pub record Class : Type 0 where
  pub structural : Bool
  pub mandatory : List Bytes
  pub optional : List Bytes
  pub via : List (Bytes × Bytes)

-- `type Catalog`
pub record Catalog : Type 0 where
  pub source : Source
  pub attributes : List (Bytes × Attribute)
  pub classes : List (Bytes × Class)

-- a problem found, with the class and the attribute that its message names
pub data Problem : Type 0 where
  unknown_attribute missing_via stray_via : Bytes → Bytes → Problem

-- `func (c *Catalog) ClassNames`
unfoldable pub class_names : Catalog → List Bytes
unfolding sort_strings
class_names c = sort_strings (keys c.classes)

-- `if wrong { problems = append(problems, p) }`
abbrev pub report : Bool → Problem → List Problem
report true p = p ∷ []
report false p = []

-- `named[attr]`
unfoldable pub is_named : List Bytes → Bytes → Bool
is_named [] attr = false
is_named (a ∷ l) attr = equal a attr || is_named l attr

-- `c.Attributes[attr]` is there
abbrev pub is_known : List (Bytes × Attribute) → Bytes → Bool
is_known attributes attr = elim (lookup attributes attr) [ none ↦ false | some a ↦ true ]

-- `cl.Via[attr]`: the empty string where the key is missing
abbrev pub via_of : List (Bytes × Bytes) → Bytes → Bytes
via_of via attr = elim (lookup via attr) [ none ↦ [] | some v ↦ v ]

-- the loop over the attributes that a class names
unfoldable pub attribute_problems :
    List (Bytes × Attribute) → Bytes → List (Bytes × Bytes) → List Bytes → List Problem
attribute_problems attributes name via [] = []
attribute_problems attributes name via (attr ∷ group) =
    report (not (is_known attributes attr)) (unknown_attribute name attr)
    ++ (report (is_nil (via_of via attr)) (missing_via name attr)
        ++ attribute_problems attributes name via group)

-- the loop over the keys of `Via`
unfoldable pub via_problems : Bytes → List Bytes → List Bytes → List Problem
via_problems name named [] = []
via_problems name named (attr ∷ rest) =
    report (not (is_named named attr)) (stray_via name attr) ++ via_problems name named rest

unfoldable pub class_problems : List (Bytes × Attribute) → Bytes → Class → List Problem
unfolding attribute_problems via_problems
class_problems attributes name cl =
    attribute_problems attributes name cl.via (cl.mandatory ++ cl.optional)
    ++ via_problems name (cl.mandatory ++ cl.optional) (sort_strings (keys cl.via))

-- the loop over the class names
unfoldable pub all_problems : Catalog → List Bytes → List Problem
all_problems c [] = []
all_problems c (name ∷ names) =
    elim (lookup c.classes name) [ none ↦ [] | some cl ↦ class_problems c.attributes name cl ]
    ++ all_problems c names

-- the error keeps the number of problems and those shown
abbrev pub verdict : List Problem → Result (ℕ × List Problem) (Unit {0})
verdict [] = ok tt
verdict (p ∷ l) = err (length (p ∷ l), if ltb 10 (length (p ∷ l)) then take 10 (p ∷ l) else p ∷ l)

-- `func (c *Catalog) Validate`
unfoldable pub validate : Catalog → Result (ℕ × List Problem) (Unit {0})
unfolding class_names
validate c = verdict (all_problems c (class_names c))
