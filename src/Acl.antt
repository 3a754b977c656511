-- ===== src/Acl.antt =====
-- acl.go: access-control entries and the key by which they are compared.
pub mod Sorting
pub mod Keys
use go_adcore.Common.{ℕ, Bool, true, false, List, [], ◌∷◌, map, ltb, ◌==◌, if◌then◌else◌}
use go_adcore.Bytes.{Bytes, join}
use go_adcore.Folding.{CaseFolding}

-- `type ACE`; an `ACEType`, a `Right` and an `Inheritance` are strings
pub record Ace : Type 0 where
  pub trustee : Bytes
  pub kind : Bytes
  pub rights : List Bytes
  pub object_type : Bytes
  pub inherited_object_type : Bytes
  pub inheritance : Bytes
  pub inherited : Bool

-- `<=` on strings
unfoldable pub bytes_leb : Bytes → Bytes → Bool
bytes_leb [] b = true
bytes_leb (x ∷ a) [] = false
bytes_leb (x ∷ a) (y ∷ b) = if ltb x y then true else if x == y then bytes_leb a b else false

unfoldable pub insert_sorted : Bytes → List Bytes → List Bytes
insert_sorted s [] = s ∷ []
insert_sorted s (t ∷ l) = if bytes_leb s t then s ∷ t ∷ l else t ∷ insert_sorted s l

-- `type SchemaRef`
pub record SchemaRef : Type 0 where
  pub kind : Bytes
  pub name : Bytes

-- `sort.Strings`: the order decides the result, whatever the algorithm
unfoldable pub sort_strings : List Bytes → List Bytes
unfolding insert_sorted bytes_leb
sort_strings [] = []
sort_strings (s ∷ l) = insert_sorted s (sort_strings l)

abbrev pub record_separator : ℕ
record_separator = 0x1e

abbrev pub unit_separator : ℕ
unit_separator = 0x1f

-- `func CanonicalACEKey`
unfoldable pub canonical_ace_key : CaseFolding → Ace → Bytes
unfolding join
canonical_ace_key u a =
    let rights = sort_strings (map u.to_lower a.rights) in
    join (unit_separator ∷ []) (
      u.to_lower a.trustee
      ∷ u.to_lower a.kind
      ∷ join (record_separator ∷ []) rights
      ∷ u.to_lower a.object_type
      ∷ u.to_lower a.inherited_object_type
      ∷ u.to_lower a.inheritance
      ∷ [])
