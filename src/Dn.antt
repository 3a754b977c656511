-- ===== src/Dn.antt =====
-- dn.go: distinguished names. The children hold the parser, the printer, the comparison and the
-- string conveniences, with their theorems.
pub mod Parse
pub mod Render
pub mod RoundTrip
pub mod Sound
pub mod Bounds
pub mod Compare
pub mod Equality
pub mod Ancestors
pub mod Strings
pub mod Joining
use go_adcore.Common.{List}
use go_adcore.Bytes.{Bytes}

-- `type AttributeTypeAndValue`; its field `Type` is `kind`, since `Type` is a reserved word.
pub record AttributeTypeAndValue : Type 0 where
  pub kind : Bytes
  pub value : Bytes

-- `type RelativeDN`
pub record RelativeDn : Type 0 where
  pub attributes : List AttributeTypeAndValue

-- `type DN`
pub record Dn : Type 0 where
  pub rdns : List RelativeDn
