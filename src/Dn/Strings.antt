-- ===== src/Dn/Strings.antt =====
-- `DN.Parent`, and the conveniences of dn.go that take and return strings.
use go_adcore.Common.{Bool, List, [], ◌∷◌, Option, none, some, map, Result, ok, err, ◌>>=◌}
use go_adcore.Bytes.{Bytes}
use go_adcore.Folding.{CaseFolding}
use go_adcore.Dn.{RelativeDn, Dn}
use go_adcore.Dn.Parse.{ParseError, parse_dn}
use go_adcore.Dn.Render.{to_string}
use go_adcore.Dn.Compare.{dn_equal_fold}

parent_rdns : List RelativeDn → Option Dn
parent_rdns [] = none
parent_rdns (r ∷ []) = none
parent_rdns (r ∷ s ∷ rest) = some (record { rdns = s ∷ rest })

-- `func (d *DN) Parent`; nil is `none`
unfoldable pub parent : Dn → Option Dn
unfolding parent_rdns
parent d = parent_rdns d.rdns

-- `func Parent`
unfoldable pub parent_string : Bytes → Result ParseError Bytes
parent_string dn = do
  parsed ← parse_dn dn
  elim (parent parsed) [ none ↦ ok [] | some p ↦ ok (to_string p) ]

-- `func EqualFoldDN`
unfoldable pub equal_fold_dn : CaseFolding → Bytes → Bytes → Result ParseError Bool
equal_fold_dn u a b = do pa ← parse_dn a; pb ← parse_dn b; ok (dn_equal_fold u pa (some pb))

-- `func SplitDN`
unfoldable pub split_dn : Bytes → Result ParseError (List Bytes)
split_dn dn = do
  parsed ← parse_dn dn
  ok (map (λ (r : RelativeDn). to_string (record { rdns = r ∷ [] })) parsed.rdns)

pub data ContainerError : Type 0 where
  unparsed : ParseError → ContainerError
  no_parent : Bytes → ContainerError

-- `func ContainerOf`
unfoldable pub container_of : Bytes → Result ContainerError Bytes
container_of dn = elim (parse_dn dn) [
  | err e ↦ err (unparsed e)
  | ok parsed ↦ elim (parent parsed) [ none ↦ err (no_parent dn) | some p ↦ ok (to_string p) ]
]
