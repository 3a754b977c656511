-- ===== src/Fake/Moving.antt =====
-- `moveLocked` of adcorefake/fake.go. The loop runs over the keys that are there when it starts, and
-- reads the map as it then is: Go leaves open whether it meets the keys that it adds itself. Where
-- `len(dn)-len(old)` is negative the slice panics in Go; the model takes the empty text.
use go_adcore.Common.{
  ◌-◌, not, ◌||◌, List, [], ◌∷◌, none, some, ◌++◌, take, length, if◌then◌else◌, ok,
}
use go_adcore.Bytes.{Bytes, equal}
use go_adcore.Folding.{CaseFolding}
use go_adcore.Maps.{keys, lookup, put, delete_key}
use go_adcore.Fake.Objects.{Object}
use go_adcore.Fake.Actions.{Action}
use go_adcore.Fake.Lookup.{is_below}

-- the DN of a child and of its models
abbrev pub with_dn : {T : Type 0} → Object T → Bytes → Object T
with_dn o dn = record o {
  dn = dn;
  ou = record o.ou { dn = dn };
  group = record o.group { dn = dn };
  user = record o.user { dn = dn };
  computer = record o.computer { dn = dn };
  gmsa = record o.gmsa { dn = dn };
}

module _ (u : CaseFolding) {T : Type 0} where
  -- one turn of the loop, at the key `dn`; it is skipped where the loop has deleted the key
  unfoldable pub move_child :
      Bytes → Bytes → Bytes → List (Bytes × Object T) → List (Bytes × Object T)
  move_child old new_dn dn by_dn = elim (lookup by_dn dn) [
    | none ↦ by_dn
    | some child ↦
        let moved = take (length dn - length old) dn ++ new_dn in
        if equal dn new_dn || not (is_below u dn old)
        then by_dn
        else put (delete_key by_dn dn) moved (with_dn child moved)
  ]

  -- the loop
  unfoldable pub move_children :
      Bytes → Bytes → List Bytes → List (Bytes × Object T) → List (Bytes × Object T)
  unfolding move_child
  move_children old new_dn [] by_dn = by_dn
  move_children old new_dn (dn ∷ met) by_dn =
      move_children old new_dn met (move_child old new_dn dn by_dn)

  -- `func (s *store) moveLocked`
  unfoldable pub move_object : Object T → Bytes → Action T Unit
  move_object o new_dn s =
      let by_dn = put (delete_key s.by_dn o.dn) new_dn (record o { dn = new_dn }) in
      (ok tt, record s { by_dn = move_children o.dn new_dn (keys by_dn) by_dn })
