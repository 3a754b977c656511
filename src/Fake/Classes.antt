-- ===== src/Fake/Classes.antt =====
-- What the classes of adcorefake/ do alike: `Get`, `Search`, `Delete`, the test of every `Create`,
-- and the end of every `Update`. A class is told apart by its name and by the model it shows.
use go_adcore.Common.{
  ℕ, Bool, true, not, ◌||◌, List, [], ◌∷◌, ◌++◌, Option, none, some, ltb, length, if◌then◌else◌, ℤ,
  pos, negsuc, ok, err,
}
use go_adcore.Bytes.{Bytes, equal}
use go_adcore.Folding.{CaseFolding}
use go_adcore.Identity.{Identity}
use go_adcore.Dn.Render.{escape_value}
use go_adcore.Search.{Query}
use go_adcore.Search
use go_adcore.Maps.{lookup, put}
use go_adcore.Fake.Objects.{Object, Store}
use go_adcore.Fake.Actions.{Action, pure, ◌>>=◌, ◌>>◌}
use go_adcore.Fake.Lookup.{find, is_taken, exists_error, too_many_error, in_scope, remove, save}
use go_adcore.Fake.Moving.{move_object}
use go_adcore.Fake.Entries.{not_found_error}

-- A class: the name in `object.class`, and the field of the object that is its model.
pub record Class (T : Type 0) : Type 1 where
  pub Model : Type 0
  pub name : Bytes
  pub model : Object T → Model

-- `prefix + adcore.EscapeValue(name) + "," + container`
abbrev pub join_dn : Bytes → Bytes → Bytes → Bytes
join_dn prefix name container = prefix ++ (escape_value name ++ (b',' ∷ container))

-- `len(out) > q.SizeLimit`
abbrev pub exceeds : ℕ → ℤ → Bool
exceeds n (pos limit) = ltb limit n
exceeds n (negsuc k) = true

-- `if p != nil { *dst = *p }`
abbrev pub given : {A : Type 0} → Option A → A → A
given none old = old
given (some a) old = a

module _ {T : Type 0} where
  -- The models of the moved object as they now are, in the entry that points to it: where the loop of
  -- `moveLocked` has put a child under the same DN, no entry does.
  unfoldable pub save_moved : Bytes → Object T → List (Bytes × Object T) → List (Bytes × Object T)
  save_moved dn o by_dn = elim (lookup by_dn dn) [
    | none ↦ by_dn
    | some p ↦ if equal p.guid o.guid then put by_dn dn o else by_dn
  ]

  unfoldable pub relabelled : Bytes → Object T → Action T (Object T)
  unfolding save_moved
  relabelled dn o s = (ok o, record s { by_dn = save_moved dn o s.by_dn })

module _ (u : CaseFolding) {T : Type 0} where
  -- the loop of a `Create` over the DNs that are taken
  unfoldable pub refuse_taken : Bytes → Bytes → Action T Unit
  refuse_taken op dn s = (if is_taken u s.by_dn dn then err (exists_error op dn) else ok tt, s)

  -- `o := f.s.findLocked(id)` with the test for nil and for the class
  unfoldable pub find_class : Bytes → Identity → Store T → Option (Object T)
  find_class class id s = elim (find u id s) [
    | none ↦ none
    | some o ↦ if equal o.class class then some o else none
  ]

  unfoldable pub require_class : Bytes → Bytes → Identity → Action T (Object T)
  require_class class op id s = elim (find_class class id s) [
    | none ↦ (err (not_found_error op id), s)
    | some o ↦ (ok o, s)
  ]

  unfoldable pub get_model : (c : Class T) → Bytes → Identity → Action T c.Model
  unfolding require_class
  get_model c op id = do o ← require_class c.name op id; pure (c.model o)

  -- the loop of `Search`
  unfoldable pub select : (c : Class T) → Query → List (Bytes × Object T) → List c.Model
  select c q [] = []
  select c q ((dn, o) ∷ m) =
      let rest = select c q m in
      if not (equal o.class c.name) || not (in_scope u dn q) then rest else c.model o ∷ rest

  unfoldable pub search_models : (c : Class T) → Bytes → Query → Action T (List c.Model)
  search_models c op q s =
      let full = Search.with_defaults q s.dnc in
      let out = select c full s.by_dn in
      (if exceeds (length out) full.size_limit then err (too_many_error op) else ok out, s)

  -- every `Delete` but that of an OU
  unfoldable pub delete_object : Bytes → Identity → Action T Unit
  unfolding find_class
  delete_object class id s = elim (find_class class id s) [
    | none ↦ (ok tt, s)
    | some o ↦ remove o.dn s
  ]

  -- The end of every `Update`: `o` is the object found, with the fields of the spec moved onto it;
  -- where its name or its container differs it is moved, and `relabel` sets the model.
  unfoldable pub finish_update :
      Bool → Bytes → (Object T → Object T) → Object T → Action T (Object T)
  unfolding save relabelled move_object
  finish_update differs new_dn relabel o =
      if differs
      then (do
        save o.dn o
        move_object u o new_dn
        relabelled new_dn (relabel (record o { dn = new_dn })))
      else (do save o.dn o; pure o)
