-- ===== src/Fake/Searching.antt =====
-- `Search` of every class of adcorefake/: what it lists, and when it fails.
use mathlib.Core.List.{filter}
use go_adcore.Common.{
  ℕ, ◌≡◌, refl, ◌≤◌, ◌<◌, ◌≢◌, ap, ◌∙◌, Bool, true, false, ◌&&◌, List, [], ◌∷◌, map, length, ok,
  err, pos, Bool-cases, inl, inr, arith,
}
use go_adcore.Bytes.{Bytes, equal}
use go_adcore.Folding.{CaseFolding}
use go_adcore.Search
use go_adcore.Search.{Query}
use go_adcore.Fake.Objects.{Object, Store}
use go_adcore.Fake.Lookup.{in_scope, too_many_error}
use go_adcore.Fake.Classes.{Class, select, search_models, exceeds}

pub false-ne-true : false ≢ true
false-ne-true h = cc

abbrev pub is_true : (b : Bool) → Dec (b ≡ true)
is_true true = yes refl
is_true false = no λ h. false-ne-true h

module _ (u : CaseFolding) {T : Type 0} (c : Class T) (q : Query) where
  -- An entry of the class whose key the query has in its scope.
  abbrev pub is_selected : Bytes × Object T → Bool
  is_selected (k, o) = equal o.class c.name && in_scope u k q

  -- The models of these entries, one for each, in the order of the map.
  abbrev pub listing : List (Bytes × Object T) → List c.Model
  listing m = map (λ e. c.model e.1) (filter (λ e. is_true (is_selected e)) m)

  select-listing : (m : List (Bytes × Object T)) → select u c q m ≡ listing m
  unfolding select
  select-listing [] = refl
  select-listing ((k, o) ∷ m) = elim (Bool-cases (equal o.class c.name)) [
    | inl a ↦ elim (Bool-cases (in_scope u k q)) [
      | inl b ↦ rw (a, b) (ap (◌∷◌ (c.model o)) (select-listing m))
      | inr b ↦ rw (a, b) (select-listing m)
    ]
    | inr a ↦ rw a (select-listing m)
  ]

-- `Search` of any class has one answer for a query and a store. Where the entries of the class in the
-- scope of the query, with its defaults set, are at most as many as its limit, it lists exactly the models
-- of these entries, one for each; where they are more it fails with the error for too many results, and
-- never cuts the list short. It leaves the store as it was.
pub search_models_lem :
    (u : CaseFolding) {T : Type 0} (c : Class T) (op : Bytes) (q : Query) (s : Store T) (limit : ℕ)
    → (Search.with_defaults q s.dnc).size_limit ≡ pos limit
    → (length (listing u c (Search.with_defaults q s.dnc) s.by_dn) ≤ limit
        → search_models u c op q s ≡ (ok (listing u c (Search.with_defaults q s.dnc) s.by_dn), s))
      × (limit < length (listing u c (Search.with_defaults q s.dnc) s.by_dn)
          → search_models u c op q s ≡ (err (too_many_error op), s))
unfolding search_models
search_models_lem u c op q s limit bound =
    let full = Search.with_defaults q s.dnc in
    let same = select-listing u c full s.by_dn in
    (
      λ h.
          let test : exceeds (length (listing u c full s.by_dn)) full.size_limit ≡ false =
            ap (exceeds (length (listing u c full s.by_dn))) bound ∙ ground (arith, h) in
          rw (same, test, search_models) refl,
      λ h.
          let test : exceeds (length (listing u c full s.by_dn)) full.size_limit ≡ true =
            ap (exceeds (length (listing u c full s.by_dn))) bound ∙ ground (arith, h) in
          rw (same, test, search_models) refl,
    )
