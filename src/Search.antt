-- ===== src/Search.antt =====
-- search.go: a directory query and its defaults.
use go_adcore.Common.{
  ◌≡◌, ◌≢◌, refl, true, [], arith, if◌then◌else◌, is_nil, Bool-cases, inl, inr, ℤ, pos, is_positive,
}
use go_adcore.Bytes.{Bytes, codes}

-- the constants of `SearchScope`
abbrev pub scope_base : Bytes
scope_base = codes "base"

abbrev pub scope_one_level : Bytes
scope_one_level = codes "onelevel"

abbrev pub scope_subtree : Bytes
scope_subtree = codes "subtree"

abbrev pub default_size_limit : ℤ
default_size_limit = pos 1000

-- `type Query`
pub record Query : Type 0 where
  pub filter : Bytes
  pub search_base : Bytes
  pub scope : Bytes
  pub size_limit : ℤ

-- `func (q Query) WithDefaults`
unfoldable pub with_defaults : Query → Bytes → Query
with_defaults q dnc = record {
  filter = q.filter;
  search_base = if is_nil q.search_base then dnc else q.search_base;
  scope = if is_nil q.scope then scope_subtree else q.scope;
  size_limit = if is_positive q.size_limit then q.size_limit else default_size_limit;
}

-- With the defaults of a named domain a query has a positive limit, a scope and a base, and
-- applying the defaults again, of whatever domain, changes nothing.
pub with_defaults_lem :
    (q : Query) (dnc other : Bytes)
    → dnc ≢ []
    → (is_positive (with_defaults q dnc).size_limit ≡ true)
      × ((with_defaults q dnc).scope ≢ [])
      × ((with_defaults q dnc).search_base ≢ [])
      × (with_defaults (with_defaults q dnc) other ≡ with_defaults q dnc)
unfolding with_defaults
with_defaults_lem q dnc other h = elim (Bool-cases (is_positive q.size_limit)) [
  | inl p ↦ rw p (p, ground arith, ground arith, ground arith)
  | inr n ↦ rw n (refl, ground arith, ground arith, ground arith)
]
