-- ===== src/Tests/Filters.antt =====
-- filter.go on concrete values.
use go_adcore.Common.{ℕ, zero, suc, ◌++◌, ◌<◌, ◌≡◌, refl, [], ◌∷◌, some, All, arith}
use go_adcore.Bytes.{Bytes, codes, set?, get_elem?}
use go_adcore.Filter.{
  escape_filter, equal_filter, and_filter, must_escape, count_escapes, zeros, fill, append_terms,
}
use go_adcore.Filter.Escaping.{escape_all, escape_filter-escape_all}
use go_adcore.Filter.Assertions.{
  unescape, plain, IsSafe, IsBalanced, depth, NoParens, escape_filter_lem, equal_filter-IsBalanced,
}

abbrev hostile : Bytes
hostile = codes "*)"

escape_filter-hostile : escape_filter hostile ≡ some (codes "\\2a\\29")
unfolding escape_filter must_escape count_escapes zeros fill set? get_elem?
escape_filter-hostile = refl

and_filter_runs :
    (and_filter [] ≡ [])
    × (and_filter (codes "(a=b)" ∷ []) ≡ codes "(a=b)")
    × (and_filter (codes "(a=b)" ∷ codes "(c=d)" ∷ []) ≡ codes "(&(a=b)(c=d))")
unfolding and_filter append_terms
and_filter_runs = (refl, refl, refl)

hostile_bytes : All (λ c. c < 256) hostile
hostile_bytes = (omega arith, (omega arith, tt))

cn_parens : NoParens (codes "cn")
cn_parens = ((omega arith, omega arith), ((omega arith, omega arith), tt))

escape_filter-escape_all_example : escape_filter hostile ≡ some (escape_all hostile)
escape_filter-escape_all_example = escape_filter-escape_all hostile hostile_bytes

escape_filter_lem_example :
    (out : Bytes) × (escape_filter hostile ≡ some out)
    × (unescape plain out ≡ some hostile)
    × All IsSafe out
escape_filter_lem_example = escape_filter_lem hostile hostile_bytes

equal_filter-IsBalanced_example :
    (out : Bytes) × (equal_filter (codes "cn") hostile ≡ some out) × IsBalanced out
equal_filter-IsBalanced_example =
    equal_filter-IsBalanced (codes "cn") hostile cn_parens hostile_bytes

first_term : (k : ℕ) (rest : Bytes) → depth k (codes "(a=b)" ++ rest) ≡ depth k rest
unfolding depth
first_term zero rest = refl
first_term (suc k) rest = refl

second_term : (k : ℕ) (rest : Bytes) → depth k (codes "(c=d)" ++ rest) ≡ depth k rest
unfolding depth
second_term zero rest = refl
second_term (suc k) rest = refl

two_terms : All IsBalanced (codes "(a=b)" ∷ codes "(c=d)" ∷ [])
two_terms = (record { at_depth = first_term }, (record { at_depth = second_term }, tt))
