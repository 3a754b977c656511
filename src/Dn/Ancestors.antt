-- ===== src/Dn/Ancestors.antt =====
-- `AncestorOfFold` and `DN.Parent` against their meaning.
use mathlib.Core.List.{append_assoc}
use mathlib.Core.Path.{subst}
use go_adcore.Common.{
  ℕ, zero, suc, ◌+◌, ◌-◌, ◌<◌, ◌≡◌, ◌≢◌, ◌↔◌, refl, sym, ap, ◌∙◌, true, false, List, [], ◌∷◌, ◌++◌,
  some, leb, length, length-append, take, arith,
}
use go_adcore.Folding.{CaseFolding}
use go_adcore.Dn.{RelativeDn, Dn}
use go_adcore.Dn.Compare.{drop_rdns, dn_equal_fold, ancestor_of_fold}
use go_adcore.Dn.Equality.{
  SameRdns, SameRdns-trans, length-SameRdns, rdns_equal_fold→same, same→rdns_equal_fold,
  dn_equal_fold_iff, dn_equal_fold_refl,
}
use go_adcore.Dn.Strings.{parent}

drop_rdns-append : (pre suf : List RelativeDn) → drop_rdns (length pre) (pre ++ suf) ≡ suf
unfolding drop_rdns
drop_rdns-append [] suf = refl
drop_rdns-append (r ∷ pre) suf = drop_rdns-append pre suf

take-append-drop_rdns : (n : ℕ) (l : List RelativeDn) → take n l ++ drop_rdns n l ≡ l
unfolding drop_rdns
take-append-drop_rdns zero l = refl
take-append-drop_rdns (suc n) [] = refl
take-append-drop_rdns (suc n) (r ∷ l) = ap (◌∷◌ r) (take-append-drop_rdns n l)

length-drop_rdns : (n : ℕ) (l : List RelativeDn) → length (drop_rdns n l) ≡ length l - n
unfolding drop_rdns
length-drop_rdns zero l = omega arith
length-drop_rdns (suc n) [] = omega arith
length-drop_rdns (suc n) (r ∷ l) = omega (arith, length-drop_rdns n l)

pub parent_split :
    (l : List RelativeDn) (p : Dn)
    → parent (record { rdns = l }) ≡ some p
    → (r : RelativeDn) × (l ≡ r ∷ p.rdns) × (p.rdns ≢ [])
unfolding parent
parent_split [] p h = cc
parent_split (r ∷ []) p h = cc
parent_split (r ∷ s ∷ l) p h = let e : s ∷ l ≡ p.rdns = ground arith in (r, ap (◌∷◌ r) e, λ k. cc)

module _ (u : CaseFolding) where
  -- The RDNs of `other` are some of their own, and behind them those of `d`, up to case.
  pub record IsAncestor (d other : Dn) : Type 0 where
    pub own : List RelativeDn
    pub shared : List RelativeDn
    pub splits : other.rdns ≡ own ++ shared
    pub strict : 0 < length own
    pub same : SameRdns u d.rdns shared

  ancestor→split : (d o : Dn) → ancestor_of_fold u d (some o) ≡ true → IsAncestor d o
  unfolding ancestor_of_fold
  ancestor→split d o h =
      let n = length o.rdns - length d.rdns in
      let longer : length d.rdns < length o.rdns = ground arith in
      let t = take-append-drop_rdns n o.rdns in
      let dropped = length-drop_rdns n o.rdns in
      record {
        own = take n o.rdns;
        shared = drop_rdns n o.rdns;
        splits = sym t;
        strict = omega (arith, ap length t, length-append (take n o.rdns) (drop_rdns n o.rdns));
        same = rdns_equal_fold→same u d.rdns (drop_rdns n o.rdns) (omega arith) (ground arith);
      }

  split→ancestor : (d o : Dn) → IsAncestor d o → ancestor_of_fold u d (some o) ≡ true
  unfolding ancestor_of_fold
  split→ancestor d o a =
      let l : length o.rdns ≡ length a.own + length a.shared =
        ap length a.splits ∙ length-append a.own a.shared in
      let m = length-SameRdns u d.rdns a.shared a.same in
      let n : length o.rdns - length d.rdns ≡ length a.own = omega (arith, a.strict) in
      let e : leb (length o.rdns) (length d.rdns) ≡ false = ground (arith, a.strict) in
      rw (e, n, a.splits, drop_rdns-append) (same→rdns_equal_fold u d.rdns a.shared a.same)

  -- `AncestorOfFold` holds exactly of the strict ancestors.
  pub ancestor_of_fold_iff :
      (d other : Dn) → (ancestor_of_fold u d (some other) ≡ true) ↔ IsAncestor d other
  ancestor_of_fold_iff d other = (ancestor→split d other, split→ancestor d other)

  -- Behind DNs that are the same, a split of one is a split of the other.
  SameRdns-split :
      (xs ys zs : List RelativeDn)
      → SameRdns u (xs ++ ys) zs
      → (xs' : List RelativeDn) × (ys' : List RelativeDn) × (zs ≡ xs' ++ ys') × SameRdns u ys ys'
  SameRdns-split [] ys zs h = ([], zs, refl, h)
  SameRdns-split (x ∷ xs) ys [] h = absurd h
  SameRdns-split (x ∷ xs) ys (z ∷ zs) h =
      let (xs', ys', e, k) = SameRdns-split xs ys zs h.1 in (z ∷ xs', ys', ap (◌∷◌ z) e, k)

  IsAncestor-trans : (d e f : Dn) → IsAncestor d e → IsAncestor e f → IsAncestor d f
  IsAncestor-trans d e f a b =
      let (xs, ys, s, k) =
        SameRdns-split a.own a.shared b.shared
          (subst (λ l. SameRdns u l b.shared) a.splits b.same) in
      record {
        own = b.own ++ xs;
        shared = ys;
        splits = b.splits ∙ rw (s, append_assoc);
        strict = omega (arith, b.strict, length-append b.own xs);
        same = SameRdns-trans u d.rdns a.shared ys a.same k;
      }

  -- The ancestor of an ancestor is an ancestor.
  pub ancestor_of_fold_trans :
      (d e f : Dn)
      → ancestor_of_fold u d (some e) ≡ true
      → ancestor_of_fold u e (some f) ≡ true
      → ancestor_of_fold u d (some f) ≡ true
  ancestor_of_fold_trans d e f h k =
      split→ancestor d f (IsAncestor-trans d e f (ancestor→split d e h) (ancestor→split e f k))

  length-IsAncestor : (d e : Dn) → IsAncestor d e → length d.rdns < length e.rdns
  length-IsAncestor d e a = omega (
    arith,
    a.strict,
    ap length a.splits,
    length-append a.own a.shared,
    length-SameRdns u d.rdns a.shared a.same,
  )

  -- No two DNs are ancestors of one another, or the same object as their ancestor.
  pub ancestor_of_fold-asymm :
      (d e : Dn)
      → ancestor_of_fold u d (some e) ≡ true
      → (ancestor_of_fold u e (some d) ≢ true) × (dn_equal_fold u d (some e) ≢ true)
  ancestor_of_fold-asymm d e h =
      let l = length-IsAncestor d e (ancestor→split d e h) in
      (
        λ k. absurd (omega (arith, l, length-IsAncestor e d (ancestor→split e d k))),
        λ k.
            absurd
              (omega (arith, l, length-SameRdns u d.rdns e.rdns ((dn_equal_fold_iff u d e).0 k))),
      )

  -- The comparison with an ancestor does not tell apart spellings of the same object.
  pub ancestor_of_fold-congr :
      (d d' o : Dn)
      → dn_equal_fold u d (some d') ≡ true
      → ancestor_of_fold u d' (some o) ≡ true
      → ancestor_of_fold u d (some o) ≡ true
  ancestor_of_fold-congr d d' o h k =
      let a = ancestor→split d' o k in
      split→ancestor d o (record {
        own = a.own;
        shared = a.shared;
        splits = a.splits;
        strict = a.strict;
        same = SameRdns-trans u d.rdns d'.rdns a.shared ((dn_equal_fold_iff u d d').0 h) a.same;
      })

  SameRdns-self : (rs : List RelativeDn) → SameRdns u rs rs
  SameRdns-self rs =
      (dn_equal_fold_iff u (record { rdns = rs }) (record { rdns = rs })).0
        (dn_equal_fold_refl u (record { rdns = rs }))

  -- `Parent` is an ancestor, one RDN up.
  pub parent-ancestor_of_fold :
      (d p : Dn)
      → parent d ≡ some p
      → (ancestor_of_fold u p (some d) ≡ true) × (length d.rdns ≡ length p.rdns + 1)
  parent-ancestor_of_fold d p h =
      let (r, e, ne) = parent_split d.rdns p h in
      (
        split→ancestor p d (record {
          own = r ∷ [];
          shared = p.rdns;
          splits = e;
          strict = omega arith;
          same = SameRdns-self p.rdns;
        }),
        omega (arith, ap length e),
      )
