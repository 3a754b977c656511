-- ===== src/Dn/Equality.antt =====
-- `EqualFold` against its meaning: the same RDNs in the same order, each with the same attributes
-- in any order, up to case.
use mathlib.Core.HLevel.{⊥_prop}
use mathlib.Core.List.{Perm, Mem, not-mem-nil, mem-cons_self, eq-or-mem_of_mem-cons}
use mathlib.Core.List.Perm
use mathlib.Core.Logic.Or
use go_adcore.Common.{
  suc, ◌≡◌, ◌≢◌, ◌↔◌, refl, ap, Bool, true, false, List, [], ◌∷◌, Option, none, some, if◌then◌else◌,
  length, length-map, length-perm, map, arith, inl, inr, Bool-cases,
}
use go_adcore.Bytes.{Bytes, equal_iff}
use go_adcore.Folding.{CaseFolding, equal_fold}
use go_adcore.Dn.{AttributeTypeAndValue, RelativeDn, Dn}
use go_adcore.Dn.Compare.{
  none_used, keep_flag, attribute_matches, use_match, all_matched, rdn_equal_fold, rdns_equal_fold,
  dn_equal_fold,
}

abbrev pub Key : Type 0
Key = Bytes × Bytes

module _ (u : CaseFolding) where
  -- An attribute up to case.
  abbrev pub key : AttributeTypeAndValue → Key
  key a = (u.fold a.kind, u.fold a.value)

  abbrev pub keys : RelativeDn → List Key
  keys r = map key r.attributes

  attribute_matches_iff :
      (a b : AttributeTypeAndValue) → (attribute_matches u a b ≡ true) ↔ (key a ≡ key b)
  unfolding attribute_matches equal_fold
  attribute_matches_iff a b = (
    λ h. ground (
      arith,
      equal_iff (u.fold a.kind) (u.fold b.kind),
      equal_iff (u.fold a.value) (u.fold b.value),
    ),
    λ h. ground (
      arith,
      equal_iff (u.fold a.kind) (u.fold b.kind),
      equal_iff (u.fold a.value) (u.fold b.value),
    ),
  )

  abbrev unused : List AttributeTypeAndValue → List Bool → List Key
  unused [] used = []
  unused (b ∷ bs) [] = []
  unused (b ∷ bs) (x ∷ used) = if x then unused bs used else key b ∷ unused bs used

  abbrev Outcome :
      AttributeTypeAndValue → List AttributeTypeAndValue → List Bool → Option (List Bool) → Type 0
  Outcome a bs used none = ¬ Mem (key a) (unused bs used)
  Outcome a bs used (some used') = Perm (unused bs used) (key a ∷ unused bs used')

  Outcome-keep_flag :
      (a b : AttributeTypeAndValue) (bs : List AttributeTypeAndValue) (x : Bool) (used : List Bool)
      (o : Option (List Bool))
      → (x ≡ false → key a ≢ key b)
      → Outcome a bs used o
      → Outcome a (b ∷ bs) (x ∷ used) (keep_flag x o)
  unfolding keep_flag
  Outcome-keep_flag a b bs true used none ne h = h
  Outcome-keep_flag a b bs true used (some v) ne h = h
  Outcome-keep_flag a b bs false used none ne h =
      λ m. Or.elim ⊥_prop (eq-or-mem_of_mem-cons m) (ne refl) h
  Outcome-keep_flag a b bs false used (some v) ne h =
      Perm.trans (Perm.cons (key b) h) (Perm.swap (key a) (key b) (unused bs v))

  use_match-Outcome :
      (a : AttributeTypeAndValue) (bs : List AttributeTypeAndValue) (used : List Bool)
      → Outcome a bs used (use_match u a bs used)
  unfolding use_match
  use_match-Outcome a [] used = not-mem-nil
  use_match-Outcome a (b ∷ bs) [] = not-mem-nil
  use_match-Outcome a (b ∷ bs) (true ∷ used) =
      Outcome-keep_flag a b bs true used _ (λ e. cc) (use_match-Outcome a bs used)
  use_match-Outcome a (b ∷ bs) (false ∷ used) = elim (Bool-cases (attribute_matches u a b)) [
    | inl e ↦ rw (e, (attribute_matches_iff a b).0 e) (Perm.refl _)
    | inr e ↦ rw e (
        Outcome-keep_flag a b bs false used _ (λ _ k. ground (arith, attribute_matches_iff a b))
          (use_match-Outcome a bs used))
  ]

  unused_all : (bs : List AttributeTypeAndValue) → unused bs (none_used (length bs)) ≡ map key bs
  unfolding none_used
  unused_all [] = refl
  unused_all (b ∷ bs) = ap (◌∷◌ (key b)) (unused_all bs)

  all_matched→perm :
      (as' bs : List AttributeTypeAndValue) (used : List Bool)
      → all_matched u as' bs used ≡ true
      → length as' ≡ length (unused bs used)
      → Perm (map key as') (unused bs used)
  unfolding all_matched
  all_matched→perm [] bs used h e = go (unused bs used) e
    where
      go : (l : List Key) → 0 ≡ length l → Perm [] l
      go [] e = Perm.nil
      go (k ∷ l) e = absurd (omega arith)
  all_matched→perm (a ∷ as') bs used h e =
      go (use_match u a bs used) (use_match-Outcome a bs used) h
        (λ v k l. all_matched→perm as' bs v k l)
    where
      go :
          (o : Option (List Bool))
          → Outcome a bs used o
          → elim o [ none ↦ false | some v ↦ all_matched u as' bs v ] ≡ true
          → ((v : List Bool)
              → all_matched u as' bs v ≡ true
              → length as' ≡ length (unused bs v)
              → Perm (map key as') (unused bs v))
          → Perm (key a ∷ map key as') (unused bs used)
      go none out k ih = cc
      go (some v) out k ih =
          Perm.trans (Perm.cons (key a) (ih v k (omega (arith, length-perm out)))) (Perm.symm out)

  perm→all_matched :
      (as' bs : List AttributeTypeAndValue) (used : List Bool)
      → Perm (map key as') (unused bs used)
      → all_matched u as' bs used ≡ true
  unfolding all_matched
  perm→all_matched [] bs used p = refl
  perm→all_matched (a ∷ as') bs used p =
      go (use_match u a bs used) (use_match-Outcome a bs used) (λ v q. perm→all_matched as' bs v q)
    where
      go :
          (o : Option (List Bool))
          → Outcome a bs used o
          → ((v : List Bool) → Perm (map key as') (unused bs v) → all_matched u as' bs v ≡ true)
          → elim o [ none ↦ false | some v ↦ all_matched u as' bs v ] ≡ true
      go none out ih = absurd (out (Perm.subset p (key a) mem-cons_self))
      go (some v) out ih = ih v (Perm.cons_inv (Perm.trans p out))

  -- `RelativeDN.equalFold` holds exactly if the two have the same attributes up to case, each as
  -- often, in any order: the first match may be taken.
  pub rdn_equal_fold_iff :
      (r s : RelativeDn) → (rdn_equal_fold u r s ≡ true) ↔ Perm (keys r) (keys s)
  unfolding rdn_equal_fold
  rdn_equal_fold_iff r s = (forth, back)
    where
      lengths : (length (keys r) ≡ length r.attributes) × (length (keys s) ≡ length s.attributes)
      lengths = (length-map key r.attributes, length-map key s.attributes)

      forth : rdn_equal_fold u r s ≡ true → Perm (keys r) (keys s)
      forth h = rw unused_all at (
          all_matched→perm r.attributes s.attributes (none_used (length s.attributes))
            (ground arith) (rw unused_all (ground (arith, lengths))))

      back : Perm (keys r) (keys s) → rdn_equal_fold u r s ≡ true
      back p =
          let m =
            perm→all_matched r.attributes s.attributes (none_used (length s.attributes))
              (rw unused_all p) in
          ground (arith, length-perm p, lengths)

  -- The same RDNs up to case, in the same order.
  abbrev pub SameRdns : List RelativeDn → List RelativeDn → Type 0
  SameRdns [] [] = Unit
  SameRdns (r ∷ rs) (s ∷ ss) = Perm (keys r) (keys s) × SameRdns rs ss
  SameRdns _ _ = ⊥

  pub rdns_equal_fold→same :
      (rs ss : List RelativeDn)
      → length rs ≡ length ss
      → rdns_equal_fold u rs ss ≡ true
      → SameRdns rs ss
  unfolding rdns_equal_fold
  rdns_equal_fold→same [] [] e h = tt
  rdns_equal_fold→same [] (s ∷ ss) e h = absurd (omega arith)
  rdns_equal_fold→same (r ∷ rs) [] e h = cc
  rdns_equal_fold→same (r ∷ rs) (s ∷ ss) e h = (
    (rdn_equal_fold_iff r s).0 (ground arith),
    rdns_equal_fold→same rs ss (omega arith) (ground arith),
  )

  pub same→rdns_equal_fold :
      (rs ss : List RelativeDn) → SameRdns rs ss → rdns_equal_fold u rs ss ≡ true
  unfolding rdns_equal_fold
  same→rdns_equal_fold [] [] h = refl
  same→rdns_equal_fold [] (s ∷ ss) h = absurd h
  same→rdns_equal_fold (r ∷ rs) [] h = absurd h
  same→rdns_equal_fold (r ∷ rs) (s ∷ ss) h =
      rw ((rdn_equal_fold_iff r s).1 h.0) (same→rdns_equal_fold rs ss h.1)

  pub length-SameRdns : (rs ss : List RelativeDn) → SameRdns rs ss → length rs ≡ length ss
  length-SameRdns [] [] h = refl
  length-SameRdns [] (s ∷ ss) h = absurd h
  length-SameRdns (r ∷ rs) [] h = absurd h
  length-SameRdns (r ∷ rs) (s ∷ ss) h = ap suc (length-SameRdns rs ss h.1)

  -- `DN.EqualFold` holds exactly if the two have as many RDNs and each RDN has the attributes of
  -- its counterpart up to case, in any order.
  pub dn_equal_fold_iff : (d e : Dn) → (dn_equal_fold u d (some e) ≡ true) ↔ SameRdns d.rdns e.rdns
  unfolding dn_equal_fold
  dn_equal_fold_iff d e = (
    λ h. rdns_equal_fold→same d.rdns e.rdns (ground arith) (ground arith),
    λ h. ground (arith, length-SameRdns d.rdns e.rdns h, same→rdns_equal_fold d.rdns e.rdns h),
  )

  SameRdns-refl : (rs : List RelativeDn) → SameRdns rs rs
  SameRdns-refl [] = tt
  SameRdns-refl (r ∷ rs) = (Perm.refl (keys r), SameRdns-refl rs)

  pub SameRdns-symm : (rs ss : List RelativeDn) → SameRdns rs ss → SameRdns ss rs
  SameRdns-symm [] [] h = tt
  SameRdns-symm [] (s ∷ ss) h = absurd h
  SameRdns-symm (r ∷ rs) [] h = absurd h
  SameRdns-symm (r ∷ rs) (s ∷ ss) h = (Perm.symm h.0, SameRdns-symm rs ss h.1)

  pub SameRdns-trans :
      (rs ss ts : List RelativeDn) → SameRdns rs ss → SameRdns ss ts → SameRdns rs ts
  SameRdns-trans [] [] [] h k = tt
  SameRdns-trans (r ∷ rs) (s ∷ ss) (t ∷ ts) h k =
      (Perm.trans h.0 k.0, SameRdns-trans rs ss ts h.1 k.1)
  SameRdns-trans [] (s ∷ ss) ts h k = absurd h
  SameRdns-trans (r ∷ rs) [] ts h k = absurd h
  SameRdns-trans _ (s ∷ ss) [] h k = absurd k
  SameRdns-trans [] [] (t ∷ ts) h k = absurd k

  -- `DN.EqualFold` is an equivalence between DNs that are not nil.
  pub dn_equal_fold_refl : (d : Dn) → dn_equal_fold u d (some d) ≡ true
  dn_equal_fold_refl d = (dn_equal_fold_iff d d).1 (SameRdns-refl d.rdns)

  pub dn_equal_fold_symm :
      (d e : Dn) → dn_equal_fold u d (some e) ≡ true → dn_equal_fold u e (some d) ≡ true
  dn_equal_fold_symm d e h =
      (dn_equal_fold_iff e d).1 (SameRdns-symm d.rdns e.rdns ((dn_equal_fold_iff d e).0 h))

  pub dn_equal_fold_trans :
      (d e f : Dn)
      → dn_equal_fold u d (some e) ≡ true
      → dn_equal_fold u e (some f) ≡ true
      → dn_equal_fold u d (some f) ≡ true
  dn_equal_fold_trans d e f h k = (dn_equal_fold_iff d f).1 (
      SameRdns-trans d.rdns e.rdns f.rdns ((dn_equal_fold_iff d e).0 h)
        ((dn_equal_fold_iff e f).0 k))
