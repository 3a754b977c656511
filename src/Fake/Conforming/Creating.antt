-- ===== src/Fake/Conforming/Creating.antt =====
-- `mustCreateOU` of adcoretest/suite.go on a directory of adcorefake/ with some units.
use go_adcore.Common.{
  ◌≡◌, ◌≢◌, refl, ap, ◌∙◌, true, false, List, [], ◌∷◌, ◌++◌, ok, some, is_nil, ℕ, ◌+◌, arith,
  Bool-cases, inl, inr,
}
use go_adcore.Bytes.{Bytes, codes, equal, equal_iff}
use go_adcore.Folding.{CaseFolding, equal_fold}
use go_adcore.Errors.{nil}
use go_adcore.Dn.{Dn}
use go_adcore.Dn.Parse.{parse_dn}
use go_adcore.Maps.{put}
use go_adcore.Spec.{validate_container}
use go_adcore.Suite.{unit_spec, must_create_ou}
use go_adcore.Fake.Objects.{Object, Store}
use go_adcore.Fake.Lookup.{is_taken, eq_dn}
use go_adcore.Fake.Backend.{new_directory}
use go_adcore.Fake.Naming.{unit_dn, parse_unit_dn, eq_dn_refl, eq_dn_apart}
use go_adcore.Fake.Conforming.{
  unit_at, with_units, one_unit, container_valid, create_unit, must_create-ok,
}

module _ (u : CaseFolding) (T : Type 0) where
  put-append :
      (m : List (Bytes × Object T)) (dn : Bytes) (o : Object T)
      → eq_dn u dn dn ≡ true
      → is_taken u m dn ≡ false
      → put m dn o ≡ m ++ (dn, o) ∷ []
  unfolding put is_taken
  put-append [] dn o e h = refl
  put-append ((k, p) ∷ m) dn o e h = elim (Bool-cases (equal k dn)) [
    | inl is ↦
        let same : eq_dn u k dn ≡ true = ap (λ x. eq_dn u x dn) ((equal_iff k dn).0 is) ∙ e in
        absurd (ground (arith, same, h))
    | inr is ↦ rw is (ap (λ l. (k, p) ∷ l) (put-append m dn o e (ground (arith, h))))
  ]

module _ (u : CaseFolding) (T : Type 0) (dnc : Bytes) (d : Dn) (h : parse_dn dnc ≡ ok d)
    (ne : d.rdns ≢ []) where
  unit_dn_refl : (name : Bytes) → eq_dn u (unit_dn name dnc) (unit_dn name dnc) ≡ true
  unit_dn_refl name = eq_dn_refl u (unit_dn name dnc) _ (parse_unit_dn name dnc d h ne)

  -- `Create` of one more unit
  create_next :
      (s : Store T) (name : Bytes)
      → is_nil name ≡ false
      → is_taken u s.by_dn (unit_dn name dnc) ≡ false
      → must_create_ou (new_directory u {T = T} dnc) (unit_spec name dnc) (s, []) ≡ (
        some (unit_at {T = T} (s.seq + 1) name dnc).ou,
        (
          record s {
            by_dn = s.by_dn ++ (unit_dn name dnc, unit_at (s.seq + 1) name dnc) ∷ [];
            seq = s.seq + 1;
          },
          [],
        ),
      )
  create_next s name n free =
      must_create-ok u dnc (unit_spec name dnc) (unit_at {T = T} (s.seq + 1) name dnc).ou s _ [] (
        create_unit u s name dnc n (container_valid (codes "OU.Create") dnc d h ne) free
        ∙ ap
            (λ m. (
              ok (unit_at {T = T} (s.seq + 1) name dnc).ou,
              record s { by_dn = m; seq = s.seq + 1 },
            ))
            (put-append u T s.by_dn (unit_dn name dnc) (unit_at (s.seq + 1) name dnc)
              (unit_dn_refl name) free))

  apart : (a b : Bytes) → equal_fold u a b ≡ false → eq_dn u (unit_dn a dnc) (unit_dn b dnc) ≡ false
  apart a b e = eq_dn_apart u a b dnc d h ne e

  abbrev pub entry : ℕ → Bytes → Bytes × Object T
  entry n name = (unit_dn name dnc, unit_at n name dnc)

  pub create_second :
      (a b : Bytes)
      → is_nil b ≡ false
      → equal_fold u a b ≡ false
      → must_create_ou
          (new_directory u {T = T} dnc)
          (unit_spec b dnc)
          (one_unit dnc a (unit_at 1 a dnc), [])
        ≡ (some (unit_at {T = T} 2 b dnc).ou, (with_units dnc 2 (entry 1 a ∷ entry 2 b ∷ []), []))
  unfolding is_taken
  create_second a b n e = create_next (one_unit dnc a (unit_at 1 a dnc)) b n (rw (apart a b e) refl)

  pub create_third :
      (a b c : Bytes)
      → is_nil c ≡ false
      → equal_fold u a c ≡ false
      → equal_fold u b c ≡ false
      → must_create_ou
          (new_directory u {T = T} dnc)
          (unit_spec c dnc)
          (with_units dnc 2 (entry 1 a ∷ entry 2 b ∷ []), [])
        ≡ (
          some (unit_at {T = T} 3 c dnc).ou,
          (with_units dnc 3 (entry 1 a ∷ entry 2 b ∷ entry 3 c ∷ []), []),
        )
  unfolding is_taken
  create_third a b c n e g =
      create_next (with_units dnc 2 (entry 1 a ∷ entry 2 b ∷ [])) c n
        (rw (apart a c e, apart b c g) refl)

  pub valid : (op : Bytes) → validate_container op dnc ≡ nil
  valid op = container_valid op dnc d h ne
