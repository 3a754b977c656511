-- ===== src/Fake/Numbering.antt =====
-- The GUIDs that `nextGUID` of adcorefake/fake.go gives out: two counts have two texts.
use go_adcore.Common.{
  ℕ, zero, suc, ◌+◌, ◌-◌, ◌*◌, ◌/◌, ◌%◌, ◌<◌, ◌≡◌, refl, sym, ap, ◌∙◌, false, [], ◌∷◌, ◌++◌, ◌==◌,
  ltb, length, if◌then◌else◌, arith, Bool-cases, inl, inr,
}
use go_adcore.Bytes.{Bytes, codes}
use go_adcore.Fake.Objects.{digits, padded, guid_text}

abbrev digit_value : ℕ → ℕ
digit_value c = if ltb c b'a' then c - b'0' else c - b'a' + 10

-- the number in base 16 before the first dash
abbrev value : ℕ → Bytes → ℕ
value acc [] = acc
value acc (c ∷ s) = if c == b'-' then acc else value (acc * 16 + digit_value c) s

abbrev digit : ℕ → ℕ
digit d = if ltb d 10 then b'0' + d else b'a' + (d - 10)

digit_lem : (d : ℕ) → d < 16 → ((digit d == b'-') ≡ false) × (digit_value (digit d) ≡ d)
digit_lem d h = ground arith

value-digit :
    (d : ℕ) (s : Bytes) (acc : ℕ) → d < 16 → value acc (digit d ∷ s) ≡ value (acc * 16 + d) s
value-digit d s acc h = let (a, b) = digit_lem d h in rw (a, b) refl

value-padded : (w : ℕ) (s : Bytes) → value 0 (padded w s) ≡ value 0 s
unfolding padded
value-padded zero s = refl
value-padded (suc w) s = value-padded w s

padded-append : (w : ℕ) (s t : Bytes) → padded w s ++ t ≡ padded w (s ++ t)
unfolding padded
padded-append zero s t = refl
padded-append (suc w) s t = ap (◌∷◌ b'0') (padded-append w s t)

digits-append : (f n : ℕ) (acc t : Bytes) → digits 16 f n acc ++ t ≡ digits 16 f n (acc ++ t)
unfolding digits
digits-append zero n acc t = refl
digits-append (suc f) n acc t = elim (Bool-cases (n / 16 == 0)) [
  | inl e ↦ rw e refl
  | inr e ↦ rw e (digits-append f (n / 16) _ t)
]

value-digits : (f n : ℕ) (acc : Bytes) → n < f → value 0 (digits 16 f n acc) ≡ value n acc
unfolding digits
value-digits zero n acc h = absurd (omega arith)
value-digits (suc f) n acc h = elim (Bool-cases (n / 16 == 0)) [
  | inl e ↦ rw e (value-digit (n % 16) acc 0 (omega arith) ∙ ap (λ x. value x acc) (ground arith))
  | inr e ↦ rw e (
      value-digits f (n / 16) (digit (n % 16) ∷ acc) (ground arith)
      ∙ value-digit (n % 16) acc (n / 16) (omega arith)
      ∙ ap (λ x. value x acc) (omega arith))
]

value-guid_text : (n : ℕ) → value 0 (guid_text n) ≡ n
unfolding guid_text
value-guid_text n =
    ap (value 0) (
      padded-append (8 - length (digits 16 (n + 1) n [])) (digits 16 (n + 1) n [])
        (codes "-0000-0000-0000-000000000000"))
    ∙ value-padded (8 - length (digits 16 (n + 1) n []))
        (digits 16 (n + 1) n [] ++ codes "-0000-0000-0000-000000000000")
    ∙ ap (value 0) (digits-append (n + 1) n [] (codes "-0000-0000-0000-000000000000"))
    ∙ value-digits (n + 1) n (codes "-0000-0000-0000-000000000000") (omega arith)

pub guid_text-injective : (m n : ℕ) → guid_text m ≡ guid_text n → m ≡ n
guid_text-injective m n h = sym (value-guid_text m) ∙ ap (value 0) h ∙ value-guid_text n
