-- ===== src/Dn/Bounds.antt =====
-- The loop of `ParseDN` never slices out of range, and never reports a hex escape that
-- `strconv.ParseUint` refuses: two hex digits are always a byte.
use go_adcore.Common.{
  ℕ, ◌+◌, ◌*◌, ◌≤◌, ◌<◌, ◌≡◌, ◌≢◌, refl, ap, true, [], ◌∷◌, arith, is_nil, length, All, Result, ok,
  err, ◌>>=◌, bind-eq-ok, inl, inr, Bool-cases, some, Option-cases,
}
use go_adcore.Bytes.{Bytes, trim_space}
use go_adcore.Dn.{Dn}
use go_adcore.Dn.Parse.{
  ParseError, Parser, initial, is_hex_digit, parse_uint_16, append_val, end_attr, end_rdn, step,
  finish, run, parse_dn, bad_hex_escape, hex_digit_value,
}
use go_adcore.Dn.Sound.{Inv, step-Inv, initial-Inv}

-- The bytes read by the loop alone, with what follows it left out.
unfoldable pub steps : Parser → Bytes → Result ParseError Parser
steps p [] = ok p
steps p (c ∷ cs) = do q ← step p c; steps q cs

chain_finish :
    (r : Result ParseError Parser) (all_of : Parser → Result ParseError Dn)
    (loop : Parser → Result ParseError Parser)
    → ((q : Parser) → all_of q ≡ (loop q >>= finish))
    → (r >>= all_of) ≡ ((r >>= loop) >>= finish)
chain_finish (ok q) all_of loop h = h q
chain_finish (err e) all_of loop h = refl

-- The loop followed by `finish` is what `ParseDN` runs.
run-steps : (s : Bytes) (p : Parser) → run p s ≡ (steps p s >>= finish)
unfolding steps run
run-steps [] p = refl
run-steps (c ∷ cs) p = chain_finish (step p c) (λ q. run q cs) (λ q. steps q cs) (run-steps cs)

-- What the loop knows of the pair of hex digits that is being read.
record HexInv (p : Parser) : Type 0 where
  short : length p.hex_buf ≤ 1
  digits : All (λ c. is_hex_digit c ≡ true) p.hex_buf

abbrev NotBadHex {ℓ} : {A : Type ℓ} → (A → Type 0) → Result ParseError A → Type 0
NotBadHex P (ok a) = P a
NotBadHex P (err (bad_hex_escape _)) = ⊥
NotBadHex P (err _) = Unit

hex_digit_value-lt :
    (c : ℕ) → is_hex_digit c ≡ true → (d : ℕ) × (hex_digit_value c ≡ some d) × (d < 16)
unfolding is_hex_digit hex_digit_value
hex_digit_value-lt c h = elim (Option-cases (hex_digit_value c)) [
  | inl e ↦ absurd (ground arith)
  | inr (d, e) ↦ (d, e, ground arith)
]

-- Two hex digits are one byte.
parse_uint_16_pair :
    (x y : ℕ)
    → is_hex_digit x ≡ true
    → is_hex_digit y ≡ true
    → (b : ℕ) × (parse_uint_16 0 (x ∷ y ∷ []) ≡ some b) × (b < 256)
unfolding parse_uint_16
parse_uint_16_pair x y hx hy =
    let (d, e, l) = hex_digit_value-lt x hx in
    let (d', e', l') = hex_digit_value-lt y hy in (d * 16 + d', ground arith, omega arith)

end_attr-NotBadHex : (p : Parser) → NotBadHex (λ q. q.hex_buf ≡ p.hex_buf) (end_attr p)
unfolding end_attr
end_attr-NotBadHex p = ground arith

end_rdn-NotBadHex : (p : Parser) → NotBadHex (λ q. q.hex_buf ≡ p.hex_buf) (end_rdn p)
unfolding end_rdn
end_rdn-NotBadHex p = ground (arith, end_attr-NotBadHex p)

step_of_hex :
    (l : Bytes) (p : Parser) (c : ℕ) → p.hex_buf ≡ l → HexInv p → NotBadHex HexInv (step p c)
unfolding step append_val
step_of_hex [] p c e h = ground (arith, end_attr-NotBadHex p, end_rdn-NotBadHex p)
step_of_hex (x ∷ []) p c e h =
    ground (arith, end_attr-NotBadHex p, end_rdn-NotBadHex p, parse_uint_16_pair x c)
step_of_hex (x ∷ y ∷ l) p c e h = absurd (omega (arith, ap length e))

finish-NotBadHex : (p : Parser) → NotBadHex (λ _. Unit {0}) (finish p)
unfolding finish
finish-NotBadHex p = ground (arith, end_rdn-NotBadHex p)

run-NotBadHex : (s : Bytes) (p : Parser) → HexInv p → NotBadHex (λ _. Unit {0}) (run p s)
unfolding run
run-NotBadHex [] p h = finish-NotBadHex p
run-NotBadHex (c ∷ cs) p h =
    go (step p c) (step_of_hex p.hex_buf p c refl h) (λ q j. run-NotBadHex cs q j)
  where
    go :
        (r : Result ParseError Parser)
        → NotBadHex HexInv r
        → ((q : Parser) → HexInv q → NotBadHex (λ _. Unit {0}) (run q cs))
        → NotBadHex (λ _. Unit {0}) (r >>= λ q. run q cs)
    go (ok q) j ih = ih q j
    go (err (bad_hex_escape l)) j ih = j
    go (err e) j ih = ground arith

initial-HexInv : HexInv initial
initial-HexInv = record { short = omega arith; digits = tt }

parse_dn-NotBadHex : (s : Bytes) → NotBadHex (λ _. Unit {0}) (parse_dn s)
unfolding parse_dn
parse_dn-NotBadHex s = elim (Bool-cases (is_nil (trim_space s))) [
  | inl e ↦ rw e tt
  | inr e ↦ rw e (run-NotBadHex s initial initial-HexInv)
]

-- `ParseDN` never fails with the error of `strconv.ParseUint`: the branch for it is dead code.
pub parse_dn-ne-bad_hex_escape : (s l : Bytes) → parse_dn s ≢ err (bad_hex_escape l)
parse_dn-ne-bad_hex_escape s l e = rw e at (parse_dn-NotBadHex s)

steps-Inv :
    (s : Bytes) (p : Parser) → Inv p → HexInv p → (q : Parser) → steps p s ≡ ok q → Inv q × HexInv q
unfolding steps
steps-Inv [] p i h q e = ground arith
steps-Inv (c ∷ cs) p i h q e =
    let (r, s, later) = bind-eq-ok (step p c) (λ r. steps r cs) e in
    steps-Inv cs r (rw s at (step-Inv p c i)) (rw s at (step_of_hex p.hex_buf p c refl h)) q later

-- At every turn of the loop the slice `valBuf[:len(valBuf)-trailWS]` is in range, and at most one
-- hex digit waits for its partner.
pub steps_bounds :
    (s : Bytes) (q : Parser)
    → steps initial s ≡ ok q
    → (q.trail_ws ≤ length q.val_buf) × (length q.hex_buf ≤ 1)
steps_bounds s q e =
    let (i, h) = steps-Inv s initial initial-Inv initial-HexInv q e in (i.trail_ws, h.short)
