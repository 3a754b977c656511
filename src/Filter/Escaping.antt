-- ===== src/Filter/Escaping.antt =====
-- `EscapeFilter` writes each byte as RFC 4515 wants it, never outside its buffer, and what it
-- writes decodes to the value.
use Prim.Native.Nat.add
use native.Mathlib.Nat.{zero-add, add-zero}
use mathlib.Core.List.{append_assoc}
use go_adcore.Common.{
  ℕ, zero, suc, ◌+◌, ◌-◌, ◌*◌, ◌/◌, ◌%◌, ◌≤◌, ◌<◌, ◌≡◌, refl, ap, ◌∙◌, true, false, [], ◌∷◌, ◌++◌,
  some, ◌==◌, ltb, if◌then◌else◌, length, length-append, All, arith, Bool-cases, inl, inr,
}
use go_adcore.Bytes.{Bytes, set?, get_elem?}
use go_adcore.Filter.{
  must_escape, hex_values, count_escapes, zeros, fill, escape_filter, write, write_byte,
}

-- The lower-case hexadecimal digit of a number below 16.
abbrev hex_digit : ℕ → ℕ
hex_digit n = if ltb n 10 then b'0' + n else b'a' + (n - 10)

-- One byte as RFC 4515 writes it in an assertion value.
unfoldable pub escape_byte : ℕ → Bytes
escape_byte c =
    if must_escape c then b'\\' ∷ hex_digit (c / 16) ∷ hex_digit (c % 16) ∷ [] else c ∷ []

unfoldable pub escape_all : Bytes → Bytes
escape_all [] = []
escape_all (c ∷ cs) = escape_byte c ++ escape_all cs

set?-append :
    (xs ys : Bytes) (k v : ℕ) {zs : Bytes}
    → set? ys k v ≡ some zs
    → set? (xs ++ ys) (length xs + k) v ≡ some (xs ++ zs)
unfolding set?
set?-append [] ys k v h = rw zero-add h
set?-append (x ∷ xs) ys k v h = rw add.suc (rw (set?-append xs ys k v h))

hex_values-hex_digit : (n : ℕ) → n < 16 → get_elem? hex_values n ≡ some (hex_digit n)
unfolding get_elem?
hex_values-hex_digit zero h = refl
hex_values-hex_digit (suc zero) h = refl
hex_values-hex_digit (suc (suc zero)) h = refl
hex_values-hex_digit (suc (suc (suc zero))) h = refl
hex_values-hex_digit (suc (suc (suc (suc zero)))) h = refl
hex_values-hex_digit (suc (suc (suc (suc (suc zero))))) h = refl
hex_values-hex_digit (suc (suc (suc (suc (suc (suc zero)))))) h = refl
hex_values-hex_digit (suc (suc (suc (suc (suc (suc (suc zero))))))) h = refl
hex_values-hex_digit (suc (suc (suc (suc (suc (suc (suc (suc zero)))))))) h = refl
hex_values-hex_digit (suc (suc (suc (suc (suc (suc (suc (suc (suc zero))))))))) h = refl
hex_values-hex_digit (suc (suc (suc (suc (suc (suc (suc (suc (suc (suc zero)))))))))) h = refl
hex_values-hex_digit (suc (suc (suc (suc (suc (suc (suc (suc (suc (suc (suc zero))))))))))) h = refl
hex_values-hex_digit (suc (suc (suc (suc (suc (suc (suc (suc (suc (suc (suc (suc zero))))))))))))
      h =
    refl
hex_values-hex_digit
      (suc (suc (suc (suc (suc (suc (suc (suc (suc (suc (suc (suc (suc zero))))))))))))) h =
    refl
hex_values-hex_digit
      (suc (suc (suc (suc (suc (suc (suc (suc (suc (suc (suc (suc (suc (suc zero)))))))))))))) h =
    refl
hex_values-hex_digit
      (suc (suc (suc (suc (suc (suc (suc (suc (suc (suc (suc (suc (suc (suc (suc zero)))))))))))))))
      h =
    refl
hex_values-hex_digit
      (suc
        (suc (suc (suc (suc (suc (suc (suc (suc (suc (suc (suc (suc (suc (suc (suc n))))))))))))))))
      h =
    absurd (omega arith)

-- The bytes of the buffer that one byte of the value takes.
abbrev width : ℕ → ℕ
width c = if must_escape c then 3 else 1

write_byte_plain :
    (done rest : Bytes) (x c : ℕ)
    → must_escape c ≡ false
    → write_byte c (length done) (done ++ (x ∷ rest)) ≡ some (done ++ (c ∷ rest))
unfolding write_byte
write_byte_plain done rest x c e =
    let put = set?-append done (x ∷ rest) 0 c {zs = c ∷ rest} (unfold set? in refl) in
    rw e (rw add-zero at put)

write_byte_escaped :
    (done rest : Bytes) (x y z c : ℕ)
    → c < 256
    → must_escape c ≡ true
    → write_byte c (length done) (done ++ (x ∷ y ∷ z ∷ rest))
      ≡ some (done ++ (b'\\' ∷ hex_digit (c / 16) ∷ hex_digit (c % 16) ∷ rest))
unfolding write_byte write
write_byte_escaped done rest x y z c small e =
    let hi = hex_digit (c / 16) in
    let lo = hex_digit (c % 16) in
    let one =
      set?-append done (x ∷ y ∷ z ∷ rest) 0 b'\\' {zs = b'\\' ∷ y ∷ z ∷ rest}
        (unfold set? in refl) in
    let two =
      set?-append done (b'\\' ∷ y ∷ z ∷ rest) 1 hi {zs = b'\\' ∷ hi ∷ z ∷ rest}
        (unfold set? in refl) in
    let three =
      set?-append done (b'\\' ∷ hi ∷ z ∷ rest) 2 lo {zs = b'\\' ∷ hi ∷ lo ∷ rest}
        (unfold set? in refl) in
    rw (
      e,
      rw add-zero at one,
      hex_values-hex_digit (c / 16) (omega arith),
      two,
      hex_values-hex_digit (c % 16) (omega arith),
      three,
    )

fill_plain :
    (done rest cs : Bytes) (x c : ℕ)
    → must_escape c ≡ false
    → fill (c ∷ cs) (length done) (done ++ (x ∷ rest))
      ≡ fill cs (length (done ++ c ∷ [])) ((done ++ c ∷ []) ++ rest)
unfolding fill
fill_plain done rest cs x c e =
    rw (write_byte_plain done rest x c e, e, append_assoc, length-append)

fill_escaped :
    (done rest cs : Bytes) (x y z c : ℕ)
    → c < 256
    → must_escape c ≡ true
    → fill (c ∷ cs) (length done) (done ++ (x ∷ y ∷ z ∷ rest))
      ≡ fill cs (length (done ++ escape_byte c)) ((done ++ escape_byte c) ++ rest)
unfolding fill escape_byte
fill_escaped done rest cs x y z c small e =
    rw (write_byte_escaped done rest x y z c small e, e, append_assoc, length-append)

split_first : (l : Bytes) → 0 < length l → (x : ℕ) × (r : Bytes) × (l ≡ x ∷ r)
split_first [] h = elim h [ ]
split_first (x ∷ r) h = (x, r, refl)

split_three :
    (l : Bytes) → 3 ≤ length l → (x : ℕ) × (y : ℕ) × (z : ℕ) × (r : Bytes) × (l ≡ x ∷ y ∷ z ∷ r)
split_three (x ∷ y ∷ z ∷ r) h = (x, y, z, r, refl)
split_three (x ∷ y ∷ []) h = absurd (omega arith)
split_three (x ∷ []) h = absurd (omega arith)
split_three [] h = absurd (omega arith)

escape_byte_plain : (c : ℕ) → must_escape c ≡ false → escape_byte c ≡ c ∷ []
unfolding escape_byte
escape_byte_plain c e = rw e

fill-escape_all :
    (cs done pad : Bytes)
    → All (λ c. c < 256) cs
    → length pad ≡ length cs + count_escapes cs * 2
    → fill cs (length done) (done ++ pad) ≡ some (done ++ escape_all cs)
unfolding count_escapes escape_all
fill-escape_all [] done [] small room = unfold fill in refl
fill-escape_all [] done (x ∷ pad) small room = absurd (omega arith)
fill-escape_all (c ∷ cs) done pad small room = elim (Bool-cases (must_escape c)) [
  | inl e ↦
      let (x, y, z, rest, s) = split_three pad (ground arith) in
      ap (λ l. fill (c ∷ cs) (length done) (done ++ l)) s
      ∙ fill_escaped done rest cs x y z c small.0 e
      ∙ fill-escape_all cs (done ++ escape_byte c) rest small.1 (ground (arith, ap length s))
      ∙ rw append_assoc
  | inr e ↦
      let (x, rest, s) = split_first pad (omega arith) in
      ap (λ l. fill (c ∷ cs) (length done) (done ++ l)) s
      ∙ fill_plain done rest cs x c e
      ∙ fill-escape_all cs (done ++ c ∷ []) rest small.1 (ground (arith, ap length s))
      ∙ rw (append_assoc, escape_byte_plain c e)
]

length-zeros : (n : ℕ) → length (zeros n) ≡ n
unfolding zeros
length-zeros zero = refl
length-zeros (suc n) = ap suc (length-zeros n)

escape_all_plain : (s : Bytes) → count_escapes s ≡ 0 → escape_all s ≡ s
unfolding escape_all count_escapes escape_byte
escape_all_plain [] h = refl
escape_all_plain (c ∷ cs) h = ground (arith, escape_all_plain cs)

-- `EscapeFilter` escapes byte by byte: its two passes over one buffer of the exact size write
-- that, and no index is out of range.
pub escape_filter-escape_all :
    (s : Bytes) → All (λ c. c < 256) s → escape_filter s ≡ some (escape_all s)
unfolding escape_filter
escape_filter-escape_all s small = elim (Bool-cases (count_escapes s == 0)) [
  | inl e ↦ rw (e, escape_all_plain s (ground arith))
  | inr e ↦
      rw e (fill-escape_all s [] (zeros (length s + count_escapes s * 2)) small (length-zeros _))
]
