-- ===== src/Bytes/Trim.antt =====
-- `strings.TrimSpace`, over the UTF-8 bytes of the runes for which `unicode.IsSpace` holds:
-- \t \n \v \f \r and space, U+0085, U+00A0, U+1680, U+2000 to U+200A, U+2028, U+2029, U+202F,
-- U+205F and U+3000.
use mathlib.Core.List.{reverse, reverse-append, reverse-reverse}
use go_adcore.Common.{
  ℕ, zero, suc, ◌≡◌, ◌≢◌, refl, sym, ap, ◌∙◌, Bool, true, ◌&&◌, ◌||◌, List, [], ◌∷◌, ◌++◌, arith,
  ◌==◌, leb, if◌then◌else◌, All, All-append, All-append_left, All-append_right, Bool-cases, ◌⊎◌,
  inl, inr,
}

pub is_space_1 : ℕ → Bool
is_space_1 a = leb 9 a && leb a 13 || a == 32

is_space_2 : ℕ → ℕ → Bool
is_space_2 a b = a == 0xc2 && (b == 0x85 || b == 0xa0)

is_space_3 : ℕ → ℕ → ℕ → Bool
is_space_3 a b c =
    a == 0xe1 && b == 0x9a && c == 0x80
    || a == 0xe2 && b == 0x80 && (leb 0x80 c && leb c 0x8a || c == 0xa8 || c == 0xa9 || c == 0xaf)
    || a == 0xe2 && b == 0x81 && c == 0x9f
    || a == 0xe3 && b == 0x80 && c == 0x80

-- Reading from one end: which two and which three bytes are a white space rune.
module _ (two : ℕ → ℕ → Bool) (three : ℕ → ℕ → ℕ → Bool) where
  -- The number of bytes of a white space rune at this end, or 0.
  space_prefix : List ℕ → ℕ
  space_prefix [] = 0
  space_prefix (a ∷ []) = if is_space_1 a then 1 else 0
  space_prefix (a ∷ b ∷ []) = if is_space_1 a then 1 else if two a b then 2 else 0
  space_prefix (a ∷ b ∷ c ∷ _) =
      if is_space_1 a then 1 else if two a b then 2 else if three a b c then 3 else 0

  -- Drops white space runes; the number counts the bytes of the rune that is being dropped.
  skip_space : ℕ → List ℕ → List ℕ
  skip_space k [] = []
  skip_space (suc k) (c ∷ cs) = skip_space k cs
  skip_space zero (c ∷ cs) = elim (space_prefix (c ∷ cs)) [
    | zero ↦ c ∷ cs
    | suc k ↦ skip_space k cs
  ]

  space_prefix-append :
      (xs ys : List ℕ) → xs ≢ [] → space_prefix (xs ++ ys) ≡ 0 → space_prefix xs ≡ 0
  unfolding space_prefix
  space_prefix-append [] ys ne h = refl
  space_prefix-append (a ∷ []) [] ne h = h
  space_prefix-append (a ∷ []) (b ∷ []) ne h = ground arith
  space_prefix-append (a ∷ []) (b ∷ c ∷ ys) ne h = ground arith
  space_prefix-append (a ∷ b ∷ []) [] ne h = h
  space_prefix-append (a ∷ b ∷ []) (c ∷ ys) ne h = ground arith
  space_prefix-append (a ∷ b ∷ c ∷ xs) ys ne h = h

  skip_space-cases :
      (c : ℕ) (cs : List ℕ)
      → ((space_prefix (c ∷ cs) ≡ 0) × (skip_space 0 (c ∷ cs) ≡ c ∷ cs))
        ⊎ ((k : ℕ) × (skip_space 0 (c ∷ cs) ≡ skip_space k cs))
  unfolding skip_space
  skip_space-cases c cs =
      (elim (space_prefix (c ∷ cs))
          as (λ n.
            space_prefix (c ∷ cs) ≡ n
            → ((n ≡ 0) × (elim n [ zero ↦ c ∷ cs | suc k ↦ skip_space k cs ] ≡ c ∷ cs))
              ⊎ ((j : ℕ) × (elim n [ zero ↦ c ∷ cs | suc k ↦ skip_space k cs ]
                    ≡ skip_space j cs))) [
                      | zero ↦ λ e. inl (refl, refl)
                      | suc k ↦ λ e. inr (k, refl)
                    ])
        refl

  skip_space-suc : (k c : ℕ) (cs : List ℕ) → skip_space (suc k) (c ∷ cs) ≡ skip_space k cs
  unfolding skip_space
  skip_space-suc k c cs = refl

  space_prefix-skip_space : (k : ℕ) (xs : List ℕ) → space_prefix (skip_space k xs) ≡ 0
  space_prefix-skip_space k [] = unfold skip_space space_prefix in refl
  space_prefix-skip_space (suc k) (c ∷ cs) = rw skip_space-suc (space_prefix-skip_space k cs)
  space_prefix-skip_space zero (c ∷ cs) = elim (skip_space-cases c cs) [
    | inl (none_here, e) ↦ rw e none_here
    | inr (k, e) ↦ rw e (space_prefix-skip_space k cs)
  ]

  skip_space-eq_self : (xs : List ℕ) → space_prefix xs ≡ 0 → skip_space 0 xs ≡ xs
  skip_space-eq_self [] h = unfold skip_space in refl
  skip_space-eq_self (c ∷ cs) h = unfold skip_space in rw (h, skip_space)

  -- What is left is an end piece of what was there.
  skip_space-suffix : (k : ℕ) (xs : List ℕ) → (d : List ℕ) × (xs ≡ d ++ skip_space k xs)
  skip_space-suffix k [] = ([], unfold skip_space in refl)
  skip_space-suffix (suc k) (c ∷ cs) =
      let (d, e) = skip_space-suffix k cs in (c ∷ d, rw skip_space-suc (ap (◌∷◌ c) e))
  skip_space-suffix zero (c ∷ cs) = elim (skip_space-cases c cs) [
    | inl (none_here, e) ↦ ([], sym e)
    | inr (k, e) ↦ let (d, f) = skip_space-suffix k cs in (c ∷ d, rw e (ap (◌∷◌ c) f))
  ]

  skip_space-2 :
      (a b : ℕ)
      → skip_space 0 (a ∷ b ∷ [])
        ≡ (if is_space_1 a then skip_space 0 (b ∷ []) else if two a b then [] else a ∷ b ∷ [])
  unfolding skip_space space_prefix
  skip_space-2 a b = ground arith

  skip_space-3 :
      (a b c : ℕ) (cs : List ℕ)
      → skip_space 0 (a ∷ b ∷ c ∷ cs) ≡ (
          if is_space_1 a
          then skip_space 0 (b ∷ c ∷ cs)
          else if two a b
          then skip_space 0 (c ∷ cs)
          else if three a b c
          then skip_space 0 cs
          else a ∷ b ∷ c ∷ cs)
  unfolding skip_space space_prefix
  skip_space-3 a b c cs = ground arith

  -- Only white space is dropped: where no rune has a byte `q`, a `q` is never dropped.
  All-skip_space :
      (q : ℕ)
      → ((a : ℕ) → is_space_1 a ≡ true → a ≢ q)
      → ((a b : ℕ) → two a b ≡ true → (a ≢ q) × (b ≢ q))
      → ((a b c : ℕ) → three a b c ≡ true → (a ≢ q) × (b ≢ q) × (c ≢ q))
      → (xs : List ℕ) → All (λ a. a ≢ q) (skip_space 0 xs)
      → All (λ a. a ≢ q) xs
  unfolding skip_space space_prefix
  All-skip_space q p1 p2 p3 [] h = tt
  All-skip_space q p1 p2 p3 (a ∷ []) h = elim (Bool-cases (is_space_1 a)) [
    | inl e ↦ (p1 a e, tt)
    | inr e ↦ rw (e, skip_space) at h
  ]
  All-skip_space q p1 p2 p3 (a ∷ b ∷ []) h =
      let h' = rw (skip_space-2 a b) at h in
      elim (Bool-cases (is_space_1 a)) [
        | inl e ↦ (p1 a e, All-skip_space q p1 p2 p3 (b ∷ []) (rw e at h'))
        | inr e ↦ elim (Bool-cases (two a b)) [
          | inl e2 ↦ let (na, nb) = p2 a b e2 in (na, (nb, tt))
          | inr e2 ↦ rw (e, e2) at h'
        ]
      ]
  All-skip_space q p1 p2 p3 (a ∷ b ∷ c ∷ cs) h =
      let h' = rw (skip_space-3 a b c cs) at h in
      elim (Bool-cases (is_space_1 a)) [
        | inl e ↦ (p1 a e, All-skip_space q p1 p2 p3 (b ∷ c ∷ cs) (rw e at h'))
        | inr e ↦ elim (Bool-cases (two a b)) [
          | inl e2 ↦
              let (na, nb) = p2 a b e2 in
              (na, (nb, All-skip_space q p1 p2 p3 (c ∷ cs) (rw (e, e2) at h')))
          | inr e2 ↦ elim (Bool-cases (three a b c)) [
            | inl e3 ↦
                let (na, nb, nc) = p3 a b c e3 in
                (na, (nb, (nc, All-skip_space q p1 p2 p3 cs (rw (e, e2, e3) at h'))))
            | inr e3 ↦ rw (e, e2, e3) at h'
          ]
        ]
      ]

trim_left : List ℕ → List ℕ
trim_left = skip_space is_space_2 is_space_3 0

-- The end of the string, read backwards.
trim_right : List ℕ → List ℕ
trim_right xs =
    reverse (skip_space (λ a b. is_space_2 b a) (λ a b c. is_space_3 c b a) 0 (reverse xs))

unfoldable pub trim_space : List ℕ → List ℕ
unfolding trim_left trim_right skip_space space_prefix is_space_1 is_space_2 is_space_3
trim_space xs = trim_right (trim_left xs)

abbrev pub IsTrimmed : List ℕ → Type 0
IsTrimmed xs = trim_space xs ≡ xs

abbrev left_prefix : List ℕ → ℕ
left_prefix = space_prefix is_space_2 is_space_3

abbrev right_2 : ℕ → ℕ → Bool
right_2 a b = is_space_2 b a

abbrev right_3 : ℕ → ℕ → ℕ → Bool
right_3 a b c = is_space_3 c b a

trim_right-prefix : (xs : List ℕ) → (d : List ℕ) × (xs ≡ trim_right xs ++ d)
unfolding trim_right
trim_right-prefix xs =
    let (d, e) = skip_space-suffix right_2 right_3 0 (reverse xs) in
    (reverse d, sym (reverse-reverse xs) ∙ ap reverse e ∙ reverse-append d _)

trim_right_idem : (xs : List ℕ) → trim_right (trim_right xs) ≡ trim_right xs
unfolding trim_right
trim_right_idem xs = rw reverse-reverse (
    ap reverse (
      skip_space-eq_self right_2 right_3 _
        (space_prefix-skip_space right_2 right_3 0 (reverse xs))))

trim_left-trim_right : (y z d : List ℕ) → y ≡ z ++ d → left_prefix y ≡ 0 → trim_left z ≡ z
unfolding trim_left
trim_left-trim_right y [] d e h = unfold skip_space in refl
trim_left-trim_right y (c ∷ z) d e h =
    skip_space-eq_self is_space_2 is_space_3 (c ∷ z)
      (space_prefix-append is_space_2 is_space_3 (c ∷ z) d (λ k. cc) (ap left_prefix (sym e) ∙ h))

pub trim_space-IsTrimmed : (xs : List ℕ) → IsTrimmed (trim_space xs)
unfolding trim_space
trim_space-IsTrimmed xs =
    let y = trim_left xs in
    let (d, e) = trim_right-prefix y in
    let h =
      trim_left-trim_right y (trim_right y) d e
        (unfold trim_left in space_prefix-skip_space is_space_2 is_space_3 0 xs) in
    ap trim_right h ∙ trim_right_idem y

module _ (P : ℕ → Type 0) where
  pub All-trim_space : (xs : List ℕ) → All P xs → All P (trim_space xs)
  unfolding trim_space trim_left
  All-trim_space xs h =
      let (d, e) = skip_space-suffix is_space_2 is_space_3 0 xs in
      let left = All-append_right P d _ (rw e at h) in
      let (r, f) = trim_right-prefix (trim_left xs) in All-append_left P _ r (rw f at left)

  All-reverse : (xs : List ℕ) → All P xs → All P (reverse xs)
  All-reverse [] h = h
  All-reverse (x ∷ xs) h =
      rw (reverse-append (x ∷ []) xs)
        (All-append P (reverse xs) (x ∷ []) (All-reverse xs h.1) (h.0, tt))

not_space_1 : (a : ℕ) → is_space_1 a ≡ true → a ≢ b'='
unfolding is_space_1
not_space_1 a h = ground arith

not_space_2 : (a b : ℕ) → is_space_2 a b ≡ true → (a ≢ b'=') × (b ≢ b'=')
unfolding is_space_2
not_space_2 a b h = (ground arith, ground arith)

not_space_3 : (a b c : ℕ) → is_space_3 a b c ≡ true → (a ≢ b'=') × (b ≢ b'=') × (c ≢ b'=')
unfolding is_space_3
not_space_3 a b c h = (ground arith, ground arith, ground arith)

-- A string that is all white space holds no '='.
pub All-blank : (xs : List ℕ) → trim_space xs ≡ [] → All (λ a. a ≢ b'=') xs
unfolding trim_space trim_left trim_right
All-blank xs h =
    let y = trim_left xs in
    let gone = skip_space right_2 right_3 0 (reverse y) in
    let e : gone ≡ [] = sym (reverse-reverse gone) ∙ ap reverse h in
    let back =
      All-skip_space right_2 right_3 b'=' not_space_1
        (λ a b k. let (u, v) = not_space_2 b a k in (v, u))
        (λ a b c k. let (u, v, w) = not_space_3 c b a k in (w, v, u)) (reverse y) (rw e tt) in
    let here = rw reverse-reverse at (All-reverse (λ a. a ≢ b'=') (reverse y) back) in
    All-skip_space is_space_2 is_space_3 b'=' not_space_1 not_space_2 not_space_3 xs here
