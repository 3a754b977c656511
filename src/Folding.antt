-- ===== src/Folding.antt =====
-- Case-insensitive comparison of the package `strings`. The Unicode tables behind it are no code
-- of the repository: they are a parameter of every definition that compares or lowers text.
use go_adcore.Common.{All, ◌<◌, ◌≡◌, ◌∙◌, false, ◌++◌, ℕ, ◌+◌, Bool, ◌&&◌, map, leb, if◌then◌else◌}
use go_adcore.Bytes.{Bytes, equal}

-- `fold` replaces each rune by the one that stands for its class under simple case folding, and
-- each byte that is no UTF-8 by U+FFFD; two strings are equal under `strings.EqualFold` exactly
-- if they have the same image. `to_lower` is `strings.ToLower`.
pub record CaseFolding : Type 0 where
  pub fold : Bytes → Bytes
  pub to_lower : Bytes → Bytes

-- `strings.EqualFold`
unfoldable pub equal_fold : CaseFolding → Bytes → Bytes → Bool
equal_fold u a b = equal (u.fold a) (u.fold b)

abbrev pub lower_ascii : ℕ → ℕ
lower_ascii c = if leb b'A' c && leb c b'Z' then c + 32 else c

-- The tables cut down to ASCII, on which the tests run.
abbrev pub ascii : CaseFolding
ascii = record { fold = map lower_ascii; to_lower = map lower_ascii }

-- What the two functions do with ASCII text, whatever the tables say of other runes.
pub record KeepsAscii (u : CaseFolding) : Type 0 where
  pub fold_ascii :
      (s t : Bytes)
      → All (λ c. c < 128) s
      → All (λ c. c < 128) t
      → equal_fold u s t ≡ equal (map lower_ascii s) (map lower_ascii t)
  pub lower_append :
      (s t : Bytes) → All (λ c. c < 128) s → u.to_lower (s ++ t) ≡ map lower_ascii s ++ u.to_lower t

-- ASCII names that differ in more than case
pub equal_fold-apart :
    (u : CaseFolding) (k : KeepsAscii u) (a b : Bytes)
    → All (λ c. c < 128) a
    → All (λ c. c < 128) b
    → equal (map lower_ascii a) (map lower_ascii b) ≡ false
    → equal_fold u a b ≡ false
equal_fold-apart u k a b ha hb e = k.fold_ascii a b ha hb ∙ e
