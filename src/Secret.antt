-- ===== src/Secret.antt =====
-- secret.go: a password that only `RevealSecret` reads.
use go_adcore.Common.{ℕ, ◌≡◌, refl, Bool, ◌&&◌, ◌==◌, if◌then◌else◌, is_nil, Result, err}
use go_adcore.Bytes.{Bytes, codes}

-- `type Secret`
pub record Secret : Type 0 where
  pub v : Bytes

unfoldable pub new_secret : Bytes → Secret
new_secret s = record { v = s }

-- `func (Secret) String`, `func (Secret) GoString`
unfoldable pub to_string : Secret → Bytes
to_string s = codes "REDACTED"

unfoldable pub go_string : Secret → Bytes
go_string s = codes "adcore.Secret{REDACTED}"

-- `func (s Secret) Format`: what is written for a verb, with the flag '#' or without
unfoldable pub format : Secret → ℕ → Bool → Bytes
unfolding to_string go_string
format s verb sharp = if verb == b'v' && sharp then go_string s else to_string s

-- `func (Secret) MarshalJSON`; the error is its text
unfoldable pub marshal_json : Secret → Result Bytes Bytes
marshal_json s =
    err (codes "adcore: Secret must not be marshalled; reveal it deliberately with RevealSecret")

-- `func (s Secret) IsZero`
unfoldable pub is_zero : Secret → Bool
is_zero s = is_nil s.v

-- `func RevealSecret`
unfoldable pub reveal_secret : Secret → Bytes
reveal_secret s = s.v

-- Whatever the verb and the flag, and under JSON, no two secrets can be told apart, while
-- `RevealSecret` gives back exactly what was wrapped.
noninterference :
    (p q : Bytes) (verb : ℕ) (sharp : Bool)
    → (format (new_secret p) verb sharp ≡ format (new_secret q) verb sharp)
      × (marshal_json (new_secret p) ≡ marshal_json (new_secret q))
      × (reveal_secret (new_secret p) ≡ p)
unfolding format marshal_json reveal_secret new_secret
noninterference p q verb sharp = (refl, refl, refl)
