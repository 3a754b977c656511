-- ===== src/Errors.antt =====
-- errors.go: the kinds of failure, the error value, its text, and the table of Win32 codes. The
-- functions of `errors` and `fmt` that walk and format errors belong to this file's model.
pub mod Codes
pub mod Text
use go_adcore.Common.{
  ℕ, zero, suc, ◌+◌, ◌/◌, ◌%◌, Bool, true, false, not, ◌||◌, [], ◌∷◌, ◌++◌, Option, none, some,
  ◌==◌, ltb, ◌-◌, if◌then◌else◌, is_nil, ℤ, pos, negsuc,
}
use go_adcore.Bytes.{Bytes, codes}
use go_adcore.Identity
use go_adcore.Identity.{Identity}

-- `type Kind`, in the order of the constants
pub data Kind : Type 0 where
  unknown not_found already_exists denied constraint password referral transient : Kind
  transport invalid_attribute schema replication too_many_results unsupported : Kind

-- the value of the constant: `iota`
unfoldable pub kind_index : Kind → ℕ
kind_index unknown = 0
kind_index not_found = 1
kind_index already_exists = 2
kind_index denied = 3
kind_index constraint = 4
kind_index password = 5
kind_index referral = 6
kind_index transient = 7
kind_index transport = 8
kind_index invalid_attribute = 9
kind_index schema = 10
kind_index replication = 11
kind_index too_many_results = 12
kind_index unsupported = 13

-- `==` on kinds
unfoldable pub same_kind : Kind → Kind → Bool
unfolding kind_index
same_kind j k = kind_index j == kind_index k

-- `func (k Kind) String`
unfoldable pub kind_string : Kind → Bytes
kind_string not_found = codes "not found"
kind_string already_exists = codes "already exists"
kind_string denied = codes "access denied"
kind_string constraint = codes "constraint violation"
kind_string password = codes "password rejected"
kind_string referral = codes "referral"
kind_string transient = codes "transient"
kind_string transport = codes "transport failure"
kind_string invalid_attribute = codes "invalid attribute"
kind_string schema = codes "schema error"
kind_string replication = codes "replication wait timed out"
kind_string too_many_results = codes "too many results"
kind_string unsupported = codes "unsupported by this endpoint"
kind_string unknown = codes "unknown"

-- `func (k Kind) Retryable`
unfoldable pub retryable : Kind → Bool
unfolding same_kind
retryable k = same_kind k transient

-- `type Error` without its field `Err`
pub record ErrorInfo : Type 0 where
  pub kind : Kind
  pub op : Bytes
  pub identity : Bytes
  pub exception_type : Bytes
  pub code : ℤ
  pub server_message : Bytes
  pub fqid : Bytes
  pub target : Bytes
  pub tombstoned : Bool

-- A Go `error`: nil, an error of another type with its text and what it unwraps to, an `*Error`
-- with its `Err`, a `kindSentinel`, and an error of another type that wraps several, as `errors.Join` makes
-- it: its text and the first of them, with the others as an error that wraps them.
pub data GoError : Type 0 where
  nil : GoError
  other : Bytes → GoError → GoError
  adcore : ErrorInfo → GoError → GoError
  sentinel : Kind → GoError
  joined : Bytes → GoError → GoError → GoError

-- `func (e *Error) Is`
unfoldable pub error_is : ErrorInfo → GoError → Bool
unfolding same_kind
error_is e (sentinel k) = same_kind k e.kind
error_is e nil = false
error_is e (other text w) = false
error_is e (adcore i w) = false
error_is e (joined text v w) = false

-- `errors.Is(err, target)` for a target that is one of the sentinels
unfoldable pub errors_is : GoError → Kind → Bool
unfolding error_is
errors_is nil k = false
errors_is (other text w) k = errors_is w k
errors_is (adcore i w) k = error_is i (sentinel k) || errors_is w k
errors_is (sentinel j) k = same_kind j k
errors_is (joined text v w) k = errors_is v k || errors_is w k

-- `errors.As(err, &e)` for an `e` of type `*Error`: the first one, depth first
unfoldable pub errors_as : GoError → Option (ErrorInfo × GoError)
errors_as nil = none
errors_as (other text w) = errors_as w
errors_as (adcore i w) = some (i, w)
errors_as (sentinel k) = none
errors_as (joined text v w) =
    let rest = errors_as w in elim (errors_as v) [ none ↦ rest | some e ↦ some e ]

-- the body of `WithIdentity` in spec.go on the error that was found
stamp : ErrorInfo → Bytes → Bytes → ErrorInfo
stamp e op id = record e {
  op = if is_nil e.op then op else e.op;
  identity = if is_nil e.identity then id else e.identity;
}

-- `func WithIdentity` of spec.go
unfoldable pub with_identity : GoError → Bytes → Identity → GoError
unfolding stamp
with_identity err op id = elim (errors_as err) [
  | none ↦ err
  | some (e, w) ↦ adcore (stamp e op (Identity.to_string id)) w
]

-- the search of `strings.LastIndexByte(s, '.')`, with what follows the last dot read so far
unfoldable pub after_last_dot : Bytes → Bytes → Bytes
after_last_dot best [] = best
after_last_dot best (c ∷ cs) = after_last_dot (if c == b'.' then cs else best) cs

-- `func shortTypeName`
unfoldable pub short_type_name : Bytes → Bytes
unfolding after_last_dot
short_type_name full = after_last_dot full full

-- the hexadecimal digits of a number, with fuel: 16 digits are enough for 64 bits
unfoldable pub hex_digits : ℕ → ℕ → Bytes → Bytes
hex_digits zero n acc = acc
hex_digits (suc f) n acc =
    let digit = if ltb (n % 16) 10 then b'0' + n % 16 else b'a' + (n % 16 - 10) in
    let rest = hex_digits f (n / 16) (digit ∷ acc) in if n / 16 == 0 then digit ∷ acc else rest

-- `fmt.Sprintf("%#x", i)`
unfoldable pub hex_string : ℤ → Bytes
unfolding hex_digits
hex_string (pos n) = b'0' ∷ b'x' ∷ hex_digits 16 n []
hex_string (negsuc n) = b'-' ∷ b'0' ∷ b'x' ∷ hex_digits 16 (suc n) []

abbrev is_zero : ℤ → Bool
is_zero (pos zero) = true
is_zero _ = false

-- `func (e *Error) Error`, given the text of `e.Err` where that is not nil
unfoldable pub info_text : ErrorInfo → Option Bytes → Bytes
unfolding kind_string short_type_name hex_string
info_text e cause =
    (if is_nil e.op then [] else e.op ++ codes ": ")
    ++ (kind_string e.kind
        ++ ((if is_nil e.identity then [] else codes " (" ++ (e.identity ++ codes ")"))
            ++ ((if not (is_nil e.server_message)
                  then codes ": " ++ e.server_message
                  else elim cause [ none ↦ [] | some text ↦ codes ": " ++ text ])
                ++ (if is_nil e.exception_type
                    then []
                    else codes " ["
                      ++ (short_type_name e.exception_type
                          ++ ((if is_zero e.code then [] else codes " " ++ hex_string e.code)
                              ++ codes "]"))))))

-- `err.Error()`; none for nil
unfoldable pub error_text : GoError → Option Bytes
unfolding info_text
error_text nil = none
error_text (other text w) = some text
error_text (adcore i w) = some (info_text i (error_text w))
error_text (sentinel k) = some (kind_string k)
error_text (joined text v w) = some text
