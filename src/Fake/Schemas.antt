-- ===== src/Fake/Schemas.antt =====
-- adcorefake/schema.go: names resolved to GUIDs. The map from references is an association list.
use go_adcore.Common.{
  ℕ, ◌+◌, Bool, true, false, not, ◌&&◌, ◌||◌, List, [], ◌∷◌, Option, none, some, ◌==◌, length,
  if◌then◌else◌, Result, ok, err,
}
use go_adcore.Acl.{SchemaRef}
use go_adcore.Bytes.{Bytes, codes, equal}
use go_adcore.Errors.{not_found, GoError, other, nil}
use go_adcore.Spec.{new_error}
use go_adcore.Dn.Parse.{is_hex_digit}
use go_adcore.Maps.{lookup}

-- `wellKnownGUIDs`
unfoldable pub well_known_guids : List (Bytes × Bytes)
well_known_guids =
    (codes "user", codes "bf967aba-0de6-11d0-a285-00aa003049e2")
    ∷ (codes "group", codes "bf967a9c-0de6-11d0-a285-00aa003049e2")
    ∷ (codes "computer", codes "bf967a86-0de6-11d0-a285-00aa003049e2")
    ∷ (codes "member", codes "bf9679c0-0de6-11d0-a285-00aa003049e2")
    ∷ (codes "pwdLastSet", codes "bf967a0a-0de6-11d0-a285-00aa003049e2")
    ∷ (codes "Reset Password", codes "00299570-246d-11d0-a768-00aa006e0529")
    ∷ []

-- the loop of `isGUIDString`, from position `i` on; a rune above 0x7f fails it as its first byte does
unfoldable pub guid_from : ℕ → Bytes → Bool
unfolding is_hex_digit
guid_from i [] = true
guid_from i (r ∷ s) =
    (if i == 8 || i == 13 || i == 18 || i == 23 then r == b'-' else is_hex_digit r)
    && guid_from (i + 1) s

-- `func isGUIDString`
unfoldable pub is_guid_string : Bytes → Bool
unfolding guid_from
is_guid_string s = if not (length s == 36) then false else guid_from 0 s

-- `==` on references
abbrev pub same_ref : SchemaRef → SchemaRef → Bool
same_ref a b = equal a.kind b.kind && equal a.name b.name

unfoldable pub lookup_ref : List (SchemaRef × Bytes) → SchemaRef → Option Bytes
lookup_ref [] ref = none
lookup_ref ((r, guid) ∷ out) ref = if same_ref r ref then some guid else lookup_ref out ref

-- the error of an unresolvable name
abbrev pub unknown_name : GoError
unknown_name =
    new_error not_found (codes "Schema.Resolve")
      (other (codes "no %s named %q exists in the schema") nil)

-- the GUID of one reference, where it has one
unfoldable pub guid_of_ref : SchemaRef → Option Bytes
unfolding is_guid_string well_known_guids
guid_of_ref ref =
    if is_guid_string ref.name then some ref.name else lookup well_known_guids ref.name

-- the loop of `Resolve`
unfoldable pub resolve_refs :
    List (SchemaRef × Bytes) → List SchemaRef → Result GoError (List (SchemaRef × Bytes))
resolve_refs out [] = ok out
resolve_refs out (ref ∷ refs) = elim (lookup_ref out ref) [
  | some guid ↦ resolve_refs out refs
  | none ↦ elim (guid_of_ref ref) [
    | none ↦ err unknown_name
    | some guid ↦ resolve_refs ((ref, guid) ∷ out) refs
  ]
]

-- `func (f *fakeSchema) Resolve`
unfoldable pub resolve : List SchemaRef → Result GoError (List (SchemaRef × Bytes))
unfolding resolve_refs
resolve = resolve_refs []
