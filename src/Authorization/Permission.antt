-- ===== src/Authorization/Permission.antt =====
-- packages/authorization/domain/value-objects/permission.ts and
-- domain/services/permission-matcher.ts: `resource:action` identifiers with wildcards. An identifier
-- is a list of code points.
pub mod Shape
pub mod RoundTrip
pub mod Matching
mod Tests
use Prim.Native.Char.{Char}
use verixa.Prelude.{
  ℕ, ◌+◌, ◌-◌, Bool, true, false, ◌&&◌, ◌||◌, List, [], ◌∷◌, ◌++◌, map, ltb, leb, eqb,
  if◌then◌else◌,
}
use verixa.Prelude.Text.{Text, text_eq}
use verixa.Prelude.Blank.{is_white}
use verixa.Kernel.Result.{Result, ok, err, is_ok}

-- `String.prototype.trim`
unfoldable pub trim_start : Text → Text
trim_start [] = []
trim_start (c ∷ s) = let rest = trim_start s in if is_white c then rest else c ∷ s

unfoldable pub trim_end : Text → Text
trim_end [] = []
trim_end (c ∷ s) =
    let rest = trim_end s in
    elim rest [ [] ↦ if is_white c then [] else c ∷ [] | d ∷ t ↦ c ∷ d ∷ t ]

abbrev pub trim : Text → Text
trim s = trim_end (trim_start s)

-- `toLowerCase` at one code point. The letters that are not ASCII and whose lower case is not either
-- stay as they are; the Kelvin sign, code point 8490, has the lower case `k`.
unfoldable pub lower : ℕ → ℕ
lower c = if leb 65 c && leb c 90 then c + 32 else if eqb c 8490 then 107 else c

abbrev pub colon : ℕ
colon = 58

abbrev pub wildcard : Text
wildcard = 42 ∷ []

abbrev pub to_head : ℕ → List Text → List Text
to_head c [] = (c ∷ []) ∷ []
to_head c (part ∷ parts) = (c ∷ part) ∷ parts

-- `String.prototype.split` at one character.
unfoldable pub split : ℕ → Text → List Text
split at [] = [] ∷ []
split at (c ∷ s) = let parts = split at s in if eqb c at then [] ∷ parts else to_head c parts

-- The class `[a-z0-9_*-]` of `PERMISSION_PATTERN`.
unfoldable pub is_permission_char : ℕ → Bool
is_permission_char c =
    leb 97 c && leb c 122 || (leb 48 c && leb c 57) || eqb c 95 || eqb c 42 || eqb c 45

unfoldable pub all_permission_chars : Text → Bool
all_permission_chars [] = true
all_permission_chars (c ∷ s) = is_permission_char c && all_permission_chars s

abbrev pub is_empty : Text → Bool
is_empty [] = true
is_empty (_ ∷ _) = false

pub record Permission : Type 0 where
  pub value : Text
  pub resource : Text
  pub action : Text

pub data PermissionError : Type 0 where
  required : PermissionError
  invalid_format : PermissionError
  empty_resource : PermissionError
  empty_action : PermissionError
  invalid_characters : PermissionError

abbrev pub from_parts : Text → List Text → Result Permission PermissionError
from_parts normalized (resource ∷ action ∷ []) =
    if is_empty (trim resource)
    then err empty_resource
    else if is_empty (trim action)
    then err empty_action
    else if all_permission_chars resource && all_permission_chars action
    then ok (record { value = normalized; resource = resource; action = action })
    else err invalid_characters
from_parts normalized [] = err invalid_format
from_parts normalized (_ ∷ []) = err invalid_format
from_parts normalized (_ ∷ _ ∷ _ ∷ _) = err invalid_format

abbrev pub normalize : Text → Text
normalize raw = map lower (trim raw)

abbrev pub from_normalized : Text → Result Permission PermissionError
from_normalized [] = err required
from_normalized (c ∷ s) = from_parts (c ∷ s) (split colon (c ∷ s))

unfoldable pub create : Text → Result Permission PermissionError
create raw = from_normalized (normalize raw)

abbrev pub equals : Permission → Permission → Bool
equals a b = text_eq a.value b.value

unfoldable pub matches : Permission → Permission → Bool
matches granted needed =
    if text_eq granted.value needed.value
    then true
    else if text_eq granted.resource wildcard && text_eq granted.action wildcard
    then true
    else if text_eq granted.resource needed.resource && text_eq granted.action wildcard
    then true
    else if text_eq granted.resource wildcard && text_eq granted.action needed.action
    then true
    else false

-- `PermissionMatcher.matches` of two strings.
unfoldable pub matches_text : Text → Text → Bool
matches_text granted needed = elim (create granted) [
  | ok g ↦ elim (create needed) [ ok n ↦ matches g n | err e ↦ false ]
  | err e ↦ false
]

-- `PermissionMatcher.isGlobalWildcard`
unfoldable pub is_global_wildcard : Permission → Bool
is_global_wildcard p = text_eq p.resource wildcard && text_eq p.action wildcard

-- `PermissionMatcher.isGlobalWildcard` of a stored text.
abbrev pub read_global : Result Permission PermissionError → Bool
read_global (ok p) = is_global_wildcard p
read_global (err e) = false

abbrev pub is_global_text : Text → Bool
is_global_text v = read_global (create v)

-- A stored text that `Permission.from` accepts.
abbrev pub is_readable : Text → Bool
is_readable v = is_ok (create v)
