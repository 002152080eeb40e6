-- ===== src/Authorization/Attributes.antt =====
-- packages/authorization/domain/value-objects/attribute-context.ts: the attributes of a request, in
-- four bags, and how a dotted path reaches one. A number is an integer, an infinity or NaN; fractions
-- are not represented. A bag has its own keys only, not those that every JavaScript object inherits.
use Prim.Native.Char.{code}
use verixa.Prelude.{
  String, Bool, true, false, [], Option, none, some, ltb, eqb, ◌==◌, if◌then◌else◌,
}
use verixa.Prelude.Dict.{Dict, get}
use verixa.Prelude.Number.{ℤ, pos, negsuc}

pub data Numeric : Type 0 where
  nan : Numeric
  negative_infinity : Numeric
  integer : ℤ → Numeric
  positive_infinity : Numeric

abbrev pub int_eq : ℤ → ℤ → Bool
int_eq (pos a) (pos b) = eqb a b
int_eq (negsuc a) (negsuc b) = eqb a b
int_eq (pos a) (negsuc b) = false
int_eq (negsuc a) (pos b) = false

abbrev pub int_lt : ℤ → ℤ → Bool
int_lt (pos a) (pos b) = ltb a b
int_lt (negsuc a) (negsuc b) = ltb b a
int_lt (pos a) (negsuc b) = false
int_lt (negsuc a) (pos b) = true

-- `===`, by which NaN is not itself.
abbrev pub numeric_eq : Numeric → Numeric → Bool
numeric_eq (integer a) (integer b) = int_eq a b
numeric_eq negative_infinity negative_infinity = true
numeric_eq positive_infinity positive_infinity = true
numeric_eq _ _ = false

-- `SameValueZero`, the test of `Array.prototype.includes`.
abbrev pub numeric_same : Numeric → Numeric → Bool
numeric_same nan nan = true
numeric_same a b = numeric_eq a b

abbrev pub numeric_lt : Numeric → Numeric → Bool
numeric_lt nan _ = false
numeric_lt negative_infinity nan = false
numeric_lt negative_infinity negative_infinity = false
numeric_lt negative_infinity (integer _) = true
numeric_lt negative_infinity positive_infinity = true
numeric_lt (integer a) (integer b) = int_lt a b
numeric_lt (integer a) positive_infinity = true
numeric_lt (integer a) nan = false
numeric_lt (integer a) negative_infinity = false
numeric_lt positive_infinity _ = false

abbrev pub numeric_le : Numeric → Numeric → Bool
numeric_le a b = if numeric_lt a b then true else numeric_eq a b

-- A date is its `getTime()`, none where that is NaN.
mutual
  pub data AttributeValue : Type 0 where
    text : String → AttributeValue
    number : Numeric → AttributeValue
    boolean : Bool → AttributeValue
    date : Option ℤ → AttributeValue
    array : AttributeValues → AttributeValue
    object : AttributeFields → AttributeValue

  pub data AttributeValues : Type 0 where
    no_values : AttributeValues
    value_and : AttributeValue → AttributeValues → AttributeValues

  pub data AttributeFields : Type 0 where
    no_fields : AttributeFields
    field_and : String → AttributeValue → AttributeFields → AttributeFields

abbrev pub AttributeBag : Type 0
AttributeBag = Dict AttributeValue

pub record AttributeContext : Type 0 where
  pub subject : AttributeBag
  pub resource : AttributeBag
  pub action : AttributeBag
  pub environment : AttributeBag

abbrev pub in_front : Prim.Native.Char.Char → Option (String × String) → Option (String × String)
in_front c none = none
in_front c (some (category, key)) = some (String.◌∷◌ c category, key)

-- What stands before and after the first "." of a path.
unfoldable pub split_path : String → Option (String × String)
split_path String.[] = none
split_path (String.◌∷◌ c rest) =
    let split = split_path rest in
    if eqb (code c) 46 then some (String.[], rest) else in_front c split

abbrev pub bag_of : String → AttributeContext → AttributeBag
bag_of category ctx =
    if category == "subject"
    then ctx.subject
    else if category == "resource"
    then ctx.resource
    else if category == "action"
    then ctx.action
    else if category == "environment"
    then ctx.environment
    else []

abbrev pub look_up : AttributeContext → Option (String × String) → Option AttributeValue
look_up ctx none = none
look_up ctx (some (category, key)) = get key (bag_of category ctx)

unfoldable pub resolve : String → AttributeContext → Option AttributeValue
resolve path ctx = look_up ctx (split_path path)
