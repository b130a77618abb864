-- ===== src/Schema/Validator.antt =====
-- internal/schema/validator.go
pub mod Conforms
pub mod Defaults
use network_digital_twin_pla.Prelude.{
  String, Bool, true, false, not, ◌||◌, ◌&&◌, List, [], ◌∷◌, ◌++◌, Option, none, some, ◌==◌,
  contains, if◌then◌else◌,
}
use network_digital_twin_pla.Prelude.Dict.{Dict, lookup, insert}
use network_digital_twin_pla.Value.{Value, Props, null, str, int, float32, float64, bool}
use network_digital_twin_pla.Schema.Types.{EntityType, PropertySpec}

-- The errors that `validateProps` joins.
pub data FieldError : Type 0 where
  missing_required : String → FieldError
  wrong_type : String → String → FieldError
  not_in_enum : String → FieldError
  empty_stable_key : String → FieldError

unfoldable pub is_empty : Value → Bool
is_empty null = true
is_empty (str s) = s == ""
is_empty _ = false

abbrev is_str : Value → Bool
is_str (str s) = true
is_str _ = false

-- The types of the `int` case of `checkType`.
abbrev is_int : Value → Bool
is_int (int k n) = true
is_int (float64 x) = true
is_int _ = false

abbrev is_float : Value → Bool
is_float (int k n) = true
is_float (float32 x) = true
is_float (float64 x) = true
is_float _ = false

abbrev is_bool : Value → Bool
is_bool (bool b) = true
is_bool _ = false

-- `checkType`: true if it returns nil. An unknown type is not checked.
unfoldable pub check_type : Value → String → Bool
check_type val expected =
    if expected == "string"
    then is_str val
    else if expected == "int"
    then is_int val
    else if expected == "float"
    then is_float val
    else if expected == "bool"
    then is_bool val
    else true

abbrev present : Option Value → Bool
present none = false
present (some v) = not (is_empty v)

abbrev type_ok : Option Value → String → Bool
type_ok none expected = true
type_ok (some v) expected = check_type v expected

abbrev in_enum : List String → Option Value → Bool
in_enum [] v = true
in_enum (e ∷ es) none = true
in_enum (e ∷ es) (some (str s)) = contains (e ∷ es) s
in_enum (e ∷ es) (some v) = false

module _ (props : Props) where
  -- Stage 1.
  check_required : Dict PropertySpec → List FieldError
  check_required [] = []
  check_required ((name, spec) ∷ rest) =
      let more = check_required rest in
      if not spec.required || present (lookup name props)
      then more
      else missing_required name ∷ more

  -- Stage 2.
  check_types : Dict PropertySpec → List FieldError
  check_types [] = []
  check_types ((name, spec) ∷ rest) =
      let more = check_types rest in
      if type_ok (lookup name props) spec.type then more else wrong_type name spec.type ∷ more

  -- Stage 3.
  check_enums : Dict PropertySpec → List FieldError
  check_enums [] = []
  check_enums ((name, spec) ∷ rest) =
      let more = check_enums rest in
      if in_enum spec.enum (lookup name props) then more else not_in_enum name ∷ more

  -- Stage 4.
  check_stable_keys : List String → List FieldError
  check_stable_keys [] = []
  check_stable_keys (key ∷ rest) =
      let more = check_stable_keys rest in
      if present (lookup key props) then more else empty_stable_key key ∷ more

-- `validateProps`: the errors, none of them if it returns nil.
unfoldable pub validate_props : EntityType → Props → List FieldError
unfolding check_required check_types check_enums check_stable_keys is_empty check_type
validate_props et props =
    check_required props et.spec.properties
    ++ (check_types props et.spec.properties
        ++ (check_enums props et.spec.properties
            ++ check_stable_keys props et.spec.identity.stable_keys))

abbrev has_default : Value → Bool
has_default null = false
has_default _ = true

add_defaults : Dict PropertySpec → Props → Props
add_defaults [] result = result
add_defaults ((name, spec) ∷ rest) result = add_defaults rest (elim (lookup name result) [
  | some v ↦ result
  | none ↦ if has_default spec.default then insert name spec.default result else result
])

-- `applyDefaults`. The copy that it makes of `props` is the same map.
unfoldable pub apply_defaults : EntityType → Props → Props
unfolding add_defaults
apply_defaults et props = add_defaults et.spec.properties props
