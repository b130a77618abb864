-- ===== src/Schema/Validator/Conforms.antt =====
-- `validateProps` finds no error exactly in the maps that conform to the type.
use network_digital_twin_pla.Prelude.{
  ℕ, ◌≡◌, ◌≢◌, refl, ◌⊎◌, inl, inr, ◌↔◌, String, Bool, true, false, not, ◌||◌, List, [], ◌∷◌, ◌++◌,
  Option, none, some, arith, All, contains, String-discrete, Bool-cases,
}
use network_digital_twin_pla.Prelude.Dict.{Dict, lookup}
use network_digital_twin_pla.Value.{
  Value, Props, null, str, int, float32, float64, bool, ℤ, IntKind,
}
use network_digital_twin_pla.Schema.Types.{EntityType, PropertySpec}
use network_digital_twin_pla.Schema.Validator.{
  is_empty, check_type, check_required, check_types, check_enums, check_stable_keys, validate_props,
  present, type_ok, in_enum,
}

-- The types of Go that a declared type accepts. A type that is none of the four accepts all.
pub data HasType (t : String) : Value → Type 0 where
  as_string : {s : String} → t ≡ "string" → HasType t (str s)
  as_int : {k : IntKind} {n : ℤ} → (t ≡ "int") ⊎ (t ≡ "float") → HasType t (int k n)
  as_float64 : {x : ℕ} → (t ≡ "int") ⊎ (t ≡ "float") → HasType t (float64 x)
  as_float32 : {x : ℕ} → t ≡ "float" → HasType t (float32 x)
  as_bool : {b : Bool} → t ≡ "bool" → HasType t (bool b)
  unknown : {v : Value} → t ≢ "string" → t ≢ "int" → t ≢ "float" → t ≢ "bool" → HasType t v

-- There is a value, and it is neither nil nor the empty string.
abbrev pub IsGiven : Option Value → Type 0
IsGiven o = (v : Value) × (o ≡ some v) × (v ≢ null) × (v ≢ str "")

module _ (props : Props) where
  pub record FieldConforms (name : String) (spec : PropertySpec) : Type 0 where
    pub required : spec.required ≡ true → IsGiven (lookup name props)
    pub typed : (v : Value) → lookup name props ≡ some v → HasType spec.type v
    pub allowed :
        (v : Value)
        → lookup name props ≡ some v
        → spec.enum ≢ []
        → (s : String) × (v ≡ str s) × (contains spec.enum s ≡ true)

  pub record Conforms (et : EntityType) : Type 0 where
    pub fields : All (λ entry. FieldConforms entry.0 entry.1) et.spec.properties
    pub stable_keys : All (λ key. IsGiven (lookup key props)) et.spec.identity.stable_keys

given_of : (v : Value) → not (is_empty v) ≡ true → (v ≢ null) × (v ≢ str "")
unfolding is_empty
given_of null h = cc
given_of (str s) h = (λ e. cc, λ e. let e' : s ≡ "" = cc in ground arith)
given_of _ h = (λ e. cc, λ e. cc)

not_empty_of : (v : Value) → v ≢ null → v ≢ str "" → not (is_empty v) ≡ true
unfolding is_empty
not_empty_of null n e = absurd (n refl)
not_empty_of (str s) n e = ground arith
not_empty_of _ n e = refl

present_of : (o : Option Value) → IsGiven o → present o ≡ true
present_of none (v, e, n, z) = cc
present_of (some w) (v, e, n, z) = let same : w ≡ v = cc in rw same (not_empty_of v n z)

IsGiven-of : (o : Option Value) → present o ≡ true → IsGiven o
IsGiven-of none h = cc
IsGiven-of (some v) h = let (n, z) = given_of v h in (v, refl, n, z)

IsGiven-present : (o : Option Value) → present o ≡ false → ¬ IsGiven o
IsGiven-present o h g = cc (present_of o g)

HasType-of : (v : Value) (t : String) → check_type v t ≡ true → HasType t v
unfolding check_type
HasType-of (str s) t h = grind (arith, as_string, unknown)
HasType-of (int k n) t h = grind (arith, as_int, unknown)
HasType-of (float32 x) t h = grind (arith, as_float32, unknown)
HasType-of (float64 x) t h = grind (arith, as_float64, unknown)
HasType-of (bool b) t h = grind (arith, as_bool, unknown)
HasType-of _ t h = grind (arith, unknown)

unchecked :
    (v : Value) (t : String)
    → t ≢ "string"
    → t ≢ "int"
    → t ≢ "float"
    → t ≢ "bool"
    → check_type v t ≡ true
unfolding check_type
unchecked v t a b c d = ground arith

check_type_of : (t : String) {v : Value} → HasType t v → check_type v t ≡ true
unfolding check_type String-discrete
check_type_of t (as_string e) = rw e refl
check_type_of t (as_int (inl e)) = rw e refl
check_type_of t (as_int (inr e)) = rw e refl
check_type_of t (as_float64 (inl e)) = rw e refl
check_type_of t (as_float64 (inr e)) = rw e refl
check_type_of t (as_float32 e) = rw e refl
check_type_of t (as_bool e) = rw e refl
check_type_of t {v} (unknown a b c d) = unchecked v t a b c d

typed_of :
    (o : Option Value) (t : String) → type_ok o t ≡ true → (v : Value) → o ≡ some v → HasType t v
typed_of none t h v e = cc
typed_of (some w) t h v e = let same : w ≡ v = cc in HasType-of v t (rw (← same) h)

type_ok_of :
    (o : Option Value) (t : String) → ((v : Value) → o ≡ some v → HasType t v) → type_ok o t ≡ true
type_ok_of none t h = refl
type_ok_of (some w) t h = check_type_of t (h w refl)

allowed_of :
    (o : Option Value) (enum : List String)
    → in_enum enum o ≡ true
    → (v : Value) → o ≡ some v
    → enum ≢ []
    → (s : String) × (v ≡ str s) × (contains enum s ≡ true)
allowed_of o [] h v e n = absurd (n refl)
allowed_of none (x ∷ xs) h v e n = cc
allowed_of (some (str s)) (x ∷ xs) h v e n = (s, cc, h)
allowed_of (some _) (x ∷ xs) h v e n = cc

in_enum_of :
    (o : Option Value) (enum : List String)
    → ((v : Value) → o ≡ some v → enum ≢ [] → (s : String) × (v ≡ str s) × (contains enum s ≡ true))
    → in_enum enum o ≡ true
in_enum_of o [] h = refl
in_enum_of none (x ∷ xs) h = refl
in_enum_of (some (str s)) (x ∷ xs) h =
    let (s', e, c) = h (str s) refl (λ e. cc) in let same : s' ≡ s = cc in rw same at c
in_enum_of (some null) (x ∷ xs) h = let (s, e, c) = h null refl (λ e. cc) in cc
in_enum_of (some v) (x ∷ xs) h = let (s, e, c) = h v refl (λ e. cc) in cc

module _ (props : Props) where
  fields_of :
      (specs : Dict PropertySpec)
      → check_required props specs ≡ []
      → check_types props specs ≡ []
      → check_enums props specs ≡ []
      → All (λ entry. FieldConforms props entry.0 entry.1) specs
  unfolding check_required check_types check_enums
  fields_of [] r t e = tt
  fields_of ((name, spec) ∷ specs) r t e = (
    record {
      required = λ q. IsGiven-of (lookup name props) (ground arith);
      typed = typed_of (lookup name props) spec.type (ground arith);
      allowed = allowed_of (lookup name props) spec.enum (ground arith);
    },
    fields_of specs (ground arith) (ground arith) (ground arith),
  )

  no_errors_of :
      (specs : Dict PropertySpec)
      → All (λ entry. FieldConforms props entry.0 entry.1) specs
      → (check_required props specs ≡ [])
        × (check_types props specs ≡ [])
        × (check_enums props specs ≡ [])
  unfolding check_required check_types check_enums
  no_errors_of [] a = (refl, refl, refl)
  no_errors_of ((name, spec) ∷ specs) (f, rest) =
      let (r, t, e) = no_errors_of specs rest in
      let given : (not spec.required || present (lookup name props)) ≡ true =
        elim (Bool-cases spec.required) [
          | inl need ↦ rw need (present_of (lookup name props) (f.required need))
          | inr free ↦ rw free refl
        ] in
      let typed = type_ok_of (lookup name props) spec.type f.typed in
      let allowed = in_enum_of (lookup name props) spec.enum f.allowed in
      (rw (given, r), rw (typed, t), rw (allowed, e))

  stable_keys_of :
      (ks : List String)
      → check_stable_keys props ks ≡ []
      → All (λ key. IsGiven (lookup key props)) ks
  unfolding check_stable_keys
  stable_keys_of [] h = tt
  stable_keys_of (k ∷ ks) h =
      (IsGiven-of (lookup k props) (ground arith), stable_keys_of ks (ground arith))

  no_key_errors_of :
      (ks : List String)
      → All (λ key. IsGiven (lookup key props)) ks
      → check_stable_keys props ks ≡ []
  unfolding check_stable_keys
  no_key_errors_of [] a = refl
  no_key_errors_of (k ∷ ks) (g, rest) = rw (present_of (lookup k props) g, no_key_errors_of ks rest)

append_nil_parts {ℓ} : {A : Type ℓ} (xs ys : List A) → xs ++ ys ≡ [] → (xs ≡ []) × (ys ≡ [])
append_nil_parts [] ys h = (refl, h)
append_nil_parts (x ∷ xs) ys h = cc

-- `validateProps` returns nil exactly for the maps that conform to the type: each required field
-- and each stable key is given and not empty, each value has its declared type, and each value of
-- a field with an enumeration is a string of it.
pub validate_props_iff :
    (et : EntityType) (props : Props) → (validate_props et props ≡ []) ↔ Conforms props et
unfolding validate_props
validate_props_iff et props = (to, from)
  where
    specs : Dict PropertySpec
    specs = et.spec.properties

    to : validate_props et props ≡ [] → Conforms props et
    to h =
        let (r, h₁) = append_nil_parts (check_required props specs) _ h in
        let (t, h₂) = append_nil_parts (check_types props specs) _ h₁ in
        let (e, k) = append_nil_parts (check_enums props specs) _ h₂ in
        record {
          fields = fields_of props specs r t e;
          stable_keys = stable_keys_of props et.spec.identity.stable_keys k;
        }

    from : Conforms props et → validate_props et props ≡ []
    from c =
        let (r, t, e) = no_errors_of props specs c.fields in
        rw (r, t, e) (no_key_errors_of props et.spec.identity.stable_keys c.stable_keys)
