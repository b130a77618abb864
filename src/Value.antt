-- ===== src/Value.antt =====
-- Go's `any`, with the types that JSON, YAML and the graph driver put into property maps.
use network_digital_twin_pla.Prelude.{
  ℕ, suc, ◌≡◌, refl, String, ◌<>◌, Bool, true, false, List, [], ◌∷◌, eqb, if◌then◌else◌,
}
use network_digital_twin_pla.Prelude.Dict.{Dict}
use network_digital_twin_pla.Text.{decimal, join}
use network_digital_twin_pla.Text.Sort.{str_leb}

-- `negsuc n` is -(n + 1).
pub data ℤ : Type 0 where
  pos : ℕ → ℤ
  negsuc : ℕ → ℤ

-- `int`, `int8`, `int16`, `int32` and `int64` are five types behind `any`.
pub data IntKind : Type 0 where
  int_native int8 int16 int32 int64 : IntKind

-- A float stands as its bit pattern. `other n` is a value of any further type, named by a number.
mutual
  pub data Value : Type 0 where
    null : Value
    str : String → Value
    int : IntKind → ℤ → Value
    float32 float64 : ℕ → Value
    bool : Bool → Value
    strings : List String → Value
    array : Values → Value
    object : Fields → Value
    other : ℕ → Value

  pub data Values : Type 0 where
    end : Values
    item : Value → Values → Values

  pub data Fields : Type 0 where
    no_field : Fields
    field : String → Value → Fields → Fields

-- A `map[string]any`.
abbrev pub Props : Type 0
Props = Dict Value

-- A map inside a value, and back.
abbrev pub props_of : Fields → Props
props_of no_field = []
props_of (field k v fs) = (k, v) ∷ props_of fs

abbrev pub fields_of : Props → Fields
fields_of [] = no_field
fields_of ((k, v) ∷ props) = field k v (fields_of props)

-- What the hardware and the runtime do with floats and with types unknown to the program.
pub record Host : Type 0 where
  pub of_int : ℤ → ℕ  -- `float64(n)`
  pub float_eq : ℕ → ℕ → Bool  -- `==` on `float64`
  pub text32 : ℕ → String  -- `%v`
  pub text64 : ℕ → String  -- `%v`
  pub text_other : ℕ → String  -- `%v`

abbrev pub int_text : ℤ → String
int_text (pos n) = decimal n
int_text (negsuc n) = "-" <> decimal (suc n)

abbrev bool_text : Bool → String
bool_text true = "true"
bool_text false = "false"

-- `fmt` prints the entries of a map in the order of their keys.
insert_entry : String → String → List (String × String) → List (String × String)
insert_entry k t [] = (k, t) ∷ []
insert_entry k t ((j, u) ∷ rest) =
    if str_leb k j then (k, t) ∷ (j, u) ∷ rest else (j, u) ∷ insert_entry k t rest

entry_texts : List (String × String) → List String
entry_texts [] = []
entry_texts ((k, t) ∷ rest) = (k <> ":" <> t) ∷ entry_texts rest

module _ (host : Host) where
  -- `fmt.Sprintf("%v", v)`
  unfoldable mutual
    unfolding insert_entry entry_texts join decimal

    pub sprint : Value → String
    sprint null = "<nil>"
    sprint (str s) = s
    sprint (int k n) = int_text n
    sprint (float32 x) = host.text32 x
    sprint (float64 x) = host.text64 x
    sprint (bool b) = bool_text b
    sprint (strings xs) = "[" <> join xs " " <> "]"
    sprint (array xs) = "[" <> join (sprint_items xs) " " <> "]"
    sprint (object fs) = "map[" <> join (entry_texts (sprint_fields fs)) " " <> "]"
    sprint (other n) = host.text_other n

    pub sprint_items : Values → List String
    sprint_items end = []
    sprint_items (item v vs) = sprint v ∷ sprint_items vs

    pub sprint_fields : Fields → List (String × String)
    sprint_fields no_field = []
    sprint_fields (field k v fs) = insert_entry k (sprint v) (sprint_fields fs)

-- A host for tests. It takes a float for the whole number of the same bits.
abbrev pub plain_host : Host
plain_host = record {
  of_int = elim [ pos n ↦ n | negsuc n ↦ 0 ];
  float_eq = eqb;
  text32 = decimal;
  text64 = decimal;
  text_other = λ _. "other";
}

sprint_example :
    sprint plain_host (
      object (
        field "b"
          (bool true)
          (field "a" (array (item null (item (int int8 (negsuc 4)) end))) no_field)))
    ≡ "map[a:[<nil> -5] b:true]"
unfolding sprint
sprint_example = refl
