-- ===== src/Text/Url.antt =====
-- The functions of Go's `net/url` that the program calls.
use Prim.Native.Char.{Char, code}
use Prim.Native.String.{char_at}
use network_digital_twin_pla.Prelude.{
  ℕ, ◌+◌, ◌/◌, ◌%◌, ◌≡◌, refl, Bool, ◌&&◌, ◌||◌, String, ◌<>◌, [], ◌∷◌, map, none, some, leb, ltb,
  eqb, if◌then◌else◌, String-discrete,
}
use network_digital_twin_pla.Prelude.Dict.{Dict, lookup, keys}
use network_digital_twin_pla.Text.{join}
use network_digital_twin_pla.Text.Sort.{sort}

-- A byte behind a percent sign.
abbrev percent : ℕ → String
percent b =
    let hex : ℕ → Char = λ n. char_at "0123456789ABCDEF" n in
    "%" <> String.◌∷◌ (hex (b / 16)) (String.◌∷◌ (hex (b % 16)) "")

-- The bytes of a character in UTF-8, each behind a percent sign.
percent_char : ℕ → String
percent_char n =
    if ltb n 0x80
    then percent n
    else if ltb n 0x800
    then percent (0xc0 + n / 0x40) <> percent (0x80 + n % 0x40)
    else if ltb n 0x10000
    then percent (0xe0 + n / 0x1000)
      <> percent (0x80 + n / 0x40 % 0x40)
      <> percent (0x80 + n % 0x40)
    else percent (0xf0 + n / 0x40000)
      <> percent (0x80 + n / 0x1000 % 0x40)
      <> percent (0x80 + n / 0x40 % 0x40)
      <> percent (0x80 + n % 0x40)

is_unreserved : ℕ → Bool
is_unreserved n =
    leb b'a' n && leb n b'z'
    || leb b'A' n && leb n b'Z'
    || leb b'0' n && leb n b'9'
    || eqb n b'-'
    || eqb n b'_'
    || eqb n b'.'
    || eqb n b'~'

-- `url.QueryEscape`
unfoldable pub query_escape : String → String
unfolding is_unreserved percent_char
query_escape String.[] = ""
query_escape (String.◌∷◌ c s) =
    let rest = query_escape s in
    if is_unreserved (code c)
    then String.◌∷◌ c rest
    else if eqb (code c) b' '
    then "+" <> rest
    else percent_char (code c) <> rest

-- `url.PathEscape`
unfoldable pub path_escape : String → String
unfolding is_unreserved percent_char
path_escape String.[] = ""
path_escape (String.◌∷◌ c s) =
    let n = code c in
    let rest = path_escape s in
    if is_unreserved n
      || eqb n b'$'
      || eqb n b'&'
      || eqb n b'+'
      || eqb n b'='
      || eqb n b':'
      || eqb n b'@'
    then String.◌∷◌ c rest
    else percent_char n <> rest

abbrev value_of : String → Dict String → String
value_of k params = elim (lookup k params) [ none ↦ "" | some v ↦ v ]

-- `Values.Encode`, with one value for each key.
unfoldable pub encode : Dict String → String
unfolding query_escape join sort keys
encode params =
    join (map (λ k. query_escape k <> "=" <> query_escape (value_of k params)) (sort (keys params)))
      "&"

encode_test : encode (("b", "10:00 x") ∷ ("a", "Gi0/1") ∷ []) ≡ "a=Gi0%2F1&b=10%3A00+x"
unfolding encode String-discrete lookup
encode_test = refl

path_escape_test : path_escape "a b/1" ≡ "a%20b%2F1"
unfolding path_escape
path_escape_test = refl
