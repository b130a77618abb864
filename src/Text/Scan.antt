-- ===== src/Text/Scan.antt =====
-- The functions of Go's `strings`, `strconv` and `regexp` packages that the parsers of device output
-- call. A letter beyond ASCII keeps its case, but for those whose other case is an ASCII letter: the
-- program compares the results with ASCII texts.
use Prim.Native.Char.{Char, code}
use Prim.Native.String.{count, char_at}
use text.Mathlib.Text.{starts_with}
use text.Mathlib.TextLemmas.{nil-append, cons-append}
use text.Mathlib.TextPositions.{starts_with-append}
use network_digital_twin_pla.Prelude.{
  ℕ, zero, suc, ◌+◌, ◌-◌, ◌*◌, Bool, true, false, ◌&&◌, ◌||◌, String, ◌<>◌, List, [], ◌∷◌, Option,
  none, some, leb, eqb, if◌then◌else◌, ◌==◌, ◌≡◌, ◌≢◌, refl, arith,
}

-- `unicode.IsSpace`
unfoldable pub is_space : Char → Bool
is_space c =
    let n = code c in
    leb 9 n && leb n 13
    || eqb n 32
    || eqb n 0x85
    || eqb n 0xa0
    || eqb n 0x1680
    || leb 0x2000 n && leb n 0x200a
    || eqb n 0x2028
    || eqb n 0x2029
    || eqb n 0x202f
    || eqb n 0x205f
    || eqb n 0x3000

unfoldable pub lower_char : Char → Char
lower_char c =
    let n = code c in
    if leb b'A' n && leb n b'Z'
    then char_at "abcdefghijklmnopqrstuvwxyz" (n - b'A')
    else if eqb n 0x130
    then char_at "i" 0
    else if eqb n 0x212a
    then char_at "k" 0
    else c

unfoldable pub upper_char : Char → Char
upper_char c =
    let n = code c in
    if leb b'a' n && leb n b'z'
    then char_at "ABCDEFGHIJKLMNOPQRSTUVWXYZ" (n - b'a')
    else if eqb n 0x131
    then char_at "I" 0
    else if eqb n 0x17f
    then char_at "S" 0
    else c

-- `strings.ToLower`
unfoldable pub to_lower : String → String
unfolding lower_char
to_lower String.[] = ""
to_lower (String.◌∷◌ c s) = String.◌∷◌ (lower_char c) (to_lower s)

-- `strings.ToUpper`
unfoldable pub to_upper : String → String
unfolding upper_char
to_upper String.[] = ""
to_upper (String.◌∷◌ c s) = String.◌∷◌ (upper_char c) (to_upper s)

unfoldable pub trim_left : String → String
unfolding is_space
trim_left String.[] = ""
trim_left (String.◌∷◌ c s) = let rest = trim_left s in if is_space c then rest else String.◌∷◌ c s

unfoldable pub trim_right : String → String
unfolding is_space
trim_right String.[] = ""
trim_right (String.◌∷◌ c s) =
    let rest = trim_right s in if is_space c && rest == "" then "" else String.◌∷◌ c rest

-- `strings.TrimSpace`
unfoldable pub trim_space : String → String
unfolding trim_left trim_right
trim_space s = trim_right (trim_left s)

abbrev cons_word : String → List String → List String
cons_word word words = if word == "" then words else word ∷ words

-- The word that begins at once, and the words after it.
words_from : String → String × List String
unfolding is_space
words_from String.[] = ("", [])
words_from (String.◌∷◌ c s) =
    let (word, words) = words_from s in
    if is_space c then ("", cons_word word words) else (String.◌∷◌ c word, words)

-- `strings.Fields`
unfoldable pub fields : String → List String
unfolding words_from
fields s = let (word, words) = words_from s in cons_word word words

lines_from : String → String × List String
lines_from String.[] = ("", [])
lines_from (String.◌∷◌ c s) =
    let (line, lines) = lines_from s in
    if eqb (code c) b'\n' then ("", line ∷ lines) else (String.◌∷◌ c line, lines)

-- `strings.Split(s, "\n")`
unfoldable pub split_lines : String → List String
unfolding lines_from
split_lines s = let (line, lines) = lines_from s in line ∷ lines

abbrev spaces : ℕ → String
spaces zero = ""
spaces (suc n) = String.◌∷◌ (char_at " " 0) (spaces n)

-- What goes on a chunk after `n` spaces, and the chunks after it.
chunks_from : ℕ → String → String × List String
chunks_from n String.[] = if leb 3 n then ("", "" ∷ []) else (spaces n, [])
chunks_from n (String.◌∷◌ c s) = elim (eqb (code c) 32) [
  | true ↦ chunks_from (suc n) s
  | false ↦
      let (chunk, chunks) = chunks_from 0 s in
      if leb 3 n
      then ("", String.◌∷◌ c chunk ∷ chunks)
      else (spaces n <> String.◌∷◌ c chunk, chunks)
]

-- `regexp.MustCompile(" {3}").Split(s, -1)`
unfoldable pub split_chunks : String → List String
unfolding chunks_from
split_chunks s = let (chunk, chunks) = chunks_from 0 s in chunk ∷ chunks

-- `strings.Contains`
unfoldable pub contains_text : String → String → Bool
contains_text String.[] sub = sub == ""
contains_text (String.◌∷◌ c s) sub = starts_with (String.◌∷◌ c s) sub || contains_text s sub

unfoldable pub drop_text : ℕ → String → String
drop_text zero s = s
drop_text (suc n) String.[] = ""
drop_text (suc n) (String.◌∷◌ c s) = drop_text n s

-- What stands before and after the first occurrence of a character: `strings.Index` and two slices.
unfoldable pub cut : ℕ → String → Option (String × String)
cut n String.[] = none
cut n (String.◌∷◌ c s) =
    let rest = cut n s in
    if eqb (code c) n
    then some ("", s)
    else elim rest [ none ↦ none | some (before, after) ↦ some (String.◌∷◌ c before, after) ]

parts_from : ℕ → String → String × List String
parts_from n String.[] = ("", [])
parts_from n (String.◌∷◌ c s) =
    let (part, parts) = parts_from n s in
    if eqb (code c) n then ("", part ∷ parts) else (String.◌∷◌ c part, parts)

-- `strings.Split` at a character.
unfoldable pub split_on : ℕ → String → List String
unfolding parts_from
split_on n s = let (part, parts) = parts_from n s in part ∷ parts

-- What stands after the first occurrence of a text.
unfoldable pub after_first : String → String → Option String
unfolding drop_text
after_first sub String.[] = none
after_first sub (String.◌∷◌ c s) =
    let rest = after_first sub s in
    if starts_with (String.◌∷◌ c s) sub then some (drop_text (count sub) (String.◌∷◌ c s)) else rest

abbrev is_digit : Char → Bool
is_digit c = leb b'0' (code c) && leb (code c) b'9'

-- `none` where a character is no digit.
digits_value : ℕ → String → Option ℕ
digits_value n String.[] = some n
digits_value n (String.◌∷◌ c s) =
    let rest = digits_value (n * 10 + (code c - b'0')) s in if is_digit c then rest else none

-- The number that a text of digits stands for.
unfoldable pub parse_digits : String → Option ℕ
unfolding digits_value
parse_digits s = if s == "" then none else digits_value 0 s

-- A text that starts with a text contains it.
starts-contains_text :
    (s sub : String) → starts_with s sub ≡ true → s ≢ "" → contains_text s sub ≡ true
unfolding contains_text
starts-contains_text String.[] sub e some_ = absurd (some_ refl)
starts-contains_text (String.◌∷◌ c s) sub e some_ = rw e refl

later-contains_text :
    (c : Char) (s sub : String)
    → contains_text s sub ≡ true
    → contains_text (String.◌∷◌ c s) sub ≡ true
unfolding contains_text
later-contains_text c s sub e = ground (arith, e)

-- What stands in the middle of a text is contained in it.
pub contains_text-middle :
    (before sub after : String)
    → sub <> after ≢ ""
    → contains_text (before <> (sub <> after)) sub ≡ true
contains_text-middle String.[] sub after some_ =
    rw (nil-append (sub <> after))
      (starts-contains_text (sub <> after) sub (starts_with-append sub after) some_)
contains_text-middle (String.◌∷◌ c before) sub after some_ =
    rw (cons-append c before (sub <> after)) (
      later-contains_text c (before <> (sub <> after)) sub
        (contains_text-middle before sub after some_))
