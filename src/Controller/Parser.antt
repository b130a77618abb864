-- ===== src/Controller/Parser.antt =====
-- internal/connector/controller/parser.go. The results have no error, so that it is left out.
pub mod Bgp
pub mod Isis
use network_digital_twin_pla.Prelude.{
  ℕ, zero, suc, ◌-◌, ◌^◌, Bool, true, false, ◌&&◌, ◌||◌, String, List, [], ◌∷◌, Option, none, some,
  length, ltb, leb, eqb, if◌then◌else◌, ◌==◌,
}
use network_digital_twin_pla.Prelude.Dict.{insert, has}
use network_digital_twin_pla.Value.{ℤ, pos, negsuc, Props, str, int, int_native}
use Prim.Native.Char.{Char, code}
use text.Mathlib.Text.{starts_with}
use network_digital_twin_pla.Text.Scan.{
  to_lower, to_upper, trim_space, fields, split_lines, split_chunks, contains_text, cut, drop_text,
  after_first, parse_digits,
}

-- `strconv.Atoi` without its error: 0 where the text is no number, and the nearest of the numbers of 64
-- bits where it is out of range.
signed : Bool → Option ℕ → ℤ
signed minus none = pos 0
signed true (some zero) = pos 0
signed true (some (suc n)) = negsuc (if leb (2 ^ 63) n then 2 ^ 63 - 1 else n)
signed false (some n) = pos (if leb (2 ^ 63) n then 2 ^ 63 - 1 else n)

unfoldable pub atoi : String → ℤ
unfolding signed parse_digits drop_text
atoi s =
    if starts_with s "-"
    then signed true (parse_digits (drop_text 1 s))
    else if starts_with s "+"
    then signed false (parse_digits (drop_text 1 s))
    else signed false (parse_digits s)

-- `\s` of a regular expression.
abbrev is_re_space : Char → Bool
is_re_space c = let n = code c in leb 9 n && leb n 10 || eqb n 12 || eqb n 13 || eqb n 32

first_word : String → String
first_word String.[] = ""
first_word (String.◌∷◌ c s) =
    let rest = first_word s in if is_re_space c then "" else String.◌∷◌ c rest

-- The word that `\s*(\S+)` matches; "" for none.
word_after : String → String
unfolding first_word
word_after String.[] = ""
word_after (String.◌∷◌ c s) =
    let rest = word_after s in if is_re_space c then rest else first_word (String.◌∷◌ c s)

-- `extractBGPField`, for a pattern of a label, spaces and a word.
unfoldable pub extract_bgp_field : List String → String → String
unfolding word_after after_first
extract_bgp_field [] label = ""
extract_bgp_field (line ∷ lines) label =
    let rest = extract_bgp_field lines label in
    elim (after_first label line) [
      | none ↦ rest
      | some after ↦ let word = word_after after in if word == "" then rest else word
    ]

abbrev pub is_header : String → Bool
is_header line = contains_text line "Peer" && contains_text line "State"

-- The lines after the one with the heads of the columns.
unfoldable pub after_header : List String → Option (List String)
after_header [] = none
after_header (line ∷ lines) =
    let rest = after_header lines in if is_header line then some lines else rest

abbrev last_word : String → List String → String
last_word word [] = word
last_word word (next ∷ words) = last_word next words

-- The fields of a peer, from those of its row; `none` is a panic. `fields[7]` is read before the test
-- that there are more than seven.
unfoldable pub peer_of_row : String → ℤ → List String → Option Props
unfolding atoi
peer_of_row router_id local_as
      (peer_ip ∷ peer_as ∷ rcvd ∷ sent ∷ outq ∷ pref ∷ uptime ∷ state ∷ more) =
    some (
      ("peer_ip", str peer_ip)
      ∷ ("peer_as", int int_native (atoi peer_as))
      ∷ ("state", str (last_word state more))
      ∷ ("uptime", str uptime)
      ∷ ("router_id", str router_id)
      ∷ ("local_as", int int_native local_as)
      ∷ [])
peer_of_row router_id local_as _ = none

-- The loop over the rows.
unfoldable pub parse_rows : String → ℤ → List String → Option (List Props)
unfolding peer_of_row fields trim_space
parse_rows router_id local_as [] = some []
parse_rows router_id local_as (line ∷ lines) =
    let rest = parse_rows router_id local_as lines in
    let row = fields (trim_space line) in
    if ltb (length row) 7 then rest else elim (peer_of_row router_id local_as row) [
      | none ↦ none
      | some peer ↦ elim rest [ none ↦ none | some peers ↦ some (peer ∷ peers) ]
    ]

unfoldable pub parse_bgp_tabular : String → Option (List Props)
unfolding parse_rows after_header split_lines extract_bgp_field
parse_bgp_tabular text =
    let lines = split_lines text in
    let router_id = extract_bgp_field lines "BGP local router ID:" in
    let local_as = extract_bgp_field lines "Local AS number:" in
    elim (after_header lines) [
      | none ↦ some []
      | some rows ↦ parse_rows router_id (atoi local_as) rows
    ]

-- All vendors are parsed alike.
unfoldable pub parse_bgp_text : String → String → Option (List Props)
unfolding parse_bgp_tabular
parse_bgp_text vendor text = if text == "" then some [] else parse_bgp_tabular text

-- What stands in the brackets after the mark, in capitals or not.
after_mark : String → Option String
unfolding to_upper drop_text
after_mark String.[] = none
after_mark (String.◌∷◌ c s) =
    let rest = after_mark s in
    if starts_with (to_upper (String.◌∷◌ c s)) "IS-IS("
    then some (drop_text 6 (String.◌∷◌ c s))
    else rest

-- Only the first line with the mark is looked at.
unfoldable pub process_id : List String → String
unfolding after_mark cut
process_id [] = ""
process_id (line ∷ lines) =
    let rest = process_id lines in
    elim (after_mark line) [
      | none ↦ rest
      | some after ↦ elim (cut b')' after) [ none ↦ "" | some (id, _) ↦ id ]
    ]

unfoldable pub map_isis_status : String → String
unfolding to_lower
map_isis_status val =
    let v = to_lower val in if v == "up" || v == "active" then "Active" else "Inactive"

unfoldable pub map_isis_level : String → String
unfolding to_upper contains_text
map_isis_level val =
    let v = to_upper val in
    if contains_text v "L1L2" || contains_text v "L1/L2"
    then "L1L2"
    else if contains_text v "L2"
    then "L2"
    else if contains_text v "L1"
    then "L1"
    else "L1L2"

-- The field that a key stands for, with its value.
unfoldable pub isis_field : String → String → Option (String × String)
unfolding to_lower map_isis_status map_isis_level
isis_field key val =
    let k = to_lower key in
    if k == "system id"
    then some ("system_id", val)
    else if k == "area id" || k == "area address(es)"
    then some ("area_id", val)
    else if k == "state"
    then some ("status", map_isis_status val)
    else if k == "type" || k == "level"
    then some ("level", map_isis_level val)
    else if k == "interface"
    then some ("interface", val)
    else if k == "holdtime"
    then some ("holdtime", val)
    else if k == "circuit id"
    then some ("circuit_id", val)
    else if k == "pri"
    then some ("priority", val)
    else none

unfoldable pub set_isis_field : String → String → Props → Props
unfolding isis_field
set_isis_field key val current = elim (isis_field key val) [
  | none ↦ current
  | some (name, v) ↦ insert name (str v) current
]

-- A chunk without a colon, or without a key, sets nothing.
unfoldable pub set_chunk : String → Props → Props
unfolding trim_space cut set_isis_field
set_chunk chunk current = elim (cut b':' (trim_space chunk)) [
  | none ↦ current
  | some (before, after) ↦
      let key = trim_space before in
      if key == "" then current else set_isis_field key (trim_space after) current
]

set_chunks : List String → Props → Props
unfolding set_chunk
set_chunks [] current = current
set_chunks (chunk ∷ chunks) current = set_chunks chunks (set_chunk chunk current)

unfoldable pub parse_isis_key_value_pairs : String → Props → Props
unfolding set_chunks split_chunks
parse_isis_key_value_pairs line current = set_chunks (split_chunks line) current

abbrev pub is_head : String → Bool
is_head line =
    starts_with line "display " || starts_with line "Peer information" || starts_with line "---"

-- The peers with the block that ends, if that has a system.
unfoldable pub end_block : String → Option Props → List Props → List Props
end_block process none peers = peers
end_block process (some current) peers =
    if has "system_id" current
    then (if process == "" then current else insert "process_id" (str process) current) ∷ peers
    else peers

abbrev pub opened : Option Props → Props
opened none = []
opened (some current) = current

-- The loop over the lines with the current block; it returns the peers that are appended.
unfoldable pub parse_lines : String → List String → Option Props → List Props
unfolding trim_space parse_isis_key_value_pairs end_block
parse_lines process [] current = end_block process current []
parse_lines process (untrimmed ∷ lines) current =
    let line = trim_space untrimmed in
    let skipped = parse_lines process lines current in
    let ended = end_block process current (parse_lines process lines none) in
    let read =
      parse_lines process lines (some (parse_isis_key_value_pairs line (opened current))) in
    if is_head line then skipped else if line == "" then ended else read

unfoldable pub parse_isis_text : String → String → List Props
unfolding parse_lines process_id split_lines
parse_isis_text vendor text =
    if text == ""
    then []
    else let lines = split_lines text in parse_lines (process_id lines) lines none
