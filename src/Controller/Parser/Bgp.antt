-- ===== src/Controller/Parser/Bgp.antt =====
-- What the parser of BGP peers returns, and when it panics.
use network_digital_twin_pla.Prelude.{
  ℕ, zero, suc, ◌<◌, ◌≡◌, refl, inl, inr, true, false, String, List, [], ◌∷◌, ◌++◌, Option, none,
  some, All, length, ltb, arith, ap, Bool-cases, ◌==◌, String-discrete, if◌then◌else◌,
}
use network_digital_twin_pla.Prelude.Dict.{lookup}
use network_digital_twin_pla.Value.{ℤ, Props, str}
use network_digital_twin_pla.Assembler.{last_of}
use network_digital_twin_pla.Text.Scan.{trim_space, fields, split_lines, contains_text}
use network_digital_twin_pla.Controller.Parser.{
  is_header, after_header, peer_of_row, parse_rows, parse_bgp_tabular, parse_bgp_text, last_word,
  atoi, extract_bgp_field,
}

abbrev pub words : String → List String
words line = fields (trim_space line)

abbrev pub word_at : ℕ → List String → Option String
word_at n [] = none
word_at zero (w ∷ ws) = some w
word_at (suc n) (w ∷ ws) = word_at n ws

-- The columns of a row in a peer.
pub record IsPeer (ws : List String) (peer : Props) : Type 0 where
  pub peer_ip : String
  pub uptime : String
  pub first : word_at 0 ws ≡ some peer_ip
  pub ip_is : lookup "peer_ip" peer ≡ some (str peer_ip)
  pub seventh : word_at 6 ws ≡ some uptime
  pub uptime_is : lookup "uptime" peer ≡ some (str uptime)
  pub state_is : lookup "state" peer ≡ some (str (last_of ws))

-- The rows of more than seven words give the peers. No other row has seven.
pub data Peers : List String → List Props → Type 0 where
  no_row : Peers [] []
  short :
      {row : String} {rows : List String} {peers : List Props}
      → length (words row) < 7
      → Peers rows peers
      → Peers (row ∷ rows) peers
  peer_row :
      {row : String} {rows : List String} {peer : Props} {peers : List Props}
      → 7 < length (words row)
      → IsPeer (words row) peer
      → Peers rows peers
      → Peers (row ∷ rows) (peer ∷ peers)

pub data Rows (rows : List String) : Option (List Props) → Type 0 where
  panics :
      (before after : List String)
      → (row : String) → rows ≡ before ++ row ∷ after
      → length (words row) ≡ 7
      → Rows rows none
  returns : {peers : List Props} → Peers rows peers → Rows rows (some peers)

pub data Outcome (lines : List String) : Option (List Props) → Type 0 where
  headless : All (λ line. is_header line ≡ false) lines → Outcome lines (some [])
  headed :
      {r : Option (List Props)}
      → (before rows : List String) → (header : String) → lines ≡ before ++ header ∷ rows
      → All (λ line. is_header line ≡ false) before
      → is_header header ≡ true
      → Rows rows r
      → Outcome lines r

-- Where the peer of a row of seven words or more exists.
Row : List String → Option Props → Type 0
Row ws none = length ws ≡ 7
Row ws (some peer) = (7 < length ws) × IsPeer ws peer

last_word-last_of : (w : String) (ws : List String) → last_word w ws ≡ last_of (w ∷ ws)
last_word-last_of w [] = refl
last_word-last_of w (x ∷ xs) = last_word-last_of x xs

peer_of_row-Row :
    (router_id : String) (local_as : ℤ) (ws : List String)
    → ltb (length ws) 7 ≡ false
    → Row ws (peer_of_row router_id local_as ws)
unfolding peer_of_row Row lookup String-discrete
peer_of_row-Row r l (ip ∷ as_ ∷ a ∷ b ∷ c ∷ d ∷ up ∷ state ∷ more) h = (
  omega arith,
  record {
    peer_ip = ip;
    uptime = up;
    first = refl;
    ip_is = refl;
    seventh = refl;
    uptime_is = refl;
    state_is = ap (λ s. some (str s)) (last_word-last_of state more);
  },
)
peer_of_row-Row r l (ip ∷ as_ ∷ a ∷ b ∷ c ∷ d ∷ up ∷ []) h = omega arith
peer_of_row-Row r l _ h = ground arith

Rows-cons :
    (row : String) (rows : List String) (r : Option (List Props))
    → length (words row) < 7
    → Rows rows r
    → Rows (row ∷ rows) r
Rows-cons row rows r h (panics before after bad e k) =
    panics (row ∷ before) after bad (ap (λ l. row ∷ l) e) k
Rows-cons row rows r h (returns ps) = returns (short h ps)

-- From a row of seven words or more, and the rows after it.
next_row : Option Props → Option (List Props) → Option (List Props)
next_row none rest = none
next_row (some peer) none = none
next_row (some peer) (some peers) = some (peer ∷ peers)

Rows-next_row :
    (row : String) (rows : List String) (p : Option Props) (r : Option (List Props))
    → Row (words row) p
    → Rows rows r
    → Rows (row ∷ rows) (next_row p r)
unfolding next_row Row
Rows-next_row row rows none r seven h = panics [] rows row refl seven
Rows-next_row row rows (some peer) r is (panics before after bad e k) =
    panics (row ∷ before) after bad (ap (λ l. row ∷ l) e) k
Rows-next_row row rows (some peer) r is (returns ps) = returns (peer_row is.0 is.1 ps)

parse_rows-cons :
    (router_id : String) (local_as : ℤ) (row : String) (rows : List String)
    → parse_rows router_id local_as (row ∷ rows) ≡ (
        if ltb (length (words row)) 7
        then parse_rows router_id local_as rows
        else next_row
            (peer_of_row router_id local_as (words row))
            (parse_rows router_id local_as rows))
unfolding parse_rows next_row
parse_rows-cons r l row rows = ground arith

parse_rows-Rows :
    (router_id : String) (local_as : ℤ) (rows : List String)
    → Rows rows (parse_rows router_id local_as rows)
unfolding parse_rows
parse_rows-Rows r l [] = returns no_row
parse_rows-Rows r l (row ∷ rows) =
    let rest = parse_rows-Rows r l rows in
    elim (Bool-cases (ltb (length (words row)) 7)) [
      | inl few ↦
          rw (parse_rows-cons r l row rows, few)
            (Rows-cons row rows (parse_rows r l rows) (ground arith) rest)
      | inr more ↦
          rw (parse_rows-cons r l row rows, more)
            (Rows-next_row row rows (peer_of_row r l (words row)) (parse_rows r l rows)
              (peer_of_row-Row r l (words row) more) rest)
    ]

-- How the header splits the lines.
Split : List String → Option (List String) → Type 0
Split lines none = All (λ line. is_header line ≡ false) lines
Split lines (some rows) =
    (before : List String) × (header : String) × (lines ≡ before ++ header ∷ rows)
    × All (λ line. is_header line ≡ false) before
    × (is_header header ≡ true)

Split-cons :
    (line : String) (lines : List String) (r : Option (List String))
    → is_header line ≡ false
    → Split lines r
    → Split (line ∷ lines) r
unfolding Split
Split-cons line lines none no_head all = (no_head, all)
Split-cons line lines (some rows) no_head (before, header, e, all, h) =
    (line ∷ before, header, ap (λ l. line ∷ l) e, (no_head, all), h)

after_header-Split : (lines : List String) → Split lines (after_header lines)
unfolding after_header Split
after_header-Split [] = tt
after_header-Split (line ∷ lines) = elim (Bool-cases (is_header line)) [
  | inl head ↦ rw head ([], line, refl, tt, head)
  | inr no_head ↦
      rw no_head (Split-cons line lines (after_header lines) no_head (after_header-Split lines))
]

no_header_in_nil : is_header "" ≡ false
unfolding contains_text String-discrete
no_header_in_nil = refl

Outcome-Split :
    (lines : List String) (h : Option (List String)) (router_id : String) (local_as : ℤ)
    → Split lines h
    → Outcome lines (elim h [ none ↦ some [] | some rows ↦ parse_rows router_id local_as rows ])
unfolding Split
Outcome-Split lines none r l all = headless all
Outcome-Split lines (some rows) r l (before, header, e, all, h) =
    headed before rows header e all h (parse_rows-Rows r l rows)

parse_bgp_tabular-Outcome : (text : String) → Outcome (split_lines text) (parse_bgp_tabular text)
unfolding parse_bgp_tabular
parse_bgp_tabular-Outcome text =
    let lines = split_lines text in
    Outcome-Split lines (after_header lines) (extract_bgp_field lines "BGP local router ID:")
      (atoi (extract_bgp_field lines "Local AS number:")) (after_header-Split lines)

nil-Outcome : (text : String) → text ≡ "" → Outcome (split_lines text) (some [])
unfolding split_lines
nil-Outcome text e = rw e (headless (no_header_in_nil, tt))

-- `ParseBGPText` returns no peer for a text without a line that has the words of a header. For any
-- other, it panics exactly if a row after the first such line has seven words; and else it returns a
-- peer for each row of more than seven, in their order, with the first word for its address, the
-- seventh for its uptime and the last one for its state.
pub parse_bgp_text-Outcome :
    (vendor text : String) → Outcome (split_lines text) (parse_bgp_text vendor text)
unfolding parse_bgp_text
parse_bgp_text-Outcome vendor text = elim (Bool-cases (text == "")) [
  | inl empty ↦ rw empty (nil-Outcome text (ground arith))
  | inr some_text ↦ rw some_text (parse_bgp_tabular-Outcome text)
]
