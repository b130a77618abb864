-- ===== src/Controller/Parser/Isis.antt =====
-- The parser of ISIS neighbours reads the blocks of its lines one by one.
use network_digital_twin_pla.Prelude.{
  ◌≡◌, refl, ap, ◌∙◌, inl, inr, true, false, String, List, [], ◌∷◌, Option, none, some, All, arith,
  Bool-cases, ◌==◌, String-discrete, if◌then◌else◌,
}
use network_digital_twin_pla.Prelude.Dict.{insert, has, lookup-insert}
use network_digital_twin_pla.Value.{Props, str}
use network_digital_twin_pla.Text.Scan.{trim_space, split_lines}
use network_digital_twin_pla.Controller.Parser.{
  is_head, opened, end_block, parse_lines, parse_isis_key_value_pairs, parse_isis_text, process_id,
}

-- The lines with no head among them, in blocks that empty lines part: the first one, and the rest.
abbrev blocks_from : List String → List String × List (List String)
blocks_from [] = ([], [])
blocks_from (line ∷ lines) =
    let (block, blocks) = blocks_from lines in
    if is_head (trim_space line)
    then (block, blocks)
    else if trim_space line == ""
    then ([], block ∷ blocks)
    else (trim_space line ∷ block, blocks)

abbrev pub blocks : List String → List (List String)
blocks lines = let (block, rest) = blocks_from lines in block ∷ rest

-- The fields of a block on top of those before it; none for a block of no line.
abbrev pub read_block : List String → Option Props → Option Props
read_block [] current = current
read_block (line ∷ block) current =
    read_block block (some (parse_isis_key_value_pairs line (opened current)))

-- The peers of blocks, each read on its own.
abbrev pub peers_of : String → List (List String) → List Props
peers_of process [] = []
peers_of process (block ∷ rest) = end_block process (read_block block none) (peers_of process rest)

parse_lines-blocks_from :
    (process : String) (lines : List String) (current : Option Props)
    → parse_lines process lines current
      ≡ end_block process
          (read_block (blocks_from lines).0 current)
          (peers_of process (blocks_from lines).1)
unfolding parse_lines
parse_lines-blocks_from process [] current = refl
parse_lines-blocks_from process (line ∷ lines) current =
    elim (Bool-cases (is_head (trim_space line))) [
      | inl head ↦ rw head (parse_lines-blocks_from process lines current)
      | inr other ↦ elim (Bool-cases (trim_space line == "")) [
        | inl empty ↦
            rw (other, empty)
              (ap (end_block process current) (parse_lines-blocks_from process lines none))
        | inr text ↦
            rw (other, text)
              (parse_lines-blocks_from process lines
                (some (parse_isis_key_value_pairs (trim_space line) (opened current))))
      ]
    ]

abbrev pub HasSystem : Props → Type 0
HasSystem peer = has "system_id" peer ≡ true

HasSystem-process :
    (process : String) (current : Props)
    → HasSystem current
    → HasSystem (insert "process_id" (str process) current)
unfolding String-discrete
HasSystem-process process current h =
    ap (λ o. elim o [ none ↦ false | some _ ↦ true ])
      (lookup-insert "system_id" "process_id" (str process) current)
    ∙ h

end_block-HasSystem :
    (process : String) (current : Option Props) (peers : List Props)
    → All HasSystem peers
    → All HasSystem (end_block process current peers)
unfolding end_block
end_block-HasSystem process none peers all = all
end_block-HasSystem process (some current) peers all = elim (Bool-cases (has "system_id" current)) [
  | inl system ↦ elim (Bool-cases (process == "")) [
    | inl nil ↦ rw (system, nil) (system, all)
    | inr named ↦ rw (system, named) (HasSystem-process process current system, all)
  ]
  | inr nothing ↦ rw nothing all
]

peers_of-HasSystem :
    (process : String) (bs : List (List String)) → All HasSystem (peers_of process bs)
peers_of-HasSystem process [] = tt
peers_of-HasSystem process (block ∷ bs) =
    end_block-HasSystem process (read_block block none) (peers_of process bs)
      (peers_of-HasSystem process bs)

nil-blocks : (process text : String) → text ≡ "" → [] ≡ peers_of process (blocks (split_lines text))
unfolding split_lines end_block trim_space String-discrete
nil-blocks process text e = rw e refl

-- `ParseISISText` returns the peers of the blocks of lines that empty lines part, each block read on
-- its own, where it names a system; lines that head the output belong to no block. So all peers have a
-- system.
pub parse_isis_text-Blocks :
    (vendor text : String)
    → (parse_isis_text vendor text
        ≡ peers_of (process_id (split_lines text)) (blocks (split_lines text)))
      × All HasSystem (parse_isis_text vendor text)
unfolding parse_isis_text
parse_isis_text-Blocks vendor text =
    let process = process_id (split_lines text) in
    let bs = blocks (split_lines text) in
    elim (Bool-cases (text == "")) [
      | inl empty ↦ rw empty (nil-blocks process text (ground arith), tt)
      | inr some_text ↦
          let e = parse_lines-blocks_from process (split_lines text) none in
          rw (some_text, e) (refl, peers_of-HasSystem process bs)
    ]
