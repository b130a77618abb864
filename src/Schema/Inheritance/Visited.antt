-- ===== src/Schema/Inheritance/Visited.antt =====
-- How many names a search has left to visit: the measure that its fuel stays above.
use network_digital_twin_pla.Prelude.{
  ℕ, suc, ◌≤◌, ◌<◌, ◌≡◌, String, true, false, List, [], ◌∷◌, some, arith, contains, if◌then◌else◌,
  length,
}
use network_digital_twin_pla.Prelude.Dict.{Dict, lookup, keys, contains-keys}

abbrev pub unvisited : List String → List String → ℕ
unvisited visited [] = 0
unvisited visited (k ∷ ks) =
    let rest = unvisited visited ks in if contains visited k then rest else suc rest

pub unvisited-le-length : (visited ks : List String) → unvisited visited ks ≤ length ks
unvisited-le-length visited [] = omega arith
unvisited-le-length visited (k ∷ ks) = ground (arith, unvisited-le-length visited ks)

unvisited_mono :
    (x : String) (visited ks : List String) → unvisited (x ∷ visited) ks ≤ unvisited visited ks
unvisited_mono x visited [] = omega arith
unvisited_mono x visited (k ∷ ks) = ground (arith, unvisited_mono x visited ks)

-- To visit a new key leaves fewer keys.
pub unvisited-lt :
    (x : String) (visited ks : List String)
    → contains ks x ≡ true
    → contains visited x ≡ false
    → unvisited (x ∷ visited) ks < unvisited visited ks
unvisited-lt x visited [] h new = cc
unvisited-lt x visited (k ∷ ks) h new =
    ground (arith, unvisited_mono x visited ks, unvisited-lt x visited ks)

pub contains-keys_of_some {ℓ} :
    {V : Type ℓ} (m : Dict V) (k : String) {v : V}
    → lookup k m ≡ some v
    → contains (keys m) k ≡ true
contains-keys_of_some m k e = ground (arith, contains-keys m k)
