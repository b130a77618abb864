-- ===== src/Schema/Inheritance.antt =====
-- internal/schema/registry.go: the inheritance of entity types. `inheritance` maps a child to its
-- parent; both searches follow it from child to parent, on fuel, since the map may have a cycle.
pub mod Visited
pub mod Ancestors
pub mod Search
pub mod Cycle
pub mod Visit
pub mod Topo
use network_digital_twin_pla.Prelude.{
  ℕ, zero, suc, String, Bool, true, false, List, [], ◌∷◌, ◌++◌, Option, none, some, ◌==◌, contains,
  if◌then◌else◌, length,
}
use network_digital_twin_pla.Prelude.Dict.{Dict, lookup, insert, keys}
use network_digital_twin_pla.Text.Sort.{sort}

-- `inStack[node] = false`
unfoldable pub remove : String → List String → List String
remove x [] = []
remove x (y ∷ ys) = let rest = remove x ys in if x == y then rest else y ∷ rest

-- What a search ends with: no fuel, a node met again on its own path, or the two maps, each as the
-- list of the names that it holds true.
pub data Dfs : Type 0 where
  out_of_fuel : Dfs
  circular : String → Dfs
  done : List String → List String → Dfs

module _ (inheritance : Dict String) where
  abbrev leave : String → Dfs → Dfs
  leave node (done visited in_stack) = done visited (remove node in_stack)
  leave node r = r

  -- The closure `dfs` of `detectCycle`.
  unfoldable pub dfs : ℕ → String → List String → List String → Dfs
  unfolding remove
  dfs zero node visited in_stack = out_of_fuel
  dfs (suc f) node visited in_stack = elim (contains in_stack node) [
    | true ↦ circular node
    | false ↦ elim (contains visited node) [
      | true ↦ done visited in_stack
      | false ↦ leave node (elim (lookup node inheritance) [
        | none ↦ done (node ∷ visited) (node ∷ in_stack)
        | some parent ↦ dfs f parent (node ∷ visited) (node ∷ in_stack)
      ])
    ]
  ]

  -- The last loop of `detectCycle`.
  unfoldable pub dfs_all : ℕ → List String → List String → List String → Dfs
  dfs_all f [] visited in_stack = done visited in_stack
  dfs_all f (node ∷ nodes) visited in_stack = elim (dfs f node visited in_stack) [
    | out_of_fuel ↦ out_of_fuel
    | circular n ↦ circular n
    | done visited' in_stack' ↦ dfs_all f nodes visited' in_stack'
  ]

  -- Each round below the first visits a new name, and all but the last of these are keys.
  abbrev pub enough_fuel : ℕ
  enough_fuel = suc (suc (length (keys inheritance)))

  unfoldable pub detect_cycle : Dfs
  detect_cycle = dfs_all enough_fuel (sort (keys inheritance)) [] []

  -- The closure `visit` of `topoSort`; its two variables are `visited` and `result`.
  unfoldable pub visit : ℕ → String → List String × List String → Option (List String × List String)
  visit zero node s = none
  visit (suc f) node (visited, result) = elim (contains visited node) [
    | true ↦ some (visited, result)
    | false ↦ elim (lookup node inheritance) [
      | none ↦ some (node ∷ visited, result ++ node ∷ [])
      | some parent ↦ elim (visit f parent (node ∷ visited, result)) [
        | none ↦ none
        | some (visited', result') ↦ some (visited', result' ++ node ∷ [])
      ]
    ]
  ]

  unfoldable pub visit_all :
      ℕ → List String → List String × List String → Option (List String × List String)
  visit_all f [] s = some s
  visit_all f (node ∷ nodes) s = elim (visit f node s) [
    | none ↦ none
    | some s' ↦ visit_all f nodes s'
  ]

-- `allNodes[node] = true`
abbrev pub add : String → List String → List String
add x xs = if contains xs x then xs else x ∷ xs

-- The keys of the set `allNodes`, each once.
unfoldable pub all_nodes : Dict String → List String → List String
all_nodes [] acc = acc
all_nodes ((child, parent) ∷ rest) acc = all_nodes rest (add parent (add child acc))

unfoldable pub topo_sort : Dict String → Option (List String)
unfolding all_nodes
topo_sort inheritance =
    elim (visit_all inheritance (enough_fuel inheritance) (sort (all_nodes inheritance []))
      ([], [])) [ none ↦ none | some (visited, result) ↦ some result ]
