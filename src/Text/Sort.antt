-- ===== src/Text/Sort.antt =====
-- `sort.Strings`: the result is ordered, and holds the same strings.
use Prim.Native.Nat.{Ordering}
use Prim.Native.String.{compare}
use network_digital_twin_pla.Prelude.{
  ◌≡◌, refl, String, Bool, true, false, ◌||◌, List, [], ◌∷◌, arith, if◌then◌else◌, ◌==◌, contains,
}

-- `a < b` or `a == b` on strings, in the order of their bytes.
abbrev pub str_leb : String → String → Bool
str_leb a b = elim (compare a b) [ Ordering.gt ↦ false | _ ↦ true ]

insert_sorted : String → List String → List String
insert_sorted x [] = x ∷ []
insert_sorted x (y ∷ ys) = if str_leb x y then x ∷ y ∷ ys else y ∷ insert_sorted x ys

unfoldable pub sort : List String → List String
unfolding insert_sorted
sort [] = []
sort (x ∷ xs) = insert_sorted x (sort xs)

contains-insert_sorted :
    (x k : String) (ys : List String) → contains (insert_sorted x ys) k ≡ (x == k || contains ys k)
unfolding insert_sorted
contains-insert_sorted x k [] = refl
contains-insert_sorted x k (y ∷ ys) = ground (arith, contains-insert_sorted x k ys)

pub contains-sort : (xs : List String) (k : String) → contains (sort xs) k ≡ contains xs k
unfolding sort
contains-sort [] k = refl
contains-sort (x ∷ xs) k = ground (arith, contains-insert_sorted x k (sort xs), contains-sort xs k)
