-- ===== src/Snapshot/Manager/Lru.antt =====
-- Which databases `cleanup` clears.
use network_digital_twin_pla.Prelude.{
  ℕ, zero, suc, ◌-◌, ◌≡◌, refl, inl, inr, String, true, false, ◌||◌, List, [], ◌∷◌, arith, length,
  length-take, take, leb, ◌==◌, contains, Bool-cases,
}
use network_digital_twin_pla.Prelude.Dict.{Dict}
use network_digital_twin_pla.Snapshot.Manager.{
  older, insert_older, sort_older, not_default, victims,
}

contains-insert_older :
    (access : Dict ℕ) (x k : String) (ys : List String)
    → contains (insert_older access x ys) k ≡ (x == k || contains ys k)
unfolding insert_older
contains-insert_older access x k [] = refl
contains-insert_older access x k (y ∷ ys) = elim (Bool-cases (older access y x)) [
  | inl before ↦ rw (before, insert_older) (ground (arith, contains-insert_older access x k ys))
  | inr after ↦ rw (after, insert_older) refl
]

length-insert_older :
    (access : Dict ℕ) (x : String) (ys : List String)
    → length (insert_older access x ys) ≡ suc (length ys)
unfolding insert_older
length-insert_older access x [] = refl
length-insert_older access x (y ∷ ys) = elim (Bool-cases (older access y x)) [
  | inl before ↦ rw (before, insert_older) (omega (arith, length-insert_older access x ys))
  | inr after ↦ rw (after, insert_older) refl
]

contains-sort_older :
    (access : Dict ℕ) (xs : List String) (k : String)
    → contains (sort_older access xs) k ≡ contains xs k
unfolding sort_older
contains-sort_older access [] k = refl
contains-sort_older access (x ∷ xs) k = ground (
  arith,
  contains-insert_older access x k (sort_older access xs),
  contains-sort_older access xs k,
)

length-sort_older : (access : Dict ℕ) (xs : List String) → length (sort_older access xs) ≡ length xs
unfolding sort_older
length-sort_older access [] = refl
length-sort_older access (x ∷ xs) =
    omega (arith, length-insert_older access x (sort_older access xs), length-sort_older access xs)

contains-take :
    (n : ℕ) (xs : List String) (k : String) → contains (take n xs) k ≡ true → contains xs k ≡ true
contains-take zero xs k h = cc
contains-take (suc n) [] k h = h
contains-take (suc n) (x ∷ xs) k h = elim (Bool-cases (contains (take n xs) k)) [
  | inl there ↦ ground (arith, contains-take n xs k there)
  | inr gone ↦ ground (arith, gone, h)
]

contains-not_default :
    (dbs : List String) (k : String)
    → contains (not_default dbs) k ≡ true
    → (contains dbs k ≡ true) × ((k == "default") ≡ false)
contains-not_default [] k h = cc
contains-not_default (db ∷ dbs) k h = elim (Bool-cases (db == "default")) [
  | inl live ↦
      let (there, other) = contains-not_default dbs k (ground (arith, live, h)) in
      (ground (arith, there), other)
  | inr snapshot ↦ elim (Bool-cases (contains (not_default dbs) k)) [
    | inl later ↦
        let (there, other) = contains-not_default dbs k later in (ground (arith, there), other)
    | inr here ↦ (ground (arith, snapshot, here, h), ground (arith, snapshot, here, h))
  ]
]

-- `cleanup` asks to clear as many databases as are loaded beyond the bound, all of them loaded ones
-- and none of them the live graph.
pub victims-loaded :
    (max_active : ℕ) (access : Dict ℕ) (dbs : List String)
    → (length (victims max_active access dbs) ≡ length (not_default dbs) - max_active)
      × ((k : String)
          → contains (victims max_active access dbs) k ≡ true
          → (contains dbs k ≡ true) × ((k == "default") ≡ false))
unfolding victims
victims-loaded max_active access dbs =
    let snapshots = not_default dbs in
    elim (Bool-cases (leb (length snapshots) max_active)) [
      | inl fits ↦ rw (fits) (ground (arith, fits), λ k h. cc)
      | inr over ↦
          let size = length-sort_older access snapshots in
          rw (over) (
            length-take (length snapshots - max_active) (sort_older access snapshots)
                (omega (arith, size)),
            λ k h. contains-not_default dbs k (
                ground (
                  arith,
                  contains-sort_older access snapshots k,
                  contains-take (length snapshots - max_active) (sort_older access snapshots) k h,
                )),
          )
    ]
