-- ===== src/Snapshot/Diff/Archives.antt =====
-- The maps that `LocalDiff` builds, and the loops over them.

use mathlib.Core.List.{Memᴰ}
use mathlib.Core.Option.{or_else, some-injective}
use network_digital_twin_pla.Prelude.{
  ◌≡◌, refl, ◌∙◌, inl, inr, ◌↔◌, String, List, [], ◌∷◌, Option, none, some, arith, ◌==◌,
  if◌then◌else◌, Bool-cases, Option-cases, sym, String-discrete, ap,
}
use network_digital_twin_pla.Prelude.Dict.{
  Dict, lookup, insert, has, NodupKeys, lookup-insert, lookup-cons, lookup-nil, insert-NodupKeys,
}
use network_digital_twin_pla.Snapshot.Diff.{missing_values, index_by}

-- The last element with the key.
abbrev pub latest {ℓ} : {V : Type ℓ} → (V → String) → String → List V → Option V
latest key k [] = none
latest key k (x ∷ xs) = or_else (latest key k xs) (if k == key x then some x else none)

or_else-none {ℓ} : {V : Type ℓ} (o : Option V) → or_else o none ≡ o
unfolding or_else
or_else-none none = refl
or_else-none (some v) = refl

module _ {ℓ} {V : Type ℓ} where
  lookup-index_by :
      (key : V → String) (xs : List V) (m : Dict V) (k : String)
      → lookup k (index_by key xs m) ≡ or_else (latest key k xs) (lookup k m)
  unfolding index_by or_else
  lookup-index_by key [] m k = refl
  lookup-index_by key (x ∷ xs) m k =
      lookup-index_by key xs (insert (key x) x m) k ∙ ground (arith, lookup-insert k (key x) x m)

  pub index_by-NodupKeys :
      (key : V → String) (xs : List V) (m : Dict V) → NodupKeys m → NodupKeys (index_by key xs m)
  unfolding index_by
  index_by-NodupKeys key [] m u = u
  index_by-NodupKeys key (x ∷ xs) m u =
      index_by-NodupKeys key xs (insert (key x) x m) (insert-NodupKeys (key x) x m u)

  pub key_of_latest :
      (key : V → String) (xs : List V) (k : String) (x : V) → latest key k xs ≡ some x → key x ≡ k
  unfolding or_else
  key_of_latest key [] k x e = cc
  key_of_latest key (y ∷ xs) k x e = elim (Option-cases (latest key k xs)) [
    | inr (z, later) ↦ key_of_latest key xs k x (ground (arith, later, e))
    | inl last ↦ elim (Bool-cases (k == key y)) [
      | inl same ↦
          let here : some y ≡ some x = ground (arith, last, same, e) in
          let q : k ≡ key y = ground arith in cc (here, q)
      | inr differ ↦ absurd (ground (arith, last, differ, e))
    ]
  ]

  -- The values that `f` makes of the entries of a map.
  unfoldable pub collect {κ} : {C : Type κ} → (String → V → Option C) → Dict V → List C
  collect f [] = []
  collect f ((k, v) ∷ m) =
      let rest = collect f m in elim (f k v) [ none ↦ rest | some c ↦ c ∷ rest ]

  later_entry :
      (j k : String) (v w : V) (m : Dict V)
      → lookup j m ≡ none
      → lookup k m ≡ some w
      → lookup k ((j, v) ∷ m) ≡ some w
  later_entry j k v w m fresh found = elim (String-discrete k j) [
    | yes same ↦ cc (ap (λ x. lookup x m) same)
    | no differ ↦ lookup-cons k j v m ∙ ground (arith, found)
  ]

  pub Memᴰ-collect {κ} :
      {C : Type κ} (f : String → V → Option C) (m : Dict V) (c : C)
      → NodupKeys m
      → Memᴰ c (collect f m)
      → (k : String) × (v : V) × (lookup k m ≡ some v) × (f k v ≡ some c)
  unfolding collect
  Memᴰ-collect f [] c u h = elim h [ ]
  Memᴰ-collect {C = C} f ((j, v) ∷ m) c (fresh, u) h =
      go (f j v) refl
        (λ t.
          let (k, w, found, made) = Memᴰ-collect f m c u t in
          (k, w, later_entry j k v w m fresh found, made))
        h
    where
      Made : Dict V → Type (ℓ ⊔ κ)
      Made d = (k : String) × (w : V) × (lookup k d ≡ some w) × (f k w ≡ some c)

      go :
          (o : Option C)
          → f j v ≡ o
          → (Memᴰ c (collect f m) → Made ((j, v) ∷ m))
          → Memᴰ c (elim o [ none ↦ collect f m | some d ↦ d ∷ collect f m ])
          → Made ((j, v) ∷ m)
      go none e rest t = rest t
      go (some d) e rest (Memᴰ.head same) =
          (j, v, lookup-cons j j v m ∙ ground arith, e ∙ ap some (sym same))
      go (some d) e rest (Memᴰ.tail t) = rest t

  pub collect-Memᴰ {κ} :
      {C : Type κ} (f : String → V → Option C) (m : Dict V) (c : C) (k : String) (v : V)
      → lookup k m ≡ some v
      → f k v ≡ some c
      → Memᴰ c (collect f m)
  unfolding collect lookup
  collect-Memᴰ f [] c k v found made = cc
  collect-Memᴰ {C = C} f ((j, w) ∷ m) c k v found made = elim (String-discrete k j) [
    | yes same ↦
        let this : some w ≡ some v = ground (arith, found, same) in
        let here : f j w ≡ some c = cc (some-injective w v this, same, made) in
        rw (here, collect) (Memᴰ.head refl)
    | no differ ↦
        let below : lookup k m ≡ some v = ground (arith, found) in
        let rest = collect-Memᴰ f m c k v below made in
        elim (Option-cases (f j w)) [
          | inl e ↦ rw (e, collect) rest
          | inr (d, e) ↦ rw (e, collect) (Memᴰ.tail rest)
        ]
  ]

module _ {ℓ} {V : Type ℓ} where
  -- The two kinds of loops of `LocalDiff` as one.
  abbrev absent {κ} : {W : Type κ} → Dict W → String → V → Option V
  absent other k v = if has k other then none else some v

  missing_values-collect {κ} :
      {W : Type κ} (other : Dict W) (m : Dict V) → missing_values other m ≡ collect (absent other) m
  unfolding missing_values collect
  missing_values-collect other [] = refl
  missing_values-collect other ((k, v) ∷ m) = elim (Bool-cases (has k other)) [
    | inl there ↦ rw (there, collect) (missing_values-collect other m)
    | inr gone ↦ rw (gone, collect) (ap (λ l. v ∷ l) (missing_values-collect other m))
  ]

  pub missing_values-Memᴰ {κ} :
      {W : Type κ} (other : Dict W) (m : Dict V) (v : V)
      → NodupKeys m
      → Memᴰ v (missing_values other m)
        ↔ ((k : String) × (lookup k m ≡ some v) × (lookup k other ≡ none))
  missing_values-Memᴰ other m v u = rw (missing_values-collect other m) (
    (λ t.
        let (k, w, found, made) = Memᴰ-collect (absent other) m v u t in
        elim (Option-cases (lookup k other)) [
          | inl gone ↦
              let same : some w ≡ some v = ground (arith, gone, made) in (k, found ∙ same, gone)
          | inr (x, there) ↦ absurd (ground (arith, there, made))
        ]),
    (λ (k, found, gone). collect-Memᴰ (absent other) m v k v found (ground (arith, gone))),
  )

  pub lookup-index :
      (key : V → String) (xs : List V) (k : String)
      → lookup k (index_by key xs []) ≡ latest key k xs
  lookup-index key xs k =
      lookup-index_by key xs [] k
      ∙ ap (or_else (latest key k xs)) (lookup-nil k)
      ∙ or_else-none (latest key k xs)

  -- What one archive has and the other lacks.
  pub missing_values-latest :
      (key : V → String) (xs ys : List V) (v : V)
      → Memᴰ v (missing_values (index_by key ys []) (index_by key xs []))
        ↔ ((latest key (key v) xs ≡ some v) × (latest key (key v) ys ≡ none))
  missing_values-latest key xs ys v =
      let both =
        missing_values-Memᴰ (index_by key ys []) (index_by key xs []) v
          (index_by-NodupKeys key xs [] tt) in
      (
        λ t.
            let (k, found, gone) = both.0 t in
            let last : latest key k xs ≡ some v = sym (lookup-index key xs k) ∙ found in
            let none_there : latest key k ys ≡ none = sym (lookup-index key ys k) ∙ gone in
            let same = key_of_latest key xs k v last in
            (ap (λ j. latest key j xs) same ∙ last, ap (λ j. latest key j ys) same ∙ none_there),
        λ (last, gone).
            both.1 (key v, lookup-index key xs (key v) ∙ last, lookup-index key ys (key v) ∙ gone),
      )
