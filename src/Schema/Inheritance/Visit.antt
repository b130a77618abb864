-- ===== src/Schema/Inheritance/Visit.antt =====
-- One visit of `topoSort`, from a name along its ancestors, and what it leaves.
use mathlib.Core.Path.{subst}
use mathlib.Core.List.{append_assoc, append-nil}
use network_digital_twin_pla.Prelude.{
  ℕ, zero, suc, ◌<◌, ◌≡◌, refl, ◌⊎◌, inl, inr, String, true, false, List, [], ◌∷◌, ◌++◌, none, some,
  arith, ◌==◌, ◌||◌, contains, sym, Bool-cases, Option-cases,
}
use network_digital_twin_pla.Prelude.Dict.{Dict, lookup, keys}
use network_digital_twin_pla.Schema.Inheritance.{visit}
use network_digital_twin_pla.Schema.Inheritance.Visited.{
  unvisited, unvisited-lt, contains-keys_of_some,
}
use network_digital_twin_pla.Schema.Inheritance.Ancestors.{
  Reaches, parent_of, further, Grounded, top, up, Grounded-acyclic,
}

pub contains-append :
    (xs ys : List String) (k : String) → contains (xs ++ ys) k ≡ (contains xs k || contains ys k)
contains-append [] ys k = refl
contains-append (x ∷ xs) ys k = ground (arith, contains-append xs ys k)

module _ (inheritance : Dict String) where
  -- The names of the second list come after those of the first, each once and after its parent.
  abbrev pub Ordered : List String → List String → Type 0
  Ordered before [] = Unit
  Ordered before (x ∷ xs) =
      (contains before x ≡ false)
      × ((p : String) → lookup x inheritance ≡ some p → contains before p ≡ true)
      × Ordered (before ++ x ∷ []) xs

  Ordered-snoc :
      (before xs : List String) (x : String)
      → Ordered before xs
      → contains (before ++ xs) x ≡ false
      → ((p : String) → lookup x inheritance ≡ some p → contains (before ++ xs) p ≡ true)
      → Ordered before (xs ++ x ∷ [])
  Ordered-snoc before [] x o new parent = (
    subst (λ l. contains l x ≡ false) (append-nil before) new,
    λ p e. subst (λ l. contains l p ≡ true) (append-nil before) (parent p e),
    tt,
  )
  Ordered-snoc before (y ∷ xs) x o new parent = (
    o.0,
    o.1,
    Ordered-snoc (before ++ y ∷ []) xs x o.2
        (subst (λ l. contains l x ≡ false) (sym (append_assoc before (y ∷ []) xs)) new)
        (λ p e.
          subst (λ l. contains l p ≡ true) (sym (append_assoc before (y ∷ []) xs)) (parent p e)),
  )

  -- Before a visit of `node`: what is visited and not yet listed lies below it.
  pub record Before (node : String) (visited result : List String) : Type 0 where
    pub below :
        (x : String)
        → contains visited x ≡ true
        → (contains result x ≡ true) ⊎ Reaches inheritance x node
    pub listed_visited : (x : String) → contains result x ≡ true → contains visited x ≡ true
    pub ordered : Ordered [] result

  pub record After (node : String) (visited result visited' result' : List String) : Type 0 where
    pub listed : contains result' node ≡ true
    pub listed_visited : (x : String) → contains result' x ≡ true → contains visited' x ≡ true
    pub ordered : Ordered [] result'
    pub kept : (x : String) → contains result x ≡ true → contains result' x ≡ true
    pub pending :
        (x : String)
        → contains visited' x ≡ true
        → (contains result' x ≡ true) ⊎ ((contains visited x ≡ true) × (contains result x ≡ false))
    pub fresh :
        (x : String)
        → contains result' x ≡ true
        → (contains result x ≡ true) ⊎ (contains visited x ≡ false)
    pub visited_kept : (x : String) → contains visited x ≡ true → contains visited' x ≡ true

  module _ (f : ℕ) (node : String) (visited result : List String) where
    visit_seen :
        contains visited node ≡ true
        → visit inheritance (suc f) node (visited, result) ≡ some (visited, result)
    unfolding visit
    visit_seen h = rw (h, visit)

    visit_top :
        contains visited node ≡ false
        → lookup node inheritance ≡ none
        → visit inheritance (suc f) node (visited, result)
          ≡ some (node ∷ visited, result ++ node ∷ [])
    unfolding visit
    visit_top h e = rw (h, e, visit)

    visit_up :
        (p : String) {v r : List String}
        → contains visited node ≡ false
        → lookup node inheritance ≡ some p
        → visit inheritance f p (node ∷ visited, result) ≡ some (v, r)
        → visit inheritance (suc f) node (visited, result) ≡ some (v, r ++ node ∷ [])
    unfolding visit
    visit_up p h e k = rw (h, e, k, visit)

  module _ (node : String) (visited result : List String) (b : Before node visited result) where
    Before-parent :
        (p : String) → lookup node inheritance ≡ some p → Before p (node ∷ visited) result
    Before-parent p e = record {
      below = λ x h. elim (Bool-cases (node == x)) [
        | inl same ↦ let q : node ≡ x = ground arith in inr (parent_of (rw (← q) e))
        | inr differ ↦ elim (b.below x (ground arith)) [ inl l ↦ inl l | inr r ↦ inr (further r e) ]
      ];
      listed_visited = λ x h. ground (arith, b.listed_visited x h);
      ordered = b.ordered;
    }

    After-seen :
        Grounded inheritance node
        → contains visited node ≡ true
        → After node visited result visited result
    After-seen g seen = record {
      listed = elim (b.below node seen) [
        | inl l ↦ l
        | inr r ↦ absurd (Grounded-acyclic inheritance g r)
      ];
      listed_visited = b.listed_visited;
      ordered = b.ordered;
      kept = λ x h. h;
      pending = λ x h. elim (Bool-cases (contains result x)) [ inl l ↦ inl l | inr n ↦ inr (h, n) ];
      fresh = λ x h. inl h;
      visited_kept = λ x h. h;
    }

    not_listed : contains visited node ≡ false → contains result node ≡ false
    not_listed new = elim (Bool-cases (contains result node)) [
      | inl l ↦ cc (b.listed_visited node l)
      | inr n ↦ n
    ]

    -- The rest of a visit, once the parent is listed: `node` goes to the end.
    After-append :
        (v r : List String)
        → contains visited node ≡ false
        → contains r node ≡ false
        → ((p : String) → lookup node inheritance ≡ some p → contains r p ≡ true)
        → ((x : String) → contains r x ≡ true → contains v x ≡ true)
        → Ordered [] r
        → ((x : String) → contains result x ≡ true → contains r x ≡ true)
        → ((x : String)
            → contains v x ≡ true
            → (contains r x ≡ true)
              ⊎ ((contains (node ∷ visited) x ≡ true) × (contains result x ≡ false)))
        → ((x : String)
            → contains r x ≡ true
            → (contains result x ≡ true) ⊎ (contains (node ∷ visited) x ≡ false))
        → ((x : String) → contains (node ∷ visited) x ≡ true → contains v x ≡ true)
        → After node visited result v (r ++ node ∷ [])
    After-append v r new absent parents lv o kept pending fresh vk = record {
      listed = ground (arith, contains-append r (node ∷ []) node);
      listed_visited = λ x h. elim (Bool-cases (contains r x)) [
        | inl l ↦ lv x l
        | inr n ↦ vk x (ground (arith, contains-append r (node ∷ []) x))
      ];
      ordered = Ordered-snoc [] r node o absent parents;
      kept = λ x h. ground (arith, contains-append r (node ∷ []) x, kept x h);
      pending = λ x h. elim (pending x h) [
        | inl l ↦ inl (ground (arith, contains-append r (node ∷ []) x))
        | inr w ↦ elim (Bool-cases (node == x)) [
          | inl same ↦ inl (ground (arith, contains-append r (node ∷ []) x))
          | inr differ ↦ inr (ground arith, w.1)
        ]
      ];
      fresh = λ x h. elim (Bool-cases (contains r x)) [
        | inl l ↦ elim (fresh x l) [ inl old ↦ inl old | inr n ↦ inr (ground arith) ]
        | inr n ↦
            let e : node ≡ x = ground (arith, contains-append r (node ∷ []) x) in
            inr (subst (λ y. contains visited y ≡ false) e new)
      ];
      visited_kept = λ x h. vk x (ground arith);
    }

    After-top :
        contains visited node ≡ false
        → lookup node inheritance ≡ none
        → After node visited result (node ∷ visited) (result ++ node ∷ [])
    After-top new e =
        After-append (node ∷ visited) result new (not_listed new) (λ p q. cc)
          (λ x h. ground (arith, b.listed_visited x h)) b.ordered (λ x h. h)
          (λ x h. elim (Bool-cases (contains result x)) [ inl l ↦ inl l | inr n ↦ inr (h, n) ])
          (λ x h. inl h) (λ x h. h)

    After-up :
        (p : String) (v r : List String)
        → contains visited node ≡ false
        → lookup node inheritance ≡ some p
        → After p (node ∷ visited) result v r
        → After node visited result v (r ++ node ∷ [])
    After-up p v r new e a =
        After-append v r new absent
          (λ q f. let same : p ≡ q = cc in subst (λ y. contains r y ≡ true) same a.listed)
          a.listed_visited a.ordered a.kept a.pending a.fresh a.visited_kept
      where
        absent : contains r node ≡ false
        absent = elim (Bool-cases (contains r node)) [
          | inr n ↦ n
          | inl l ↦ elim (a.fresh node l) [ inl old ↦ cc (not_listed new) | inr n ↦ ground arith ]
        ]

  Grounded-parent :
      {x p : String}
      → Grounded inheritance x
      → lookup x inheritance ≡ some p
      → Grounded inheritance p
  Grounded-parent (top n) e = cc
  Grounded-parent {p = p} (up {y = y} f g) e =
      let same : y ≡ p = cc in subst (λ z. Grounded inheritance z) same g

  -- Enough fuel, and a line of ancestors that ends: the visit ends, and lists `node`.
  pub visit-After :
      (f : ℕ) (node : String) (visited result : List String)
      → unvisited visited (keys inheritance) < f
      → Grounded inheritance node
      → Before node visited result
      → (v r : List String) × (visit inheritance f node (visited, result) ≡ some (v, r))
        × After node visited result v r
  visit-After zero node visited result h g b = elim h [ ]
  visit-After (suc f) node visited result h g b = elim (Bool-cases (contains visited node)) [
    | inl seen ↦ (
      visited,
      result,
      visit_seen f node visited result seen,
      After-seen node visited result b g seen,
    )
    | inr new ↦ elim (Option-cases (lookup node inheritance)) [
      | inl e ↦ (
        node ∷ visited,
        result ++ node ∷ [],
        visit_top f node visited result new e,
        After-top node visited result b new e,
      )
      | inr (p, e) ↦
          let (v, r, ended, a) =
            visit-After f p (node ∷ visited) result
              (omega (
                arith,
                unvisited-lt node visited (keys inheritance)
                    (contains-keys_of_some inheritance node e) new,
              ))
              (Grounded-parent g e) (Before-parent node visited result b p e) in
          (
            v,
            r ++ node ∷ [],
            visit_up f node visited result p new e ended,
            After-up node visited result b p v r new e a,
          )
    ]
  ]
