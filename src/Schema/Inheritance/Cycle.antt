-- ===== src/Schema/Inheritance/Cycle.antt =====
-- `detectCycle` decides whether a name is its own ancestor.
use mathlib.Core.Path.{subst}
use network_digital_twin_pla.Prelude.{
  ℕ, ◌<◌, ◌≡◌, refl, ◌∙◌, ◌⊎◌, inl, inr, String, true, List, [], ◌∷◌, arith, ◌==◌, contains, length,
  Bool-cases, Option-cases, ap,
}
use network_digital_twin_pla.Prelude.Dict.{Dict, lookup, keys}
use network_digital_twin_pla.Text.Sort.{sort, contains-sort}
use network_digital_twin_pla.Schema.Inheritance.{
  Dfs, out_of_fuel, circular, done, dfs, dfs_all, enough_fuel, detect_cycle,
}
use network_digital_twin_pla.Schema.Inheritance.Visited.{unvisited-le-length, contains-keys_of_some}
use network_digital_twin_pla.Schema.Inheritance.Ancestors.{Reaches, Grounded, top, Grounded-acyclic}
use network_digital_twin_pla.Schema.Inheritance.Search.{
  Settled, Left, dfs-circular, dfs-done, dfs_total,
}

module _ (inheritance : Dict String) where
  record Covers (nodes visited : List String) (r : Dfs) : Type 0 where
    names : List String
    ended : r ≡ done names []
    settled : Settled inheritance names []
    kept : (x : String) → contains visited x ≡ true → contains names x ≡ true
    covered : (x : String) → contains nodes x ≡ true → contains names x ≡ true

  abbrev Answers : List String → List String → Dfs → Type 0
  Answers nodes visited r =
      ((n : String) × (r ≡ circular n) × Reaches inheritance n n) ⊎ Covers nodes visited r

  module _ (f : ℕ) (fuel : length (keys inheritance) < f) where
    dfs_all-Answers :
        (nodes visited : List String)
        → Settled inheritance visited []
        → Answers nodes visited (dfs_all inheritance f nodes visited [])
    unfolding dfs_all
    dfs_all-Answers [] visited inv = inr (record {
      names = visited;
      ended = refl;
      settled = inv;
      kept = λ x h. h;
      covered = λ x h. cc;
    })
    dfs_all-Answers (node ∷ nodes) visited inv =
        go (dfs inheritance f node visited []) refl (dfs_all-Answers nodes)
      where
        Covers_cons :
            {v : List String}
            → Left inheritance node visited [] v []
            → Covers nodes v (dfs_all inheritance f nodes v [])
            → Covers (node ∷ nodes) visited (dfs_all inheritance f nodes v [])
        Covers_cons l c = record {
          names = c.names;
          ended = c.ended;
          settled = c.settled;
          kept = λ x h. c.kept x (l.kept x h);
          covered = λ x h. elim (Bool-cases (node == x)) [
            | inl same ↦
                let e : node ≡ x = ground arith in
                subst (λ y. contains c.names y ≡ true) e (c.kept node l.entered)
            | inr differ ↦ c.covered x (ground arith)
          ];
        }

        go :
            (r : Dfs)
            → dfs inheritance f node visited [] ≡ r
            → ((v : List String)
                → Settled inheritance v []
                → Answers nodes v (dfs_all inheritance f nodes v []))
            → Answers (node ∷ nodes) visited (dfs_all inheritance f (node ∷ nodes) visited [])
        go out_of_fuel e rest = absurd (
            dfs_total inheritance f node visited []
              (omega (arith, unvisited-le-length visited (keys inheritance))) e)
        go (circular n) e rest =
            inl (n, rw (e, dfs_all), dfs-circular inheritance f node n visited [] (λ x h. cc) e)
        go (done v s) e rest =
            let l = dfs-done inheritance f node visited [] inv e in
            let l' : Left inheritance node visited [] v [] =
              subst (λ t. Left inheritance node visited [] v t) l.restored l in
            let e' : dfs inheritance f node visited [] ≡ done v [] = e ∙ ap (done v) l.restored in
            rw (e', dfs_all)
              (elim (rest v l'.settled) [ inl found ↦ inl found | inr c ↦ inr (Covers_cons l' c) ])

  -- `detectCycle` always ends. What it reports is its own ancestor; if it reports nothing, the line
  -- of ancestors of every name ends, and no name is its own ancestor.
  pub detect_cycle_decides :
      ((n : String) × (detect_cycle inheritance ≡ circular n) × Reaches inheritance n n)
      ⊎ ((names : List String) × (detect_cycle inheritance ≡ done names [])
          × ((x : String) → Grounded inheritance x)
          × ((x : String) → ¬ Reaches inheritance x x))
  unfolding detect_cycle
  detect_cycle_decides =
      elim (dfs_all-Answers (enough_fuel inheritance) (omega arith) (sort (keys inheritance)) []
        (λ x h k. cc)) [
          | inl found ↦ inl found
          | inr c ↦ inr (
            c.names,
            c.ended,
            all_grounded c,
            λ x. Grounded-acyclic inheritance (all_grounded c x),
          )
        ]
    where
      all_grounded :
          Covers (sort (keys inheritance)) [] (detect_cycle inheritance)
          → (x : String) → Grounded inheritance x
      all_grounded c x = elim (Option-cases (lookup x inheritance)) [
        | inl e ↦ top e
        | inr (p, e) ↦
            c.settled x
              (c.covered x
                (contains-sort (keys inheritance) x ∙ contains-keys_of_some inheritance x e))
              refl
      ]
