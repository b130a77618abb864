-- ===== src/Schema/Inheritance/Search.antt =====
-- One search of `detectCycle`, from one name along its ancestors.
use mathlib.Core.Path.{subst}
use network_digital_twin_pla.Prelude.{
  ℕ, zero, suc, ◌<◌, ◌≡◌, refl, ◌∙◌, ◌≢◌, inl, inr, String, true, false, List, [], ◌∷◌, none, some,
  arith, ◌==◌, contains, sym, Bool-cases, Option-cases, ap,
}
use network_digital_twin_pla.Prelude.Dict.{Dict, lookup, keys}
use network_digital_twin_pla.Schema.Inheritance.{
  Dfs, out_of_fuel, circular, done, remove, dfs, leave,
}
use network_digital_twin_pla.Schema.Inheritance.Visited.{
  unvisited, unvisited-lt, contains-keys_of_some,
}
use network_digital_twin_pla.Schema.Inheritance.Ancestors.{
  Reaches, parent_of, further, Grounded, top, up,
}

module _ (inheritance : Dict String) where
  -- What `in_stack` holds when `dfs` stands at `node`: names below it.
  abbrev pub Below : String → List String → Type 0
  Below node in_stack = (x : String) → contains in_stack x ≡ true → Reaches inheritance x node

  Below-step :
      (node p : String) (in_stack : List String)
      → lookup node inheritance ≡ some p
      → Below node in_stack
      → Below p (node ∷ in_stack)
  Below-step node p in_stack e below x h = elim (Bool-cases (x == node)) [
    | inl same ↦ let e' : x ≡ node = ground arith in parent_of (rw e' e)
    | inr differ ↦ further (below x (ground arith)) e
  ]

  leave-circular :
      (node n : String) (r : Dfs) → leave inheritance node r ≡ circular n → r ≡ circular n
  leave-circular node n (done v s) h = cc
  leave-circular node n r h = h

  leave-done :
      (node : String) (r : Dfs) {v s : List String}
      → leave inheritance node r ≡ done v s
      → (s' : List String) × (r ≡ done v s') × (s ≡ remove node s')
  leave-done node (done v s) h = (s, cc, cc)
  leave-done node out_of_fuel h = cc
  leave-done node (circular n) h = cc

  module _ (f : ℕ) (node : String) (visited in_stack : List String) where
    dfs_met :
        contains in_stack node ≡ true
        → dfs inheritance (suc f) node visited in_stack ≡ circular node
    unfolding dfs
    dfs_met h = rw (h, dfs)

    dfs_seen :
        contains in_stack node ≡ false
        → contains visited node ≡ true
        → dfs inheritance (suc f) node visited in_stack ≡ done visited in_stack
    unfolding dfs
    dfs_seen h k = rw (h, k, dfs)

    dfs_top :
        contains in_stack node ≡ false
        → contains visited node ≡ false
        → lookup node inheritance ≡ none
        → dfs inheritance (suc f) node visited in_stack
          ≡ done (node ∷ visited) (remove node (node ∷ in_stack))
    unfolding dfs
    dfs_top h k e = rw (h, k, e, dfs)

    dfs_up :
        (p : String)
        → contains in_stack node ≡ false
        → contains visited node ≡ false
        → lookup node inheritance ≡ some p
        → dfs inheritance (suc f) node visited in_stack
          ≡ leave inheritance node (dfs inheritance f p (node ∷ visited) (node ∷ in_stack))
    unfolding dfs
    dfs_up p h k e = rw (h, k, e, dfs)

  -- A name reported is its own ancestor.
  pub dfs-circular :
      (f : ℕ) (node n : String) (visited in_stack : List String)
      → Below node in_stack
      → dfs inheritance f node visited in_stack ≡ circular n
      → Reaches inheritance n n
  unfolding dfs
  dfs-circular zero node n visited in_stack below h = cc
  dfs-circular (suc f) node n visited in_stack below h =
      elim (Bool-cases (contains in_stack node)) [
        | inl met ↦
            let e : node ≡ n = cc (dfs_met f node visited in_stack met) in rw e at (below node met)
        | inr clear ↦ elim (Bool-cases (contains visited node)) [
          | inl seen ↦ cc (dfs_seen f node visited in_stack clear seen)
          | inr new ↦ elim (Option-cases (lookup node inheritance)) [
            | inl none_e ↦ cc (dfs_top f node visited in_stack clear new none_e)
            | inr (p, e) ↦
                dfs-circular f p n (node ∷ visited) (node ∷ in_stack)
                  (Below-step node p in_stack e below)
                  (leave-circular node n _ (sym (dfs_up f node visited in_stack p clear new e) ∙ h))
          ]
        ]
      ]

  -- Every name visited and left is grounded.
  abbrev pub Settled : List String → List String → Type 0
  Settled visited in_stack =
      (x : String)
      → contains visited x ≡ true
      → contains in_stack x ≡ false
      → Grounded inheritance x

  pub record Left (node : String) (visited in_stack visited' in_stack' : List String) : Type 0 where
    pub was_clear : contains in_stack node ≡ false
    pub restored : in_stack' ≡ in_stack
    pub settled : Settled visited' in_stack
    pub kept : (x : String) → contains visited x ≡ true → contains visited' x ≡ true
    pub entered : contains visited' node ≡ true

  remove_absent : (x : String) (xs : List String) → contains xs x ≡ false → remove x xs ≡ xs
  unfolding remove
  remove_absent x [] h = refl
  remove_absent x (y ∷ ys) h = ground (arith, remove_absent x ys)

  remove_head : (x : String) (xs : List String) → contains xs x ≡ false → remove x (x ∷ xs) ≡ xs
  unfolding remove
  remove_head x xs h = ground (arith, remove_absent x xs)

  Settled-step :
      (node : String) (visited in_stack : List String)
      → Settled visited (node ∷ in_stack)
      → Grounded inheritance node
      → Settled visited in_stack
  Settled-step node visited in_stack s g x hv hs = elim (Bool-cases (x == node)) [
    | inl same ↦ let e : x ≡ node = ground arith in rw e g
    | inr differ ↦ s x hv (ground arith)
  ]

  Settled-enter :
      (node : String) (visited in_stack : List String)
      → Settled visited in_stack
      → Settled (node ∷ visited) (node ∷ in_stack)
  Settled-enter node visited in_stack s x hv hs = s x (ground arith) (ground arith)

  -- A search that ends leaves its own path as it was, and has settled the name that it began at.
  pub dfs-done :
      (f : ℕ) (node : String) (visited in_stack : List String) {v s : List String}
      → Settled visited in_stack
      → dfs inheritance f node visited in_stack ≡ done v s
      → Left node visited in_stack v s
  unfolding dfs
  dfs-done zero node visited in_stack inv h = cc
  dfs-done (suc f) node visited in_stack {v} {s} inv h =
      elim (Bool-cases (contains in_stack node)) [
        | inl met ↦ cc (dfs_met f node visited in_stack met)
        | inr clear ↦ elim (Bool-cases (contains visited node)) [
          | inl seen ↦
              Left_seen clear seen (cc (dfs_seen f node visited in_stack clear seen))
                (cc (dfs_seen f node visited in_stack clear seen))
          | inr new ↦ elim (Option-cases (lookup node inheritance)) [
            | inl none_e ↦
                Left_top clear none_e (cc (dfs_top f node visited in_stack clear new none_e))
                  (cc (dfs_top f node visited in_stack clear new none_e))
            | inr (p, e) ↦
                let (s', below, back) =
                  leave-done node _ (sym (dfs_up f node visited in_stack p clear new e) ∙ h) in
                Left_up clear e back (
                  dfs-done f p (node ∷ visited) (node ∷ in_stack)
                    (Settled-enter node visited in_stack inv) below)
          ]
        ]
      ]
    where
      Left_seen :
          contains in_stack node ≡ false
          → contains visited node ≡ true
          → visited ≡ v
          → in_stack ≡ s
          → Left node visited in_stack v s
      Left_seen clear seen ev es = record {
        was_clear = clear;
        restored = sym es;
        settled = λ x hv hs. inv x (rw ev hv) hs;
        kept = λ x hx. rw (← ev) hx;
        entered = rw (← ev) seen;
      }

      Left_top :
          contains in_stack node ≡ false
          → lookup node inheritance ≡ none
          → node ∷ visited ≡ v
          → remove node (node ∷ in_stack) ≡ s
          → Left node visited in_stack v s
      Left_top clear e ev es = record {
        was_clear = clear;
        restored = sym es ∙ remove_head node in_stack clear;
        settled =
            Settled-step node v in_stack
              (λ x hv hs.
                Settled-enter node visited in_stack inv x
                  (subst (λ w. contains w x ≡ true) (sym ev) hv) hs)
              (top e);
        kept = λ x hx. rw (← ev) (ground arith);
        entered = rw (← ev) (ground arith);
      }

      Left_up :
          contains in_stack node ≡ false
          → {p : String} {s' : List String} → lookup node inheritance ≡ some p
          → s ≡ remove node s'
          → Left p (node ∷ visited) (node ∷ in_stack) v s'
          → Left node visited in_stack v s
      Left_up clear {p} {s'} e back l = record {
        was_clear = clear;
        restored = back ∙ ap (remove node) l.restored ∙ remove_head node in_stack clear;
        settled = Settled-step node v in_stack l.settled (up e (l.settled p l.entered l.was_clear));
        kept = λ x hx. l.kept x (ground arith);
        entered = l.kept node (ground arith);
      }

  -- The fuel is enough.
  pub dfs_total :
      (f : ℕ) (node : String) (visited in_stack : List String)
      → unvisited visited (keys inheritance) < f
      → dfs inheritance f node visited in_stack ≢ out_of_fuel
  unfolding dfs
  dfs_total zero node visited in_stack h e = elim h [ ]
  dfs_total (suc f) node visited in_stack h e = elim (Bool-cases (contains in_stack node)) [
    | inl met ↦ cc (dfs_met f node visited in_stack met)
    | inr clear ↦ elim (Bool-cases (contains visited node)) [
      | inl seen ↦ cc (dfs_seen f node visited in_stack clear seen)
      | inr new ↦ elim (Option-cases (lookup node inheritance)) [
        | inl none_e ↦ cc (dfs_top f node visited in_stack clear new none_e)
        | inr (p, found) ↦
            dfs_total f p (node ∷ visited) (node ∷ in_stack)
              (omega (
                arith,
                unvisited-lt node visited (keys inheritance)
                    (contains-keys_of_some inheritance node found) new,
              ))
              (leave-out _ (sym (dfs_up f node visited in_stack p clear new found) ∙ e))
      ]
    ]
  ]
    where
      leave-out : (r : Dfs) → leave inheritance node r ≡ out_of_fuel → r ≡ out_of_fuel
      leave-out (done v s) q = cc
      leave-out r q = q
