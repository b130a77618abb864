-- ===== src/Schema/Registry/Labels.antt =====
-- `GetLabels`: the names from the base class to the type itself.
use mathlib.Core.Path.{subst}
use mathlib.Core.List.{append-nil, append_assoc}
use network_digital_twin_pla.Prelude.{
  ℕ, zero, suc, ◌<◌, ◌≡◌, ◌≢◌, refl, ◌∙◌, inl, inr, String, true, false, ◌||◌, List, [], ◌∷◌, ◌++◌,
  none, some, arith, ◌==◌, contains, length, length-append, sym, ap, Bool-cases, Option-cases,
}
use network_digital_twin_pla.Prelude.Dict.{Dict, lookup, keys}
use network_digital_twin_pla.Schema.Types.{EntityType}
use network_digital_twin_pla.Schema.Inheritance.Visited.{
  unvisited, unvisited-le-length, unvisited-lt, contains-keys_of_some,
}
use network_digital_twin_pla.Schema.Registry.{Registry, labels_loop, get_labels}

module _ (m : Dict EntityType) where
  -- The names of a type's line, from the base class on. A base class need not be registered.
  pub data Chain : String → List String → Type 0 where
    unregistered : {k : String} → lookup k m ≡ none → Chain k (k ∷ [])
    base :
        {k : String} {et : EntityType}
        → lookup k m ≡ some et
        → et.spec.extends ≡ ""
        → Chain k (k ∷ [])
    extend :
        {k : String} {et : EntityType} {names : List String}
        → lookup k m ≡ some et
        → et.spec.extends ≢ ""
        → Chain et.spec.extends names
        → Chain k (names ++ k ∷ [])

  Chain-unique : (k : String) {ns ms : List String} → Chain k ns → Chain k ms → ns ≡ ms
  Chain-unique k (unregistered e) (unregistered f) = refl
  Chain-unique k (unregistered e) (base f g) = cc
  Chain-unique k (unregistered e) (extend f n c) = cc
  Chain-unique k (base e z) (unregistered f) = cc
  Chain-unique k (base e z) (base f g) = refl
  Chain-unique k (base {et = a} e z) (extend {et = b} f n c) =
      let same : a ≡ b = cc in absurd (n (ap (λ (t : EntityType). t.spec.extends) (sym same) ∙ z))
  Chain-unique k (extend e n c) (unregistered f) = cc
  Chain-unique k (extend {et = a} e n c) (base {et = b} f z) =
      let same : a ≡ b = cc in absurd (n (ap (λ (t : EntityType). t.spec.extends) same ∙ z))
  Chain-unique k (extend {et = a} {names = ns} e n c) (extend {et = b} {names = ms} f n' d) =
      let same : a ≡ b = cc in
      let d' : Chain a.spec.extends ms =
        subst (λ (t : EntityType). Chain t.spec.extends ms) (sym same) d in
      ap (λ l. l ++ k ∷ []) (Chain-unique a.spec.extends c d')

  module _ (f : ℕ) (visited : List String) (current : String) (labels : List String) where
    loop_stop :
        (current == "" || contains visited current) ≡ true
        → labels_loop m (suc f) visited current labels ≡ some labels
    unfolding labels_loop
    loop_stop h = rw (h, labels_loop)

    loop_top :
        (current == "" || contains visited current) ≡ false
        → lookup current m ≡ none
        → labels_loop m (suc f) visited current labels ≡ some (current ∷ labels)
    unfolding labels_loop
    loop_top h e = rw (h, e, labels_loop)

    loop_up :
        (et : EntityType)
        → (current == "" || contains visited current) ≡ false
        → lookup current m ≡ some et
        → labels_loop m (suc f) visited current labels
          ≡ labels_loop m f (current ∷ visited) et.spec.extends (current ∷ labels)
    unfolding labels_loop
    loop_up et h e = rw (h, e, labels_loop)

  -- The loop ends, and keeps what it has collected.
  loop_total :
      (f : ℕ) (visited : List String) (current : String) (labels : List String)
      → unvisited visited (keys m) < f
      → (pre : List String) × (labels_loop m f visited current labels ≡ some (pre ++ labels))
  loop_total zero visited current labels h = elim h [ ]
  loop_total (suc f) visited current labels h =
      elim (Bool-cases (current == "" || contains visited current)) [
        | inl stop ↦ ([], loop_stop f visited current labels stop)
        | inr go ↦ elim (Option-cases (lookup current m)) [
          | inl e ↦ (current ∷ [], loop_top f visited current labels go e)
          | inr (et, e) ↦
              let (pre, r) = loop_total f (current ∷ visited) et.spec.extends (current ∷ labels) (
                omega (
                  arith,
                  unvisited-lt current visited (keys m) (contains-keys_of_some m current e)
                      (ground arith),
                )) in
              (
                pre ++ current ∷ [],
                loop_up f visited current labels et go e
                    ∙ r
                    ∙ ap some (sym (append_assoc pre (current ∷ []) labels)),
              )
        ]
      ]

  loop_empty :
      (f : ℕ) (visited labels : List String) {l : List String}
      → labels_loop m f visited "" labels ≡ some l
      → l ≡ labels
  unfolding labels_loop
  loop_empty zero visited labels h = cc
  loop_empty (suc f) visited labels h = cc (loop_stop f visited "" labels (ground arith))

  -- Each name visited has a longer chain than `ns`.
  abbrev Below : List String → List String → Type 0
  Below visited ns =
      (x : String)
      → contains visited x ≡ true
      → (ms : List String) × Chain x ms × (length ns < length ms)

  not_met :
      (visited : List String) (current : String) {ns : List String}
      → Chain current ns
      → current ≢ ""
      → Below visited ns
      → (current == "" || contains visited current) ≡ false
  not_met visited current c proper below = elim (Bool-cases (contains visited current)) [
    | inl met ↦
        let (ms, d, longer) = below current met in
        absurd (omega (arith, ap length (Chain-unique current c d)))
    | inr new ↦ ground arith
  ]

  Below-extend :
      (visited : List String) (current : String) (names : List String)
      → Chain current (names ++ current ∷ [])
      → Below visited (names ++ current ∷ [])
      → Below (current ∷ visited) names
  Below-extend visited current names c below x h = elim (Bool-cases (current == x)) [
    | inl same ↦
        let e : current ≡ x = ground arith in
        (
          names ++ current ∷ [],
          subst (λ y. Chain y (names ++ current ∷ [])) e c,
          omega (arith, length-append names (current ∷ [])),
        )
    | inr differ ↦
        let (ms, d, longer) = below x (ground arith) in
        (ms, d, omega (arith, length-append names (current ∷ [])))
  ]

  -- On a chain, what it adds is the chain.
  loop-Chain :
      (f : ℕ) (visited : List String) (current : String) (labels : List String) {ns l : List String}
      → Chain current ns
      → current ≢ ""
      → Below visited ns
      → labels_loop m f visited current labels ≡ some l
      → l ≡ ns ++ labels
  unfolding labels_loop
  loop-Chain zero visited current labels c proper below h = cc
  loop-Chain (suc f) visited current labels (unregistered e) proper below h =
      cc (
        loop_top f visited current labels (not_met visited current (unregistered e) proper below) e)
  loop-Chain (suc f) visited current labels {l = l} (base {et = et} e z) proper below h =
      loop_empty f (current ∷ visited) (current ∷ labels) (
        subst (λ p. labels_loop m f (current ∷ visited) p (current ∷ labels) ≡ some l) z
          (sym (
              loop_up f visited current labels et (not_met visited current (base e z) proper below)
                e)
            ∙ h))
  loop-Chain (suc f) visited current labels (extend {et = et} {names = ns} e n c) proper below h =
      loop-Chain f (current ∷ visited) et.spec.extends (current ∷ labels) c n
        (Below-extend visited current ns (extend e n c) below)
        (sym (
            loop_up f visited current labels et
              (not_met visited current (extend e n c) proper below) e)
          ∙ h)
      ∙ sym (append_assoc ns (current ∷ []) labels)

-- The labels of a type, whose name is not empty, are its chain: the base class first, the type itself last.
pub get_labels-Chain :
    (r : Registry) (kind : String) {names : List String}
    → Chain r.entity_types kind names
    → kind ≢ ""
    → get_labels r kind ≡ names
unfolding get_labels
get_labels-Chain r kind (unregistered e) proper = rw (e, get_labels)
get_labels-Chain r kind (base e z) proper = ground arith
get_labels-Chain r kind (extend {et = et} {names = ns} e n c) proper =
    let m = r.entity_types in
    let (pre, ended) =
      loop_total m (suc (suc (length (keys m)))) [] kind []
        (omega (arith, unvisited-le-length [] (keys m))) in
    let same : pre ++ [] ≡ (ns ++ kind ∷ []) ++ [] =
      loop-Chain m (suc (suc (length (keys m)))) [] kind [] (extend e n c) proper (λ x h. cc)
        ended in
    ground (arith, ended, same, append-nil (ns ++ kind ∷ []))

abbrev pub last : List String → String
last [] = ""
last (x ∷ []) = x
last (x ∷ y ∷ ys) = last (y ∷ ys)

last-snoc : (xs : List String) (x : String) → last (xs ++ x ∷ []) ≡ x
last-snoc [] x = refl
last-snoc (y ∷ []) x = refl
last-snoc (y ∷ z ∷ zs) x = last-snoc (z ∷ zs) x

-- The most specific label of a type is its own name, whatever its line of parents is.
pub last-get_labels : (r : Registry) (kind : String) → kind ≢ "" → last (get_labels r kind) ≡ kind
unfolding get_labels
last-get_labels r kind proper = elim (Option-cases (lookup kind m)) [
  | inl e ↦ rw (e, get_labels)
  | inr (et, e) ↦ elim (Bool-cases (et.spec.extends == "")) [
    | inl z ↦ ground arith
    | inr up ↦
        let (pre, ended) =
          loop_total m (suc (length (keys m))) (kind ∷ []) et.spec.extends (kind ∷ [])
            (omega (arith, unvisited-le-length (kind ∷ []) (keys m))) in
        ground (
          arith,
          loop_up m (suc (length (keys m))) [] kind [] et (ground arith) e,
          ended,
          last-snoc pre kind,
        )
  ]
]
  where
    m : Dict EntityType
    m = r.entity_types
