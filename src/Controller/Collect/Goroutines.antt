-- ===== src/Controller/Collect/Goroutines.antt =====
-- The goroutines that collect, in any order of their steps.
use mathlib.Core.List.{append_assoc, append-nil, perm_append_comm}
use mathlib.Core.List.{Perm}
use mathlib.Core.List.Perm
use mathlib.Core.Path.{subst}
use network_digital_twin_pla.Prelude.{
  ◌≤◌, ◌≡◌, ◌≢◌, refl, ◌∙◌, sym, ap, ◌⊎◌, inl, inr, true, false, List, [], ◌∷◌, ◌++◌, Option, none,
  some, length, length-append, arith, Bool-cases, Option-cases, ◌==◌, if◌then◌else◌,
}
use network_digital_twin_pla.Normalizer.{Resource}
use network_digital_twin_pla.Controller.Client.{DeviceInfo}
use network_digital_twin_pla.Controller.Collect.{
  Collection, start, Step, skips, starts, finishes, panics, Reachable, here, next,
}

module _ {A : Type 0} where
  swap_first : (g x w : List A) → Perm ((g ++ x) ++ w) (x ++ (g ++ w))
  swap_first g x w =
      subst (λ l. Perm ((g ++ x) ++ w) l) (append_assoc x g w)
        (Perm.append_right w (perm_append_comm g x))

  append_middle :
      (r g b a w : List A) → Perm ((r ++ g) ++ ((b ++ a) ++ w)) (r ++ ((b ++ (g ++ a)) ++ w))
  append_middle r g b a w =
      let first : (r ++ g) ++ ((b ++ a) ++ w) ≡ r ++ (((g ++ b) ++ a) ++ w) = simp append_assoc in
      rw first (Perm.append_left r (Perm.append_right w (swap_first g b a)))

module _ (gather : DeviceInfo → Option (List Resource)) where
  abbrev gathered : DeviceInfo → List Resource
  gathered d = elim (gather d) [ none ↦ [] | some rs ↦ rs ]

  -- What devices give, in their order, those without a name left out.
  abbrev pub all_of : List DeviceInfo → List Resource
  all_of [] = []
  all_of (d ∷ ds) = (if d.name == "" then [] else gathered d) ++ all_of ds

  abbrev running_of : List DeviceInfo → List Resource
  running_of [] = []
  running_of (d ∷ ds) = gathered d ++ running_of ds

  running_of-append :
      (xs ys : List DeviceInfo) → running_of (xs ++ ys) ≡ running_of xs ++ running_of ys
  running_of-append [] ys = refl
  running_of-append (x ∷ xs) ys =
      ap (λ l. gathered x ++ l) (running_of-append xs ys)
      ∙ sym (append_assoc (gathered x) (running_of xs) (running_of ys))

  -- At most five goroutines run, and what has been appended, what they will append and what the waiting
  -- devices will give are all resources.
  pub record IsPartial (devices : List DeviceInfo) (s : Collection) : Type 0 where
    pub bounded : length s.running ≤ 5
    pub complete : Perm (s.resources ++ (running_of s.running ++ all_of s.waiting)) (all_of devices)

  -- A panic, or a collection in progress.
  abbrev Partial : List DeviceInfo → Option Collection → Type 0
  Partial devices none = Unit
  Partial devices (some s) = IsPartial devices s

  Step-Partial :
      (devices : List DeviceInfo) (s : Collection) (t : Option Collection)
      → IsPartial devices s
      → Step gather s t
      → Partial devices t
  Step-Partial devices s t h (skips {d = d} nameless) =
      let nothing : (d.name == "") ≡ true = ground arith in
      record { bounded = h.bounded; complete = rw nothing at h.complete }
  Step-Partial devices s t h (starts {d = d} {ds = ds} {running = running} {rs = rs} named free) =
      let name : (d.name == "") ≡ false = ground arith in
      record {
        bounded = omega arith;
        complete =
            Perm.trans
              (Perm.append_left rs (swap_first (gathered d) (running_of running) (all_of ds)))
              (rw name at h.complete);
      }
  Step-Partial devices s t h
        (finishes {waiting = waiting} {running = running} {rs = rs} {got = got} before after d e
          g) =
      let split = running_of-append before (d ∷ after) in
      let is_got : gathered d ≡ got = rw (gathered, g) refl in
      record {
        bounded = omega (
          arith,
          h.bounded,
          ap length e,
          length-append before (d ∷ after),
          length-append before after,
        );
        complete = rw (running_of-append before after) (
            Perm.trans
              (append_middle rs got (running_of before) (running_of after) (all_of waiting))
              (rw (e, split, is_got) at h.complete));
      }
  Step-Partial devices s t h (panics before after d e g) = tt

  Reachable-Partial :
      (devices : List DeviceInfo) (s : Collection) (t : Option Collection)
      → IsPartial devices s
      → Reachable gather s t
      → Partial devices t
  Reachable-Partial devices s t h here = h
  Reachable-Partial devices s t h (next {t = m} r step) =
      Step-Partial devices m t (Reachable-Partial devices s (some m) h r) step

  start-IsPartial : (devices : List DeviceInfo) → IsPartial devices (start devices)
  start-IsPartial devices = record { bounded = omega arith; complete = Perm.refl (all_of devices) }

  -- A device waits, or a goroutine runs.
  abbrev IsBusy : Collection → Type 0
  IsBusy s = (s.waiting ≢ []) ⊎ (s.running ≢ [])

  running_steps :
      (d : DeviceInfo) (waiting running : List DeviceInfo) (rs : List Resource)
      → (t : Option Collection) × Step gather
          (record { waiting = waiting; running = d ∷ running; resources = rs })
          t
  running_steps d waiting running rs = elim (Option-cases (gather d)) [
    | inl none_ ↦ (none, panics [] running d refl none_)
    | inr (got, e) ↦ (
      some (record { waiting = waiting; running = running; resources = rs ++ got }),
      finishes [] running d refl e,
    )
  ]

  -- A collection that is busy can go on.
  steps :
      (waiting running : List DeviceInfo) (rs : List Resource)
      → IsBusy (record { waiting = waiting; running = running; resources = rs })
      → (t : Option Collection) × Step gather
          (record { waiting = waiting; running = running; resources = rs })
          t
  steps waiting (d ∷ running) rs busy = running_steps d waiting running rs
  steps [] [] rs (inl h) = absurd (h refl)
  steps [] [] rs (inr h) = absurd (h refl)
  steps (d ∷ waiting) [] rs busy = elim (Bool-cases (d.name == "")) [
    | inl nameless ↦
        (some (record { waiting = waiting; running = []; resources = rs }), skips (ground arith))
    | inr named ↦ (
      some (record { waiting = waiting; running = d ∷ []; resources = rs }),
      starts (λ e. ground arith) (omega arith),
    )
  ]

  -- In any order of the goroutines' steps, at most five run at a time, and none waits for ever: a
  -- collection that is not over has a step. One that is over, unless a goroutine panics, has the resources
  -- of all devices that have a name, each as often as they gave it; only their order is left open.
  pub Reachable-collects :
      (devices : List DeviceInfo) (s : Collection)
      → Reachable gather (start devices) (some s)
      → (length s.running ≤ 5)
        × (IsBusy s → (t : Option Collection) × Step gather s t)
        × (s.waiting ≡ [] → s.running ≡ [] → Perm s.resources (all_of devices))
  Reachable-collects devices s r =
      let h : IsPartial devices s =
        Reachable-Partial devices (start devices) (some s) (start-IsPartial devices) r in
      (
        h.bounded,
        steps s.waiting s.running s.resources,
        λ e e'. rw (e, e', append-nil s.resources) at h.complete,
      )
