-- ===== src/Graph/Driver/Statements.antt =====
-- What a list of statements sends, and what the driver's loops over groups send.
use mathlib.Core.List.{append_assoc, map-append, perm_append_comm}
use mathlib.Core.List.{Perm, Permᴰ}
use mathlib.Core.List.Perm
use mathlib.Core.Logic.{∥∥₁_elim, ∥∥₁_prop}
use network_digital_twin_pla.Prelude.{
  ◌≡◌, ◌≢◌, refl, sym, ap, ◌∙◌, String, List, [], ◌∷◌, ◌++◌, map, Option, some, Result, ok, err,
  All,
}
use network_digital_twin_pla.Prelude.Dict.{Dict}
use network_digital_twin_pla.Value.{Props}
use network_digital_twin_pla.Graph.Groups.{
  group_loop, kept, flat, Grouped, flat-group_loop, group_loop-Grouped,
}
use network_digital_twin_pla.Graph.Driver.{
  Param, text, number, texts, maps, Statement, Session, then_write, run_each,
}

-- All maps among the parameters.
abbrev pub all_maps : Dict Param → List Props
all_maps [] = []
all_maps ((_, maps ms) ∷ params) = ms ++ all_maps params
all_maps ((_, text _) ∷ params) = all_maps params
all_maps ((_, number _) ∷ params) = all_maps params
all_maps ((_, texts _) ∷ params) = all_maps params

-- The maps that a statement sends, each with its text.
abbrev pub sent : Statement → List (String × Props)
sent st = map {B = String × Props} (λ m. (st.cypher, m)) (all_maps st.params)

unfoldable pub sent_all : List Statement → List (String × Props)
sent_all [] = []
sent_all (st ∷ ss) = sent st ++ sent_all ss

module _ {B : Type 0} where
  pub sent-maps :
      (t : String) (data_of : B → Props) (text_of : B → String) (bs : List B)
      → All (λ (b : B). text_of b ≡ t) bs
      → map {B = String × Props} (λ m. (t, m)) (map data_of bs ++ [])
        ≡ map {B = String × Props} (λ b. (text_of b, data_of b)) bs
  sent-maps t data_of text_of [] all = refl
  sent-maps t data_of text_of (b ∷ bs) (e, all) = rw (e, sent-maps t data_of text_of bs all) refl

  module _ (make : String → List B → Statement) where
    abbrev pub statements : Dict (List B) → List Statement
    statements [] = []
    statements ((k, bs) ∷ groups) = make k bs ∷ statements groups

    statements-map : (groups : Dict (List B)) → statements groups ≡ map (λ e. make e.0 e.1) groups
    statements-map [] = refl
    statements-map (e ∷ groups) = ap (λ l. make e.0 e.1 ∷ l) (statements-map groups)

sent_all-Permᴰ : {ss ts : List Statement} → Permᴰ ss ts → Perm (sent_all ss) (sent_all ts)
unfolding sent_all
sent_all-Permᴰ Permᴰ.nil = Perm.refl []
sent_all-Permᴰ (Permᴰ.cons {a = a} {b = b} e p) =
    rw e (Perm.append_left (sent b) (sent_all-Permᴰ p))
sent_all-Permᴰ (Permᴰ.swap {a' = a'} {b' = b'} {l = l} e e') =
    rw
      (
        e,
        e',
        ← append_assoc (sent b') (sent a') (sent_all l),
        ← append_assoc (sent a') (sent b') (sent_all l),
      )
      (Perm.append_right (sent_all l) (perm_append_comm (sent b') (sent a')))
sent_all-Permᴰ (Permᴰ.trans p q) = Perm.trans (sent_all-Permᴰ p) (sent_all-Permᴰ q)

sent_all-Perm : {ss ts : List Statement} → Perm ss ts → Perm (sent_all ss) (sent_all ts)
sent_all-Perm {ss} {ts} p = ∥∥₁_elim p ∥∥₁_prop sent_all-Permᴰ

pub sent_all-append : (ss ts : List Statement) → sent_all (ss ++ ts) ≡ sent_all ss ++ sent_all ts
unfolding sent_all
sent_all-append [] ts = refl
sent_all-append (st ∷ ss) ts =
    ap (λ l. sent st ++ l) (sent_all-append ss ts)
    ∙ sym (append_assoc (sent st) (sent_all ss) (sent_all ts))

module _ {A B : Type 0} (key : A → Option (String × B)) (make : String → List B → Statement)
    (what : B → String × Props) (P : String → B → Type 0) where
  -- The statement of a group sends what its members stand for.
  abbrev pub SendsGroup : Type 0
  SendsGroup = (k : String) (bs : List B) → bs ≢ [] → All (P k) bs → sent (make k bs) ≡ map what bs

  sent_all-statements :
      SendsGroup
      → (groups : Dict (List B)) → Grouped P groups
      → sent_all (statements make groups) ≡ map what (flat groups)
  unfolding sent_all flat
  sent_all-statements h [] all = refl
  sent_all-statements h ((k, bs) ∷ groups) ((some_, alike), all) =
      rw (h k bs some_ alike, sent_all-statements h groups all)
        (sym (map-append what bs (flat groups)))

  -- Whatever the order of the groups, their statements send what all elements stand for.
  pub group_loop-sent :
      SendsGroup
      → (xs : List A) → All (λ (a : A). (k : String) (b : B) → key a ≡ some (k, b) → P k b) xs
      → (groups : Dict (List B)) → Perm groups (group_loop key [] xs)
      → Perm (sent_all (statements make groups)) (map what (kept key xs))
  unfolding flat
  group_loop-sent h xs hs groups p =
      let mk = λ (e : String × List B). make e.0 e.1 in
      let grouped = group_loop key [] xs in
      let reordered : Perm (sent_all (statements make groups))
          (sent_all (statements make grouped)) =
        rw (statements-map make groups, statements-map make grouped)
          (sent_all-Perm (Perm.map mk p)) in
      let all = group_loop-Grouped key P [] xs hs tt in
      Perm.trans reordered
        (rw (sent_all-statements h grouped all) (Perm.map what (flat-group_loop key [] xs)))

module _ {G E : Type 0} (session : Session G E) where
  -- The statements are run one after the other, up to the first that fails.
  unfoldable pub run_all : List Statement → G → Result E (Unit {0}) × G
  run_all [] g = (ok tt, g)
  run_all (st ∷ ss) g = then_write (session.write st g) (λ g'. run_all ss g')

  then_write_cong :
      (w : Result E (Unit {0}) × G) (f h : G → Result E (Unit {0}) × G)
      → ((g : G) → f g ≡ h g)
      → then_write w f ≡ then_write w h
  then_write_cong (ok _, g) f h same = same g
  then_write_cong (err e, g) f h same = refl

  then_write_assoc :
      (w : Result E (Unit {0}) × G) (f h k : G → Result E (Unit {0}) × G)
      → ((g : G) → then_write (f g) h ≡ k g)
      → then_write (then_write w f) h ≡ then_write w k
  then_write_assoc (ok _, g) f h k same = same g
  then_write_assoc (err e, g) f h k same = refl

  module _ {B : Type 0} (make : String → List B → Statement) where
    pub run_each-run_all :
        (groups : Dict (List B)) (g : G)
        → run_each session make groups g ≡ run_all (statements make groups) g
    unfolding run_each run_all
    run_each-run_all [] g = refl
    run_each-run_all ((k, bs) ∷ groups) g =
        then_write_cong (session.write (make k bs) g) (run_each session make groups)
          (run_all (statements make groups)) (run_each-run_all groups)

    pub run_each-append :
        (next : G → Result E (Unit {0}) × G) (ss : List Statement)
        → ((g : G) → next g ≡ run_all ss g)
        → (groups : Dict (List B)) (g : G)
        → then_write (run_each session make groups g) next
          ≡ run_all (statements make groups ++ ss) g
    unfolding run_each run_all
    run_each-append next ss same [] g = same g
    run_each-append next ss same ((k, bs) ∷ groups) g =
        then_write_assoc (session.write (make k bs) g) (run_each session make groups) next
          (run_all (statements make groups ++ ss)) (run_each-append next ss same groups)

  -- Two loops, the second one after the first.
  pub run_each-run_each :
      {B C : Type 0} (make : String → List B → Statement) (make' : String → List C → Statement)
      (groups : Dict (List B)) (groups' : Dict (List C)) (g : G)
      → then_write (run_each session make groups g) (run_each session make' groups')
        ≡ run_all (statements make groups ++ statements make' groups') g
  run_each-run_each make make' groups groups' g =
      run_each-append make (run_each session make' groups') (statements make' groups')
        (run_each-run_all make' groups') groups g
