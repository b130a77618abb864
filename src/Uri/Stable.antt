-- ===== src/Uri/Stable.antt =====
-- When `GenerateURI` succeeds, and on what its result depends.
use text.Mathlib.TextLemmas.{append-eq-nil_iff, cons-ne-nil}
use mathlib.Core.Option.{some-injective}
use network_digital_twin_pla.Prelude.{
  ℕ, ◌≡◌, ◌≢◌, refl, ◌∙◌, inl, inr, String, ◌<>◌, true, false, List, [], ◌∷◌, Option, none, some,
  ok, ◌==◌, All, arith, sym, ap, Result-cases,
}
use network_digital_twin_pla.Prelude.Dict.{lookup}
use network_digital_twin_pla.Text.{replace_all, decimal-ne-nil}
use network_digital_twin_pla.Value.{
  Value, null, str, int, float32, float64, bool, strings, array, object, other, pos, negsuc, Props,
  Host, sprint,
}
use network_digital_twin_pla.Schema.Validator.Conforms.{IsGiven}
use network_digital_twin_pla.Uri.{key_text, fill_template, generate_uri}

ne_test : {s t : String} → s ≢ t → (s == t) ≡ false
ne_test n = ground arith

prefix_nil : (s t : String) → s <> t ≡ "" → s ≡ ""
prefix_nil s t e = ((append-eq-nil_iff {p = s} {q = t}).0 e).0

module _ (host : Host) where
  -- Maps that agree on the stable keys have the same URI, whatever else they hold.
  pub generate_uri_stable :
      (template : String) (keys : List String) (props props' : Props)
      → All (λ key. lookup key props ≡ lookup key props') keys
      → generate_uri host template keys props ≡ generate_uri host template keys props'
  unfolding generate_uri
  generate_uri_stable template [] props props' same = refl
  generate_uri_stable template (key ∷ keys) props props' (e, rest) =
      elim (Result-cases (key_text host key (lookup key props'))) [
        | inl (text, q) ↦
            rw (e, q, fill_template)
              (generate_uri_stable (replace_all template ("{" <> key <> "}") text) keys props props'
                rest)
        | inr (x, q) ↦ rw (e, q, fill_template) refl
      ]

  -- `%v` of a float or of a value of a further type is not empty.
  pub record PrintsText : Type 0 where
    pub text32 : (x : ℕ) → host.text32 x ≢ ""
    pub text64 : (x : ℕ) → host.text64 x ≢ ""
    pub text_other : (n : ℕ) → host.text_other n ≢ ""

  sprint-ne-nil : PrintsText → (v : Value) → v ≢ str "" → sprint host v ≢ ""
  unfolding sprint
  sprint-ne-nil h null n = λ e. cons-ne-nil _ _ e
  sprint-ne-nil h (str s) n = λ e. n (ap str e)
  sprint-ne-nil h (int k (pos m)) n = decimal-ne-nil m
  sprint-ne-nil h (int k (negsuc m)) n = λ e. cons-ne-nil _ _ (prefix_nil _ _ e)
  sprint-ne-nil h (float32 x) n = h.text32 x
  sprint-ne-nil h (float64 x) n = h.text64 x
  sprint-ne-nil h (bool true) n = λ e. cons-ne-nil _ _ e
  sprint-ne-nil h (bool false) n = λ e. cons-ne-nil _ _ e
  sprint-ne-nil h (strings xs) n = λ e. cons-ne-nil _ _ (prefix_nil _ _ e)
  sprint-ne-nil h (array xs) n = λ e. cons-ne-nil _ _ (prefix_nil _ _ e)
  sprint-ne-nil h (object fs) n = λ e. cons-ne-nil _ _ (prefix_nil _ _ e)
  sprint-ne-nil h (other m) n = h.text_other m

  -- The stable keys that are given have a text.
  key_text_given :
      PrintsText
      → (key : String) (o : Option Value) → IsGiven o
      → (text : String) × (key_text host key o ≡ ok text)
  unfolding key_text
  key_text_given h key none g = cc
  key_text_given h key (some null) (v, e, n, z) = absurd (n (cc))
  key_text_given h key (some w) (v, e, n, z) =
      let same : w ≡ v = some-injective w v e in
      (sprint host w, rw (ne_test (sprint-ne-nil h w (λ q. z (sym same ∙ q))), key_text) refl)

  -- With `%v` never empty, a URI is made if every stable key is given.
  pub generate_uri_total :
      PrintsText
      → (template : String) (keys : List String) (props : Props)
      → All (λ key. IsGiven (lookup key props)) keys
      → (uri : String) × (generate_uri host template keys props ≡ ok uri)
  unfolding generate_uri
  generate_uri_total h template [] props a = (template, refl)
  generate_uri_total h template (key ∷ keys) props (g, rest) =
      let (text, e) = key_text_given h key (lookup key props) g in
      let (uri, r) =
        generate_uri_total h (replace_all template ("{" <> key <> "}") text) keys props rest in
      (uri, rw (e, fill_template) r)
