-- ===== src/Uri.antt =====
-- pkg/utils/uri.go
pub mod Stable
use network_digital_twin_pla.Prelude.{
  String, ◌<>◌, true, false, List, [], ◌∷◌, Option, none, some, Result, ok, err, ◌==◌,
}
use network_digital_twin_pla.Prelude.Dict.{lookup}
use network_digital_twin_pla.Text.{replace_all}
use network_digital_twin_pla.Value.{Value, null, str, Props, Host, sprint}

pub data UriError : Type 0 where
  key_not_found : String → UriError
  key_empty : String → UriError

module _ (host : Host) where
  -- The text that stands for a stable key in the URI.
  unfoldable pub key_text : String → Option Value → Result UriError String
  key_text key none = err (key_not_found key)
  key_text key (some null) = err (key_not_found key)
  key_text key (some v) = elim (sprint host v == "") [
    | true ↦ err (key_empty key)
    | false ↦ ok (sprint host v)
  ]

  -- The loop of `GenerateURI`, from the text so far.
  unfoldable pub fill_template : String → List String → Props → Result UriError String
  unfolding key_text
  fill_template result [] props = ok result
  fill_template result (key ∷ keys) props = elim (key_text key (lookup key props)) [
    | err e ↦ err e
    | ok text ↦ fill_template (replace_all result ("{" <> key <> "}") text) keys props
  ]

  unfoldable pub generate_uri : String → List String → Props → Result UriError String
  unfolding fill_template
  generate_uri template stable_keys props = fill_template template stable_keys props
