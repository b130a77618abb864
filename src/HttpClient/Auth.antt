-- ===== src/HttpClient/Auth.antt =====
-- `applyAuth` of internal/connector/httpclient.go. The headers of a
-- request are a map, `getenv` is the environment, and `basic` is what `SetBasicAuth` makes of a name and a
-- password.
use network_digital_twin_pla.Prelude.{String, ◌<>◌, if◌then◌else◌, ◌==◌}
use network_digital_twin_pla.Prelude.Dict.{Dict, insert}
use network_digital_twin_pla.Factory.{AuthConfig}

module _ (getenv : String → String) (basic : String → String → String) where
  -- A value that is given, else the variable that is named.
  unfoldable pub value_or_env : String → String → String
  value_or_env value env = if value == "" then (if env == "" then value else getenv env) else value

  unfoldable pub apply_auth : AuthConfig → Dict String → Dict String
  unfolding value_or_env
  apply_auth auth headers =
      if auth.type == "token"
      then insert "Authorization" ("Token " <> value_or_env auth.token auth.token_env) headers
      else if auth.type == "basic"
      then insert "Authorization"
          (basic auth.username (value_or_env auth.password auth.password_env)) headers
      else if auth.type == "bearer"
      then insert "Authorization" ("Bearer " <> value_or_env auth.token auth.token_env) headers
      else headers
