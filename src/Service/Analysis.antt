-- ===== src/Service/Analysis.antt =====
-- internal/service/analysis_service.go.
use network_digital_twin_pla.Prelude.{
  ℕ, zero, suc, String, ◌<>◌, List, [], ◌∷◌, Result, ok, err, length, if◌then◌else◌, ◌==◌,
}
use network_digital_twin_pla.Prelude.Dict.{Dict}
use network_digital_twin_pla.Text.{decimal}
use network_digital_twin_pla.Value.{ℤ, pos, negsuc, Props}
use network_digital_twin_pla.Graph.Driver.{Param, text}

pub record TopologyResult : Type 0 where
  pub nodes : List Props
  pub count : ℕ

-- What is at least 1, or a default.
abbrev pub limit_or : ℕ → ℤ → ℕ
limit_or default (pos zero) = default
limit_or default (pos (suc n)) = suc n
limit_or default (negsuc n) = default

-- The query that is sent, of a label and a limit.
abbrev pub topology_query : String → ℤ → String
topology_query label limit =
    "MATCH (n:"
    <> (if label == "" then "Device" else label)
    <> ") WHERE n._db = $_db RETURN n LIMIT "
    <> decimal (limit_or 100 limit)

-- From what `Query` of the driver answers.
unfoldable pub query_topology :
    (String → String → Dict Param → Result String (List Props))
    → String
    → ℤ
    → Result String TopologyResult
query_topology query label limit =
    elim (query "default" (topology_query label limit) (("_db", text "default") ∷ [])) [
      | err e ↦ err ("query topology: " <> e)
      | ok rows ↦ ok (record { nodes = rows; count = length rows })
    ]
