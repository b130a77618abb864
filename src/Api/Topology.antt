-- ===== src/Api/Topology.antt =====
-- internal/api/handlers/topology.go, `QueryTopology`.
use network_digital_twin_pla.Prelude.{String, List, none, some, Result, ok, err}
use network_digital_twin_pla.Prelude.Dict.{Dict, lookup}
use network_digital_twin_pla.Value.{pos, Props}
use network_digital_twin_pla.Controller.Parser.{atoi}
use network_digital_twin_pla.Graph.Driver.{Param}
use network_digital_twin_pla.Service.Analysis.{TopologyResult, limit_or, query_topology}
use network_digital_twin_pla.Api.Response.{Reply, ok_reply, fail, code_topology_query_failed}

-- `c.DefaultQuery`
abbrev pub default_query : String → String → Dict String → String
default_query key default params = elim (lookup key params) [ none ↦ default | some s ↦ s ]

unfoldable pub handle_topology :
    (String → String → Dict Param → Result String (List Props)) → Dict String → Reply TopologyResult
unfolding query_topology atoi
handle_topology query params =
    let limit = limit_or 100 (atoi (default_query "limit" "100" params)) in
    elim (query_topology query (default_query "label" "Device" params) (pos limit)) [
      | err e ↦ fail 500 code_topology_query_failed e
      | ok result ↦ ok_reply result
    ]
