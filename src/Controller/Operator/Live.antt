-- ===== src/Controller/Operator/Live.antt =====
-- internal/connector/controller: the live queries of operator.go beside `collectISIS` and `collectBGP`.
use network_digital_twin_pla.Prelude.{
  ℕ, ◌≡◌, refl, sym, ap, String, List, [], ◌∷◌, map, Option, none, some, Result, ok, err, inl, inr,
  Option-cases,
}
use network_digital_twin_pla.Value.{ℤ, Props}
use network_digital_twin_pla.Normalizer.{Resource}
use network_digital_twin_pla.Controller.Parser.{parse_bgp_text, parse_isis_text}
use network_digital_twin_pla.Controller.Transform.{transform_isis_peer, transform_bgp_peer}
use network_digital_twin_pla.Controller.Client.{
  DeviceInfo, ControllerClient, FetchError, Api, get_devices,
}
use network_digital_twin_pla.Controller.Collect.{lookup_vendor, peers_of, gather_isis, gather_bgp}
use network_digital_twin_pla.Controller.Operator.{
  Rpc, fetch_isis_neighbors, fetch_bgp_peers, with_vendor, query_isis_neighbors, query_bgp_peers,
}

abbrev properties_of : Resource → Props
properties_of r = r.properties

map-peers_of :
    (kind id_key : String) (transform : Props → Props) (peers : List Props)
    → map properties_of (peers_of kind id_key transform peers) ≡ map transform peers
unfolding peers_of
map-peers_of kind id_key transform [] = refl
map-peers_of kind id_key transform (peer ∷ peers) =
    ap (λ ps. transform peer ∷ ps) (map-peers_of kind id_key transform peers)

module _ {E : Type 0} (api : Api E) (rpc : Rpc E) (device_response : String → Option (List Props))
    (now later now' later' stored : ℕ) (device : String) where
  -- How a live query ends, from what its request for the text returns, and from what the collection gathers
  -- from a device.
  pub data Live (asked : Result (FetchError E) String × ControllerClient)
      (gather : DeviceInfo → Option String → Option (List Resource))
      : Option (Result (FetchError E) (List Props) × ControllerClient) → Type 0 where
    no_text :
        {e : FetchError E} {c : ControllerClient}
        → asked ≡ (err e, c)
        → Live asked gather (some (err e, c))
    no_devices :
        {echo : String} {e : FetchError E} {c c' : ControllerClient}
        → asked ≡ (ok echo, c)
        → get_devices api device_response now' later' stored c ≡ (err e, c')
        → Live asked gather (some (err e, c'))
    live :
        {echo : String} {devices : List DeviceInfo} {c c' : ControllerClient} {rs : List Resource}
        → asked ≡ (ok echo, c)
        → get_devices api device_response now' later' stored c ≡ (ok devices, c')
        → gather (record { name = device; vendor = lookup_vendor devices device }) (some echo)
          ≡ some rs
        → Live asked gather (some (ok (map properties_of rs), c'))
    panics :
        {echo : String} {devices : List DeviceInfo} {c c' : ControllerClient}
        → asked ≡ (ok echo, c)
        → get_devices api device_response now' later' stored c ≡ (ok devices, c')
        → gather (record { name = device; vendor = lookup_vendor devices device }) (some echo)
          ≡ none
        → Live asked gather none

  -- What a query makes of a text is what the collection makes of it.
  abbrev Agrees :
      (String → String → Option (List Props))
      → (DeviceInfo → Option String → Option (List Resource))
      → Type 0
  Agrees make gather =
      (vendor echo : String)
      → make vendor echo ≡ elim (gather (record { name = device; vendor = vendor }) (some echo)) [
        | none ↦ none
        | some rs ↦ some (map properties_of rs)
      ]

  found-Live :
      (make : String → String → Option (List Props))
      (gather : DeviceInfo → Option String → Option (List Resource)) (echo : String)
      (c : ControllerClient) (found : Result (FetchError E) (List DeviceInfo) × ControllerClient)
      → get_devices api device_response now' later' stored c ≡ found
      → Agrees make gather
      → Live
          (ok echo, c)
          gather
          (elim found.0 [
            | err e ↦ some (err e, found.1)
            | ok devices ↦ elim (make (lookup_vendor devices device) echo) [
              | none ↦ none
              | some result ↦ some (ok result, found.1)
            ]
          ])
  found-Live make gather echo c (err e, c') found agrees = no_devices refl found
  found-Live make gather echo c (ok devices, c') found agrees =
      let vendor = lookup_vendor devices device in
      elim (Option-cases (gather (record { name = device; vendor = vendor }) (some echo))) [
        | inl gone ↦ rw (agrees vendor echo, gone) (panics refl found gone)
        | inr (rs, gathered) ↦ rw (agrees vendor echo, gathered) (live refl found gathered)
      ]

  with_vendor-Live :
      (make : String → String → Option (List Props))
      (gather : DeviceInfo → Option String → Option (List Resource))
      (asked : Result (FetchError E) String × ControllerClient)
      → Agrees make gather
      → Live asked gather
          (with_vendor api rpc device_response now later now' later' stored device make asked)
  unfolding with_vendor
  with_vendor-Live make gather (err e, c) agrees = no_text refl
  with_vendor-Live make gather (ok echo, c) agrees =
      found-Live make gather echo c (get_devices api device_response now' later' stored c) refl
        agrees

  isis-Agrees :
      Agrees
        (λ vendor echo. some (map (transform_isis_peer device) (parse_isis_text vendor echo)))
        (λ d echo. some (gather_isis d echo))
  unfolding gather_isis
  isis-Agrees vendor echo = ap some (
      sym
        (map-peers_of "ISIS" "isis_id" (transform_isis_peer device) (parse_isis_text vendor echo)))

  bgp-Agrees :
      (int_of_float : ℕ → ℤ)
      → Agrees
          (λ vendor echo. elim (parse_bgp_text vendor echo) [
            | none ↦ none
            | some peers ↦ some (map (transform_bgp_peer int_of_float device) peers)
          ])
          (gather_bgp int_of_float)
  unfolding gather_bgp
  bgp-Agrees int_of_float vendor echo = elim (Option-cases (parse_bgp_text vendor echo)) [
    | inl gone ↦ rw gone refl
    | inr (peers, parsed) ↦
        rw parsed (
          ap some
            (sym (map-peers_of "BGP" "bgp_id" (transform_bgp_peer int_of_float device) peers)))
  ]

  -- A live query for the neighbours of a device fails with the error of its request for the text, or of its
  -- request for the devices. Else it returns the properties of the very resources that the collection of a
  -- sync makes of the same text for a device of this name and of the vendor found, and it panics where the
  -- collection does.
  pub query_neighbors-Live :
      (int_of_float : ℕ → ℤ) (c : ControllerClient)
      → Live
          (fetch_isis_neighbors api rpc device now later c)
          (λ d echo. some (gather_isis d echo))
          (query_isis_neighbors api rpc device_response now later now' later' stored device c)
        × Live (fetch_bgp_peers api rpc device now later c) (gather_bgp int_of_float) (
            query_bgp_peers api rpc device_response now later now' later' stored int_of_float device
              c)
  unfolding query_isis_neighbors query_bgp_peers
  query_neighbors-Live int_of_float c = (
    with_vendor-Live _ _ (fetch_isis_neighbors api rpc device now later c) isis-Agrees,
    with_vendor-Live _ _ (fetch_bgp_peers api rpc device now later c) (bgp-Agrees int_of_float),
  )
