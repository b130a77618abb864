-- ===== src/Controller/Transform/Enums.antt =====
-- The values that the ontology enumerates: ontology/*.yaml list Up and Down for the status of an
-- interface, a link, a VPN and a tunnel, and these two and Maintenance for that of a device, and six
-- names for the state of a BGP peer.
use network_digital_twin_pla.Prelude.{
  ◌≡◌, refl, ◌⊎◌, inl, inr, Bool, true, false, String, List, [], ◌∷◌, Option, none, some, All,
  contains, Bool-cases, ◌==◌, String-discrete, if◌then◌else◌, ℕ,
}
use network_digital_twin_pla.Prelude.Dict.{Dict, lookup, lookup-insert}
use network_digital_twin_pla.Value.{ℤ, Value, str, Props}
use network_digital_twin_pla.Text.Scan.{to_lower}
use network_digital_twin_pla.Controller.Transform.{
  as_string, mapped, put, put_all, or_else, status_map, map_status, map_bgp_state, bgp_state_map,
  bgp_state_name, bgp_state, transform_device, transform_interface, transform_link, transform_vpn,
  transform_tunnel, transform_bgp_peer, state_text, bgp_id,
}

module _ (names : List String) where
  abbrev pub Names : Value → Type 0
  Names v = (s : String) × ((v ≡ str s) × (contains names s ≡ true))

  abbrev pub NamesOption : Option Value → Type 0
  NamesOption none = Unit
  NamesOption (some v) = Names v

  -- The value under a key, if there is one, is one of the names.
  abbrev pub InEnum : String → Props → Type 0
  InEnum key props = NamesOption (lookup key props)

  abbrev Allowed : String → String × Option Value → Type 0
  Allowed key (k, v) = ((key == k) ≡ false) ⊎ NamesOption v

  InEnum-put :
      (key k : String) (v : Option Value) (props : Props)
      → Allowed key (k, v)
      → InEnum key props
      → InEnum key (put k v props)
  InEnum-put key k none props a h = h
  InEnum-put key k (some v) props (inl differ) h = rw (lookup-insert key k v props, differ) h
  InEnum-put key k (some v) props (inr ok_) h = elim (Bool-cases (key == k)) [
    | inl equal ↦ rw (lookup-insert key k v props, equal) ok_
    | inr differ ↦ rw (lookup-insert key k v props, differ) h
  ]

  InEnum-put_all :
      (key : String) (entries : List (String × Option Value)) (props : Props)
      → All (Allowed key) entries
      → InEnum key props
      → InEnum key (put_all entries props)
  unfolding put_all
  InEnum-put_all key [] props a h = h
  InEnum-put_all key ((k, v) ∷ entries) props (a, all) h =
      InEnum-put_all key entries (put k v props) all (InEnum-put key k v props a h)

  abbrev In : String → Type 0
  In s = contains names s ≡ true

  In-if : (b : Bool) (s t : String) → In s → In t → In (if b then s else t)
  In-if true s t hs ht = hs
  In-if false s t hs ht = ht

  In-lookup :
      (d key : String) (m : Dict String)
      → In d
      → All (λ (entry : String × String). In entry.1) m
      → In (or_else d (lookup key m))
  unfolding lookup
  In-lookup d key [] hd all = hd
  In-lookup d key ((k, v) ∷ m) hd (hv, all) = elim (Bool-cases (key == k)) [
    | inl equal ↦ rw equal hv
    | inr differ ↦ rw differ (In-lookup d key m hd all)
  ]

  NamesOption-mapped :
      (f : String → String) (o : Option String)
      → ((s : String) → In (f s))
      → NamesOption (mapped f o)
  NamesOption-mapped f none h = tt
  NamesOption-mapped f (some s) h = (f s, (refl, h s))

abbrev pub up_down : List String
up_down = "Up" ∷ "Down" ∷ []

abbrev pub fsm_states : List String
fsm_states = "Established" ∷ "Connect" ∷ "Idle" ∷ "Active" ∷ "OpenSent" ∷ "OpenConfirm" ∷ []

map_status-In : (d : String) → In up_down d → (s : String) → In up_down (map_status d s)
unfolding map_status String-discrete
map_status-In d hd s =
    In-lookup up_down d s status_map hd
      (refl, (refl, (refl, (refl, (refl, (refl, (refl, (refl, tt))))))))

bgp_state_name-In : (s : String) → In fsm_states (bgp_state_name s)
unfolding bgp_state_name String-discrete
bgp_state_name-In s =
    let when = λ (b : Bool) (t u : String). In-if fsm_states b t u in
    let v = to_lower s in
    when (s == "") _ _ refl (
      when (v == "established") _ _ refl (
        when (v == "connect") _ _ refl (
          when (v == "idle") _ _ refl (
            when (v == "active") _ _ refl
              (when (v == "opensent") _ _ refl (when (v == "openconfirm") _ _ refl refl))))))

map_bgp_state-In : (s : String) → In fsm_states (map_bgp_state s)
unfolding map_bgp_state String-discrete
map_bgp_state-In s =
    In-lookup fsm_states (bgp_state_name s) s bgp_state_map (bgp_state_name-In s)
      (refl, (refl, (refl, (refl, (refl, (refl, tt))))))

bgp_state-NamesOption : (f : ℕ → ℤ) (o : Option Value) → NamesOption fsm_states (bgp_state f o)
unfolding bgp_state
bgp_state-NamesOption f none = tt
bgp_state-NamesOption f (some v) =
    (map_bgp_state (state_text f v), (refl, map_bgp_state-In (state_text f v)))

put-state :
    (f : ℕ → ℤ) (peer : Props) (o : Option Value)
    → lookup "state" peer ≡ o
    → InEnum fsm_states "state" (put "state" (bgp_state f o) peer)
unfolding bgp_state String-discrete
put-state f peer none e = rw e tt
put-state f peer (some v) e =
    rw (lookup-insert "state" "state" (str (map_bgp_state (state_text f v))) peer)
      (bgp_state-NamesOption f (some v))

bgp_peer-InEnum :
    (f : ℕ → ℤ) (name : String) (peer : Props)
    → InEnum fsm_states "state" (transform_bgp_peer f name peer)
unfolding transform_bgp_peer put_all String-discrete
bgp_peer-InEnum f name peer =
    InEnum-put_all fsm_states "state" (("bgp_id", some (str (bgp_id name peer))) ∷ [])
      (put "state" (bgp_state f (lookup "state" peer)) peer) (inl refl, tt)
      (put-state f peer (lookup "state" peer) refl)

text-status :
    (d : String) (o : Option Value)
    → In up_down d
    → NamesOption up_down (mapped (map_status d) (as_string o))
text-status d o hd =
    NamesOption-mapped up_down (map_status d) (as_string o) (λ s. map_status-In d hd s)

-- Whatever the controller sends, the status of a device, an interface, a link, a VPN and a tunnel is Up
-- or Down, where there is one, and the state of a BGP peer is one of the six of its state machine.
pub transform_InEnum :
    (raw : Props) (name vpn_type : String) (int_of_float : ℕ → ℤ)
    → InEnum up_down "status" (transform_device raw)
      × InEnum up_down "status" (transform_interface name raw)
      × InEnum up_down "status" (transform_link raw)
      × InEnum up_down "status" (transform_vpn vpn_type raw)
      × InEnum up_down "status" (transform_tunnel raw)
      × ((peer : Props) → InEnum fsm_states "state" (transform_bgp_peer int_of_float name peer))
unfolding transform_device transform_interface transform_link transform_vpn transform_tunnel
    String-discrete lookup
transform_InEnum raw name vpn_type f =
    let status =
      λ (d : String) (h : In up_down d) (key : String). text-status d (lookup key raw) h in
    (
      InEnum-put_all up_down "status" _ []
          (
            inl refl,
            (
              inl refl,
              (
                inl refl,
                (
                  inl refl,
                  (
                    inl refl,
                    (
                      inr (status "Up" refl "connect-status"),
                      (inl refl, (inl refl, (inl refl, (inl refl, (inl refl, (inl refl, tt)))))),
                    ),
                  ),
                ),
              ),
            ),
          )
          tt,
      InEnum-put_all up_down "status" _ []
          (
            inl refl,
            (
              inl refl,
              (
                inr (status "Up" refl "status"),
                (inl refl, (inl refl, (inl refl, (inl refl, (inl refl, tt))))),
              ),
            ),
          )
          tt,
      InEnum-put_all up_down "status" _ []
          (
            inl refl,
            (
              inl refl,
              (
                inl refl,
                (
                  inr (status "Up" refl "link-status"),
                  (
                    inl refl,
                    (
                      inl refl,
                      (
                        inl refl,
                        (inl refl, (inl refl, (inl refl, (inl refl, (inl refl, (inl refl, tt)))))),
                      ),
                    ),
                  ),
                ),
              ),
            ),
          )
          tt,
      InEnum-put_all up_down "status" _ []
          (
            inl refl,
            (
              inl refl,
              (
                inl refl,
                (
                  inl refl,
                  (
                    inl refl,
                    (
                      inl refl,
                      (
                        inl refl,
                        (inr (status "Up" refl "pre-create-status"), (inl refl, (inl refl, tt))),
                      ),
                    ),
                  ),
                ),
              ),
            ),
          )
          tt,
      InEnum-put_all up_down "status" _ []
          (
            inl refl,
            (
              inl refl,
              (
                inr (status "Down" refl "cfg-status"),
                (inl refl, (inl refl, (inl refl, (inl refl, (inl refl, tt))))),
              ),
            ),
          )
          tt,
      bgp_peer-InEnum f name,
    )
