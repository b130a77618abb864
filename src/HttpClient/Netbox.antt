-- ===== src/HttpClient/Netbox.antt =====
-- internal/connector/netbox/netbox.go: the collection of devices and interfaces, over `Paginate`.
use network_digital_twin_pla.Prelude.{
  ℕ, String, List, [], ◌∷◌, ◌++◌, Option, none, some, if◌then◌else◌, ◌==◌,
}
use network_digital_twin_pla.Prelude.Dict.{lookup}
use network_digital_twin_pla.Value.{null, Props, Host, sprint}
use network_digital_twin_pla.Normalizer.{Resource}
use network_digital_twin_pla.Controller.Transform.{netbox_device, netbox_interface}
use network_digital_twin_pla.HttpClient.Pages.{Web, Ended, paginate}

-- What `Collect` ends with: a type that it does not know, or the loop over the pages.
pub data Collected (E : Type 0) : Type 0 where
  unsupported : String → Collected E
  paged : Ended E → List Resource → Collected E

module _ (host : Host) where
  -- `fmt.Sprintf("%v", raw["id"])`
  abbrev id_of : Props → String
  id_of raw = elim (lookup "id" raw) [ none ↦ sprint host null | some v ↦ sprint host v ]

  resources_of_page : String → (Props → Props) → List Props → List Resource
  resources_of_page kind transform [] = []
  resources_of_page kind transform (raw ∷ page) =
      record { kind = kind; id = id_of raw; properties = transform raw }
      ∷ resources_of_page kind transform page

  module _ {E : Type 0} (web : Web E) (base_url : String) where
    abbrev appending :
        String → (Props → Props) → List Props → List Resource → Option E × List Resource
    appending kind transform page resources =
        (none, resources ++ resources_of_page kind transform page)

    abbrev ended_with : Option (Ended E × List Resource) → Option (Collected E)
    ended_with none = none
    ended_with (some (e, resources)) = some (paged e resources)

    -- On fuel for the pages.
    unfoldable pub netbox_devices : ℕ → Option (Collected E)
    unfolding paginate resources_of_page netbox_device
    netbox_devices fuel =
        ended_with (
          paginate web base_url (appending "Device" netbox_device) fuel "/api/dcim/devices/" 100 [])

    unfoldable pub netbox_interfaces : ℕ → Option (Collected E)
    unfolding paginate resources_of_page netbox_interface
    netbox_interfaces fuel = ended_with (
        paginate web base_url (appending "Interface" netbox_interface) fuel "/api/dcim/interfaces/"
          100 [])

    unfoldable pub netbox_collect : ℕ → String → Option (Collected E)
    unfolding netbox_devices netbox_interfaces
    netbox_collect fuel entity_type =
        if entity_type == "Device"
        then netbox_devices fuel
        else if entity_type == "Interface"
        then netbox_interfaces fuel
        else some (unsupported entity_type)
