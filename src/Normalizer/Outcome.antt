-- ===== src/Normalizer/Outcome.antt =====
-- What `Normalize` returns, on every branch.

use network_digital_twin_pla.Prelude.{
  ◌≡◌, ◌≢◌, refl, ◌⊎◌, inl, inr, String, List, [], ◌∷◌, none, some, ok, err, Option-cases,
}
use network_digital_twin_pla.Prelude.Dict.{lookup}
use network_digital_twin_pla.Value.{Props, Host}
use network_digital_twin_pla.Schema.Types.{EntityType, entity_not_found}
use network_digital_twin_pla.Schema.Validator.{FieldError, validate_props, apply_defaults}
use network_digital_twin_pla.Schema.Validator.Conforms.{Conforms, validate_props_iff}
use network_digital_twin_pla.Schema.Registry.{
  Registry, get_entity_type, apply_schema_defaults, validate, failed,
}
use network_digital_twin_pla.Uri.{generate_uri}
use network_digital_twin_pla.Uri.Stable.{PrintsText, generate_uri_total}
use network_digital_twin_pla.Normalizer.{
  Resource, no_entity_type, invalid, map_fields, apply_rules, normalize,
}

-- The properties after steps 3, 4 and the first half of 5.
abbrev pub prepared : EntityType → Props → Props
prepared et props =
    apply_defaults et (apply_rules et.spec.normalize (map_fields et.spec.field_mapping props))

module _ (host : Host) (r : Registry) (res : Resource) where
  -- The kind is unknown.
  pub record UnknownKind : Type 0 where
    pub missing : lookup res.kind r.entity_types ≡ none
    pub rejected : normalize host r res ≡ err (no_entity_type (entity_not_found res.kind))

  -- The prepared properties do not conform, and the errors are reported.
  pub record Rejected (et : EntityType) : Type 0 where
    pub found : lookup res.kind r.entity_types ≡ some et
    pub errors : List FieldError
    pub some_error : errors ≢ []
    pub nonconforming : ¬ Conforms (prepared et res.properties) et
    pub rejected : normalize host r res ≡ err (invalid (failed et.metadata.name errors))

  -- They conform, and come back under a URI made from the type's template.
  pub record Accepted (et : EntityType) : Type 0 where
    pub found : lookup res.kind r.entity_types ≡ some et
    pub conforming : Conforms (prepared et res.properties) et
    pub uri : String
    pub generated :
        generate_uri host et.spec.uri_template et.spec.identity.stable_keys
          (prepared et res.properties)
        ≡ ok uri
    pub accepted :
        normalize host r res
        ≡ ok (record { kind = res.kind; uri = uri; properties = prepared et res.properties })

  module _ (et : EntityType) (found : lookup res.kind r.entity_types ≡ some et) where
    normalize_rejected :
        (x : FieldError) (xs : List FieldError)
        → validate_props et (prepared et res.properties) ≡ x ∷ xs
        → normalize host r res ≡ err (invalid (failed et.metadata.name (x ∷ xs)))
    unfolding normalize get_entity_type apply_schema_defaults validate
    normalize_rejected x xs e =
        rw (found, get_entity_type, apply_schema_defaults, validate) (rw (e, validate) refl)

    normalize_accepted :
        (uri : String)
        → validate_props et (prepared et res.properties) ≡ []
        → generate_uri host et.spec.uri_template et.spec.identity.stable_keys
            (prepared et res.properties)
          ≡ ok uri
        → normalize host r res
          ≡ ok (record { kind = res.kind; uri = uri; properties = prepared et res.properties })
    unfolding normalize get_entity_type apply_schema_defaults validate
    normalize_accepted uri e g =
        rw (found, get_entity_type, apply_schema_defaults, validate) (rw (e, validate) (rw g refl))

    known_outcome : PrintsText host → Rejected et ⊎ Accepted et
    known_outcome h = go (validate_props et (prepared et res.properties)) refl
      where
        go :
            (errors : List FieldError)
            → validate_props et (prepared et res.properties) ≡ errors
            → Rejected et ⊎ Accepted et
        go [] e =
            let c = (validate_props_iff et (prepared et res.properties)).0 e in
            let (uri, g) =
              generate_uri_total host h et.spec.uri_template et.spec.identity.stable_keys
                (prepared et res.properties) c.stable_keys in
            inr (record {
              found = found;
              conforming = c;
              uri = uri;
              generated = g;
              accepted = normalize_accepted uri e g;
            })
        go (x ∷ xs) e = inl (record {
          found = found;
          errors = x ∷ xs;
          some_error = λ q. cc;
          nonconforming = λ c. cc ((validate_props_iff et (prepared et res.properties)).1 c);
          rejected = normalize_rejected x xs e;
        })

  -- With `%v` never empty, `Normalize` returns one of three results. An unknown kind and properties
  -- that do not conform to the type, mapped, cleaned and with its defaults, are refused with an
  -- error that says so; all others come back with their URI, and `GenerateURI` never fails.
  pub normalize_outcome :
      PrintsText host → UnknownKind ⊎ ((et : EntityType) × (Rejected et ⊎ Accepted et))
  unfolding normalize get_entity_type
  normalize_outcome h = elim (Option-cases (lookup res.kind r.entity_types)) [
    | inl e ↦ inl (record { missing = e; rejected = rw (e, normalize, get_entity_type) refl })
    | inr (et, e) ↦ inr (et, known_outcome et e h)
  ]
