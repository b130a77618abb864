-- ===== src/Schema/Loader/Documents.antt =====
-- What the loader makes of a document and of a file.
use network_digital_twin_pla.Prelude.{
  ◌≡◌, ◌≢◌, inl, inr, ◌&&◌, [], none, some, Result, ok, err, Bool-cases, Option-cases, arith, ◌==◌,
}
use network_digital_twin_pla.Schema.Types.{
  EntityType, RelationType, SchemaError, invalid_schema, unsupported_kind, invalid_api_version,
}
use network_digital_twin_pla.Schema.Loader.{
  expected_api_version, Probe, Stream, eof, broken, document, Decoder, Doc, nothing, entity,
  relation, Types, with_doc, decode_kind, unmarshal_node, read_documents,
}

module _ {N : Type 0} (yaml : Decoder N) where
  -- A document that is empty, or a type of the version that the loader expects.
  pub data Valid (n : N) : Doc → Type 0 where
    is_empty :
        {p : Probe} → yaml.probe n ≡ some p → p.kind ≡ "" → p.api_version ≡ "" → Valid n nothing
    is_entity :
        {p : Probe} {et : EntityType}
        → yaml.probe n ≡ some p
        → p.api_version ≡ expected_api_version
        → p.kind ≡ "EntityType"
        → yaml.entity_type n ≡ some et
        → Valid n (entity et)
    is_relation :
        {p : Probe} {rt : RelationType}
        → yaml.probe n ≡ some p
        → p.api_version ≡ expected_api_version
        → p.kind ≡ "RelationType"
        → yaml.relation_type n ≡ some rt
        → Valid n (relation rt)

  -- A document that is not empty, and cannot be read as a type of the version that the loader expects.
  pub data Invalid (n : N) : SchemaError → Type 0 where
    unreadable : yaml.probe n ≡ none → Invalid n invalid_schema
    other_version :
        {p : Probe}
        → yaml.probe n ≡ some p
        → ¬ ((p.kind ≡ "") × (p.api_version ≡ ""))
        → p.api_version ≢ expected_api_version
        → Invalid n (invalid_api_version p.api_version)
    other_kind :
        {p : Probe}
        → yaml.probe n ≡ some p
        → p.api_version ≡ expected_api_version
        → p.kind ≢ "EntityType"
        → p.kind ≢ "RelationType"
        → Invalid n (unsupported_kind p.kind)
    bad_entity :
        {p : Probe}
        → yaml.probe n ≡ some p
        → p.api_version ≡ expected_api_version
        → p.kind ≡ "EntityType"
        → yaml.entity_type n ≡ none
        → Invalid n invalid_schema
    bad_relation :
        {p : Probe}
        → yaml.probe n ≡ some p
        → p.api_version ≡ expected_api_version
        → p.kind ≡ "RelationType"
        → yaml.relation_type n ≡ none
        → Invalid n invalid_schema

  pub Judged : N → Result SchemaError Doc → Type 0
  Judged n (ok doc) = Valid n doc
  Judged n (err e) = Invalid n e

  decode_kind-Judged :
      (n : N) (p : Probe)
      → yaml.probe n ≡ some p
      → p.api_version ≡ expected_api_version
      → Judged n (decode_kind yaml p n)
  unfolding decode_kind Judged
  decode_kind-Judged n p e version = elim (Bool-cases (p.kind == "EntityType")) [
    | inl is ↦ elim (Option-cases (yaml.entity_type n)) [
      | inl bad ↦ rw (is, bad) (bad_entity e version (ground arith) bad)
      | inr (et, good) ↦ rw (is, good) (is_entity e version (ground arith) good)
    ]
    | inr isnt ↦ elim (Bool-cases (p.kind == "RelationType")) [
      | inl is ↦ elim (Option-cases (yaml.relation_type n)) [
        | inl bad ↦ rw (isnt, is, bad) (bad_relation e version (ground arith) bad)
        | inr (rt, good) ↦ rw (isnt, is, good) (is_relation e version (ground arith) good)
      ]
      | inr other ↦ rw (isnt, other) (other_kind e version (λ q. ground arith) (λ q. ground arith))
    ]
  ]

  unmarshal_node-Judged : (n : N) → Judged n (unmarshal_node yaml n)
  unfolding unmarshal_node Judged
  unmarshal_node-Judged n = elim (Option-cases (yaml.probe n)) [
    | inl bad ↦ rw (unmarshal_node, bad) (unreadable bad)
    | inr (p, e) ↦ elim (Bool-cases (p.kind == "" && p.api_version == "")) [
      | inl empty ↦ rw (unmarshal_node, e, empty) (is_empty e (ground arith) (ground arith))
      | inr some_text ↦ elim (Bool-cases (p.api_version == expected_api_version)) [
        | inl version ↦
            rw (unmarshal_node, e, some_text, version) (decode_kind-Judged n p e (ground arith))
        | inr other ↦
            rw (unmarshal_node, e, some_text, other)
              (other_version e (λ (q : (p.kind ≡ "") × (p.api_version ≡ "")). ground arith)
                (λ q. ground arith))
      ]
    ]
  ]

  -- All documents of a stream are valid, and give these types in their order.
  pub data Reads : Stream N → Types → Type 0 where
    at_end : Reads eof ([], [])
    valid :
        {n : N} {stream : Stream N} {doc : Doc} {types : Types}
        → Valid n doc
        → Reads stream types
        → Reads (document n stream) (with_doc doc types)

  -- The first document that is not valid has this error.
  pub data Fails : Stream N → SchemaError → Type 0 where
    is_broken : Fails broken invalid_schema
    invalid :
        {n : N} {stream : Stream N} {e : SchemaError} → Invalid n e → Fails (document n stream) e
    after :
        {n : N} {stream : Stream N} {doc : Doc} {e : SchemaError}
        → Valid n doc
        → Fails stream e
        → Fails (document n stream) e

  unfoldable pub StreamJudged : Stream N → Result SchemaError Types → Type 0
  StreamJudged stream (ok types) = Reads stream types
  StreamJudged stream (err e) = Fails stream e

  with_rest : Result SchemaError Doc → Result SchemaError Types → Result SchemaError Types
  with_rest (err e) rest = err e
  with_rest (ok doc) (err e) = err e
  with_rest (ok doc) (ok types) = ok (with_doc doc types)

  read_documents-document :
      (n : N) (stream : Stream N)
      → read_documents yaml (document n stream)
        ≡ with_rest (unmarshal_node yaml n) (read_documents yaml stream)
  unfolding read_documents with_rest
  read_documents-document n stream = ground arith

  with_rest-StreamJudged :
      (n : N) (stream : Stream N) (r : Result SchemaError Doc) (rest : Result SchemaError Types)
      → Judged n r
      → StreamJudged stream rest
      → StreamJudged (document n stream) (with_rest r rest)
  unfolding with_rest Judged StreamJudged
  with_rest-StreamJudged n stream (err e) rest h k = invalid h
  with_rest-StreamJudged n stream (ok doc) (err e) h k = after h k
  with_rest-StreamJudged n stream (ok doc) (ok types) h k = valid h k

  pub read_documents-StreamJudged :
      (stream : Stream N) → StreamJudged stream (read_documents yaml stream)
  unfolding read_documents StreamJudged
  read_documents-StreamJudged eof = at_end
  read_documents-StreamJudged broken = is_broken
  read_documents-StreamJudged (document n stream) = rw (read_documents-document n stream) (
      with_rest-StreamJudged n stream (unmarshal_node yaml n) (read_documents yaml stream)
        (unmarshal_node-Judged n) (read_documents-StreamJudged stream))
