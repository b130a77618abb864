-- ===== src/Tests/Archive.antt =====
-- Tests of the archives, with streams of the documents themselves.
use network_digital_twin_pla.Prelude.{
  ◌≡◌, ◌≢◌, refl, ap, arith, ok, String, List, [], ◌∷◌, map, none, Result, err,
}
use network_digital_twin_pla.Prelude.Dict.{Dict, lookup}
use network_digital_twin_pla.Value.{pos, Value, int, int64, int_native, Props}
use network_digital_twin_pla.Assembler.{Node, Relation}
use network_digital_twin_pla.Snapshot.Manager.{SnapshotMeta}
use network_digital_twin_pla.Snapshot.Archive.{
  YamlMetaDoc, YamlNodeItem, YamlNodeItemImport, YamlRelItem, ItemsDoc, Yaml, export_to_yaml,
  import_from_yaml, import_meta_only,
}
use network_digital_twin_pla.Snapshot.Archive.RoundTrip.{
  IsCodec, read_node_item, read_rel_item, reload_node, reload_rel, import-export,
}

pub data Doc : Type 0 where
  of_meta : YamlMetaDoc → Doc
  of_nodes : ItemsDoc YamlNodeItem → Doc
  of_rels : ItemsDoc YamlRelItem → Doc

-- A number of 64 bits is read as an `int`.
reload_value : Value → Value
reload_value (int int64 n) = int int_native n
reload_value v = v

reload : Props → Props
unfolding reload_value
reload [] = []
reload ((k, v) ∷ props) = (k, reload_value v) ∷ reload props

pub append_doc : Doc → List Doc → List Doc
append_doc d [] = d ∷ []
append_doc d (c ∷ docs) = c ∷ append_doc d docs

pub take_meta : List Doc → Result String (YamlMetaDoc × List Doc)
take_meta (of_meta m ∷ docs) = ok (m, docs)
take_meta _ = err "no document"

pub take_nodes : List Doc → Result String (ItemsDoc YamlNodeItemImport × List Doc)
take_nodes (of_nodes ns ∷ docs) =
    ok (record { kind = ns.kind; items = map (read_node_item reload) ns.items }, docs)
take_nodes _ = err "no document"

pub take_rels : List Doc → Result String (ItemsDoc YamlRelItem × List Doc)
take_rels (of_rels rs ∷ docs) =
    ok (record { kind = rs.kind; items = map (read_rel_item reload) rs.items }, docs)
take_rels _ = err "no document"

abbrev pub yaml : Yaml (List Doc) String
yaml = record {
  empty = [];
  encode_meta = λ m c. ok (append_doc (of_meta m) c);
  encode_nodes = λ ns c. ok (append_doc (of_nodes ns) c);
  encode_rels = λ rs c. ok (append_doc (of_rels rs) c);
  decode_meta = take_meta;
  decode_nodes = take_nodes;
  decode_rels = take_rels;
  create = λ path. none;
  not_found = "no such file";
}

yaml-IsCodec : IsCodec reload yaml
unfolding append_doc take_meta take_nodes take_rels
yaml-IsCodec = record {
  decodes = λ m ns rs c₁ c₂ c₃ e₁ e₂ e₃.
      let is₁ : of_meta m ∷ [] ≡ c₁ = cc in
      let is₂ : of_meta m ∷ of_nodes ns ∷ [] ≡ c₂ =
        ground (arith, ap (append_doc (of_nodes ns)) is₁) in
      let is₃ : of_meta m ∷ of_nodes ns ∷ of_rels rs ∷ [] ≡ c₃ =
        ground (arith, ap (append_doc (of_rels rs)) is₂) in
      (of_nodes ns ∷ of_rels rs ∷ [], of_rels rs ∷ [], [], rw (← is₃) refl, refl, refl);
}

abbrev meta : SnapshotMeta
meta = record {
  name = "s1";
  created_at = 5;
  node_count = 1;
  rel_count = 1;
  file_path = "d/s1.yaml";
}

abbrev nodes : List Node
nodes =
    record {
      labels = "Resource" ∷ "Device" ∷ [];
      uri = "device:a";
      props = ("as_number", int int64 (pos 7)) ∷ [];
    }
    ∷ []

abbrev rels : List Relation
rels = record { type = "CONNECTS"; from = "device:a"; to = "device:a"; props = [] } ∷ []

abbrev files : Dict (List Doc)
files = ("d/s1.yaml", []) ∷ ("d/s2.yaml", []) ∷ []

abbrev after : Dict (List Doc)
after = (export_to_yaml yaml "d/s1.yaml" meta nodes rels files).1

exported : export_to_yaml yaml "d/s1.yaml" meta nodes rels files ≡ (ok tt, after)
unfolding export_to_yaml
exported = refl

import-export_example :
    (import_from_yaml yaml "d/s1.yaml" after
      ≡ ok (map (reload_node reload) nodes, map (reload_rel reload) rels, meta))
    × (import_meta_only yaml "d/s1.yaml" after ≡ ok meta)
    × ((p : String) → p ≢ "d/s1.yaml" → lookup p after ≡ lookup p files)
import-export_example =
    import-export reload yaml "d/s1.yaml" meta nodes rels files after yaml-IsCodec exported
