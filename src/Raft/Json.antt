-- ===== src/Raft/Json.antt =====
-- JSON values as `encoding/json` decodes them, and the two path functions of raft.go,
-- `raftJSONValue` and `replaceRaftJSONValue`. A `json.RawMessage` is a value, or `none` where it
-- is empty. The order of an object's fields is kept where a map is written back; `json.Marshal`
-- sorts it, which no reader of a map can tell.
pub mod Paths
use fabric_ops.Prelude.{String, Bool, List, [], ◌∷◌, Option, none, some}
use fabric_ops.Prelude.Maps.{Map, lookup, insert}
use fabric_ops.Raft.Result.{
  Error, Result, ok, err, decode_field, missing_field, decode_json, panic, ◌>>=◌,
}

mutual
  pub data Json : Type 0 where
    null : Json
    bool : Bool → Json
    num : String → Json
    str : String → Json
    arr : Items → Json
    obj : Fields → Json

  pub data Items : Type 0 where
    nil : Items
    cons : Json → Items → Items

  pub data Fields : Type 0 where
    end : Fields
    field : String → Json → Fields → Fields

abbrev pub RawMessage : Type 0
RawMessage = Option Json

abbrev pub items : Items → List Json
items nil = []
items (cons j js) = j ∷ items js

abbrev pub of_items : List Json → Items
of_items [] = nil
of_items (j ∷ js) = cons j (of_items js)

-- `json.Unmarshal` of an object into a map: the last field of a name wins.
unfoldable pub fields_into : Map Json → Fields → Map Json
fields_into m end = m
fields_into m (field k j fs) = fields_into (insert k j m) fs

unfoldable pub of_map : Map Json → Fields
of_map [] = end
of_map ((k, j) ∷ m) = field k j (of_map m)

-- `json.Unmarshal(raw, &object)` for `object map[string]json.RawMessage`; `ok none` is the nil map
-- that `null` gives.
unfoldable pub unmarshal_object : RawMessage → Error → Result (Option (Map Json))
unfolding fields_into
unmarshal_object (some null) e = ok none
unmarshal_object (some (obj fs)) e = ok (some (fields_into [] fs))
unmarshal_object _ e = err e

-- `object[field]`; a nil map has no field.
unfoldable pub object_field : Option (Map Json) → String → RawMessage
object_field none k = none
object_field (some m) k = lookup k m

-- The test `len(raw) == 0 || bytes.Equal(raw, []byte("null"))`.
unfoldable pub present : RawMessage → Error → Result Json
present none e = err e
present (some null) e = err e
present (some j) e = ok j

-- The loop of `raftJSONValue`.
unfoldable pub raft_json_value : RawMessage → List String → Result RawMessage
raft_json_value raw [] = ok raw
raft_json_value raw (k ∷ path) = do
  object ← unmarshal_object raw (decode_field k)
  value ← present (object_field object k) (missing_field k)
  raft_json_value (some value) path

-- `object[k] = value` and `json.Marshal(object)`; a write to a nil map panics.
unfoldable pub write_field : Option (Map Json) → String → Json → Result Json
write_field none k value = err panic
write_field (some m) k value = ok (obj (of_map (insert k value m)))

-- `replaceRaftJSONValue`; the value that is put in is never empty.
unfoldable pub replace_raft_json_value : RawMessage → List String → Json → Result Json
replace_raft_json_value raw [] value = ok value
replace_raft_json_value raw (k ∷ path) value = do
  object ← unmarshal_object raw decode_json
  updated ← replace_raft_json_value (object_field object k) path value
  write_field object k updated
