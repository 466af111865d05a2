-- ===== src/Raft/Json/Paths.antt =====
-- What `replaceRaftJSONValue` does to the values at the paths of a document.
use fabric_ops.Prelude.{
  String, Bool, true, false, List, [], ◌∷◌, Option, none, some, ◌≡◌, refl, ◌==◌, eq_iff, eq_refl,
  arith, if◌then◌else◌, Bool-cases, inl, inr, subst, sym, ◌∙◌,
}
use fabric_ops.Prelude.Maps.{Map, lookup, insert, lookup-insert}
use fabric_ops.Raft.Result.{Error, missing_field, ok, ◌>>=◌}
use fabric_ops.Raft.Json.{
  Json, null, bool, num, str, arr, obj, RawMessage, Fields, end, field, fields_into, of_map,
  unmarshal_object, object_field, present, raft_json_value, write_field, replace_raft_json_value,
}

-- No key stands twice.
abbrev Distinct : Map Json → Type 0
Distinct [] = Unit
Distinct ((k, j) ∷ m) = (lookup k m ≡ none) × Distinct m

insert-Distinct : (k : String) (j : Json) (m : Map Json) → Distinct m → Distinct (insert k j m)
unfolding insert lookup
insert-Distinct k j [] d = (refl, tt)
insert-Distinct k j ((i, w) ∷ m) d = elim (Bool-cases (i == k)) [
  | inl e ↦ rw e (subst (λ x. lookup x m ≡ none) ((eq_iff i k).0 e) d.0, d.1)
  | inr e ↦
      rw e
        (ground (arith, lookup-insert k i j m, eq_iff i k, eq_iff k i), insert-Distinct k j m d.1)
]

fields_into-Distinct : (m : Map Json) (fs : Fields) → Distinct m → Distinct (fields_into m fs)
unfolding fields_into
fields_into-Distinct m end d = d
fields_into-Distinct m (field k j fs) d =
    fields_into-Distinct (insert k j m) fs (insert-Distinct k j m d)

-- The first of two.
abbrev or_else : Option Json → Option Json → Option Json
or_else none b = b
or_else (some a) b = some a

lookup-fields_into :
    (k : String) (acc m : Map Json)
    → Distinct m
    → lookup k (fields_into acc (of_map m)) ≡ or_else (lookup k m) (lookup k acc)
unfolding fields_into of_map lookup
lookup-fields_into k acc [] d = refl
lookup-fields_into k acc ((i, w) ∷ m) d =
    ground (arith, lookup-fields_into k (insert i w acc) m d.1, lookup-insert i k w acc, eq_iff i k)

or_else-none : (o : Option Json) → or_else o none ≡ o
or_else-none none = refl
or_else-none (some j) = refl

-- A write to the map of an object, read back from the object that is written.
lookup_written :
    (k q : String) (j : Json) (fs : Fields)
    → lookup q (fields_into [] (of_map (insert k j (fields_into [] fs))))
      ≡ (if k == q then some j else lookup q (fields_into [] fs))
unfolding lookup
lookup_written k q j fs =
    lookup-fields_into q [] (insert k j (fields_into [] fs))
      (insert-Distinct k j _ (fields_into-Distinct [] fs tt))
    ∙ or_else-none _
    ∙ lookup-insert k q j (fields_into [] fs)

abbrev pub is_null : Json → Bool
is_null null = true
is_null _ = false

present-ok : (j : Json) (e : Error) → is_null j ≡ false → present (some j) e ≡ ok j
unfolding present
present-ok null e h = cc
present-ok _ e h = refl

-- What a successful read of a field says of the document.
record Reads (raw : RawMessage) (k : String) (path : List String) (x : RawMessage) : Type 0 where
  fields : Fields
  value : Json
  is_object : raw ≡ some (obj fields)
  found : lookup k (fields_into [] fields) ≡ some value
  not_null : is_null value ≡ false
  rest : raft_json_value (some value) path ≡ ok x

read_value :
    (fs : Fields) (k : String) (path : List String) {x : RawMessage} (o : RawMessage) (e : Error)
    → lookup k (fields_into [] fs) ≡ o
    → (present o e >>= λ v. raft_json_value (some v) path) ≡ ok x
    → Reads (some (obj fs)) k path x
unfolding present
read_value fs k path none e eq h = cc
read_value fs k path (some null) e eq h = cc
read_value fs k path (some (bool b)) e eq h = record {
  fields = fs;
  value = bool b;
  is_object = refl;
  found = eq;
  not_null = refl;
  rest = h;
}
read_value fs k path (some (num n)) e eq h = record {
  fields = fs;
  value = num n;
  is_object = refl;
  found = eq;
  not_null = refl;
  rest = h;
}
read_value fs k path (some (str s)) e eq h = record {
  fields = fs;
  value = str s;
  is_object = refl;
  found = eq;
  not_null = refl;
  rest = h;
}
read_value fs k path (some (arr js)) e eq h = record {
  fields = fs;
  value = arr js;
  is_object = refl;
  found = eq;
  not_null = refl;
  rest = h;
}
read_value fs k path (some (obj gs)) e eq h = record {
  fields = fs;
  value = obj gs;
  is_object = refl;
  found = eq;
  not_null = refl;
  rest = h;
}

Reads-field :
    (raw : RawMessage) (k : String) (path : List String) {x : RawMessage}
    → raft_json_value raw (k ∷ path) ≡ ok x
    → Reads raw k path x
unfolding raft_json_value unmarshal_object object_field present
Reads-field none k path h = cc
Reads-field (some null) k path h = cc
Reads-field (some (bool b)) k path h = cc
Reads-field (some (num b)) k path h = cc
Reads-field (some (str b)) k path h = cc
Reads-field (some (arr b)) k path h = cc
Reads-field (some (obj fs)) k path h = read_value fs k path (lookup k (fields_into [] fs)) _ refl h

-- The paths part at some field.
abbrev pub diverge : List String → List String → Bool
diverge [] q = false
diverge (k ∷ p) [] = false
diverge (k ∷ p) (j ∷ q) = if k == j then diverge p q else true

-- A replacement at a path that the document has: it succeeds, the new value is read at the path,
-- and at a path that parts from it the result of a read is what it was.
pub record Replaces (raw : RawMessage) (path : List String) (v : Json) : Type 0 where
  pub result : Json
  pub replaced : replace_raft_json_value raw path v ≡ ok result
  pub read_back : raft_json_value (some result) path ≡ ok (some v)
  pub frame :
      (q : List String)
      → diverge path q ≡ true
      → raft_json_value (some result) q ≡ raft_json_value raw q
  not_null : is_null result ≡ false

-- The object with a field written.
written : String → Fields → Json → Json
written k fs r = obj (of_map (insert k r (fields_into [] fs)))

module _ (k : String) (fs : Fields) where
  read_written :
      (r : Json) (q : List String)
      → is_null r ≡ false
      → raft_json_value (some (written k fs r)) (k ∷ q) ≡ raft_json_value (some r) q
  unfolding written raft_json_value unmarshal_object object_field
  read_written r q nn =
      rw (lookup_written k k r fs, eq_refl k) (rw (present-ok r (missing_field k) nn))

  -- Another field has the value it had.
  read_other :
      (r : Json) (j : String) (q : List String)
      → (k == j) ≡ false
      → raft_json_value (some (written k fs r)) (j ∷ q) ≡ raft_json_value (some (obj fs)) (j ∷ q)
  unfolding written raft_json_value unmarshal_object object_field
  read_other r j q ne = rw (lookup_written k j r fs, ne)

  read_same :
      (value : Json) (q : List String)
      → lookup k (fields_into [] fs) ≡ some value
      → is_null value ≡ false
      → raft_json_value (some (obj fs)) (k ∷ q) ≡ raft_json_value (some value) q
  unfolding raft_json_value unmarshal_object object_field
  read_same value q found nn = rw found (rw (present-ok value (missing_field k) nn))

module _ (k : String) (path : List String) (v : Json) (fs : Fields) (value : Json)
    (found : lookup k (fields_into [] fs) ≡ some value) (not_null : is_null value ≡ false)
    (ih : Replaces (some value) path v) where
  replaced_field :
      replace_raft_json_value (some (obj fs)) (k ∷ path) v ≡ ok (written k fs ih.result)
  unfolding written replace_raft_json_value unmarshal_object object_field write_field
  replaced_field = rw found (rw ih.replaced refl)

  frame_field :
      (q : List String)
      → diverge (k ∷ path) q ≡ true
      → raft_json_value (some (written k fs ih.result)) q ≡ raft_json_value (some (obj fs)) q
  frame_field [] d = cc
  frame_field (j ∷ q) d = elim (Bool-cases (k == j)) [
    | inl e ↦
        subst
          (λ y.
            raft_json_value (some (written k fs ih.result)) (y ∷ q)
            ≡ raft_json_value (some (obj fs)) (y ∷ q))
          ((eq_iff k j).0 e)
          (read_written k fs ih.result q ih.not_null
            ∙ ih.frame q (rw e at d)
            ∙ sym (read_same k fs value q found not_null))
    | inr ne ↦ read_other k fs ih.result j q ne
  ]

  Replaces-field : Replaces (some (obj fs)) (k ∷ path) v
  Replaces-field = record {
    result = written k fs ih.result;
    replaced = replaced_field;
    read_back = read_written k fs ih.result path ih.not_null ∙ ih.read_back;
    frame = frame_field;
    not_null = unfold written in refl;
  }

-- At a path that raftJSONValue can read, replaceRaftJSONValue puts a value that is not null:
-- it returns a document that reads as the value at that path, and as the old document at
-- every path that parts from it.
pub replaces :
    (raw : RawMessage) (path : List String) (v : Json) {x : RawMessage}
    → raft_json_value raw path ≡ ok x
    → is_null v ≡ false
    → Replaces raw path v
unfolding raft_json_value replace_raft_json_value
replaces raw [] v h nn = record {
  result = v;
  replaced = refl;
  read_back = refl;
  frame = λ q d. cc;
  not_null = nn;
}
replaces raw (k ∷ path) v h nn =
    let r = Reads-field raw k path h in
    subst (λ d. Replaces d (k ∷ path) v) (sym r.is_object)
      (Replaces-field k path v r.fields r.value r.found r.not_null
        (replaces (some r.value) path v r.rest nn))
