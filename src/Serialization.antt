-- ===== src/Serialization.antt =====
-- src/pq/serialization.py: the arguments of a task, to and from a JSONB column.
-- `dill`, `base64`, `json` and pydantic are a record of functions.
pub mod Marks
pub mod RoundTrip
use pq.Base.{
  ℕ, suc, ◌==◌, Bool, true, false, Option, none, some, List, [], ◌∷◌, Text, text_eq, if◌then◌else◌,
}
use pq.Errors.{Result, ok, err, attribute_error, ◌>>=◌}
use pq.Models.{Json, Payload}

pub record Codec : Type 1 where
  -- values of Python
  pub Value : Type 0
  pub Bytes : Type 0
  -- `value.model_dump()` of a pydantic `BaseModel`, and `none` for any other value
  pub model_dump : Value → Option Value
  -- `json.dumps(value)` raises neither TypeError nor ValueError
  pub json_dumps : Value → Bool
  pub dill_dumps : Value → Result Bytes
  pub dill_loads : Bytes → Result Value
  pub b64encode : Bytes → Text
  pub b64decode : Text → Result Bytes
  -- a `str`, and its text
  pub from_text : Text → Value
  pub as_text : Value → Option Text
  -- what the column type writes of a value, and the value that it reads
  pub to_json : Value → Result Json
  pub of_json : Json → Value
  -- the order in which JSONB keeps the pairs of an object
  pub stored : List (Text × Json) → List (Text × Json)

-- Membership in the sets that `deserialize` builds.
unfoldable pub index_in : ℕ → List ℕ → Bool
index_in i [] = false
index_in i (j ∷ is) = if j == i then true else index_in i is

unfoldable pub key_in : Text → List Text → Bool
key_in k [] = false
key_in k (j ∷ ks) = if text_eq j k then true else key_in k ks

module _ (c : Codec) where
  open c use {
    Value, Bytes, model_dump, json_dumps, dill_dumps, dill_loads, b64encode, b64decode, from_text,
    as_text, to_json, of_json, stored,
  }

  -- The dictionary of `serialize`, before it is written to the column.
  pub record Serialized : Type 0 where
    pub args : List Value
    pub kwargs : List (Text × Value)
    pub pickled_args : List ℕ
    pub pickled_kwargs : List Text

  unfoldable pub pickle : Value → Result (Value × Bool)
  pickle value = do pickled ← dill_dumps value; ok (from_text (b64encode pickled), true)

  unfoldable pub prepare_value : Value → Result (Value × Bool)
  unfolding pickle
  prepare_value value = elim (model_dump value) [
    | some dumped ↦ ok (dumped, false)
    | none ↦ if json_dumps value then ok (value, false) else pickle value
  ]

  unfoldable pub restore_value : Value → Bool → Result Value
  restore_value value false = ok value
  restore_value value true = elim (as_text value) [
    | none ↦ err attribute_error
    | some t ↦ b64decode t >>= dill_loads
  ]

  -- The first loop of `serialize`, from index `i` on.
  unfoldable pub serialize_args : ℕ → List Value → Result (List Value × List ℕ)
  serialize_args i [] = ok ([], [])
  serialize_args i (arg ∷ args) = do
    (prepared, is_pickled) ← prepare_value arg
    (values, indices) ← serialize_args (suc i) args
    ok (prepared ∷ values, if is_pickled then i ∷ indices else indices)

  -- The second loop.
  unfoldable pub serialize_kwargs : List (Text × Value) → Result (List (Text × Value) × List Text)
  serialize_kwargs [] = ok ([], [])
  serialize_kwargs ((key, value) ∷ kwargs) = do
    (prepared, is_pickled) ← prepare_value value
    (values, keys) ← serialize_kwargs kwargs
    ok ((key, prepared) ∷ values, if is_pickled then key ∷ keys else keys)

  unfoldable pub serialize : List Value → List (Text × Value) → Result Serialized
  unfolding serialize_args serialize_kwargs prepare_value
  serialize args kwargs = do
    (values, indices) ← serialize_args 0 args
    (fields, keys) ← serialize_kwargs kwargs
    ok (record { args = values; kwargs = fields; pickled_args = indices; pickled_kwargs = keys })

  unfoldable pub restore_args : List ℕ → ℕ → List Value → Result (List Value)
  restore_args indices i [] = ok []
  restore_args indices i (arg ∷ args) = do
    value ← restore_value arg (index_in i indices)
    values ← restore_args indices (suc i) args
    ok (value ∷ values)

  unfoldable pub restore_kwargs : List Text → List (Text × Value) → Result (List (Text × Value))
  restore_kwargs keys [] = ok []
  restore_kwargs keys ((key, arg) ∷ args) = do
    value ← restore_value arg (key_in key keys)
    values ← restore_kwargs keys args
    ok ((key, value) ∷ values)

  unfoldable pub deserialize : Serialized → Result (List Value × List (Text × Value))
  unfolding restore_args restore_kwargs restore_value index_in key_in
  deserialize s = do
    args ← restore_args s.pickled_args 0 s.args
    kwargs ← restore_kwargs s.pickled_kwargs s.kwargs
    ok (args, kwargs)

  unfoldable pub write_args : List Value → Result (List Json)
  write_args [] = ok []
  write_args (v ∷ vs) = do j ← to_json v; js ← write_args vs; ok (j ∷ js)

  unfoldable pub write_kwargs : List (Text × Value) → Result (List (Text × Json))
  write_kwargs [] = ok []
  write_kwargs ((k, v) ∷ vs) = do j ← to_json v; js ← write_kwargs vs; ok ((k, j) ∷ js)

  -- The column type at work on a whole payload: JSONB does not keep the order of an object's keys.
  unfoldable pub to_column : Serialized → Result Payload
  unfolding write_args write_kwargs
  to_column s = do
    args ← write_args s.args
    kwargs ← write_kwargs s.kwargs
    ok (record {
      args = args;
      kwargs = stored kwargs;
      pickled_args = s.pickled_args;
      pickled_kwargs = s.pickled_kwargs;
    })

  unfoldable pub read_args : List Json → List Value
  read_args [] = []
  read_args (j ∷ js) = of_json j ∷ read_args js

  unfoldable pub read_kwargs : List (Text × Json) → List (Text × Value)
  read_kwargs [] = []
  read_kwargs ((k, j) ∷ js) = (k, of_json j) ∷ read_kwargs js

  unfoldable pub of_column : Payload → Serialized
  unfolding read_args read_kwargs
  of_column p = record {
    args = read_args p.args;
    kwargs = read_kwargs p.kwargs;
    pickled_args = p.pickled_args;
    pickled_kwargs = p.pickled_kwargs;
  }
