-- ===== src/Tests/Serialization.antt =====
-- The round trip of arguments that JSON takes and of one that is pickled.
use mathlib.Core.List.{Permᴰ}
use mathlib.Core.List.Permᴰ
use pq.Base.{
  zero, suc, ◌≡◌, refl, sym, ap, Bool, true, false, none, some, List, [], ◌∷◌, ◌++◌, Text, codes,
  text_eq,
}
use pq.Errors.{Result, ok, err, attribute_error}
use pq.Models.{Json, str, Payload}
use pq.Serialization.{
  Codec, Serialized, serialize, deserialize, to_column, of_column, prepare_value, pickle,
  serialize_args, serialize_kwargs, key_in,
}
use pq.Serialization.RoundTrip.{Lawful, AllReceived, AllReceivedByKey, deserialize-serialize}
use pq.Tests.Samples.{read_json}

-- `dill` writes the text and whether JSON takes it.
abbrev dumps : Text × Bool → Text
dumps (t, true) = 1 ∷ t
dumps (t, false) = 0 ∷ t

abbrev loads : Text → Result (Text × Bool)
loads [] = err attribute_error
loads (zero ∷ t) = ok (t, false)
loads (suc n ∷ t) = ok (t, true)

-- JSONB may keep the pairs in the reverse order.
abbrev reversed : List (Text × Json) → List (Text × Json)
reversed [] = []
reversed (f ∷ fs) = reversed fs ++ f ∷ []

reversed-Perm : (fs : List (Text × Json)) → Permᴰ fs (reversed fs)
reversed-Perm [] = Permᴰ.nil
reversed-Perm (f ∷ fs) =
    Permᴰ.trans (Permᴰ.cons refl (reversed-Perm fs)) (Permᴰ.append_comm (f ∷ []) (reversed fs))

abbrev exact_codec : Codec
exact_codec = record {
  Value = Text × Bool;
  Bytes = Text;
  model_dump = λ v. none;
  json_dumps = λ v. v.1;
  dill_dumps = λ v. ok (dumps v);
  dill_loads = loads;
  b64encode = λ b. b;
  b64decode = λ t. ok t;
  from_text = λ t. (t, true);
  as_text = λ v. some v.0;
  to_json = λ v. ok (str v.0);
  of_json = read_json;
  stored = reversed;
}

exact_codec-Lawful : Lawful exact_codec
exact_codec-Lawful = record {
  dill_lem = undumped;
  b64_lem = λ b. refl;
  text_lem = read_text;
  stored_lem = reversed-Perm;
}
  where
    undumped : (v : Text × Bool) (b : Text) → ok (dumps v) ≡ ok b → loads b ≡ ok v
    undumped (t, true) b e = let q : 1 ∷ t ≡ b = cc e in ap loads (sym q)
    undumped (t, false) b e = let q : 0 ∷ t ≡ b = cc e in ap loads (sym q)

    read_text : (t : Text) (j : Json) → ok (str t) ≡ ok j → some (read_json j).0 ≡ some t
    read_text t j e = let q : str t ≡ j = cc e in ap (λ z. some (read_json z).0) (sym q)

abbrev call_args : List (Text × Bool)
call_args = (codes "a", true) ∷ (codes "f", false) ∷ []

abbrev call_kwargs : List (Text × (Text × Bool))
call_kwargs = (codes "x", (codes "g", false)) ∷ (codes "y", (codes "b", true)) ∷ []

abbrev call_serialized : Serialized exact_codec
call_serialized = record {
  args = (codes "a", true) ∷ (0 ∷ codes "f", true) ∷ [];
  kwargs = (codes "x", (0 ∷ codes "g", true)) ∷ (codes "y", (codes "b", true)) ∷ [];
  pickled_args = 1 ∷ [];
  pickled_kwargs = codes "x" ∷ [];
}

abbrev call_payload : Payload
call_payload = record {
  args = str (codes "a") ∷ str (0 ∷ codes "f") ∷ [];
  kwargs = (codes "y", str (codes "b")) ∷ (codes "x", str (0 ∷ codes "g")) ∷ [];
  pickled_args = 1 ∷ [];
  pickled_kwargs = codes "x" ∷ [];
}

deserialize-serialize_example :
    (ws : List (Text × Bool)) × (kws : List (Text × (Text × Bool))) × (deserialize exact_codec
        (of_column exact_codec call_payload)
      ≡ ok (ws, kws))
    × AllReceived exact_codec call_args ws
    × (in_order : List (Text × (Text × Bool))) × AllReceivedByKey exact_codec call_kwargs in_order
    × Permᴰ in_order kws
unfolding serialize to_column key_in text_eq serialize_args serialize_kwargs prepare_value pickle
deserialize-serialize_example =
    deserialize-serialize exact_codec exact_codec-Lawful call_args call_kwargs call_serialized
      call_payload (refl, (refl, tt)) refl refl
