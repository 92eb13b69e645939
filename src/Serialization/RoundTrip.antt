-- ===== src/Serialization/RoundTrip.antt =====
-- What a handler receives for the arguments that a client passed, through the JSONB column.
use mathlib.Core.List.{Permᴰ}
use mathlib.Core.List.Permᴰ
use pq.Base.{
  map, text_eq_refl, ℕ, suc, ◌≤◌, ◌≡◌, refl, sym, ap, subst, ◌∙◌, inl, inr, Bool, true, false, none,
  some, List, [], ◌∷◌, Text, arith, Option-cases, Bool-cases,
}
use pq.Errors.{ok, >>=-eq-ok}
use pq.Models.{Json, Payload}
use pq.Serialization.{
  Codec, Serialized, index_in, key_in, prepare_value, restore_value, pickle, serialize_args,
  serialize_kwargs, serialize, restore_args, restore_kwargs, deserialize, write_args, write_kwargs,
  to_column, read_args, read_kwargs, of_column,
}
use pq.Serialization.Marks.{
  ok_pair, mark, indices_from, index_in-mark, index_in-mark_later, key_in-mark_here,
  key_in-mark_apart, key_in_cons, key_in-apart, key_in-unmarked,
}

module _ (c : Codec) where
  open c use {
    Value, Bytes, model_dump, json_dumps, dill_dumps, dill_loads, b64encode, b64decode, from_text,
    as_text, to_json, of_json, stored,
  }

  -- What the libraries document: `dill` and base64 give back what they took, and a text comes out of
  -- a JSON column as it went in, and an object's pairs in some order.
  pub record Lawful : Type 0 where
    pub dill_lem : (v : Value) (b : Bytes) → dill_dumps v ≡ ok b → dill_loads b ≡ ok v
    pub b64_lem : (b : Bytes) → b64decode (b64encode b) ≡ ok b
    pub text_lem :
        (t : Text) (j : Json) → to_json (from_text t) ≡ ok j → as_text (of_json j) ≡ some t
    pub stored_lem : (fs : List (Text × Json)) → Permᴰ fs (stored fs)

  -- A value and what the handler gets for it: a model as the JSON of its dump, a value that JSON
  -- takes as its JSON, and any other as it was.
  pub data Received (v w : Value) : Type 0 where
    dumped :
        (d : Value) (j : Json)
        → model_dump v ≡ some d
        → to_json d ≡ ok j
        → w ≡ of_json j
        → Received v w
    as_json :
        (j : Json)
        → model_dump v ≡ none
        → json_dumps v ≡ true
        → to_json v ≡ ok j
        → w ≡ of_json j
        → Received v w
    as_it_was : model_dump v ≡ none → json_dumps v ≡ false → w ≡ v → Received v w

  prepare_model : (v d : Value) → model_dump v ≡ some d → prepare_value c v ≡ ok (d, false)
  unfolding prepare_value
  prepare_model v d m = rw (m, prepare_value) refl

  prepare_json :
      (v : Value) → model_dump v ≡ none → json_dumps v ≡ true → prepare_value c v ≡ ok (v, false)
  unfolding prepare_value
  prepare_json v m t = rw (m, t, prepare_value) refl

  prepare_other :
      (v : Value) → model_dump v ≡ none → json_dumps v ≡ false → prepare_value c v ≡ pickle c v
  unfolding prepare_value
  prepare_other v m f = rw (m, f, prepare_value) refl

  pickled_text :
      (v x : Value) (b : Bool)
      → pickle c v ≡ ok (x, b)
      → (d : Bytes) × (dill_dumps v ≡ ok d) × (x ≡ from_text (b64encode d)) × (b ≡ true)
  unfolding pickle
  pickled_text v x b e =
      let (d, h, k) = >>=-eq-ok (dill_dumps v) _ e in (d, h, (ok_pair k).0, (ok_pair k).1)

  module _ (laws : Lawful) where
    -- One value, prepared, written and read.
    restored :
        (v x : Value) (b : Bool) (j : Json)
        → prepare_value c v ≡ ok (x, b)
        → to_json x ≡ ok j
        → (w : Value) × (restore_value c (of_json j) b ≡ ok w) × Received v w
    unfolding restore_value
    restored v x b j e h = elim (Option-cases (model_dump v)) [
      | inl m ↦ elim (Bool-cases (json_dumps v)) [
        | inl t ↦
            let (p, q) = ok_pair (sym (prepare_json v m t) ∙ e) in
            (of_json j, rw q refl, as_json j m t (ap to_json (sym p) ∙ h) refl)
        | inr f ↦
            let (d, dumps, p, q) = pickled_text v x b (sym (prepare_other v m f) ∙ e) in
            (v, rw q (unpickled d dumps (ap to_json (sym p) ∙ h)), as_it_was m f refl)
      ]
      | inr (d, m) ↦
          let (p, q) = ok_pair (sym (prepare_model v d m) ∙ e) in
          (of_json j, rw q refl, dumped d j m (ap to_json (sym p) ∙ h) refl)
    ]
      where
        unpickled :
            (d : Bytes)
            → dill_dumps v ≡ ok d
            → to_json (from_text (b64encode d)) ≡ ok j
            → restore_value c (of_json j) true ≡ ok v
        unpickled d dumps k =
            rw (restore_value, laws.text_lem (b64encode d) j k, laws.b64_lem d)
              (laws.dill_lem v d dumps)

-- The values that a handler receives, in their order.
abbrev pub AllReceived : (c : Codec) → List c.Value → List c.Value → Type 0
AllReceived c [] [] = Unit
AllReceived c [] (w ∷ ws) = ⊥
AllReceived c (v ∷ vs) [] = ⊥
AllReceived c (v ∷ vs) (w ∷ ws) = Received c v w × AllReceived c vs ws

restore_args-cons :
    (c : Codec) (full : List ℕ) (i : ℕ) (j : Json) (js : List Json) (b : Bool) (w : c.Value)
    (ws : List c.Value)
    → index_in i full ≡ b
    → restore_value c (c.of_json j) b ≡ ok w
    → restore_args c full (suc i) (read_args c js) ≡ ok ws
    → restore_args c full i (read_args c (j ∷ js)) ≡ ok (w ∷ ws)
unfolding restore_args read_args
restore_args-cons c full i j js b w ws here r rs = rw (here, r, rs) refl

args_received :
    (c : Codec) (laws : Lawful c) (full : List ℕ) (i : ℕ) (vs xs : List c.Value) (is : List ℕ)
    (js : List Json)
    → ((k : ℕ) → i ≤ k → index_in k full ≡ index_in k is)
    → serialize_args c i vs ≡ ok (xs, is)
    → write_args c xs ≡ ok js
    → (ws : List c.Value) × (restore_args c full i (read_args c js) ≡ ok ws) × AllReceived c vs ws
unfolding serialize_args write_args restore_args read_args mark
args_received c laws full i [] xs is js agree e h =
    let none_written : js ≡ [] = cc (ap (write_args c) (ok_pair e).0, h) in
    ([], rw none_written refl, tt)
args_received c laws full i (v ∷ vs) xs is js agree e h =
    let ((x, b), p, e1) = >>=-eq-ok (prepare_value c v) _ e in
    let ((xs', is'), q, e2) = >>=-eq-ok (serialize_args c (suc i) vs) _ e1 in
    let (j, to, h1) = >>=-eq-ok (c.to_json x) _ (ap (write_args c) (sym (ok_pair e2).0) ∙ h) in
    let (js', tos, h2) = >>=-eq-ok (write_args c xs') _ h1 in
    let later = indices_from c (suc i) vs xs' is' q in
    let here : index_in i full ≡ b =
      agree i (omega arith) ∙ ap (index_in i) (ok_pair e2).1 ∙ index_in-mark i b is' later in
    let (w, r, got) = restored c laws v x b j p to in
    let (ws, rs, gots) =
      args_received c laws full (suc i) vs xs' is' js'
        (λ k m.
          agree k (omega (arith, m))
          ∙ ap (index_in k) (ok_pair e2).1
          ∙ index_in-mark_later i k b is' m)
        q tos in
    let split : js ≡ j ∷ js' = cc h2 in
    (
      w ∷ ws,
      ap (λ z. restore_args c full i (read_args c z)) split
          ∙ restore_args-cons c full i j js' b w ws here r rs,
      (got, gots),
    )

-- A dictionary has a key once.
abbrev pub HasDistinctKeys : {A : Type 0} → List (Text × A) → Type 0
HasDistinctKeys [] = Unit
HasDistinctKeys (kv ∷ kvs) = (key_in kv.0 (map (λ u. u.0) kvs) ≡ false) × HasDistinctKeys kvs

-- The keywords that a handler receives, in the order of the call.
abbrev pub AllReceivedByKey : (c : Codec) → List (Text × c.Value) → List (Text × c.Value) → Type 0
AllReceivedByKey c [] [] = Unit
AllReceivedByKey c [] (w ∷ ws) = ⊥
AllReceivedByKey c (v ∷ vs) [] = ⊥
AllReceivedByKey c (v ∷ vs) (w ∷ ws) = (v.0 ≡ w.0) × Received c v.1 w.1 × AllReceivedByKey c vs ws

restore_kwargs-cons :
    (c : Codec) (full : List Text) (k : Text) (j : Json) (js : List (Text × Json)) (b : Bool)
    (w : c.Value) (ws : List (Text × c.Value))
    → key_in k full ≡ b
    → restore_value c (c.of_json j) b ≡ ok w
    → restore_kwargs c full (read_kwargs c js) ≡ ok ws
    → restore_kwargs c full (read_kwargs c ((k, j) ∷ js)) ≡ ok ((k, w) ∷ ws)
unfolding restore_kwargs read_kwargs
restore_kwargs-cons c full k j js b w ws here r rs = rw (here, r, rs) refl

kwargs_received :
    (c : Codec) (laws : Lawful c) (full : List Text) (kvs xs : List (Text × c.Value))
    (ks : List Text) (js : List (Text × Json))
    → HasDistinctKeys kvs
    → ((k : Text) → key_in k (map (λ u. u.0) kvs) ≡ true → key_in k full ≡ key_in k ks)
    → serialize_kwargs c kvs ≡ ok (xs, ks)
    → write_kwargs c xs ≡ ok js
    → (ws : List (Text × c.Value)) × (restore_kwargs c full (read_kwargs c js) ≡ ok ws)
      × AllReceivedByKey c kvs ws
unfolding serialize_kwargs write_kwargs restore_kwargs read_kwargs mark key_in
kwargs_received c laws full [] xs ks js d agree e h =
    let none_written : js ≡ [] = cc (ap (write_kwargs c) (ok_pair e).0, h) in
    ([], rw none_written refl, tt)
kwargs_received c laws full ((k, v) ∷ kvs) xs ks js d agree e h =
    let ((x, b), p, e1) = >>=-eq-ok (prepare_value c v) _ e in
    let ((xs', ks'), q, e2) = >>=-eq-ok (serialize_kwargs c kvs) _ e1 in
    let (j, to, h1) = >>=-eq-ok (c.to_json x) _ (ap (write_kwargs c) (sym (ok_pair e2).0) ∙ h) in
    let (js', tos, h2) = >>=-eq-ok (write_kwargs c xs') _ h1 in
    let here : key_in k full ≡ b =
      agree k (first k (map (λ u. u.0) kvs))
      ∙ ap (key_in k) (ok_pair e2).1
      ∙ key_in-mark_here k b ks' (key_in-unmarked c k kvs xs' ks' q d.0) in
    let (w, r, got) = restored c laws v x b j p to in
    let (ws, rs, gots) =
      kwargs_received c laws full kvs xs' ks' js' d.1
        (λ i m.
          agree i (later i m)
          ∙ ap (key_in i) (ok_pair e2).1
          ∙ key_in-mark_apart k i b ks' (key_in-apart k i (map (λ u. u.0) kvs) d.0 m))
        q tos in
    let split : js ≡ (k, j) ∷ js' = cc h2 in
    (
      (k, w) ∷ ws,
      ap (λ z. restore_kwargs c full (read_kwargs c z)) split
          ∙ restore_kwargs-cons c full k j js' b w ws here r rs,
      (refl, got, gots),
    )
  where
    first : (i : Text) (is : List Text) → key_in i (i ∷ is) ≡ true
    first i is = rw (key_in, text_eq_refl i) refl

    later :
        (i : Text) → key_in i (map (λ u. u.0) kvs) ≡ true → key_in i (k ∷ map (λ u. u.0) kvs) ≡ true
    later i m = key_in_cons i k (map (λ u. u.0) kvs) m

deserialize-columns :
    (c : Codec) (js : List Json) (fs : List (Text × Json)) (is : List ℕ) (ks : List Text)
    (ws : List c.Value) (kws : List (Text × c.Value))
    → restore_args c is 0 (read_args c js) ≡ ok ws
    → restore_kwargs c ks (read_kwargs c fs) ≡ ok kws
    → deserialize c
        (of_column c (record { args = js; kwargs = fs; pickled_args = is; pickled_kwargs = ks }))
      ≡ ok (ws, kws)
unfolding deserialize of_column
deserialize-columns c js fs is ks ws kws a b = rw (a, b) refl

module _ (c : Codec) (keys : List Text) where
  abbrev ComeBackAs : List (Text × Json) → List (Text × c.Value) → Type 0
  ComeBackAs fs ws = restore_kwargs c keys (read_kwargs c fs) ≡ ok ws

  restore_kwargs-head :
      (k : Text) (j : Json) (fs : List (Text × Json)) (ws : List (Text × c.Value))
      → ComeBackAs ((k, j) ∷ fs) ws
      → (v : c.Value) × (vs : List (Text × c.Value)) × (restore_value c
            (c.of_json j)
            (key_in k keys)
          ≡ ok v)
        × ComeBackAs fs vs
        × ((k, v) ∷ vs ≡ ws)
  unfolding restore_kwargs read_kwargs
  restore_kwargs-head k j fs ws e =
      let (v, r, e1) = >>=-eq-ok (restore_value c (c.of_json j) (key_in k keys)) _ e in
      let (vs, rs, e2) = >>=-eq-ok (restore_kwargs c keys (read_kwargs c fs)) _ e1 in
      (v, vs, r, rs, cc e2)

  -- What the pairs in another order come back as.
  abbrev Reordered : List (Text × c.Value) → List (Text × Json) → Type 0
  Reordered ws gs = (us : List (Text × c.Value)) × ComeBackAs gs us × Permᴰ ws us

  -- Pairs in another order come back in another order.
  restore_kwargs-Reordered :
      {fs gs : List (Text × Json)} (ws : List (Text × c.Value))
      → Permᴰ fs gs
      → ComeBackAs fs ws
      → Reordered ws gs
  restore_kwargs-Reordered ws Permᴰ.nil e = (ws, e, Permᴰ.refl ws)
  restore_kwargs-Reordered ws (Permᴰ.cons {a = (k, j)} {l₁ = fs} {l₂ = gs} q p) e =
      let (v, vs, r, rs, w) = restore_kwargs-head k j fs ws e in
      let (us, ts, order) = restore_kwargs-Reordered vs p rs in
      subst (λ b. Reordered ws (b ∷ gs)) q
        (subst (λ x. Reordered x ((k, j) ∷ gs)) w
          (
            (k, v) ∷ us,
            restore_kwargs-cons c keys k j gs (key_in k keys) v us refl r ts,
            Permᴰ.cons refl order,
          ))
  restore_kwargs-Reordered ws (Permᴰ.swap {a = (k, j)} {b = (k', j')} {b' = last} {l = fs} q q') e =
      let (v, vs, r, rs, w) = restore_kwargs-head k j ((k', j') ∷ fs) ws e in
      let (v', vs', r', rs', w') = restore_kwargs-head k' j' fs vs rs in
      subst (λ b. Reordered ws (b ∷ last ∷ fs)) q'
        (subst (λ b. Reordered ws ((k', j') ∷ b ∷ fs)) q
          (subst (λ x. Reordered x ((k', j') ∷ (k, j) ∷ fs)) (ap (λ z. (k, v) ∷ z) w' ∙ w)
            (
              (k', v') ∷ (k, v) ∷ vs',
              restore_kwargs-cons c keys k' j' ((k, j) ∷ fs) (key_in k' keys) v' ((k, v) ∷ vs') refl
                  r' (restore_kwargs-cons c keys k j fs (key_in k keys) v vs' refl r rs'),
              Permᴰ.swap refl refl,
            )))
  restore_kwargs-Reordered ws (Permᴰ.trans p p') e =
      let (us, ts, order) = restore_kwargs-Reordered ws p e in
      let (us', ts', order') = restore_kwargs-Reordered us p' ts in
      (us', ts', Permᴰ.trans order order')

module _ (c : Codec) (laws : Lawful c) where
  -- Whatever a client's call writes to the column, a worker reads: the handler gets every positional
  -- argument in its place and every keyword under its key, in some order, a pydantic model as the JSON
  -- of its dump, a value that JSON takes as the JSON of it, and any other value as it was. No keyword
  -- comes twice, and `dill`, base64, JSON texts and, but for the order of the keys, JSON objects come
  -- out as they went in.
  pub deserialize-serialize :
      (args : List c.Value) (kwargs : List (Text × c.Value)) (s : Serialized c) (p : Payload)
      → HasDistinctKeys kwargs
      → serialize c args kwargs ≡ ok s
      → to_column c s ≡ ok p
      → (ws : List c.Value) × (kws : List (Text × c.Value)) × (deserialize c (of_column c p)
          ≡ ok (ws, kws))
        × AllReceived c args ws
        × (in_order : List (Text × c.Value)) × AllReceivedByKey c kwargs in_order
        × Permᴰ in_order kws
  unfolding serialize to_column
  deserialize-serialize args kwargs s p d e h =
      let ((xs, is), q, e1) = >>=-eq-ok (serialize_args c 0 args) _ e in
      let ((fs, ks), r, e2) = >>=-eq-ok (serialize_kwargs c kwargs) _ e1 in
      let written : Serialized c = record {
        args = xs;
        kwargs = fs;
        pickled_args = is;
        pickled_kwargs = ks;
      } in
      let same : written ≡ s = cc e2 in
      let (js, to, h1) = >>=-eq-ok (write_args c xs) _ (ap (to_column c) same ∙ h) in
      let (jfs, tos, h2) = >>=-eq-ok (write_kwargs c fs) _ h1 in
      let column : Payload = record {
        args = js;
        kwargs = c.stored jfs;
        pickled_args = is;
        pickled_kwargs = ks;
      } in
      let stored : column ≡ p = cc h2 in
      let (ws, a, got) = args_received c laws is 0 args xs is js (λ k m. refl) q to in
      let (sorted, b, gots) = kwargs_received c laws ks kwargs fs ks jfs d (λ k m. refl) r tos in
      let (kws, b', same_pairs) = restore_kwargs-Reordered c ks sorted (laws.stored_lem jfs) b in
      (
        ws,
        kws,
        ap (λ z. deserialize c (of_column c z)) (sym stored)
            ∙ deserialize-columns c js (c.stored jfs) is ks ws kws a b',
        got,
        sorted,
        gots,
        same_pairs,
      )
