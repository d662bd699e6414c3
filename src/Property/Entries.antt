-- ===== src/Property/Entries.antt =====
-- `encode_props` of properties.py: the rounds of the decoder at what it writes.
use fast_mqtt.Prelude.{true}
use fast_mqtt.Property.Ids.{same_id}
use fast_mqtt.Dict.{put-append, put-fresh}
use fast_mqtt.Prelude.{bind-ok}
use fast_mqtt.Prelude.{
  ℕ, ◌+◌, ◌≡◌, ◌≢◌, refl, sym, ap, ◌∙◌, subst, List, [], ◌∷◌, ◌++◌, none, some, arith, append_assoc,
  append-nil,
}
use fast_mqtt.Prelude.{length, length-append}
use fast_mqtt.Prelude.{ok, ◌>>=◌, ok-injective}
use fast_mqtt.Bytes.{Bytes}
use fast_mqtt.Bytes.At.{At, At-skip}
use fast_mqtt.Cursor.{Reads, Decodes, Reads-advance, Reads-bind, Reads-map, advance}
use fast_mqtt.Dict.{get, put, put-fresh, put-append, get-append}
use fast_mqtt.Wire.{encode_varint, encode_str, decode_str}
use fast_mqtt.Wire.Varint.{Decodes-varint}
use fast_mqtt.Wire.RoundTrip.{Decodes-str}
use fast_mqtt.Property.Ids.{PropertyId, id_code, wire_type, user_property, id_eq}
use fast_mqtt.Property.Block.{Value, pairs, Pairs, Properties, pairs_of}
use fast_mqtt.Property.Block.{
  encode_value, encode_pairs, encode_entry, encode_props, encode_props_block,
}
use fast_mqtt.Property.Block.{
  read_id, read_value, read_pair, read_property, read_entry, decode_props_block,
}
use fast_mqtt.Property.Rounds.{
  as_read, Reads-id, Reads-value, Rounds, stop, round, Rounds-append, read_entries-Rounds,
}

Reads-pair :
    (d : Properties) (k v : List ℕ) (key value : Bytes)
    → encode_str k ≡ ok key
    → encode_str v ≡ ok value
    → Reads
        (read_entry d)
        (id_code user_property ∷ (key ++ value))
        (put user_property (pairs (pairs_of (get user_property d) ++ (k, v) ∷ [])) d)
unfolding read_entry read_property read_pair
Reads-pair d k v key value hk hv =
    Reads-bind read_id (read_property d) (id_code user_property ∷ []) (key ++ value)
      (Reads-id user_property)
      (Reads-bind (advance decode_str) _ key value (Reads-advance (Decodes-str k key hk))
        (Reads-map (advance decode_str) _ (Reads-advance (Decodes-str v value hv))))

module _ (acc : Properties) (fresh : get user_property acc ≡ none) where
  get_user :
      (ps : Pairs) → get user_property (acc ++ (user_property, pairs ps) ∷ []) ≡ some (pairs ps)
  unfolding same_id
  get_user ps = get-append user_property acc _ fresh ∙ unfold get in refl

  put_user :
      (ps qs : Pairs)
      → put user_property (pairs qs) (acc ++ (user_property, pairs ps) ∷ [])
        ≡ acc ++ (user_property, pairs qs) ∷ []
  unfolding same_id
  put_user ps qs = put-append user_property (pairs qs) acc _ fresh ∙ unfold put in refl

  more_pairs :
      (qs ps : Pairs) (bs : Bytes)
      → encode_pairs ps ≡ ok bs
      → Rounds
          (acc ++ (user_property, pairs qs) ∷ [])
          bs
          (acc ++ (user_property, pairs (qs ++ ps)) ∷ [])
  unfolding encode_pairs
  more_pairs qs [] bs h = rw append-nil (
      subst
        (λ b.
          Rounds (acc ++ (user_property, pairs qs) ∷ []) b (acc ++ (user_property, pairs qs) ∷ []))
        (ok-injective h) stop)
  more_pairs qs ((k, v) ∷ ps) bs h = bind-ok (encode_str k) _ h λ key hk h₁.
      bind-ok (encode_str v) _ h₁ λ value hv h₂. bind-ok (encode_pairs ps) _ h₂ λ rest hr e.
        let from = acc ++ (user_property, pairs qs) ∷ [] in
        let to = acc ++ (user_property, pairs (qs ++ (k, v) ∷ ps)) ∷ [] in
        let read : Reads (read_entry from) (id_code user_property ∷ (key ++ value))
            (acc ++ (user_property, pairs (qs ++ (k, v) ∷ [])) ∷ []) =
          rw (← put_user qs (qs ++ (k, v) ∷ [])) (
            subst
              (λ o.
                Reads (read_entry from) (id_code user_property ∷ (key ++ value))
                  (put user_property (pairs (pairs_of o ++ (k, v) ∷ [])) from))
              (get_user qs) (Reads-pair from k v key value hk hv)) in
        subst (λ b. Rounds from b to) (ok-injective e)
          (round read (omega arith) (
            subst
              (λ l.
                Rounds (acc ++ (user_property, pairs (qs ++ (k, v) ∷ [])) ∷ []) rest
                  (acc ++ (user_property, pairs l) ∷ []))
              (append_assoc qs ((k, v) ∷ []) ps) (more_pairs (qs ++ (k, v) ∷ []) ps rest hr)))

  some_pairs :
      (p : List ℕ × List ℕ) (ps : Pairs) (bs : Bytes)
      → encode_pairs (p ∷ ps) ≡ ok bs
      → Rounds acc bs (acc ++ (user_property, pairs (p ∷ ps)) ∷ [])
  unfolding encode_pairs
  some_pairs (k, v) ps bs h = bind-ok (encode_str k) _ h λ key hk h₁.
      bind-ok (encode_str v) _ h₁ λ value hv h₂. bind-ok (encode_pairs ps) _ h₂ λ rest hr e.
        let to = acc ++ (user_property, pairs ((k, v) ∷ ps)) ∷ [] in
        let read : Reads (read_entry acc) (id_code user_property ∷ (key ++ value))
            (acc ++ (user_property, pairs ((k, v) ∷ [])) ∷ []) =
          rw (← put-fresh user_property (pairs ((k, v) ∷ [])) acc fresh) (
            subst
              (λ o.
                Reads (read_entry acc) (id_code user_property ∷ (key ++ value))
                  (put user_property (pairs (pairs_of o ++ (k, v) ∷ [])) acc))
              fresh (Reads-pair acc k v key value hk hv)) in
        subst (λ b. Rounds acc b to) (ok-injective e)
          (round read (omega arith) (more_pairs ((k, v) ∷ []) ps rest hr))

-- An entry of another key.
Reads-property :
    (acc : Properties) (p : PropertyId) (v : Value) (raw : Bytes)
    → encode_value (wire_type p) v ≡ ok raw
    → Reads (read_property acc p) raw (put p (as_read v) acc)
unfolding read_property
Reads-property acc user_property v raw h = unfold wire_type encode_value in cc
Reads-property acc p v raw h =
    Reads-map (read_value (wire_type p)) (λ x. put p x acc) (Reads-value (wire_type p) v raw h)

entry_round :
    (acc : Properties) (p : PropertyId) (v : Value) (raw : Bytes)
    → get p acc ≡ none
    → encode_value (wire_type p) v ≡ ok raw
    → Rounds acc (id_code p ∷ raw) (acc ++ (p, as_read v) ∷ [])
unfolding read_entry
entry_round acc p v raw fresh h =
    let read : Reads (read_entry acc) (id_code p ∷ raw) (put p (as_read v) acc) =
      Reads-bind read_id (read_property acc) (id_code p ∷ []) raw (Reads-id p)
        (Reads-property acc p v raw h) in
    let read' : Reads (read_entry acc) (id_code p ∷ raw) (acc ++ (p, as_read v) ∷ []) =
      subst (λ d. Reads (read_entry acc) (id_code p ∷ raw) d) (put-fresh p (as_read v) acc fresh)
        read in
    subst (λ b. Rounds acc b (acc ++ (p, as_read v) ∷ [])) (append-nil (id_code p ∷ raw))
      (round read' (omega arith) stop)

plain_entry :
    (acc : Properties) (p : PropertyId) (v : Value) (bs : Bytes)
    → get p acc ≡ none
    → (encode_value (wire_type p) v >>= λ raw. ok (id_code p ∷ raw)) ≡ ok bs
    → Rounds acc bs (acc ++ (p, as_read v) ∷ [])
plain_entry acc p v bs fresh h = bind-ok (encode_value (wire_type p) v) _ h λ raw hraw e.
    subst (λ b. Rounds acc b (acc ++ (p, as_read v) ∷ [])) (ok-injective e)
      (entry_round acc p v raw fresh hraw)

Rounds-encode_entry :
    (acc : Properties) (p : PropertyId) (v : Value) (bs : Bytes)
    → get p acc ≡ none
    → (same_id user_property p ≡ true → v ≢ pairs [])
    → encode_entry p v ≡ ok bs
    → Rounds acc bs (acc ++ (p, as_read v) ∷ [])
unfolding encode_entry same_id
Rounds-encode_entry acc user_property (pairs []) bs fresh some_value h =
    absurd (some_value refl refl)
Rounds-encode_entry acc user_property (pairs (p ∷ ps)) bs fresh some_value h =
    some_pairs acc fresh p ps bs h
Rounds-encode_entry acc user_property v bs fresh some_value h =
    plain_entry acc user_property v bs fresh h
Rounds-encode_entry acc p v bs fresh some_value h = plain_entry acc p v bs fresh h

-- The keys of the entries are new, one after the other, and no list of pairs is empty.
abbrev pub Fresh : Properties → Properties → Type 0
Fresh acc [] = Unit
Fresh acc ((p, v) ∷ d) =
    (get p acc ≡ none)
    × (same_id user_property p ≡ true → v ≢ pairs [])
    × Fresh (acc ++ (p, as_read v) ∷ []) d

abbrev pub as_read_all : Properties → Properties
as_read_all [] = []
as_read_all ((p, v) ∷ d) = (p, as_read v) ∷ as_read_all d

Rounds-encode_props :
    (acc d : Properties) (bs : Bytes)
    → Fresh acc d
    → encode_props d ≡ ok bs
    → Rounds acc bs (acc ++ as_read_all d)
unfolding encode_props
Rounds-encode_props acc [] bs f h =
    rw append-nil (subst (λ b. Rounds acc b acc) (ok-injective h) stop)
Rounds-encode_props acc ((p, v) ∷ d) bs (fresh, some_value, f) h =
    bind-ok (encode_entry p v) _ h λ raw hraw h₁. bind-ok (encode_props d) _ h₁ λ rest hrest e.
      subst (λ b. Rounds acc b (acc ++ as_read_all ((p, v) ∷ d))) (ok-injective e)
        (Rounds-append (Rounds-encode_entry acc p v raw fresh some_value hraw) (
          subst (λ l. Rounds (acc ++ (p, as_read v) ∷ []) rest l)
            (append_assoc acc ((p, as_read v) ∷ []) (as_read_all d))
            (Rounds-encode_props (acc ++ (p, as_read v) ∷ []) d rest f hrest)))

block_of_Rounds :
    (raw size : Bytes) (d : Properties)
    → encode_varint (length raw) ≡ ok size
    → Rounds [] raw d
    → Decodes decode_props_block (size ++ raw) d
unfolding decode_props_block
block_of_Rounds raw size d h r = record {
  at = λ buf pos rest here.
      let here' : At buf pos (size ++ (raw ++ rest)) = rw (← append_assoc size raw rest) here in
      rw ((Decodes-varint (length raw) size h).at buf pos (raw ++ rest) here', ◌>>=◌)
        (rw
          (read_entries-Rounds r (length raw) (pos + length size + length raw) buf
            (pos + length size) rest (At-skip size (raw ++ rest) here') refl (omega arith))
          (ap (λ n. ok (d, n)) (sym (length-append size raw))));
}

-- A block is read back wherever it stands: every value as the wire gives it, in the same order.
pub Decodes-props_block :
    (d : Properties) (bs : Bytes)
    → Fresh [] d
    → encode_props_block d ≡ ok bs
    → Decodes decode_props_block bs (as_read_all d)
unfolding encode_props_block decode_props_block
Decodes-props_block [] bs f h =
    subst (λ b. Decodes decode_props_block b []) (append-nil bs) (block_of_Rounds [] bs [] h stop)
Decodes-props_block ((p, v) ∷ d) bs f h = bind-ok (encode_props ((p, v) ∷ d)) _ h λ raw hraw h₁.
    bind-ok (encode_varint (length raw)) _ h₁ λ size hsize e.
      subst (λ b. Decodes decode_props_block b (as_read_all ((p, v) ∷ d))) (ok-injective e)
        (block_of_Rounds raw size _ hsize (Rounds-encode_props [] ((p, v) ∷ d) raw f hraw))
