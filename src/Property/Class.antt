-- ===== src/Property/Class.antt =====
-- What the eleven property classes share: an interface of the fields that are sent and of the class
-- that is rebuilt from a dict, and the pairs `encode_*_properties`, `decode_*_properties` over it.
use fast_mqtt.Property.Ids.{id_eq}
use fast_mqtt.Dict.{get}
use fast_mqtt.Prelude.{
  ℕ, ◌≡◌, refl, ap, ◌∙◌, subst, List, [], Bool, true, false, Option, none, some,
}
use fast_mqtt.Prelude.{is_empty, if◌then◌else◌, Result, ok, ◌>>=◌}
use mathlib.Core.Option
use fast_mqtt.Bytes.{Bytes}
use fast_mqtt.Cursor.{Decodes}
use fast_mqtt.Utf8.{Text}
use fast_mqtt.Wire.{encode_varint}
use fast_mqtt.Property.Ids.{PropertyId, user_property, same_id}
use fast_mqtt.Property.Block.{
  int, flag, text, blob, Pairs, Properties, encode_props_block, decode_props_block,
}
use fast_mqtt.Property.Rounds.{as_read}
use fast_mqtt.Property.Entries.{as_read_all, Decodes-props_block}
use fast_mqtt.Property.Fields.{
  Fields, properties_dict, properties_dict-append, distinct, field_value, get-field, get-user_entry,
  Fresh-dict, get_int, get_bool, get_text, get_blob, get_pairs,
}

-- `None` is sent as an empty block, and an empty block is read as `None`.
pub record PropertyClass (P : Type 0) : Type 0 where
  pub fields : P → Fields
  pub user_properties : P → Pairs
  pub of_dict : Properties → P
  pub distinct_fields : (p : P) → distinct (fields p) ≡ true
  pub of_dict-fields :
      (p : P) → of_dict (as_read_all (properties_dict (fields p) (user_properties p))) ≡ p

module _ {P : Type 0} (c : PropertyClass P) where
  abbrev pub dict_of : P → Properties
  dict_of p = properties_dict (c.fields p) (c.user_properties p)

  unfoldable pub encode_properties : Option P → Result Bytes
  encode_properties none = encode_varint 0
  encode_properties (some p) = encode_props_block (dict_of p)

  -- `if not d: return None, n`
  abbrev pub class_of_dict : Properties → Option P
  class_of_dict d = if is_empty d then none else some (c.of_dict d)

  unfoldable pub decode_properties : Bytes → ℕ → Result (Option P × ℕ)
  decode_properties buf offset = do (d, n) ← decode_props_block buf offset; ok (class_of_dict d, n)

  -- What is left of properties after the wire: one with every field unset comes back as `None`.
  unfoldable pub received : Option P → Option P
  received none = none
  received (some p) = if is_empty (dict_of p) then none else some p

  class_of_dict-dict_of : (p : P) → class_of_dict (as_read_all (dict_of p)) ≡ received (some p)
  unfolding received
  class_of_dict-dict_of p = go (dict_of p) (c.of_dict-fields p)
    where
      go :
          (d : Properties)
          → c.of_dict (as_read_all d) ≡ p
          → class_of_dict (as_read_all d) ≡ (if is_empty d then none else some p)
      go [] e = refl
      go (List.◌∷◌ x d) e = ap some e

  decode_block :
      {bs : Bytes} {d : Properties}
      → Decodes decode_props_block bs d
      → Decodes decode_properties bs (class_of_dict d)
  unfolding decode_properties
  decode_block r = record { at = λ buf pos rest here. rw (r.at buf pos rest here, ◌>>=◌) }

  -- For each property class: if the properties are encoded as `bs`, then wherever `bs` stands in a
  -- buffer, decoding there takes just `bs` and returns the same properties, or None where no field
  -- is set.
  pub Decodes-properties :
      (props : Option P) (bs : Bytes)
      → encode_properties props ≡ ok bs
      → Decodes decode_properties bs (received props)
  unfolding encode_properties received
  Decodes-properties none bs h =
      decode_block (Decodes-props_block [] bs tt (unfold encode_props_block in h))
  Decodes-properties (some p) bs h =
      subst (λ o. Decodes decode_properties bs o) (class_of_dict-dict_of p)
        (decode_block (
          Decodes-props_block (dict_of p) bs
            (rw (properties_dict-append (c.fields p) (c.user_properties p) (c.distinct_fields p))
              (Fresh-dict (c.fields p) (c.user_properties p) (c.distinct_fields p)))
            h))

-- For the classes: a field of each kind comes back from the dict.
module _ (fields : Fields) (ps : Pairs) (h : distinct fields ≡ true) (p : PropertyId)
    (other : same_id user_property p ≡ false) where
  abbrev sent : Properties
  sent = as_read_all (properties_dict fields ps)

  got : get p sent ≡ field_value p fields
  got = rw (properties_dict-append fields ps h) (get-field p fields ps h other)

  pub int_back :
      (o : Option ℕ)
      → field_value p fields ≡ Option.map as_read (Option.map int o)
      → get_int p sent ≡ o
  unfolding get_int
  int_back none e = rw (got ∙ e, get_int)
  int_back (some n) e = rw (got ∙ e, get_int)

  pub bool_back :
      (o : Option Bool)
      → field_value p fields ≡ Option.map as_read (Option.map flag o)
      → get_bool p sent ≡ o
  unfolding get_bool
  bool_back none e = rw (got ∙ e, get_bool)
  bool_back (some true) e = rw (got ∙ e, get_bool)
  bool_back (some false) e = rw (got ∙ e, get_bool)

  pub text_back :
      (o : Option Text)
      → field_value p fields ≡ Option.map as_read (Option.map text o)
      → get_text p sent ≡ o
  unfolding get_text
  text_back none e = rw (got ∙ e, get_text)
  text_back (some s) e = rw (got ∙ e, get_text)

  pub blob_back :
      (o : Option Bytes)
      → field_value p fields ≡ Option.map as_read (Option.map blob o)
      → get_blob p sent ≡ o
  unfolding get_blob
  blob_back none e = rw (got ∙ e, get_blob)
  blob_back (some b) e = rw (got ∙ e, get_blob)

pub pairs_back :
    (fields : Fields) (ps : Pairs)
    → distinct fields ≡ true
    → get_pairs (as_read_all (properties_dict fields ps)) ≡ ps
unfolding get_pairs
pairs_back fields ps h = rw (properties_dict-append fields ps h) (get-user_entry fields ps h)
