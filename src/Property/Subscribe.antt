-- ===== src/Property/Subscribe.antt =====
-- The properties of SUBSCRIBE, SUBACK, UNSUBSCRIBE and UNSUBACK of properties.py, with their encoders
-- and decoders.
use fast_mqtt.Prelude.{ℕ, ◌≡◌, refl, [], ◌∷◌, true, Option, Result}
use mathlib.Core.Option
use fast_mqtt.Bytes.{Bytes}
use fast_mqtt.Utf8.{Text}
use fast_mqtt.Property.Ids
use fast_mqtt.Property.Ids.{same_id}
use fast_mqtt.Property.Block.{int, text, Pairs, Properties}
use fast_mqtt.Property.Entries.{as_read_all}
use fast_mqtt.Property.Fields.{Fields, properties_dict, distinct, get_int, get_text, get_pairs}
use fast_mqtt.Property.Class.{PropertyClass, encode_properties, decode_properties}
use fast_mqtt.Property.Class.{int_back, text_back, pairs_back}

pub record SubscribeProperties : Type 0 where
  pub subscription_identifier : Option ℕ
  pub user_properties : Pairs

-- The dict of `encode_subscribe_properties`.
unfoldable pub subscribe_fields : SubscribeProperties → Fields
subscribe_fields p =
    (Ids.PropertyId.subscription_identifier, Option.map int p.subscription_identifier) ∷ []

-- The class that `decode_subscribe_properties` builds.
unfoldable pub subscribe_of_dict : Properties → SubscribeProperties
unfolding get_int get_pairs
subscribe_of_dict d = record {
  subscription_identifier = get_int Ids.PropertyId.subscription_identifier d;
  user_properties = get_pairs d;
}

pub subscribe_distinct : (p : SubscribeProperties) → distinct (subscribe_fields p) ≡ true
unfolding subscribe_fields same_id
subscribe_distinct p = refl

pub subscribe_of_dict-fields :
    (p : SubscribeProperties)
    → subscribe_of_dict (as_read_all (properties_dict (subscribe_fields p) p.user_properties)) ≡ p
unfolding subscribe_of_dict subscribe_fields same_id
subscribe_of_dict-fields p = λ i. record {
  subscription_identifier =
      int_back (subscribe_fields p) p.user_properties refl Ids.PropertyId.subscription_identifier
        refl p.subscription_identifier refl i;
  user_properties = pairs_back (subscribe_fields p) p.user_properties refl i;
}

abbrev pub subscribe_class : PropertyClass SubscribeProperties
subscribe_class = record {
  fields = subscribe_fields;
  user_properties = λ p. p.user_properties;
  of_dict = subscribe_of_dict;
  distinct_fields = subscribe_distinct;
  of_dict-fields = subscribe_of_dict-fields;
}

abbrev pub encode_subscribe_properties : Option SubscribeProperties → Result Bytes
encode_subscribe_properties = encode_properties subscribe_class

abbrev pub decode_subscribe_properties : Bytes → ℕ → Result (Option SubscribeProperties × ℕ)
decode_subscribe_properties = decode_properties subscribe_class

pub record SubAckProperties : Type 0 where
  pub reason_string : Option Text
  pub user_properties : Pairs

-- The dict of `encode_suback_properties`.
unfoldable pub suback_fields : SubAckProperties → Fields
suback_fields p = (Ids.PropertyId.reason_string, Option.map text p.reason_string) ∷ []

-- The class that `decode_suback_properties` builds.
unfoldable pub suback_of_dict : Properties → SubAckProperties
unfolding get_text get_pairs
suback_of_dict d = record {
  reason_string = get_text Ids.PropertyId.reason_string d;
  user_properties = get_pairs d;
}

pub suback_distinct : (p : SubAckProperties) → distinct (suback_fields p) ≡ true
unfolding suback_fields same_id
suback_distinct p = refl

pub suback_of_dict-fields :
    (p : SubAckProperties)
    → suback_of_dict (as_read_all (properties_dict (suback_fields p) p.user_properties)) ≡ p
unfolding suback_of_dict suback_fields same_id
suback_of_dict-fields p = λ i. record {
  reason_string =
      text_back (suback_fields p) p.user_properties refl Ids.PropertyId.reason_string refl
        p.reason_string refl i;
  user_properties = pairs_back (suback_fields p) p.user_properties refl i;
}

abbrev pub suback_class : PropertyClass SubAckProperties
suback_class = record {
  fields = suback_fields;
  user_properties = λ p. p.user_properties;
  of_dict = suback_of_dict;
  distinct_fields = suback_distinct;
  of_dict-fields = suback_of_dict-fields;
}

abbrev pub encode_suback_properties : Option SubAckProperties → Result Bytes
encode_suback_properties = encode_properties suback_class

abbrev pub decode_suback_properties : Bytes → ℕ → Result (Option SubAckProperties × ℕ)
decode_suback_properties = decode_properties suback_class

pub record UnsubscribeProperties : Type 0 where
  pub user_properties : Pairs

-- The dict of `encode_unsubscribe_properties`.
unfoldable pub unsubscribe_fields : UnsubscribeProperties → Fields
unsubscribe_fields p = []

-- The class that `decode_unsubscribe_properties` builds.
unfoldable pub unsubscribe_of_dict : Properties → UnsubscribeProperties
unfolding get_pairs
unsubscribe_of_dict d = record { user_properties = get_pairs d }

pub unsubscribe_distinct : (p : UnsubscribeProperties) → distinct (unsubscribe_fields p) ≡ true
unfolding unsubscribe_fields same_id
unsubscribe_distinct p = refl

pub unsubscribe_of_dict-fields :
    (p : UnsubscribeProperties)
    → unsubscribe_of_dict (as_read_all (properties_dict (unsubscribe_fields p) p.user_properties))
      ≡ p
unfolding unsubscribe_of_dict unsubscribe_fields same_id
unsubscribe_of_dict-fields p =
    λ i. record { user_properties = pairs_back (unsubscribe_fields p) p.user_properties refl i }

abbrev pub unsubscribe_class : PropertyClass UnsubscribeProperties
unsubscribe_class = record {
  fields = unsubscribe_fields;
  user_properties = λ p. p.user_properties;
  of_dict = unsubscribe_of_dict;
  distinct_fields = unsubscribe_distinct;
  of_dict-fields = unsubscribe_of_dict-fields;
}

abbrev pub encode_unsubscribe_properties : Option UnsubscribeProperties → Result Bytes
encode_unsubscribe_properties = encode_properties unsubscribe_class

abbrev pub decode_unsubscribe_properties : Bytes → ℕ → Result (Option UnsubscribeProperties × ℕ)
decode_unsubscribe_properties = decode_properties unsubscribe_class

pub record UnsubAckProperties : Type 0 where
  pub reason_string : Option Text
  pub user_properties : Pairs

-- The dict of `encode_unsuback_properties`.
unfoldable pub unsuback_fields : UnsubAckProperties → Fields
unsuback_fields p = (Ids.PropertyId.reason_string, Option.map text p.reason_string) ∷ []

-- The class that `decode_unsuback_properties` builds.
unfoldable pub unsuback_of_dict : Properties → UnsubAckProperties
unfolding get_text get_pairs
unsuback_of_dict d = record {
  reason_string = get_text Ids.PropertyId.reason_string d;
  user_properties = get_pairs d;
}

pub unsuback_distinct : (p : UnsubAckProperties) → distinct (unsuback_fields p) ≡ true
unfolding unsuback_fields same_id
unsuback_distinct p = refl

pub unsuback_of_dict-fields :
    (p : UnsubAckProperties)
    → unsuback_of_dict (as_read_all (properties_dict (unsuback_fields p) p.user_properties)) ≡ p
unfolding unsuback_of_dict unsuback_fields same_id
unsuback_of_dict-fields p = λ i. record {
  reason_string =
      text_back (unsuback_fields p) p.user_properties refl Ids.PropertyId.reason_string refl
        p.reason_string refl i;
  user_properties = pairs_back (unsuback_fields p) p.user_properties refl i;
}

abbrev pub unsuback_class : PropertyClass UnsubAckProperties
unsuback_class = record {
  fields = unsuback_fields;
  user_properties = λ p. p.user_properties;
  of_dict = unsuback_of_dict;
  distinct_fields = unsuback_distinct;
  of_dict-fields = unsuback_of_dict-fields;
}

abbrev pub encode_unsuback_properties : Option UnsubAckProperties → Result Bytes
encode_unsuback_properties = encode_properties unsuback_class

abbrev pub decode_unsuback_properties : Bytes → ℕ → Result (Option UnsubAckProperties × ℕ)
decode_unsuback_properties = decode_properties unsuback_class
