-- ===== src/Property/Publish.antt =====
-- `PublishProperties` and `PubAckProperties` of properties.py, with their encoders and decoders.
use fast_mqtt.Prelude.{ℕ, ◌≡◌, refl, [], ◌∷◌, true, Option, Result}
use mathlib.Core.Option
use fast_mqtt.Bytes.{Bytes}
use fast_mqtt.Utf8.{Text}
use fast_mqtt.Property.Ids
use fast_mqtt.Property.Ids.{same_id}
use fast_mqtt.Property.Block.{int, text, blob, Pairs, Properties}
use fast_mqtt.Property.Entries.{as_read_all}
use fast_mqtt.Property.Fields.{
  Fields, properties_dict, distinct, get_int, get_text, get_blob, get_pairs,
}
use fast_mqtt.Property.Class.{PropertyClass, encode_properties, decode_properties}
use fast_mqtt.Property.Class.{int_back, text_back, blob_back, pairs_back}

pub record PublishProperties : Type 0 where
  pub payload_format_indicator : Option ℕ
  pub message_expiry_interval : Option ℕ
  pub topic_alias : Option ℕ
  pub response_topic : Option Text
  pub correlation_data : Option Bytes
  pub subscription_identifier : Option ℕ
  pub content_type : Option Text
  pub user_properties : Pairs

-- The dict of `encode_publish_properties`.
unfoldable pub publish_fields : PublishProperties → Fields
publish_fields p =
    (Ids.PropertyId.payload_format_indicator, Option.map int p.payload_format_indicator)
    ∷ (Ids.PropertyId.message_expiry_interval, Option.map int p.message_expiry_interval)
    ∷ (Ids.PropertyId.topic_alias, Option.map int p.topic_alias)
    ∷ (Ids.PropertyId.response_topic, Option.map text p.response_topic)
    ∷ (Ids.PropertyId.correlation_data, Option.map blob p.correlation_data)
    ∷ (Ids.PropertyId.subscription_identifier, Option.map int p.subscription_identifier)
    ∷ (Ids.PropertyId.content_type, Option.map text p.content_type)
    ∷ []

-- The class that `decode_publish_properties` builds.
unfoldable pub publish_of_dict : Properties → PublishProperties
unfolding get_int get_text get_blob get_pairs
publish_of_dict d = record {
  payload_format_indicator = get_int Ids.PropertyId.payload_format_indicator d;
  message_expiry_interval = get_int Ids.PropertyId.message_expiry_interval d;
  topic_alias = get_int Ids.PropertyId.topic_alias d;
  response_topic = get_text Ids.PropertyId.response_topic d;
  correlation_data = get_blob Ids.PropertyId.correlation_data d;
  subscription_identifier = get_int Ids.PropertyId.subscription_identifier d;
  content_type = get_text Ids.PropertyId.content_type d;
  user_properties = get_pairs d;
}

pub publish_distinct : (p : PublishProperties) → distinct (publish_fields p) ≡ true
unfolding publish_fields same_id
publish_distinct p = refl

pub publish_of_dict-fields :
    (p : PublishProperties)
    → publish_of_dict (as_read_all (properties_dict (publish_fields p) p.user_properties)) ≡ p
unfolding publish_of_dict publish_fields same_id
publish_of_dict-fields p = λ i. record {
  payload_format_indicator =
      int_back (publish_fields p) p.user_properties refl Ids.PropertyId.payload_format_indicator
        refl p.payload_format_indicator refl i;
  message_expiry_interval =
      int_back (publish_fields p) p.user_properties refl Ids.PropertyId.message_expiry_interval refl
        p.message_expiry_interval refl i;
  topic_alias =
      int_back (publish_fields p) p.user_properties refl Ids.PropertyId.topic_alias refl
        p.topic_alias refl i;
  response_topic =
      text_back (publish_fields p) p.user_properties refl Ids.PropertyId.response_topic refl
        p.response_topic refl i;
  correlation_data =
      blob_back (publish_fields p) p.user_properties refl Ids.PropertyId.correlation_data refl
        p.correlation_data refl i;
  subscription_identifier =
      int_back (publish_fields p) p.user_properties refl Ids.PropertyId.subscription_identifier refl
        p.subscription_identifier refl i;
  content_type =
      text_back (publish_fields p) p.user_properties refl Ids.PropertyId.content_type refl
        p.content_type refl i;
  user_properties = pairs_back (publish_fields p) p.user_properties refl i;
}

abbrev pub publish_class : PropertyClass PublishProperties
publish_class = record {
  fields = publish_fields;
  user_properties = λ p. p.user_properties;
  of_dict = publish_of_dict;
  distinct_fields = publish_distinct;
  of_dict-fields = publish_of_dict-fields;
}

abbrev pub encode_publish_properties : Option PublishProperties → Result Bytes
encode_publish_properties = encode_properties publish_class

abbrev pub decode_publish_properties : Bytes → ℕ → Result (Option PublishProperties × ℕ)
decode_publish_properties = decode_properties publish_class

pub record PubAckProperties : Type 0 where
  pub reason_string : Option Text
  pub user_properties : Pairs

-- The dict of `encode_puback_properties`.
unfoldable pub puback_fields : PubAckProperties → Fields
puback_fields p = (Ids.PropertyId.reason_string, Option.map text p.reason_string) ∷ []

-- The class that `decode_puback_properties` builds.
unfoldable pub puback_of_dict : Properties → PubAckProperties
unfolding get_text get_pairs
puback_of_dict d = record {
  reason_string = get_text Ids.PropertyId.reason_string d;
  user_properties = get_pairs d;
}

pub puback_distinct : (p : PubAckProperties) → distinct (puback_fields p) ≡ true
unfolding puback_fields same_id
puback_distinct p = refl

pub puback_of_dict-fields :
    (p : PubAckProperties)
    → puback_of_dict (as_read_all (properties_dict (puback_fields p) p.user_properties)) ≡ p
unfolding puback_of_dict puback_fields same_id
puback_of_dict-fields p = λ i. record {
  reason_string =
      text_back (puback_fields p) p.user_properties refl Ids.PropertyId.reason_string refl
        p.reason_string refl i;
  user_properties = pairs_back (puback_fields p) p.user_properties refl i;
}

abbrev pub puback_class : PropertyClass PubAckProperties
puback_class = record {
  fields = puback_fields;
  user_properties = λ p. p.user_properties;
  of_dict = puback_of_dict;
  distinct_fields = puback_distinct;
  of_dict-fields = puback_of_dict-fields;
}

abbrev pub encode_puback_properties : Option PubAckProperties → Result Bytes
encode_puback_properties = encode_properties puback_class

abbrev pub decode_puback_properties : Bytes → ℕ → Result (Option PubAckProperties × ℕ)
decode_puback_properties = decode_properties puback_class
