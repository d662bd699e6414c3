-- ===== src/Property/Connect.antt =====
-- `ConnectProperties` and `WillProperties` of properties.py, with their encoders and decoders.
use fast_mqtt.Prelude.{ℕ, ◌≡◌, refl, [], ◌∷◌, Bool, true, Option, Result}
use mathlib.Core.Option
use fast_mqtt.Bytes.{Bytes}
use fast_mqtt.Utf8.{Text}
use fast_mqtt.Property.Ids
use fast_mqtt.Property.Ids.{same_id}
use fast_mqtt.Property.Block.{int, flag, text, blob, Pairs, Properties}
use fast_mqtt.Property.Entries.{as_read_all}
use fast_mqtt.Property.Fields.{
  Fields, properties_dict, distinct, get_int, get_bool, get_text, get_blob, get_pairs,
}
use fast_mqtt.Property.Class.{PropertyClass, encode_properties, decode_properties}
use fast_mqtt.Property.Class.{int_back, bool_back, text_back, blob_back, pairs_back}

pub record ConnectProperties : Type 0 where
  pub session_expiry_interval : Option ℕ
  pub receive_maximum : Option ℕ
  pub maximum_packet_size : Option ℕ
  pub topic_alias_maximum : Option ℕ
  pub request_response_information : Option Bool
  pub request_problem_information : Option Bool
  pub authentication_method : Option Text
  pub authentication_data : Option Bytes
  pub user_properties : Pairs

-- The dict of `encode_connect_properties`.
unfoldable pub connect_fields : ConnectProperties → Fields
connect_fields p =
    (Ids.PropertyId.session_expiry_interval, Option.map int p.session_expiry_interval)
    ∷ (Ids.PropertyId.receive_maximum, Option.map int p.receive_maximum)
    ∷ (Ids.PropertyId.maximum_packet_size, Option.map int p.maximum_packet_size)
    ∷ (Ids.PropertyId.topic_alias_maximum, Option.map int p.topic_alias_maximum)
    ∷ (Ids.PropertyId.request_response_information, Option.map flag p.request_response_information)
    ∷ (Ids.PropertyId.request_problem_information, Option.map flag p.request_problem_information)
    ∷ (Ids.PropertyId.authentication_method, Option.map text p.authentication_method)
    ∷ (Ids.PropertyId.authentication_data, Option.map blob p.authentication_data)
    ∷ []

-- The class that `decode_connect_properties` builds.
unfoldable pub connect_of_dict : Properties → ConnectProperties
unfolding get_int get_bool get_text get_blob get_pairs
connect_of_dict d = record {
  session_expiry_interval = get_int Ids.PropertyId.session_expiry_interval d;
  receive_maximum = get_int Ids.PropertyId.receive_maximum d;
  maximum_packet_size = get_int Ids.PropertyId.maximum_packet_size d;
  topic_alias_maximum = get_int Ids.PropertyId.topic_alias_maximum d;
  request_response_information = get_bool Ids.PropertyId.request_response_information d;
  request_problem_information = get_bool Ids.PropertyId.request_problem_information d;
  authentication_method = get_text Ids.PropertyId.authentication_method d;
  authentication_data = get_blob Ids.PropertyId.authentication_data d;
  user_properties = get_pairs d;
}

pub connect_distinct : (p : ConnectProperties) → distinct (connect_fields p) ≡ true
unfolding connect_fields same_id
connect_distinct p = refl

pub connect_of_dict-fields :
    (p : ConnectProperties)
    → connect_of_dict (as_read_all (properties_dict (connect_fields p) p.user_properties)) ≡ p
unfolding connect_of_dict connect_fields same_id
connect_of_dict-fields p = λ i. record {
  session_expiry_interval =
      int_back (connect_fields p) p.user_properties refl Ids.PropertyId.session_expiry_interval refl
        p.session_expiry_interval refl i;
  receive_maximum =
      int_back (connect_fields p) p.user_properties refl Ids.PropertyId.receive_maximum refl
        p.receive_maximum refl i;
  maximum_packet_size =
      int_back (connect_fields p) p.user_properties refl Ids.PropertyId.maximum_packet_size refl
        p.maximum_packet_size refl i;
  topic_alias_maximum =
      int_back (connect_fields p) p.user_properties refl Ids.PropertyId.topic_alias_maximum refl
        p.topic_alias_maximum refl i;
  request_response_information =
      bool_back (connect_fields p) p.user_properties refl
        Ids.PropertyId.request_response_information refl p.request_response_information refl i;
  request_problem_information =
      bool_back (connect_fields p) p.user_properties refl Ids.PropertyId.request_problem_information
        refl p.request_problem_information refl i;
  authentication_method =
      text_back (connect_fields p) p.user_properties refl Ids.PropertyId.authentication_method refl
        p.authentication_method refl i;
  authentication_data =
      blob_back (connect_fields p) p.user_properties refl Ids.PropertyId.authentication_data refl
        p.authentication_data refl i;
  user_properties = pairs_back (connect_fields p) p.user_properties refl i;
}

abbrev pub connect_class : PropertyClass ConnectProperties
connect_class = record {
  fields = connect_fields;
  user_properties = λ p. p.user_properties;
  of_dict = connect_of_dict;
  distinct_fields = connect_distinct;
  of_dict-fields = connect_of_dict-fields;
}

abbrev pub encode_connect_properties : Option ConnectProperties → Result Bytes
encode_connect_properties = encode_properties connect_class

abbrev pub decode_connect_properties : Bytes → ℕ → Result (Option ConnectProperties × ℕ)
decode_connect_properties = decode_properties connect_class

pub record WillProperties : Type 0 where
  pub will_delay_interval : Option ℕ
  pub payload_format_indicator : Option ℕ
  pub message_expiry_interval : Option ℕ
  pub content_type : Option Text
  pub response_topic : Option Text
  pub correlation_data : Option Bytes
  pub user_properties : Pairs

-- The dict of `encode_will_properties`.
unfoldable pub will_fields : WillProperties → Fields
will_fields p =
    (Ids.PropertyId.will_delay_interval, Option.map int p.will_delay_interval)
    ∷ (Ids.PropertyId.payload_format_indicator, Option.map int p.payload_format_indicator)
    ∷ (Ids.PropertyId.message_expiry_interval, Option.map int p.message_expiry_interval)
    ∷ (Ids.PropertyId.content_type, Option.map text p.content_type)
    ∷ (Ids.PropertyId.response_topic, Option.map text p.response_topic)
    ∷ (Ids.PropertyId.correlation_data, Option.map blob p.correlation_data)
    ∷ []

-- The class that `decode_will_properties` builds.
unfoldable pub will_of_dict : Properties → WillProperties
unfolding get_int get_text get_blob get_pairs
will_of_dict d = record {
  will_delay_interval = get_int Ids.PropertyId.will_delay_interval d;
  payload_format_indicator = get_int Ids.PropertyId.payload_format_indicator d;
  message_expiry_interval = get_int Ids.PropertyId.message_expiry_interval d;
  content_type = get_text Ids.PropertyId.content_type d;
  response_topic = get_text Ids.PropertyId.response_topic d;
  correlation_data = get_blob Ids.PropertyId.correlation_data d;
  user_properties = get_pairs d;
}

pub will_distinct : (p : WillProperties) → distinct (will_fields p) ≡ true
unfolding will_fields same_id
will_distinct p = refl

pub will_of_dict-fields :
    (p : WillProperties)
    → will_of_dict (as_read_all (properties_dict (will_fields p) p.user_properties)) ≡ p
unfolding will_of_dict will_fields same_id
will_of_dict-fields p = λ i. record {
  will_delay_interval =
      int_back (will_fields p) p.user_properties refl Ids.PropertyId.will_delay_interval refl
        p.will_delay_interval refl i;
  payload_format_indicator =
      int_back (will_fields p) p.user_properties refl Ids.PropertyId.payload_format_indicator refl
        p.payload_format_indicator refl i;
  message_expiry_interval =
      int_back (will_fields p) p.user_properties refl Ids.PropertyId.message_expiry_interval refl
        p.message_expiry_interval refl i;
  content_type =
      text_back (will_fields p) p.user_properties refl Ids.PropertyId.content_type refl
        p.content_type refl i;
  response_topic =
      text_back (will_fields p) p.user_properties refl Ids.PropertyId.response_topic refl
        p.response_topic refl i;
  correlation_data =
      blob_back (will_fields p) p.user_properties refl Ids.PropertyId.correlation_data refl
        p.correlation_data refl i;
  user_properties = pairs_back (will_fields p) p.user_properties refl i;
}

abbrev pub will_class : PropertyClass WillProperties
will_class = record {
  fields = will_fields;
  user_properties = λ p. p.user_properties;
  of_dict = will_of_dict;
  distinct_fields = will_distinct;
  of_dict-fields = will_of_dict-fields;
}

abbrev pub encode_will_properties : Option WillProperties → Result Bytes
encode_will_properties = encode_properties will_class

abbrev pub decode_will_properties : Bytes → ℕ → Result (Option WillProperties × ℕ)
decode_will_properties = decode_properties will_class
