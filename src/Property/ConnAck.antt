-- ===== src/Property/ConnAck.antt =====
-- `ConnAckProperties` of properties.py, with its encoder and decoder.
use fast_mqtt.Prelude.{ℕ, ◌≡◌, refl, [], ◌∷◌, Bool, true, Option, Result}
use mathlib.Core.Option
use fast_mqtt.Bytes.{Bytes}
use fast_mqtt.Utf8.{Text}
use fast_mqtt.Property.Ids
use fast_mqtt.Property.Ids.{same_id}
use fast_mqtt.Property.Block.{int, flag, text, blob, Pairs, Properties}
use fast_mqtt.Property.Entries.{as_read_all}
use fast_mqtt.Property.Fields.{
  Fields, properties_dict, distinct, get_int, get_bool, get_text, get_blob, get_pairs,
}
use fast_mqtt.Property.Class.{PropertyClass, encode_properties, decode_properties}
use fast_mqtt.Property.Class.{int_back, bool_back, text_back, blob_back, pairs_back}

pub record ConnAckProperties : Type 0 where
  pub session_expiry_interval : Option ℕ
  pub receive_maximum : Option ℕ
  pub maximum_qos : Option ℕ
  pub retain_available : Option Bool
  pub maximum_packet_size : Option ℕ
  pub assigned_client_identifier : Option Text
  pub topic_alias_maximum : Option ℕ
  pub reason_string : Option Text
  pub wildcard_subscription_available : Option Bool
  pub subscription_identifier_available : Option Bool
  pub shared_subscription_available : Option Bool
  pub server_keep_alive : Option ℕ
  pub response_information : Option Text
  pub server_reference : Option Text
  pub authentication_method : Option Text
  pub authentication_data : Option Bytes
  pub user_properties : Pairs

-- The dict of `encode_connack_properties`.
unfoldable pub connack_fields : ConnAckProperties → Fields
connack_fields p =
    (Ids.PropertyId.session_expiry_interval, Option.map int p.session_expiry_interval)
    ∷ (Ids.PropertyId.receive_maximum, Option.map int p.receive_maximum)
    ∷ (Ids.PropertyId.maximum_qos, Option.map int p.maximum_qos)
    ∷ (Ids.PropertyId.retain_available, Option.map flag p.retain_available)
    ∷ (Ids.PropertyId.maximum_packet_size, Option.map int p.maximum_packet_size)
    ∷ (Ids.PropertyId.assigned_client_identifier, Option.map text p.assigned_client_identifier)
    ∷ (Ids.PropertyId.topic_alias_maximum, Option.map int p.topic_alias_maximum)
    ∷ (Ids.PropertyId.reason_string, Option.map text p.reason_string)
    ∷ (
      Ids.PropertyId.wildcard_subscription_available,
      Option.map flag p.wildcard_subscription_available,
    )
    ∷ (
      Ids.PropertyId.subscription_identifier_available,
      Option.map flag p.subscription_identifier_available,
    )
    ∷ (
      Ids.PropertyId.shared_subscription_available,
      Option.map flag p.shared_subscription_available,
    )
    ∷ (Ids.PropertyId.server_keep_alive, Option.map int p.server_keep_alive)
    ∷ (Ids.PropertyId.response_information, Option.map text p.response_information)
    ∷ (Ids.PropertyId.server_reference, Option.map text p.server_reference)
    ∷ (Ids.PropertyId.authentication_method, Option.map text p.authentication_method)
    ∷ (Ids.PropertyId.authentication_data, Option.map blob p.authentication_data)
    ∷ []

-- The class that `decode_connack_properties` builds.
unfoldable pub connack_of_dict : Properties → ConnAckProperties
unfolding get_int get_bool get_text get_blob get_pairs
connack_of_dict d = record {
  session_expiry_interval = get_int Ids.PropertyId.session_expiry_interval d;
  receive_maximum = get_int Ids.PropertyId.receive_maximum d;
  maximum_qos = get_int Ids.PropertyId.maximum_qos d;
  retain_available = get_bool Ids.PropertyId.retain_available d;
  maximum_packet_size = get_int Ids.PropertyId.maximum_packet_size d;
  assigned_client_identifier = get_text Ids.PropertyId.assigned_client_identifier d;
  topic_alias_maximum = get_int Ids.PropertyId.topic_alias_maximum d;
  reason_string = get_text Ids.PropertyId.reason_string d;
  wildcard_subscription_available = get_bool Ids.PropertyId.wildcard_subscription_available d;
  subscription_identifier_available = get_bool Ids.PropertyId.subscription_identifier_available d;
  shared_subscription_available = get_bool Ids.PropertyId.shared_subscription_available d;
  server_keep_alive = get_int Ids.PropertyId.server_keep_alive d;
  response_information = get_text Ids.PropertyId.response_information d;
  server_reference = get_text Ids.PropertyId.server_reference d;
  authentication_method = get_text Ids.PropertyId.authentication_method d;
  authentication_data = get_blob Ids.PropertyId.authentication_data d;
  user_properties = get_pairs d;
}

pub connack_distinct : (p : ConnAckProperties) → distinct (connack_fields p) ≡ true
unfolding connack_fields same_id
connack_distinct p = refl

pub connack_of_dict-fields :
    (p : ConnAckProperties)
    → connack_of_dict (as_read_all (properties_dict (connack_fields p) p.user_properties)) ≡ p
unfolding connack_of_dict connack_fields same_id
connack_of_dict-fields p = λ i. record {
  session_expiry_interval =
      int_back (connack_fields p) p.user_properties refl Ids.PropertyId.session_expiry_interval refl
        p.session_expiry_interval refl i;
  receive_maximum =
      int_back (connack_fields p) p.user_properties refl Ids.PropertyId.receive_maximum refl
        p.receive_maximum refl i;
  maximum_qos =
      int_back (connack_fields p) p.user_properties refl Ids.PropertyId.maximum_qos refl
        p.maximum_qos refl i;
  retain_available =
      bool_back (connack_fields p) p.user_properties refl Ids.PropertyId.retain_available refl
        p.retain_available refl i;
  maximum_packet_size =
      int_back (connack_fields p) p.user_properties refl Ids.PropertyId.maximum_packet_size refl
        p.maximum_packet_size refl i;
  assigned_client_identifier =
      text_back (connack_fields p) p.user_properties refl Ids.PropertyId.assigned_client_identifier
        refl p.assigned_client_identifier refl i;
  topic_alias_maximum =
      int_back (connack_fields p) p.user_properties refl Ids.PropertyId.topic_alias_maximum refl
        p.topic_alias_maximum refl i;
  reason_string =
      text_back (connack_fields p) p.user_properties refl Ids.PropertyId.reason_string refl
        p.reason_string refl i;
  wildcard_subscription_available =
      bool_back (connack_fields p) p.user_properties refl
        Ids.PropertyId.wildcard_subscription_available refl p.wildcard_subscription_available refl
        i;
  subscription_identifier_available =
      bool_back (connack_fields p) p.user_properties refl
        Ids.PropertyId.subscription_identifier_available refl p.subscription_identifier_available
        refl i;
  shared_subscription_available =
      bool_back (connack_fields p) p.user_properties refl
        Ids.PropertyId.shared_subscription_available refl p.shared_subscription_available refl i;
  server_keep_alive =
      int_back (connack_fields p) p.user_properties refl Ids.PropertyId.server_keep_alive refl
        p.server_keep_alive refl i;
  response_information =
      text_back (connack_fields p) p.user_properties refl Ids.PropertyId.response_information refl
        p.response_information refl i;
  server_reference =
      text_back (connack_fields p) p.user_properties refl Ids.PropertyId.server_reference refl
        p.server_reference refl i;
  authentication_method =
      text_back (connack_fields p) p.user_properties refl Ids.PropertyId.authentication_method refl
        p.authentication_method refl i;
  authentication_data =
      blob_back (connack_fields p) p.user_properties refl Ids.PropertyId.authentication_data refl
        p.authentication_data refl i;
  user_properties = pairs_back (connack_fields p) p.user_properties refl i;
}

abbrev pub connack_class : PropertyClass ConnAckProperties
connack_class = record {
  fields = connack_fields;
  user_properties = λ p. p.user_properties;
  of_dict = connack_of_dict;
  distinct_fields = connack_distinct;
  of_dict-fields = connack_of_dict-fields;
}

abbrev pub encode_connack_properties : Option ConnAckProperties → Result Bytes
encode_connack_properties = encode_properties connack_class

abbrev pub decode_connack_properties : Bytes → ℕ → Result (Option ConnAckProperties × ℕ)
decode_connack_properties = decode_properties connack_class
