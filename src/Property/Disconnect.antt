-- ===== src/Property/Disconnect.antt =====
-- `DisconnectProperties` and `AuthProperties` of properties.py, with their encoders and decoders.
use fast_mqtt.Prelude.{ℕ, ◌≡◌, refl, [], ◌∷◌, true, Option, Result}
use mathlib.Core.Option
use fast_mqtt.Bytes.{Bytes}
use fast_mqtt.Utf8.{Text}
use fast_mqtt.Property.Ids
use fast_mqtt.Property.Ids.{same_id}
use fast_mqtt.Property.Block.{int, text, blob, Pairs, Properties}
use fast_mqtt.Property.Entries.{as_read_all}
use fast_mqtt.Property.Fields.{
  Fields, properties_dict, distinct, get_int, get_text, get_blob, get_pairs,
}
use fast_mqtt.Property.Class.{PropertyClass, encode_properties, decode_properties}
use fast_mqtt.Property.Class.{int_back, text_back, blob_back, pairs_back}

pub record DisconnectProperties : Type 0 where
  pub session_expiry_interval : Option ℕ
  pub reason_string : Option Text
  pub server_reference : Option Text
  pub user_properties : Pairs

-- The dict of `encode_disconnect_properties`.
unfoldable pub disconnect_fields : DisconnectProperties → Fields
disconnect_fields p =
    (Ids.PropertyId.session_expiry_interval, Option.map int p.session_expiry_interval)
    ∷ (Ids.PropertyId.reason_string, Option.map text p.reason_string)
    ∷ (Ids.PropertyId.server_reference, Option.map text p.server_reference)
    ∷ []

-- The class that `decode_disconnect_properties` builds.
unfoldable pub disconnect_of_dict : Properties → DisconnectProperties
unfolding get_int get_text get_pairs
disconnect_of_dict d = record {
  session_expiry_interval = get_int Ids.PropertyId.session_expiry_interval d;
  reason_string = get_text Ids.PropertyId.reason_string d;
  server_reference = get_text Ids.PropertyId.server_reference d;
  user_properties = get_pairs d;
}

pub disconnect_distinct : (p : DisconnectProperties) → distinct (disconnect_fields p) ≡ true
unfolding disconnect_fields same_id
disconnect_distinct p = refl

pub disconnect_of_dict-fields :
    (p : DisconnectProperties)
    → disconnect_of_dict (as_read_all (properties_dict (disconnect_fields p) p.user_properties)) ≡ p
unfolding disconnect_of_dict disconnect_fields same_id
disconnect_of_dict-fields p = λ i. record {
  session_expiry_interval =
      int_back (disconnect_fields p) p.user_properties refl Ids.PropertyId.session_expiry_interval
        refl p.session_expiry_interval refl i;
  reason_string =
      text_back (disconnect_fields p) p.user_properties refl Ids.PropertyId.reason_string refl
        p.reason_string refl i;
  server_reference =
      text_back (disconnect_fields p) p.user_properties refl Ids.PropertyId.server_reference refl
        p.server_reference refl i;
  user_properties = pairs_back (disconnect_fields p) p.user_properties refl i;
}

abbrev pub disconnect_class : PropertyClass DisconnectProperties
disconnect_class = record {
  fields = disconnect_fields;
  user_properties = λ p. p.user_properties;
  of_dict = disconnect_of_dict;
  distinct_fields = disconnect_distinct;
  of_dict-fields = disconnect_of_dict-fields;
}

abbrev pub encode_disconnect_properties : Option DisconnectProperties → Result Bytes
encode_disconnect_properties = encode_properties disconnect_class

abbrev pub decode_disconnect_properties : Bytes → ℕ → Result (Option DisconnectProperties × ℕ)
decode_disconnect_properties = decode_properties disconnect_class

pub record AuthProperties : Type 0 where
  pub authentication_method : Option Text
  pub authentication_data : Option Bytes
  pub reason_string : Option Text
  pub user_properties : Pairs

-- The dict of `encode_auth_properties`.
unfoldable pub auth_fields : AuthProperties → Fields
auth_fields p =
    (Ids.PropertyId.authentication_method, Option.map text p.authentication_method)
    ∷ (Ids.PropertyId.authentication_data, Option.map blob p.authentication_data)
    ∷ (Ids.PropertyId.reason_string, Option.map text p.reason_string)
    ∷ []

-- The class that `decode_auth_properties` builds.
unfoldable pub auth_of_dict : Properties → AuthProperties
unfolding get_text get_blob get_pairs
auth_of_dict d = record {
  authentication_method = get_text Ids.PropertyId.authentication_method d;
  authentication_data = get_blob Ids.PropertyId.authentication_data d;
  reason_string = get_text Ids.PropertyId.reason_string d;
  user_properties = get_pairs d;
}

pub auth_distinct : (p : AuthProperties) → distinct (auth_fields p) ≡ true
unfolding auth_fields same_id
auth_distinct p = refl

pub auth_of_dict-fields :
    (p : AuthProperties)
    → auth_of_dict (as_read_all (properties_dict (auth_fields p) p.user_properties)) ≡ p
unfolding auth_of_dict auth_fields same_id
auth_of_dict-fields p = λ i. record {
  authentication_method =
      text_back (auth_fields p) p.user_properties refl Ids.PropertyId.authentication_method refl
        p.authentication_method refl i;
  authentication_data =
      blob_back (auth_fields p) p.user_properties refl Ids.PropertyId.authentication_data refl
        p.authentication_data refl i;
  reason_string =
      text_back (auth_fields p) p.user_properties refl Ids.PropertyId.reason_string refl
        p.reason_string refl i;
  user_properties = pairs_back (auth_fields p) p.user_properties refl i;
}

abbrev pub auth_class : PropertyClass AuthProperties
auth_class = record {
  fields = auth_fields;
  user_properties = λ p. p.user_properties;
  of_dict = auth_of_dict;
  distinct_fields = auth_distinct;
  of_dict-fields = auth_of_dict-fields;
}

abbrev pub encode_auth_properties : Option AuthProperties → Result Bytes
encode_auth_properties = encode_properties auth_class

abbrev pub decode_auth_properties : Bytes → ℕ → Result (Option AuthProperties × ℕ)
decode_auth_properties = decode_properties auth_class
