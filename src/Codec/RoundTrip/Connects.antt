-- ===== src/Codec/RoundTrip/Connects.antt =====
-- codec.py: the encoder and the decoder of CONNECT.
use fast_mqtt.Prelude.{
  ℕ, ◌/◌, ◌%◌, ◌≡◌, refl, subst, [], ◌∷◌, ◌++◌, Bool, true, false, Option, none, some, arith,
}
use fast_mqtt.Prelude.{ok, bind-ok, ok-injective}
use mathlib.Core.Option
use fast_mqtt.Bytes.{Bytes, pack_u16, has_bit}
use fast_mqtt.Utf8.{text_eq}
use fast_mqtt.Cursor.{
  Reads, ReadsToEnd, Reads-advance, Reads-pure, Reads-bind, Reads-map, ReadsToEnd-Reads,
  ReadsToEnd-bind, advance, pure, when, next_byte, next_u16, Reads-next_byte,
}
use fast_mqtt.Wire.{encode_str, decode_str, encode_bytes_field, decode_bytes_field}
use fast_mqtt.Wire.RoundTrip.{Decodes-str, Decodes-bytes_field, Reads-u16}
use fast_mqtt.Property.Connect.{
  connect_class, will_class, encode_connect_properties, decode_connect_properties,
  encode_will_properties, decode_will_properties,
}
use fast_mqtt.Packet.{Version, v3, v5, QoS, at_most_once, qos_of_code, Will, Connect}
use fast_mqtt.Codec.Bodies.{
  only_v5, is_some, connect_flags, proto_level, proto_name, encode_will, encode_optional,
  connect_body,
}
use fast_mqtt.Codec.Steps.{versioned}
use fast_mqtt.Codec.Decode.{version_of_level, read_will, after_flags, decode_connect}
use fast_mqtt.Codec.Reading.{Reads-versioned, Reads-optional}
use fast_mqtt.Codec.Received.{received_will, received_connect}

abbrev will_qos : Option Will → QoS
will_qos none = at_most_once
will_qos (some w) = w.qos

abbrev will_retain : Option Will → Bool
will_retain none = false
will_retain (some w) = w.retain

record FlagsSay (flags : ℕ) (clean : Bool) (will : Option Will) (username password : Bool)
    : Type 0 where
  clean_bit : has_bit flags 1 ≡ clean
  will_bit : has_bit flags 2 ≡ is_some will
  qos_bits : qos_of_code (flags / 8 % 4) ≡ some (will_qos will)
  retain_bit : has_bit flags 5 ≡ will_retain will
  username_bit : has_bit flags 7 ≡ username
  password_bit : has_bit flags 6 ≡ password

flags_say :
    (clean : Bool) (will : Option Will) (username password : Bool)
    → FlagsSay (connect_flags clean will username password) clean will username password
flags_say clean none username password = ground arith
flags_say clean (some w) username password = ground arith

level_version : (v : Version) → version_of_level (proto_level v) ≡ some v
level_version v3 = refl
level_version v5 = refl

Reads-will :
    (v : Version) (will : Option Will) (bs : Bytes)
    → encode_will v will ≡ ok bs
    → Reads
        (when (is_some will) (read_will v (will_qos will) (will_retain will)))
        bs
        (Option.map (received_will v) will)
unfolding encode_will read_will
Reads-will v none bs h =
    subst (λ b. Reads {A = Option Will} (pure none) b none) (ok-injective h)
      (Reads-pure {A = Option Will} none)
Reads-will v (some w) bs h =
    bind-ok (only_v5 v (encode_will_properties w.properties)) _ h λ block hblock h₁.
      bind-ok (encode_str w.topic) _ h₁ λ topic htopic h₂.
        bind-ok (encode_bytes_field w.payload) _ h₂ λ payload hpayload e.
          subst (λ b. Reads (when true (read_will v w.qos w.retain)) b (some (received_will v w)))
            (ok-injective e)
            (Reads-map (read_will v w.qos w.retain) some (
              Reads-bind (versioned v decode_will_properties) _ block (topic ++ payload)
                (Reads-versioned will_class v w.properties block hblock)
                (Reads-bind (advance decode_str) _ topic payload
                  (Reads-advance (Decodes-str w.topic topic htopic))
                  (Reads-map (advance decode_bytes_field)
                    (λ x. record (received_will v w) { payload = x })
                    (Reads-advance (Decodes-bytes_field w.payload payload hpayload))))))

-- The fields after the flags, for any flags byte that says which of them are there.
module _ (v : Version) (p : Connect) (flags : ℕ)
    (say : FlagsSay flags p.clean_session p.will (is_some p.username) (is_some p.password)) where
  Reads-after_flags :
      (keepalive props client will username password : Bytes)
      → pack_u16 p.keepalive ≡ ok keepalive
      → only_v5 v (encode_connect_properties p.properties) ≡ ok props
      → encode_str p.client_id ≡ ok client
      → encode_will v p.will ≡ ok will
      → encode_optional encode_str p.username ≡ ok username
      → encode_optional encode_bytes_field p.password ≡ ok password
      → Reads
          (after_flags v flags)
          (keepalive ++ (props ++ (client ++ (will ++ (username ++ password)))))
          (received_connect v p)
  unfolding after_flags
  Reads-after_flags keepalive props client will username password hk hpr hc hw hu hp =
      rw (say.qos_bits) (
        rw (say.will_bit) (
          rw (say.retain_bit) (
            rw (say.username_bit) (
              rw (say.password_bit) (
                rw (say.clean_bit) (
                  Reads-bind next_u16 _ keepalive
                    (props ++ (client ++ (will ++ (username ++ password))))
                    (Reads-u16 p.keepalive keepalive hk)
                    (Reads-bind (versioned v decode_connect_properties) _ props
                      (client ++ (will ++ (username ++ password)))
                      (Reads-versioned connect_class v p.properties props hpr)
                      (Reads-bind (advance decode_str) _ client (will ++ (username ++ password))
                        (Reads-advance (Decodes-str p.client_id client hc))
                        (Reads-bind
                          (when (is_some p.will)
                            (read_will v (will_qos p.will) (will_retain p.will)))
                          _ will (username ++ password) (Reads-will v p.will will hw)
                          (Reads-bind (when (is_some p.username) (advance decode_str)) _ username
                            password
                            (Reads-optional encode_str (advance decode_str) p.username username
                              (λ s cs e. Reads-advance (Decodes-str s cs e)) hu)
                            (Reads-map (when (is_some p.password) (advance decode_bytes_field))
                              (λ x. record (received_connect v p) { password = x })
                              (Reads-optional encode_bytes_field (advance decode_bytes_field)
                                p.password password
                                (λ b cs e. Reads-advance (Decodes-bytes_field b cs e))
                                hp))))))))))))

pub ReadsToEnd-connect :
    (v : Version) (p : Connect) (bs : Bytes)
    → connect_body v p ≡ ok bs
    → ReadsToEnd decode_connect bs (received_connect v p)
unfolding connect_body decode_connect text_eq
ReadsToEnd-connect v p bs h = bind-ok (encode_str proto_name) _ h λ name hname h₁.
    bind-ok (pack_u16 p.keepalive) _ h₁ λ keepalive hk h₂.
      bind-ok (only_v5 v (encode_connect_properties p.properties)) _ h₂ λ props hpr h₃.
        bind-ok (encode_str p.client_id) _ h₃ λ client hc h₄.
          bind-ok (encode_will v p.will) _ h₄ λ will hw h₅.
            bind-ok (encode_optional encode_str p.username) _ h₅ λ username hu h₆.
              bind-ok (encode_optional encode_bytes_field p.password) _ h₆ λ password hp e.
                let flags =
                  connect_flags p.clean_session p.will (is_some p.username) (is_some p.password) in
                let rest = keepalive ++ (props ++ (client ++ (will ++ (username ++ password)))) in
                subst (λ b. ReadsToEnd decode_connect b (received_connect v p)) (ok-injective e)
                  (ReadsToEnd-bind (advance decode_str) _ name (proto_level v ∷ flags ∷ rest)
                    (Reads-advance (Decodes-str proto_name name hname))
                    (ReadsToEnd-bind next_byte _ (proto_level v ∷ []) (flags ∷ rest)
                      (Reads-next_byte (proto_level v))
                      (rw (level_version v) (
                        ReadsToEnd-bind next_byte (after_flags v) (flags ∷ []) rest
                          (Reads-next_byte flags)
                          (ReadsToEnd-Reads (
                            Reads-after_flags v p flags
                              (flags_say p.clean_session p.will (is_some p.username)
                                (is_some p.password))
                              keepalive props client will username password hk hpr hc hw hu hp))))))
