-- ===== src/Property/Ids.antt =====
-- `PropertyID`, and the wire type of each property.
use fast_mqtt.Prelude.{arith}
use fast_mqtt.Prelude.{
  ℕ, ◌≡◌, refl, sym, ap, ◌∙◌, Option, none, some, ==_iff, ◌==◌, if◌then◌else◌, Bool, true, false,
  ◌↔◌,
}
use fast_mqtt.Dict.{Eq}

pub data PropertyId : Type 0 where
  payload_format_indicator message_expiry_interval content_type response_topic : PropertyId
  correlation_data subscription_identifier session_expiry_interval : PropertyId
  assigned_client_identifier server_keep_alive authentication_method : PropertyId
  authentication_data request_problem_information will_delay_interval : PropertyId
  request_response_information response_information server_reference reason_string : PropertyId
  receive_maximum topic_alias_maximum topic_alias maximum_qos retain_available : PropertyId
  user_property maximum_packet_size wildcard_subscription_available : PropertyId
  subscription_identifier_available shared_subscription_available : PropertyId

unfoldable pub id_code : PropertyId → ℕ
id_code payload_format_indicator = 0x01
id_code message_expiry_interval = 0x02
id_code content_type = 0x03
id_code response_topic = 0x08
id_code correlation_data = 0x09
id_code subscription_identifier = 0x0b
id_code session_expiry_interval = 0x11
id_code assigned_client_identifier = 0x12
id_code server_keep_alive = 0x13
id_code authentication_method = 0x15
id_code authentication_data = 0x16
id_code request_problem_information = 0x17
id_code will_delay_interval = 0x18
id_code request_response_information = 0x19
id_code response_information = 0x1a
id_code server_reference = 0x1c
id_code reason_string = 0x1f
id_code receive_maximum = 0x21
id_code topic_alias_maximum = 0x22
id_code topic_alias = 0x23
id_code maximum_qos = 0x24
id_code retain_available = 0x25
id_code user_property = 0x26
id_code maximum_packet_size = 0x27
id_code wildcard_subscription_available = 0x28
id_code subscription_identifier_available = 0x29
id_code shared_subscription_available = 0x2a

-- `PropertyID(n)`; `none` where it raises.
unfoldable pub id_of_code : ℕ → Option PropertyId
id_of_code n =
    if n == 0x01
    then some payload_format_indicator
    else if n == 0x02
    then some message_expiry_interval
    else if n == 0x03
    then some content_type
    else if n == 0x08
    then some response_topic
    else if n == 0x09
    then some correlation_data
    else if n == 0x0b
    then some subscription_identifier
    else if n == 0x11
    then some session_expiry_interval
    else if n == 0x12
    then some assigned_client_identifier
    else if n == 0x13
    then some server_keep_alive
    else if n == 0x15
    then some authentication_method
    else if n == 0x16
    then some authentication_data
    else if n == 0x17
    then some request_problem_information
    else if n == 0x18
    then some will_delay_interval
    else if n == 0x19
    then some request_response_information
    else if n == 0x1a
    then some response_information
    else if n == 0x1c
    then some server_reference
    else if n == 0x1f
    then some reason_string
    else if n == 0x21
    then some receive_maximum
    else if n == 0x22
    then some topic_alias_maximum
    else if n == 0x23
    then some topic_alias
    else if n == 0x24
    then some maximum_qos
    else if n == 0x25
    then some retain_available
    else if n == 0x26
    then some user_property
    else if n == 0x27
    then some maximum_packet_size
    else if n == 0x28
    then some wildcard_subscription_available
    else if n == 0x29
    then some subscription_identifier_available
    else if n == 0x2a
    then some shared_subscription_available
    else none

-- The sets `_WIRE_BYTE` to `_WIRE_BYTES_DATA`, and the repeatable pair of texts.
pub data WireType : Type 0 where
  byte uint16 uint32 varint str bytes_data string_pair : WireType

unfoldable pub wire_type : PropertyId → WireType
wire_type payload_format_indicator = byte
wire_type request_problem_information = byte
wire_type request_response_information = byte
wire_type maximum_qos = byte
wire_type retain_available = byte
wire_type wildcard_subscription_available = byte
wire_type subscription_identifier_available = byte
wire_type shared_subscription_available = byte
wire_type server_keep_alive = uint16
wire_type receive_maximum = uint16
wire_type topic_alias_maximum = uint16
wire_type topic_alias = uint16
wire_type message_expiry_interval = uint32
wire_type session_expiry_interval = uint32
wire_type will_delay_interval = uint32
wire_type maximum_packet_size = uint32
wire_type subscription_identifier = varint
wire_type content_type = str
wire_type response_topic = str
wire_type assigned_client_identifier = str
wire_type authentication_method = str
wire_type reason_string = str
wire_type response_information = str
wire_type server_reference = str
wire_type correlation_data = bytes_data
wire_type authentication_data = bytes_data
wire_type user_property = string_pair

pub id_of_code-id_code : (p : PropertyId) → id_of_code (id_code p) ≡ some p
unfolding id_of_code id_code
id_of_code-id_code payload_format_indicator = refl
id_of_code-id_code _ = refl

unfoldable pub same_id : PropertyId → PropertyId → Bool
unfolding id_code
same_id p q = id_code p == id_code q

-- No two properties share a code.
pub same_id_iff : (p q : PropertyId) → (same_id p q ≡ true) ↔ (p ≡ q)
unfolding same_id
same_id_iff p q = (
  λ h.
      some_eq
        (sym (id_of_code-id_code p) ∙ ap id_of_code ((==_iff _ _).0 h) ∙ id_of_code-id_code q),
  λ h. (==_iff _ _).1 (ap id_code h),
)
  where
    some_eq : {a b : PropertyId} → some a ≡ some b → a ≡ b
    some_eq e = cc

instance abbrev pub id_eq : Eq PropertyId
id_eq = record { beq = same_id; beq_iff = same_id_iff }

pub same_id_symm : (p q : PropertyId) → same_id p q ≡ false → same_id q p ≡ false
unfolding same_id
same_id_symm p q h = codes (id_code p) (id_code q) h
  where
    codes : (a b : ℕ) → (a == b) ≡ false → (b == a) ≡ false
    codes a b e = ground arith
