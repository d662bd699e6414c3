-- ===== src/Packet.antt =====
-- The packet classes of src/zmqtt/_internal/packets (connect.py, publish.py, subscribe.py,
-- disconnect.py, auth.py, ping.py, types.py) and the enumerations of src/zmqtt/_internal/types.
use fast_mqtt.Prelude.{ℕ, List, Bool, Option, none, some, ◌==◌, if◌then◌else◌}
use fast_mqtt.Bytes.{Bytes}
use fast_mqtt.Utf8.{Text}
use fast_mqtt.Property.Connect.{ConnectProperties, WillProperties}
use fast_mqtt.Property.ConnAck.{ConnAckProperties}
use fast_mqtt.Property.Publish.{PublishProperties, PubAckProperties}
use fast_mqtt.Property.Subscribe.{
  SubscribeProperties, SubAckProperties, UnsubscribeProperties, UnsubAckProperties,
}
use fast_mqtt.Property.Disconnect.{DisconnectProperties, AuthProperties}

-- `Literal["3.1.1", "5.0"]`
pub data Version : Type 0 where
  v3 v5 : Version

pub data QoS : Type 0 where
  at_most_once at_least_once exactly_once : QoS

abbrev pub qos_code : QoS → ℕ
qos_code at_most_once = 0
qos_code at_least_once = 1
qos_code exactly_once = 2

-- `QoS(n)`; `none` where it raises.
abbrev pub qos_of_code : ℕ → Option QoS
qos_of_code n =
    if n == 0
    then some at_most_once
    else if n == 1
    then some at_least_once
    else if n == 2
    then some exactly_once
    else none

pub data RetainHandling : Type 0 where
  send_on_subscribe send_if_not_exists do_not_send : RetainHandling

abbrev pub retain_code : RetainHandling → ℕ
retain_code send_on_subscribe = 0
retain_code send_if_not_exists = 1
retain_code do_not_send = 2

abbrev pub retain_of_code : ℕ → Option RetainHandling
retain_of_code n =
    if n == 0
    then some send_on_subscribe
    else if n == 1
    then some send_if_not_exists
    else if n == 2
    then some do_not_send
    else none

pub data PacketType : Type 0 where
  connect conn_ack publish pub_ack pub_rec pub_rel pub_comp subscribe sub_ack : PacketType
  unsubscribe unsub_ack ping_req ping_resp disconnect auth : PacketType

abbrev pub type_code : PacketType → ℕ
type_code connect = 1
type_code conn_ack = 2
type_code publish = 3
type_code pub_ack = 4
type_code pub_rec = 5
type_code pub_rel = 6
type_code pub_comp = 7
type_code subscribe = 8
type_code sub_ack = 9
type_code unsubscribe = 10
type_code unsub_ack = 11
type_code ping_req = 12
type_code ping_resp = 13
type_code disconnect = 14
type_code auth = 15

-- `PacketType(n)`
abbrev pub type_of_code : ℕ → Option PacketType
type_of_code n =
    if n == 1
    then some connect
    else if n == 2
    then some conn_ack
    else if n == 3
    then some publish
    else if n == 4
    then some pub_ack
    else if n == 5
    then some pub_rec
    else if n == 6
    then some pub_rel
    else if n == 7
    then some pub_comp
    else if n == 8
    then some subscribe
    else if n == 9
    then some sub_ack
    else if n == 10
    then some unsubscribe
    else if n == 11
    then some unsub_ack
    else if n == 12
    then some ping_req
    else if n == 13
    then some ping_resp
    else if n == 14
    then some disconnect
    else if n == 15
    then some auth
    else none

pub record Will : Type 0 where
  pub topic : Text
  pub payload : Bytes
  pub qos : QoS
  pub retain : Bool
  pub properties : Option WillProperties

pub record Connect : Type 0 where
  pub client_id : Text
  pub clean_session : Bool
  pub keepalive : ℕ
  pub username : Option Text
  pub password : Option Bytes
  pub will : Option Will
  pub properties : Option ConnectProperties

pub record ConnAck : Type 0 where
  pub session_present : Bool
  pub return_code : ℕ
  pub properties : Option ConnAckProperties

pub record Publish : Type 0 where
  pub topic : Text
  pub payload : Bytes
  pub qos : QoS
  pub retain : Bool
  pub dup : Bool
  pub packet_id : Option ℕ
  pub properties : Option PublishProperties

-- `PubAck`, `PubRec`, `PubRel` and `PubComp` have the same fields.
pub record PubReply : Type 0 where
  pub packet_id : ℕ
  pub reason_code : ℕ
  pub properties : Option PubAckProperties

pub record SubscriptionRequest : Type 0 where
  pub topic_filter : Text
  pub qos : QoS
  pub no_local : Bool
  pub retain_as_published : Bool
  pub retain_handling : RetainHandling

pub record Subscribe : Type 0 where
  pub packet_id : ℕ
  pub subscriptions : List SubscriptionRequest
  pub properties : Option SubscribeProperties

pub record SubAck : Type 0 where
  pub packet_id : ℕ
  pub return_codes : List ℕ
  pub properties : Option SubAckProperties

pub record Unsubscribe : Type 0 where
  pub packet_id : ℕ
  pub topic_filters : List Text
  pub properties : Option UnsubscribeProperties

pub record UnsubAck : Type 0 where
  pub packet_id : ℕ
  pub reason_codes : List ℕ
  pub properties : Option UnsubAckProperties

pub record Disconnect : Type 0 where
  pub reason_code : ℕ
  pub properties : Option DisconnectProperties

pub record Auth : Type 0 where
  pub reason_code : ℕ
  pub properties : Option AuthProperties

-- `AnyPacket`
pub data Packet : Type 0 where
  connect : Connect → Packet
  conn_ack : ConnAck → Packet
  publish : Publish → Packet
  pub_ack pub_rec pub_rel pub_comp : PubReply → Packet
  subscribe : Subscribe → Packet
  sub_ack : SubAck → Packet
  unsubscribe : Unsubscribe → Packet
  unsub_ack : UnsubAck → Packet
  ping_req ping_resp : Packet
  disconnect : Disconnect → Packet
  auth : Auth → Packet
