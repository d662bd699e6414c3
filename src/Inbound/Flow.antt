-- ===== src/Inbound/Flow.antt =====
-- `InboundPublishFlow` of inbound.py: the receive flows of an incoming PUBLISH, PUBREL, and
-- `Message.ack` of types/message.py. `claimed` is what the request router answers when it is asked
-- for the message, none also where there is no router.
use fast_mqtt.Prelude.{ℕ, zero, suc, List, [], ◌∷◌, ◌++◌, Bool, true, false, Option, none, some}
use fast_mqtt.Prelude.{
  has, if◌then◌else◌, Result, ok, err, ◌>>=◌, protocol_error, value_error, get_elem?,
}
use fast_mqtt.Dict.{number_eq, get, put, pop}
use fast_mqtt.Property.Publish.{PublishProperties}
use fast_mqtt.Packet
use fast_mqtt.Packet.{QoS, at_most_once, at_least_once, exactly_once, Publish, PubReply}
use fast_mqtt.State.{discard}
use fast_mqtt.Subscription.{SubscriptionSelection, Item}
use fast_mqtt.Subscription.Index.{SubscriptionIndex, select, select_by_identifier, is_some}
use fast_mqtt.Protocol.Publishing.{plain_reply}
use fast_mqtt.Inbound.{
  Message, make_message, InboundRecipient, auto_ack, InboundQoS2Flight, pending_pubrel, Callback,
  puback, pubrec, Delivery, response, queued, Replay, no_session_replay, persistent_idle,
  InboundPublishFlow, Outcome, and_then, send,
}
use fast_mqtt.Inbound.Buffer.{accept, contains_packet_id, clear_replay}

abbrev pub identifier_of : Option PublishProperties → Option ℕ
identifier_of none = none
identifier_of (some properties) = properties.subscription_identifier

abbrev pub select_with : Option ℕ → Publish → SubscriptionIndex → Result SubscriptionSelection
select_with none publish index = select publish.topic index
select_with (some identifier) publish index = select_by_identifier publish.topic identifier index

-- `_select_subscription`
unfoldable pub select_subscription : Publish → SubscriptionIndex → Result SubscriptionSelection
select_subscription publish index = select_with (identifier_of publish.properties) publish index

abbrev pub request_recipient : Publish → ℕ → InboundRecipient
request_recipient publish request = record {
  message = make_message publish;
  request = some request;
  subscription = none;
}

abbrev pub subscription_recipient : Publish → Option Item → InboundRecipient
subscription_recipient publish subscription = record {
  message = make_message publish;
  request = none;
  subscription = subscription;
}

-- `select_recipient`
unfoldable pub select_recipient : Option ℕ → Publish → InboundPublishFlow → Result InboundRecipient
unfolding select_subscription
select_recipient (some request) publish f = ok (request_recipient publish request)
select_recipient none publish f = select_subscription publish f.subscriptions >>= λ selection.
    ok (subscription_recipient publish selection.recipient)

-- The callback is kept where the entry does not acknowledge by itself.
abbrev pub callback_for : Item → Option Callback → Option Callback
callback_for (filter, entry) callback = if entry.auto_ack then none else callback

abbrev pub delivery_of : Message → Option ℕ → Option Item → Option Callback → List Delivery
delivery_of message (some request) subscription callback = response request message ∷ []
delivery_of message none none callback = []
delivery_of message none (some item) callback =
    queued item message (callback_for item callback) false ∷ []

-- `_deliver`
unfoldable pub deliver :
    InboundRecipient → Option Callback → InboundPublishFlow → InboundPublishFlow
deliver recipient callback f = record f {
  deliveries =
      f.deliveries
      ++ delivery_of recipient.message recipient.request recipient.subscription callback;
}

-- `send_packet` of PubAck, PubRec and PubComp
abbrev pub send_puback : ℕ → InboundPublishFlow → Outcome
send_puback pid f = send (Packet.Packet.pub_ack (plain_reply pid)) f

abbrev pub send_pubrec : ℕ → InboundPublishFlow → Outcome
send_pubrec pid f = send (Packet.Packet.pub_rec (plain_reply pid)) f

abbrev pub send_pubcomp : ℕ → InboundPublishFlow → Outcome
send_pubcomp pid f = send (Packet.Packet.pub_comp (plain_reply pid)) f

-- `_deliver_qos1_publish`
unfoldable pub deliver_qos1_publish : ℕ → InboundRecipient → InboundPublishFlow → Outcome
unfolding deliver
deliver_qos1_publish pid recipient f =
    if auto_ack recipient
    then send_puback pid (deliver recipient none f)
    else (ok tt, deliver recipient (some (puback pid)) f)

abbrev pub flight_of : ℕ → InboundRecipient → Bool → InboundQoS2Flight
flight_of pid recipient delivered = record {
  packet_id = pid;
  recipient = recipient;
  state = pending_pubrel;
  delivered = delivered;
}

unfoldable pub open_flight : ℕ → InboundQoS2Flight → InboundPublishFlow → InboundPublishFlow
open_flight pid flight f = record f { inflight_qos2_in = put pid flight f.inflight_qos2_in }

-- `self._state.pending_ack_qos2_in.add(pid)`
unfoldable pub add_pending_ack : ℕ → InboundPublishFlow → InboundPublishFlow
add_pending_ack pid f = record f {
  pending_ack_qos2_in =
      (if has pid f.pending_ack_qos2_in
        then f.pending_ack_qos2_in
        else pid ∷ f.pending_ack_qos2_in);
}

-- `_accept_qos2_publish`
unfoldable pub accept_qos2_publish : ℕ → InboundRecipient → InboundPublishFlow → Outcome
unfolding open_flight add_pending_ack deliver
accept_qos2_publish pid recipient f =
    if auto_ack recipient
    then send_pubrec pid (open_flight pid (flight_of pid recipient false) f)
    else (ok tt, deliver recipient (some (pubrec pid recipient)) (add_pending_ack pid f))

-- What follows `accept`: an error there closed the connection.
abbrev pub accepted :
    (InboundRecipient → InboundPublishFlow → Outcome)
    → Result (Option InboundRecipient × Replay)
    → InboundPublishFlow
    → Outcome
accepted next (err e) f = (err e, record f { aborted = true })
accepted next (ok (none, replay)) f = (ok tt, record f { replay = replay })
accepted next (ok (some recipient, replay)) f = next recipient (record f { replay = replay })

abbrev pub selected :
    (InboundRecipient → InboundPublishFlow → Outcome)
    → Publish
    → Result InboundRecipient
    → InboundPublishFlow
    → Outcome
selected next publish (err e) f = (err e, f)
selected next publish (ok recipient) f =
    accepted next (accept f.buffer_size publish recipient f.replay) f

-- `_select_recipient_or_buffer`, and what its callers do with the recipient
unfoldable pub route :
    Option ℕ
    → Publish
    → (InboundRecipient → InboundPublishFlow → Outcome)
    → InboundPublishFlow
    → Outcome
unfolding select_recipient
route claimed publish next f = selected next publish (select_recipient claimed publish f) f

abbrev pub handle_qos1_publish : Option ℕ → Publish → Option ℕ → InboundPublishFlow → Outcome
handle_qos1_publish claimed packet none f = (err value_error, f)
handle_qos1_publish claimed packet (some pid) f =
    if contains_packet_id pid f.replay
    then (ok tt, f)
    else route claimed packet (deliver_qos1_publish pid) f

abbrev pub handle_qos2_publish : Option ℕ → Publish → Option ℕ → InboundPublishFlow → Outcome
handle_qos2_publish claimed packet none f = (err value_error, f)
handle_qos2_publish claimed packet (some pid) f =
    if is_some (get pid f.inflight_qos2_in)
    then send_pubrec pid f
    else if has pid f.pending_ack_qos2_in
    then (ok tt, f)
    else if contains_packet_id pid f.replay
    then (ok tt, f)
    else route claimed packet (accept_qos2_publish pid) f

abbrev pub handle_by_qos : QoS → Option ℕ → Publish → InboundPublishFlow → Outcome
handle_by_qos at_most_once claimed packet f =
    route claimed packet (λ recipient g. (ok tt, deliver recipient none g)) f
handle_by_qos at_least_once claimed packet f = handle_qos1_publish claimed packet packet.packet_id f
handle_by_qos exactly_once claimed packet f = handle_qos2_publish claimed packet packet.packet_id f

-- `handle_publish`
unfoldable pub handle_publish : Option ℕ → Publish → InboundPublishFlow → Outcome
unfolding route deliver deliver_qos1_publish accept_qos2_publish contains_packet_id
handle_publish claimed packet f = handle_by_qos packet.qos claimed packet f

unfoldable pub close_flight : ℕ → InboundPublishFlow → InboundPublishFlow
close_flight pid f = record f { inflight_qos2_in = pop pid f.inflight_qos2_in }

-- `if not flight.delivered`
abbrev pub release_flight : InboundRecipient → Bool → InboundPublishFlow → Outcome
release_flight recipient true f = (ok tt, f)
release_flight recipient false f = (ok tt, deliver recipient none f)

-- `handle_pubrel`
unfoldable pub handle_pubrel : PubReply → InboundPublishFlow → Outcome
unfolding close_flight deliver
handle_pubrel packet f = elim (get packet.packet_id f.inflight_qos2_in) [
  | none ↦ (err protocol_error, f)
  | some flight ↦
      and_then (send_pubcomp packet.packet_id (close_flight packet.packet_id f))
        (release_flight flight.recipient flight.delivered)
]

-- `_puback` and `_pubrec`. The flag of `_puback` says what `_resolved` says: `ack` runs it once.
unfoldable pub run_callback : Callback → InboundPublishFlow → Outcome
unfolding open_flight
run_callback (puback pid) f = send_puback pid f
run_callback (pubrec pid recipient) f = send_pubrec pid (
    open_flight pid (flight_of pid recipient true)
      (record f { pending_ack_qos2_in = discard pid f.pending_ack_qos2_in }))

abbrev pub run_optional : Option Callback → InboundPublishFlow → Outcome
run_optional none f = (ok tt, f)
run_optional (some callback) f = run_callback callback f

abbrev pub resolve : Delivery → Delivery
resolve (response request message) = response request message
resolve (queued item message callback resolved) = queued item message callback true

unfoldable pub resolve_at : ℕ → List Delivery → List Delivery
resolve_at i [] = []
resolve_at zero (d ∷ ds) = resolve d ∷ ds
resolve_at (suc i) (d ∷ ds) = d ∷ resolve_at i ds

abbrev pub ack_delivery : ℕ → Option Delivery → InboundPublishFlow → Outcome
ack_delivery i none f = (ok tt, f)
ack_delivery i (some (response request message)) f = (ok tt, f)
ack_delivery i (some (queued item message callback true)) f = (ok tt, f)
ack_delivery i (some (queued item message callback false)) f =
    run_optional callback (record f { deliveries = resolve_at i f.deliveries })

-- `Message.ack`, of the message of a delivery
unfoldable pub ack : ℕ → InboundPublishFlow → Outcome
unfolding resolve_at run_callback
ack i f = ack_delivery i (get_elem? f.deliveries i) f

-- `begin_session`
unfoldable pub begin_session : Bool → InboundPublishFlow → InboundPublishFlow
begin_session session_present f = record f {
  replay = (if session_present then persistent_idle else no_session_replay);
}

-- `clear`
unfoldable pub clear_inbound : InboundPublishFlow → InboundPublishFlow
clear_inbound f = record f { replay = clear_replay f.replay }
