-- ===== src/Examples/Receiving.antt =====
-- Inbound flows at which the theorems on inbound.py are applied.
use fast_mqtt.Prelude.{
  ◌≡◌, refl, [], ◌∷◌, ◌++◌, true, false, none, some, ok, err, protocol_error, has, length,
}
use fast_mqtt.Dict.{number_eq, get, put}
use fast_mqtt.Topic.{starts_with}
use fast_mqtt.Packet.{exactly_once, Publish}
use fast_mqtt.Protocol.Publishing.{plain_reply}
use fast_mqtt.Subscription.{Item}
use fast_mqtt.Subscription.Index.{new_index, add, select}
use fast_mqtt.Inbound.{make_message, no_session_replay, InboundPublishFlow, pubrec, queued}
use fast_mqtt.Inbound.Buffer.{accept, contains_packet_id}
use fast_mqtt.Inbound.Flow.{
  select_recipient, request_recipient, handle_publish, handle_pubrel, delivery_of, ack,
  begin_session,
}
use fast_mqtt.Inbound.Handshake.{
  IsNew, with_packet, pubrec_of, pubcomp_of, owner, qos2_delivery, qos2_manual_ack,
}
use fast_mqtt.Inbound.Drain.{start_delivery, deliver_turn, resume}
use fast_mqtt.Inbound.Kept.{IsFlow}
use fast_mqtt.Inbound.Events.{
  new_flow, start, after, begins, publishes, subscribes, starts_delivery, takes_turn, resumes,
  Received-IsFlow,
}

abbrev order : Publish
order = record {
  topic = 97 ∷ [];
  payload = 1 ∷ [];
  qos = exactly_once;
  retain = false;
  dup = false;
  packet_id = some 9;
  properties = none;
}

abbrev manual_item : Item
manual_item = (
  97 ∷ [],
  record { address = 1; auto_ack = false; actual_filter = []; subscription_identifier = none },
)

abbrev subscribed : InboundPublishFlow
subscribed = record (new_flow 10) { subscriptions = add manual_item.0 manual_item.1 new_index }

-- A message of a resumed session is held, a subscription comes, and the message is delivered.
abbrev drained : InboundPublishFlow
drained = deliver_turn none false (
    deliver_turn none false (
      start_delivery false
        (record (handle_publish none order (begin_session true (new_flow 10))).1 {
          subscriptions = add manual_item.0 manual_item.1 new_index;
        })))

Received-IsFlow_example : IsFlow (resume (ok tt) drained)
Received-IsFlow_example = Received-IsFlow 10 (
    after
      (after
        (after
          (after
            (after (after (after start (begins true)) (publishes none order))
              (subscribes (add manual_item.0 manual_item.1 new_index)))
            (starts_delivery false))
          (takes_turn none false))
        (takes_turn none false))
      (resumes (ok tt)))

subscribed-IsNew : IsNew order 9 subscribed
unfolding new_flow get has contains_packet_id
subscribed-IsNew = (refl, refl, refl, refl, refl)

to_request :
    (select_recipient (some 7) order subscribed ≡ ok (request_recipient order 7))
    × (accept 10 order (request_recipient order 7) no_session_replay
        ≡ ok (some (request_recipient order 7), no_session_replay))
unfolding select_recipient accept
to_request = (refl, refl)

qos2_delivery_example :
    (g h : InboundPublishFlow) × (handle_publish (some 7) order subscribed ≡ (ok tt, g))
    × (g.sent ≡ [] ++ pubrec_of 9 ∷ [])
    × (g.deliveries ≡ [])
    × (handle_publish none order g ≡ (ok tt, with_packet (pubrec_of 9) g))
    × (handle_pubrel (plain_reply 9) g ≡ (ok tt, h))
    × (h.sent ≡ g.sent ++ pubcomp_of 9 ∷ [])
    × (h.deliveries ≡ [] ++ delivery_of (make_message order) (some 7) none none)
    × (handle_pubrel (plain_reply 9) h ≡ (err protocol_error, h))
unfolding new_flow
qos2_delivery_example =
    qos2_delivery (some 7) none order 9 subscribed (request_recipient order 7) no_session_replay
      subscribed-IsNew to_request.0 to_request.1 refl refl

to_subscription :
    (select_recipient none order subscribed ≡ ok (owner (make_message order) manual_item))
    × (accept 10 order (owner (make_message order) manual_item) no_session_replay
        ≡ ok (some (owner (make_message order) manual_item), no_session_replay))
unfolding select_recipient accept new_flow select get add new_index put starts_with
to_subscription = (refl, refl)

qos2_manual_ack_example :
    (g h r : InboundPublishFlow) × (handle_publish none order subscribed ≡ (ok tt, g))
    × (g.sent ≡ [])
    × (g.deliveries
        ≡ []
          ++ queued manual_item
              (make_message order)
              (some (pubrec 9 (owner (make_message order) manual_item)))
              false
            ∷ [])
    × (handle_publish none order g ≡ (ok tt, g))
    × (ack (length subscribed.deliveries) g ≡ (ok tt, h))
    × (h.sent ≡ [] ++ pubrec_of 9 ∷ [])
    × (ack (length subscribed.deliveries) h ≡ (ok tt, h))
    × (handle_pubrel (plain_reply 9) h ≡ (ok tt, r))
    × (r.sent ≡ h.sent ++ pubcomp_of 9 ∷ [])
    × (r.deliveries ≡ h.deliveries)
unfolding new_flow
qos2_manual_ack_example =
    qos2_manual_ack none none order 9 subscribed (make_message order) manual_item no_session_replay
      subscribed-IsNew to_subscription.0 to_subscription.1 refl refl
