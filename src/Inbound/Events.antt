-- ===== src/Inbound/Events.antt =====
-- What can happen to the inbound state of a connection of inbound.py, one event after another, and
-- its replay buffer in each state.
use fast_mqtt.Prelude.{ℕ, [], Bool, true, false, Option, none, some, inl, inr, Option-cases, has}
use fast_mqtt.Prelude.{if◌then◌else◌, Result, ok, err}
use fast_mqtt.Dict.{number_eq, get}
use fast_mqtt.Packet
use fast_mqtt.Packet.{QoS, at_most_once, at_least_once, exactly_once, Publish, PubReply}
use fast_mqtt.Protocol.Publishing.{plain_reply}
use fast_mqtt.Subscription.Index.{SubscriptionIndex, new_index, is_some}
use fast_mqtt.Inbound.{
  InboundRecipient, Callback, puback, pubrec, Delivery, response, queued, Replay, no_session_replay,
  InboundPublishFlow, Outcome, and_then, send,
}
use fast_mqtt.Inbound.Buffer.{accept, contains_packet_id}
use fast_mqtt.Inbound.Flow.{
  select_recipient, deliver, deliver_qos1_publish, accept_qos2_publish, open_flight, send_pubrec,
  accepted, selected, route, handle_qos1_publish, handle_qos2_publish, handle_by_qos,
  handle_publish, close_flight, release_flight, handle_pubrel, run_callback, run_optional,
  ack_delivery, ack, begin_session, clear_inbound,
}
use fast_mqtt.Inbound.Bounded.{Leaves, accept-Leaves}
use fast_mqtt.Inbound.Drain.{start_delivery, deliver_turn, resume}
use fast_mqtt.Inbound.Kept.{IsFlow, either, send-IsFlow, deliver_qos1-IsFlow, accept_qos2-IsFlow}
use fast_mqtt.Inbound.Turns.{start_delivery-IsFlow, deliver_turn-IsFlow, resume-IsFlow}

unfoldable pub new_flow : ℕ → InboundPublishFlow
new_flow size = record {
  subscriptions = new_index;
  inflight_qos2_in = [];
  pending_ack_qos2_in = [];
  buffer_size = size;
  replay = no_session_replay;
  sent = [];
  broken = false;
  aborted = false;
  deliveries = [];
}

pub data Event (f : InboundPublishFlow) : InboundPublishFlow → Type 0 where
  publishes : (claimed : Option ℕ) (packet : Publish) → Event f (handle_publish claimed packet f).1
  pubrels : (packet : PubReply) → Event f (handle_pubrel packet f).1
  acks : (delivery : ℕ) → Event f (ack delivery f).1
  begins : (session_present : Bool) → Event f (begin_session session_present f)
  clears : Event f (clear_inbound f)
  starts_delivery : (expiring : Bool) → Event f (start_delivery expiring f)
  takes_turn : (claimed : Option ℕ) (full : Bool) → Event f (deliver_turn claimed full f)
  resumes : (r : Result (Unit {0})) → Event f (resume r f)
  subscribes : (index : SubscriptionIndex) → Event f (record f { subscriptions = index })
  transport_changes : (broken : Bool) → Event f (record f { broken = broken })

-- The states that a flow with a limit goes through
pub data Received (size : ℕ) : InboundPublishFlow → Type 0 where
  start : Received size (new_flow size)
  after : {f g : InboundPublishFlow} → Received size f → Event f g → Received size g

accepted-IsFlow :
    (next : InboundRecipient → InboundPublishFlow → Outcome)
    (r : Result (Option InboundRecipient × Replay)) (f : InboundPublishFlow)
    → ((recipient : InboundRecipient) (g : InboundPublishFlow)
        → IsFlow g
        → IsFlow (next recipient g).1)
    → Leaves f.buffer_size r
    → IsFlow f
    → IsFlow (accepted next r f).1
accepted-IsFlow next (err e) f n l h = h
accepted-IsFlow next (ok (none, replay)) f n l h = l
accepted-IsFlow next (ok (some recipient, replay)) f n l h =
    n recipient (record f { replay = replay }) l

selected-IsFlow :
    (next : InboundRecipient → InboundPublishFlow → Outcome) (publish : Publish)
    (r : Result InboundRecipient) (f : InboundPublishFlow)
    → ((recipient : InboundRecipient) (g : InboundPublishFlow)
        → IsFlow g
        → IsFlow (next recipient g).1)
    → IsFlow f
    → IsFlow (selected next publish r f).1
selected-IsFlow next publish (err e) f n h = h
selected-IsFlow next publish (ok recipient) f n h =
    accepted-IsFlow next (accept f.buffer_size publish recipient f.replay) f n
      (accept-Leaves f.buffer_size publish recipient f.replay h) h

route-IsFlow :
    (claimed : Option ℕ) (publish : Publish)
    (next : InboundRecipient → InboundPublishFlow → Outcome) (f : InboundPublishFlow)
    → ((recipient : InboundRecipient) (g : InboundPublishFlow)
        → IsFlow g
        → IsFlow (next recipient g).1)
    → IsFlow f
    → IsFlow (route claimed publish next f).1
unfolding route
route-IsFlow claimed publish next f n h =
    selected-IsFlow next publish (select_recipient claimed publish f) f n h

qos1-IsFlow :
    (claimed : Option ℕ) (packet : Publish) (o : Option ℕ) (f : InboundPublishFlow)
    → IsFlow f
    → IsFlow (handle_qos1_publish claimed packet o f).1
qos1-IsFlow claimed packet none f h = h
qos1-IsFlow claimed packet (some pid) f h =
    either (contains_packet_id pid f.replay) (ok tt, f)
      (route claimed packet (deliver_qos1_publish pid) f) h
      (route-IsFlow claimed packet (deliver_qos1_publish pid) f (deliver_qos1-IsFlow pid) h)

qos2-IsFlow :
    (claimed : Option ℕ) (packet : Publish) (o : Option ℕ) (f : InboundPublishFlow)
    → IsFlow f
    → IsFlow (handle_qos2_publish claimed packet o f).1
qos2-IsFlow claimed packet none f h = h
qos2-IsFlow claimed packet (some pid) f h =
    let routed = route claimed packet (accept_qos2_publish pid) f in
    let same : Outcome = (ok tt, f) in
    let new = if contains_packet_id pid f.replay then same else routed in
    either (is_some (get pid f.inflight_qos2_in)) (send_pubrec pid f)
      (if has pid f.pending_ack_qos2_in then same else new)
      (send-IsFlow (Packet.Packet.pub_rec (plain_reply pid)) f h)
      (either (has pid f.pending_ack_qos2_in) same new h (
        either (contains_packet_id pid f.replay) same routed h
          (route-IsFlow claimed packet (accept_qos2_publish pid) f (accept_qos2-IsFlow pid) h)))

handle_by_qos-IsFlow :
    (qos : QoS) (claimed : Option ℕ) (packet : Publish) (f : InboundPublishFlow)
    → IsFlow f
    → IsFlow (handle_by_qos qos claimed packet f).1
unfolding deliver
handle_by_qos-IsFlow at_most_once claimed packet f h =
    route-IsFlow claimed packet (λ recipient g. (ok tt, deliver recipient none g)) f
      (λ recipient g k. k) h
handle_by_qos-IsFlow at_least_once claimed packet f h =
    qos1-IsFlow claimed packet packet.packet_id f h
handle_by_qos-IsFlow exactly_once claimed packet f h =
    qos2-IsFlow claimed packet packet.packet_id f h

and_then-IsFlow :
    (x : Outcome) (next : InboundPublishFlow → Outcome)
    → ((g : InboundPublishFlow) → IsFlow g → IsFlow (next g).1)
    → IsFlow x.1
    → IsFlow (and_then x next).1
and_then-IsFlow (err e, f) next n h = h
and_then-IsFlow (ok u, f) next n h = n f h

release_flight-IsFlow :
    (recipient : InboundRecipient) (delivered : Bool) (f : InboundPublishFlow)
    → IsFlow f
    → IsFlow (release_flight recipient delivered f).1
unfolding deliver
release_flight-IsFlow recipient true f h = h
release_flight-IsFlow recipient false f h = h

handle_pubrel-IsFlow :
    (packet : PubReply) (f : InboundPublishFlow) → IsFlow f → IsFlow (handle_pubrel packet f).1
unfolding handle_pubrel close_flight
handle_pubrel-IsFlow packet f h = elim (Option-cases (get packet.packet_id f.inflight_qos2_in)) [
  | inl missing ↦ rw (missing, handle_pubrel) h
  | inr (flight, held) ↦
      rw (held, handle_pubrel)
        (and_then-IsFlow
          (send (Packet.Packet.pub_comp (plain_reply packet.packet_id))
            (close_flight packet.packet_id f))
          (release_flight flight.recipient flight.delivered)
          (release_flight-IsFlow flight.recipient flight.delivered)
          (send-IsFlow (Packet.Packet.pub_comp (plain_reply packet.packet_id))
            (close_flight packet.packet_id f) h))
]

run_optional-IsFlow :
    (callback : Option Callback) (f : InboundPublishFlow)
    → IsFlow f
    → IsFlow (run_optional callback f).1
unfolding run_callback open_flight
run_optional-IsFlow none f h = h
run_optional-IsFlow (some (puback pid)) f h =
    send-IsFlow (Packet.Packet.pub_ack (plain_reply pid)) f h
run_optional-IsFlow (some (pubrec pid recipient)) f h =
    send-IsFlow (Packet.Packet.pub_rec (plain_reply pid)) _ h

ack_delivery-IsFlow :
    (i : ℕ) (o : Option Delivery) (f : InboundPublishFlow)
    → IsFlow f
    → IsFlow (ack_delivery i o f).1
ack_delivery-IsFlow i none f h = h
ack_delivery-IsFlow i (some (response request message)) f h = h
ack_delivery-IsFlow i (some (queued item message callback true)) f h = h
ack_delivery-IsFlow i (some (queued item message callback false)) f h =
    run_optional-IsFlow callback _ h

Event-IsFlow : {f g : InboundPublishFlow} → Event f g → IsFlow f → IsFlow g
unfolding handle_publish ack begin_session clear_inbound
Event-IsFlow {f = f} (publishes claimed packet) h =
    handle_by_qos-IsFlow packet.qos claimed packet f h
Event-IsFlow {f = f} (pubrels packet) h = handle_pubrel-IsFlow packet f h
Event-IsFlow {f = f} (acks delivery) h = ack_delivery-IsFlow delivery _ f h
Event-IsFlow (begins true) h = tt
Event-IsFlow (begins false) h = tt
Event-IsFlow clears h = tt
Event-IsFlow {f = f} (starts_delivery expiring) h = start_delivery-IsFlow expiring f h
Event-IsFlow {f = f} (takes_turn claimed full) h = deliver_turn-IsFlow claimed full f h
Event-IsFlow {f = f} (resumes r) h = resume-IsFlow r f h
Event-IsFlow (subscribes index) h = h
Event-IsFlow (transport_changes broken) h = h

-- In every state that a flow with a limit goes through, if messages are held for replay, where those
-- that a run of `_deliver_pending` has in its hands count too: the count is that of the messages and,
-- unless the limit is 0, no more than the limit of the flow; the count of each topic is that of its
-- messages; and each identifier held is that of one message, and those of no message are not held.
pub Received-IsFlow : (size : ℕ) {f : InboundPublishFlow} → Received size f → IsFlow f
unfolding new_flow
Received-IsFlow size start = tt
Received-IsFlow size (after r e) = Event-IsFlow e (Received-IsFlow size r)
