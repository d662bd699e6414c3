-- ===== src/Inbound/Kept.antt =====
-- The invariant of the inbound state of inbound.py, and that a delivery keeps it.
use fast_mqtt.Prelude.{ℕ, Bool, true, false, none, some}
use fast_mqtt.Prelude.{if◌then◌else◌, ok}
use fast_mqtt.Dict.{number_eq}
use fast_mqtt.Packet
use fast_mqtt.Packet.{QoS, at_most_once, at_least_once, exactly_once, Publish, PubReply}
use fast_mqtt.Protocol.Publishing.{plain_reply}
use fast_mqtt.Inbound.{
  InboundRecipient, auto_ack, puback, pubrec, InboundPublishFlow, Outcome, send,
}
use fast_mqtt.Inbound.Flow.{
  deliver, deliver_qos1_publish, accept_qos2_publish, open_flight, add_pending_ack, flight_of,
  send_puback, send_pubrec,
}
use fast_mqtt.Inbound.Bounded.{Held}

abbrev pub IsFlow : InboundPublishFlow → Type 0
IsFlow f = Held f.buffer_size f.replay

pub either : (b : Bool) (x y : Outcome) → IsFlow x.1 → IsFlow y.1 → IsFlow (if b then x else y).1
either true x y h k = h
either false x y h k = k

pub send-IsFlow :
    (packet : Packet.Packet) (f : InboundPublishFlow) → IsFlow f → IsFlow (send packet f).1
send-IsFlow packet f h = either f.broken _ _ h h

pub deliver_qos1-IsFlow :
    (pid : ℕ) (recipient : InboundRecipient) (f : InboundPublishFlow)
    → IsFlow f
    → IsFlow (deliver_qos1_publish pid recipient f).1
unfolding deliver_qos1_publish deliver
deliver_qos1-IsFlow pid recipient f h =
    either (auto_ack recipient) (send_puback pid (deliver recipient none f))
      (ok tt, deliver recipient (some (puback pid)) f)
      (send-IsFlow (Packet.Packet.pub_ack (plain_reply pid)) (deliver recipient none f) h) h

pub accept_qos2-IsFlow :
    (pid : ℕ) (recipient : InboundRecipient) (f : InboundPublishFlow)
    → IsFlow f
    → IsFlow (accept_qos2_publish pid recipient f).1
unfolding accept_qos2_publish deliver open_flight add_pending_ack
accept_qos2-IsFlow pid recipient f h =
    let opened = open_flight pid (flight_of pid recipient false) f in
    either (auto_ack recipient) (send_pubrec pid opened)
      (ok tt, deliver recipient (some (pubrec pid recipient)) (add_pending_ack pid f))
      (send-IsFlow (Packet.Packet.pub_rec (plain_reply pid)) opened h) h
