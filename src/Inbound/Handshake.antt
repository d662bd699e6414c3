-- ===== src/Inbound/Handshake.antt =====
-- The QoS 2 receive flow of inbound.py, from PUBLISH to PUBREL, with an acknowledgement by the
-- program or by the application.
use fast_mqtt.Prelude.{
  ℕ, ◌≡◌, refl, ap, ◌∙◌, List, [], ◌∷◌, ◌++◌, Bool, true, false, Option, none, some, arith, has,
  Bool-cases, inl, inr,
}
use fast_mqtt.Prelude.{if◌then◌else◌, ok, err, protocol_error, get_elem?, length, os_error}
use fast_mqtt.Dict.{number_eq, get, put, pop, get-put, get-pop}
use fast_mqtt.Packet
use fast_mqtt.Packet.{exactly_once, Publish}
use fast_mqtt.State.{discard}
use fast_mqtt.Subscription.{Item}
use fast_mqtt.Protocol.Publishing.{plain_reply}
use fast_mqtt.Inbound.{
  InboundRecipient, auto_ack, InboundQoS2Flight, Callback, pubrec, queued, Replay, Message,
  Delivery, InboundPublishFlow, Outcome, and_then, send,
}
use fast_mqtt.Inbound.Buffer.{accept, contains_packet_id}
use fast_mqtt.Inbound.Flow.{
  select_recipient, route, deliver, delivery_of, accept_qos2_publish, open_flight, flight_of,
  add_pending_ack, handle_by_qos, handle_qos2_publish, handle_publish, handle_pubrel, close_flight,
  release_flight, ack, callback_for, ack_delivery, send_pubrec, resolve_at, resolve, run_callback,
}

abbrev pub pubrec_of : ℕ → Packet.Packet
pubrec_of pid = Packet.Packet.pub_rec (plain_reply pid)

abbrev pub pubcomp_of : ℕ → Packet.Packet
pubcomp_of pid = Packet.Packet.pub_comp (plain_reply pid)

abbrev pub with_packet : Packet.Packet → InboundPublishFlow → InboundPublishFlow
with_packet packet f = record f { sent = f.sent ++ packet ∷ [] }

send_up :
    (packet : Packet.Packet) (f : InboundPublishFlow)
    → f.broken ≡ false
    → send packet f ≡ (ok tt, with_packet packet f)
send_up packet f up =
    ap (λ b. if◌then◌else◌ {A = Outcome} b (err os_error, f) (ok tt, with_packet packet f)) up

to_qos2 :
    (claimed : Option ℕ) (packet : Publish) (pid : ℕ) (f : InboundPublishFlow)
    → packet.qos ≡ exactly_once
    → packet.packet_id ≡ some pid
    → handle_publish claimed packet f ≡ handle_qos2_publish claimed packet (some pid) f
unfolding handle_publish
to_qos2 claimed packet pid f q i =
    ap (λ qos. handle_by_qos qos claimed packet f) q
    ∙ ap (λ o. handle_qos2_publish claimed packet o f) i

-- A PUBLISH whose PUBREC was sent: PUBREC is sent again, and nothing else changes.
again :
    (claimed : Option ℕ) (packet : Publish) (pid : ℕ) (flight : InboundQoS2Flight)
    (f : InboundPublishFlow)
    → packet.qos ≡ exactly_once
    → packet.packet_id ≡ some pid
    → get pid f.inflight_qos2_in ≡ some flight
    → f.broken ≡ false
    → handle_publish claimed packet f ≡ (ok tt, with_packet (pubrec_of pid) f)
again claimed packet pid flight f q i held up =
    to_qos2 claimed packet pid f q i ∙ rw held (send_up (pubrec_of pid) f up)

-- What `handle_publish` asks for before it takes up a QoS 2 message with the identifier
abbrev pub IsNew : Publish → ℕ → InboundPublishFlow → Type 0
IsNew packet pid f =
    (packet.qos ≡ exactly_once)
    × (packet.packet_id ≡ some pid)
    × (get pid f.inflight_qos2_in ≡ none)
    × (has pid f.pending_ack_qos2_in ≡ false)
    × (contains_packet_id pid f.replay ≡ false)

taken_up :
    (claimed : Option ℕ) (packet : Publish) (pid : ℕ) (f : InboundPublishFlow)
    (recipient : InboundRecipient) (replay : Replay)
    → IsNew packet pid f
    → select_recipient claimed packet f ≡ ok recipient
    → accept f.buffer_size packet recipient f.replay ≡ ok (some recipient, replay)
    → handle_publish claimed packet f
      ≡ accept_qos2_publish pid recipient (record f { replay = replay })
unfolding route
taken_up claimed packet pid f recipient replay (q, i, no_flight, not_pending, not_held) chosen
      taken =
    to_qos2 claimed packet pid f q i ∙ rw (no_flight, not_pending, not_held, chosen, taken) refl

there :
    (pid : ℕ) (flight : InboundQoS2Flight) (f : InboundPublishFlow)
    → get pid (put pid flight f.inflight_qos2_in) ≡ some flight
there pid flight f = get-put pid pid flight f.inflight_qos2_in ∙ ground arith

gone : (pid : ℕ) (f : InboundPublishFlow) → get pid (pop pid f.inflight_qos2_in) ≡ none
gone pid f = get-pop pid pid f.inflight_qos2_in ∙ ground arith

-- PUBREL ends the flight: PUBCOMP, and the delivery if it is still to be made.
ended :
    (pid : ℕ) (recipient : InboundRecipient) (delivered : Bool) (f : InboundPublishFlow)
    → get pid f.inflight_qos2_in ≡ some (flight_of pid recipient delivered)
    → f.broken ≡ false
    → handle_pubrel (plain_reply pid) f
      ≡ release_flight recipient delivered (with_packet (pubcomp_of pid) (close_flight pid f))
unfolding handle_pubrel close_flight
ended pid recipient delivered f held up =
    rw (held, handle_pubrel)
      (ap (λ o. and_then o (release_flight recipient delivered))
        (send_up (pubcomp_of pid) (close_flight pid f) up))

unknown :
    (pid : ℕ) (f : InboundPublishFlow)
    → get pid f.inflight_qos2_in ≡ none
    → handle_pubrel (plain_reply pid) f ≡ (err protocol_error, f)
unfolding handle_pubrel
unknown pid f missing = rw (missing, handle_pubrel) refl

-- A new QoS 2 message whose recipient is found, to be given the message at once, and acknowledges by
-- itself, on a transport that takes writes: PUBLISH writes PUBREC and delivers nothing; the same
-- PUBLISH again writes PUBREC and changes nothing else; PUBREL writes PUBCOMP and delivers the message
-- to the recipient; and a second PUBREL is a protocol error that changes nothing.
pub qos2_delivery :
    (claimed again_claimed : Option ℕ) (packet : Publish) (pid : ℕ) (f : InboundPublishFlow)
    (recipient : InboundRecipient) (replay : Replay)
    → IsNew packet pid f
    → select_recipient claimed packet f ≡ ok recipient
    → accept f.buffer_size packet recipient f.replay ≡ ok (some recipient, replay)
    → auto_ack recipient ≡ true
    → f.broken ≡ false
    → (g h : InboundPublishFlow) × (handle_publish claimed packet f ≡ (ok tt, g))
      × (g.sent ≡ f.sent ++ pubrec_of pid ∷ [])
      × (g.deliveries ≡ f.deliveries)
      × (handle_publish again_claimed packet g ≡ (ok tt, with_packet (pubrec_of pid) g))
      × (handle_pubrel (plain_reply pid) g ≡ (ok tt, h))
      × (h.sent ≡ g.sent ++ pubcomp_of pid ∷ [])
      × (h.deliveries
          ≡ f.deliveries
            ++ delivery_of recipient.message recipient.request recipient.subscription none)
      × (handle_pubrel (plain_reply pid) h ≡ (err protocol_error, h))
unfolding accept_qos2_publish open_flight deliver close_flight
qos2_delivery claimed again_claimed packet pid f recipient replay new chosen taken auto up =
    let (q, i, _, _, _) = new in
    let flight = flight_of pid recipient false in
    let opened = open_flight pid flight (record f { replay = replay }) in
    let g = with_packet (pubrec_of pid) opened in
    let held : get pid g.inflight_qos2_in ≡ some flight = there pid flight f in
    let h = deliver recipient none (with_packet (pubcomp_of pid) (close_flight pid g)) in
    let no_flight : get pid h.inflight_qos2_in ≡ none = gone pid g in
    (
      g,
      h,
      taken_up claimed packet pid f recipient replay new chosen taken
          ∙ rw (auto, accept_qos2_publish) (send_up (pubrec_of pid) opened up),
      refl,
      refl,
      again again_claimed packet pid flight g q i held up,
      ended pid recipient false g held up,
      refl,
      refl,
      unknown pid h no_flight,
    )

has_self : (pid : ℕ) (ids : List ℕ) → has pid (if has pid ids then ids else pid ∷ ids) ≡ true
unfolding has
has_self pid ids = elim (Bool-cases (has pid ids)) [
  | inl known ↦ rw (known, known) refl
  | inr new ↦ rw new (ground arith)
]

resolve_at-last :
    (ds : List Delivery) (d : Delivery)
    → resolve_at (length ds) (ds ++ d ∷ []) ≡ ds ++ resolve d ∷ []
unfolding resolve_at
resolve_at-last [] d = refl
resolve_at-last (x ∷ ds) d = ap (λ r. x ∷ r) (resolve_at-last ds d)

get_elem?-last : (ds : List Delivery) (d : Delivery) → get_elem? (ds ++ d ∷ []) (length ds) ≡ some d
get_elem?-last [] d = refl
get_elem?-last (x ∷ ds) d = get_elem?-last ds d

abbrev pub owner : Message → Item → InboundRecipient
owner message item = record { message = message; request = none; subscription = some item }

callback_kept :
    (item : Item) (callback : Option Callback)
    → item.1.auto_ack ≡ false
    → callback_for item callback ≡ callback
callback_kept item callback manual = ap (λ b. if b then none else callback) manual

accepted_manual :
    (pid : ℕ) (message : Message) (item : Item) (f : InboundPublishFlow)
    → item.1.auto_ack ≡ false
    → accept_qos2_publish pid (owner message item) f ≡ (
      ok tt,
      record (add_pending_ack pid f) {
        deliveries =
            f.deliveries ++ queued item message (some (pubrec pid (owner message item))) false ∷ [];
      },
    )
unfolding accept_qos2_publish deliver add_pending_ack
accepted_manual pid message item f manual =
    let callback = some (pubrec pid (owner message item)) in
    let opened = send_pubrec pid (open_flight pid (flight_of pid (owner message item) false) f) in
    ap
      (λ b.
        if◌then◌else◌ {A = Outcome} b opened
          (ok tt, deliver (owner message item) callback (add_pending_ack pid f)))
      manual
    ∙ ap
        (λ c. (
          ok tt,
          record (add_pending_ack pid f) {
            deliveries = f.deliveries ++ queued item message c false ∷ [];
          },
        ))
        (callback_kept item callback manual)

-- A new QoS 2 message whose recipient is a subscription, to be given the message at once, that the
-- application acknowledges, on a transport that takes writes: PUBLISH delivers the message and writes
-- nothing; the same PUBLISH again changes nothing; the application's acknowledgement writes PUBREC,
-- and a second one changes nothing; PUBREL then writes PUBCOMP and delivers nothing more.
pub qos2_manual_ack :
    (claimed again_claimed : Option ℕ) (packet : Publish) (pid : ℕ) (f : InboundPublishFlow)
    (message : Message) (item : Item) (replay : Replay)
    → IsNew packet pid f
    → select_recipient claimed packet f ≡ ok (owner message item)
    → accept f.buffer_size packet (owner message item) f.replay
      ≡ ok (some (owner message item), replay)
    → item.1.auto_ack ≡ false
    → f.broken ≡ false
    → (g h r : InboundPublishFlow) × (handle_publish claimed packet f ≡ (ok tt, g))
      × (g.sent ≡ f.sent)
      × (g.deliveries
          ≡ f.deliveries ++ queued item message (some (pubrec pid (owner message item))) false ∷ [])
      × (handle_publish again_claimed packet g ≡ (ok tt, g))
      × (ack (length f.deliveries) g ≡ (ok tt, h))
      × (h.sent ≡ f.sent ++ pubrec_of pid ∷ [])
      × (ack (length f.deliveries) h ≡ (ok tt, h))
      × (handle_pubrel (plain_reply pid) h ≡ (ok tt, r))
      × (r.sent ≡ h.sent ++ pubcomp_of pid ∷ [])
      × (r.deliveries ≡ h.deliveries)
unfolding accept_qos2_publish open_flight deliver close_flight add_pending_ack ack run_callback
qos2_manual_ack claimed again_claimed packet pid f message item replay new chosen taken manual up =
    let (q, i, no_flight, _, _) = new in
    let recipient = owner message item in
    let waiting : Delivery = queued item message (some (pubrec pid recipient)) false in
    let done : Delivery = queued item message (some (pubrec pid recipient)) true in
    let g : InboundPublishFlow = record (add_pending_ack pid (record f { replay = replay })) {
      deliveries = f.deliveries ++ waiting ∷ [];
    } in
    let pending : has pid g.pending_ack_qos2_in ≡ true = has_self pid f.pending_ack_qos2_in in
    let flight = flight_of pid recipient true in
    let opened = open_flight pid flight (record g {
      pending_ack_qos2_in = discard pid g.pending_ack_qos2_in;
      deliveries = f.deliveries ++ done ∷ [];
    }) in
    let h = with_packet (pubrec_of pid) opened in
    let held : get pid h.inflight_qos2_in ≡ some flight = there pid flight f in
    (
      g,
      h,
      with_packet (pubcomp_of pid) (close_flight pid h),
      taken_up claimed packet pid f recipient replay new chosen taken
          ∙ accepted_manual pid message item (record f { replay = replay }) manual,
      refl,
      refl,
      to_qos2 again_claimed packet pid g q i ∙ rw (no_flight, pending) refl,
      ap (λ o. ack_delivery (length f.deliveries) o g) (get_elem?-last f.deliveries waiting)
          ∙ ap
              (λ ds. send_pubrec pid (
                open_flight pid flight (record g {
                  pending_ack_qos2_in = discard pid g.pending_ack_qos2_in;
                  deliveries = ds;
                })))
              (resolve_at-last f.deliveries waiting)
          ∙ send_up (pubrec_of pid) opened up,
      refl,
      ap (λ o. ack_delivery (length f.deliveries) o h) (get_elem?-last f.deliveries done),
      ended pid recipient true h held up,
      refl,
      refl,
    )
