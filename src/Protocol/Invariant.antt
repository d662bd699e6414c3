-- ===== src/Protocol/Invariant.antt =====
-- The invariant of the outbound state, event by event.
use fast_mqtt.Protocol.Steps.{
  Step, Reachable, publishes, publish_cancelled, puback, pubrec, pubcomp, subscribes, suback,
  subscribe_ends, subscribe_cancelled, unsubscribes, unsuback, unsubscribe_ends,
  unsubscribe_cancelled, pings, pingresp, ping_times_out, transport_changes, connected, run_ends,
  start, after,
}
use fast_mqtt.Future.{Answer, pending, resolved, failed}
use fast_mqtt.Prelude.{has}
use fast_mqtt.Dict.{put}
use fast_mqtt.Dict.{get-put}
use fast_mqtt.Prelude.{
  ℕ, ◌≡◌, refl, sym, ◌∙◌, subst, List, [], ◌∷◌, Option, none, some, arith, inl, inr, Option-cases,
}
use fast_mqtt.Prelude.{length, Result, ok, err, get_elem?}
use fast_mqtt.Dict.{Dict, number_eq, get}
use fast_mqtt.Utf8.{Text}
use fast_mqtt.Packet.{Version, SubscriptionRequest, SubAck, UnsubAck}
use fast_mqtt.Future.{Future, cancelled, settle}
use fast_mqtt.State.{PacketIdPool, acquire, new_pool}
use fast_mqtt.State.PacketIds.{new_pool-IsPool}
use fast_mqtt.Protocol.{MqttProtocol, new_protocol, new_session, Outcome, create_future}
use fast_mqtt.Protocol.Requests.{
  await_or, open_sub, open_unsub, close_sub, close_unsub, subscribe_with, unsubscribe_with,
  send_subscribe, send_unsubscribe, set_result, handle_suback, handle_unsuback, ping,
  handle_pingresp, ping_timeout, cancel_pending, run_ended,
}
use fast_mqtt.Protocol.Balance.{
  IsSession, open_sub-IsSession, open_unsub-IsSession, close_sub-IsSession, close_unsub-IsSession,
}
use fast_mqtt.Protocol.Kept.{
  send_packet-state, Kept, sent-Kept, either_way, publish-Kept, handle_puback-Kept,
  handle_pubrec-Kept, handle_pubcomp-Kept,
}

close_sub-Kept :
    (pid : ℕ) {future : ℕ} (p : MqttProtocol)
    → get pid p.state.pending_subs ≡ some future
    → Kept p
    → Kept (close_sub pid p)
unfolding close_sub
close_sub-Kept pid p e k = close_sub-IsSession p.state k pid e

close_unsub-Kept :
    (pid : ℕ) {future : ℕ} (p : MqttProtocol)
    → get pid p.state.pending_unsubs ≡ some future
    → Kept p
    → Kept (close_unsub pid p)
unfolding close_unsub
close_unsub-Kept pid p e k = close_unsub-IsSession p.state k pid e

-- Whether the request was written or not, and whatever closes it after a failure.
await_or-Kept :
    (future : ℕ) (close : MqttProtocol → MqttProtocol) (o : Outcome (Unit {0}))
    → Kept o.1
    → Kept (close (record o.1 { futures = settle future cancelled o.1.futures }))
    → Kept (await_or future close o).1
await_or-Kept future close (ok _, p) k c = k
await_or-Kept future close (err e, p) k c = c

get-put_self {ℓ} : {V : Type ℓ} (k : ℕ) (v : V) (d : Dict ℕ V) → get k (put k v d) ≡ some v
get-put_self k v d = get-put k k v d ∙ ground arith

opened_sub :
    (pid : ℕ) (pool : PacketIdPool) (p : MqttProtocol)
    → acquire p.state.packet_ids ≡ ok (pid, pool)
    → Kept p
    → Kept (open_sub pid pool p)
      × (get pid (open_sub pid pool p).state.pending_subs ≡ some (length p.futures))
unfolding open_sub create_future
opened_sub pid pool p h k = (
  open_sub-IsSession p.state k pid pool h _,
  get-put_self pid (length p.futures) p.state.pending_subs,
)

subscribe_with-Kept :
    (filters : List SubscriptionRequest) (identifier : Option ℕ) (r : Result (ℕ × PacketIdPool))
    (p : MqttProtocol)
    → acquire p.state.packet_ids ≡ r
    → Kept p
    → Kept (subscribe_with filters identifier r p).1
subscribe_with-Kept filters identifier (err e) p h k = k
subscribe_with-Kept filters identifier (ok (pid, pool)) p h k =
    let (opened, there) = opened_sub pid pool p h k in
    let still_open = sym (send_packet-state _ (open_sub pid pool p)) in
    let kept = subst IsSession still_open opened in
    await_or-Kept (length p.futures) (close_sub pid) _ kept (
      close_sub-Kept pid _
        (subst (λ s. get pid s.pending_subs ≡ some (length p.futures)) still_open there) kept)

send_subscribe-Kept :
    (filters : List SubscriptionRequest) (identifier : Option ℕ) (p : MqttProtocol)
    → Kept p
    → Kept (send_subscribe filters identifier p).1
unfolding send_subscribe
send_subscribe-Kept filters identifier p k =
    either_way p.dead _ _ k
      (subscribe_with-Kept filters identifier (acquire p.state.packet_ids) p refl k)

opened_unsub :
    (pid : ℕ) (pool : PacketIdPool) (p : MqttProtocol)
    → acquire p.state.packet_ids ≡ ok (pid, pool)
    → Kept p
    → Kept (open_unsub pid pool p)
      × (get pid (open_unsub pid pool p).state.pending_unsubs ≡ some (length p.futures))
unfolding open_unsub create_future
opened_unsub pid pool p h k = (
  open_unsub-IsSession p.state k pid pool h _,
  get-put_self pid (length p.futures) p.state.pending_unsubs,
)

unsubscribe_with-Kept :
    (filters : List Text) (r : Result (ℕ × PacketIdPool)) (p : MqttProtocol)
    → acquire p.state.packet_ids ≡ r
    → Kept p
    → Kept (unsubscribe_with filters r p).1
unsubscribe_with-Kept filters (err e) p h k = k
unsubscribe_with-Kept filters (ok (pid, pool)) p h k =
    let (opened, there) = opened_unsub pid pool p h k in
    let still_open = sym (send_packet-state _ (open_unsub pid pool p)) in
    let kept = subst IsSession still_open opened in
    await_or-Kept (length p.futures) (close_unsub pid) _ kept (
      close_unsub-Kept pid _
        (subst (λ s. get pid s.pending_unsubs ≡ some (length p.futures)) still_open there) kept)

send_unsubscribe-Kept :
    (filters : List Text) (p : MqttProtocol) → Kept p → Kept (send_unsubscribe filters p).1
unfolding send_unsubscribe
send_unsubscribe-Kept filters p k =
    either_way p.dead _ _ k (unsubscribe_with-Kept filters (acquire p.state.packet_ids) p refl k)

set_result-Kept :
    (future : ℕ) (answer : Answer) (f : Option Future) (p : MqttProtocol)
    → Kept p
    → Kept (set_result future answer f p).1
set_result-Kept future answer none p k = k
set_result-Kept future answer (some pending) p k = k
set_result-Kept future answer (some cancelled) p k = k
set_result-Kept future answer (some (resolved a)) p k = k
set_result-Kept future answer (some (failed e)) p k = k

handle_suback-Kept : (packet : SubAck) (p : MqttProtocol) → Kept p → Kept (handle_suback packet p).1
unfolding handle_suback
handle_suback-Kept packet p k = elim (Option-cases (get packet.packet_id p.state.pending_subs)) [
  | inl e ↦ rw (e, handle_suback) k
  | inr (f, e) ↦ rw (e, handle_suback) (set_result-Kept f _ (get_elem? p.futures f) p k)
]

handle_unsuback-Kept :
    (packet : UnsubAck) (p : MqttProtocol) → Kept p → Kept (handle_unsuback packet p).1
unfolding handle_unsuback
handle_unsuback-Kept packet p k =
    elim (Option-cases (get packet.packet_id p.state.pending_unsubs)) [
      | inl e ↦ rw (e, handle_unsuback) k
      | inr (f, e) ↦ rw (e, handle_unsuback) (set_result-Kept f _ (get_elem? p.futures f) p k)
    ]

ping-Kept : (p : MqttProtocol) → Kept p → Kept (ping p).1
unfolding ping create_future
ping-Kept p k = sent-Kept _ _ _ k

handle_pingresp-Kept : (p : MqttProtocol) → Kept p → Kept (handle_pingresp p)
unfolding handle_pingresp
handle_pingresp-Kept p k = go p.ping_waiters refl
  where
    go : (ws : List ℕ) → p.ping_waiters ≡ ws → Kept (handle_pingresp p)
    go [] e = rw e k
    go (w ∷ ws) e = rw e k

-- Every event keeps the invariant.
pub Step-IsSession : {p q : MqttProtocol} → Step p q → IsSession p.state → IsSession q.state
Step-IsSession (publishes packet) k = publish-Kept packet _ k
Step-IsSession (publish_cancelled future) k = k
Step-IsSession (puback packet) k = handle_puback-Kept packet _ k
Step-IsSession (pubrec packet) k = handle_pubrec-Kept packet _ k
Step-IsSession (pubcomp packet) k = handle_pubcomp-Kept packet _ k
Step-IsSession (subscribes filters identifier) k = send_subscribe-Kept filters identifier _ k
Step-IsSession (suback packet) k = handle_suback-Kept packet _ k
Step-IsSession (subscribe_ends pid e d) k = close_sub-Kept pid _ e k
Step-IsSession (subscribe_cancelled pid e) k = close_sub-Kept pid _ e k
Step-IsSession (unsubscribes filters) k = send_unsubscribe-Kept filters _ k
Step-IsSession (unsuback packet) k = handle_unsuback-Kept packet _ k
Step-IsSession (unsubscribe_ends pid e d) k = close_unsub-Kept pid _ e k
Step-IsSession (unsubscribe_cancelled pid e) k = close_unsub-Kept pid _ e k
Step-IsSession pings k = ping-Kept _ k
Step-IsSession pingresp k = handle_pingresp-Kept _ k
Step-IsSession (ping_times_out future) k = unfold ping_timeout in k
Step-IsSession (transport_changes broken) k = k
Step-IsSession (connected max_qos) k = k
Step-IsSession run_ends k = unfold run_ended in unfold cancel_pending in k

new_session-IsSession : IsSession new_session
unfolding new_session new_pool get has
new_session-IsSession = record { pool = new_pool-IsPool; balanced = λ i. refl }

-- In every state that a connection reaches, every packet identifier in use is held by exactly one
-- flight or request, no identifier that is not in use is held, and the pool is valid.
pub Reachable-IsSession : (v : Version) {p : MqttProtocol} → Reachable v p → IsSession p.state
unfolding new_protocol
Reachable-IsSession v start = new_session-IsSession
Reachable-IsSession v (after r s) = Step-IsSession s (Reachable-IsSession v r)
