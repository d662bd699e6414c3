-- ===== src/Protocol/Liveness.antt =====
-- No future is forgotten: the end of `run` of protocol.py fails all that are still awaited.
use fast_mqtt.Protocol.Tables.{apart}
use fast_mqtt.Prelude.{
  ℕ, ◌≡◌, ◌≢◌, refl, sym, subst, List, [], ◌∷◌, ◌++◌, true, arith, inl, inr, has,
}
use fast_mqtt.Prelude.{length}
use fast_mqtt.Dict.{number_eq}
use fast_mqtt.Packet.{Version}
use fast_mqtt.Future.{
  cancelled, resolved, pong, settle, IsPending, IsPending-settle, settle-not-IsPending,
  IsPending-append,
}
use fast_mqtt.Protocol.{SessionState, MqttProtocol, new_protocol, create_future}
use fast_mqtt.Protocol.Requests.{ping, handle_pingresp, remove_waiter, ping_timeout, run_ended}
use fast_mqtt.Protocol.Balance.{IsSession}
use fast_mqtt.Protocol.Steps.{
  Step, Reachable, publishes, publish_cancelled, puback, pubrec, pubcomp, subscribes, suback,
  subscribe_ends, subscribe_cancelled, unsubscribes, unsuback, unsubscribe_ends,
  unsubscribe_cancelled, pings, pingresp, ping_times_out, transport_changes, connected, run_ends,
  start, after,
}
use fast_mqtt.Protocol.Invariant.{Reachable-IsSession}
use fast_mqtt.Protocol.Tracking.{
  Tracked, in_qos1, in_qos2, in_subs, in_unsubs, in_waiters, AllTracked,
}
use fast_mqtt.Protocol.Tables.{
  sent-AllTracked, awaited-AllTracked, close_sub-AllTracked, close_unsub-AllTracked,
  settle-AllTracked,
}
use fast_mqtt.Protocol.Closing.{cancel_pending-none}
use fast_mqtt.Protocol.Pending.{
  publish-AllTracked, handle_puback-AllTracked, handle_pubrec-AllTracked, handle_pubcomp-AllTracked,
  send_subscribe-AllTracked, send_unsubscribe-AllTracked, handle_suback-AllTracked,
  handle_unsuback-AllTracked,
}

has-append_left : (j : ℕ) (is more : List ℕ) → has j is ≡ true → has j (is ++ more) ≡ true
unfolding has
has-append_left j [] more h = absurd (cc)
has-append_left j (i ∷ is) more h = let rest = has-append_left j is more in ground arith

has-append_last : (j : ℕ) (is : List ℕ) → has j (is ++ j ∷ []) ≡ true
unfolding has
has-append_last j [] = ground arith
has-append_last j (i ∷ is) = let rest = has-append_last j is in ground arith

-- The waiters of pings change, and the other tables do not.
rewait :
    (j : ℕ) (s : SessionState) (before later : List ℕ)
    → (has j before ≡ true → has j later ≡ true)
    → Tracked j s before
    → Tracked j s later
rewait j s before later kept (in_qos1 k f there same) = in_qos1 k f there same
rewait j s before later kept (in_qos2 k f there same) = in_qos2 k f there same
rewait j s before later kept (in_subs k there) = in_subs k there
rewait j s before later kept (in_unsubs k there) = in_unsubs k there
rewait j s before later kept (in_waiters there) = in_waiters (kept there)

not_first : (j w : ℕ) (ws : List ℕ) → has j (w ∷ ws) ≡ true → w ≢ j → has j ws ≡ true
unfolding has
not_first j w ws there other = ground (arith, other)

has-remove_waiter :
    (j future : ℕ) (ws : List ℕ)
    → future ≢ j
    → has j ws ≡ true
    → has j (remove_waiter future ws) ≡ true
unfolding has remove_waiter
has-remove_waiter j future [] other there = there
has-remove_waiter j future (w ∷ ws) other there =
    let rest = has-remove_waiter j future ws other in ground arith

ping-AllTracked : (p : MqttProtocol) → AllTracked p → AllTracked (ping p).1
unfolding ping create_future
ping-AllTracked p all = awaited-AllTracked _ _ (
    sent-AllTracked _ _ λ j e. elim (IsPending-append j p.futures e) [
      | inl before ↦
          rewait j p.state p.ping_waiters _
            (has-append_left j p.ping_waiters (length p.futures ∷ [])) (all j before)
      | inr new ↦ in_waiters (
          subst (λ i. has j (p.ping_waiters ++ i ∷ []) ≡ true) (sym new)
            (has-append_last j p.ping_waiters))
    ])

handle_pingresp-AllTracked : (p : MqttProtocol) → AllTracked p → AllTracked (handle_pingresp p)
unfolding handle_pingresp
handle_pingresp-AllTracked p all = go p.ping_waiters refl
  where
    go :
        (ws : List ℕ)
        → p.ping_waiters ≡ ws
        → AllTracked (elim ws [
          | [] ↦ p
          | future ∷ waiters ↦ record p {
            ping_waiters = waiters;
            futures = settle future (resolved pong) p.futures;
          }
        ])
    go [] e = λ j pend. all j pend
    go (w ∷ ws) e = λ j pend.
        rewait j p.state p.ping_waiters ws
          (λ there.
            not_first j w ws (subst (λ l. has j l ≡ true) e there)
              (apart j w _ pend (settle-not-IsPending w (resolved pong) p.futures refl)))
          (all j (IsPending-settle w j (resolved pong) p.futures refl pend))

ping_timeout-AllTracked :
    (future : ℕ) (p : MqttProtocol) → AllTracked p → AllTracked (ping_timeout future p).1
unfolding ping_timeout
ping_timeout-AllTracked future p all j e =
    rewait j p.state p.ping_waiters _
      (has-remove_waiter j future p.ping_waiters
        (apart j future _ e (settle-not-IsPending future cancelled p.futures refl)))
      (all j (IsPending-settle future j cancelled p.futures refl e))

run_ended-AllTracked : (p : MqttProtocol) → AllTracked p → AllTracked (run_ended p)
unfolding run_ended
run_ended-AllTracked p all j e = absurd (cancel_pending-none (record p { dead = true }) all j e)

start_tracked : (v : Version) → AllTracked (new_protocol v)
unfolding new_protocol
start_tracked v j e = absurd (cc)

Step-AllTracked : {p q : MqttProtocol} → Step p q → IsSession p.state → AllTracked p → AllTracked q
Step-AllTracked (publishes packet) v all = publish-AllTracked packet _ v all
Step-AllTracked {p = p} (publish_cancelled future) v all =
    settle-AllTracked future cancelled p refl all
Step-AllTracked (puback packet) v all = handle_puback-AllTracked packet _ all
Step-AllTracked (pubrec packet) v all = handle_pubrec-AllTracked packet _ all
Step-AllTracked (pubcomp packet) v all = handle_pubcomp-AllTracked packet _ all
Step-AllTracked (subscribes filters identifier) v all =
    send_subscribe-AllTracked filters identifier _ v all
Step-AllTracked (suback packet) v all = handle_suback-AllTracked packet _ all
Step-AllTracked (subscribe_ends pid e done) v all = close_sub-AllTracked pid _ all e done
Step-AllTracked {p = p} (subscribe_cancelled pid {future = f} e) v all =
    close_sub-AllTracked pid _ (settle-AllTracked f cancelled p refl all) e
      (settle-not-IsPending f cancelled _ refl)
Step-AllTracked (unsubscribes filters) v all = send_unsubscribe-AllTracked filters _ v all
Step-AllTracked (unsuback packet) v all = handle_unsuback-AllTracked packet _ all
Step-AllTracked (unsubscribe_ends pid e done) v all = close_unsub-AllTracked pid _ all e done
Step-AllTracked {p = p} (unsubscribe_cancelled pid {future = f} e) v all =
    close_unsub-AllTracked pid _ (settle-AllTracked f cancelled p refl all) e
      (settle-not-IsPending f cancelled _ refl)
Step-AllTracked pings v all = ping-AllTracked _ all
Step-AllTracked pingresp v all = handle_pingresp-AllTracked _ all
Step-AllTracked (ping_times_out future) v all = ping_timeout-AllTracked future _ all
Step-AllTracked (transport_changes broken) v all = all
Step-AllTracked (connected max_qos) v all = all
Step-AllTracked {p = p} run_ends v all = run_ended-AllTracked p all

Reachable-AllTracked : (v : Version) {p : MqttProtocol} → Reachable v p → AllTracked p
Reachable-AllTracked v start = start_tracked v
Reachable-AllTracked v (after r s) =
    Step-AllTracked s (Reachable-IsSession v r) (Reachable-AllTracked v r)

-- In every state that a connection reaches, when `run` ends, every future that a coroutine awaits is
-- done: no caller waits for ever.
pub run_ended-none-IsPending :
    (v : Version) (p : MqttProtocol) → Reachable v p → (j : ℕ) → ¬ IsPending j (run_ended p).futures
unfolding run_ended
run_ended-none-IsPending v p r =
    cancel_pending-none (record p { dead = true }) (Reachable-AllTracked v r)
