-- ===== src/Protocol/Tables.antt =====
-- The events keep every future that is still to come in a table.
use fast_mqtt.Protocol.{pending_pubcomp}
use fast_mqtt.Protocol.Publishing.{Started, then_await}
use fast_mqtt.Codec.Encode.{encode}
use fast_mqtt.Prelude.{
  ℕ, ◌≡◌, ◌≢◌, refl, ap, sym, ◌∙◌, subst, List, [], ◌∷◌, ◌++◌, Bool, true, false, none, some, inl,
  inr,
}
use fast_mqtt.Prelude.{if◌then◌else◌, Result, ok, err}
use fast_mqtt.Dict.{number_eq, get}
use fast_mqtt.Bytes.{Bytes}
use fast_mqtt.Packet
use fast_mqtt.Packet.{Publish}
use fast_mqtt.Future.{
  Future, settle, is_pending, IsPending, IsPending-settle, settle-not-IsPending, IsPending-append,
}
use fast_mqtt.State.{PacketIdPool}
use fast_mqtt.Protocol.{
  QoS1Flight, OutboundQoS2Flight, MqttProtocol, Outcome, write, send_packet, create_future,
}
use fast_mqtt.Protocol.Publishing.{open_qos1, open_qos2, close_qos1, close_qos2, await_pubcomp}
use fast_mqtt.Protocol.Requests.{open_sub, open_unsub, close_sub, close_unsub}
use fast_mqtt.Protocol.Tracking.{
  in_qos1, in_qos2, in_subs, in_unsubs, AllTracked, got_put, Tracked-put_qos1, Tracked-put_qos2,
  Tracked-put_sub, Tracked-put_unsub, Tracked-pop_qos1, Tracked-pop_qos2, Tracked-pop_sub,
  Tracked-pop_unsub, Tracked-change_qos2,
}

pub either_left {ℓ κ} :
    {A : Type κ} (P : MqttProtocol → Type ℓ) (b : Bool) (x y : Outcome A)
    → P x.1
    → P y.1
    → P (if b then x else y).1
either_left P true x y px py = px
either_left P false x y px py = py

-- What is done to the transport does not matter.
pub write_left {ℓ} :
    (P : MqttProtocol → Type ℓ) (r : Result Bytes) (p : MqttProtocol)
    → P p
    → ((sent : List Bytes) → P (record p { sent = sent }))
    → P (write r p).1
write_left P (err e) p k sent = k
write_left P (ok bytes) p k sent = either_left P p.broken _ _ k (sent (p.sent ++ bytes ∷ []))

pub sent-AllTracked :
    (packet : Packet.Packet) (p : MqttProtocol) → AllTracked p → AllTracked (send_packet packet p).1
unfolding send_packet
sent-AllTracked packet p all = write_left AllTracked (encode p.version packet) p all (λ sent. all)

pub awaited-AllTracked :
    (s : Started) (o : Outcome (Unit {0})) → AllTracked o.1 → AllTracked (then_await s o).1
awaited-AllTracked s (ok _, p) all = all
awaited-AllTracked s (err e, p) all = all

module _ (pid : ℕ) (pool : PacketIdPool) (p : MqttProtocol) (all : AllTracked p) where
  pub open_qos1-AllTracked :
      (packet : Publish)
      → get pid p.state.inflight_qos1 ≡ none
      → AllTracked (open_qos1 pid pool packet p)
  unfolding open_qos1 create_future
  open_qos1-AllTracked packet free j e = elim (IsPending-append j p.futures e) [
    | inl before ↦ Tracked-put_qos1 pid p.state pool _ free (all j before)
    | inr new ↦ in_qos1 pid _ (got_put pid _ p.state.inflight_qos1) new
  ]

  pub open_qos2-AllTracked :
      (packet : Publish)
      → get pid p.state.inflight_qos2_out ≡ none
      → AllTracked (open_qos2 pid pool packet p)
  unfolding open_qos2 create_future
  open_qos2-AllTracked packet free j e = elim (IsPending-append j p.futures e) [
    | inl before ↦ Tracked-put_qos2 pid p.state pool _ free (all j before)
    | inr new ↦ in_qos2 pid _ (got_put pid _ p.state.inflight_qos2_out) new
  ]

  pub open_sub-AllTracked : get pid p.state.pending_subs ≡ none → AllTracked (open_sub pid pool p)
  unfolding open_sub create_future
  open_sub-AllTracked free j e = elim (IsPending-append j p.futures e) [
    | inl before ↦ Tracked-put_sub pid p.state pool _ free (all j before)
    | inr new ↦ in_subs pid (got_put pid _ p.state.pending_subs ∙ ap some new)
  ]

  pub open_unsub-AllTracked :
      get pid p.state.pending_unsubs ≡ none → AllTracked (open_unsub pid pool p)
  unfolding open_unsub create_future
  open_unsub-AllTracked free j e = elim (IsPending-append j p.futures e) [
    | inl before ↦ Tracked-put_unsub pid p.state pool _ free (all j before)
    | inr new ↦ in_unsubs pid (got_put pid _ p.state.pending_unsubs ∙ ap some new)
  ]

pub apart : (j future : ℕ) (fs : List Future) → IsPending j fs → ¬ IsPending future fs → future ≢ j
apart j future fs e done same = done (subst (λ i. IsPending i fs) (sym same) e)

-- A table that held one future drops it, once it is done.
module _ (pid : ℕ) (p : MqttProtocol) (all : AllTracked p) where
  pub close_qos1-AllTracked :
      {f : QoS1Flight} (outcome : Future)
      → is_pending outcome ≡ false
      → get pid p.state.inflight_qos1 ≡ some f
      → AllTracked (close_qos1 pid f.future outcome p)
  unfolding close_qos1
  close_qos1-AllTracked {f = f} outcome done held j e =
      Tracked-pop_qos1 pid p.state _ held
        (apart j f.future _ e (settle-not-IsPending f.future outcome p.futures done))
        (all j (IsPending-settle f.future j outcome p.futures done e))

  pub close_qos2-AllTracked :
      {f : OutboundQoS2Flight} (outcome : Future)
      → is_pending outcome ≡ false
      → get pid p.state.inflight_qos2_out ≡ some f
      → AllTracked (close_qos2 pid f.future outcome p)
  unfolding close_qos2
  close_qos2-AllTracked {f = f} outcome done held j e =
      Tracked-pop_qos2 pid p.state _ held
        (apart j f.future _ e (settle-not-IsPending f.future outcome p.futures done))
        (all j (IsPending-settle f.future j outcome p.futures done e))

  pub close_sub-AllTracked :
      {future : ℕ}
      → get pid p.state.pending_subs ≡ some future
      → ¬ IsPending future p.futures
      → AllTracked (close_sub pid p)
  unfolding close_sub
  close_sub-AllTracked {future = future} held done j e =
      Tracked-pop_sub pid p.state _ held (apart j future p.futures e done) (all j e)

  pub close_unsub-AllTracked :
      {future : ℕ}
      → get pid p.state.pending_unsubs ≡ some future
      → ¬ IsPending future p.futures
      → AllTracked (close_unsub pid p)
  unfolding close_unsub
  close_unsub-AllTracked {future = future} held done j e =
      Tracked-pop_unsub pid p.state _ held (apart j future p.futures e done) (all j e)

pub settle-AllTracked :
    (future : ℕ) (outcome : Future) (p : MqttProtocol)
    → is_pending outcome ≡ false
    → AllTracked p
    → AllTracked (record p { futures = settle future outcome p.futures })
settle-AllTracked future outcome p done all j e =
    all j (IsPending-settle future j outcome p.futures done e)

pub await_pubcomp-AllTracked :
    (pid : ℕ) (f : OutboundQoS2Flight) (p : MqttProtocol)
    → get pid p.state.inflight_qos2_out ≡ some f
    → AllTracked p
    → AllTracked (await_pubcomp pid f p)
unfolding await_pubcomp
await_pubcomp-AllTracked pid f p held all j e =
    Tracked-change_qos2 pid p.state held (record f { state = pending_pubcomp }) refl (all j e)
