-- ===== src/Protocol/Closing.antt =====
-- `_cancel_pending` of protocol.py, and the futures that it fails.
use fast_mqtt.Prelude.{
  ℕ, ◌≡◌, refl, ap, ◌∙◌, subst, List, [], ◌∷◌, true, false, some, arith, inl, inr, Bool-cases, has,
}
use fast_mqtt.Prelude.{◌==◌}
use fast_mqtt.Dict.{Dict, number_eq, get}
use fast_mqtt.Future.{Future, settle, is_pending, IsPending, IsPending-settle, settle-not-IsPending}
use fast_mqtt.Protocol.{QoS1Flight, OutboundQoS2Flight, MqttProtocol}
use fast_mqtt.Protocol.Requests.{settle_all, qos1_futures, qos2_futures, values, cancel_pending}
use fast_mqtt.Protocol.Tracking.{in_qos1, in_qos2, in_subs, in_unsubs, in_waiters, AllTracked}

pub IsPending-settle_all :
    (is : List ℕ) (j : ℕ) (outcome : Future) (fs : List Future)
    → is_pending outcome ≡ false
    → IsPending j (settle_all is outcome fs)
    → IsPending j fs × (has j is ≡ false)
unfolding settle_all has
IsPending-settle_all [] j outcome fs done e = (e, refl)
IsPending-settle_all (i ∷ is) j outcome fs done e =
    let (rest, others) = IsPending-settle_all is j outcome (settle i outcome fs) done e in
    (
      IsPending-settle i j outcome fs done rest,
      elim (Bool-cases (j == i)) [
        | inl same ↦
            let here : IsPending i (settle i outcome fs) =
              subst (λ k. IsPending k (settle i outcome fs)) (ground arith) rest in
            absurd (settle-not-IsPending i outcome fs done here)
        | inr other ↦ rw other others
      ],
    )

some-injective {ℓ} : {A : Type ℓ} {a b : A} → some a ≡ some b → a ≡ b
some-injective h = cc

has-qos1_futures :
    (k j : ℕ) (f : QoS1Flight) (d : Dict ℕ QoS1Flight)
    → get k d ≡ some f
    → f.future ≡ j
    → has j (qos1_futures d) ≡ true
unfolding has get
has-qos1_futures k j f [] there same = absurd (cc)
has-qos1_futures k j f ((i, g) ∷ d) there same = elim (Bool-cases (i == k)) [
  | inl here ↦
      let is_f : some g ≡ some f = rw here at there in
      let at_j : g.future ≡ j = ap future_of (some-injective is_f) ∙ same in ground arith
  | inr other ↦ let rest = has-qos1_futures k j f d (rw other at there) same in ground arith
]
  where
    future_of : QoS1Flight → ℕ
    future_of h = h.future

has-qos2_futures :
    (k j : ℕ) (f : OutboundQoS2Flight) (d : Dict ℕ OutboundQoS2Flight)
    → get k d ≡ some f
    → f.future ≡ j
    → has j (qos2_futures d) ≡ true
unfolding has get
has-qos2_futures k j f [] there same = absurd (cc)
has-qos2_futures k j f ((i, g) ∷ d) there same = elim (Bool-cases (i == k)) [
  | inl here ↦
      let is_f : some g ≡ some f = rw here at there in
      let at_j : g.future ≡ j = ap future_of (some-injective is_f) ∙ same in ground arith
  | inr other ↦ let rest = has-qos2_futures k j f d (rw other at there) same in ground arith
]
  where
    future_of : OutboundQoS2Flight → ℕ
    future_of h = h.future

has-values : (k j : ℕ) (d : Dict ℕ ℕ) → get k d ≡ some j → has j (values d) ≡ true
unfolding has get
has-values k j [] there = absurd (cc)
has-values k j ((i, g) ∷ d) there = elim (Bool-cases (i == k)) [
  | inl here ↦
      let is_j : some g ≡ some j = rw here at there in
      let at_j : g ≡ j = some-injective is_j in ground arith
  | inr other ↦ let rest = has-values k j d (rw other at there) in ground arith
]

-- What is in a table is not pending after `_cancel_pending`.
pub cancel_pending-none :
    (p : MqttProtocol) → AllTracked p → (j : ℕ) → ¬ IsPending j (cancel_pending p).futures
unfolding cancel_pending
cancel_pending-none p all j e =
    let (e₁, not_waiting) = IsPending-settle_all p.ping_waiters j _ _ refl e in
    let (e₂, not_qos2) =
      IsPending-settle_all (qos2_futures p.state.inflight_qos2_out) j _ _ refl e₁ in
    let (e₃, not_qos1) = IsPending-settle_all (qos1_futures p.state.inflight_qos1) j _ _ refl e₂ in
    let (e₄, not_unsub) = IsPending-settle_all (values p.state.pending_unsubs) j _ _ refl e₃ in
    let (e₅, not_sub) = IsPending-settle_all (values p.state.pending_subs) j _ _ refl e₄ in
    elim (all j e₅) [
      | in_qos1 k f there same ↦
          let found = has-qos1_futures k j f p.state.inflight_qos1 there same in cc
      | in_qos2 k f there same ↦
          let found = has-qos2_futures k j f p.state.inflight_qos2_out there same in cc
      | in_subs k there ↦ let found = has-values k j p.state.pending_subs there in cc
      | in_unsubs k there ↦ let found = has-values k j p.state.pending_unsubs there in cc
      | in_waiters there ↦ cc
    ]
