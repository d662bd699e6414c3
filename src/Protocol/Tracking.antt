-- ===== src/Protocol/Tracking.antt =====
-- The futures that coroutines await, and the tables in which the connection finds them.
use fast_mqtt.Prelude.{
  ℕ, ◌≡◌, ◌≢◌, refl, ap, sym, ◌∙◌, subst, List, true, false, Option, none, some, arith, inl, inr,
  Bool-cases, has,
}
use fast_mqtt.Prelude.{◌==◌, ok}
use fast_mqtt.Dict.{Dict, number_eq, get, put, pop, get-put, get-pop}
use fast_mqtt.Property.Block.{bit}
use fast_mqtt.Future.{IsPending}
use fast_mqtt.State.{PacketIdPool, acquire}
use fast_mqtt.Protocol.{QoS1Flight, OutboundQoS2Flight, SessionState, MqttProtocol}
use fast_mqtt.Protocol.Balance.{count, claims, IsSession, acquired}

pub data Tracked (j : ℕ) (s : SessionState) (waiters : List ℕ) : Type 0 where
  in_qos1 :
      (pid : ℕ) (f : QoS1Flight)
      → get pid s.inflight_qos1 ≡ some f
      → f.future ≡ j
      → Tracked j s waiters
  in_qos2 :
      (pid : ℕ) (f : OutboundQoS2Flight)
      → get pid s.inflight_qos2_out ≡ some f
      → f.future ≡ j
      → Tracked j s waiters
  in_subs : (pid : ℕ) → get pid s.pending_subs ≡ some j → Tracked j s waiters
  in_unsubs : (pid : ℕ) → get pid s.pending_unsubs ≡ some j → Tracked j s waiters
  in_waiters : has j waiters ≡ true → Tracked j s waiters

-- Every future that is still to come is in a table.
abbrev pub AllTracked : MqttProtocol → Type 0
AllTracked p = (j : ℕ) → IsPending j p.futures → Tracked j p.state p.ping_waiters

-- What is in a dictionary is still there after another key got a value.
kept_put {ℓ} :
    {V : Type ℓ} (k pid : ℕ) {f : V} (v : V) (d : Dict ℕ V)
    → get pid d ≡ none
    → get k d ≡ some f
    → get k (put pid v d) ≡ some f
kept_put k pid v d free there = elim (Bool-cases (pid == k)) [
  | inl same ↦
      let gone : get k d ≡ none = subst (λ i. get i d ≡ none) (ground arith) free in absurd (cc)
  | inr other ↦ get-put k pid v d ∙ rw other there
]

-- And after another key was dropped.
kept_pop {ℓ} :
    {V : Type ℓ} (k pid : ℕ) {f : V} (d : Dict ℕ V)
    → pid == k ≡ false
    → get k d ≡ some f
    → get k (pop pid d) ≡ some f
kept_pop k pid d other there = get-pop k pid d ∙ rw other there

pub got_put {ℓ} : {V : Type ℓ} (k : ℕ) (v : V) (d : Dict ℕ V) → get k (put k v d) ≡ some v
got_put k v d = get-put k k v d ∙ ground arith

count-eq-0 {ℓ} : {V : Type ℓ} (o : Option V) → count o ≡ 0 → o ≡ none
count-eq-0 none h = refl
count-eq-0 (some v) h = absurd (omega arith)

-- An identifier that is acquired is a key of no dictionary.
pub acquired-free :
    (s : SessionState) (pool : PacketIdPool) (pid : ℕ)
    → IsSession s
    → acquire s.packet_ids ≡ ok (pid, pool)
    → (get pid s.inflight_qos1 ≡ none)
      × (get pid s.inflight_qos2_out ≡ none)
      × (get pid s.pending_subs ≡ none)
      × (get pid s.pending_unsubs ≡ none)
acquired-free s pool pid v taken =
    let (free, _, _) = acquired s.packet_ids pool pid v.pool taken in
    let b : claims pid s ≡ 0 = v.balanced pid ∙ ap bit free in
    (
      count-eq-0 _ (omega arith),
      count-eq-0 _ (omega arith),
      count-eq-0 _ (omega arith),
      count-eq-0 _ (omega arith),
    )

same_entry {ℓ} :
    {V : Type ℓ} (k pid : ℕ) (d : Dict ℕ V) {f g : V}
    → get k d ≡ some f
    → get pid d ≡ some g
    → pid == k ≡ true
    → g ≡ f
same_entry k pid d {f = f} {g = g} there held at_pid =
    let held' : get k d ≡ some g = subst (λ i. get i d ≡ some g) (ground arith) held in
    let same : some g ≡ some f = sym held' ∙ there in cc

module _ (pid : ℕ) (s : SessionState) (pool : PacketIdPool) {j : ℕ} {waiters : List ℕ} where
  pub Tracked-put_qos1 :
      (v : QoS1Flight)
      → get pid s.inflight_qos1 ≡ none
      → Tracked j s waiters
      → Tracked j
          (record s { packet_ids = pool; inflight_qos1 = put pid v s.inflight_qos1 })
          waiters
  Tracked-put_qos1 v free (in_qos1 k f there same) =
      in_qos1 k f (kept_put k pid v s.inflight_qos1 free there) same
  Tracked-put_qos1 v free (in_qos2 k f there same) = in_qos2 k f there same
  Tracked-put_qos1 v free (in_subs k there) = in_subs k there
  Tracked-put_qos1 v free (in_unsubs k there) = in_unsubs k there
  Tracked-put_qos1 v free (in_waiters there) = in_waiters there

  pub Tracked-put_qos2 :
      (v : OutboundQoS2Flight)
      → get pid s.inflight_qos2_out ≡ none
      → Tracked j s waiters
      → Tracked j
          (record s { packet_ids = pool; inflight_qos2_out = put pid v s.inflight_qos2_out })
          waiters
  Tracked-put_qos2 v free (in_qos1 k f there same) = in_qos1 k f there same
  Tracked-put_qos2 v free (in_qos2 k f there same) =
      in_qos2 k f (kept_put k pid v s.inflight_qos2_out free there) same
  Tracked-put_qos2 v free (in_subs k there) = in_subs k there
  Tracked-put_qos2 v free (in_unsubs k there) = in_unsubs k there
  Tracked-put_qos2 v free (in_waiters there) = in_waiters there

  pub Tracked-put_sub :
      (v : ℕ)
      → get pid s.pending_subs ≡ none
      → Tracked j s waiters
      → Tracked j (record s { packet_ids = pool; pending_subs = put pid v s.pending_subs }) waiters
  Tracked-put_sub v free (in_qos1 k f there same) = in_qos1 k f there same
  Tracked-put_sub v free (in_qos2 k f there same) = in_qos2 k f there same
  Tracked-put_sub v free (in_subs k there) = in_subs k (kept_put k pid v s.pending_subs free there)
  Tracked-put_sub v free (in_unsubs k there) = in_unsubs k there
  Tracked-put_sub v free (in_waiters there) = in_waiters there

  pub Tracked-put_unsub :
      (v : ℕ)
      → get pid s.pending_unsubs ≡ none
      → Tracked j s waiters
      → Tracked j
          (record s { packet_ids = pool; pending_unsubs = put pid v s.pending_unsubs })
          waiters
  Tracked-put_unsub v free (in_qos1 k f there same) = in_qos1 k f there same
  Tracked-put_unsub v free (in_qos2 k f there same) = in_qos2 k f there same
  Tracked-put_unsub v free (in_subs k there) = in_subs k there
  Tracked-put_unsub v free (in_unsubs k there) =
      in_unsubs k (kept_put k pid v s.pending_unsubs free there)
  Tracked-put_unsub v free (in_waiters there) = in_waiters there

  pub Tracked-pop_qos1 :
      {g : QoS1Flight}
      → get pid s.inflight_qos1 ≡ some g
      → g.future ≢ j
      → Tracked j s waiters
      → Tracked j (record s { packet_ids = pool; inflight_qos1 = pop pid s.inflight_qos1 }) waiters
  Tracked-pop_qos1 held other (in_qos1 k f there same) = elim (Bool-cases (pid == k)) [
    | inl at_pid ↦
        absurd
          (other (ap (λ h. h.future) (same_entry k pid s.inflight_qos1 there held at_pid) ∙ same))
    | inr elsewhere ↦ in_qos1 k f (kept_pop k pid s.inflight_qos1 elsewhere there) same
  ]
  Tracked-pop_qos1 held other (in_qos2 k f there same) = in_qos2 k f there same
  Tracked-pop_qos1 held other (in_subs k there) = in_subs k there
  Tracked-pop_qos1 held other (in_unsubs k there) = in_unsubs k there
  Tracked-pop_qos1 held other (in_waiters there) = in_waiters there

  pub Tracked-pop_qos2 :
      {g : OutboundQoS2Flight}
      → get pid s.inflight_qos2_out ≡ some g
      → g.future ≢ j
      → Tracked j s waiters
      → Tracked j
          (record s { packet_ids = pool; inflight_qos2_out = pop pid s.inflight_qos2_out })
          waiters
  Tracked-pop_qos2 held other (in_qos1 k f there same) = in_qos1 k f there same
  Tracked-pop_qos2 held other (in_qos2 k f there same) = elim (Bool-cases (pid == k)) [
    | inl at_pid ↦
        absurd (
          other
            (ap (λ h. h.future) (same_entry k pid s.inflight_qos2_out there held at_pid) ∙ same))
    | inr elsewhere ↦ in_qos2 k f (kept_pop k pid s.inflight_qos2_out elsewhere there) same
  ]
  Tracked-pop_qos2 held other (in_subs k there) = in_subs k there
  Tracked-pop_qos2 held other (in_unsubs k there) = in_unsubs k there
  Tracked-pop_qos2 held other (in_waiters there) = in_waiters there

  pub Tracked-pop_sub :
      {g : ℕ}
      → get pid s.pending_subs ≡ some g
      → g ≢ j
      → Tracked j s waiters
      → Tracked j (record s { packet_ids = pool; pending_subs = pop pid s.pending_subs }) waiters
  Tracked-pop_sub held other (in_qos1 k f there same) = in_qos1 k f there same
  Tracked-pop_sub held other (in_qos2 k f there same) = in_qos2 k f there same
  Tracked-pop_sub held other (in_subs k there) = elim (Bool-cases (pid == k)) [
    | inl at_pid ↦ absurd (other (same_entry k pid s.pending_subs there held at_pid))
    | inr elsewhere ↦ in_subs k (kept_pop k pid s.pending_subs elsewhere there)
  ]
  Tracked-pop_sub held other (in_unsubs k there) = in_unsubs k there
  Tracked-pop_sub held other (in_waiters there) = in_waiters there

  pub Tracked-pop_unsub :
      {g : ℕ}
      → get pid s.pending_unsubs ≡ some g
      → g ≢ j
      → Tracked j s waiters
      → Tracked j
          (record s { packet_ids = pool; pending_unsubs = pop pid s.pending_unsubs })
          waiters
  Tracked-pop_unsub held other (in_qos1 k f there same) = in_qos1 k f there same
  Tracked-pop_unsub held other (in_qos2 k f there same) = in_qos2 k f there same
  Tracked-pop_unsub held other (in_subs k there) = in_subs k there
  Tracked-pop_unsub held other (in_unsubs k there) = elim (Bool-cases (pid == k)) [
    | inl at_pid ↦ absurd (other (same_entry k pid s.pending_unsubs there held at_pid))
    | inr elsewhere ↦ in_unsubs k (kept_pop k pid s.pending_unsubs elsewhere there)
  ]
  Tracked-pop_unsub held other (in_waiters there) = in_waiters there

-- A flight gets another state, and keeps its future.
pub Tracked-change_qos2 :
    (pid : ℕ) (s : SessionState) {j : ℕ} {waiters : List ℕ} {f : OutboundQoS2Flight}
    → get pid s.inflight_qos2_out ≡ some f
    → (g : OutboundQoS2Flight) → g.future ≡ f.future
    → Tracked j s waiters
    → Tracked j (record s { inflight_qos2_out = put pid g s.inflight_qos2_out }) waiters
Tracked-change_qos2 pid s held g e (in_qos1 k f there same) = in_qos1 k f there same
Tracked-change_qos2 pid s held g e (in_qos2 k f there same) = elim (Bool-cases (pid == k)) [
  | inl at_pid ↦
      in_qos2 pid g (got_put pid g s.inflight_qos2_out)
        (e ∙ ap (λ h. h.future) (same_entry k pid s.inflight_qos2_out there held at_pid) ∙ same)
  | inr other ↦ in_qos2 k f (get-put k pid g s.inflight_qos2_out ∙ rw other there) same
]
Tracked-change_qos2 pid s held g e (in_subs k there) = in_subs k there
Tracked-change_qos2 pid s held g e (in_unsubs k there) = in_unsubs k there
Tracked-change_qos2 pid s held g e (in_waiters there) = in_waiters there
