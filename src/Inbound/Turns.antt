-- ===== src/Inbound/Turns.antt =====
-- The invariant of the inbound state of inbound.py, over `drain`, `expire` and `_deliver_pending`.
use fast_mqtt.Prelude.{
  ℕ, ◌+◌, ◌≡◌, refl, ap, sym, ◌∙◌, List, [], ◌∷◌, ◌++◌, Bool, true, false, Option, none, some,
  arith,
}
use fast_mqtt.Prelude.{◌>>=◌, subst, if◌then◌else◌, ◌==◌, Result, ok, err}
use fast_mqtt.Utf8.{Text}
use fast_mqtt.Packet.{QoS, at_most_once, at_least_once, exactly_once, Publish}
use fast_mqtt.Subscription.{Item, SubscriptionSelection, select_from}
use fast_mqtt.Subscription.Index.{
  SubscriptionIndex, select, select_by_identifier, identified_by, or_else, matching, match_topic,
  as_fallback,
}
use fast_mqtt.Subscription.Best.{select_from-best}
use fast_mqtt.Inbound.{
  InboundRecipient, Delivering, Buffered, Replay, no_session_replay, persistent_idle,
  persistent_buffered, InboundPublishFlow,
}
use fast_mqtt.Inbound.Buffer.{discard_publish}
use fast_mqtt.Inbound.Flow.{
  select_recipient, select_subscription, select_with, deliver, subscription_recipient,
  identifier_of,
}
use fast_mqtt.Inbound.Drain.{
  new_delivering, lock, locked, start_delivery, holds, released, after_delivery, replay_by_qos,
  deliver_replay, stays, offer, turn_by, turn_of, turn_in, deliver_turn, resume_at, resume_of,
  resume_in, resume,
}
use fast_mqtt.Inbound.Bounded.{
  total, total_current, held_total, Held, IsBuffered, total-append, total-last, moved-IsBuffered,
  discarded-IsBuffered,
}
use fast_mqtt.Inbound.Kept.{IsFlow, deliver_qos1-IsFlow, accept_qos2-IsFlow}

select_from_total :
    (items : List Item) → (selection : SubscriptionSelection) × (select_from items ≡ ok selection)
unfolding select_from
select_from_total [] = (_, refl)
select_from_total (first ∷ items) =
    let (selection, item, chosen, is_item, among, least) = select_from-best first items in
    (selection, chosen)

fallback_total :
    (r : Result SubscriptionSelection) (selection : SubscriptionSelection)
    → r ≡ ok selection
    → (r >>= λ s. ok (as_fallback s)) ≡ ok (as_fallback selection)
fallback_total r selection e = rw e refl

select_total :
    (topic : Text) (index : SubscriptionIndex)
    → (selection : SubscriptionSelection) × (select topic index ≡ ok selection)
unfolding select
select_total topic index = select_from_total (match_topic topic index)

select_by_identifier_total :
    (topic : Text) (identifier : ℕ) (index : SubscriptionIndex)
    → (selection : SubscriptionSelection) × (select_by_identifier topic identifier index
        ≡ ok selection)
unfolding select_by_identifier
select_by_identifier_total topic identifier index = fallback (identified_by identifier index)
  where
    fallback :
        (items : List Item)
        → (selection : SubscriptionSelection) × ((elim items [
          | [] ↦ select topic index >>= λ s. ok (as_fallback s)
          | item ∷ others ↦ select_from (or_else (matching topic (item ∷ others)) (item ∷ others))
        ])
            ≡ ok selection)
    fallback [] =
        let (selection, e) = select_total topic index in
        (as_fallback selection, fallback_total (select topic index) selection e)
    fallback (item ∷ items) =
        select_from_total (or_else (matching topic (item ∷ items)) (item ∷ items))

select_with_total :
    (o : Option ℕ) (publish : Publish) (index : SubscriptionIndex)
    → (selection : SubscriptionSelection) × (select_with o publish index ≡ ok selection)
select_with_total none publish index = select_total publish.topic index
select_with_total (some identifier) publish index =
    select_by_identifier_total publish.topic identifier index

select_recipient_total :
    (claimed : Option ℕ) (publish : Publish) (f : InboundPublishFlow)
    → (recipient : InboundRecipient) × (select_recipient claimed publish f ≡ ok recipient)
unfolding select_recipient select_subscription
select_recipient_total (some request) publish f = (_, refl)
select_recipient_total none publish f =
    let (selection, e) =
      select_with_total (identifier_of publish.properties) publish f.subscriptions in
    (subscription_recipient publish selection.recipient, rw e refl)

lock-IsFlow :
    (expiring : Bool) (f : InboundPublishFlow) (b : Buffered) (o : Option Delivering)
    → b.delivery ≡ o
    → IsBuffered f.buffer_size b
    → IsBuffered f.buffer_size (lock expiring b o)
unfolding total
lock-IsFlow expiring f b (some d) e h = h
lock-IsFlow expiring f b none e h =
    moved-IsBuffered f.buffer_size b b.publishes (some (new_delivering expiring))
      (λ w. ap (held_total w b.publishes) e ∙ omega arith) h

pub start_delivery-IsFlow :
    (expiring : Bool) (f : InboundPublishFlow) → IsFlow f → IsFlow (start_delivery expiring f)
unfolding start_delivery
start_delivery-IsFlow expiring f h = go f.replay h
  where
    go : (r : Replay) → Held f.buffer_size r → Held f.buffer_size (locked expiring r)
    go no_session_replay k = tt
    go persistent_idle k = tt
    go (persistent_buffered b) k = lock-IsFlow expiring f b b.delivery refl k

replay_by_qos-IsFlow :
    (qos : QoS) (pid : Option ℕ) (recipient : InboundRecipient) (f : InboundPublishFlow)
    → IsFlow f
    → IsFlow (replay_by_qos qos pid recipient f).1
unfolding deliver
replay_by_qos-IsFlow at_most_once pid recipient f h = h
replay_by_qos-IsFlow at_least_once none recipient f h = h
replay_by_qos-IsFlow at_least_once (some pid) recipient f h = deliver_qos1-IsFlow pid recipient f h
replay_by_qos-IsFlow exactly_once none recipient f h = h
replay_by_qos-IsFlow exactly_once (some pid) recipient f h = accept_qos2-IsFlow pid recipient f h

chosen-IsFlow :
    (b : Bool) (f g : InboundPublishFlow) → IsFlow f → IsFlow g → IsFlow (if b then f else g)
chosen-IsFlow true f g h k = h
chosen-IsFlow false f g h k = k

-- A message that is taken off `pending` is put elsewhere.
offer-IsFlow :
    (full : Bool) (b : Buffered) (d : Delivering) (publish : Publish) (recipient : InboundRecipient)
    (f : InboundPublishFlow)
    → ((w : Publish → ℕ)
        → held_total w b.publishes b.delivery
          ≡ total w b.publishes + (total w d.unmatched + (w publish + total w d.pending)))
    → d.current ≡ none
    → IsBuffered f.buffer_size b
    → IsFlow (offer full b d publish (ok recipient) f)
unfolding deliver_replay total
offer-IsFlow full b d publish recipient f e idle h =
    let later = record d { unmatched = d.unmatched ++ publish ∷ [] } in
    let now = record d { current = some publish } in
    chosen-IsFlow (stays full recipient.request recipient.subscription) (holds b later f)
      (deliver_replay publish recipient (holds b now f)).1
      (moved-IsBuffered f.buffer_size b b.publishes (some later)
        (λ w.
          let last = total-last w d.unmatched publish in
          let none_now = ap (total_current w) idle in e w ∙ omega arith)
        h)
      (replay_by_qos-IsFlow publish.qos publish.packet_id recipient (holds b now f)
        (moved-IsBuffered f.buffer_size b b.publishes (some now) (λ w. e w ∙ omega arith) h))

released-IsFlow :
    (size : ℕ) (b : Buffered) (unmatched pending : List Publish)
    → ((w : Publish → ℕ)
        → held_total w b.publishes b.delivery
          ≡ total w b.publishes + (total w unmatched + total w pending))
    → IsBuffered size b
    → IsBuffered size (released b unmatched pending)
unfolding total
released-IsFlow size b unmatched pending e h =
    moved-IsBuffered size b (unmatched ++ (pending ++ b.publishes)) none
      (λ w.
        let first = total-append w unmatched (pending ++ b.publishes) in
        let second = total-append w pending b.publishes in e w ∙ omega arith)
      h

after_delivery-Held :
    (size : ℕ) (expiring : Bool) (b : Buffered)
    → IsBuffered size b
    → Held size (after_delivery expiring b)
after_delivery-Held size true b h = either_held (b.message_count == 0)
  where
    either_held : (x : Bool) → Held size (if x then persistent_idle else no_session_replay)
    either_held true = tt
    either_held false = tt
after_delivery-Held size false b h = either_held (b.message_count == 0)
  where
    either_held : (x : Bool) → Held size (if x then persistent_idle else persistent_buffered b)
    either_held true = tt
    either_held false = h

turn_by-IsFlow :
    (claimed : Option ℕ) (full : Bool) (b : Buffered) (d : Delivering) (current : Option Publish)
    (pending publishes : List Publish) (f : InboundPublishFlow)
    → ((w : Publish → ℕ)
        → held_total w b.publishes b.delivery
          ≡ total w b.publishes
            + (total w d.unmatched + (total_current w current + total w pending)))
    → d.current ≡ current
    → b.publishes ≡ publishes
    → IsFlow f
    → IsBuffered f.buffer_size b
    → IsFlow (turn_by claimed full b d current pending publishes f)
unfolding total
turn_by-IsFlow claimed full b d (some publish) pending publishes f e now same h k = h
turn_by-IsFlow claimed full b d none (publish ∷ pending) publishes f e now same h k =
    let taken = record d { pending = pending } in
    let (recipient, answer) = select_recipient_total claimed publish f in
    subst (λ r. IsFlow (offer full b taken publish r f)) (sym answer)
      (offer-IsFlow full b taken publish recipient f (λ w. e w ∙ omega arith) now k)
turn_by-IsFlow claimed full b d none [] (publish ∷ publishes) f e now same h k =
    moved-IsBuffered f.buffer_size b [] (some (record d { pending = publish ∷ publishes }))
      (λ w.
        let all = ap (total w) same in let none_now = ap (total_current w) now in e w ∙ omega arith)
      k
turn_by-IsFlow claimed full b d none [] [] f e now same h k =
    after_delivery-Held f.buffer_size d.expiring (released b d.unmatched [])
      (released-IsFlow f.buffer_size b d.unmatched [] (λ w. e w ∙ omega arith) k)

pub deliver_turn-IsFlow :
    (claimed : Option ℕ) (full : Bool) (f : InboundPublishFlow)
    → IsFlow f
    → IsFlow (deliver_turn claimed full f)
unfolding deliver_turn
deliver_turn-IsFlow claimed full f h = go f.replay h
  where
    turn :
        (b : Buffered) (o : Option Delivering)
        → b.delivery ≡ o
        → IsBuffered f.buffer_size b
        → IsFlow (turn_of claimed full b o f)
    turn b none e k = h
    turn b (some d) e k =
        turn_by-IsFlow claimed full b d d.current d.pending b.publishes f
          (λ w. ap (held_total w b.publishes) e) refl refl h k

    go : (r : Replay) → Held f.buffer_size r → IsFlow (turn_in claimed full r f)
    go no_session_replay k = h
    go persistent_idle k = h
    go (persistent_buffered b) k = turn b b.delivery refl k

resume_at-IsFlow :
    (r : Result (Unit {0})) (b : Buffered) (d : Delivering) (current : Option Publish)
    (f : InboundPublishFlow)
    → ((w : Publish → ℕ)
        → held_total w b.publishes b.delivery
          ≡ total w b.publishes
            + (total w d.unmatched + (total_current w current + total w d.pending)))
    → IsFlow f
    → IsBuffered f.buffer_size b
    → IsFlow (resume_at r b d current f)
unfolding discard_publish total
resume_at-IsFlow r b d none f e h k = h
resume_at-IsFlow (ok u) b d (some publish) f e h k =
    discarded-IsBuffered f.buffer_size publish b b.publishes (some (record d { current = none }))
      (λ w. e w ∙ omega arith) k
resume_at-IsFlow (err x) b d (some publish) f e h k =
    released-IsFlow f.buffer_size b (d.unmatched ++ publish ∷ []) d.pending
      (λ w. let last = total-last w d.unmatched publish in e w ∙ omega arith) k

pub resume-IsFlow :
    (r : Result (Unit {0})) (f : InboundPublishFlow) → IsFlow f → IsFlow (resume r f)
unfolding resume
resume-IsFlow r f h = go f.replay h
  where
    at :
        (b : Buffered) (o : Option Delivering)
        → b.delivery ≡ o
        → IsBuffered f.buffer_size b
        → IsFlow (resume_of r b o f)
    at b none e k = h
    at b (some d) e k =
        resume_at-IsFlow r b d d.current f (λ w. ap (held_total w b.publishes) e) h k

    go : (x : Replay) → Held f.buffer_size x → IsFlow (resume_in r x f)
    go no_session_replay k = h
    go persistent_idle k = h
    go (persistent_buffered b) k = at b b.delivery refl k
