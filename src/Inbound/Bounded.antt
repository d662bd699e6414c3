-- ===== src/Inbound/Bounded.antt =====
-- The replay buffer of inbound.py: its counters against the messages that it holds, and its limit.
use fast_mqtt.Prelude.{◌-◌}
use fast_mqtt.State.PacketIds.{has-discard-same, has-discard-eq}
use fast_mqtt.State.{discard}
use fast_mqtt.Prelude.{
  ℕ, ◌+◌, ◌≤◌, ◌≡◌, ◌≢◌, refl, ap, sym, ◌∙◌, List, [], ◌∷◌, ◌++◌, Bool, true, false, ◌&&◌, ◌||◌,
  not, Option, none, some, arith, has, Bool-cases, inl, inr,
}
use fast_mqtt.Prelude.{==_iff, subst, ◌==◌, if◌then◌else◌, Result, ok, err, protocol_error}
use fast_mqtt.Dict.{pop, get-pop, Dict, get, put, get-put}
use fast_mqtt.Utf8.{Text, text_eq}
use fast_mqtt.Topic.Split.{text_key, text_eq_iff}
use fast_mqtt.Packet.{Publish}
use fast_mqtt.Subscription.Index.{is_some}
use fast_mqtt.Inbound.{
  Delivering, InboundRecipient, Buffered, Replay, no_session_replay, persistent_idle,
  persistent_buffered,
}
use fast_mqtt.Inbound.Buffer.{
  discard_id, discard_publish, new_buffered, or_zero, held_id, add_id, buffer_publish, is_full,
  accept_buffered, accept,
}

abbrev pub is_id : ℕ → Option ℕ → Bool
is_id pid none = false
is_id pid (some i) = i == pid

abbrev pub bit : Bool → ℕ
bit true = 1
bit false = 0

-- The sum of a weight over messages
unfoldable pub total : (Publish → ℕ) → List Publish → ℕ
total w [] = 0
total w (p ∷ ps) = w p + total w ps

abbrev pub one : Publish → ℕ
one p = 1

abbrev pub on_topic : Text → Publish → ℕ
on_topic topic p = bit (text_eq p.topic topic)

abbrev pub of_id : ℕ → Publish → ℕ
of_id pid p = bit (is_id pid p.packet_id)

abbrev pub total_current : (Publish → ℕ) → Option Publish → ℕ
total_current w none = 0
total_current w (some p) = w p

abbrev pub total_delivery : (Publish → ℕ) → Option Delivering → ℕ
total_delivery w none = 0
total_delivery w (some d) = total w d.unmatched + (total_current w d.current + total w d.pending)

-- Over all the messages that are held, also those that a run of `_deliver_pending` has in its hands
abbrev pub held_total : (Publish → ℕ) → List Publish → Option Delivering → ℕ
held_total w publishes delivery = total w publishes + total_delivery w delivery

-- `message_count` is the number of messages held, `topics` has how many of them have each topic, the
-- identifiers are those of one message each, and there are no more messages than the limit, if it is
-- not 0.
pub record IsBuffered (size : ℕ) (b : Buffered) : Type 0 where
  pub counted : b.message_count ≡ held_total one b.publishes b.delivery
  pub by_topic :
      (topic : Text)
      → or_zero (get topic b.topics) ≡ held_total (on_topic topic) b.publishes b.delivery
  pub identified :
      (pid : ℕ) → bit (has pid b.packet_ids) ≡ held_total (of_id pid) b.publishes b.delivery
  pub bounded : size ≢ 0 → b.message_count ≤ size

pub total-append :
    (w : Publish → ℕ) (ps qs : List Publish) → total w (ps ++ qs) ≡ total w ps + total w qs
unfolding total
total-append w [] qs = omega arith
total-append w (p ∷ ps) qs = let rest = total-append w ps qs in omega arith

pub total-last :
    (w : Publish → ℕ) (ps : List Publish) (p : Publish) → total w (ps ++ p ∷ []) ≡ total w ps + w p
unfolding total
total-last w [] p = omega arith
total-last w (x ∷ ps) p = let rest = total-last w ps p in omega arith

has-add_id :
    (pid : ℕ) (o : Option ℕ) (ids : List ℕ) → has pid (add_id o ids) ≡ (has pid ids || is_id pid o)
unfolding has
has-add_id pid none ids = ground arith
has-add_id pid (some i) ids = elim (Bool-cases (has i ids)) [
  | inr new ↦ rw new (ground arith)
  | inl known ↦ rw known (elim (Bool-cases (i == pid)) [
    | inl same ↦ let h = subst (λ n. has n ids ≡ true) ((==_iff i pid).0 same) known in ground arith
    | inr other ↦ ground arith
  ])
]

or_zero-if :
    (b : Bool) (n : ℕ) (o : Option ℕ)
    → or_zero (if b then some n else o) ≡ (if b then n else or_zero o)
or_zero-if true n o = refl
or_zero-if false n o = refl

topics-put :
    (key : Text) (topics : Dict Text ℕ) (topic : Text) (n : ℕ)
    → or_zero (get topic topics) ≡ n
    → or_zero (get topic (put key (or_zero (get key topics) + 1) topics))
      ≡ n + bit (text_eq key topic)
topics-put key topics topic n e =
    let g = get-put topic key (or_zero (get key topics) + 1) topics in
    elim (Bool-cases (text_eq key topic)) [
      | inl same ↦
          let k = (text_eq_iff key topic).0 same in
          rw (g, same) (ap (λ x. x + 1) (subst (λ s. or_zero (get s topics) ≡ n) (sym k) e))
      | inr other ↦ rw (g, other) (e ∙ ground arith)
    ]

held_id-is_id :
    (pid : ℕ) (o : Option ℕ) (ids : List ℕ)
    → held_id o ids ≡ false
    → is_id pid o ≡ true
    → has pid ids ≡ false
held_id-is_id pid none ids h e = absurd (cc)
held_id-is_id pid (some i) ids h e = subst (λ n. has n ids ≡ false) ((==_iff i pid).0 e) h

bits_add : (a b : Bool) → (b ≡ true → a ≡ false) → bit (a || b) ≡ bit a + bit b
bits_add true true h = let no = h refl in absurd (cc)
bits_add true false h = refl
bits_add false true h = refl
bits_add false false h = refl

buffer_publish-IsBuffered :
    (size : ℕ) (p : Publish) (b : Buffered)
    → held_id p.packet_id b.packet_ids ≡ false
    → is_full size b ≡ false
    → IsBuffered size b
    → IsBuffered size (buffer_publish p b)
unfolding buffer_publish
buffer_publish-IsBuffered size p b new room ok_b = record {
  counted = let c = ok_b.counted in let e = total-last one b.publishes p in omega arith;
  by_topic = λ topic.
      let n = held_total (on_topic topic) b.publishes b.delivery in
      let e = total-last (on_topic topic) b.publishes p in
      topics-put p.topic b.topics topic n (ok_b.by_topic topic) ∙ omega arith;
  identified = λ pid.
      let h = ok_b.identified pid in
      let e = total-last (of_id pid) b.publishes p in
      ap bit (has-add_id pid p.packet_id b.packet_ids)
      ∙ bits_add (has pid b.packet_ids) (is_id pid p.packet_id)
          (held_id-is_id pid p.packet_id b.packet_ids new)
      ∙ omega arith;
  bounded = λ limited. let e = ok_b.bounded limited in ground arith;
}

-- The messages that are held change their places.
pub moved-IsBuffered :
    (size : ℕ) (b : Buffered) (publishes : List Publish) (delivery : Option Delivering)
    → ((w : Publish → ℕ) → held_total w b.publishes b.delivery ≡ held_total w publishes delivery)
    → IsBuffered size b
    → IsBuffered size (record b { publishes = publishes; delivery = delivery })
moved-IsBuffered size b publishes delivery same ok_b = record {
  counted = ok_b.counted ∙ same one;
  by_topic = λ topic. ok_b.by_topic topic ∙ same (on_topic topic);
  identified = λ pid. ok_b.identified pid ∙ same (of_id pid);
  bounded = ok_b.bounded;
}

only_one : (m n : ℕ) → m ≡ 1 + n → (m - 1 == 0) ≡ true → 0 ≡ n
only_one m n e h = ground arith

topics-discard :
    (key : Text) (topics : Dict Text ℕ) (topic : Text) (n : ℕ)
    → or_zero (get topic topics) ≡ bit (text_eq key topic) + n
    → or_zero (
        get topic (
          if or_zero (get key topics) - 1 == 0
          then pop key topics
          else put key (or_zero (get key topics) - 1) topics))
      ≡ n
topics-discard key topics topic n e =
    let left = or_zero (get key topics) - 1 in
    let popped : get topic (pop key topics)
        ≡ (if text_eq key topic then none else get topic topics) =
      get-pop topic key topics in
    let stored : get topic (put key left topics)
        ≡ (if text_eq key topic then some left else get topic topics) =
      get-put topic key left topics in
    elim (Bool-cases (text_eq key topic)) [
      | inl same ↦
          let k = (text_eq_iff key topic).0 same in
          let m : or_zero (get key topics) ≡ 1 + n =
            subst (λ s. or_zero (get s topics) ≡ 1 + n) (sym k) (rw same at e) in
          let gone : get topic (pop key topics) ≡ none = rw same at popped in
          let kept : get topic (put key left topics) ≡ some left = rw same at stored in
          elim (Bool-cases (left == 0)) [
            | inl last ↦ rw last (ap or_zero gone ∙ only_one (or_zero (get key topics)) n m last)
            | inr more ↦ rw more (ap or_zero kept ∙ omega arith)
          ]
      | inr other ↦
          let m : or_zero (get topic topics) ≡ 0 + n = rw other at e in
          let gone : get topic (pop key topics) ≡ get topic topics = rw other at popped in
          let kept : get topic (put key left topics) ≡ get topic topics = rw other at stored in
          elim (Bool-cases (left == 0)) [
            | inl last ↦ rw last (ap or_zero gone ∙ omega arith)
            | inr more ↦ rw more (ap or_zero kept ∙ omega arith)
          ]
    ]

bit_one : (b : Bool) (n : ℕ) → bit b ≡ 1 + n → n ≡ 0
bit_one true n e = omega arith
bit_one false n e = absurd (omega arith)

has-discard_id :
    (pid : ℕ) (o : Option ℕ) (ids : List ℕ) (n : ℕ)
    → bit (has pid ids) ≡ bit (is_id pid o) + n
    → bit (has pid (discard_id o ids)) ≡ n
has-discard_id pid none ids n e = e ∙ omega arith
has-discard_id pid (some i) ids n e = elim (Bool-cases (i == pid)) [
  | inl same ↦
      let gone =
        subst (λ k. has k (discard i ids) ≡ false) ((==_iff i pid).0 same)
          (has-discard-same i ids) in
      ap bit gone ∙ sym (bit_one (has pid ids) n (rw same at e))
  | inr other ↦
      let apart : pid ≢ i = λ k. let same = (==_iff i pid).1 (sym k) in absurd (cc) in
      ap bit (has-discard-eq pid i ids apart) ∙ rw other at e ∙ omega arith
]

-- A message that is held is discarded.
pub discarded-IsBuffered :
    (size : ℕ) (p : Publish) (b : Buffered) (publishes : List Publish)
    (delivery : Option Delivering)
    → ((w : Publish → ℕ)
        → held_total w b.publishes b.delivery ≡ w p + held_total w publishes delivery)
    → IsBuffered size b
    → IsBuffered size (record (discard_publish p b) { publishes = publishes; delivery = delivery })
unfolding discard_publish
discarded-IsBuffered size p b publishes delivery less ok_b = record {
  counted = let c = ok_b.counted in let e = less one in omega arith;
  by_topic = λ topic.
      topics-discard p.topic b.topics topic (held_total (on_topic topic) publishes delivery)
        (ok_b.by_topic topic ∙ less (on_topic topic));
  identified = λ pid.
      has-discard_id pid p.packet_id b.packet_ids (held_total (of_id pid) publishes delivery)
        (ok_b.identified pid ∙ less (of_id pid));
  bounded = λ limited. let e = ok_b.bounded limited in omega arith;
}

-- A replay state whose buffer, if it has one, is as it should be
abbrev pub Held : ℕ → Replay → Type 0
Held size no_session_replay = Unit {0}
Held size persistent_idle = Unit {0}
Held size (persistent_buffered b) = IsBuffered size b

abbrev pub Leaves : ℕ → Result (Option InboundRecipient × Replay) → Type 0
Leaves size (err e) = Unit {0}
Leaves size (ok (recipient, replay)) = Held size replay

new_buffered-IsBuffered : (size : ℕ) → IsBuffered size new_buffered
unfolding get has total
new_buffered-IsBuffered size = record {
  counted = refl;
  by_topic = λ topic. refl;
  identified = λ pid. refl;
  bounded = λ limited. omega arith;
}

choose :
    (size : ℕ) (b : Bool) (x y : Result (Option InboundRecipient × Replay))
    → Leaves size x
    → Leaves size y
    → Leaves size (if b then x else y)
choose size true x y h k = h
choose size false x y h k = k

accept_buffered-Leaves :
    (size : ℕ) (p : Publish) (recipient : InboundRecipient) (b : Buffered)
    → IsBuffered size b
    → Leaves size (accept_buffered size p recipient b)
unfolding accept_buffered
accept_buffered-Leaves size p recipient b h =
    let direct : Bool =
      is_some recipient.request
      || (is_some recipient.subscription && not (is_some (get p.topic b.topics))) in
    let stays : Replay = persistent_buffered b in
    let buffered : Result (Option InboundRecipient × Replay) =
      ok (none, persistent_buffered (buffer_publish p b)) in
    let limited : Result (Option InboundRecipient × Replay) =
      if is_full size b then err protocol_error else buffered in
    let unheld : Leaves size
        (if held_id p.packet_id b.packet_ids then ok (none, stays) else limited) =
      (elim (Bool-cases (held_id p.packet_id b.packet_ids)) [
        | inl known ↦ rw known h
        | inr new ↦ rw new (elim (Bool-cases (is_full size b)) [
          | inl full ↦ rw full tt
          | inr room ↦ rw room (buffer_publish-IsBuffered size p b new room h)
        ])
      ]) in
    choose size direct (ok (some recipient, stays))
      (if held_id p.packet_id b.packet_ids then ok (none, stays) else limited) h unheld

-- If the counters of a replay state's buffer agree with its messages, and it has no more of them than
-- its limit, then what `accept` leaves is so too.
pub accept-Leaves :
    (size : ℕ) (p : Publish) (recipient : InboundRecipient) (replay : Replay)
    → Held size replay
    → Leaves size (accept size p recipient replay)
unfolding accept
accept-Leaves size p recipient no_session_replay h = tt
accept-Leaves size p recipient persistent_idle h =
    choose size (is_some recipient.request || is_some recipient.subscription)
      (ok (some recipient, persistent_idle)) (accept_buffered size p recipient new_buffered) tt
      (accept_buffered-Leaves size p recipient new_buffered (new_buffered-IsBuffered size))
accept-Leaves size p recipient (persistent_buffered b) h =
    accept_buffered-Leaves size p recipient b h
