-- ===== src/Inbound/Drain.antt =====
-- `drain`, `expire` and `_deliver_pending` of the replay buffer of inbound.py, cut where they await:
-- from one cut to the next nothing else runs. A run ends here when `clear` or `begin_session` puts its
-- buffer aside; what the code does with that buffer then is left out.
use fast_mqtt.Prelude.{ℕ, List, [], ◌∷◌, ◌++◌, Bool, true, false, ◌||◌, Option, none, some}
use fast_mqtt.Prelude.{◌==◌, if◌then◌else◌, Error, Result, ok, err, value_error, cancelled_error}
use fast_mqtt.Packet.{QoS, at_most_once, at_least_once, exactly_once, Publish}
use fast_mqtt.Subscription.{Item}
use fast_mqtt.Inbound.{
  InboundRecipient, Delivering, Buffered, Replay, no_session_replay, persistent_idle,
  persistent_buffered, InboundPublishFlow, Outcome,
}
use fast_mqtt.Inbound.Buffer.{discard_publish}
use fast_mqtt.Inbound.Flow.{select_recipient, deliver, deliver_qos1_publish, accept_qos2_publish}

abbrev pub new_delivering : Bool → Delivering
new_delivering expiring = record {
  expiring = expiring;
  unmatched = [];
  pending = [];
  current = none;
}

-- `async with self._delivery_lock`: a run that is under way holds the lock.
abbrev pub lock : Bool → Buffered → Option Delivering → Buffered
lock expiring b none = record b { delivery = some (new_delivering expiring) }
lock expiring b (some d) = b

abbrev pub locked : Bool → Replay → Replay
locked expiring no_session_replay = no_session_replay
locked expiring persistent_idle = persistent_idle
locked expiring (persistent_buffered b) = persistent_buffered (lock expiring b b.delivery)

-- The start of `drain`, or of `expire_replay`
unfoldable pub start_delivery : Bool → InboundPublishFlow → InboundPublishFlow
start_delivery expiring f = record f { replay = locked expiring f.replay }

abbrev pub holds : Buffered → Delivering → InboundPublishFlow → InboundPublishFlow
holds b d f = record f { replay = persistent_buffered (record b { delivery = some d }) }

-- The `finally` of `_deliver_pending`, and the release of the lock
abbrev pub released : Buffered → List Publish → List Publish → Buffered
released b unmatched pending = record b {
  publishes = unmatched ++ (pending ++ b.publishes);
  delivery = none;
}

-- The ends of `expire`, for true, and of `drain`
abbrev pub after_delivery : Bool → Buffered → Replay
after_delivery true b = if b.message_count == 0 then persistent_idle else no_session_replay
after_delivery false b = if b.message_count == 0 then persistent_idle else persistent_buffered b

abbrev qos1_replay : Option ℕ → InboundRecipient → InboundPublishFlow → Outcome
qos1_replay none recipient f = (err value_error, f)
qos1_replay (some pid) recipient f = deliver_qos1_publish pid recipient f

abbrev qos2_replay : Option ℕ → InboundRecipient → InboundPublishFlow → Outcome
qos2_replay none recipient f = (err value_error, f)
qos2_replay (some pid) recipient f = accept_qos2_publish pid recipient f

abbrev pub replay_by_qos : QoS → Option ℕ → InboundRecipient → InboundPublishFlow → Outcome
replay_by_qos at_most_once pid recipient f = (ok tt, deliver recipient none f)
replay_by_qos at_least_once pid recipient f = qos1_replay pid recipient f
replay_by_qos exactly_once pid recipient f = qos2_replay pid recipient f

-- `deliver_replay`
unfoldable pub deliver_replay : Publish → InboundRecipient → InboundPublishFlow → Outcome
unfolding deliver deliver_qos1_publish accept_qos2_publish
deliver_replay publish recipient f = replay_by_qos publish.qos publish.packet_id recipient f

-- No recipient, or a subscription whose queue is full
abbrev pub stays : Bool → Option ℕ → Option Item → Bool
stays full (some request) subscription = false
stays full none none = true
stays full none (some item) = full

-- `except Exception` of `_expire_after_timeout`, which closes the connection; a cancelled task ends.
abbrev pub aborts : Bool → Error → Bool
aborts expiring cancelled_error = false
aborts expiring e = expiring

-- A message that is taken off `pending`, by what `select_recipient` answers
abbrev pub offer :
    Bool
    → Buffered
    → Delivering
    → Publish
    → Result InboundRecipient
    → InboundPublishFlow
    → InboundPublishFlow
offer full b d publish (err e) f = record f {
  replay = persistent_buffered (released b d.unmatched d.pending);
  aborted = f.aborted || aborts d.expiring e;
}
offer full b d publish (ok recipient) f =
    if stays full recipient.request recipient.subscription
    then holds b (record d { unmatched = d.unmatched ++ publish ∷ [] }) f
    else (deliver_replay publish recipient (holds b (record d { current = some publish }) f)).1

-- A turn of the loops, by the message that is awaited, `pending` and `self._publishes`
abbrev pub turn_by :
    Option ℕ
    → Bool
    → Buffered
    → Delivering
    → Option Publish
    → List Publish
    → List Publish
    → InboundPublishFlow
    → InboundPublishFlow
turn_by claimed full b d (some publish) pending publishes f = f
turn_by claimed full b d none (publish ∷ pending) publishes f =
    offer full b (record d { pending = pending }) publish (select_recipient claimed publish f) f
turn_by claimed full b d none [] (publish ∷ publishes) f =
    holds (record b { publishes = [] }) (record d { pending = publish ∷ publishes }) f
turn_by claimed full b d none [] [] f = record f {
  replay = after_delivery d.expiring (released b d.unmatched []);
}

abbrev pub turn_of :
    Option ℕ → Bool → Buffered → Option Delivering → InboundPublishFlow → InboundPublishFlow
turn_of claimed full b none f = f
turn_of claimed full b (some d) f = turn_by claimed full b d d.current d.pending b.publishes f

abbrev pub turn_in : Option ℕ → Bool → Replay → InboundPublishFlow → InboundPublishFlow
turn_in claimed full no_session_replay f = f
turn_in claimed full persistent_idle f = f
turn_in claimed full (persistent_buffered b) f = turn_of claimed full b b.delivery f

-- A turn of `_deliver_pending`. `claimed` is the answer of the request router, and `full` is
-- `queue.full()` of the subscription that is selected.
unfoldable pub deliver_turn : Option ℕ → Bool → InboundPublishFlow → InboundPublishFlow
unfolding deliver_replay
deliver_turn claimed full f = turn_in claimed full f.replay f

abbrev pub resume_at :
    Result (Unit {0})
    → Buffered
    → Delivering
    → Option Publish
    → InboundPublishFlow
    → InboundPublishFlow
resume_at r b d none f = f
resume_at (ok _) b d (some publish) f =
    holds (discard_publish publish b) (record d { current = none }) f
resume_at (err e) b d (some publish) f = record f {
  replay = persistent_buffered (released b (d.unmatched ++ publish ∷ []) d.pending);
  aborted = f.aborted || aborts d.expiring e;
}

abbrev pub resume_of :
    Result (Unit {0}) → Buffered → Option Delivering → InboundPublishFlow → InboundPublishFlow
resume_of r b none f = f
resume_of r b (some d) f = resume_at r b d d.current f

abbrev pub resume_in : Result (Unit {0}) → Replay → InboundPublishFlow → InboundPublishFlow
resume_in r no_session_replay f = f
resume_in r persistent_idle f = f
resume_in r (persistent_buffered b) f = resume_of r b b.delivery f

-- `deliver_replay` has returned, or has raised, to `_deliver_pending` that awaits it.
unfoldable pub resume : Result (Unit {0}) → InboundPublishFlow → InboundPublishFlow
unfolding discard_publish
resume r f = resume_in r f.replay f
