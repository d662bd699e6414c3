-- ===== src/Protocol/Balance.antt =====
-- The packet identifiers in use, and the flights and requests that hold them.
use fast_mqtt.Prelude.{
  ℕ, ◌+◌, ◌≤◌, ◌≡◌, ◌≢◌, refl, ap, sym, ◌∙◌, subst, List, ◌∷◌, true, false, Option, none, some,
  arith, inl, inr, Bool-cases, has,
}
use fast_mqtt.Prelude.{length, leb, ◌==◌, if◌then◌else◌, ok, ok-injective}
use fast_mqtt.Dict.{Dict, number_eq, get, put, pop, get-put, get-pop}
use fast_mqtt.Property.Block.{bit}
use fast_mqtt.State.{PacketIdPool, acquire, release}
use fast_mqtt.State.PacketIds.{IsPool, acquire_lem, release_lem}
use fast_mqtt.Protocol.{QoS1Flight, OutboundQoS2Flight, SessionState}

abbrev pub count {ℓ} : {A : Type ℓ} → Option A → ℕ
count none = 0
count (some a) = 1

-- How many flights and requests hold an identifier.
abbrev pub claims : ℕ → SessionState → ℕ
claims i s =
    count (get i s.inflight_qos1)
    + count (get i s.inflight_qos2_out)
    + count (get i s.pending_subs)
    + count (get i s.pending_unsubs)

-- Every identifier in use is held once, and no other is held.
pub record IsSession (s : SessionState) : Type 0 where
  pub pool : IsPool s.packet_ids
  pub balanced : (i : ℕ) → claims i s ≡ bit (has i s.packet_ids.in_use)

pub acquired :
    (pool pool' : PacketIdPool) (pid : ℕ)
    → IsPool pool
    → acquire pool ≡ ok (pid, pool')
    → (has pid pool.in_use ≡ false) × (pool'.in_use ≡ pid ∷ pool.in_use) × IsPool pool'
acquired pool pool' pid valid h =
    let (full, room) = acquire_lem pool valid in
    elim (Bool-cases (leb 65535 (length pool.in_use))) [
      | inl is_full ↦ let no = full (ground arith) in absurd (cc)
      | inr not_full ↦
          let (pid₁, pool₁, e, _, free, used, valid₁) = room (ground arith) in
          subst (λ q. (has q.0 pool.in_use ≡ false) × (q.1.in_use ≡ q.0 ∷ pool.in_use) × IsPool q.1)
            (ok-injective (sym e ∙ h)) (free, used, valid₁)
    ]

count-put {ℓ} :
    {V : Type ℓ} (i pid : ℕ) (v : V) (d : Dict ℕ V)
    → count (get i (put pid v d)) ≡ (if pid == i then 1 else count (get i d))
count-put i pid v d = elim (Bool-cases (pid == i)) [
  | inl same ↦ ap count (get-put i pid v d) ∙ rw same refl
  | inr other ↦ ap count (get-put i pid v d) ∙ rw other refl
]

count-pop {ℓ} :
    {V : Type ℓ} (i pid : ℕ) (d : Dict ℕ V)
    → count (get i (pop pid d)) ≡ (if pid == i then 0 else count (get i d))
count-pop i pid d = elim (Bool-cases (pid == i)) [
  | inl same ↦ ap count (get-pop i pid d) ∙ rw same refl
  | inr other ↦ ap count (get-pop i pid d) ∙ rw other refl
]

-- An identifier is taken: the counts at it go from 0 to 1.
one_more :
    (i pid : ℕ) (used : List ℕ) (before more : ℕ)
    → has pid used ≡ false
    → before ≡ bit (has i used)
    → (before ≡ 0 → more ≡ (if pid == i then 1 else 0))
    → (pid == i ≡ false → more ≡ before)
    → more ≡ bit (has i (pid ∷ used))
unfolding has
one_more i pid used before more free h at_pid elsewhere = elim (Bool-cases (pid == i)) [
  | inl same ↦
      let unused : has i used ≡ false = subst (λ j. has j used ≡ false) (ground arith) free in
      let one = at_pid (ground arith) in ground arith
  | inr other ↦ let kept = elsewhere other in ground arith
]

-- An identifier is given back: the counts at it go from 1 to 0.
one_less :
    (i pid : ℕ) (used rest : List ℕ) (before less : ℕ)
    → before ≡ bit (has i used)
    → has pid rest ≡ false
    → (i ≢ pid → has i rest ≡ has i used)
    → (pid == i ≡ true → before ≤ 1 → less ≡ 0)
    → (pid == i ≡ false → less ≡ before)
    → less ≡ bit (has i rest)
one_less i pid used rest before less h gone others at_pid elsewhere = elim (Bool-cases (pid == i)) [
  | inl same ↦
      let unused : has i rest ≡ false = subst (λ j. has j rest ≡ false) (ground arith) gone in
      let none_left = at_pid same (ground arith) in ground arith
  | inr other ↦
      let kept = elsewhere other in let same_use = others (λ e. ground arith) in ground arith
]

-- One dictionary gains an identifier that was free.
module _ (s : SessionState) (v : IsSession s) (pid : ℕ) (pool : PacketIdPool)
    (taken : acquire s.packet_ids ≡ ok (pid, pool)) where
  pub open_qos1-IsSession :
      (f : QoS1Flight)
      → IsSession (record s { packet_ids = pool; inflight_qos1 = put pid f s.inflight_qos1 })
  open_qos1-IsSession f =
      let (free, used, valid) = acquired s.packet_ids pool pid v.pool taken in
      record {
        pool = valid;
        balanced = λ i.
            let counted = count-put i pid f s.inflight_qos1 in
            rw used (
              one_more i pid s.packet_ids.in_use (claims i s) _ free (v.balanced i)
                (λ none_held. ground arith) (λ other. ground arith));
      }

  pub open_qos2-IsSession :
      (f : OutboundQoS2Flight)
      → IsSession
          (record s { packet_ids = pool; inflight_qos2_out = put pid f s.inflight_qos2_out })
  open_qos2-IsSession f =
      let (free, used, valid) = acquired s.packet_ids pool pid v.pool taken in
      record {
        pool = valid;
        balanced = λ i.
            let counted = count-put i pid f s.inflight_qos2_out in
            rw used (
              one_more i pid s.packet_ids.in_use (claims i s) _ free (v.balanced i)
                (λ none_held. ground arith) (λ other. ground arith));
      }

  pub open_sub-IsSession :
      (f : ℕ) → IsSession (record s { packet_ids = pool; pending_subs = put pid f s.pending_subs })
  open_sub-IsSession f =
      let (free, used, valid) = acquired s.packet_ids pool pid v.pool taken in
      record {
        pool = valid;
        balanced = λ i.
            let counted = count-put i pid f s.pending_subs in
            rw used (
              one_more i pid s.packet_ids.in_use (claims i s) _ free (v.balanced i)
                (λ none_held. ground arith) (λ other. ground arith));
      }

  pub open_unsub-IsSession :
      (f : ℕ)
      → IsSession (record s { packet_ids = pool; pending_unsubs = put pid f s.pending_unsubs })
  open_unsub-IsSession f =
      let (free, used, valid) = acquired s.packet_ids pool pid v.pool taken in
      record {
        pool = valid;
        balanced = λ i.
            let counted = count-put i pid f s.pending_unsubs in
            rw used (
              one_more i pid s.packet_ids.in_use (claims i s) _ free (v.balanced i)
                (λ none_held. ground arith) (λ other. ground arith));
      }

one_held {ℓ} :
    {V : Type ℓ} (i pid : ℕ) (d : Dict ℕ V) {v : V}
    → get pid d ≡ some v
    → pid == i ≡ true
    → count (get i d) ≡ 1
one_held i pid d held same = subst (λ j. count (get j d) ≡ 1) (ground arith) (ap count held)

-- An identifier that something holds is in use, so it is at least 1.
held_low : (s : SessionState) → IsSession s → (pid : ℕ) → 1 ≤ claims pid s → 1 ≤ pid
held_low s v pid held = let b = v.balanced pid in (v.pool.identifiers pid (ground arith)).0

-- One dictionary loses an identifier that it had.
module _ (s : SessionState) (v : IsSession s) (pid : ℕ) where
  pub close_qos1-IsSession :
      {f : QoS1Flight}
      → get pid s.inflight_qos1 ≡ some f
      → IsSession (record s {
        packet_ids = release pid s.packet_ids;
        inflight_qos1 = pop pid s.inflight_qos1;
      })
  close_qos1-IsSession held =
      let one = ap count held in
      let (valid, gone, others) =
        release_lem pid s.packet_ids v.pool (held_low s v pid (omega arith)) in
      record {
        pool = valid;
        balanced = λ i.
            let counted = count-pop i pid s.inflight_qos1 in
            one_less i pid s.packet_ids.in_use (release pid s.packet_ids).in_use (claims i s) _
              (v.balanced i) gone (others i)
              (λ same le. let at_i = one_held i pid s.inflight_qos1 held same in ground arith)
              (λ other. ground arith);
      }

  pub close_qos2-IsSession :
      {f : OutboundQoS2Flight}
      → get pid s.inflight_qos2_out ≡ some f
      → IsSession (record s {
        packet_ids = release pid s.packet_ids;
        inflight_qos2_out = pop pid s.inflight_qos2_out;
      })
  close_qos2-IsSession held =
      let one = ap count held in
      let (valid, gone, others) =
        release_lem pid s.packet_ids v.pool (held_low s v pid (omega arith)) in
      record {
        pool = valid;
        balanced = λ i.
            let counted = count-pop i pid s.inflight_qos2_out in
            one_less i pid s.packet_ids.in_use (release pid s.packet_ids).in_use (claims i s) _
              (v.balanced i) gone (others i)
              (λ same le. let at_i = one_held i pid s.inflight_qos2_out held same in ground arith)
              (λ other. ground arith);
      }

  pub close_sub-IsSession :
      {f : ℕ}
      → get pid s.pending_subs ≡ some f
      → IsSession (record s {
        packet_ids = release pid s.packet_ids;
        pending_subs = pop pid s.pending_subs;
      })
  close_sub-IsSession held =
      let one = ap count held in
      let (valid, gone, others) =
        release_lem pid s.packet_ids v.pool (held_low s v pid (omega arith)) in
      record {
        pool = valid;
        balanced = λ i.
            let counted = count-pop i pid s.pending_subs in
            one_less i pid s.packet_ids.in_use (release pid s.packet_ids).in_use (claims i s) _
              (v.balanced i) gone (others i)
              (λ same le. let at_i = one_held i pid s.pending_subs held same in ground arith)
              (λ other. ground arith);
      }

  pub close_unsub-IsSession :
      {f : ℕ}
      → get pid s.pending_unsubs ≡ some f
      → IsSession (record s {
        packet_ids = release pid s.packet_ids;
        pending_unsubs = pop pid s.pending_unsubs;
      })
  close_unsub-IsSession held =
      let one = ap count held in
      let (valid, gone, others) =
        release_lem pid s.packet_ids v.pool (held_low s v pid (omega arith)) in
      record {
        pool = valid;
        balanced = λ i.
            let counted = count-pop i pid s.pending_unsubs in
            one_less i pid s.packet_ids.in_use (release pid s.packet_ids).in_use (claims i s) _
              (v.balanced i) gone (others i)
              (λ same le. let at_i = one_held i pid s.pending_unsubs held same in ground arith)
              (λ other. ground arith);
      }

-- A flight that is there changes.
pub change_qos2-IsSession :
    (s : SessionState)
    → IsSession s
    → (pid : ℕ) {f : OutboundQoS2Flight} (g : OutboundQoS2Flight)
    → get pid s.inflight_qos2_out ≡ some f
    → IsSession (record s { inflight_qos2_out = put pid g s.inflight_qos2_out })
change_qos2-IsSession s v pid g held = record {
  pool = v.pool;
  balanced = λ i.
      let counted = count-put i pid g s.inflight_qos2_out in
      let before = v.balanced i in
      elim (Bool-cases (pid == i)) [
        | inl same ↦ let at_i = one_held i pid s.inflight_qos2_out held same in ground arith
        | inr other ↦ ground arith
      ];
}
