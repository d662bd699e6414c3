-- ===== src/State/PacketIds.antt =====
-- `PacketIdPool` of state.py: the search for an identifier, and the invariant of the pool.
use fast_mqtt.Prelude.{
  has, ℕ, zero, suc, ◌+◌, ◌-◌, ◌≤◌, ◌<◌, ◌≡◌, ◌≢◌, refl, sym, subst, List, [], ◌∷◌, Bool, true,
  false, arith, ◌⊎◌, inl, inr, Bool-cases,
}
use fast_mqtt.Prelude.{
  length, ltb, leb, ltb→lt, ◌==◌, if◌then◌else◌, Result, ok, err, runtime_error, out_of_fuel,
}
use fast_mqtt.State.{PacketIdPool, discard, after, find_unused, new_pool, acquire, release}

pub after-below : (pid : ℕ) → 1 ≤ pid → pid < 65535 → after pid ≡ pid + 1
after-below pid one h = omega arith

pub after-bounds : (pid : ℕ) → (1 ≤ after pid) × (after pid ≤ 65535)
after-bounds pid = (omega arith, omega arith)

has-discard-other :
    (i pid : ℕ) (used : List ℕ) → i ≢ pid → has i used ≡ true → has i (discard pid used) ≡ true
unfolding has discard
has-discard-other i pid [] other h = h
has-discard-other i pid (x ∷ used) other h =
    let rest = has-discard-other i pid used other in ground arith

pub has-discard-same : (pid : ℕ) (used : List ℕ) → has pid (discard pid used) ≡ false
unfolding has discard
has-discard-same pid [] = refl
has-discard-same pid (x ∷ used) = let rest = has-discard-same pid used in ground arith

length-discard_le : (pid : ℕ) (used : List ℕ) → length (discard pid used) ≤ length used
unfolding discard
length-discard_le pid [] = omega arith
length-discard_le pid (x ∷ used) = let rest = length-discard_le pid used in ground arith

pub length-discard_lt :
    (pid : ℕ) (used : List ℕ) → has pid used ≡ true → length (discard pid used) < length used
unfolding has discard
length-discard_lt pid [] h = absurd (cc)
length-discard_lt pid (x ∷ used) h =
    let le = length-discard_le pid used in let rest = length-discard_lt pid used in ground arith

-- A list that has 1, ..., k is at least as long as k.
pigeonhole :
    (k : ℕ) (used : List ℕ) → ((i : ℕ) → 1 ≤ i → i ≤ k → has i used ≡ true) → k ≤ length used
pigeonhole zero used all = omega arith
pigeonhole (suc k) used all =
    let shorter = length-discard_lt (suc k) used (all (suc k) (omega arith) (omega arith)) in
    let rest =
      pigeonhole k (discard (suc k) used) (λ i one h.
        has-discard-other i (suc k) used (λ e. omega arith) (all i one (omega arith))) in
    omega arith

-- A search that gives up has seen every identifier that it passed: first those from where it began.
seen_above :
    (rounds next i : ℕ) (used : List ℕ)
    → find_unused rounds next used ≡ err out_of_fuel
    → 1 ≤ next
    → next ≤ i
    → i ≤ 65535
    → i - next < rounds
    → has i used ≡ true
unfolding find_unused
seen_above zero next i used h one le top fuel = absurd (omega arith)
seen_above (suc rounds) next i used h one le top fuel = elim (Bool-cases (has next used)) [
  | inl there ↦ elim (Bool-cases (next == i)) [
    | inl same ↦ let eq : next ≡ i = ground arith in subst (λ n. has n used ≡ true) eq there
    | inr other ↦
        let below : next < i = ground arith in
        let step = after-below next one (omega arith) in
        seen_above rounds (after next) i used (rw there at h) (omega arith) (omega arith) top
          (omega arith)
  ]
  | inr free ↦ let stopped = rw free at h in absurd (cc)
]

-- Then those below it.
seen_below :
    (rounds next i : ℕ) (used : List ℕ)
    → find_unused rounds next used ≡ err out_of_fuel
    → 1 ≤ i
    → i < next
    → next ≤ 65535
    → 65535 - next + i < rounds
    → has i used ≡ true
unfolding find_unused
seen_below zero next i used h one lt top fuel = absurd (omega arith)
seen_below (suc rounds) next i used h one lt top fuel = elim (Bool-cases (has next used)) [
  | inl there ↦ elim (Bool-cases (next == 65535)) [
    | inl last ↦
        let eq : next ≡ 65535 = ground arith in
        let step : after next ≡ 1 = omega arith in
        seen_above rounds (after next) i used (rw there at h) (omega arith) (omega arith)
          (omega arith) (omega arith)
    | inr other ↦
        let below : next < 65535 = ground arith in
        let step = after-below next (omega arith) below in
        seen_below rounds (after next) i used (rw there at h) one (omega arith) (omega arith)
          (omega arith)
  ]
  | inr free ↦ let stopped = rw free at h in absurd (cc)
]

-- So it gives up only on a full set.
find_unused-full :
    (next : ℕ) (used : List ℕ)
    → 1 ≤ next
    → next ≤ 65535
    → find_unused 65535 next used ≡ err out_of_fuel
    → 65535 ≤ length used
find_unused-full next used one top h = pigeonhole 65535 used λ i low high.
    elim (Bool-cases (ltb i next)) [
      | inl before ↦ seen_below 65535 next i used h low (ground arith) top (ground arith)
      | inr later ↦ seen_above 65535 next i used h one (ground arith) high (ground arith)
    ]

-- What it finds is free, and it raises nothing.
find_unused_lem :
    (rounds next : ℕ) (used : List ℕ) (r : Result ℕ)
    → find_unused rounds next used ≡ r
    → 1 ≤ next
    → next ≤ 65535
    → ((pid : ℕ) × (r ≡ ok pid) × (1 ≤ pid) × (pid ≤ 65535) × (has pid used ≡ false))
      ⊎ (r ≡ err out_of_fuel)
unfolding find_unused
find_unused_lem zero next used r h one top = inr (sym h)
find_unused_lem (suc rounds) next used r h one top = elim (Bool-cases (has next used)) [
  | inl there ↦
      let (low, high) = after-bounds next in
      find_unused_lem rounds (after next) used r (rw there at h) low high
  | inr free ↦ inl (next, sym (rw free at h), one, top, free)
]

pub data IsUnique : List ℕ → Type 0 where
  unique_nil : IsUnique []
  unique_cons :
      {pid : ℕ} {used : List ℕ} → has pid used ≡ false → IsUnique used → IsUnique (pid ∷ used)

le→leb : (a b : ℕ) → a ≤ b → leb a b ≡ true
le→leb a b h = ground arith

pub lt→leb : (a b : ℕ) → a < b → leb b a ≡ false
lt→leb a b h = ground arith

-- The pool is a set of identifiers, and the next one to try is an identifier.
pub record IsPool (pool : PacketIdPool) : Type 0 where
  pub next_low : 1 ≤ pool.next
  pub next_high : pool.next ≤ 65535
  pub identifiers : (i : ℕ) → has i pool.in_use ≡ true → (1 ≤ i) × (i ≤ 65535)
  pub unique : IsUnique pool.in_use

pub new_pool-IsPool : IsPool new_pool
unfolding new_pool has
new_pool-IsPool = record {
  next_low = omega arith;
  next_high = omega arith;
  identifiers = λ i h. absurd (cc);
  unique = unique_nil;
}

has-cons :
    (pid i : ℕ) (used : List ℕ)
    → 1 ≤ pid
    → pid ≤ 65535
    → (has i used ≡ true → (1 ≤ i) × (i ≤ 65535))
    → has i (pid ∷ used) ≡ true
    → (1 ≤ i) × (i ≤ 65535)
unfolding has
has-cons pid i used low high rest h = elim (Bool-cases (i == pid)) [
  | inl same ↦ (ground arith, ground arith)
  | inr other ↦ rest (rw other at h)
]

-- A valid pool that is not full gives out an identifier from 1 to 65535 that was not in use, marks
-- it as in use and no other, and stays valid; a full one raises RuntimeError.
pub acquire_lem :
    (pool : PacketIdPool)
    → IsPool pool
    → (65535 ≤ length pool.in_use → acquire pool ≡ err runtime_error)
      × (length pool.in_use < 65535
          → (pid : ℕ) × (pool' : PacketIdPool) × (acquire pool ≡ ok (pid, pool'))
            × ((1 ≤ pid) × (pid ≤ 65535))
            × (has pid pool.in_use ≡ false)
            × (pool'.in_use ≡ pid ∷ pool.in_use)
            × IsPool pool')
unfolding acquire
acquire_lem pool valid = (
  λ full. rw (le→leb 65535 (length pool.in_use) full) refl,
  λ room.
      elim (find_unused_lem 65535 pool.next pool.in_use (find_unused 65535 pool.next pool.in_use)
        refl valid.next_low valid.next_high) [
          | inl (pid, found, low, high, free) ↦
              let pool' : PacketIdPool = record { next = after pid; in_use = pid ∷ pool.in_use } in
              (
                pid,
                pool',
                rw (lt→leb (length pool.in_use) 65535 room, found) refl,
                (low, high),
                free,
                refl,
                record {
                  next_low = (after-bounds pid).0;
                  next_high = (after-bounds pid).1;
                  identifiers = λ i. has-cons pid i pool.in_use low high (valid.identifiers i);
                  unique = unique_cons free valid.unique;
                },
              )
          | inr gave_up ↦
              let full =
                find_unused-full pool.next pool.in_use valid.next_low valid.next_high gave_up in
              absurd (omega arith)
        ],
)

has-discard : (i pid : ℕ) (used : List ℕ) → has i (discard pid used) ≡ true → has i used ≡ true
unfolding has discard
has-discard i pid [] h = h
has-discard i pid (x ∷ used) h = let rest = has-discard i pid used in ground arith

IsUnique-discard : (pid : ℕ) (used : List ℕ) → IsUnique used → IsUnique (discard pid used)
unfolding discard
IsUnique-discard pid [] u = u
IsUnique-discard pid (x ∷ used) (unique_cons fresh u) = elim (Bool-cases (pid == x)) [
  | inl same ↦ rw same (IsUnique-discard pid used u)
  | inr other ↦ rw other (
      unique_cons (still_fresh (Bool-cases (has x (discard pid used))))
        (IsUnique-discard pid used u))
]
  where
    still_fresh :
        (has x (discard pid used) ≡ true) ⊎ (has x (discard pid used) ≡ false)
        → has x (discard pid used) ≡ false
    still_fresh (inl there) = let here = has-discard x pid used there in absurd (cc)
    still_fresh (inr not_there) = not_there

pub has-discard-eq : (i pid : ℕ) (used : List ℕ) → i ≢ pid → has i (discard pid used) ≡ has i used
unfolding has discard
has-discard-eq i pid [] other = refl
has-discard-eq i pid (x ∷ used) other = let rest = has-discard-eq i pid used other in ground arith

-- If a pool is valid and the identifier at least 1, releasing the identifier makes it free, leaves
-- the others as they were, and keeps the pool valid.
pub release_lem :
    (pid : ℕ) (pool : PacketIdPool)
    → IsPool pool
    → 1 ≤ pid
    → IsPool (release pid pool)
      × (has pid (release pid pool).in_use ≡ false)
      × ((i : ℕ) → i ≢ pid → has i (release pid pool).in_use ≡ has i pool.in_use)
unfolding release
release_lem pid pool valid low = (
  record {
    next_low = least_low (ltb pid pool.next);
    next_high = least_high (Bool-cases (ltb pid pool.next));
    identifiers = λ i h. valid.identifiers i (has-discard i pid pool.in_use h);
    unique = IsUnique-discard pid pool.in_use valid.unique;
  },
  has-discard-same pid pool.in_use,
  λ i other. has-discard-eq i pid pool.in_use other,
)
  where
    least_low : (b : Bool) → 1 ≤ (if b then pid else pool.next)
    least_low true = low
    least_low false = valid.next_low

    least_high :
        (ltb pid pool.next ≡ true) ⊎ (ltb pid pool.next ≡ false)
        → (if ltb pid pool.next then pid else pool.next) ≤ 65535
    least_high (inl less) = rw less (omega (arith, ltb→lt pid pool.next less, valid.next_high))
    least_high (inr more) = rw more valid.next_high
