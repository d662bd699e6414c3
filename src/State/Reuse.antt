-- ===== src/State/Reuse.antt =====
-- `PacketIdPool` of state.py: an identifier that is released and acquired again.
use fast_mqtt.Prelude.{ℕ, suc, ◌≡◌, ◌≤◌, ◌<◌, refl, List, ◌∷◌, true, false, has, arith}
use fast_mqtt.Prelude.{length, ltb, if◌then◌else◌, ok}
use fast_mqtt.State.{PacketIdPool, discard, after, find_unused, acquire, release}
use fast_mqtt.State.PacketIds.{has-discard-same, length-discard_lt, lt→leb}

find_unused-free :
    (rounds next : ℕ) (used : List ℕ)
    → has next used ≡ false
    → find_unused (suc rounds) next used ≡ ok next
unfolding find_unused
find_unused-free rounds next used free = rw free refl

least : (pid next : ℕ) → pid ≤ next → (if ltb pid next then pid else next) ≡ pid
least pid next h = ground arith

-- If an identifier is in use and not past the next one to try, in a pool of at most 65535, then
-- after its release it is the next one that is acquired, and the others in use are as they were.
pub acquire-release :
    (pid : ℕ) (pool : PacketIdPool)
    → has pid pool.in_use ≡ true
    → pid ≤ pool.next
    → length pool.in_use ≤ 65535
    → acquire (release pid pool)
      ≡ ok (pid, record { next = after pid; in_use = pid ∷ discard pid pool.in_use })
unfolding acquire release
acquire-release pid pool used low size =
    let room : length (discard pid pool.in_use) < 65535 =
      omega (arith, length-discard_lt pid pool.in_use used, size) in
    rw
      (
        lt→leb (length (discard pid pool.in_use)) 65535 room,
        least pid pool.next low,
        find_unused-free 65534 pid (discard pid pool.in_use) (has-discard-same pid pool.in_use),
      )
      refl
