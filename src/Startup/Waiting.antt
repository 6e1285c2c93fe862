-- ===== src/Startup/Waiting.antt =====
-- `waitForPeerConnections` of src/startup/loops.ts. The connections at the n-th test of the loop are an
-- argument, and so is how late each step comes: the first test behind the start, and the test behind
-- each timer of 500 ms.
use ipfs_shard.Shared.{
  ℕ, zero, suc, ◌+◌, ◌*◌, ◌≤◌, ◌<◌, Bool, true, false, Option, some, ltb, ltb→lt, lt→ltb, ltb-false,
  ◌≡◌, refl, ◌∙◌, ◌⊎◌, inl, inr, arith, Bool-cases, if◌then◌else◌,
}
use ipfs_shard.Shared.Loop.{Round, next, stop, loop, loop-next, loop-stop}

-- `looks` counts the timers that were awaited, and `clock` is `Date.now()` at the test.
pub record Waiting : Type 0 where
  pub looks : ℕ
  pub connected : Bool
  pub clock : ℕ

abbrev pub poll_interval : ℕ
poll_interval = 500

-- One round: `now - start < max_wait`, over whole numbers, then the look at the connections, and the
-- timer if there are none.
unfoldable pub wait_body : (ℕ → ℕ) → (ℕ → ℕ) → (start max_wait : ℕ) → Waiting → Round Waiting
wait_body late connections start max_wait w =
    if ltb w.clock (start + max_wait)
    then if ltb 0 (connections w.looks)
      then stop (record w { connected = true })
      else next
          (record w { looks = suc w.looks; clock = w.clock + poll_interval + late (suc w.looks) })
    else stop w

unfoldable pub wait_for_peer_connections :
    ℕ → (ℕ → ℕ) → (ℕ → ℕ) → (start max_wait : ℕ) → Option Waiting
unfolding wait_body
wait_for_peer_connections fuel late connections start max_wait =
    loop fuel (wait_body late connections start max_wait)
      (record { looks = 0; connected = false; clock = start + late 0 })

module _ (late connections : ℕ → ℕ) (start max_wait : ℕ) where
  -- At the first `n` looks nobody was connected.
  abbrev pub Nobody : ℕ → Type 0
  Nobody zero = Unit
  Nobody (suc n) = (connections n ≡ 0) × Nobody n

  -- How the loop may end: at the first look that finds a connection, or after the time, within the
  -- number of looks, each at least 500 ms behind the one before.
  abbrev pub Ended : Waiting → Type 0
  Ended w =
      ((500 * w.looks < max_wait + 500) × (start + 500 * w.looks ≤ w.clock))
      × (Nobody w.looks
          × (((w.connected ≡ true) × ((0 < connections w.looks) × (w.clock < start + max_wait)))
              ⊎ ((w.connected ≡ false) × (start + max_wait ≤ w.clock))))

  abbrev looking : ℕ → ℕ → Waiting
  looking n t = record { looks = n; connected = false; clock = t }

  body_late :
      (n t : ℕ)
      → start + max_wait ≤ t
      → wait_body late connections start max_wait (looking n t) ≡ stop (looking n t)
  unfolding wait_body
  body_late n t h = rw (ltb-false t (start + max_wait) h) refl

  body_connected :
      (n t : ℕ)
      → t < start + max_wait
      → 0 < connections n
      → wait_body late connections start max_wait (looking n t)
        ≡ stop (record { looks = n; connected = true; clock = t })
  unfolding wait_body
  body_connected n t h c = rw (lt→ltb t (start + max_wait) h, lt→ltb 0 (connections n) c) refl

  body_waits :
      (n t : ℕ)
      → t < start + max_wait
      → connections n ≤ 0
      → wait_body late connections start max_wait (looking n t)
        ≡ next (looking (suc n) (t + 500 + late (suc n)))
  unfolding wait_body
  body_waits n t h c = rw (lt→ltb t (start + max_wait) h, ltb-false 0 (connections n) c) refl

  waits :
      (fuel n t : ℕ)
      → start + 500 * n ≤ t
      → 500 * n < max_wait + 500
      → max_wait + 500 ≤ 500 * (n + fuel)
      → Nobody n
      → (r : Waiting) × ((loop fuel (wait_body late connections start max_wait) (looking n t)
            ≡ some r)
          × Ended r)
  waits zero n t behind soon enough nobody = absurd (omega arith)
  waits (suc fuel) n t behind soon enough nobody = elim (Bool-cases (ltb t (start + max_wait))) [
    | inr over ↦
        let after : start + max_wait ≤ t = ground (arith, over) in
        (
          looking n t,
          (
            loop-stop fuel (wait_body late connections start max_wait) _ _ (body_late n t after),
            ((soon, behind), (nobody, inr (refl, after))),
          ),
        )
    | inl inside ↦
        let before = ltb→lt t (start + max_wait) inside in
        elim (Bool-cases (ltb 0 (connections n))) [
          | inl some_peer ↦
              let there = ltb→lt 0 (connections n) some_peer in
              (
                record { looks = n; connected = true; clock = t },
                (
                  loop-stop fuel (wait_body late connections start max_wait) _ _
                      (body_connected n t before there),
                  ((soon, behind), (nobody, inl (refl, (there, before)))),
                ),
              )
          | inr empty ↦
              let none_there : connections n ≤ 0 = ground (arith, empty) in
              let (r, (ends, ended)) =
                waits fuel (suc n) (t + 500 + late (suc n)) (omega (arith, behind))
                  (omega (arith, behind, before)) (omega (arith, enough))
                  (omega (arith, none_there), nobody) in
              (
                r,
                (
                  loop-next fuel (wait_body late connections start max_wait) _ _
                        (body_waits n t before none_there)
                      ∙ ends,
                  ended,
                ),
              )
        ]
  ]

  -- The loop ends, on any fuel of more than a five hundredth of the waiting time, after fewer than
  -- `max_wait / 500 + 1` timers of 500 ms or more: at the first look within the time that finds a
  -- connection, or, where no look finds one, when the time is over. For the 30 s of the program these are
  -- at most 60 timers.
  pub wait_for_peer_connections-Ended :
      (fuel : ℕ)
      → max_wait + 500 ≤ 500 * fuel
      → (r : Waiting) × ((wait_for_peer_connections fuel late connections start max_wait ≡ some r)
          × Ended r)
  unfolding wait_for_peer_connections
  wait_for_peer_connections-Ended fuel enough =
      waits fuel 0 (start + late 0) (omega arith) (omega arith) (omega (arith, enough)) tt
