-- ===== src/Llm/RateLimit/Permits.antt =====
-- How many calls app/llm/rate_limit.py permits in a stretch of time and in a day.
use map_service_agent.Prelude.{
  ℕ, ◌+◌, ◌-◌, ◌*◌, ◌≤◌, ◌≡◌, false, refl, Option, none, some, List, [], ◌∷◌, arith, ltb, leb, ◌==◌,
  if◌then◌else◌, tests, ==_iff, mul-split, mul_mono, Bool-cases, inl, inr,
}
use map_service_agent.Llm.RateLimit.{
  Bucket, Store, Limits, Moment, Reply, ok, stored, refilled, granted, denied, acquire_script,
}
use map_service_agent.Llm.RateLimit.Bounds.{IsWithin, refilled-le, acquire_script-IsWithin}

abbrev one_if_ok : Reply → ℕ
one_if_ok ok = 1
one_if_ok _ = 0

-- The clock does not go back from one call to the next.
abbrev pub Ascends : ℕ → List Moment → Type 0
Ascends t [] = Unit
Ascends t (m ∷ ms) = (t ≤ m.now_ms) × Ascends m.now_ms ms

abbrev pub last_time : ℕ → List Moment → ℕ
last_time t [] = t
last_time t (m ∷ ms) = last_time m.now_ms ms

last-after : (t : ℕ) (ms : List Moment) → Ascends t ms → t ≤ last_time t ms
last-after t [] h = omega arith
last-after t (m ∷ ms) h = omega (arith, last-after m.now_ms ms h.1)

module _ (l : Limits) where
  -- The permits that a sequence of calls gets, one after another, from any number of clients.
  pub permits : List Moment → Store → ℕ
  permits [] s = 0
  permits (m ∷ ms) s = let (reply, s') = acquire_script l m s in one_if_ok reply + permits ms s'

  -- Those of them that fall on one day.
  pub permits_on : ℕ → List Moment → Store → ℕ
  permits_on d [] s = 0
  permits_on d (m ∷ ms) s =
      let (reply, s') = acquire_script l m s in
      (if m.day == d then one_if_ok reply else 0) + permits_on d ms s'

  -- What is in the bucket grows by the refill of the time that passes, or less.
  refilled-later :
      (b : Option Bucket) (t u : ℕ)
      → t ≤ u
      → refilled l b u ≤ refilled l b t + (u - t) * l.refill_per_min
  unfolding refilled stored
  refilled-later none t u h = omega arith
  refilled-later (some b) t u h =
      let r = l.refill_per_min in
      omega (
        arith,
        mul-split ((t - b.ts) + (u - t)) (t - b.ts) (u - t) r refl,
        mul_mono (u - b.ts) ((t - b.ts) + (u - t)) r (omega arith),
      )

  refilled-at :
      (tokens now : ℕ) → refilled l (some (record { tokens = tokens; ts = now })) now ≤ tokens
  unfolding refilled stored
  refilled-at tokens now =
      let still : (now - now) * l.refill_per_min ≡ 0 = grind arith in omega (arith, still)

  level-granted :
      (m : Moment) (s : Store) (tokens : ℕ)
      → ltb tokens 60_000 ≡ false
      → 60_000 + refilled l (granted l s m tokens).bucket m.now_ms ≤ tokens
  unfolding granted
  level-granted m s tokens h = omega (tests, refilled-at (tokens - 60_000) m.now_ms)

  level-denied :
      (m : Moment) (s : Store) (tokens : ℕ)
      → refilled l (denied l s m tokens).bucket m.now_ms ≤ tokens
  unfolding denied
  level-denied m s tokens = refilled-at tokens m.now_ms

  -- A permit takes one token out of what the bucket holds at the time of the call.
  level-step :
      (m : Moment) (s : Store)
      → one_if_ok (acquire_script l m s).0 * 60_000
          + refilled l (acquire_script l m s).1.bucket m.now_ms
        ≤ refilled l s.bucket m.now_ms
  unfolding acquire_script
  level-step m s = elim (Bool-cases (leb l.daily_cap (s.daily m.day))) [
    | inl full ↦ rw full (omega arith)
    | inr room ↦ elim (Bool-cases (ltb (refilled l s.bucket m.now_ms) 60_000)) [
      | inl empty ↦
          rw (room, empty) (omega (arith, level-denied m s (refilled l s.bucket m.now_ms)))
      | inr have ↦
          rw (room, have) (omega (arith, level-granted m s (refilled l s.bucket m.now_ms) have))
    ]
  ]

  permits-level :
      (ms : List Moment) (t : ℕ) (s : Store)
      → Ascends t ms
      → permits ms s * 60_000 ≤ refilled l s.bucket t + (last_time t ms - t) * l.refill_per_min
  unfolding permits
  permits-level [] t s h = omega arith
  permits-level (m ∷ ms) t s h =
      let s' = (acquire_script l m s).1 in
      let end = last_time m.now_ms ms in
      let later : m.now_ms ≤ end = last-after m.now_ms ms h.1 in
      omega (
        arith,
        level-step m s,
        refilled-later s.bucket t m.now_ms h.0,
        permits-level ms m.now_ms s' h.1,
        mul-split (end - t) (end - m.now_ms) (m.now_ms - t) l.refill_per_min (omega (arith, h.0)),
      )

  -- In any stretch of time, any number of clients together get at most the capacity and the refill
  -- of that time, as long as the clock that they send does not go back.
  pub permits_bound :
      (ms : List Moment) (t : ℕ) (s : Store)
      → Ascends t ms
      → permits ms s * 60_000 ≤ l.capacity * 60_000 + (last_time t ms - t) * l.refill_per_min
  permits_bound ms t s h = omega (arith, permits-level ms t s h, refilled-le l s.bucket t)

  day-step :
      (d : ℕ) (m : Moment) (s : Store)
      → (acquire_script l m s).1.daily d
        ≡ s.daily d + (if m.day == d then one_if_ok (acquire_script l m s).0 else 0)
  unfolding acquire_script granted denied
  day-step d m s = ground (arith, ==_iff m.day d)

  -- The counter of a day counts the permits of that day, and with it they stay under the cap.
  permits_on-le :
      (d : ℕ) (ms : List Moment) (s : Store)
      → IsWithin l s
      → s.daily d + permits_on d ms s ≤ l.daily_cap
  unfolding permits_on
  permits_on-le d [] s v = omega (arith, v.counters d)
  permits_on-le d (m ∷ ms) s v = omega (
    arith,
    day-step d m s,
    permits_on-le d ms (acquire_script l m s).1 (acquire_script-IsWithin l m s v),
  )
