-- ===== src/Llm/RateLimit/Bounds.antt =====
-- What the script of app/llm/rate_limit.py keeps: bounds on the bucket and the counter, and how
-- many calls it permits.
use map_service_agent.Prelude.{
  ℕ, ◌*◌, ◌≤◌, false, ◌≡◌, Option, none, some, Bool-cases, inl, inr, arith, ltb, leb,
}
use map_service_agent.Llm.RateLimit.{
  Bucket, Store, Limits, Moment, refilled, granted, denied, acquire_script,
}

module _ (l : Limits) where
  abbrev FitsBucket : Option Bucket → Type 0
  FitsBucket none = Unit
  FitsBucket (some b) = b.tokens ≤ l.capacity * 60_000

  -- No day's counter is above the cap, and the bucket holds no more than its capacity.
  pub record IsWithin (s : Store) : Type 0 where
    pub counters : (d : ℕ) → s.daily d ≤ l.daily_cap
    pub tokens : FitsBucket s.bucket

  pub refilled-le : (b : Option Bucket) (now : ℕ) → refilled l b now ≤ l.capacity * 60_000
  unfolding refilled
  refilled-le b now = omega arith

  granted-counters :
      (m : Moment) (s : Store) (t : ℕ)
      → IsWithin s
      → leb l.daily_cap (s.daily m.day) ≡ false
      → (d : ℕ) → (granted l s m t).daily d ≤ l.daily_cap
  unfolding granted
  granted-counters m s t v h d = ground (arith, v.counters d)

  granted-FitsBucket :
      (m : Moment) (s : Store) (b : Option Bucket)
      → FitsBucket (granted l s m (refilled l b m.now_ms)).bucket
  unfolding granted
  granted-FitsBucket m s b = omega (arith, refilled-le b m.now_ms)

  denied-FitsBucket :
      (m : Moment) (s : Store) (b : Option Bucket)
      → FitsBucket (denied l s m (refilled l b m.now_ms)).bucket
  unfolding denied
  denied-FitsBucket m s b = refilled-le b m.now_ms

  denied-IsWithin :
      (m : Moment) (s : Store) → IsWithin s → IsWithin (denied l s m (refilled l s.bucket m.now_ms))
  denied-IsWithin m s v = record {
    counters = unfold denied in v.counters;
    tokens = denied-FitsBucket m s s.bucket;
  }

  -- The script keeps every counter under the cap and the bucket under its capacity, whatever the
  -- clock says.
  pub acquire_script-IsWithin :
      (m : Moment) (s : Store) → IsWithin s → IsWithin (acquire_script l m s).1
  unfolding acquire_script
  acquire_script-IsWithin m s v = elim (Bool-cases (leb l.daily_cap (s.daily m.day))) [
    | inl full ↦ rw full v
    | inr room ↦ elim (Bool-cases (ltb (refilled l s.bucket m.now_ms) 60_000)) [
      | inl empty ↦ rw (room, empty) (denied-IsWithin m s v)
      | inr have ↦
          rw (room, have)
            (record {
              counters = granted-counters m s (refilled l s.bucket m.now_ms) v room;
              tokens = granted-FitsBucket m s s.bucket;
            })
    ]
  ]
