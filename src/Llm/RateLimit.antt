-- ===== src/Llm/RateLimit.antt =====
-- app/llm/rate_limit.py: the token bucket and the daily counter in Redis, and the loop that waits
-- for a token. A token is 60000 units, so that the refill of one millisecond is a whole number.
pub mod Bounds
pub mod Permits
pub mod Wait
use map_service_agent.Prelude.{
  ℕ, zero, suc, ◌+◌, ◌-◌, ◌*◌, ◌/◌, ◌≤◌, ◌<◌, min, max, Bool, true, false, ◌≡◌, Option, none, some,
  List, [], ◌∷◌, arith, ltb, leb, ◌==◌, if◌then◌else◌,
}

-- The hash at the tokens key.
pub record Bucket : Type 0 where
  pub tokens : ℕ
  pub ts : ℕ

-- What Redis holds: a counter for each day, with its time to live, and the hash, if it is there.
pub record Store : Type 0 where
  pub daily : ℕ → ℕ
  pub ttl : ℕ → Option ℕ
  pub bucket : Option Bucket

pub record Limits : Type 0 where
  pub capacity : ℕ
  pub refill_per_min : ℕ
  pub daily_cap : ℕ
  pub max_wait_ms : ℕ

-- The clock at one call: the day in Korea, the microsecond of that day and the time in ms.
pub record Moment : Type 0 where
  pub day : ℕ
  pub micros : ℕ
  pub now_ms : ℕ

pub data Reply : Type 0 where
  ok : Reply
  wait : ℕ → Reply
  rpd : Reply

-- `_seconds_until_kst_midnight`
unfoldable pub seconds_until_kst_midnight : Moment → ℕ
seconds_until_kst_midnight m = max 1 ((86_400_000_000 - m.micros) / 1_000_000)

abbrev pub update {ℓ} : {A : Type ℓ} → (ℕ → A) → ℕ → A → ℕ → A
update f k v j = if j == k then v else f j

module _ (l : Limits) where
  -- The bucket that the script reads; a key that is missing counts as full.
  unfoldable pub stored : Option Bucket → ℕ → Bucket
  stored none now = record { tokens = l.capacity * 60_000; ts = now }
  stored (some b) now = b

  -- Elapsed time is added, up to the capacity. `-` stops at 0, as the script's own test does.
  unfoldable pub refilled : Option Bucket → ℕ → ℕ
  unfolding stored
  refilled b now =
      let s = stored b now in min (s.tokens + (now - s.ts) * l.refill_per_min) (l.capacity * 60_000)

  -- `math.ceil((1 - tokens) * 60000.0 / refill_per_min)`
  unfoldable pub wait_for : ℕ → ℕ
  wait_for tokens = (60_000 - tokens + (l.refill_per_min - 1)) / l.refill_per_min

  -- The token is taken, and the counter of the day rises; its first rise sets the time to live.
  unfoldable pub granted : Store → Moment → ℕ → Store
  granted s m tokens =
      let count = s.daily m.day + 1 in
      record {
        daily = update s.daily m.day count;
        ttl =
            if count == 1 then update s.ttl m.day (some (seconds_until_kst_midnight m)) else s.ttl;
        bucket = some (record { tokens = tokens - 60_000; ts = m.now_ms });
      }

  unfoldable pub denied : Store → Moment → ℕ → Store
  denied s m tokens = record s { bucket = some (record { tokens = tokens; ts = m.now_ms }) }

  -- `_LUA_ACQUIRE`, one atomic run.
  unfoldable pub acquire_script : Moment → Store → Reply × Store
  acquire_script m s =
      if leb l.daily_cap (s.daily m.day)
      then (rpd, s)
      else let tokens = refilled s.bucket m.now_ms in
        if ltb tokens 60_000
        then (wait (wait_for tokens), denied s m tokens)
        else (ok, granted s m tokens)

-- How `acquire` ends: a permit, or a quota error of the day or of the minute.
pub data Outcome : Type 0 where
  permit gemini_rpd_exceeded gemini_rpm_exceeded : Outcome

-- What other clients and the expiry of keys do to the store before the round, and the clock then.
pub record Round : Type 0 where
  pub interfere : Store → Store
  pub moment : Moment

-- `max(0.05, wait_ms / 1000)`, in ms
abbrev pub pause : ℕ → ℕ
pause w = max 50 w

-- The loop of `acquire`, on fuel: `none` means that the fuel ran out. The result has the time that
-- was slept, the round that ended the loop and the last store.
unfoldable pub acquire_loop :
    Limits → (fuel : ℕ) → (ℕ → Round) → (k waited : ℕ) → Store → Option (Outcome × ℕ × ℕ × Store)
acquire_loop l zero rounds k waited s = none
acquire_loop l (suc fuel) rounds k waited s =
    let (reply, s') = acquire_script l (rounds k).moment ((rounds k).interfere s) in
    elim reply [
      | ok ↦ some (permit, waited, k, s')
      | rpd ↦ some (gemini_rpd_exceeded, waited, k, s')
      | wait w ↦
          if ltb l.max_wait_ms (waited + pause w)
          then some (gemini_rpm_exceeded, waited, k, s')
          else let rest = acquire_loop l fuel rounds (suc k) (waited + pause w) s' in rest
    ]

-- Every pause is at least 50 ms, so this many rounds are enough.
abbrev pub enough_rounds : Limits → ℕ
enough_rounds l = l.max_wait_ms / 50 + 2

unfoldable pub acquire : Limits → (ℕ → Round) → Store → Option (Outcome × ℕ × ℕ × Store)
acquire l rounds s = acquire_loop l (enough_rounds l) rounds 0 0 s
