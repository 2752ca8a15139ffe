-- ===== src/Llm/RateLimit/Wait.antt =====
-- The waiting loop of app/llm/rate_limit.py: it ends, and its waiting is bounded.
use map_service_agent.Prelude.{
  ℕ, zero, suc, ◌+◌, ◌*◌, ◌≤◌, ◌<◌, ◌≡◌, refl, Option, none, some, arith, ltb, tests, if◌then◌else◌,
  Bool-cases, inl, inr,
}
use map_service_agent.Llm.RateLimit.{
  Store, Limits, Reply, ok, wait, rpd, acquire_script, Outcome, permit, gemini_rpd_exceeded,
  gemini_rpm_exceeded, Round, pause, acquire_loop, enough_rounds, acquire,
}

module _ (l : Limits) (rounds : ℕ → Round) where
  -- What the script answered in the round that ended the loop.
  abbrev pub LastReply : Outcome → ℕ → ℕ → Store → Type 0
  LastReply permit waited k s =
      (before : Store) × (acquire_script l (rounds k).moment before ≡ (ok, s))
  LastReply gemini_rpd_exceeded waited k s =
      (before : Store) × (acquire_script l (rounds k).moment before ≡ (rpd, s))
  LastReply gemini_rpm_exceeded waited k s =
      (before : Store) × (w : ℕ) × (acquire_script l (rounds k).moment before ≡ (wait w, s))
      × (l.max_wait_ms < waited + pause w)

  -- The loop has ended, it slept no longer than the limit, and its outcome is the last reply's.
  abbrev pub Ends : Option (Outcome × ℕ × ℕ × Store) → Type 0
  Ends none = ⊥
  Ends (some (o, waited, k, s)) = (waited ≤ l.max_wait_ms) × LastReply o waited k s

  loop-Ends :
      (fuel k waited : ℕ) (s : Store)
      → waited ≤ l.max_wait_ms
      → l.max_wait_ms < waited + fuel * 50
      → Ends (acquire_loop l fuel rounds k waited s)
  unfolding acquire_loop
  loop-Ends zero k waited s h m = absurd (omega arith)
  loop-Ends (suc fuel) k waited s h m =
      go (acquire_script l (rounds k).moment ((rounds k).interfere s)).0 refl λ w.
        loop-Ends fuel (suc k) (waited + pause w)
          (acquire_script l (rounds k).moment ((rounds k).interfere s)).1
    where
      before : Store
      before = (rounds k).interfere s

      after : Store
      after = (acquire_script l (rounds k).moment before).1

      go :
          (r : Reply)
          → (acquire_script l (rounds k).moment before).0 ≡ r
          → ((w : ℕ)
              → waited + pause w ≤ l.max_wait_ms
              → l.max_wait_ms < (waited + pause w) + fuel * 50
              → Ends (acquire_loop l fuel rounds (suc k) (waited + pause w) after))
          → Ends (elim r [
            | ok ↦ some (permit, waited, k, after)
            | rpd ↦ some (gemini_rpd_exceeded, waited, k, after)
            | wait w ↦
                if ltb l.max_wait_ms (waited + pause w)
                then some (gemini_rpm_exceeded, waited, k, after)
                else let rest = acquire_loop l fuel rounds (suc k) (waited + pause w) after in rest
          ])
      go ok e ih = (h, (before, λ i. (e i, after)))
      go rpd e ih = (h, (before, λ i. (e i, after)))
      go (wait w) e ih = elim (Bool-cases (ltb l.max_wait_ms (waited + pause w))) [
        | inl over ↦ rw over (h, (before, w, (λ i. (e i, after)), omega tests))
        | inr fits ↦ rw fits (ih w (omega tests) (omega tests))
      ]

  -- `acquire` ends after the rounds that it has, whatever other clients and the clock do: it slept
  -- no longer than its limit, and it returns, or raises the error of the day or of the minute,
  -- exactly as the last run of the script answered.
  pub acquire-Ends : (s : Store) → Ends (acquire l rounds s)
  unfolding acquire
  acquire-Ends s = loop-Ends (enough_rounds l) 0 0 s (omega arith) (omega arith)
