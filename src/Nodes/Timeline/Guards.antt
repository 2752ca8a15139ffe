-- ===== src/Nodes/Timeline/Guards.antt =====
-- app/nodes/agent_nodes.py, `fit_time_budget`: what the guards at its start ask.
use map_service_agent.Prelude.{
  ◌≡◌, ◌≢◌, ◌⊎◌, refl, true, false, not, ◌&&◌, Option, none, some, List, [], ◌∷◌, arith, Bool-cases,
  inl, inr,
}
use map_service_agent.Schema.Model.{Stage, init, mode1, route}
use map_service_agent.Nodes.State.{AgentState, Settings, has_error, is_some, or_empty}
use map_service_agent.Nodes.Timeline.Build.{is_empty_list}
use map_service_agent.Nodes.Timeline.Fit.{is_manual, is_skipped}

-- The plan is the user's own: a route, or places that were given and none of them pinned.
abbrev pub IsManual : AgentState → Type 0
IsManual s =
    (s.request.stage ≡ route)
    ⊎ ((s.request.stage ≡ mode1) × (or_empty s.request.places ≢ []) × (s.pinned_content_ids ≡ none))

-- There is nothing to do: an error, no timetables, or no day that overflows.
abbrev pub IsIdle : Settings → AgentState → Type 0
IsIdle settings s =
    (has_error s ≡ true)
    ⊎ ((settings.timeline_enabled ≡ false) ⊎ (or_empty s.timeline_overflow_days ≡ []))

empty-eq {ℓ} : {A : Type ℓ} (xs : List A) → is_empty_list xs ≡ true → xs ≡ []
empty-eq [] h = refl
empty-eq (x ∷ xs) h = cc h

filled-ne {ℓ} : {A : Type ℓ} (xs : List A) → is_empty_list xs ≡ false → xs ≢ []
filled-ne [] h = cc h
filled-ne (x ∷ xs) h = λ e. cc e

none_eq {ℓ} : {A : Type ℓ} (o : Option A) → is_some o ≡ false → o ≡ none
none_eq none h = refl
none_eq (some a) h = cc h

pub is_skipped-IsIdle :
    (settings : Settings) (s : AgentState) → is_skipped settings s ≡ true → IsIdle settings s
unfolding is_skipped
is_skipped-IsIdle settings s h = elim (Bool-cases (has_error s)) [
  | inl e ↦ inl e
  | inr e ↦ elim (Bool-cases settings.timeline_enabled) [
    | inr f ↦ inr (inl f)
    | inl f ↦ inr (inr (empty-eq (or_empty s.timeline_overflow_days) (ground arith)))
  ]
]

pub is_skipped-busy :
    (settings : Settings) (s : AgentState) → is_skipped settings s ≡ false → ¬ IsIdle settings s
unfolding is_skipped
is_skipped-busy settings s h (inl e) = ground arith
is_skipped-busy settings s h (inr (inl e)) = ground arith
is_skipped-busy settings s h (inr (inr e)) =
    filled-ne (or_empty s.timeline_overflow_days) (ground arith) e

pub is_manual-IsManual : (s : AgentState) → is_manual s ≡ true → IsManual s
is_manual-IsManual s h = manual s.request.stage refl h
  where
    manual :
        (t : Stage)
        → s.request.stage ≡ t
        → elim t [
          | route ↦ true
          | mode1 ↦
              not (is_empty_list (or_empty s.request.places)) && not (is_some s.pinned_content_ids)
          | init ↦ false
        ]
          ≡ true
        → IsManual s
    manual route e k = inl e
    manual init e k = cc k
    manual mode1 e k = inr (
      e,
      filled-ne (or_empty s.request.places) (ground arith),
      none_eq s.pinned_content_ids (ground arith),
    )

pub is_manual-not : (s : AgentState) → is_manual s ≡ false → ¬ IsManual s
is_manual-not s h (inl e) = let k = rw e at h in cc k
is_manual-not s h (inr (e, f, n)) = elim (Bool-cases (is_empty_list (or_empty s.request.places))) [
  | inl z ↦ f (empty-eq (or_empty s.request.places) z)
  | inr z ↦ let k = rw (e, n, z) at h in cc k
]
