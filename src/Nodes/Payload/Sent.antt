-- ===== src/Nodes/Payload/Sent.antt =====
-- app/nodes/agent_nodes.py, `build_payload` and `publish_done`: what a job tells its user.
use mathlib.Core.Path.{subst}
use map_service_agent.Prelude.{
  ℕ, ◌≡◌, refl, ◌∙◌, ◌≢◌, true, ◌&&◌, ◌||◌, not, Option, none, some, List, [], ◌∷◌, map, Bool-cases,
  inl, inr,
}
use map_service_agent.Value.{Str}
use map_service_agent.Failure.{returned}
use map_service_agent.Schema.Model.{Place, Leg, JobDonePayload, done}
use map_service_agent.Nodes.State.{AgentState, Slot, has_error, or_empty}
use map_service_agent.Nodes.Timeline.Build.{is_empty_list}
use map_service_agent.Nodes.Payload.{
  build_payload, done_payload, failed_payload, merged, or_false, or_generation_failed, payload_of,
  with_slot,
}

-- The places of the payload are those of the plan: only texts and times are added.
abbrev pub IsSamePlace : Place → Place → Type 0
IsSamePlace p q =
    (q.place_id ≡ p.place_id)
    × (q.day ≡ p.day)
    × (q.name ≡ p.name)
    × (q.lat ≡ p.lat)
    × (q.lng ≡ p.lng)
    × (q.grounded ≡ p.grounded)
    × (q.content_id ≡ p.content_id)
    × (q.address ≡ p.address)
    × (q.source ≡ p.source)

pub data AreSame : List Place → List Place → Type 0 where
  none_left : AreSame [] []
  one_more :
      {p q : Place} {ps qs : List Place}
      → IsSamePlace p q
      → AreSame ps qs
      → AreSame (p ∷ ps) (q ∷ qs)

with_slot-IsSamePlace :
    (slot : Option Slot) (p q : Place) → IsSamePlace p q → IsSamePlace p (with_slot slot q)
unfolding with_slot
with_slot-IsSamePlace none p q h = h
with_slot-IsSamePlace (some slot) p q h = h

merged-IsSamePlace :
    (rs : List (ℕ × Str)) (ss : List (ℕ × List Str)) (t : List (ℕ × Slot)) (p : Place)
    → IsSamePlace p (merged rs ss t p)
unfolding merged
merged-IsSamePlace rs ss t p =
    with_slot-IsSamePlace _ p _ (refl, refl, refl, refl, refl, refl, refl, refl, refl)

map-AreSame :
    (rs : List (ℕ × Str)) (ss : List (ℕ × List Str)) (t : List (ℕ × Slot)) (ps : List Place)
    → AreSame ps (map (merged rs ss t) ps)
map-AreSame rs ss t [] = none_left
map-AreSame rs ss t (p ∷ ps) = one_more (merged-IsSamePlace rs ss t p) (map-AreSame rs ss t ps)

AreSame-refl : (ps : List Place) → AreSame ps ps
AreSame-refl [] = none_left
AreSame-refl (p ∷ ps) =
    one_more (refl, refl, refl, refl, refl, refl, refl, refl, refl) (AreSame-refl ps)

record IsBuilt (s t : AgentState) : Type 0 where
  places : AreSame (or_empty s.places) (or_empty t.places)
  job_id : t.job_id ≡ s.job_id
  order : t.visit_order ≡ s.visit_order
  legs : t.legs ≡ s.legs
  error : t.error ≡ s.error
  code : t.code ≡ s.code

build_payload-IsBuilt : (s : AgentState) → IsBuilt s (build_payload s)
unfolding build_payload
build_payload-IsBuilt s =
    let same : IsBuilt s s = record {
      places = AreSame-refl (or_empty s.places);
      job_id = refl;
      order = refl;
      legs = refl;
      error = refl;
      code = refl;
    } in
    elim (Bool-cases (has_error s)) [
      | inl e ↦ rw e same
      | inr e ↦
          elim (Bool-cases (
            (not (is_empty_list (or_empty s.reasons))
              || not (is_empty_list (or_empty s.summaries))
              || not (is_empty_list (or_empty s.timeline)))
            && not (is_empty_list (or_empty s.places)))) [
              | inl f ↦
                  rw (e, f)
                    (record {
                      places = map-AreSame _ _ _ (or_empty s.places);
                      job_id = refl;
                      order = refl;
                      legs = refl;
                      error = refl;
                      code = refl;
                    })
              | inr f ↦ rw (e, f) same
            ]
    ]

found-AreSame :
    (ps : List Place) (found : Option (List Place))
    → AreSame ps (or_empty found)
    → ps ≢ []
    → (qs : List Place) × (found ≡ some qs) × AreSame ps qs
found-AreSame ps (some qs) h k = (qs, refl, h)
found-AreSame [] none h k = absurd (k refl)
found-AreSame (p ∷ ps) none h k = elim h [ ]

-- The payload of a job that is done with these places, in this order, joined by these legs.
pub record IsSent (s : AgentState) (ps : List Place) (order : List ℕ) (ls : List Leg)
    (q : JobDonePayload) : Type 0 where
  job_id : q.job_id ≡ s.job_id
  status : q.status ≡ done
  sent : List Place
  places : q.places ≡ some sent
  same : AreSame ps sent
  visit_order : q.visit_order ≡ some order
  legs : q.legs ≡ some ls
  error : q.error ≡ none
  code : q.code ≡ none
  retryable : q.retryable ≡ none

-- Where no error is set, a plan that is not empty is sent as done under the id of the job: the places
-- in their order with their numbers, days, names, addresses, coordinates and ids, the visit order and
-- the legs of the state, and no failure; only texts and times are added.
pub build_payload-IsSent :
    (s : AgentState) (p : Place) (ps : List Place) (order : List ℕ) (legs : List Leg)
    → s.error ≡ none
    → s.places ≡ some (p ∷ ps)
    → s.visit_order ≡ some order
    → s.legs ≡ some legs
    → (q : JobDonePayload) × (payload_of (build_payload s) ≡ returned q)
      × IsSent s (p ∷ ps) order legs q
unfolding payload_of done_payload
build_payload-IsSent s p ps order legs clean places ordered joined =
    let b = build_payload-IsBuilt s in
    let (qs, found, same) =
      found-AreSame (p ∷ ps) (build_payload s).places
        (subst (λ o. AreSame (or_empty o) (or_empty (build_payload s).places)) places b.places)
        (λ e. absurd (cc)) in
    (
      done_payload (build_payload s) qs order legs,
      simp (b.error ∙ clean, found, b.order ∙ ordered, b.legs ∙ joined),
      record {
        job_id = b.job_id;
        status = refl;
        sent = qs;
        places = refl;
        same = same;
        visit_order = refl;
        legs = refl;
        error = refl;
        code = refl;
        retryable = refl;
      },
    )

-- A failed job tells its code, whether a retry may help, and nothing of the plan.
build_payload-failed :
    (s : AgentState)
    → has_error s ≡ true
    → payload_of (build_payload s)
      ≡ returned (failed_payload s.job_id (or_generation_failed s.code) (or_false s.retryable))
unfolding payload_of build_payload
build_payload-failed s h = rw (h, h) refl
