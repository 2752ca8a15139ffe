-- ===== src/Service/Admission/Decided.antt =====
-- app/main.py: which requests start a job, and what the others get.
use map_service_agent.Prelude.{
  Bool, true, false, ◌≡◌, ◌⊎◌, refl, sym, subst, ap, Option, none, some, [], ◌∷◌, Bool-cases,
  Option-cases, inl, inr, arith,
}
use map_service_agent.Value.{
  Str, str_eq, str_eq→eq, str_eq_self, Json, arr, obj, Items, Fields, get,
}
use map_service_agent.Failure.{Exc, Result, returned, raised}
use map_service_agent.Seal.Location.{Opened, opened, seal_error, escaped}
use map_service_agent.Schema.Model.{AgentRequest}
use map_service_agent.Service.Admission.{
  Answer, going_on, http_exception, is_token, after_open, from_location, verify_internal_token,
  is_blank, has_no_places, or_400, with_places, resolve_places, Tasks, start_job, unless_refused,
  recommend,
}

-- No token is asked for, or the one that is asked for is given.
abbrev pub IsTrusted : (expected provided : Option Str) → Type 0
IsTrusted expected provided = (expected ≡ none) ⊎ ((expected ≡ some []) ⊎ (provided ≡ expected))

-- Where the places of a request may come from.
pub data Resolved (enabled : Bool) (open_seal : Str → Opened)
    (validate : AgentRequest → Items → Option AgentRequest) (req : AgentRequest)
    (out : AgentRequest) : Type 0 where
  in_clear : enabled ≡ false → out ≡ req → Resolved enabled open_seal validate req out
  placeless :
      enabled ≡ true
      → is_blank req.loc ≡ true
      → has_no_places req.places ≡ true
      → out ≡ req
      → Resolved enabled open_seal validate req out
  from_seal :
      (loc : Str) (fields : Fields) (vs : Items)
      → enabled ≡ true
      → is_blank req.loc ≡ false
      → req.loc ≡ some loc
      → open_seal loc ≡ opened fields
      → get "places" (obj fields) ≡ arr vs
      → validate req vs ≡ some out
      → Resolved enabled open_seal validate req out

-- The opening of the seal that stands beside a key raises what nothing catches.
pub record Escapes (enabled : Bool) (open_seal : Str → Opened) (req : AgentRequest) (e : Exc)
    : Type 0 where
  loc : Str
  keyed : enabled ≡ true
  filled : is_blank req.loc ≡ false
  located : req.loc ≡ some loc
  raises : open_seal loc ≡ escaped e

-- What `recommend` may answer, and when.
pub data Decided (Trusted : Type 0) (From : AgentRequest → Type 0) (Fails : Exc → Type 0)
    (ready : Bool) (job_id : Str) (tasks : Tasks) : Result (Answer Tasks) → Type 0 where
  unauthorised :
      ¬ Trusted → Decided Trusted From Fails ready job_id tasks (returned (http_exception 401))
  invalid :
      Trusted
      → ((out : AgentRequest) → ¬ From out)
      → ((e : Exc) → ¬ Fails e)
      → Decided Trusted From Fails ready job_id tasks (returned (http_exception 400))
  not_ready :
      (out : AgentRequest)
      → Trusted
      → From out
      → ready ≡ false
      → Decided Trusted From Fails ready job_id tasks (returned (http_exception 503))
  started :
      (out : AgentRequest)
      → Trusted
      → ready ≡ true
      → From out
      → Decided Trusted From Fails ready job_id tasks (returned (going_on ((job_id, out) ∷ tasks)))
  broken : (e : Exc) → Trusted → Fails e → Decided Trusted From Fails ready job_id tasks (raised e)

other_token : (t u : Str) → str_eq t u ≡ false → ¬ (some t ≡ some u)
other_token t u e h = let self = str_eq_self u in let same = ap (λ o. is_equal o) h in ground arith
  where
    is_equal : Option Str → Bool
    is_equal none = false
    is_equal (some v) = str_eq v u

pub verify_internal_token-IsTrusted :
    (expected provided : Option Str)
    → (¬ IsTrusted expected provided × (verify_internal_token expected provided ≡ some 401))
      ⊎ (IsTrusted expected provided × (verify_internal_token expected provided ≡ none))
unfolding verify_internal_token is_token
verify_internal_token-IsTrusted none provided = inr (inl refl, refl)
verify_internal_token-IsTrusted (some []) provided = inr (inr (inl refl), refl)
verify_internal_token-IsTrusted (some (c ∷ cs)) none =
    inl ((λ h. elim h [ inl a ↦ cc a | inr (inl a) ↦ cc a | inr (inr a) ↦ cc a ]), refl)
verify_internal_token-IsTrusted (some (c ∷ cs)) (some t) = elim (Bool-cases (str_eq t (c ∷ cs))) [
  | inl e ↦ inr (inr (inr (ap some (str_eq→eq t (c ∷ cs) e))), rw e refl)
  | inr e ↦ inl (
    (λ h. elim h [ inl a ↦ cc a | inr (inl a) ↦ cc a | inr (inr a) ↦ other_token t (c ∷ cs) e a ]),
    rw e refl,
  )
]

with_places-cases :
    (f : Items → Option AgentRequest) (v : Json)
    → (with_places f v ≡ http_exception 400)
      ⊎ ((out : AgentRequest) × (vs : Items) × (v ≡ arr vs)
          × (f vs ≡ some out)
          × (with_places f v ≡ going_on out))
unfolding with_places or_400
with_places-cases f (arr vs) = elim (Option-cases (f vs)) [
  | inl e ↦ inl (rw e refl)
  | inr (out, e) ↦ inr (out, vs, refl, e, rw e refl)
]
with_places-cases f _ = inl refl

module _ (enabled : Bool) (open_seal : Str → Opened)
    (validate : AgentRequest → Items → Option AgentRequest) (req : AgentRequest) where
  abbrev From : AgentRequest → Type 0
  From = Resolved enabled open_seal validate req

  abbrev Fails : Exc → Type 0
  Fails = Escapes enabled open_seal req

  resolve_places-eq :
      (out : AgentRequest)
      → From out
      → resolve_places enabled open_seal validate req ≡ returned (going_on out)
  unfolding resolve_places from_location after_open with_places or_400
  resolve_places-eq out (in_clear e o) = rw (resolve_places, e, o) refl
  resolve_places-eq out (placeless e b n o) = rw (resolve_places, e, b, n, o) refl
  resolve_places-eq out (from_seal loc fields vs e b l o g v) =
      rw (resolve_places, e, b, l, from_location, o, after_open, g, with_places, v) refl

  resolve_places-raised :
      (e : Exc) → Fails e → resolve_places enabled open_seal validate req ≡ raised e
  unfolding resolve_places from_location after_open
  resolve_places-raised e f =
      rw (resolve_places, f.keyed, f.filled, f.located, from_location, f.raises) refl

  -- How the places are resolved: not, from a request, or with an exception.
  abbrev Resolves : Result (Answer AgentRequest) → Type 0
  Resolves r =
      (r ≡ returned (http_exception 400))
      ⊎ (((out : AgentRequest) × From out × (r ≡ returned (going_on out)))
          ⊎ ((e : Exc) × Fails e × (r ≡ raised e)))

  after_open-Resolves :
      (loc : Str) (o : Opened)
      → enabled ≡ true
      → is_blank req.loc ≡ false
      → req.loc ≡ some loc
      → open_seal loc ≡ o
      → Resolves (after_open (validate req) o)
  unfolding after_open
  after_open-Resolves loc seal_error e b l o = inl refl
  after_open-Resolves loc (escaped x) e b l o =
      inr (inr (x, record { loc = loc; keyed = e; filled = b; located = l; raises = o }, refl))
  after_open-Resolves loc (opened fields) e b l o =
      elim (with_places-cases (validate req) (get "places" (obj fields))) [
        | inl h ↦ inl (ap returned h)
        | inr (out, vs, g, v, h) ↦
            inr (inl (out, from_seal loc fields vs e b l o g v, ap returned h))
      ]

  from_location-Resolves :
      (loc : Option Str)
      → req.loc ≡ loc
      → enabled ≡ true
      → is_blank req.loc ≡ false
      → Resolves (from_location open_seal (validate req) loc)
  unfolding from_location
  from_location-Resolves none l e b = inl refl
  from_location-Resolves (some loc) l e b = after_open-Resolves loc (open_seal loc) e b l refl

  resolve-opened :
      enabled ≡ true
      → is_blank req.loc ≡ false
      → resolve_places enabled open_seal validate req
        ≡ from_location open_seal (validate req) req.loc
  unfolding resolve_places
  resolve-opened e b = rw (resolve_places, e, b) refl

  resolve-cases : Resolves (resolve_places enabled open_seal validate req)
  unfolding resolve_places
  resolve-cases = elim (Bool-cases enabled) [
    | inr e ↦ inr (inl (req, in_clear e refl, rw (resolve_places, e) refl))
    | inl e ↦ elim (Bool-cases (is_blank req.loc)) [
      | inr b ↦ subst Resolves (sym (resolve-opened e b)) (from_location-Resolves req.loc refl e b)
      | inl b ↦ elim (Bool-cases (has_no_places req.places)) [
        | inl n ↦ inr (inl (req, placeless e b n refl, rw (resolve_places, e, b, n) refl))
        | inr n ↦ inl (rw (resolve_places, e, b, n) refl)
      ]
    ]
  ]

-- A job is started only for a caller who is trusted, on a service that is ready, with places that
-- stand in the clear only where no key is set and else come out of the seal, validated anew; the
-- jobs that go on get just this one more. Otherwise the caller gets 401 where it is not trusted, 400
-- where no request can be resolved, and 503 where one can but the service is not ready. Nothing is
-- raised but what the opening of the seal raises beside its own error, which no one catches.
pub recommend-Decided :
    (enabled : Bool) (open_seal : Str → Opened)
    (validate : AgentRequest → Items → Option AgentRequest) (expected : Option Str) (ready : Bool)
    (job_id : Str) (provided : Option Str) (req : AgentRequest) (tasks : Tasks)
    → Decided
        (IsTrusted expected provided)
        (Resolved enabled open_seal validate req)
        (Escapes enabled open_seal req)
        ready
        job_id
        tasks
        (recommend
          (resolve_places enabled open_seal validate)
          expected
          ready
          job_id
          provided
          req
          tasks)
unfolding recommend start_job unless_refused
recommend-Decided enabled open_seal validate expected ready job_id provided req tasks =
    elim (verify_internal_token-IsTrusted expected provided) [
      | inl (refused, v) ↦ rw (recommend, v) (Decided.unauthorised refused)
      | inr (trusted, v) ↦ elim (resolve-cases enabled open_seal validate req) [
        | inl h ↦
            rw (recommend, v, h)
              (Decided.invalid trusted
                (λ out from.
                  let eq = resolve_places-eq enabled open_seal validate req out from in cc (eq, h))
                (λ e fails.
                  let eq = resolve_places-raised enabled open_seal validate req e fails in
                  cc (eq, h)))
        | inr (inr (e, fails, h)) ↦ rw (recommend, v, h) (Decided.broken e trusted fails)
        | inr (inl (out, from, h)) ↦ elim (Bool-cases ready) [
          | inl r ↦ rw (recommend, v, h, start_job, r) (Decided.started out trusted refl from)
          | inr r ↦ rw (recommend, v, h, start_job, r) (Decided.not_ready out trusted from refl)
        ]
      ]
    ]
