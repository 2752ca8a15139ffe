-- ===== src/Nodes/Candidates/Cap.antt =====
-- app/nodes/agent_nodes.py, `_cap_candidates` and `_place_from_candidate`: how many candidates go
-- on, and what a place takes from its candidate.
use mathlib.Core.Path.{subst}
use native.Mathlib.Nat.{div-mul-le_self}
use map_service_agent.Prelude.{
  ℕ, suc, ◌-◌, ◌/◌, ◌≤◌, ◌<◌, ◌≡◌, refl, true, false, ◌||◌, ◌&&◌, Option, none, some, List, [], ◌∷◌,
  ◌++◌, length, length-append, length-take, length-sort_by, get_elem?, take, drop, leb, ◌==◌,
  Bool-cases, inl, inr, arith,
}
use map_service_agent.Value.{Str, Json}
use map_service_agent.Schema.Model.{Place}
use map_service_agent.Schema.Check.{validated, in_korea, sizes_allowed, texts_allowed}
use map_service_agent.Nodes.Candidates.{
  Reader, and_then, cap_candidates, elements, indices_of, kept_indices, with_found,
  place_from_candidate, place_of, source_of,
}

length-with_found : (o : Option Json) (cs : List Json) → length (with_found o cs) ≤ suc (length cs)
length-with_found none cs = omega arith
length-with_found (some c) cs = omega arith

length-elements : (cs : List Json) (is : List ℕ) → length (elements cs is) ≤ length is
unfolding elements
length-elements cs [] = omega arith
length-elements cs (i ∷ is) =
    omega (arith, length-elements cs is, length-with_found (get_elem? cs i) (elements cs is))

length-kept_indices : (limit : ℕ) (xs ys : List ℕ) → length (kept_indices limit xs ys) ≤ limit
unfolding kept_indices
length-kept_indices limit xs ys =
    let half = take (limit / 2) xs in
    let out = take (limit - length half) ys in
    let short = limit - length half - length out in
    let more = take short (drop (length half) xs) in
    let sorted = length-sort_by (λ i. i) ((half ++ more) ++ out) in
    omega (
      arith,
      sorted,
      length-append (half ++ more) out,
      length-append half more,
      length-take (limit / 2) xs,
      length-take (limit - length half) ys,
      length-take short (drop (length half) xs),
      div-mul-le_self limit 2,
    )

-- No more candidates go into the prompt than the limit, unless there is none.
cap_candidates-bound :
    (cs : List Json) (limit : ℕ) → 0 < limit → length (cap_candidates cs limit) ≤ limit
unfolding cap_candidates
cap_candidates-bound cs limit h = elim (Bool-cases (limit == 0 || leb (length cs) limit)) [
  | inl e ↦ rw e (ground arith)
  | inr e ↦
      let kept = kept_indices limit (indices_of true 0 cs) (indices_of false 0 cs) in
      let a = length-elements cs kept in
      let b = length-kept_indices limit (indices_of true 0 cs) (indices_of false 0 cs) in
      rw e (omega arith)
]

pub and_then-some {ℓ κ} :
    {A : Type ℓ} {B : Type κ} (o : Option A) (f : A → Option B) (b : B)
    → and_then o f ≡ some b
    → (a : A) × (o ≡ some a) × (f a ≡ some b)
and_then-some none f b h = absurd (cc)
and_then-some (some a) f b h = (a, refl, h)

-- What a place keeps of the call that made it.
pub record IsGrounded (place_id day : ℕ) (p : Place) : Type 0 where
  pub id : p.place_id ≡ place_id
  pub on_day : p.day ≡ day
  pub in_range : in_korea p.lat p.lng ≡ true
  pub sizes : sizes_allowed p ≡ true
  pub texts : texts_allowed p ≡ true
  pub grounded : p.grounded ≡ true

pub validated-some :
    (q p : Place)
    → validated q ≡ some p
    → (q ≡ p) × (in_korea q.lat q.lng ≡ true) × (sizes_allowed q ≡ true) × (texts_allowed q ≡ true)
unfolding validated
validated-some q p h =
    elim (Bool-cases (in_korea q.lat q.lng && sizes_allowed q && texts_allowed q)) [
      | inl e ↦
          let k = rw e at h in
          let same : q ≡ p = cc in (same, ground arith, ground arith, ground arith)
      | inr e ↦ let k = rw e at h in absurd (cc)
    ]

pub place_from_candidate-IsGrounded :
    (r : Reader) (place_id : ℕ) (c : Json) (visit_time : Str) (day : ℕ) (p : Place)
    → place_from_candidate r place_id c visit_time day ≡ some p
    → IsGrounded place_id day p
unfolding place_from_candidate
place_from_candidate-IsGrounded r place_id c visit_time day p h =
    let (source, found, valid) =
      and_then-some (source_of r c) (λ source. validated (place_of place_id visit_time day source))
        p h in
    let (same, range, sizes, texts) =
      validated-some (place_of place_id visit_time day source) p valid in
    subst (IsGrounded place_id day) same (record {
      id = unfold place_of in refl;
      on_day = unfold place_of in refl;
      in_range = range;
      sizes = sizes;
      texts = texts;
      grounded = unfold place_of in refl;
    })
