-- ===== src/Nodes/Candidates/Origin.antt =====
-- app/nodes/agent_nodes.py, `_place_from_candidate`: what a place takes from its candidate.
use map_service_agent.Prelude.{
  ℕ, ◌≡◌, ◌⊎◌, refl, sym, ap, subst, true, false, ◌&&◌, ◌||◌, Bool, none, some, [], take,
  Bool-cases, inl, inr, if◌then◌else◌,
}
use map_service_agent.Value.{
  Str, codes, is_blank, includes, str_eq, str_eq→eq, Json, str, get, truthy, is_obj,
}
use map_service_agent.Sanitize.{neutralize_tags}
use map_service_agent.Schema.Model.{Place}
use map_service_agent.Schema.Check.{validated}
use map_service_agent.Nodes.Candidates.{
  Reader, Source, lowered, optional_text, source_id, source_of, text_up_to, is_verified_source,
  place_of, place_from_candidate,
}
use map_service_agent.Nodes.Candidates.Cap.{and_then-some, validated-some}

-- A name is the text that the candidate has, up to its length, or empty where there is none.
abbrev pub IsNameOf : Json → Str → Type 0
IsNameOf v name =
    ((s : Str) × (v ≡ str s) × (name ≡ take 80 s)) ⊎ ((truthy v ≡ false) × (name ≡ []))

-- A place that is made from a candidate of one of the two sources: under its id, with its name and
-- at its coordinates.
pub record IsFrom (r : Reader) (c : Json) (p : Place) : Type 0 where
  pub dict : is_obj c ≡ true
  pub verified : (get "source" c ≡ str (codes "kakao")) ⊎ (get "source" c ≡ str (codes "durunubi"))
  pub content_id : (s : Str) × (get "content_id" c ≡ str s) × (p.content_id ≡ some s)
  pub name : IsNameOf (get "name" c) p.name
  pub lat : r.number (get "lat" c) ≡ some p.lat
  pub lng : r.number (get "lng" c) ≡ some p.lng

some-eq {ℓ} : {A : Type ℓ} (a b : A) → some a ≡ some b → a ≡ b
some-eq a b h = cc h

both_true : (a b : Bool) → (a && b) ≡ true → (a ≡ true) × (b ≡ true)
both_true true b h = (refl, h)
both_true false b h = cc h

no_name :
    (b : Bool) (name : Str) → (if b then none else some []) ≡ some name → (b ≡ false) × (name ≡ [])
no_name true name h = cc h
no_name false name h = (refl, sym (some-eq [] name h))

text_up_to-IsNameOf : (v : Json) (name : Str) → text_up_to 80 v ≡ some name → IsNameOf v name
text_up_to-IsNameOf (str s) name h = inl (s, refl, sym (some-eq (take 80 s) name h))
text_up_to-IsNameOf v name h = inr (no_name (truthy v) name h)

source_id-eq : (v : Json) (s : Str) → source_id v ≡ some s → v ≡ str s
unfolding source_id
source_id-eq (str t) s h = elim (Bool-cases (is_blank t || includes (lowered t) (codes "stub"))) [
  | inl e ↦ let k = rw e at h in absurd (cc)
  | inr e ↦ let k = rw e at h in ap str (some-eq t s k)
]
source_id-eq _ s h = cc h

verified_eq :
    (v : Json)
    → is_verified_source v ≡ true
    → (v ≡ str (codes "kakao")) ⊎ (v ≡ str (codes "durunubi"))
unfolding is_verified_source
verified_eq (str s) h = elim (Bool-cases (str_eq s (codes "kakao"))) [
  | inl e ↦ inl (ap str (str_eq→eq s (codes "kakao") e))
  | inr e ↦ let k = rw e at h in inr (ap str (str_eq→eq s (codes "durunubi") k))
]
verified_eq _ h = cc h

-- What is read from a candidate.
record IsSourceOf (r : Reader) (c : Json) (source : Source) : Type 0 where
  dict : is_obj c ≡ true
  verified : is_verified_source (get "source" c) ≡ true
  id : source_id (get "content_id" c) ≡ some source.content_id
  named : text_up_to 80 (get "name" c) ≡ some source.name
  at_lat : r.number (get "lat" c) ≡ some source.lat
  at_lng : r.number (get "lng" c) ≡ some source.lng

source_of-IsSourceOf :
    (r : Reader) (c : Json) (source : Source) → source_of r c ≡ some source → IsSourceOf r c source
unfolding source_of
source_of-IsSourceOf r c source h =
    elim (Bool-cases (is_obj c && is_verified_source (get "source" c))) [
      | inr b ↦ let k = rw b at h in absurd (cc)
      | inl b ↦
          let k = rw b at h in
          let (content_id, e0, h0) = and_then-some (source_id (get "content_id" c)) _ source k in
          let (name, e1, h1) = and_then-some (text_up_to 80 (get "name" c)) _ source h0 in
          let (address, e2, h2) = and_then-some (text_up_to 200 (get "address" c)) _ source h1 in
          let (lat, e3, h3) = and_then-some (r.number (get "lat" c)) _ source h2 in
          let (lng, e4, h4) = and_then-some (r.number (get "lng" c)) _ source h3 in
          let (w5, e5, h5) = and_then-some (optional_text (get "source" c)) _ source h4 in
          let (w6, e6, h6) =
            and_then-some (optional_text (neutralize_tags (get "category" c))) _ source h5 in
          let (w7, e7, h7) =
            and_then-some (optional_text (get "category_group_code" c)) _ source h6 in
          let (w8, e8, h8) = and_then-some (optional_text (get "phone" c)) _ source h7 in
          let (w9, e9, h9) = and_then-some (optional_text (get "place_url" c)) _ source h8 in
          let (w10, e10, h10) =
            and_then-some (r.optional_float (get "crs_dstnc_km" c)) _ source h9 in
          let (w11, e11, h11) =
            and_then-some (r.optional_int (get "crs_total_min" c)) _ source h10 in
          let (w12, e12, h12) = and_then-some (r.optional_int (get "crs_level" c)) _ source h11 in
          let (w13, e13, h13) = and_then-some (optional_text (get "brd_div" c)) _ source h12 in
          let (w14, e14, h14) = and_then-some (optional_text (get "gpx_url" c)) _ source h13 in
          let (w15, e15, h15) = and_then-some (optional_text (get "route_idx" c)) _ source h14 in
          let whole = some-eq _ source h15 in
          let id : content_id ≡ source.content_id = ap (λ (x : Source). x.content_id) whole in
          let named : name ≡ source.name = ap (λ (x : Source). x.name) whole in
          let at_lat : lat ≡ source.lat = ap (λ (x : Source). x.lat) whole in
          let at_lng : lng ≡ source.lng = ap (λ (x : Source). x.lng) whole in
          record {
            dict = (both_true _ _ b).0;
            verified = (both_true _ _ b).1;
            id = rw (sym id) e0;
            named = rw (sym named) e1;
            at_lat = rw (sym at_lat) e3;
            at_lng = rw (sym at_lng) e4;
          }
    ]

-- Whatever is made of a candidate is from it.
pub place_from_candidate-IsFrom :
    (r : Reader) (place_id : ℕ) (c : Json) (visit_time : Str) (day : ℕ) (p : Place)
    → place_from_candidate r place_id c visit_time day ≡ some p
    → IsFrom r c p
unfolding place_from_candidate place_of
place_from_candidate-IsFrom r place_id c visit_time day p h =
    let (source, found, valid) =
      and_then-some (source_of r c) (λ source. validated (place_of place_id visit_time day source))
        p h in
    let s = source_of-IsSourceOf r c source found in
    let (same, range, sizes, texts) =
      validated-some (place_of place_id visit_time day source) p valid in
    subst (IsFrom r c) same (record {
      dict = s.dict;
      verified = verified_eq (get "source" c) s.verified;
      content_id = (source.content_id, source_id-eq (get "content_id" c) _ s.id, refl);
      name = text_up_to-IsNameOf (get "name" c) source.name s.named;
      lat = s.at_lat;
      lng = s.at_lng;
    })
