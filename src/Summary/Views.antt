-- ===== src/Summary/Views.antt =====
-- app/nodes/summary_nodes.py, `prepare_places`: which places the model gets to see, under which
-- numbers, and what their texts may hold.
use map_service_agent.Prelude.{
  ℕ, zero, suc, ◌+◌, ◌≤◌, ◌<◌, ◌≡◌, ◌≢◌, refl, ap, true, Option, none, some, List, [], ◌∷◌, map,
  take, length, contains, All, All-imp, get_elem?, arith, inl, inr, ◌⊎◌,
}
use map_service_agent.Value.{Str}
use map_service_agent.Sanitize.{sanitize_text}
use map_service_agent.Sanitize.View.{IsInert, sanitize_text-IsInert}
use map_service_agent.Nodes.State.{or_empty}
use map_service_agent.Summary.{
  SummaryPlace, View, SummarySettings, SummaryState, sanitized_category, summary_place_view, usable,
  add_view, views_from, prepare_places,
}

abbrev pub snippets_of : SummaryPlace → List Str
snippets_of p = usable (or_empty p.snippets)

-- The view of a place with usable reviews, under a number.
abbrev pub view_of : ℕ → SummaryPlace → View
view_of i p = summary_place_view i p.name p.category (snippets_of p)

-- A view stands for the place at its own number, which is below the limit and has usable reviews.
abbrev pub StandsFor : ℕ → List SummaryPlace → View → Type 0
StandsFor limit places v =
    (p : SummaryPlace) × (v.place_id < limit)
    × (get_elem? places v.place_id ≡ some p)
    × (snippets_of p ≢ [])
    × (v ≡ view_of v.place_id p)

abbrev pub IsShort : ℕ → Str → Type 0
IsShort n s = All IsInert s × (length s ≤ n)

abbrev pub IsShortCategory : Option Str → Type 0
IsShortCategory none = Unit
IsShortCategory (some c) = IsShort 120 c

-- Every text of the view is inert and of bounded length.
abbrev pub IsSafe : View → Type 0
IsSafe v = IsShort 80 v.name × IsShortCategory v.category × All (IsShort 150) v.review_snippets

-- Numbers that rise, from at least `k`.
abbrev pub Rises : ℕ → List ℕ → Type 0
Rises k [] = Unit
Rises k (i ∷ is) = (k ≤ i) × Rises (suc i) is

pub record AreViews (limit : ℕ) (places : List SummaryPlace) (views : List View) (ids : List ℕ)
    : Type 0 where
  pub sound : All (StandsFor limit places) views
  pub safe : All IsSafe views
  pub numbered : map (λ v. v.place_id) views ≡ ids
  pub rising : Rises 0 ids
  pub complete :
      (i : ℕ) (p : SummaryPlace)
      → i < limit
      → get_elem? places i ≡ some p
      → snippets_of p ≢ []
      → contains ids i ≡ true

snippets-IsShort : (ss : List Str) → All (IsShort 150) (map (λ s. sanitize_text s 150) ss)
snippets-IsShort [] = tt
snippets-IsShort (s ∷ ss) = (sanitize_text-IsInert s 150, snippets-IsShort ss)

category-IsShort : (c : Option Str) → IsShortCategory (sanitized_category c)
unfolding sanitized_category
category-IsShort none = tt
category-IsShort (some c) = sanitize_text-IsInert c 120

view-IsSafe :
    (i : ℕ) (name : Str) (category : Option Str) (ss : List Str)
    → IsSafe (summary_place_view i name category ss)
unfolding summary_place_view
view-IsSafe i name category ss =
    (sanitize_text-IsInert name 80, category-IsShort category, snippets-IsShort ss)

-- The same for the places from number `k` on.
abbrev StandsFrom : ℕ → List SummaryPlace → View → Type 0
StandsFrom k places v =
    (j : ℕ) × (p : SummaryPlace) × (v.place_id ≡ k + j)
    × (get_elem? places j ≡ some p)
    × (snippets_of p ≢ [])
    × (v ≡ view_of v.place_id p)

record AreFrom (k : ℕ) (places : List SummaryPlace) (r : List View × List ℕ) : Type 0 where
  sound : All (StandsFrom k places) r.0
  safe : All IsSafe r.0
  numbered : map (λ v. v.place_id) r.0 ≡ r.1
  rising : Rises k r.1
  complete :
      (j : ℕ) (p : SummaryPlace)
      → get_elem? places j ≡ some p
      → snippets_of p ≢ []
      → contains r.1 (k + j) ≡ true

Rises-weaken : (j k : ℕ) (is : List ℕ) → j ≤ k → Rises k is → Rises j is
Rises-weaken j k [] h r = tt
Rises-weaken j k (i ∷ is) h r = (omega (arith, r.0), r.1)

StandsFrom-later :
    (k : ℕ) (p : SummaryPlace) (ps : List SummaryPlace) (v : View)
    → StandsFrom (suc k) ps v
    → StandsFrom k (p ∷ ps) v
StandsFrom-later k p ps v (j, q, n, g, u, e) = (suc j, q, omega arith, g, u, e)

nil_or_cons {ℓ} : {A : Type ℓ} (xs : List A) → (xs ≡ []) ⊎ ((x : A) × (ys : List A) × (xs ≡ x ∷ ys))
nil_or_cons [] = inl refl
nil_or_cons (x ∷ xs) = inr (x, xs, refl)

add_view-nil :
    (i : ℕ) (p : SummaryPlace) (ss : List Str) (r : List View × List ℕ)
    → ss ≡ []
    → add_view i p ss r ≡ r
unfolding add_view
add_view-nil i p [] r h = refl
add_view-nil i p (s ∷ ss) r h = cc

add_view-cons :
    (i : ℕ) (p : SummaryPlace) (ss : List Str) (r : List View × List ℕ)
    → ss ≢ []
    → add_view i p ss r ≡ (summary_place_view i p.name p.category ss ∷ r.0, i ∷ r.1)
unfolding add_view
add_view-cons i p [] r h = absurd (h refl)
add_view-cons i p (s ∷ ss) r h = refl

-- What the places after the first one have, under the numbers after `k`.
later_found :
    (k j : ℕ) (is : List ℕ) → contains is (suc k + j) ≡ true → contains is (k + suc j) ≡ true
later_found k j is h = let e : k + suc j ≡ suc k + j = omega arith in rw e h

skip_complete :
    (k : ℕ) (p : SummaryPlace) (ps : List SummaryPlace) (is : List ℕ)
    → snippets_of p ≡ []
    → ((j : ℕ) (q : SummaryPlace)
        → get_elem? ps j ≡ some q
        → snippets_of q ≢ []
        → contains is (suc k + j) ≡ true)
    → (j : ℕ) (q : SummaryPlace) → get_elem? (p ∷ ps) j ≡ some q
    → snippets_of q ≢ []
    → contains is (k + j) ≡ true
skip_complete k p ps is h a zero q g u = absurd (u (cc (g, h)))
skip_complete k p ps is h a (suc j) q g u = later_found k j is (a j q g u)

show_complete :
    (k : ℕ) (p : SummaryPlace) (ps : List SummaryPlace) (is : List ℕ)
    → ((j : ℕ) (q : SummaryPlace)
        → get_elem? ps j ≡ some q
        → snippets_of q ≢ []
        → contains is (suc k + j) ≡ true)
    → (j : ℕ) (q : SummaryPlace) → get_elem? (p ∷ ps) j ≡ some q
    → snippets_of q ≢ []
    → contains (k ∷ is) (k + j) ≡ true
show_complete k p ps is a zero q g u = ground arith
show_complete k p ps is a (suc j) q g u = let found = later_found k j is (a j q g u) in ground arith

AreFrom-skip :
    (k : ℕ) (p : SummaryPlace) (ps : List SummaryPlace) (r : List View × List ℕ)
    → snippets_of p ≡ []
    → AreFrom (suc k) ps r
    → AreFrom k (p ∷ ps) r
AreFrom-skip k p ps r h a = record {
  sound = All-imp (StandsFrom-later k p ps) r.0 a.sound;
  safe = a.safe;
  numbered = a.numbered;
  rising = Rises-weaken k (suc k) r.1 (omega arith) a.rising;
  complete = skip_complete k p ps r.1 h a.complete;
}

AreFrom-show :
    (k : ℕ) (p : SummaryPlace) (ps : List SummaryPlace) (r : List View × List ℕ)
    → snippets_of p ≢ []
    → AreFrom (suc k) ps r
    → AreFrom k (p ∷ ps) (view_of k p ∷ r.0, k ∷ r.1)
unfolding summary_place_view
AreFrom-show k p ps r h a = record {
  sound = ((0, p, omega arith, refl, h, refl), All-imp (StandsFrom-later k p ps) r.0 a.sound);
  safe = (view-IsSafe k p.name p.category (snippets_of p), a.safe);
  numbered = ap (λ is. k ∷ is) a.numbered;
  rising = (omega arith, a.rising);
  complete = show_complete k p ps r.1 a.complete;
}

views_from-AreFrom : (k : ℕ) (ps : List SummaryPlace) → AreFrom k ps (views_from k ps)
unfolding views_from
views_from-AreFrom k [] = record {
  sound = tt;
  safe = tt;
  numbered = refl;
  rising = tt;
  complete = λ j p g u. cc g;
}
views_from-AreFrom k (p ∷ ps) = elim (nil_or_cons (snippets_of p)) [
  | inl e ↦
      rw (add_view-nil k p (snippets_of p) (views_from (suc k) ps) e)
        (AreFrom-skip k p ps (views_from (suc k) ps) e (views_from-AreFrom (suc k) ps))
  | inr (s, ss, e) ↦
      let some_left : snippets_of p ≢ [] = λ n. cc (e, n) in
      rw (add_view-cons k p (snippets_of p) (views_from (suc k) ps) some_left)
        (AreFrom-show k p ps (views_from (suc k) ps) some_left (views_from-AreFrom (suc k) ps))
]

get_elem?-take :
    (n i : ℕ) (ps : List SummaryPlace) (p : SummaryPlace)
    → get_elem? (take n ps) i ≡ some p
    → (i < n) × (get_elem? ps i ≡ some p)
get_elem?-take zero i ps p h = cc h
get_elem?-take (suc n) i [] p h = cc h
get_elem?-take (suc n) zero (q ∷ qs) p h = (omega arith, h)
get_elem?-take (suc n) (suc i) (q ∷ qs) p h =
    let found = get_elem?-take n i qs p h in (omega (arith, found.0), found.1)

get_elem?-take_lt :
    (n i : ℕ) (ps : List SummaryPlace) → i < n → get_elem? (take n ps) i ≡ get_elem? ps i
get_elem?-take_lt zero i ps h = absurd (omega arith)
get_elem?-take_lt (suc n) i [] h = refl
get_elem?-take_lt (suc n) zero (q ∷ qs) h = refl
get_elem?-take_lt (suc n) (suc i) (q ∷ qs) h = get_elem?-take_lt n i qs (omega arith)

StandsFrom-StandsFor :
    (n : ℕ) (ps : List SummaryPlace) (v : View) → StandsFrom 0 (take n ps) v → StandsFor n ps v
StandsFrom-StandsFor n ps v (j, p, e, g, u, k) =
    let at : v.place_id ≡ j = omega arith in
    let found = get_elem?-take n j ps p g in (p, omega (arith, found.0), rw at found.1, u, k)

-- The model sees the places below the limit that have usable reviews, and no others. Each is under
-- its own number in the request, whatever was left out before it; the numbers rise and are those
-- that answers are checked against. Every text of a view is inert, and at most 80, 120 and 150
-- characters long.
pub prepare_places-AreViews :
    (settings : SummarySettings) (s : SummaryState)
    → let t = prepare_places settings s in
      AreViews settings.summary_max_places s.places (or_empty t.views) (or_empty t.valid_ids)
unfolding prepare_places
prepare_places-AreViews settings s =
    let n = settings.summary_max_places in
    let a = views_from-AreFrom 0 (take n s.places) in
    record {
      sound = All-imp (StandsFrom-StandsFor n s.places) _ a.sound;
      safe = a.safe;
      numbered = a.numbered;
      rising = a.rising;
      complete = λ i p h g u.
          let found = a.complete i p (rw (get_elem?-take_lt n i s.places h) g) u in
          let e : 0 + i ≡ i = omega arith in rw e at found;
    }
