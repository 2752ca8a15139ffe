-- ===== src/Nodes/Reviews/Rounds.antt =====
-- app/nodes/agent_nodes.py, `_fetch_reviews_for`: the rounds of its loop.
use map_service_agent.Prelude.{
  ℕ, zero, suc, ◌+◌, ◌≤◌, ◌<◌, ◌≡◌, ◌≢◌, refl, sym, subst, Bool, true, false, List, [], ◌∷◌, take,
  length, All, Bool-cases, inl, inr, ◌⊎◌, arith, if◌then◌else◌,
}
use map_service_agent.Value.{Str, Json, str, get}
use map_service_agent.Failure.{Exc, type_error, cancelled_error, Result, returned, raised, ◌>>=◌}
use map_service_agent.Schema.Model.{AgentRequest}
use map_service_agent.Nodes.Input.{is_empty}
use map_service_agent.Nodes.Search.{is_hashable, id_of}
use map_service_agent.Nodes.Search.Merged.{Listed}
use map_service_agent.Nodes.Rank.Loops.{iterated-cases}
use map_service_agent.Nodes.Reviews.{
  Client, add_description, descriptions, snippets_from_response, cut_name, review_query, Collected,
  is_reviewable, set_reviews, put_reviews, after_fetch, fetch_one, collect_reviews,
}

-- Texts that may be kept for a place: some, none of them empty, and no more than were asked for.
abbrev pub AreSnippets : ℕ → List Str → Type 0
AreSnippets display ss = (ss ≢ []) × (length ss ≤ display) × All (λ s. s ≢ []) ss

descriptions_filled : (rs : List Json) → All (λ s. s ≢ []) (descriptions rs)
unfolding descriptions add_description
descriptions_filled [] = tt
descriptions_filled (r ∷ rs) =
    added (get "description" r) (descriptions rs) (descriptions_filled rs)
  where
    added :
        (v : Json) (later : List Str)
        → All (λ s. s ≢ []) later
        → All (λ s. s ≢ []) (add_description v later)
    added (str (c ∷ cs)) later h = (λ e. cc e, h)
    added (str []) later h = h
    added _ later h = h

take_filled : (n : ℕ) (ss : List Str) → All (λ s. s ≢ []) ss → All (λ s. s ≢ []) (take n ss)
take_filled zero ss h = tt
take_filled (suc n) [] h = tt
take_filled (suc n) (s ∷ ss) h = (h.0, take_filled n ss h.1)

length-take-le : (n : ℕ) (ss : List Str) → length (take n ss) ≤ n
length-take-le zero ss = omega arith
length-take-le (suc n) [] = omega arith
length-take-le (suc n) (s ∷ ss) = ground (arith, length-take-le n ss)

cut_name-cases :
    (v : Json) → ((q : Str) × (cut_name v ≡ returned q)) ⊎ (cut_name v ≡ raised type_error)
cut_name-cases (str s) = inl (_, refl)
cut_name-cases _ = inr refl

review_query-cases :
    (text : Json → Str) (req : AgentRequest) (name : Json)
    → ((q : Str) × (review_query text req name ≡ returned q))
      ⊎ (review_query text req name ≡ raised type_error)
unfolding review_query
review_query-cases text req name =
    elim (Bool-cases (is_empty (if is_empty req.city then req.province else req.city))) [
      | inl e ↦ rw (review_query, e) (cut_name-cases name)
      | inr e ↦ rw (review_query, e) (inl (_, refl))
    ]

module _ (candidates : List Json) (display : ℕ) where
  -- What is kept for an id: it is one of a candidate.
  abbrev pub IsEntry : Json × List Str → Type 0
  IsEntry e = AreSnippets display e.1 × (x : Json) × Listed candidates x × (id_of x ≡ e.0)

  -- Collecting so far: no more reviews than calls since `base`.
  pub record IsKept (base : ℕ) (c : Collected) : Type 0 where
    pub entries : All IsEntry c.reviews
    pub few : length c.reviews + base ≤ c.used
    pub counted : c.used ≡ base + length c.calls

  module _ (same : Json → Json → Bool) (fetch : Client) where
    set_reviews-All :
        (x : Json) (ss : List Str) (es : List (Json × List Str))
        → AreSnippets display ss
        → Listed candidates x
        → All IsEntry es
        → All IsEntry (set_reviews same (id_of x) ss es)
    unfolding set_reviews
    set_reviews-All x ss [] a l h = ((a, x, l, refl), tt)
    set_reviews-All x ss ((j, old) ∷ es) a l h = elim (Bool-cases (same j (id_of x))) [
      | inl e ↦ rw e (let (b, y, m, q) = h.0 in ((a, y, m, q), h.1))
      | inr e ↦ rw e (h.0, set_reviews-All x ss es a l h.1)
    ]

    length-set_reviews :
        (cid : Json) (ss : List Str) (es : List (Json × List Str))
        → length (set_reviews same cid ss es) ≤ suc (length es)
    unfolding set_reviews
    length-set_reviews cid ss [] = omega arith
    length-set_reviews cid ss ((j, old) ∷ es) = ground (arith, length-set_reviews cid ss es)

    -- Collecting is left by a type error, or where a call of the hub is cancelled.
    abbrev pub Leaves : Exc → Type 0
    Leaves e =
        (e ≡ type_error)
        ⊎ ((e ≡ cancelled_error) × (q : Str) × (fetch q display ≡ raised cancelled_error))

    -- Collecting goes on from what is kept with at most so many calls more, or is left.
    unfoldable pub Goes : (base used more : ℕ) → Result Collected → Type 0
    Goes base used more (returned d) = IsKept base d × (used ≤ d.used) × (d.used ≤ used + more)
    Goes base used more (raised e) = Leaves e

    Goes-widen :
        (base u v m n : ℕ) (r : Result Collected)
        → v ≤ u
        → u + m ≤ v + n
        → Goes base u m r
        → Goes base v n r
    unfolding Goes
    Goes-widen base u v m n (raised e) l k h = h
    Goes-widen base u v m n (returned d) l k h =
        let (kept, above, below) = h in (kept, omega arith, omega arith)

    module _ (base : ℕ) (x : Json) (listed : Listed candidates x) where
      put_reviews-Goes :
          (ss : List Str) (c : Collected)
          → length ss ≤ display
          → All (λ s. s ≢ []) ss
          → All IsEntry c.reviews
          → length c.reviews + base < c.used
          → c.used ≡ base + length c.calls
          → Goes base c.used 0 (put_reviews same (id_of x) ss c)
      unfolding put_reviews Goes
      put_reviews-Goes [] c n f k l m =
          (record { entries = k; few = omega arith; counted = m }, omega arith, omega arith)
      put_reviews-Goes (s ∷ ss) c n f k l m = elim (Bool-cases (is_hashable (id_of x))) [
        | inr h ↦ rw h (inl refl)
        | inl h ↦
            let more = length-set_reviews (id_of x) (s ∷ ss) c.reviews in
            rw h (
              record {
                entries = set_reviews-All x (s ∷ ss) c.reviews ((λ e. cc e), n, f) listed k;
                few = omega (arith, more);
                counted = m;
              },
              omega arith,
              omega arith,
            )
      ]

      after_fetch-Goes :
          (query : Str) (resp : Result Json) (c : Collected)
          → fetch query display ≡ resp
          → All IsEntry c.reviews
          → length c.reviews + base < c.used
          → c.used ≡ base + length c.calls
          → Goes base c.used 0 (after_fetch same display (id_of x) resp c)
      unfolding after_fetch Goes snippets_from_response
      after_fetch-Goes query (raised cancelled_error) c a k l m = inr (refl, query, a)
      after_fetch-Goes query (raised _) c a k l m =
          (record { entries = k; few = omega arith; counted = m }, omega arith, omega arith)
      after_fetch-Goes query (returned resp) c a k l m =
          elim (iterated-cases (get "reviews" resp)) [
            | inr e ↦ rw (after_fetch, snippets_from_response, e) (inl refl)
            | inl (items, e) ↦
                rw (after_fetch, snippets_from_response, e)
                  (put_reviews-Goes (take display (descriptions items)) c
                    (length-take-le display (descriptions items))
                    (take_filled display (descriptions items) (descriptions_filled items)) k l m)
          ]

      module _ (text : Json → Str) (req : AgentRequest) where
        fetch_one-Goes :
            (c : Collected)
            → IsKept base c
            → Goes base (suc c.used) 0 (fetch_one same text req fetch display x c)
        unfolding fetch_one Goes
        fetch_one-Goes c k = elim (review_query-cases text req (get "name" x)) [
          | inr e ↦ rw (fetch_one, e) (inl refl)
          | inl (query, e) ↦
              rw (fetch_one, e)
                (after_fetch-Goes query (fetch query display)
                  (record c { used = suc c.used; calls = query ∷ c.calls }) refl k.entries
                  (omega (arith, k.few)) (omega (arith, k.counted)))
        ]

    module _ (text : Json → Str) (req : AgentRequest) (base : ℕ) where
      abbrev pub collect : ℕ → List Json → Collected → Result Collected
      collect = collect_reviews same text req fetch display

      after_one-Goes :
          (left used : ℕ) (r : Result Collected) (xs : List Json)
          → Goes base (suc used) 0 r
          → ((d : Collected) → IsKept base d → Goes base d.used left (collect left xs d))
          → Goes base used (suc left) (r >>= λ d. collect left xs d)
      unfolding Goes
      after_one-Goes left used (raised e) xs h go = h
      after_one-Goes left used (returned d) xs h go =
          let (kept, above, below) = h in
          Goes-widen base d.used used left (suc left) (collect left xs d) (omega arith)
            (omega arith) (go d kept)

      passed :
          (left : ℕ) (x : Json) (xs : List Json) (c : Collected)
          → is_reviewable x ≡ false
          → collect (suc left) (x ∷ xs) c ≡ collect (suc left) xs c
      unfolding collect_reviews
      passed left x xs c e = rw (collect_reviews, e) refl

      taken :
          (left : ℕ) (x : Json) (xs : List Json) (c : Collected)
          → is_reviewable x ≡ true
          → collect (suc left) (x ∷ xs) c
            ≡ (fetch_one same text req fetch display x c >>= λ d. collect left xs d)
      unfolding collect_reviews
      taken left x xs c e = rw (collect_reviews, e) refl

      pub collect_reviews-Goes :
          (left : ℕ) (xs : List Json) (c : Collected)
          → All (Listed candidates) xs
          → IsKept base c
          → Goes base c.used left (collect left xs c)
      unfolding collect_reviews
      collect_reviews-Goes left [] c l k = unfold Goes in (k, omega arith, omega arith)
      collect_reviews-Goes zero (x ∷ xs) c l k = unfold Goes in (k, omega arith, omega arith)
      collect_reviews-Goes (suc left) (x ∷ xs) c l k = elim (Bool-cases (is_reviewable x)) [
        | inr e ↦
            subst (Goes base c.used (suc left)) (sym (passed left x xs c e))
              (collect_reviews-Goes (suc left) xs c l.1 k)
        | inl e ↦ subst (Goes base c.used (suc left)) (sym (taken left x xs c e)) (
            after_one-Goes left c.used (fetch_one same text req fetch display x c) xs
              (fetch_one-Goes base x l.0 text req c k)
              (λ d m. collect_reviews-Goes left xs d l.1 m))
      ]
