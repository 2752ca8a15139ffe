-- ===== src/Nodes/Search/Merged.antt =====
-- app/nodes/agent_nodes.py, `_merge_place_results`: what is merged, once each.
use map_service_agent.Prelude.{
  ℕ, suc, ◌≡◌, ◌⊎◌, refl, Bool, true, false, not, ◌&&◌, ◌||◌, some, List, [], ◌∷◌, any, All,
  All-imp, get_elem?, arith, Bool-cases, inl, inr,
}
use map_service_agent.Value.{Json, is_obj, is_null}
use map_service_agent.Failure.{Exc, Result, returned, raised, ◌>>=◌, type_error}
use map_service_agent.Nodes.Search.{
  is_hashable, id_of, all_places, merge_place_results, Fate, pass_over, take_unnamed, take_new,
  break_off, fate_of_id, fate, merge_from,
}

abbrev pub Listed {ℓ} : {A : Type ℓ} → List A → A → Type ℓ
Listed xs x = (n : ℕ) × (get_elem? xs n ≡ some x)

module _ (same : Json → Json → Bool) where
  -- Two candidates with one id.
  abbrev pub clashes : Json → Json → Bool
  clashes c d = not (is_null (id_of c)) && (not (is_null (id_of d)) && same (id_of c) (id_of d))

  abbrev pub NoneTwice : List Json → Type 0
  NoneTwice [] = Unit
  NoneTwice (c ∷ cs) = All (λ d. clashes c d ≡ false) cs × NoneTwice cs

  -- A candidate is merged, or one with its id is.
  abbrev pub IsCovered : List Json → Json → Type 0
  IsCovered merged c =
      Listed merged c ⊎ ((d : Json) × Listed merged d × (same (id_of d) (id_of c) ≡ true))

  -- Dicts of the results, each id once, and none that is missing.
  pub record AreMerged (all merged : List Json) : Type 0 where
    pub taken : All (λ c. Listed all c × (is_obj c ≡ true)) merged
    pub once : NoneTwice merged
    pub covering : All (λ c. (is_obj c ≡ false) ⊎ IsCovered merged c) all

  is_seen : List Json → Json → Bool
  is_seen seen c = any (λ i. same i (id_of c)) seen

  -- The rounds of the loops.
  data Merges : List Json → List Json → List Json → Type 0 where
    at_end : {seen : List Json} → Merges seen [] []
    no_dict :
        {seen cs merged : List Json} {c : Json}
        → is_obj c ≡ false
        → Merges seen cs merged
        → Merges seen (c ∷ cs) merged
    repeated :
        {seen cs merged : List Json} {c : Json}
        → is_seen seen c ≡ true
        → Merges seen cs merged
        → Merges seen (c ∷ cs) merged
    unnamed :
        {seen cs merged : List Json} {c : Json}
        → is_obj c ≡ true
        → is_null (id_of c) ≡ true
        → Merges seen cs merged
        → Merges seen (c ∷ cs) (c ∷ merged)
    fresh :
        {seen cs merged : List Json} {c : Json}
        → is_obj c ≡ true
        → is_seen seen c ≡ false
        → Merges (id_of c ∷ seen) cs merged
        → Merges seen (c ∷ cs) (c ∷ merged)

  -- What each fate tells of the candidate.
  Tells : List Json → Json → Fate → Type 0
  Tells seen c pass_over = (is_obj c ≡ false) ⊎ (is_seen seen c ≡ true)
  Tells seen c take_unnamed = (is_obj c ≡ true) × (is_null (id_of c) ≡ true)
  Tells seen c take_new = (is_obj c ≡ true) × (is_seen seen c ≡ false)
  Tells seen c break_off =
      (is_obj c ≡ true) × (is_null (id_of c) ≡ false) × (is_hashable (id_of c) ≡ false)

  fate_of_id-Tells :
      (seen : List Json) (c : Json)
      → is_obj c ≡ true
      → Tells seen c (fate_of_id same seen (id_of c))
  unfolding fate_of_id Tells is_seen
  fate_of_id-Tells seen c o = elim (Bool-cases (is_null (id_of c))) [
    | inl n ↦ rw n (o, n)
    | inr n ↦ elim (Bool-cases (is_hashable (id_of c))) [
      | inr h ↦ rw (n, h) (o, n, h)
      | inl h ↦ elim (Bool-cases (any (λ i. same i (id_of c)) seen)) [
        | inl a ↦ rw (n, h, a) (inr a)
        | inr a ↦ rw (n, h, a) (o, a)
      ]
    ]
  ]

  fate-Tells : (seen : List Json) (c : Json) → Tells seen c (fate same seen c)
  unfolding fate Tells
  fate-Tells seen c = elim (Bool-cases (is_obj c)) [
    | inr o ↦ rw o (inl o)
    | inl o ↦ rw o (fate_of_id-Tells seen c o)
  ]

  -- A merge breaks off with a type error, at a dict whose id cannot be hashed.
  abbrev pub Unhashable : List Json → Exc → Type 0
  Unhashable cs e =
      (e ≡ type_error)
      × (c : Json) × Listed cs c
      × (is_obj c ≡ true)
      × (is_null (id_of c) ≡ false)
      × (is_hashable (id_of c) ≡ false)

  Unhashable-later : (c : Json) (cs : List Json) (e : Exc) → Unhashable cs e → Unhashable (c ∷ cs) e
  Unhashable-later c cs e (t, d, (n, g), o, i, h) = (t, d, (suc n, g), o, i, h)

  -- The candidates that are merged, if nothing raises.
  MergesTo : List Json → List Json → Result (List Json) → Type 0
  MergesTo seen cs (returned merged) = Merges seen cs merged
  MergesTo seen cs (raised e) = Unhashable cs e

  MergesTo-bind :
      (seen later cs : List Json) (c : Json) (r : Result (List Json))
      → ((merged : List Json) → Merges later cs merged → Merges seen (c ∷ cs) (c ∷ merged))
      → MergesTo later cs r
      → MergesTo seen (c ∷ cs) (r >>= λ merged. returned (c ∷ merged))
  unfolding MergesTo
  MergesTo-bind seen later cs c (returned merged) f h = f merged h
  MergesTo-bind seen later cs c (raised e) f h = Unhashable-later c cs e h

  MergesTo-pass :
      (seen cs : List Json) (c : Json) (r : Result (List Json))
      → ((merged : List Json) → Merges seen cs merged → Merges seen (c ∷ cs) merged)
      → MergesTo seen cs r
      → MergesTo seen (c ∷ cs) r
  unfolding MergesTo
  MergesTo-pass seen cs c (returned merged) f h = f merged h
  MergesTo-pass seen cs c (raised e) f h = Unhashable-later c cs e h

  -- One round, by the fate of the candidate.
  step-MergesTo :
      (seen cs : List Json) (c : Json) (f : Fate) (old : Result (List Json))
      (new : Result (List Json))
      → Tells seen c f
      → MergesTo seen cs old
      → MergesTo (id_of c ∷ seen) cs new
      → MergesTo seen (c ∷ cs) (elim f [
        | pass_over ↦ old
        | take_unnamed ↦ old >>= λ merged. returned (c ∷ merged)
        | take_new ↦ new >>= λ merged. returned (c ∷ merged)
        | break_off ↦ raised type_error
      ])
  unfolding Tells MergesTo
  step-MergesTo seen cs c pass_over old new (inl t) h k =
      MergesTo-pass seen cs c old (λ merged m. no_dict t m) h
  step-MergesTo seen cs c pass_over old new (inr t) h k =
      MergesTo-pass seen cs c old (λ merged m. repeated t m) h
  step-MergesTo seen cs c take_unnamed old new t h k =
      MergesTo-bind seen seen cs c old (λ merged m. unnamed t.0 t.1 m) h
  step-MergesTo seen cs c take_new old new t h k =
      MergesTo-bind seen (id_of c ∷ seen) cs c new (λ merged m. fresh t.0 t.1 m) k
  step-MergesTo seen cs c break_off old new (o, n, b) h k = (refl, c, (0, refl), o, n, b)

  merge_from-MergesTo : (seen cs : List Json) → MergesTo seen cs (merge_from same seen cs)
  unfolding merge_from MergesTo
  merge_from-MergesTo seen [] = at_end
  merge_from-MergesTo seen (c ∷ cs) =
      step-MergesTo seen cs c (fate same seen c) (merge_from same seen cs)
        (merge_from same (id_of c ∷ seen) cs) (fate-Tells seen c) (merge_from-MergesTo seen cs)
        (merge_from-MergesTo (id_of c ∷ seen) cs)

  Listed-later : (c : Json) (cs : List Json) (d : Json) → Listed cs d → Listed (c ∷ cs) d
  Listed-later c cs d (n, g) = (suc n, g)

  Merges-taken :
      (seen cs merged : List Json)
      → Merges seen cs merged
      → All (λ d. Listed cs d × (is_obj d ≡ true)) merged
  Merges-taken seen _ _ at_end = tt
  Merges-taken seen _ _ (no_dict {cs} {merged} {c} o m) =
      All-imp (λ d k. (Listed-later c cs d k.0, k.1)) merged (Merges-taken seen cs merged m)
  Merges-taken seen _ _ (repeated {cs} {merged} {c} o m) =
      All-imp (λ d k. (Listed-later c cs d k.0, k.1)) merged (Merges-taken seen cs merged m)
  Merges-taken seen _ _ (unnamed {cs} {merged} {c} o n m) = (
    ((0, refl), o),
    All-imp (λ d k. (Listed-later c cs d k.0, k.1)) merged (Merges-taken seen cs merged m),
  )
  Merges-taken seen _ _ (fresh {cs} {merged} {c} o n m) = (
    ((0, refl), o),
    All-imp (λ d k. (Listed-later c cs d k.0, k.1)) merged
        (Merges-taken (id_of c ∷ seen) cs merged m),
  )

  -- A candidate whose id was not seen.
  is_fresh : List Json → Json → Bool
  is_fresh seen d = is_null (id_of d) || not (is_seen seen d)

  fresh-weaken :
      (seen : List Json) (c d : Json) → is_fresh (id_of c ∷ seen) d ≡ true → is_fresh seen d ≡ true
  unfolding is_fresh is_seen
  fresh-weaken seen c d h = ground arith

  fresh-clashes :
      (seen : List Json) (c d : Json) → is_fresh (id_of c ∷ seen) d ≡ true → clashes c d ≡ false
  unfolding is_fresh is_seen
  fresh-clashes seen c d h = ground arith

  Merges-fresh :
      (seen cs merged : List Json)
      → Merges seen cs merged
      → All (λ d. is_fresh seen d ≡ true) merged
  unfolding is_fresh
  Merges-fresh seen _ _ at_end = tt
  Merges-fresh seen _ _ (no_dict {cs} {merged} o m) = Merges-fresh seen cs merged m
  Merges-fresh seen _ _ (repeated {cs} {merged} o m) = Merges-fresh seen cs merged m
  Merges-fresh seen _ _ (unnamed {cs} {merged} o n m) =
      (ground arith, Merges-fresh seen cs merged m)
  Merges-fresh seen _ _ (fresh {cs} {merged} {c} o n m) = (
    ground arith,
    All-imp (fresh-weaken seen c) merged (Merges-fresh (id_of c ∷ seen) cs merged m),
  )

  unnamed-clashes : (c d : Json) → is_null (id_of c) ≡ true → clashes c d ≡ false
  unnamed-clashes c d h = ground arith

  All-of {ℓ κ} : {A : Type ℓ} {P : A → Type κ} → ((x : A) → P x) → (xs : List A) → All P xs
  All-of f [] = tt
  All-of f (x ∷ xs) = (f x, All-of f xs)

  Merges-once : (seen cs merged : List Json) → Merges seen cs merged → NoneTwice merged
  Merges-once seen _ _ at_end = tt
  Merges-once seen _ _ (no_dict {cs} {merged} o m) = Merges-once seen cs merged m
  Merges-once seen _ _ (repeated {cs} {merged} o m) = Merges-once seen cs merged m
  Merges-once seen _ _ (unnamed {cs} {merged} {c} o n m) =
      (All-of (λ d. unnamed-clashes c d n) merged, Merges-once seen cs merged m)
  Merges-once seen _ _ (fresh {cs} {merged} {c} o n m) = (
    All-imp (fresh-clashes seen c) merged (Merges-fresh (id_of c ∷ seen) cs merged m),
    Merges-once (id_of c ∷ seen) cs merged m,
  )

  -- Where ids were seen before, a candidate may also have one of those.
  IsMet : List Json → List Json → Json → Type 0
  IsMet seen merged d = (is_obj d ≡ false) ⊎ (IsCovered merged d ⊎ (is_seen seen d ≡ true))

  IsCovered-later :
      (c : Json) (merged : List Json) (d : Json) → IsCovered merged d → IsCovered (c ∷ merged) d
  IsCovered-later c merged d (inl l) = inl (Listed-later c merged d l)
  IsCovered-later c merged d (inr (e, l, s)) = inr (e, Listed-later c merged e l, s)

  IsMet-later :
      (seen : List Json) (c : Json) (merged : List Json) (d : Json)
      → IsMet seen merged d
      → IsMet seen (c ∷ merged) d
  unfolding IsMet
  IsMet-later seen c merged d (inl o) = inl o
  IsMet-later seen c merged d (inr (inl h)) = inr (inl (IsCovered-later c merged d h))
  IsMet-later seen c merged d (inr (inr h)) = inr (inr h)

  IsMet-new :
      (seen : List Json) (c : Json) (merged : List Json) (d : Json)
      → IsMet (id_of c ∷ seen) merged d
      → IsMet seen (c ∷ merged) d
  unfolding IsMet is_seen
  IsMet-new seen c merged d (inl o) = inl o
  IsMet-new seen c merged d (inr (inl h)) = inr (inl (IsCovered-later c merged d h))
  IsMet-new seen c merged d (inr (inr h)) = elim (Bool-cases (same (id_of c) (id_of d))) [
    | inl e ↦ inr (inl (inr (c, (0, refl), e)))
    | inr e ↦ inr (inr (ground arith))
  ]

  Merges-IsMet : (seen cs merged : List Json) → Merges seen cs merged → All (IsMet seen merged) cs
  unfolding IsMet
  Merges-IsMet seen _ _ at_end = tt
  Merges-IsMet seen _ _ (no_dict {cs} {merged} o m) = (inl o, Merges-IsMet seen cs merged m)
  Merges-IsMet seen _ _ (repeated {cs} {merged} o m) = (inr (inr o), Merges-IsMet seen cs merged m)
  Merges-IsMet seen _ _ (unnamed {cs} {merged} {c} o n m) = (
    inr (inl (inl (0, refl))),
    All-imp (IsMet-later seen c merged) cs (Merges-IsMet seen cs merged m),
  )
  Merges-IsMet seen _ _ (fresh {cs} {merged} {c} o n m) = (
    inr (inl (inl (0, refl))),
    All-imp (IsMet-new seen c merged) cs (Merges-IsMet (id_of c ∷ seen) cs merged m),
  )

  met-covering :
      (merged : List Json) (d : Json) → IsMet [] merged d → (is_obj d ≡ false) ⊎ IsCovered merged d
  unfolding IsMet is_seen
  met-covering merged d (inl o) = inl o
  met-covering merged d (inr (inl h)) = inr h
  met-covering merged d (inr (inr h)) = cc h

  Merges-AreMerged : (all merged : List Json) → Merges [] all merged → AreMerged all merged
  Merges-AreMerged all merged m = record {
    taken = Merges-taken [] all merged m;
    once = Merges-once [] all merged m;
    covering = All-imp (met-covering merged) all (Merges-IsMet [] all merged m);
  }

  -- What a merge gives; it raises only for an id that cannot be hashed.
  abbrev pub IsMergeOf : List Json → Result (List Json) → Type 0
  IsMergeOf all (returned merged) = AreMerged all merged
  IsMergeOf all (raised e) = Unhashable all e

  merge-of : (all : List Json) (r : Result (List Json)) → MergesTo [] all r → IsMergeOf all r
  unfolding MergesTo
  merge-of all (returned merged) m = Merges-AreMerged all merged m
  merge-of all (raised e) m = m

  -- Merging takes dicts of the results only, no id twice, and covers each dict: it is merged, or one
  -- with its id is. It raises nothing but a type error, where an id cannot be hashed.
  pub merge_place_results-IsMergeOf :
      (results : List Json) → IsMergeOf (all_places results) (merge_place_results same results)
  unfolding merge_place_results
  merge_place_results-IsMergeOf results =
      merge-of (all_places results) _ (merge_from-MergesTo [] (all_places results))
