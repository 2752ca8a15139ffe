-- ===== src/Nodes/Strategy/Entries.antt =====
-- app/nodes/agent_nodes.py, `_daily_pops`: which entries of the forecast count.
use map_service_agent.Prelude.{
  ℕ, ◌≤◌, ◌≡◌, ◌≢◌, ◌⊎◌, refl, sym, ap, ◌∙◌, Bool, true, false, ◌&&◌, Option, some, List, [], ◌∷◌,
  leb, Bool-cases, Option-cases, inl, inr, if◌then◌else◌, arith,
}
use map_service_agent.Value.{
  Str, Json, null, int, float, str, arr, obj, Items, nil, cons, to_list, pos, get, truthy, is_obj,
  Float, FloatOps, float_le, zero_float, hundred,
}
use map_service_agent.Failure.{type_error, Result, returned, raised}
use map_service_agent.Schema.Calendar.{Date}
use map_service_agent.Nodes.Strategy.{percent_of, date_text, entry_of, entries_of, daily_of}

-- The items of a list count, and those of nothing else.
abbrev pub AreItems : Json → List Json → Type 0
AreItems v ds =
    ((items : Items) × (v ≡ arr items) × (ds ≡ to_list items))
    ⊎ (((items : Items) → v ≢ arr items) × (ds ≡ []))

module _ (fl : FloatOps) (str_of : Json → Str) where
  -- A number from 0 to 100
  abbrev pub IsPercent : Json → ℕ → Type 0
  IsPercent v n =
      ((v ≡ int (pos n)) × (n ≤ 100))
      ⊎ ((x : Float) × (v ≡ float x)
          × (float_le zero_float x ≡ true)
          × (float_le x hundred ≡ true)
          × (n ≡ fl.trunc_nat x))

  -- A dict with a date and with a chance of rain
  pub record IsCounted (d : Json) (c : ℕ) (s : Str) (n : ℕ) : Type 0 where
    dict : is_obj d ≡ true
    dated : truthy (get "date" d) ≡ true
    date : str_of (get "date" d) ≡ c ∷ s
    percent : IsPercent (get "precipitation_prob" d) n

  -- The dates and chances of the entries that count, in their order.
  pub data AreEntries : List Json → List (Str × ℕ) → Type 0 where
    none_left : AreEntries [] []
    counted :
        {d : Json} {ds : List Json} {es : List (Str × ℕ)} {c : ℕ} {s : Str} {n : ℕ}
        → IsCounted d c s n
        → AreEntries ds es
        → AreEntries (d ∷ ds) ((c ∷ s, n) ∷ es)
    passed :
        {d : Json} {ds : List Json} {es : List (Str × ℕ)}
        → ((c : ℕ) (s : Str) (n : ℕ) → ¬ IsCounted d c s n)
        → AreEntries ds es
        → AreEntries (d ∷ ds) es

returned-eq {ℓ} : {A : Type ℓ} (a b : A) → returned a ≡ returned b → a ≡ b
returned-eq a b h = cc h

some-eq : (m n : ℕ) → some m ≡ some n → m ≡ n
some-eq m n h = cc h

both_true : (a b : Bool) → (a && b) ≡ true → (a ≡ true) × (b ≡ true)
both_true true b h = (refl, h)
both_true false b h = cc h

no_items :
    (b : Bool) (r : Result (List Json)) (ds : List Json)
    → (r ≡ returned []) ⊎ (r ≡ raised type_error)
    → (if b then r else returned []) ≡ returned ds
    → ds ≡ []
no_items false r ds c h = sym (returned-eq [] ds h)
no_items true r ds (inl c) h = let k = rw c at h in sym (returned-eq [] ds k)
no_items true r ds (inr c) h = let k = rw c at h in cc k

module _ (fl : FloatOps) (str_of : Json → Str) (from_iso : Str → Option Date) where
  pub daily_of-AreItems :
      (v : Json) (ds : List Json) → daily_of fl str_of from_iso v ≡ returned ds → AreItems v ds
  unfolding daily_of
  daily_of-AreItems (arr nil) ds h = inl (nil, refl, sym (returned-eq [] ds h))
  daily_of-AreItems (arr (cons v vs)) ds h =
      inl (cons v vs, refl, sym (returned-eq (to_list (cons v vs)) ds h))
  daily_of-AreItems (obj fs) ds h =
      inr (λ items e. cc e, no_items (truthy (obj fs)) (returned []) ds (inl refl) h)
  daily_of-AreItems (str s) ds h =
      inr (λ items e. cc e, no_items (truthy (str s)) (returned []) ds (inl refl) h)
  daily_of-AreItems null ds h = inr (λ items e. cc e, sym (returned-eq [] ds h))
  daily_of-AreItems v ds h =
      inr (λ items e. cc e, no_items (truthy v) (raised type_error) ds (inr refl) h)

  percent_of-IsPercent :
      (v : Json) (n : ℕ) → percent_of fl str_of from_iso v ≡ some n → IsPercent fl str_of v n
  unfolding percent_of
  percent_of-IsPercent (int (pos m)) n h = elim (Bool-cases (leb m 100)) [
    | inl e ↦
        let k = rw e at h in
        let same = some-eq m n k in inl (ap (λ i. int (pos i)) same, ground (arith, same))
    | inr e ↦ let k = rw e at h in cc k
  ]
  percent_of-IsPercent (float x) n h =
      elim (Bool-cases (float_le zero_float x && float_le x hundred)) [
        | inl e ↦
            let k = rw e at h in
            let (low, high) = both_true (float_le zero_float x) (float_le x hundred) e in
            inr (x, refl, low, high, sym (some-eq (fl.trunc_nat x) n k))
        | inr e ↦ let k = rw e at h in cc k
      ]
  percent_of-IsPercent _ n h = cc h

  percent_of-eq :
      (v : Json) (n : ℕ) → IsPercent fl str_of v n → percent_of fl str_of from_iso v ≡ some n
  unfolding percent_of
  percent_of-eq v n (inl (e, le)) =
      let small : leb n 100 ≡ true = ground arith in rw (percent_of, e, small) refl
  percent_of-eq v n (inr (x, e, low, high, t)) = rw (percent_of, e, low, high) (ap some (sym t))

  list-cases : (xs : Str) → (xs ≡ []) ⊎ ((c : ℕ) × (s : Str) × (xs ≡ c ∷ s))
  list-cases [] = inl refl
  list-cases (c ∷ s) = inr (c, s, refl)

  date_text-dated :
      (d : Json) (c : ℕ) (s : Str)
      → date_text fl str_of from_iso d ≡ c ∷ s
      → (truthy (get "date" d) ≡ true) × (str_of (get "date" d) ≡ c ∷ s)
  unfolding date_text
  date_text-dated d c s h = elim (Bool-cases (truthy (get "date" d))) [
    | inl e ↦ let k = rw e at h in (e, k)
    | inr e ↦ let k = rw e at h in cc k
  ]

  entry_of-eq :
      (d : Json) (c : ℕ) (s : Str) (n : ℕ)
      → IsCounted fl str_of d c s n
      → entry_of fl str_of from_iso d ≡ (c ∷ s, n) ∷ []
  unfolding entry_of date_text
  entry_of-eq d c s n k =
      rw
        (
          entry_of,
          k.dict,
          date_text,
          k.dated,
          k.date,
          percent_of-eq (get "precipitation_prob" d) n k.percent,
        )
        refl

  entry_of-cases :
      (d : Json)
      → ((c : ℕ) × (s : Str) × (n : ℕ) × IsCounted fl str_of d c s n
          × (entry_of fl str_of from_iso d ≡ (c ∷ s, n) ∷ []))
        ⊎ (entry_of fl str_of from_iso d ≡ [])
  unfolding entry_of
  entry_of-cases d = elim (Bool-cases (is_obj d)) [
    | inr o ↦ inr (rw (entry_of, o) refl)
    | inl o ↦ elim (list-cases (date_text fl str_of from_iso d)) [
      | inl e ↦ inr (rw (entry_of, o, e) refl)
      | inr (c, s, e) ↦
          elim (Option-cases (percent_of fl str_of from_iso (get "precipitation_prob" d))) [
            | inl p ↦ inr (rw (entry_of, o, e, p) refl)
            | inr (n, p) ↦
                let (dated, date) = date_text-dated d c s e in
                let k : IsCounted fl str_of d c s n = record {
                  dict = o;
                  dated = dated;
                  date = date;
                  percent = percent_of-IsPercent (get "precipitation_prob" d) n p;
                } in
                inl (c, s, n, k, entry_of-eq d c s n k)
          ]
    ]
  ]

  pub entries_of-AreEntries :
      (ds : List Json) → AreEntries fl str_of ds (entries_of fl str_of from_iso ds)
  unfolding entries_of
  entries_of-AreEntries [] = none_left
  entries_of-AreEntries (d ∷ ds) = elim (entry_of-cases d) [
    | inl (c, s, n, k, e) ↦ rw e (counted k (entries_of-AreEntries ds))
    | inr e ↦ rw e (
        passed
          (λ c s n k.
            let full = entry_of-eq d c s n k in
            let bad : [] ≡ (c ∷ s, n) ∷ [] = sym e ∙ full in cc bad)
          (entries_of-AreEntries ds))
  ]
