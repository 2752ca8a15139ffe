-- ===== src/Summary/Lines.antt =====
-- app/nodes/summary_nodes.py, `collect_bullets`, and a whole run: whose lines are kept.
use map_service_agent.Prelude.{
  ℕ, zero, suc, ◌≤◌, ◌≡◌, refl, ap, sym, subst, true, false, ◌||◌, Option, none, some, List, [],
  ◌∷◌, ◌++◌, take, length, contains, All, All-append, get_elem?, arith, tests, Bool-cases, inl, inr,
  ltb, ◌==◌,
}
use map_service_agent.Value.{Str, ℤ, pos, negsuc}
use map_service_agent.Schema.Model.{PlaceBullets}
use map_service_agent.Nodes.State.{or_empty}
use map_service_agent.Summary.{
  SummaryState, lines_of, has_key, add_lines, add_item, collect, with_collected, collect_bullets,
}

-- The two lines of place `i` are the first two of an answer of the model for it.
abbrev pub IsAnswered : List PlaceBullets → ℕ × List Str → Type 0
IsAnswered items e =
    (n : ℕ) × (item : PlaceBullets) × (get_elem? items n ≡ some item)
    × (item.place_id ≡ pos e.0)
    × (2 ≤ length (lines_of item.bullets))
    × (e.1 ≡ take 2 (lines_of item.bullets))

-- No place has two entries.
abbrev pub Distinct : List (ℕ × List Str) → Type 0
Distinct [] = Unit
Distinct (e ∷ es) = (has_key e.0 es ≡ false) × Distinct es

-- An answer that may be used: its number was in the prompt, and it has two lines.
abbrev pub IsUsable : List ℕ → PlaceBullets → ℕ → Type 0
IsUsable valid_ids item i =
    (item.place_id ≡ pos i) × (contains valid_ids i ≡ true) × (2 ≤ length (lines_of item.bullets))

pub record AreCollected (valid_ids : List ℕ) (items : List PlaceBullets)
    (collected : List (ℕ × List Str)) : Type 0 where
  pub known : All (λ e. contains valid_ids e.0 ≡ true) collected
  pub answered : All (IsAnswered items) collected
  pub distinct : Distinct collected
  pub complete :
      (n : ℕ) (item : PlaceBullets) (i : ℕ)
      → get_elem? items n ≡ some item
      → IsUsable valid_ids item i
      → has_key i collected ≡ true

has_key-append :
    (i j : ℕ) (lines : List Str) (es : List (ℕ × List Str))
    → has_key i (es ++ (j, lines) ∷ []) ≡ (has_key i es || j == i)
has_key-append i j lines [] = ground arith
has_key-append i j lines (e ∷ es) = ground (arith, has_key-append i j lines es)

Distinct-append :
    (j : ℕ) (lines : List Str) (es : List (ℕ × List Str))
    → has_key j es ≡ false
    → Distinct es
    → Distinct (es ++ (j, lines) ∷ [])
Distinct-append j lines [] h d = (refl, tt)
Distinct-append j lines (e ∷ es) h d =
    (ground (arith, has_key-append e.0 j lines es), Distinct-append j lines es (ground arith) d.1)

module _ (valid_ids : List ℕ) where
  -- One round: nothing changes, or a usable answer for a new place is added at the end.
  data Added (item : PlaceBullets) (es : List (ℕ × List Str)) : List (ℕ × List Str) → Type 0 where
    kept : ((i : ℕ) → IsUsable valid_ids item i → has_key i es ≡ true) → Added item es es
    added :
        (i : ℕ)
        → IsUsable valid_ids item i
        → has_key i es ≡ false
        → Added item es (es ++ (i, take 2 (lines_of item.bullets)) ∷ [])

  pos-eq : (i j : ℕ) → pos i ≡ pos j → i ≡ j
  pos-eq i j h = cc h

  same_id :
      (item : PlaceBullets) (i j : ℕ) → item.place_id ≡ pos i → IsUsable valid_ids item j → j ≡ i
  same_id item i j e u = pos-eq j i (cc (u.0, e))

  add_lines-Added :
      (item : PlaceBullets) (i : ℕ) (es : List (ℕ × List Str))
      → item.place_id ≡ pos i
      → Added item es (add_lines valid_ids i (lines_of item.bullets) es)
  unfolding add_lines
  add_lines-Added item i es e = elim (Bool-cases (contains valid_ids i)) [
    | inr c ↦ rw c (kept λ j u. let same = same_id item i j e u in cc (u.1, c, same))
    | inl c ↦ elim (Bool-cases (has_key i es)) [
      | inl k ↦ rw (c, k) (kept λ j u. let same = same_id item i j e u in cc (k, same))
      | inr k ↦ elim (Bool-cases (ltb (length (lines_of item.bullets)) 2)) [
        | inl l ↦ rw (c, k, l) (kept λ j u. let two = u.2 in absurd (omega tests))
        | inr l ↦ rw (c, k, l) (added i (e, c, omega tests) k)
      ]
    ]
  ]

  add_item-Added :
      (item : PlaceBullets) (z : ℤ) (es : List (ℕ × List Str))
      → item.place_id ≡ z
      → Added item es (add_item valid_ids item z es)
  unfolding add_item
  add_item-Added item (pos i) es e = add_lines-Added item i es e
  add_item-Added item (negsuc i) es e = kept λ j u. cc (u.0, e)

  -- What one round leaves, and what it keeps.
  Added-has_key :
      (item : PlaceBullets) (es fs : List (ℕ × List Str)) (i : ℕ)
      → Added item es fs
      → has_key i es ≡ true
      → has_key i fs ≡ true
  Added-has_key item es _ i (kept k) h = h
  Added-has_key item es _ i (added j u n) h =
      ground (arith, has_key-append i j (take 2 (lines_of item.bullets)) es)

  Added-usable :
      (item : PlaceBullets) (es fs : List (ℕ × List Str)) (i : ℕ)
      → Added item es fs
      → IsUsable valid_ids item i
      → has_key i fs ≡ true
  Added-usable item es _ i (kept k) u = k i u
  Added-usable item es _ i (added j v n) u =
      let same = same_id item j i v.0 u in
      ground (arith, has_key-append i j (take 2 (lines_of item.bullets)) es)

  Added-Distinct :
      (item : PlaceBullets) (es fs : List (ℕ × List Str))
      → Added item es fs
      → Distinct es
      → Distinct fs
  Added-Distinct item es _ (kept k) d = d
  Added-Distinct item es _ (added j u n) d =
      Distinct-append j (take 2 (lines_of item.bullets)) es n d

  module _ (P : ℕ × List Str → Type 0) where
    Added-All :
        (item : PlaceBullets) (es fs : List (ℕ × List Str))
        → ((i : ℕ) → IsUsable valid_ids item i → P (i, take 2 (lines_of item.bullets)))
        → Added item es fs
        → All P es
        → All P fs
    Added-All item es _ good (kept k) h = h
    Added-All item es _ good (added j u n) h = All-append P es _ h (good j u, tt)

    collect-All :
        (items : List PlaceBullets) (es : List (ℕ × List Str))
        → ((n : ℕ) (item : PlaceBullets) (i : ℕ)
            → get_elem? items n ≡ some item
            → IsUsable valid_ids item i
            → P (i, take 2 (lines_of item.bullets)))
        → All P es
        → All P (collect valid_ids items es)
    unfolding collect
    collect-All [] es good h = h
    collect-All (item ∷ items) es good h =
        collect-All items (add_item valid_ids item item.place_id es)
          (λ n next i g u. good (suc n) next i g u)
          (Added-All item es _ (λ i u. good 0 item i refl u)
            (add_item-Added item item.place_id es refl) h)

  collect-Distinct :
      (items : List PlaceBullets) (es : List (ℕ × List Str))
      → Distinct es
      → Distinct (collect valid_ids items es)
  unfolding collect
  collect-Distinct [] es d = d
  collect-Distinct (item ∷ items) es d =
      collect-Distinct items (add_item valid_ids item item.place_id es)
        (Added-Distinct item es _ (add_item-Added item item.place_id es refl) d)

  collect-has_key :
      (items : List PlaceBullets) (es : List (ℕ × List Str)) (i : ℕ)
      → has_key i es ≡ true
      → has_key i (collect valid_ids items es) ≡ true
  unfolding collect
  collect-has_key [] es i h = h
  collect-has_key (item ∷ items) es i h =
      collect-has_key items (add_item valid_ids item item.place_id es) i
        (Added-has_key item es _ i (add_item-Added item item.place_id es refl) h)

  collect_complete :
      (items : List PlaceBullets) (es : List (ℕ × List Str)) (n : ℕ) (item : PlaceBullets) (i : ℕ)
      → get_elem? items n ≡ some item
      → IsUsable valid_ids item i
      → has_key i (collect valid_ids items es) ≡ true
  unfolding collect
  collect_complete [] es n item i g u = cc g
  collect_complete (first ∷ items) es zero item i g u =
      collect-has_key items (add_item valid_ids first first.place_id es) i (
        Added-usable first es _ i (add_item-Added first first.place_id es refl)
          (subst (λ x. IsUsable valid_ids x i) (sym (some-eq first item g)) u))
    where
      some-eq : (x y : PlaceBullets) → some x ≡ some y → x ≡ y
      some-eq x y h = ap (value x) h
        where
          value : PlaceBullets → Option PlaceBullets → PlaceBullets
          value d none = d
          value d (some v) = v
  collect_complete (first ∷ items) es (suc n) item i g u =
      collect_complete items (add_item valid_ids first first.place_id es) n item i g u

  -- The entries are for places that the model was shown, each with two lines of the model's answer
  -- for that very place, and no place has two; every place that the model answered with two lines
  -- has its entry.
  pub collect-AreCollected :
      (items : List PlaceBullets) → AreCollected valid_ids items (collect valid_ids items [])
  collect-AreCollected items = record {
    known = collect-All (λ e. contains valid_ids e.0 ≡ true) items [] (λ n item i g u. u.1) tt;
    answered =
        collect-All (IsAnswered items) items [] (λ n item i g u. (n, item, g, u.0, u.2, refl)) tt;
    distinct = collect-Distinct items [] tt;
    complete = λ n item i g u. collect_complete items [] n item i g u;
  }

or_empty-collected :
    (s : SummaryState) (es : List (ℕ × List Str))
    → s.bullets ≡ none
    → or_empty (with_collected s es).bullets ≡ es
unfolding with_collected
or_empty-collected s [] h = rw h refl
or_empty-collected s (e ∷ es) h = refl

-- Where no lines are there yet, collect_bullets keeps entries only for places that the model was
-- shown, each with the first two lines of an answer for that very place, and at most one for each;
-- and every place that the model answered with two lines gets its entry.
pub collect_bullets-AreCollected :
    (s : SummaryState)
    → s.bullets ≡ none
    → AreCollected (or_empty s.valid_ids) (or_empty s.items) (or_empty (collect_bullets s).bullets)
unfolding collect_bullets
collect_bullets-AreCollected s h =
    rw (or_empty-collected s (collect (or_empty s.valid_ids) (or_empty s.items) []) h)
      (collect-AreCollected (or_empty s.valid_ids) (or_empty s.items))
