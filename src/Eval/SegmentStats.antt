-- ===== src/Eval/SegmentStats.antt =====
-- eval/segment_stats.py: `segment_key` and `build`. How a rate is rounded is a parameter; a support
-- below 0, which lets everything pass, is 0 here.
pub mod Counted
pub mod Refined
use map_service_agent.Prelude.{
  ℕ, suc, ◌+◌, Bool, Option, none, some, List, [], ◌∷◌, ◌++◌, ltb, if◌then◌else◌,
}
use map_service_agent.Value.{Str, codes, Float}
use map_service_agent.Eval.Tables.{Table, value_at, update_at, keep_some}

-- A session as it was exported; what is missing or null is `none`.
pub record Shown : Type 0 where
  pub content_id : Option Str
  pub saved : Bool

pub record Session : Type 0 where
  pub l1_eligible : Bool
  pub age_band : Option Str
  pub gender : Option Str
  pub candidates : List Shown

abbrev or_unknown : Option Str → Str
or_unknown none = codes "unknown"
or_unknown (some []) = codes "unknown"
or_unknown (some (c ∷ cs)) = c ∷ cs

-- `segment_key`
unfoldable pub segment_key : Session → Str
segment_key row = or_unknown row.age_band ++ b'|' ∷ or_unknown row.gender

-- What a `defaultdict` has for a missing key
abbrev pub or_zero : Option ℕ → ℕ
or_zero none = 0
or_zero (some n) = n

abbrev pub or_none_yet {ℓ} : {V : Type ℓ} → Option (Table V) → Table V
or_none_yet none = []
or_none_yet (some es) = es

-- `counts[key] += 1` and `counts[key][cid] += 1`
unfoldable pub bump : Str → Table ℕ → Table ℕ
bump key counts = update_at key (λ n. suc (or_zero n)) counts

unfoldable pub bump_in : Str → Str → Table (Table ℕ) → Table (Table ℕ)
bump_in key cid counts = update_at key (λ c. bump cid (or_none_yet c)) counts

-- The counters of `build`
pub record Tally : Type 0 where
  pub shown : Table (Table ℕ)
  pub saved : Table (Table ℕ)
  pub sessions_per_segment : Table ℕ
  pub used : ℕ

-- One round of the inner loop
unfoldable pub add_shown : Str → Option Str → Bool → Tally → Tally
add_shown key none was_saved t = t
add_shown key (some []) was_saved t = t
add_shown key (some (c ∷ cs)) was_saved t = record t {
  shown = bump_in key (c ∷ cs) t.shown;
  saved = if was_saved then bump_in key (c ∷ cs) t.saved else t.saved;
}

unfoldable pub add_candidates : Str → List Shown → Tally → Tally
add_candidates key [] t = t
add_candidates key (c ∷ cs) t = add_candidates key cs (add_shown key c.content_id c.saved t)

unfoldable pub count_session : Str → Tally → Tally
count_session key t = record t {
  sessions_per_segment = bump key t.sessions_per_segment;
  used = suc t.used;
}

-- One round of the outer loop
unfoldable pub add_session : Session → Tally → Tally
add_session row t =
    if row.l1_eligible
    then add_candidates (segment_key row) row.candidates (count_session (segment_key row) t)
    else t

unfoldable pub add_sessions : List Session → Tally → Tally
add_sessions [] t = t
add_sessions (row ∷ rows) t = add_sessions rows (add_session row t)

abbrev pub no_tally : Tally
no_tally = record { shown = []; saved = []; sessions_per_segment = []; used = 0 }

pub record PlaceStats : Type 0 where
  pub shown : ℕ
  pub saved : ℕ
  pub rate : Float

pub record SegmentStats : Type 0 where
  pub sessions : ℕ
  pub places : Table PlaceStats

pub record Stats : Type 0 where
  pub min_support : ℕ
  pub sessions_used : ℕ
  pub segments : Table SegmentStats
  pub dropped_below_support : ℕ

unfoldable pub dropped_in : ℕ → Table ℕ → ℕ
dropped_in min_support [] = 0
dropped_in min_support ((cid, n) ∷ counts) =
    (if ltb n min_support then 1 else 0) + dropped_in min_support counts

unfoldable pub dropped_of : ℕ → Table (Table ℕ) → ℕ
dropped_of min_support [] = 0
dropped_of min_support ((key, counts) ∷ shown) =
    dropped_in min_support counts + dropped_of min_support shown

-- `if places:`
unfoldable pub unless_no_places : ℕ → Table PlaceStats → Option SegmentStats
unless_no_places sessions [] = none
unless_no_places sessions (p ∷ ps) = some (record { sessions = sessions; places = p ∷ ps })

-- `rate_of saved shown` is `round(saved / shown, 4)`.
module _ (rate_of : ℕ → ℕ → Float) (min_support : ℕ) where
  unfoldable pub place_stats : Table ℕ → Str → ℕ → Option PlaceStats
  place_stats saved cid n =
      if ltb n min_support
      then none
      else some (record {
        shown = n;
        saved = or_zero (value_at cid saved);
        rate = rate_of (or_zero (value_at cid saved)) n;
      })

  unfoldable pub segment_stats_of : Tally → Str → Table ℕ → Option SegmentStats
  segment_stats_of t key counts =
      unless_no_places (or_zero (value_at key t.sessions_per_segment))
        (keep_some (place_stats (or_none_yet (value_at key t.saved))) counts)

  unfoldable pub stats_of : Tally → Stats
  stats_of t = record {
    min_support = min_support;
    sessions_used = t.used;
    segments = keep_some (segment_stats_of t) t.shown;
    dropped_below_support = dropped_of min_support t.shown;
  }

  -- `build`
  unfoldable pub build_stats : List Session → Stats
  build_stats rows = stats_of (add_sessions rows no_tally)
