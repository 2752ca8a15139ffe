-- ===== src/Samples/Statistics.antt =====
-- Sessions that are counted.
use map_service_agent.Prelude.{ℕ, true, false, none, some, List, [], ◌∷◌}
use map_service_agent.Value.{codes, Float}
use map_service_agent.Eval.SegmentStats.{Shown, Session, build_stats}
use map_service_agent.Eval.SegmentStats.Refined.{Refines, build_stats-Refines}
use map_service_agent.Samples.{whole}

abbrev liked : Shown
liked = record { content_id = some (codes "a"); saved = true }

abbrev passed : Shown
passed = record { content_id = some (codes "b"); saved = false }

-- One session counts for the segment 30s|unknown, and one for none.
abbrev rows : List Session
rows =
    record {
      l1_eligible = true;
      age_band = some (codes "30s");
      gender = none;
      candidates = liked ∷ liked ∷ passed ∷ [];
    }
    ∷ record { l1_eligible = false; age_band = none; gender = none; candidates = passed ∷ [] }
    ∷ []

abbrev rate_of : ℕ → ℕ → Float
rate_of saved shown = whole saved

build_stats-Refines_example : Refines rate_of 2 rows (build_stats rate_of 2 rows)
build_stats-Refines_example = build_stats-Refines rate_of 2 rows
