-- ===== src/Eval/SegmentStats/Refined.antt =====
-- eval/segment_stats.py, `build`: what the statistics say of a place is what the sessions say.
use map_service_agent.Prelude.{
  ℕ, suc, ◌<◌, ◌≡◌, ◌≢◌, refl, ap, sym, ◌∙◌, Bool, true, not, ◌&&◌, Option, none, some, List, [],
  ◌∷◌, ltb, if◌then◌else◌, Bool-cases, inl, inr, arith,
}
use map_service_agent.Value.{Str, str_eq, Float}
use map_service_agent.Nodes.Candidates.{and_then}
use map_service_agent.Eval.Tables.{
  Table, value_at, AreOnce, AreOnce-update_at, value_at-update_at, value_at-keep_some,
}
use map_service_agent.Eval.SegmentStats.{
  Shown, Session, segment_key, or_zero, or_none_yet, bump, bump_in, Tally, add_shown,
  add_candidates, count_session, add_session, add_sessions, no_tally, PlaceStats, SegmentStats,
  Stats, unless_no_places, place_stats, segment_stats_of, stats_of, build_stats,
}
use map_service_agent.Eval.SegmentStats.Counted.{
  shown_of, saved_of, sessions_of, eligible, counts_at, cell, counts_at-bump_in, Counts,
  add_sessions-Counts,
}

-- In a table of counters no key stands twice, and each counter has counted something.
record AreCounters (t : Table (Table ℕ)) : Type 0 where
  once : AreOnce t
  once_in : (k : Str) → AreOnce (counts_at k t)
  positive : (k i : Str) (n : ℕ) → value_at i (counts_at k t) ≡ some n → 0 < n

AreOnce-bump : (key : Str) (t : Table ℕ) → AreOnce t → AreOnce (bump key t)
unfolding bump
AreOnce-bump key t h = AreOnce-update_at key _ t h

bump_positive :
    (key i : Str) (n : ℕ) (t : Table ℕ)
    → ((m : ℕ) → value_at i t ≡ some m → 0 < m)
    → value_at i (bump key t) ≡ some n
    → 0 < n
unfolding bump
bump_positive key i n t h e =
    let at = sym (value_at-update_at key i (λ m. suc (or_zero m)) t) ∙ e in
    elim (Bool-cases (str_eq key i)) [
      | inl s ↦ let k = rw s at at in ap_some n _ k
      | inr s ↦ let k = rw s at at in h n k
    ]
  where
    ap_some : (n m : ℕ) → some (suc m) ≡ some n → 0 < n
    ap_some n m h = let f = ap or_zero h in omega (arith, f)

bump_in-AreCounters :
    (key cid : Str) (t : Table (Table ℕ)) → AreCounters t → AreCounters (bump_in key cid t)
bump_in-AreCounters key cid t h = record {
  once = unfold bump_in in AreOnce-update_at key _ t h.once;
  once_in = λ k. rw (counts_at-bump_in key cid k t) (elim (Bool-cases (str_eq key k)) [
    | inl e ↦ rw e (AreOnce-bump cid (counts_at k t) (h.once_in k))
    | inr e ↦ rw e (h.once_in k)
  ]);
  positive = λ k i n e.
      let at = rw (counts_at-bump_in key cid k t) at e in
      elim (Bool-cases (str_eq key k)) [
        | inl s ↦ let f = rw s at at in bump_positive cid i n (counts_at k t) (h.positive k i) f
        | inr s ↦ let f = rw s at at in h.positive k i n f
      ];
}

no_counters : AreCounters []
unfolding value_at
no_counters = record { once = tt; once_in = λ k. tt; positive = λ k i n e. cc e }

add_shown-AreCounters :
    (key : Str) (o : Option Str) (b : Bool) (t : Tally)
    → AreCounters t.shown
    → AreCounters (add_shown key o b t).shown
unfolding add_shown
add_shown-AreCounters key none b t h = h
add_shown-AreCounters key (some []) b t h = h
add_shown-AreCounters key (some (c ∷ cs)) b t h = bump_in-AreCounters key (c ∷ cs) t.shown h

add_candidates-AreCounters :
    (key : Str) (cs : List Shown) (t : Tally)
    → AreCounters t.shown
    → AreCounters (add_candidates key cs t).shown
unfolding add_candidates
add_candidates-AreCounters key [] t h = h
add_candidates-AreCounters key (c ∷ cs) t h =
    add_candidates-AreCounters key cs (add_shown key c.content_id c.saved t)
      (add_shown-AreCounters key c.content_id c.saved t h)

add_session-AreCounters :
    (row : Session) (t : Tally) → AreCounters t.shown → AreCounters (add_session row t).shown
unfolding add_session
add_session-AreCounters row t h = elim (Bool-cases row.l1_eligible) [
  | inl e ↦
      simp (add_session, e)
        (add_candidates-AreCounters (segment_key row) row.candidates
          (count_session (segment_key row) t) (unfold count_session in h))
  | inr e ↦ simp (add_session, e) h
]

add_sessions-AreCounters :
    (rows : List Session) (t : Tally)
    → AreCounters t.shown
    → AreCounters (add_sessions rows t).shown
unfolding add_sessions
add_sessions-AreCounters [] t h = h
add_sessions-AreCounters (row ∷ rows) t h =
    add_sessions-AreCounters rows (add_session row t) (add_session-AreCounters row t h)

abbrev places_of : Option SegmentStats → Table PlaceStats
places_of none = []
places_of (some s) = s.places

places_of-unless_no_places :
    (n : ℕ) (ps : Table PlaceStats) → places_of (unless_no_places n ps) ≡ ps
unfolding unless_no_places
places_of-unless_no_places n [] = refl
places_of-unless_no_places n (p ∷ ps) = refl

unless_no_places-some :
    (n : ℕ) (ps : Table PlaceStats) (s : SegmentStats)
    → unless_no_places n ps ≡ some s
    → (s.sessions ≡ n) × (s.places ≢ [])
unfolding unless_no_places
unless_no_places-some n [] s h = cc h
unless_no_places-some n (p ∷ ps) s h =
    let same = ap (λ o. or_this o) h in
    (ap (λ x. x.sessions) (sym same), λ none_there. cc (ap (λ x. x.places) same, none_there))
  where
    or_this : Option SegmentStats → SegmentStats
    or_this none = s
    or_this (some x) = x

module _ (rate_of : ℕ → ℕ → Float) (min_support : ℕ) where
  -- What the statistics are to say of a place that was shown and saved so often.
  abbrev pub expected : (shown saved : ℕ) → Option PlaceStats
  expected shown saved =
      if ltb 0 shown && not (ltb shown min_support)
      then some (record { shown = shown; saved = saved; rate = rate_of saved shown })
      else none

  place-expected :
      (o : Option ℕ) (cid : Str) (saved : Table ℕ)
      → ((n : ℕ) → o ≡ some n → 0 < n)
      → and_then o (place_stats rate_of min_support saved cid)
        ≡ expected (or_zero o) (or_zero (value_at cid saved))
  unfolding place_stats
  place-expected none cid saved h = refl
  place-expected (some n) cid saved h =
      let some_shown = h n refl in
      let e : ltb 0 n ≡ true = ground arith in
      elim (Bool-cases (ltb n min_support)) [
        | inl d ↦ rw (place_stats, d, e) refl
        | inr d ↦ rw (place_stats, d, e) refl
      ]

  -- The statistics against the sessions themselves.
  pub record Refines (rows : List Session) (stats : Stats) : Type 0 where
    pub used : stats.sessions_used ≡ eligible rows
    pub entries :
        (key cid : Str)
        → value_at cid (places_of (value_at key stats.segments))
          ≡ expected (shown_of key cid rows) (saved_of key cid rows)
    pub sessions :
        (key : Str) (s : SegmentStats)
        → value_at key stats.segments ≡ some s
        → (s.sessions ≡ sessions_of key rows) × (s.places ≢ [])

  segment-entries :
      (t : Tally) (key cid : Str)
      → AreCounters t.shown
      → value_at cid
          (places_of (and_then (value_at key t.shown) (segment_stats_of rate_of min_support t key)))
        ≡ expected (cell key cid t.shown) (cell key cid t.saved)
  segment-entries t key cid h =
      segment_entry (value_at key t.shown) (h.once_in key) (h.positive key cid)
    where
      segment_entry :
          (o : Option (Table ℕ))
          → AreOnce (or_none_yet o)
          → ((n : ℕ) → value_at cid (or_none_yet o) ≡ some n → 0 < n)
          → value_at cid (places_of (and_then o (segment_stats_of rate_of min_support t key)))
            ≡ expected (or_zero (value_at cid (or_none_yet o))) (cell key cid t.saved)
      segment_entry none once positive = unfold value_at in refl
      segment_entry (some counts) once positive =
          unfold segment_stats_of in
          rw
            (
              places_of-unless_no_places _ _,
              value_at-keep_some (place_stats rate_of min_support (counts_at key t.saved)) cid
                  counts once,
            )
            (place-expected (value_at cid counts) cid (counts_at key t.saved) positive)

  segment-sessions :
      (t : Tally) (key : Str) (o : Option (Table ℕ)) (s : SegmentStats)
      → and_then o (segment_stats_of rate_of min_support t key) ≡ some s
      → (s.sessions ≡ or_zero (value_at key t.sessions_per_segment)) × (s.places ≢ [])
  unfolding segment_stats_of
  segment-sessions t key none s h = cc h
  segment-sessions t key (some counts) s h = unless_no_places-some _ _ s h

  stats-Refines :
      (rows : List Session) (t : Tally)
      → AreCounters t.shown
      → Counts rows no_tally t
      → Refines rows (stats_of rate_of min_support t)
  unfolding stats_of value_at
  stats-Refines rows t h c =
      let found = λ (key : Str).
        value_at-keep_some (segment_stats_of rate_of min_support t) key t.shown h.once in
      record {
        used = omega (arith, c.all_used);
        entries = λ key cid.
            let shown : cell key cid t.shown ≡ shown_of key cid rows =
              omega (arith, c.all_shown key cid) in
            let saved : cell key cid t.saved ≡ saved_of key cid rows =
              omega (arith, c.all_saved key cid) in
            rw (found key) (segment-entries t key cid h ∙ rw (shown, saved) refl);
        sessions = λ key s e.
            let (n, ps) = segment-sessions t key (value_at key t.shown) s (sym (found key) ∙ e) in
            (omega (arith, n, c.all_sessions key), ps);
      }

  -- The statistics have an entry for a place in a segment exactly if it was shown there, in sessions
  -- that can be learnt from, and not less often than the support asks; the entry says how often it
  -- was shown and saved in these sessions. Each segment has a place and the number of its sessions,
  -- and all sessions that can be learnt from are counted.
  pub build_stats-Refines :
      (rows : List Session) → Refines rows (build_stats rate_of min_support rows)
  unfolding build_stats
  build_stats-Refines rows =
      stats-Refines rows (add_sessions rows no_tally)
        (add_sessions-AreCounters rows no_tally no_counters) (add_sessions-Counts rows no_tally)
