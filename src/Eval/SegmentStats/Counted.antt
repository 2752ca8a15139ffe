-- ===== src/Eval/SegmentStats/Counted.antt =====
-- eval/segment_stats.py, `build`: the statistics are the counts over the sessions.
use map_service_agent.Prelude.{
  ℕ, suc, ◌+◌, ◌≡◌, refl, ap, ◌∙◌, Bool, true, false, ◌&&◌, Option, none, some, List, [], ◌∷◌,
  if◌then◌else◌, Bool-cases, inl, inr, arith,
}
use map_service_agent.Value.{Str, str_eq, str_eq→eq}
use map_service_agent.Eval.Tables.{Table, value_at, value_at-update_at}
use map_service_agent.Eval.SegmentStats.{
  Shown, Session, segment_key, or_zero, or_none_yet, bump, bump_in, Tally, add_shown,
  add_candidates, count_session, add_session, add_sessions,
}

-- The reference: how often something holds of what was shown in the sessions of a segment.
abbrev pub one_if : Bool → ℕ
one_if b = if b then 1 else 0

abbrev has_id : Str → Option Str → Bool
has_id cid none = false
has_id cid (some []) = false
has_id cid (some (c ∷ cs)) = str_eq (c ∷ cs) cid

abbrev times_shown : Str → List Shown → ℕ
times_shown cid [] = 0
times_shown cid (c ∷ cs) = one_if (has_id cid c.content_id) + times_shown cid cs

abbrev times_saved : Str → List Shown → ℕ
times_saved cid [] = 0
times_saved cid (c ∷ cs) = one_if (has_id cid c.content_id && c.saved) + times_saved cid cs

-- A sum over the sessions that count for a segment
abbrev over_segment : Str → (Session → ℕ) → List Session → ℕ
over_segment key f [] = 0
over_segment key f (row ∷ rows) =
    (if row.l1_eligible && str_eq (segment_key row) key then f row else 0) + over_segment key f rows

abbrev pub shown_of : Str → Str → List Session → ℕ
shown_of key cid = over_segment key (λ row. times_shown cid row.candidates)

abbrev pub saved_of : Str → Str → List Session → ℕ
saved_of key cid = over_segment key (λ row. times_saved cid row.candidates)

abbrev pub sessions_of : Str → List Session → ℕ
sessions_of key = over_segment key (λ row. 1)

abbrev pub eligible : List Session → ℕ
eligible [] = 0
eligible (row ∷ rows) = one_if row.l1_eligible + eligible rows

-- The counters that the tables hold.
abbrev pub counts_at : Str → Table (Table ℕ) → Table ℕ
counts_at key t = or_none_yet (value_at key t)

abbrev pub cell : Str → Str → Table (Table ℕ) → ℕ
cell key cid t = or_zero (value_at cid (counts_at key t))

count-bump :
    (key i : Str) (t : Table ℕ)
    → or_zero (value_at i (bump key t)) ≡ one_if (str_eq key i) + or_zero (value_at i t)
unfolding bump
count-bump key i t =
    rw (value_at-update_at key i (λ n. suc (or_zero n)) t) (elim (Bool-cases (str_eq key i)) [
      | inr e ↦ rw e (omega arith)
      | inl e ↦
          let same = ap (λ x. or_zero (value_at x t)) (str_eq→eq key i e) in
          rw e (omega (arith, same))
    ])

pub counts_at-bump_in :
    (key cid k : Str) (t : Table (Table ℕ))
    → counts_at k (bump_in key cid t)
      ≡ (if str_eq key k then bump cid (counts_at k t) else counts_at k t)
unfolding bump_in
counts_at-bump_in key cid k t =
    rw (value_at-update_at key k (λ c. bump cid (or_none_yet c)) t)
      (elim (Bool-cases (str_eq key k)) [
        | inr e ↦ rw e refl
        | inl e ↦ let same = ap (λ x. bump cid (counts_at x t)) (str_eq→eq key k e) in rw (e) same
      ])

cell-bump_in :
    (key cid k i : Str) (t : Table (Table ℕ))
    → cell k i (bump_in key cid t) ≡ one_if (str_eq key k && str_eq cid i) + cell k i t
cell-bump_in key cid k i t = rw (counts_at-bump_in key cid k t) (elim (Bool-cases (str_eq key k)) [
  | inr e ↦ rw e (omega arith)
  | inl e ↦ rw e (count-bump cid i (counts_at k t))
])

shown-add_shown :
    (key : Str) (o : Option Str) (b : Bool) (t : Tally) (k i : Str)
    → cell k i (add_shown key o b t).shown ≡ one_if (str_eq key k && has_id i o) + cell k i t.shown
unfolding add_shown
shown-add_shown key none b t k i = ground arith
shown-add_shown key (some []) b t k i = ground arith
shown-add_shown key (some (c ∷ cs)) b t k i = cell-bump_in key (c ∷ cs) k i t.shown

saved-add_shown :
    (key : Str) (o : Option Str) (b : Bool) (t : Tally) (k i : Str)
    → cell k i (add_shown key o b t).saved
      ≡ one_if (str_eq key k && (has_id i o && b)) + cell k i t.saved
unfolding add_shown
saved-add_shown key none b t k i = ground arith
saved-add_shown key (some []) b t k i = ground arith
saved-add_shown key (some (c ∷ cs)) true t k i =
    cell-bump_in key (c ∷ cs) k i t.saved ∙ ground arith
saved-add_shown key (some (c ∷ cs)) false t k i = ground arith

sessions-add_shown :
    (key : Str) (o : Option Str) (b : Bool) (t : Tally)
    → ((add_shown key o b t).sessions_per_segment ≡ t.sessions_per_segment)
      × ((add_shown key o b t).used ≡ t.used)
unfolding add_shown
sessions-add_shown key none b t = (refl, refl)
sessions-add_shown key (some []) b t = (refl, refl)
sessions-add_shown key (some (c ∷ cs)) b t = (refl, refl)

-- What the candidates of one session add to the counters.
record Adds (key : Str) (cs : List Shown) (t u : Tally) : Type 0 where
  pub all_shown :
      (k i : Str)
      → cell k i u.shown ≡ (if str_eq key k then times_shown i cs else 0) + cell k i t.shown
  pub all_saved :
      (k i : Str)
      → cell k i u.saved ≡ (if str_eq key k then times_saved i cs else 0) + cell k i t.saved
  same_sessions : u.sessions_per_segment ≡ t.sessions_per_segment
  same_used : u.used ≡ t.used

add_candidates-Adds :
    (key : Str) (cs : List Shown) (t : Tally) → Adds key cs t (add_candidates key cs t)
unfolding add_candidates
add_candidates-Adds key [] t = record {
  all_shown = λ k i. ground arith;
  all_saved = λ k i. ground arith;
  same_sessions = refl;
  same_used = refl;
}
add_candidates-Adds key (c ∷ cs) t =
    let rest = add_candidates-Adds key cs (add_shown key c.content_id c.saved t) in
    let same = sessions-add_shown key c.content_id c.saved t in
    record {
      all_shown =
          λ k i. ground (arith, rest.all_shown k i, shown-add_shown key c.content_id c.saved t k i);
      all_saved =
          λ k i. ground (arith, rest.all_saved k i, saved-add_shown key c.content_id c.saved t k i);
      same_sessions = rest.same_sessions ∙ same.0;
      same_used = rest.same_used ∙ same.1;
    }

-- What sessions add to the counters.
pub record Counts (rows : List Session) (t u : Tally) : Type 0 where
  pub all_shown : (k i : Str) → cell k i u.shown ≡ shown_of k i rows + cell k i t.shown
  pub all_saved : (k i : Str) → cell k i u.saved ≡ saved_of k i rows + cell k i t.saved
  pub all_sessions :
      (k : Str)
      → or_zero (value_at k u.sessions_per_segment)
        ≡ sessions_of k rows + or_zero (value_at k t.sessions_per_segment)
  pub all_used : u.used ≡ eligible rows + t.used

session-Counts :
    (row : Session) (t u : Tally) (b : Bool)
    → row.l1_eligible ≡ b
    → Adds (segment_key row) row.candidates (count_session (segment_key row) t) u
    → Counts (row ∷ []) t (if b then u else t)
unfolding count_session
session-Counts row t u false e a = record {
  all_shown = λ k i. ground arith;
  all_saved = λ k i. ground arith;
  all_sessions = λ k. ground arith;
  all_used = ground arith;
}
session-Counts row t u true e a = record {
  all_shown = λ k i. ground (arith, a.all_shown k i);
  all_saved = λ k i. ground (arith, a.all_saved k i);
  all_sessions = λ k.
      rw a.same_sessions (count-bump (segment_key row) k t.sessions_per_segment ∙ ground arith);
  all_used = ground (arith, a.same_used);
}

add_session-Counts : (row : Session) (t : Tally) → Counts (row ∷ []) t (add_session row t)
unfolding add_session
add_session-Counts row t =
    session-Counts row t _ row.l1_eligible refl
      (add_candidates-Adds (segment_key row) row.candidates (count_session (segment_key row) t))

pub add_sessions-Counts : (rows : List Session) (t : Tally) → Counts rows t (add_sessions rows t)
unfolding add_sessions
add_sessions-Counts [] t = record {
  all_shown = λ k i. omega arith;
  all_saved = λ k i. omega arith;
  all_sessions = λ k. omega arith;
  all_used = omega arith;
}
add_sessions-Counts (row ∷ rows) t =
    let one = add_session-Counts row t in
    let rest = add_sessions-Counts rows (add_session row t) in
    record {
      all_shown = λ k i. omega (arith, one.all_shown k i, rest.all_shown k i);
      all_saved = λ k i. omega (arith, one.all_saved k i, rest.all_saved k i);
      all_sessions = λ k. omega (arith, one.all_sessions k, rest.all_sessions k);
      all_used = omega (arith, one.all_used, rest.all_used);
    }
