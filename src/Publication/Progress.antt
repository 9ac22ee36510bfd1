-- ===== src/Publication/Progress.antt =====
-- src/benchmark.rs: how publications are prepared, committed and rejected.
use hyperliquid_market_bench.Prelude.{
  map, List, ◌+◌, ℕ, ◌-◌, ◌*◌, ◌/◌, ◌%◌, ◌≤◌, ◌<◌, ◌≡◌, refl, ap, subst, [], ◌∷◌, none, some, Bool,
  true, false, ◌||◌, leb, arith, All, Bool-cases, Option-cases, inl, inr, ◌⊎◌, String,
}
use hyperliquid_market_bench.Dict.{Map, map_values}
use hyperliquid_market_bench.Benchmark.{
  Benchmark, CommittedCohort, CoinWindow, PreparedOutcomeInterval, as_millis,
}
use hyperliquid_market_bench.Outcomes.{mark_outcomes_reported, mark_cohort}
use hyperliquid_market_bench.Outcomes.Intervals.{due, due-mark_outcomes_reported}
use hyperliquid_market_bench.Publication.{
  aligned_window_end_ms, commit_interval, commit_prepared_publication, reject_prepared_publication,
}

-- Nothing of a window is due up to an instant.
abbrev pub NothingDue : (CommittedCohort → Bool) → ℕ → String × CoinWindow → Type 0
NothingDue test through e = due test through e.1 ≡ 0

All-marked :
    (test : CommittedCohort → Bool) (through : ℕ) (ws : Map String CoinWindow)
    → All (NothingDue test through) (map_values (mark_outcomes_reported through) ws)
unfolding map_values
All-marked test through [] = tt
All-marked test through (e ∷ ws) = (
  (due-mark_outcomes_reported test through through e.1 (omega arith)).0,
  All-marked test through ws,
)

-- A cohort that was due up to an instant is marked as reported, and any other is as it was.
abbrev pub SameCohorts : ℕ → List CommittedCohort → List CommittedCohort → Type 0
SameCohorts through [] cs = cs ≡ []
SameCohorts through (c ∷ cs) [] = ⊥
SameCohorts through (c ∷ cs) (d ∷ ds) =
    (((c.outcome_reported ≡ false)
        × (c.committed_at ≤ through)
        × (d ≡ record c { outcome_reported = true }))
      ⊎ (((c.outcome_reported ≡ true) ⊎ (through < c.committed_at)) × (d ≡ c)))
    × SameCohorts through cs ds

-- The windows are those that were there, in which only cohorts are marked.
abbrev pub SameWindows : ℕ → Map String CoinWindow → Map String CoinWindow → Type 0
SameWindows through [] vs = vs ≡ []
SameWindows through (w ∷ ws) [] = ⊥
SameWindows through (w ∷ ws) (v ∷ vs) =
    ((v.0 ≡ w.0)
      × (v.1 ≡ record w.1 { cohorts = v.1.cohorts })
      × SameCohorts through w.1.cohorts v.1.cohorts)
    × SameWindows through ws vs

mark-SameCohorts :
    (through : ℕ) (cs : List CommittedCohort)
    → SameCohorts through cs (map (mark_cohort through) cs)
mark-SameCohorts through [] = refl
mark-SameCohorts through (c ∷ cs) = (
  elim (Bool-cases c.outcome_reported) [
    | inl r ↦ inr (inl r, rw r refl)
    | inr r ↦ elim (Bool-cases (leb c.committed_at through)) [
      | inl l ↦ inl (r, ground arith, rw (r, l) refl)
      | inr l ↦ inr (inr (ground arith), rw (r, l) refl)
    ]
  ],
  mark-SameCohorts through cs,
)

mark-SameWindows :
    (through : ℕ) (ws : Map String CoinWindow)
    → SameWindows through ws (map_values (mark_outcomes_reported through) ws)
unfolding map_values mark_outcomes_reported
mark-SameWindows through [] = refl
mark-SameWindows through (w ∷ ws) =
    ((refl, refl, mark-SameCohorts through w.1.cohorts), mark-SameWindows through ws)

-- The publication moved both clocks forward, left nothing due up to its end, and changed nothing
-- else.
pub record Advances (p : PreparedOutcomeInterval) (before after : Benchmark) : Type 0 where
  pub cursor : after.outcome_cursor ≡ p.end
  pub cursor_lt : before.outcome_cursor < p.end
  pub wall : after.outcome_cursor_wall_ms ≡ p.end_wall_ms
  pub wall_lt : before.outcome_cursor_wall_ms < p.end_wall_ms
  pub reported : (test : CommittedCohort → Bool) → All (NothingDue test p.end) after.windows
  pub spent : after.prepared_outcome_interval ≡ none
  pub published : after.outcome_has_published ≡ true
  pub windows : SameWindows p.end before.windows after.windows
  pub frame : after ≡ record before {
    outcome_cursor = after.outcome_cursor;
    outcome_cursor_wall_ms = after.outcome_cursor_wall_ms;
    outcome_has_published = after.outcome_has_published;
    prepared_outcome_interval = after.prepared_outcome_interval;
    windows = after.windows;
  }

-- Only the preparation is dropped.
abbrev pub Stays : Benchmark → Benchmark → Type 0
Stays before after = after ≡ record before { prepared_outcome_interval = none }

-- Nothing is prepared, or its end is not ahead of both clocks.
abbrev pub Refuses : Benchmark → Type 0
Refuses b =
    (b.prepared_outcome_interval ≡ none)
    ⊎ ((p : PreparedOutcomeInterval) × (b.prepared_outcome_interval ≡ some p)
        × ((p.end_wall_ms ≤ b.outcome_cursor_wall_ms) ⊎ (p.end ≤ b.outcome_cursor)))

late_end :
    (p : PreparedOutcomeInterval) (b : Benchmark)
    → (leb p.end_wall_ms b.outcome_cursor_wall_ms || leb p.end b.outcome_cursor) ≡ true
    → (p.end_wall_ms ≤ b.outcome_cursor_wall_ms) ⊎ (p.end ≤ b.outcome_cursor)
late_end p b h = elim (Bool-cases (leb p.end_wall_ms b.outcome_cursor_wall_ms)) [
  | inl e ↦ inl (ground arith)
  | inr e ↦ inr (ground arith)
]

abbrev pub Commits : Benchmark → Benchmark × Bool → Type 0
Commits b r =
    ((r.1 ≡ false) × Refuses b × Stays b r.0)
    ⊎ ((p : PreparedOutcomeInterval) × (b.prepared_outcome_interval ≡ some p)
        × (r.1 ≡ true)
        × Advances p b r.0)

commit_interval-Commits :
    (b : Benchmark) (p : PreparedOutcomeInterval)
    → b.prepared_outcome_interval ≡ some p
    → Commits b (commit_interval p (record b { prepared_outcome_interval = none }))
unfolding commit_interval
commit_interval-Commits b p e =
    elim (Bool-cases (leb p.end_wall_ms b.outcome_cursor_wall_ms || leb p.end b.outcome_cursor)) [
      | inl late ↦ rw late (inl (refl, inr (p, e, late_end p b late), refl))
      | inr fresh ↦ rw fresh (
          inr (
            p,
            e,
            refl,
            record {
              cursor = refl;
              cursor_lt = ground arith;
              wall = refl;
              wall_lt = ground arith;
              reported = λ test. All-marked test p.end b.windows;
              spent = refl;
              published = refl;
              windows = mark-SameWindows p.end b.windows;
              frame = refl;
            },
          ))
    ]

commit_prepared :
    (b : Benchmark) (p : PreparedOutcomeInterval)
    → b.prepared_outcome_interval ≡ some p
    → commit_interval p (record b { prepared_outcome_interval = none })
      ≡ commit_prepared_publication b
unfolding commit_prepared_publication
commit_prepared b p e = simp (e, commit_prepared_publication) refl

commit_unprepared :
    (b : Benchmark)
    → b.prepared_outcome_interval ≡ none
    → commit_prepared_publication b ≡ (b, false)
unfolding commit_prepared_publication
commit_unprepared b e = simp (e, commit_prepared_publication) refl

-- Committing answers `false` where nothing is prepared or the prepared end is not ahead of both
-- clocks, and then only drops the preparation, with every other field as it was; or it answers
-- `true`, moves both clocks forward to the end of the prepared interval, notes that there was a
-- publication, and marks as reported just the cohorts that were due up to that end, so that none is
-- due; all else stays as it was.
pub commit_prepared_publication-Commits :
    (b : Benchmark) → Commits b (commit_prepared_publication b)
commit_prepared_publication-Commits b = elim (Option-cases b.prepared_outcome_interval) [
  | inl e ↦
      rw (commit_unprepared b e)
        (inl (refl, inl e, ap (λ p. record b { prepared_outcome_interval = p }) e))
  | inr (p, e) ↦ subst (Commits b) (commit_prepared b p e) (commit_interval-Commits b p e)
]

-- A second commit, or one after a rejection, answers `false`.
pub commit_prepared_publication-once :
    (b : Benchmark)
    → ((commit_prepared_publication (commit_prepared_publication b).0).1 ≡ false)
      × ((commit_prepared_publication (reject_prepared_publication b)).1 ≡ false)
      × Stays b (reject_prepared_publication b)
unfolding reject_prepared_publication
commit_prepared_publication-once b = (
  elim (commit_prepared_publication-Commits b) [
    | inl (_, _, s) ↦
        ap (λ (r : Benchmark × Bool). r.1)
          (commit_unprepared _ (ap (λ (c : Benchmark). c.prepared_outcome_interval) s))
    | inr (p, _, _, s) ↦ ap (λ (r : Benchmark × Bool). r.1) (commit_unprepared _ s.spent)
  ],
  ap (λ (r : Benchmark × Bool). r.1)
      (commit_unprepared (record b { prepared_outcome_interval = none }) refl),
  refl,
)

-- The end of a window is the last multiple of the interval's milliseconds up to the wall clock,
-- and there is one for an interval of a millisecond or more.
pub aligned_window_end_ms-multiple :
    (now_ms interval : ℕ)
    → 0 < as_millis interval
    → (e : ℕ) × (aligned_window_end_ms now_ms interval ≡ some e)
      × (e ≡ now_ms / as_millis interval * as_millis interval)
      × (e ≤ now_ms)
      × (now_ms < e + as_millis interval)
unfolding aligned_window_end_ms
aligned_window_end_ms-multiple now_ms interval h =
    (now_ms - now_ms % as_millis interval, ground arith, omega arith, omega arith, omega arith)
