-- ===== src/Watchdog/Limit.antt =====
-- `run_watchdog` of runpod_watchdog.py from arming to its deadline.
use model_forensics_value_le.Prelude.{
  ℕ, ◌+◌, ◌-◌, ◌≡◌, refl, subst, none, some, leb, arith, inl, inr, Bool-cases, Option-cases,
}
use model_forensics_value_le.Prelude.Outcome.{ok, Result-cases, ok-injective}
use model_forensics_value_le.Watchdog.Limits.{WatchdogError, WatchdogLimits, armed_not_persisted}
use model_forensics_value_le.Watchdog.Live.{
  PodMetadata, Profile, effective_hourly, DerivedDeadline, derive_deadline,
}
use model_forensics_value_le.Watchdog.Affordable.{derive_deadline-IsAffordable}
use model_forensics_value_le.Watchdog.Stop.{pending, stop_until_confirmed}
use model_forensics_value_le.Watchdog.Monitor.{
  watch, Observations, armed, guard_of, after_watch, run_armed, bad_run, run_watchdog,
}
use model_forensics_value_le.Watchdog.Deadline.{Follows, Reaches, watch_late, Turn-cases}
use model_forensics_value_le.Watchdog.FailSafe.{
  SeesStopped, stop_until_confirmed-ends, raised_after-pending,
}

module _ (limits : WatchdogLimits) (profile : Profile) where
  armed-Follows :
      (o : Observations) (m : PodMetadata) (d : DerivedDeadline)
      → armed limits profile o.answer ≡ ok (m, d)
      → Follows limits profile (guard_of limits profile o m d) (guard_of limits profile o m d)
  unfolding armed guard_of
  armed-Follows o m d h = elim (Option-cases o.answer) [
    | inl silent ↦ absurd (ground arith)
    | inr (n, heard) ↦
        let rate = effective_hourly n + limits.approved_storage_hourly in
        elim (Result-cases (derive_deadline n limits (some rate))) [
          | inl (e, bad) ↦ absurd (ground arith)
          | inr (e, good) ↦
              let both : ◌≡◌ {A = PodMetadata × DerivedDeadline} (n, e) (m, d) =
                ok-injective {E = WatchdogError} (ground arith) in
              let (pays, priced) =
                derive_deadline-IsAffordable n limits rate e (omega arith) good in
              subst
                (λ (p : PodMetadata × DerivedDeadline).
                  Follows limits profile (guard_of limits profile o p.0 p.1)
                    (guard_of limits profile o p.0 p.1))
                both
                (record {
                  started = refl;
                  identity = refl;
                  rate = omega arith;
                  priced = priced;
                  affordable = pays;
                  monotonic = omega arith;
                })
        ]
  ]

  after_watch_ends :
      (o : Observations) (m : PodMetadata) (d : DerivedDeadline)
      → armed limits profile o.answer ≡ ok (m, d)
      → Reaches (o.armed_monotonic + (d.deadline - o.armed_at)) o.rounds
      → SeesStopped o.stop_rounds
      → (after_watch none o.stop_rounds
          (watch limits profile (guard_of limits profile o m d) o.rounds)).outcome
        ≡ pending
      → ⊥
  unfolding after_watch guard_of
  after_watch_ends o m d h late stops left =
      let start = guard_of limits profile o m d in
      elim (Turn-cases (watch limits profile start o.rounds)) [
        | inl (g, e) ↦
            watch_late limits profile start start g o.rounds (armed-Follows o m d h) late e
        | inr (inl (reason, e)) ↦ stop_until_confirmed-ends o.stop_rounds stops (ground arith)
        | inr (inr (inl (c, e))) ↦ absurd (ground arith)
        | inr (inr (inr e)) ↦ absurd (ground arith)
      ]

  run_armed_ends :
      (o : Observations) (m : PodMetadata) (d : DerivedDeadline)
      → armed limits profile o.answer ≡ ok (m, d)
      → Reaches (o.armed_monotonic + (d.deadline - o.armed_at)) o.rounds
      → SeesStopped o.stop_rounds
      → (run_armed limits profile none o m d).outcome ≡ pending
      → ⊥
  unfolding run_armed
  run_armed_ends o m d h late stops still =
      let ends = stop_until_confirmed-ends o.stop_rounds stops in
      elim (Bool-cases (leb d.deadline o.armed_at)) [
        | inl over ↦ ends (ground arith)
        | inr early ↦ elim (Bool-cases o.persisted) [
          | inr lost ↦ ends (
              (raised_after-pending armed_not_persisted
                  (stop_until_confirmed none o.stop_rounds).outcome).0
                (ground arith))
          | inl kept ↦
              let left : (after_watch none o.stop_rounds
                    (watch limits profile (guard_of limits profile o m d) o.rounds)).outcome
                  ≡ pending =
                ground arith in
              after_watch_ends o m d h late stops left
        ]
      ]

  -- The watchdog keeps its first deadline. Once it is armed, a round of its loop that starts, on the
  -- monotonic clock, at the deadline that was derived at arming or later is the last: no answer of
  -- the provider and no wall clock moves it out. With attempts that are not bounded, the call then
  -- ends as soon as the provider says that the machine no longer runs.
  pub run_watchdog_ends :
      (poll : ℕ) (o : Observations) (m : PodMetadata) (d : DerivedDeadline)
      → armed limits profile o.answer ≡ ok (m, d)
      → Reaches (o.armed_monotonic + (d.deadline - o.armed_at)) o.rounds
      → SeesStopped o.stop_rounds
      → (run_watchdog limits profile poll none o).outcome ≡ pending
      → ⊥
  unfolding run_watchdog
  run_watchdog_ends poll o m d h late stops still =
      elim (Bool-cases (bad_run limits profile poll none)) [
        | inl bad ↦ absurd (ground arith)
        | inr good ↦ run_armed_ends o m d h late stops (ground arith)
      ]
