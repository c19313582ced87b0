-- ===== src/Watchdog/Monitor.antt =====
-- `run_watchdog` of runpod_watchdog.py on what the clocks, the provider and the disk answer.
use model_forensics_value_le.Prelude.{
  ℕ, ◌+◌, ◌-◌, String, Bool, true, false, not, ◌||◌, Option, none, some, List, [], ◌∷◌, leb, ltb,
  ◌==◌, str_eq, if◌then◌else◌,
}
use model_forensics_value_le.Prelude.Outcome.{Result, ok, err, ◌>>=◌, ◌>>◌, raise_if}
use model_forensics_value_le.Watchdog.Limits.{
  WatchdogError, WatchdogLimits, no_metadata, restarted, identity_changed, bad_arguments,
  live_verification_failed, armed_not_persisted, overflow_error,
}
use model_forensics_value_le.Watchdog.Live.{
  PodMetadata, Profile, max2, min2, effective_hourly, validate_live_metadata, DerivedDeadline,
  derive_deadline,
}
use model_forensics_value_le.Watchdog.Stop.{
  StopRound, Confirmed, Outcome, returned, raised, pending, Ending, confirmed, stop_until_confirmed,
}

-- One round of the loop: the clocks at its start, whether a stop is requested, the wall clock after
-- the pause, what the provider returns (`none` where it raises), the monotonic clock after it, and
-- whether the state could be written.
pub record Round : Type 0 where
  pub time : ℕ
  pub monotonic : ℕ
  pub requested : Bool
  pub later : ℕ
  pub answer : Option PodMetadata
  pub later_monotonic : ℕ
  pub persisted : Bool

-- The variables of the loop: `metadata.last_started_at` and the hash of the identity at arming, the
-- derived deadline, the highest rate, and the deadline on the monotonic clock.
pub record Guard : Type 0 where
  pub started_at : ℕ
  pub identity : String
  pub derived : DerivedDeadline
  pub rate : ℕ
  pub monotonic_deadline : ℕ

pub data StopReason : Type 0 where
  external_stop_request derived_deadline unsafe_metadata : StopReason
  state_persistence_failed : StopReason

-- Where a round leads to; `escaped` is an `OverflowError`, which ends the call.
pub data Turn : Type 0 where
  watching : Guard → Turn
  stopping : StopReason → Turn
  stopped_outside : Confirmed → Turn
  escaped : Turn

-- `except WatchdogError` lets this error pass.
unfoldable pub escapes : WatchdogError → Bool
escapes overflow_error = true
escapes e = false

-- A stop after which the call raises.
unfoldable pub raised_after : WatchdogError → Outcome → Outcome
raised_after e (returned c) = raised e
raised_after e (raised x) = raised x
raised_after e pending = pending

abbrev pub raise_after : WatchdogError → Ending → Ending
raise_after e x = record x { outcome = raised_after e x.outcome }

-- What is seen from arming on.
pub record Observations : Type 0 where
  pub armed_at : ℕ
  pub armed_monotonic : ℕ
  pub answer : Option PodMetadata
  pub persisted : Bool
  pub rounds : List Round
  pub stop_rounds : List StopRound

-- After the loop.
unfoldable pub after_watch : Option ℕ → List StopRound → Turn → Ending
after_watch attempts stop_rounds (watching g) = record { outcome = pending; stops = 0 }
after_watch attempts stop_rounds (stopped_outside c) = record { outcome = returned c; stops = 0 }
after_watch attempts stop_rounds escaped = record { outcome = raised overflow_error; stops = 0 }
after_watch attempts stop_rounds (stopping reason) = stop_until_confirmed attempts stop_rounds

module _ (limits : WatchdogLimits) (profile : Profile) where
  abbrev total_rate : PodMetadata → ℕ
  total_rate m = effective_hourly m + limits.approved_storage_hourly

  -- A machine that still runs: it is validated again, and the deadline never moves out.
  unfoldable pub renewed : Guard → Round → PodMetadata → Result WatchdogError Guard
  renewed g r m = do
    validate_live_metadata limits profile m
    raise_if (not (m.last_started_at == g.started_at)) restarted
    raise_if (not (str_eq m.execution_identity_hash g.identity)) identity_changed
    let rate = max2 g.rate (total_rate m)
    derived ← derive_deadline m limits (some rate)
    ok (record g {
      derived = derived;
      rate = rate;
      monotonic_deadline =
          min2 g.monotonic_deadline (r.later_monotonic + (derived.deadline - r.later));
    })

  -- The answer of the provider; one whose state cannot be written after a stop is unsafe too, for
  -- the error is raised inside the `try`.
  unfoldable pub answered : Guard → Round → PodMetadata → Turn
  answered g r m = elim (confirmed m.desired_status) [
    | some c ↦ if r.persisted then stopped_outside c else stopping unsafe_metadata
    | none ↦ elim (renewed g r m) [
      | err e ↦ if escapes e then escaped else stopping unsafe_metadata
      | ok g' ↦ if r.persisted then watching g' else stopping state_persistence_failed
    ]
  ]

  -- The body of `while True`.
  unfoldable pub turn : Guard → Round → Turn
  turn g r =
      if r.requested
      then stopping external_stop_request
      else if leb g.derived.deadline r.time || leb g.monotonic_deadline r.monotonic
      then stopping derived_deadline
      else elim r.answer [ none ↦ stopping unsafe_metadata | some m ↦ answered g r m ]

  -- The loop, as far as the rounds go.
  unfoldable pub watch : Guard → List Round → Turn
  watch g [] = watching g
  watch g (r ∷ rs) = elim (turn g r) [
    | watching g' ↦ watch g' rs
    | stopping reason ↦ stopping reason
    | stopped_outside c ↦ stopped_outside c
    | escaped ↦ escaped
  ]

  -- The machine at arming, with the deadline that is derived from it.
  unfoldable pub armed : Option PodMetadata → Result WatchdogError (PodMetadata × DerivedDeadline)
  armed none = err no_metadata
  armed (some m) = do
    validate_live_metadata limits profile m
    derived ← derive_deadline m limits (some (total_rate m))
    ok (m, derived)

  unfoldable pub guard_of : Observations → PodMetadata → DerivedDeadline → Guard
  guard_of o m derived = record {
    started_at = m.last_started_at;
    identity = m.execution_identity_hash;
    derived = derived;
    rate = total_rate m;
    monotonic_deadline = o.armed_monotonic + (derived.deadline - o.armed_at);
  }

  -- The part of `run_watchdog` behind the verification.
  unfoldable pub run_armed : Option ℕ → Observations → PodMetadata → DerivedDeadline → Ending
  run_armed attempts o m derived =
      if leb derived.deadline o.armed_at
      then stop_until_confirmed attempts o.stop_rounds
      else if o.persisted
      then after_watch attempts o.stop_rounds (watch (guard_of o m derived) o.rounds)
      else raise_after armed_not_persisted (stop_until_confirmed attempts o.stop_rounds)

  -- `poll_seconds`, in microseconds, and the number of attempts.
  unfoldable pub bad_run : ℕ → Option ℕ → Bool
  bad_run poll attempts =
      not (profile.gpu_count == 8)
      || (poll == 0 || (ltb 60_000_000 poll || elim attempts [ none ↦ false | some n ↦ n == 0 ]))

  -- `run_watchdog`
  unfoldable pub run_watchdog : ℕ → Option ℕ → Observations → Ending
  run_watchdog poll attempts o =
      if bad_run poll attempts
      then record { outcome = raised bad_arguments; stops = 0 }
      else elim (armed o.answer) [
        | err e ↦
            if escapes e
            then record { outcome = raised overflow_error; stops = 0 }
            else raise_after live_verification_failed (stop_until_confirmed attempts o.stop_rounds)
        | ok found ↦ run_armed attempts o found.0 found.1
      ]
