-- ===== src/Watchdog/FailSafe.antt =====
-- How `run_watchdog` of runpod_watchdog.py ends.
use model_forensics_value_le.Prelude.{
  ℕ, zero, suc, Option, ◌≤◌, ◌≡◌, ◌⊎◌, refl, ap, Bool, none, some, List, [], ◌∷◌, ◌++◌, All, length,
  arith, inl, inr, Option-cases,
}
use model_forensics_value_le.Watchdog.Limits.{WatchdogError, WatchdogLimits, overflow_error}
use model_forensics_value_le.Watchdog.Live.{PodMetadata}
use model_forensics_value_le.Watchdog.Stop.{
  StopRound, Confirmed, Outcome, raised, Ending, pending, last_answer, confirmed, terminal_of,
  complete, stop_until_confirmed,
}
use model_forensics_value_le.Watchdog.Monitor.{Round, Observations, raised_after}
use model_forensics_value_le.Watchdog.Escapes.{IsOutOfRange, SeesOutOfRange}

-- Some answer in the stop loop is that the machine no longer runs.
abbrev pub SeesStopped : List StopRound → Type 0
SeesStopped [] = ⊥
SeesStopped (r ∷ rs) = ((c : Confirmed) × (terminal_of r.before ≡ some c)) ⊎ SeesStopped rs

-- Some answer in the watching loop is that the machine no longer runs.
abbrev pub SeesOutside : List Round → Type 0
SeesOutside [] = ⊥
SeesOutside (r ∷ rs) =
    ((m : PodMetadata) × (c : Confirmed) × (r.answer ≡ some m)
      × (confirmed m.desired_status ≡ some c))
    ⊎ SeesOutside rs

-- A bound on the attempts that is not below a number of them.
abbrev pub Allows : Option ℕ → ℕ → Type 0
Allows none n = Unit
Allows (some attempts) n = n ≤ attempts

-- The stop loop sends one request for each answer that the machine may run and ends at the first
-- answer that it does not, if its attempts are not bounded or are at least as many as the answers
-- before: by returning that answer, or by raising where its state cannot be written.
pub stop_until_confirmed-first :
    (attempts : Option ℕ) (before after : List StopRound) (r : StopRound) (c : Confirmed)
    → Allows attempts (length before)
    → All (λ (r : StopRound). terminal_of r.before ≡ none) before
    → terminal_of r.before ≡ some c
    → (let e = stop_until_confirmed attempts (before ++ r ∷ after) in
        (e.outcome ≡ complete r.persisted c) × (e.stops ≡ length before))
unfolding stop_until_confirmed last_answer
stop_until_confirmed-first none [] after r c _ running stopped =
    (rw (stop_until_confirmed, stopped), rw (stop_until_confirmed, stopped))
stop_until_confirmed-first (some zero) [] after r c _ running stopped =
    (rw (last_answer, stopped), refl)
stop_until_confirmed-first (some (suc n)) [] after r c _ running stopped =
    (rw (stop_until_confirmed, stopped), rw (stop_until_confirmed, stopped))
stop_until_confirmed-first none (b ∷ before) after r c _ running stopped =
    let (outcome, stops) = stop_until_confirmed-first none before after r c tt running.1 stopped in
    (
      rw (stop_until_confirmed, running.0) outcome,
      rw (stop_until_confirmed, running.0) (ap suc stops),
    )
stop_until_confirmed-first (some zero) (b ∷ before) after r c room running stopped =
    absurd (omega arith)
stop_until_confirmed-first (some (suc n)) (b ∷ before) after r c room running stopped =
    let (outcome, stops) =
      stop_until_confirmed-first (some n) before after r c (omega arith) running.1 stopped in
    (
      rw (stop_until_confirmed, running.0) outcome,
      rw (stop_until_confirmed, running.0) (ap suc stops),
    )

complete-ends : (b : Bool) (c : Confirmed) → complete b c ≡ pending → ⊥
unfolding complete
complete-ends b c h = ground arith

pub stop_until_confirmed-ends :
    (rs : List StopRound) → SeesStopped rs → (stop_until_confirmed none rs).outcome ≡ pending → ⊥
unfolding stop_until_confirmed
stop_until_confirmed-ends [] sees h = sees
stop_until_confirmed-ends (r ∷ rs) sees h = elim (Option-cases (terminal_of r.before)) [
  | inl running ↦ elim sees [
    | inl (c, stopped) ↦ absurd (ground arith)
    | inr later ↦ stop_until_confirmed-ends rs later (ground arith)
  ]
  | inr (c, stopped) ↦ complete-ends r.persisted c (ground arith)
]

pub raised_after-pending :
    (e : WatchdogError) (x : Outcome)
    → (raised_after e x ≡ pending → x ≡ pending) × (x ≡ pending → raised_after e x ≡ pending)
unfolding raised_after
raised_after-pending e x = (λ h. ground arith, λ h. ground arith)

-- The provider said that the machine no longer runs.
abbrev pub SeesEnd : Observations → Type 0
SeesEnd o = SeesOutside o.rounds ⊎ SeesStopped o.stop_rounds

-- The call raised an `OverflowError`, and the deadline of a machine that the provider answered, at
-- arming or in a round, is out of range at its hourly rate with storage or a higher one.
abbrev pub Overflows : WatchdogLimits → Observations → Ending → Type 0
Overflows limits o e =
    (e.outcome ≡ raised overflow_error)
    × (((m : PodMetadata) × (o.answer ≡ some m) × IsOutOfRange limits m)
        ⊎ SeesOutOfRange limits o.rounds)
