-- ===== src/Watchdog/Stop.antt =====
-- `_stop_until_confirmed` of runpod_watchdog.py on what the provider and the disk answer.
use model_forensics_value_le.Prelude.{
  ℕ, suc, zero, Bool, true, false, Option, none, some, List, [], ◌∷◌,
}
use model_forensics_value_le.Watchdog.Limits.{WatchdogError, stop_not_persisted, stop_unconfirmed}
use model_forensics_value_le.Watchdog.Live.{Status, running, exited, terminated}

-- An attempt: the status that `desired_status` returns, `none` where it raises, and whether the
-- state could be written.
pub record StopRound : Type 0 where
  pub before : Option Status
  pub persisted : Bool

-- The two states in which a machine no longer runs.
pub data Confirmed : Type 0 where
  stopped_confirmed terminated_externally : Confirmed

-- How a call ended; `pending` is a call that has not ended with the answers given.
pub data Outcome : Type 0 where
  returned : Confirmed → Outcome
  raised : WatchdogError → Outcome
  pending : Outcome

-- The outcome, with the number of stop requests that were sent.
pub record Ending : Type 0 where
  pub outcome : Outcome
  pub stops : ℕ

unfoldable pub confirmed : Status → Option Confirmed
confirmed running = none
confirmed exited = some stopped_confirmed
confirmed terminated = some terminated_externally

-- `status in _TERMINAL_STATUSES`, of a status that may be unknown.
unfoldable pub terminal_of : Option Status → Option Confirmed
terminal_of none = none
terminal_of (some s) = confirmed s

-- The end of a confirmed stop.
unfoldable pub complete : Bool → Confirmed → Outcome
complete true c = returned c
complete false c = raised stop_not_persisted

abbrev pub one_more : Ending → Ending
one_more e = record e { stops = suc e.stops }

-- The answer after the last attempt.
unfoldable pub last_answer : StopRound → Outcome
last_answer r = elim (terminal_of r.before) [
  | some c ↦ complete r.persisted c
  | none ↦ raised stop_unconfirmed
]

-- `_stop_until_confirmed`; `none` is no bound on the attempts.
unfoldable pub stop_until_confirmed : Option ℕ → List StopRound → Ending
stop_until_confirmed attempts [] = record { outcome = pending; stops = 0 }
stop_until_confirmed none (r ∷ rs) =
    let rest = stop_until_confirmed none rs in
    elim (terminal_of r.before) [
      | some c ↦ record { outcome = complete r.persisted c; stops = 0 }
      | none ↦ one_more rest
    ]
stop_until_confirmed (some zero) (r ∷ rs) = record { outcome = last_answer r; stops = 0 }
stop_until_confirmed (some (suc n)) (r ∷ rs) =
    let rest = stop_until_confirmed (some n) rs in
    elim (terminal_of r.before) [
      | some c ↦ record { outcome = complete r.persisted c; stops = 0 }
      | none ↦ one_more rest
    ]
