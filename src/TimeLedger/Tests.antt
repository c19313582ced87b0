-- ===== src/TimeLedger/Tests.antt =====
-- Runs of the time ledger on a day's entries.
use model_forensics_value_le.Prelude.{
  ℕ, ◌+◌, ◌-◌, ◌≤◌, ◌≡◌, refl, none, some, List, [], ◌∷◌, ◌++◌, arith,
}
use model_forensics_value_le.Prelude.Outcome.{ok, err}
use model_forensics_value_le.Prelude.Text.{is_space, has_visible}
use model_forensics_value_le.TimeLedger.Ledger.{
  counted, session_active, time_exceeded, aware, empty, aware_datetime, Logged, Session,
  TimeDocument, TimeTotals, time_totals, sum_minutes, normalized_time, validate_category,
  append_to_document, start, stop, stop_session, minutes_of, add_usage, usage_from, usage, overages,
}
use model_forensics_value_le.TimeLedger.Limit.{
  IsStep, TimeCall, start_session, stop_at, run_calls, run_calls-IsStep,
}
use model_forensics_value_le.TimeLedger.Sessions.{IsSessionLogged, stop-logged, stop-start}

abbrev first_entry : Logged
first_entry = record {
  category = "reading";
  minutes = 40;
  description = "survey";
  status = counted;
  started = 0;
  ended = 0;
  elapsed = 0;
}

abbrev idle : TimeDocument
idle = record {
  counted_categories = ("reading", 30) ∷ ("writing", 60) ∷ [];
  excluded_categories = "waiting" ∷ [];
  entries = first_entry ∷ [];
  active_session = none;
}

abbrev writing : Session
writing = record {
  category = "writing";
  description = "report";
  status = some counted;
  started_at = aware 5;
}

abbrev busy : TimeDocument
busy = record idle { active_session = some writing }

abbrev second_entry : Logged
second_entry = record {
  category = "writing";
  minutes = 2;
  description = "report";
  status = counted;
  started = 5;
  ended = 60000006;
  elapsed = 60000001;
}

abbrev done_writing : TimeDocument × TimeTotals
done_writing = (
  record idle { entries = first_entry ∷ second_entry ∷ [] },
  record { counted_minutes = 42; excluded_minutes = 0; wall_logged = 42 },
)

started_writing : start 9 idle "writing" "report" counted (aware 5) ≡ ok (busy, writing)
unfolding start validate_category has_visible is_space aware_datetime
started_writing = refl

started_twice : start 9 busy "writing" "report" counted (aware 5) ≡ err session_active
unfolding start validate_category has_visible is_space aware_datetime
started_twice = refl

stopped_writing : stop 300 9 busy (aware 60000006) ≡ ok done_writing
unfolding stop stop_session append_to_document validate_category normalized_time aware_datetime
    minutes_of time_totals sum_minutes
stopped_writing = refl

stopped_over : stop 41 9 busy (aware 60000006) ≡ err time_exceeded
unfolding stop stop_session append_to_document validate_category normalized_time aware_datetime
    minutes_of time_totals sum_minutes
stopped_over = refl

used : usage done_writing.0 ≡ ("reading", 40) ∷ ("writing", 2) ∷ []
unfolding usage usage_from add_usage
used = refl

over : overages idle.counted_categories (usage done_writing.0) ≡ ("reading", 10) ∷ []
unfolding usage usage_from add_usage overages
over = refl

abbrev calls : List (ℕ × TimeCall)
calls =
    (9, start_session "writing" "report" counted (aware 5))
    ∷ (10, start_session "writing" "again" counted empty)
    ∷ (11, stop_at (aware 60000006))
    ∷ []

run_calls-IsStep_example : IsStep 300 idle (run_calls 300 idle calls)
run_calls-IsStep_example = run_calls-IsStep 300 idle calls

stop-logged_example :
    (active : Session) × (entry : Logged) × (busy.active_session ≡ some active)
    × IsSessionLogged active entry
    × (record busy { active_session = none; entries = busy.entries ++ (entry ∷ []) }
        ≡ done_writing.0)
    × (done_writing.1 ≡ time_totals done_writing.0)
stop-logged_example = stop-logged 300 9 busy (aware 60000006) done_writing stopped_writing

fits : (time_totals idle).counted_minutes + minutes_of (60000006 - 5) ≤ 300
unfolding time_totals sum_minutes minutes_of
fits = omega arith

stop-start_example : (s : TimeDocument × TimeTotals) × (stop 300 10 busy (aware 60000006) ≡ ok s)
stop-start_example =
    stop-start 300 9 10 idle "writing" "report" counted (aware 5) (busy, writing) 5 60000006
      started_writing refl (omega arith) fits
