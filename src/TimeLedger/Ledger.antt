-- ===== src/TimeLedger/Ledger.antt =====
-- `TimeEntry` and `TimeLedger` of timeledger.py. A moment is a whole number of microseconds, the
-- precision of `datetime`, counted from a fixed day in UTC.
use model_forensics_value_le.Prelude.{
  ℕ, ◌+◌, ◌-◌, ◌/◌, String, Bool, true, false, not, Option, none, some, List, [], ◌∷◌, ◌++◌, map,
  any, ltb, ◌==◌, if◌then◌else◌, str_eq,
}
use model_forensics_value_le.Prelude.Outcome.{Result, ok, err, ◌>>=◌, ◌>>◌, raise_if}
use model_forensics_value_le.Prelude.Text.{codes, has_visible}

-- `TimeStatus`
pub data TimeStatus : Type 0 where
  counted excluded : TimeStatus

pub data Error : Type 0 where
  minutes_not_positive not_iso no_timezone ends_before_start bad_elapsed : Error
  category_not_preregistered session_active blank_description no_session bad_session_status : Error
  time_exceeded : Error

-- A text in the place of a time stamp, by what `datetime.fromisoformat` makes of it.
pub data Stamp : Type 0 where
  empty : Stamp
  aware : ℕ → Stamp
  naive malformed : Stamp

-- `elapsed_seconds` in microseconds: none given, a finite one, or one that is refused.
pub data Elapsed : Type 0 where
  unset refused : Elapsed
  given : ℕ → Elapsed

pub record TimeEntry : Type 0 where
  pub category : String
  pub minutes : ℕ
  pub description : String
  pub status : TimeStatus
  pub started_at : Stamp
  pub ended_at : Stamp
  pub elapsed : Elapsed

-- A normalized entry, as the document holds it.
pub record Logged : Type 0 where
  pub category : String
  pub minutes : ℕ
  pub description : String
  pub status : TimeStatus
  pub started : ℕ
  pub ended : ℕ
  pub elapsed : ℕ

-- `active_session`; the file may hold a status that is no `TimeStatus`.
pub record Session : Type 0 where
  pub category : String
  pub description : String
  pub status : Option TimeStatus
  pub started_at : Stamp

pub record TimeDocument : Type 0 where
  pub counted_categories : List (String × ℕ)
  pub excluded_categories : List String
  pub entries : List Logged
  pub active_session : Option Session

pub record TimeTotals : Type 0 where
  pub counted_minutes : ℕ
  pub excluded_minutes : ℕ
  pub wall_logged : ℕ

-- `_aware_datetime`
unfoldable pub aware_datetime : Stamp → Result Error ℕ
aware_datetime empty = err not_iso
aware_datetime (aware t) = ok t
aware_datetime naive = err no_timezone
aware_datetime malformed = err not_iso

-- `value or default`
abbrev pub stamp_or : Stamp → Stamp → Stamp
stamp_or empty d = d
stamp_or (aware t) d = aware t
stamp_or naive d = naive
stamp_or malformed d = malformed

abbrev elapsed_or : Elapsed → ℕ → Result Error ℕ
elapsed_or unset d = ok d
elapsed_or refused d = err bad_elapsed
elapsed_or (given n) d = ok n

-- `TimeEntry.normalized`
unfoldable pub normalized_time : ℕ → TimeEntry → Result Error Logged
normalized_time now e = do
  raise_if (e.minutes == 0) minutes_not_positive
  let started_at = stamp_or e.started_at (aware now)
  started ← aware_datetime started_at
  ended ← aware_datetime (stamp_or e.ended_at started_at)
  raise_if (ltb ended started) ends_before_start
  elapsed ← elapsed_or e.elapsed (ended - started)
  ok (record {
    category = e.category;
    minutes = e.minutes;
    description = e.description;
    status = e.status;
    started = started;
    ended = ended;
    elapsed = elapsed;
  })

abbrev pub is_counted : TimeStatus → Bool
is_counted counted = true
is_counted excluded = false

-- The sums of `totals`.
unfoldable pub sum_minutes : Bool → List Logged → ℕ
sum_minutes of_counted [] = 0
sum_minutes of_counted (e ∷ es) =
    let rest = sum_minutes of_counted es in
    if is_counted e.status
    then (if of_counted then e.minutes + rest else rest)
    else (if of_counted then rest else e.minutes + rest)

-- `TimeLedger.totals`
unfoldable pub time_totals : TimeDocument → TimeTotals
time_totals document =
    let c = sum_minutes true document.entries in
    let x = sum_minutes false document.entries in
    record { counted_minutes = c; excluded_minutes = x; wall_logged = c + x }

-- `_validate_category`
unfoldable pub validate_category : TimeDocument → String → TimeStatus → Result Error (Unit {0})
validate_category document category status =
    raise_if
      (not (
        if is_counted status
        then any (λ c. str_eq category c.0) document.counted_categories
        else any (str_eq category) document.excluded_categories))
      category_not_preregistered

-- `_append_to_document`: the new document, which is written, and its totals.
unfoldable pub append_to_document :
    ℕ → ℕ → TimeDocument → TimeEntry → Result Error (TimeDocument × TimeTotals)
append_to_document limit now document e = do
  entry ← normalized_time now e
  validate_category document entry.category entry.status
  let candidate : TimeDocument = record document { entries = document.entries ++ (entry ∷ []) }
  raise_if (ltb limit (time_totals candidate).counted_minutes) time_exceeded
  ok (candidate, time_totals candidate)

-- `start`
unfoldable pub start :
    ℕ → TimeDocument → String → String → TimeStatus → Stamp → Result Error (TimeDocument × Session)
start now document category description status started_at = do
  raise_if (elim document.active_session [ none ↦ false | some session ↦ true ]) session_active
  validate_category document category status
  raise_if (not (has_visible (codes description))) blank_description
  started ← aware_datetime (stamp_or started_at (aware now))
  let active : Session = record {
    category = category;
    description = description;
    status = some status;
    started_at = aware started;
  }
  ok (record document { active_session = some active }, active)

-- `max(1, math.ceil(elapsed_seconds / 60))`
unfoldable pub minutes_of : ℕ → ℕ
minutes_of elapsed = let n = (elapsed + 59999999) / 60000000 in if n == 0 then 1 else n

-- `stop` with an active session.
unfoldable pub stop_session :
    ℕ → ℕ → TimeDocument → Session → Stamp → Result Error (TimeDocument × TimeTotals)
stop_session limit now document active ended_at = do
  started ← aware_datetime active.started_at
  ended ← aware_datetime (stamp_or ended_at (aware now))
  raise_if (ltb ended started) ends_before_start
  status ← elim active.status [ none ↦ err bad_session_status | some status ↦ ok status ]
  append_to_document limit now (record document { active_session = none })
      (record {
        category = active.category;
        minutes = minutes_of (ended - started);
        description = active.description;
        status = status;
        started_at = aware started;
        ended_at = aware ended;
        elapsed = given (ended - started);
      })

-- `stop`
unfoldable pub stop : ℕ → ℕ → TimeDocument → Stamp → Result Error (TimeDocument × TimeTotals)
stop limit now document ended_at = elim document.active_session [
  | none ↦ err no_session
  | some active ↦ stop_session limit now document active ended_at
]

-- One key of the dictionary `usage`.
unfoldable pub add_usage : List (String × ℕ) → String → ℕ → List (String × ℕ)
add_usage [] category n = (category, n) ∷ []
add_usage (u ∷ us) category n =
    let rest = add_usage us category n in
    if str_eq u.0 category then (u.0, u.1 + n) ∷ us else u ∷ rest

-- The loop of `category_accounting`.
unfoldable pub usage_from : List (String × ℕ) → List Logged → List (String × ℕ)
usage_from usage [] = usage
usage_from usage (e ∷ es) =
    usage_from (if is_counted e.status then add_usage usage e.category e.minutes else usage) es

unfoldable pub usage : TimeDocument → List (String × ℕ)
usage document = usage_from (map (λ c. (c.0, 0)) document.counted_categories) document.entries

abbrev pub allocation : List (String × ℕ) → String → Option ℕ
allocation [] category = none
allocation (c ∷ cs) category =
    let rest = allocation cs category in if str_eq c.0 category then some c.1 else rest

-- `overages`
unfoldable pub overages : List (String × ℕ) → List (String × ℕ) → List (String × ℕ)
overages allocations [] = []
overages allocations (u ∷ us) =
    let rest = overages allocations us in
    elim (allocation allocations u.0) [
      | none ↦ rest
      | some n ↦ if ltb n u.1 then (u.0, u.1 - n) ∷ rest else rest
    ]
