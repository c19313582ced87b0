-- ===== src/TimeLedger/Sessions.antt =====
-- `start` and `stop` of timeledger.py: what a session logs.
use model_forensics_value_le.Prelude.{
  ℕ, ◌+◌, ◌-◌, ◌*◌, ◌/◌, ◌≤◌, ◌<◌, ◌≡◌, refl, sym, ap, ◌∙◌, subst, ◌⊎◌, String, [], ◌∷◌, ◌++◌, inl,
  inr, arith, none, some, Bool-cases, ◌==◌,
}
use model_forensics_value_le.Prelude.Outcome.{ok, ok-injective}
use model_forensics_value_le.TimeLedger.Ledger.{
  TimeStatus, Error, given, Stamp, aware, aware_datetime, TimeEntry, Logged, Session, TimeDocument,
  TimeTotals, time_totals, normalized_time, validate_category, start, stop, stop_session,
  minutes_of,
}
use model_forensics_value_le.TimeLedger.Returned.{
  append_to_document-IsAppended, stop-IsStopped, start-IsStarted, append_to_document-returns,
}

-- Whole minutes, rounded up, and at least one.
pub record IsRoundedUp (elapsed minutes : ℕ) : Type 0 where
  pub positive : 0 < minutes
  pub enough : elapsed ≤ minutes * 60000000
  pub least : (minutes ≡ 1) ⊎ (minutes * 60000000 < elapsed + 60000000)

minutes_of-IsRoundedUp : (elapsed : ℕ) → IsRoundedUp elapsed (minutes_of elapsed)
unfolding minutes_of
minutes_of-IsRoundedUp elapsed = elim (Bool-cases ((elapsed + 59999999) / 60000000 == 0)) [
  | inl z ↦ record { positive = ground arith; enough = ground arith; least = inl (ground arith) }
  | inr p ↦ record { positive = ground arith; enough = ground arith; least = inr (ground arith) }
]

-- What is logged of a session that ended at a moment.
pub record IsSessionLogged (active : Session) (entry : Logged) : Type 0 where
  pub same_category : entry.category ≡ active.category
  pub same_description : entry.description ≡ active.description
  pub same_status : active.status ≡ some entry.status
  pub same_start : aware_datetime active.started_at ≡ ok entry.started
  pub whole : entry.started + entry.elapsed ≡ entry.ended
  pub rounded : IsRoundedUp entry.elapsed entry.minutes

-- The entry of a normalized session.
normalized_session :
    (now : ℕ) (active : Session) (status : TimeStatus) (started ended : ℕ) (entry : Logged)
    → active.status ≡ some status
    → aware_datetime active.started_at ≡ ok started
    → started ≤ ended
    → normalized_time now (record {
      category = active.category;
      minutes = minutes_of (ended - started);
      description = active.description;
      status = status;
      started_at = aware started;
      ended_at = aware ended;
      elapsed = given (ended - started);
    })
      ≡ ok entry
    → IsSessionLogged active entry
unfolding normalized_time aware_datetime
normalized_session now active status started ended entry hs ha h n =
    let e : Logged = record {
      category = active.category;
      minutes = minutes_of (ended - started);
      description = active.description;
      status = status;
      started = started;
      ended = ended;
      elapsed = ended - started;
    } in
    let q : e ≡ entry = ok-injective {E = Error} (ground arith) in
    subst (IsSessionLogged active) {x = e} q record {
      same_category = refl;
      same_description = refl;
      same_status = hs;
      same_start = ha;
      whole = omega arith;
      rounded = minutes_of-IsRoundedUp (ended - started);
    }

-- A `stop` that returns ends the active session and appends exactly one entry: the session's
-- category, description and status, from its start to its end, in whole minutes rounded up.
pub stop-logged :
    (limit now : ℕ) (document : TimeDocument) (ended_at : Stamp) (r : TimeDocument × TimeTotals)
    → stop limit now document ended_at ≡ ok r
    → (active : Session) × (entry : Logged) × (document.active_session ≡ some active)
      × IsSessionLogged active entry
      × (record document { active_session = none; entries = document.entries ++ (entry ∷ []) }
          ≡ r.0)
      × (r.1 ≡ time_totals r.0)
stop-logged limit now document ended_at r h =
    let s = stop-IsStopped limit now document ended_at r h in
    let a =
      append_to_document-IsAppended limit now (record document { active_session = none }) _ r
        s.logs in
    (
      s.active,
      a.entry,
      s.was_active,
      normalized_session now s.active s.status s.started s.ended a.entry s.was_status s.was_started
          s.ordered a.normal,
      a.document_is,
      a.totals_are,
    )

-- The document and the session of a returned `start`, by its parts.
started_session : (category description : String) → TimeStatus → ℕ → Session
started_session category description status started = record {
  category = category;
  description = description;
  status = some status;
  started_at = aware started;
}

stop_started :
    (limit now : ℕ) (document : TimeDocument) (category description : String) (status : TimeStatus)
    (started ended : ℕ)
    → validate_category document category status ≡ ok tt
    → started ≤ ended
    → (time_totals document).counted_minutes + minutes_of (ended - started) ≤ limit
    → (r : TimeDocument × TimeTotals) × (stop limit now
          (record document {
            active_session = some (started_session category description status started);
          })
          (aware ended)
        ≡ ok r)
unfolding stop stop_session aware_datetime normalized_time validate_category time_totals
    started_session
stop_started limit now document category description status started ended v h fits =
    let rounded = minutes_of-IsRoundedUp (ended - started) in
    let entry : Logged = record {
      category = category;
      minutes = minutes_of (ended - started);
      description = description;
      status = status;
      started = started;
      ended = ended;
      elapsed = ended - started;
    } in
    let e : TimeEntry = record {
      category = category;
      minutes = minutes_of (ended - started);
      description = description;
      status = status;
      started_at = aware started;
      ended_at = aware ended;
      elapsed = given (ended - started);
    } in
    let positive = rounded.positive in
    let n : normalized_time now e ≡ ok entry = ground arith in
    let (r, f) =
      append_to_document-returns limit now (record document { active_session = none }) e entry n v
        fits in
    (r, ground arith)

-- A started session can be stopped: at any later moment whose minutes still fit, `stop` returns.
pub stop-start :
    (limit now later : ℕ) (document : TimeDocument) (category description : String)
    (status : TimeStatus) (started_at : Stamp) (r : TimeDocument × Session) (started ended : ℕ)
    → start now document category description status started_at ≡ ok r
    → r.1.started_at ≡ aware started
    → started ≤ ended
    → (time_totals document).counted_minutes + minutes_of (ended - started) ≤ limit
    → (s : TimeDocument × TimeTotals) × (stop limit later r.0 (aware ended) ≡ ok s)
unfolding started_session
stop-start limit now later document category description status started_at r started ended h at le
      fits =
    let v = start-IsStarted now document category description status started_at r h in
    let e : started_session category description status started ≡ r.1 =
      ap
        (λ t. record {
          category = category;
          description = description;
          status = some status;
          started_at = t;
        })
        (sym (ap (λ a. a.started_at) v.session_is ∙ at))
      ∙ v.session_is in
    let d : record document {
      active_session = some (started_session category description status started);
    }
        ≡ r.0 =
      ap (λ a. record document { active_session = some a }) e ∙ v.document_is in
    subst (λ d. (s : TimeDocument × TimeTotals) × (stop limit later d (aware ended) ≡ ok s)) d
      (stop_started limit later document category description status started ended v.allowed le
        fits)
