-- ===== src/TimeLedger/Returned.antt =====
-- What calls of the time ledger that return have done, and when `_append_to_document` returns.
use model_forensics_value_le.Prelude.{
  ℕ, ◌-◌, ◌≤◌, ◌≡◌, refl, subst, String, true, List, [], ◌∷◌, ◌++◌, inl, inr, arith, none, some,
  Option-cases, ◌+◌, Bool-cases,
}
use model_forensics_value_le.Prelude.Outcome.{ok, ok-injective, Result-cases}
use model_forensics_value_le.TimeLedger.Ledger.{
  TimeStatus, Error, given, Stamp, stamp_or, aware, aware_datetime, TimeEntry, Logged, Session,
  TimeDocument, TimeTotals, time_totals, sum_minutes, normalized_time, validate_category,
  append_to_document, start, stop, stop_session, minutes_of, is_counted,
}

-- What `_append_to_document` returns: one more entry, and the totals with it.
pub record IsAppended (limit now : ℕ) (document : TimeDocument) (e : TimeEntry)
    (r : TimeDocument × TimeTotals) : Type 0 where
  pub entry : Logged
  pub normal : normalized_time now e ≡ ok entry
  pub allowed : validate_category document entry.category entry.status ≡ ok tt
  pub document_is : record document { entries = document.entries ++ (entry ∷ []) } ≡ r.0
  pub totals_are : r.1 ≡ time_totals r.0
  pub limited : (time_totals r.0).counted_minutes ≤ limit

pub append_to_document-IsAppended :
    (limit now : ℕ) (document : TimeDocument) (e : TimeEntry) (r : TimeDocument × TimeTotals)
    → append_to_document limit now document e ≡ ok r
    → IsAppended limit now document e r
unfolding append_to_document
append_to_document-IsAppended limit now document e r h =
    elim (Result-cases (normalized_time now e)) [
      | inl (x, f) ↦ absurd (ground arith)
      | inr (entry, f) ↦
          let d : TimeDocument = record document { entries = document.entries ++ (entry ∷ []) } in
          let q : (d, time_totals d) ≡ r = ok-injective {E = Error} (ground arith) in
          subst (IsAppended limit now document e) {x = (d, time_totals d)} q record {
            entry = entry;
            normal = f;
            allowed = ground arith;
            document_is = refl;
            totals_are = refl;
            limited = ground arith;
          }
    ]

-- What a returned `stop` did: it appended the session's time and ended the session.
pub record IsStopped (limit now : ℕ) (document : TimeDocument) (ended_at : Stamp)
    (r : TimeDocument × TimeTotals) : Type 0 where
  pub active : Session
  pub status : TimeStatus
  pub started : ℕ
  pub ended : ℕ
  pub was_active : document.active_session ≡ some active
  pub was_status : active.status ≡ some status
  pub was_started : aware_datetime active.started_at ≡ ok started
  pub now_ended : aware_datetime (stamp_or ended_at (aware now)) ≡ ok ended
  pub ordered : started ≤ ended
  pub logs :
      append_to_document limit now
        (record document { active_session = none })
        (record {
          category = active.category;
          minutes = minutes_of (ended - started);
          description = active.description;
          status = status;
          started_at = aware started;
          ended_at = aware ended;
          elapsed = given (ended - started);
        })
      ≡ ok r

pub stop-IsStopped :
    (limit now : ℕ) (document : TimeDocument) (ended_at : Stamp) (r : TimeDocument × TimeTotals)
    → stop limit now document ended_at ≡ ok r
    → IsStopped limit now document ended_at r
unfolding stop stop_session
stop-IsStopped limit now document ended_at r h = elim (Option-cases document.active_session) [
  | inl f ↦ absurd (ground arith)
  | inr (active, f) ↦ elim (Result-cases (aware_datetime active.started_at)) [
    | inl (x, g) ↦ absurd (ground arith)
    | inr (started, g) ↦ elim (Result-cases (aware_datetime (stamp_or ended_at (aware now)))) [
      | inl (x, k) ↦ absurd (ground arith)
      | inr (ended, k) ↦ elim (Option-cases active.status) [
        | inl s ↦ absurd (ground arith)
        | inr (status, s) ↦ record {
          active = active;
          status = status;
          started = started;
          ended = ended;
          was_active = f;
          was_status = s;
          was_started = g;
          now_ended = k;
          ordered = ground arith;
          logs = ground arith;
        }
      ]
    ]
  ]
]

-- What a returned `start` did.
pub record IsStarted (document : TimeDocument) (category description : String) (status : TimeStatus)
    (r : TimeDocument × Session) : Type 0 where
  pub started : ℕ
  pub allowed : validate_category document category status ≡ ok tt
  pub session_is :
      record {
        category = category;
        description = description;
        status = some status;
        started_at = aware started;
      }
      ≡ r.1
  pub document_is : record document { active_session = some r.1 } ≡ r.0

pub start-IsStarted :
    (now : ℕ) (document : TimeDocument) (category description : String) (status : TimeStatus)
    (started_at : Stamp) (r : TimeDocument × Session)
    → start now document category description status started_at ≡ ok r
    → IsStarted document category description status r
unfolding start
start-IsStarted now document category description status started_at r h =
    elim (Result-cases (aware_datetime (stamp_or started_at (aware now)))) [
      | inl (x, f) ↦ absurd (ground arith)
      | inr (started, f) ↦
          let a : Session = record {
            category = category;
            description = description;
            status = some status;
            started_at = aware started;
          } in
          let d : TimeDocument = record document { active_session = some a } in
          let q : (d, a) ≡ r = ok-injective {E = Error} (ground arith) in
          subst (IsStarted document category description status) {x = (d, a)} q record {
            started = started;
            allowed = ground arith;
            session_is = refl;
            document_is = refl;
          }
    ]

-- The counted minutes with one more entry.
pub sum_minutes-append :
    (es : List Logged) (entry : Logged)
    → sum_minutes true (es ++ (entry ∷ [])) ≤ sum_minutes true es + entry.minutes
unfolding sum_minutes
sum_minutes-append [] entry = elim (Bool-cases (is_counted entry.status)) [
  | inl c ↦ ground arith
  | inr x ↦ ground arith
]
sum_minutes-append (e ∷ es) entry = elim (Bool-cases (is_counted e.status)) [
  | inl c ↦ ground (arith, sum_minutes-append es entry)
  | inr x ↦ ground (arith, sum_minutes-append es entry)
]

-- A normalized entry of a preregistered category that stays within the limit is appended.
pub append_to_document-returns :
    (limit now : ℕ) (document : TimeDocument) (e : TimeEntry) (entry : Logged)
    → normalized_time now e ≡ ok entry
    → validate_category document entry.category entry.status ≡ ok tt
    → (time_totals document).counted_minutes + entry.minutes ≤ limit
    → (r : TimeDocument × TimeTotals) × (append_to_document limit now document e ≡ ok r)
unfolding append_to_document time_totals
append_to_document-returns limit now document e entry n v fits =
    let d : TimeDocument = record document { entries = document.entries ++ (entry ∷ []) } in
    let bound = sum_minutes-append document.entries entry in ((d, time_totals d), ground arith)
