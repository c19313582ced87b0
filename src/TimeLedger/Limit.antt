-- ===== src/TimeLedger/Limit.antt =====
-- Any sequence of calls of the time ledger: its limit, and that it only appends.
use mathlib.Core.List.{append-nil, append_assoc}
use model_forensics_value_le.Prelude.{
  ℕ, ◌≤◌, ◌≡◌, refl, sym, ap, ◌∙◌, subst, String, true, List, [], ◌∷◌, ◌++◌, inl, inr, arith, none,
  some,
}
use model_forensics_value_le.Prelude.Outcome.{Result, ok, err, ok-injective, Result-cases}
use model_forensics_value_le.TimeLedger.Ledger.{
  TimeStatus, Error, Stamp, stamp_or, aware, aware_datetime, TimeEntry, Logged, Session,
  TimeDocument, TimeTotals, time_totals, sum_minutes, append_to_document, start, stop,
}
use model_forensics_value_le.TimeLedger.Returned.{append_to_document-IsAppended, stop-IsStopped}

-- The calls that write.
pub data TimeCall : Type 0 where
  append_entry : TimeEntry → TimeCall
  start_session : String → String → TimeStatus → Stamp → TimeCall
  stop_at : Stamp → TimeCall

-- The file after a call that may raise.
unfoldable pub left_by :
    {A : Type 0} → TimeDocument → Result Error (TimeDocument × A) → TimeDocument
left_by document (err e) = document
left_by document (ok r) = r.0

-- One call, at a moment.
unfoldable pub after_call : ℕ → TimeDocument → ℕ × TimeCall → TimeDocument
after_call limit document (now, append_entry e) =
    left_by document (append_to_document limit now document e)
after_call limit document (now, start_session category description status started_at) =
    left_by document (start now document category description status started_at)
after_call limit document (now, stop_at ended_at) =
    left_by document (stop limit now document ended_at)

unfoldable pub run_calls : ℕ → TimeDocument → List (ℕ × TimeCall) → TimeDocument
run_calls limit document [] = document
run_calls limit document (c ∷ cs) = run_calls limit (after_call limit document c) cs

-- What one written call does to the entries and to the counted minutes.
pub record IsStep (limit : ℕ) (before after : TimeDocument) : Type 0 where
  pub more : List Logged
  pub appended : after.entries ≡ before.entries ++ more
  pub within :
      (time_totals before).counted_minutes ≤ limit → (time_totals after).counted_minutes ≤ limit

IsStep-same :
    (limit : ℕ) (before after : TimeDocument)
    → after.entries ≡ before.entries
    → IsStep limit before after
unfolding time_totals
IsStep-same limit before after h = record {
  more = [];
  appended = h ∙ sym (append-nil before.entries);
  within = λ w. subst (λ es. sum_minutes true es ≤ limit) (sym h) w;
}

IsStep-trans :
    (limit : ℕ) (a b c : TimeDocument) → IsStep limit a b → IsStep limit b c → IsStep limit a c
IsStep-trans limit a b c first second = record {
  more = first.more ++ second.more;
  appended =
      second.appended
      ∙ ap (λ es. es ++ second.more) first.appended
      ∙ append_assoc a.entries first.more second.more;
  within = λ w. second.within (first.within w);
}

append_to_document-IsStep :
    (limit now : ℕ) (document : TimeDocument) (e : TimeEntry) (r : TimeDocument × TimeTotals)
    → append_to_document limit now document e ≡ ok r
    → IsStep limit document r.0
append_to_document-IsStep limit now document e r h =
    let a = append_to_document-IsAppended limit now document e r h in
    record {
      more = a.entry ∷ [];
      appended = ap (λ d. d.entries) (sym a.document_is);
      within = λ w. a.limited;
    }

start-entries :
    (now : ℕ) (document : TimeDocument) (category description : String) (status : TimeStatus)
    (started_at : Stamp) (r : TimeDocument × Session)
    → start now document category description status started_at ≡ ok r
    → r.0.entries ≡ document.entries
unfolding start
start-entries now document category description status started_at r h =
    elim (Result-cases (aware_datetime (stamp_or started_at (aware now)))) [
      | inl (x, f) ↦ absurd (ground arith)
      | inr (started, f) ↦
          let d : TimeDocument = record document {
            active_session = some (record {
              category = category;
              description = description;
              status = some status;
              started_at = aware started;
            });
          } in
          let a : Session = record {
            category = category;
            description = description;
            status = some status;
            started_at = aware started;
          } in
          let q : (d, a) ≡ r = ok-injective {E = Error} (ground arith) in
          ap (λ p. p.0.entries) (sym q)
    ]

stop-IsStep :
    (limit now : ℕ) (document : TimeDocument) (ended_at : Stamp) (r : TimeDocument × TimeTotals)
    → stop limit now document ended_at ≡ ok r
    → IsStep limit document r.0
stop-IsStep limit now document ended_at r h =
    let s = stop-IsStopped limit now document ended_at r h in
    let d : TimeDocument = record document { active_session = none } in
    IsStep-trans limit document d r.0 (IsStep-same limit document d refl)
      (append_to_document-IsStep limit now d _ r s.logs)

left_by-IsStep :
    {A : Type 0} (limit : ℕ) (document : TimeDocument) (result : Result Error (TimeDocument × A))
    → ((r : TimeDocument × A) → result ≡ ok r → IsStep limit document r.0)
    → IsStep limit document (left_by document result)
unfolding left_by
left_by-IsStep limit document (err e) h = IsStep-same limit document document refl
left_by-IsStep limit document (ok r) h = h r refl

after_call-IsStep :
    (limit : ℕ) (document : TimeDocument) (c : ℕ × TimeCall)
    → IsStep limit document (after_call limit document c)
unfolding after_call
after_call-IsStep limit document (now, append_entry e) =
    left_by-IsStep limit document (append_to_document limit now document e)
      (append_to_document-IsStep limit now document e)
after_call-IsStep limit document (now, start_session category description status started_at) =
    left_by-IsStep limit document (start now document category description status started_at)
      (λ r h.
        IsStep-same limit document r.0
          (start-entries now document category description status started_at r h))
after_call-IsStep limit document (now, stop_at ended_at) =
    left_by-IsStep limit document (stop limit now document ended_at)
      (stop-IsStep limit now document ended_at)

-- Whatever calls are made, failed ones included, logged entries stay as they are and in their
-- order, and counted minutes that were within the limit are so afterwards.
pub run_calls-IsStep :
    (limit : ℕ) (document : TimeDocument) (calls : List (ℕ × TimeCall))
    → IsStep limit document (run_calls limit document calls)
unfolding run_calls
run_calls-IsStep limit document [] = IsStep-same limit document document refl
run_calls-IsStep limit document (c ∷ cs) =
    let next = after_call limit document c in
    IsStep-trans limit document next (run_calls limit next cs) (after_call-IsStep limit document c)
      (run_calls-IsStep limit next cs)
