-- ===== src/Budget/Calls/Returned.antt =====
-- A `reserve_once` of budget.py that returned: the tests that it passed, and what it wrote.
use model_forensics_value_le.Prelude.{
  String, ◌≡◌, Bool, true, false, Option, some, List, [], ◌∷◌, ◌++◌, ◌&&◌, any, arith, inl, inr,
}
use model_forensics_value_le.Prelude.Outcome.{ok, Result-cases}
use model_forensics_value_le.Budget.Entry.{is_id, CostEntry, Entry, has_id, normalized, Amount}
use model_forensics_value_le.Budget.Document.{BudgetLimits, totals, assert_limits}
use model_forensics_value_le.Budget.Store.{Yaml, ledger_document}
use model_forensics_value_le.Budget.Ceilings.{TotalKey, Ceilings, read_ceilings, assert_ceilings}
use model_forensics_value_le.Budget.Ledger.{
  with_id, reserve_once, outstanding, commit_once, ReservationSnapshot,
}
use model_forensics_value_le.Budget.Calls.Frame.{Loads}

-- The totals before and after one more entry.
abbrev pub snapshot_of : List Entry → Entry → ReservationSnapshot
snapshot_of es e = record {
  incurred_before = totals false es;
  committed_before = totals true es;
  committed_after = totals true (es ++ e ∷ []);
}

module _ (yaml : Yaml) (limits : BudgetLimits) (now : String) (s s' : Option yaml.Text)
    (es : List Entry) (loads : Loads yaml limits s es) where
  pub commit_once-returned :
      (ceilings : Ceilings) (e : Entry) (t : ReservationSnapshot)
      → commit_once yaml limits now ceilings e es s ≡ (ok t, s')
      → (t ≡ snapshot_of es e)
        × (assert_limits limits (totals true (es ++ e ∷ [])) ≡ ok tt)
        × (assert_ceilings ceilings (totals true (es ++ e ∷ [])) ≡ ok tt)
        × (s' ≡ some (yaml.safe_dump (ledger_document limits (es ++ e ∷ []))))
  unfolding commit_once
  commit_once-returned ceilings e t h =
      elim (Result-cases (assert_limits limits (totals true (es ++ e ∷ [])))) [
        | inl (x, over) ↦ absurd (ground arith)
        | inr (_, fits) ↦
            elim (Result-cases (assert_ceilings ceilings (totals true (es ++ e ∷ [])))) [
              | inl (x, over) ↦ absurd (ground arith)
              | inr (_, low) ↦ (ground arith, fits, low, ground arith)
            ]
      ]

  -- A returned `reserve_once` passed its tests and committed the entry.
  pub record IsReserved (i : String) (entry : CostEntry) (most : List (Option TotalKey × Amount))
      (alone : Bool) (t : ReservationSnapshot) : Type 0 where
    pub ceilings : Ceilings
    pub read : read_ceilings most ≡ ok ceilings
    pub e : Entry
    pub normal : normalized now entry ≡ ok e
    pub named : is_id i ≡ true
    pub free : any (has_id i) es ≡ false
    pub idle : alone && outstanding e.kind es ≡ false
    pub committed : commit_once yaml limits now ceilings (with_id i e) es s ≡ (ok t, s')

  pub reserve_once-IsReserved :
      (i : String) (entry : CostEntry) (most : List (Option TotalKey × Amount)) (alone : Bool)
      (t : ReservationSnapshot)
      → reserve_once yaml limits now i entry most alone s ≡ (ok t, s')
      → IsReserved i entry most alone t
  unfolding reserve_once
  reserve_once-IsReserved i entry most alone t h = elim (Result-cases (read_ceilings most)) [
    | inl (x, bad) ↦ absurd (ground arith)
    | inr (ceilings, read) ↦ elim (Result-cases (normalized now entry)) [
      | inl (x, bad) ↦ absurd (ground arith)
      | inr (e, good) ↦ record {
        ceilings = ceilings;
        read = read;
        e = e;
        normal = good;
        named = ground arith;
        free = ground arith;
        idle = ground arith;
        committed = ground arith;
      }
    ]
  ]
