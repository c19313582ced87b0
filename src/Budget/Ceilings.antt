-- ===== src/Budget/Ceilings.antt =====
-- The stricter ceilings of one transaction, the argument `maximum_totals` of `reserve_once`.
use model_forensics_value_le.Prelude.{ℕ, Option, none, some, List, [], ◌∷◌, ltb, if◌then◌else◌}
use model_forensics_value_le.Prelude.Outcome.{Result, ok, err, ◌>>=◌}
use model_forensics_value_le.Budget.Entry.{
  Kind, Error, unknown_ceiling, bad_ceiling, ceiling_exceeded, Amount, micros, numeral_text,
  negative, nonfinite, boolean, not_number,
}
use model_forensics_value_le.Budget.Document.{Totals}

-- The keys of `maximum_totals` that the ledger knows.
pub data TotalKey : Type 0 where
  kind_total : Kind → TotalKey
  all_total : TotalKey

abbrev pub total_of : Totals → TotalKey → ℕ
total_of t (kind_total Kind.gpu) = t.gpu
total_of t (kind_total Kind.api) = t.api
total_of t (kind_total Kind.storage) = t.storage
total_of t (kind_total Kind.other) = t.other
total_of t all_total = t.total

abbrev pub Ceilings : Type 0
Ceilings = List (TotalKey × ℕ)

ceiling_amount : Amount → Result Error ℕ
ceiling_amount (micros n) = ok n
ceiling_amount (numeral_text n) = ok n
ceiling_amount negative = err bad_ceiling
ceiling_amount nonfinite = err bad_ceiling
ceiling_amount boolean = err bad_ceiling
ceiling_amount not_number = err bad_ceiling

-- The loop over `maximum_totals` in `reserve_once`; `none` is a key that is no total.
unfoldable pub read_ceilings : List (Option TotalKey × Amount) → Result Error Ceilings
unfolding ceiling_amount
read_ceilings [] = ok []
read_ceilings ((none, raw) ∷ more) = err unknown_ceiling
read_ceilings ((some key, raw) ∷ more) = do
  n ← ceiling_amount raw
  cs ← read_ceilings more
  ok ((key, n) ∷ cs)

-- The loop over `ceilings`. Amounts are whole millionths, so the slack of 1e-9 admits nothing.
unfoldable pub assert_ceilings : Ceilings → Totals → Result Error (Unit {0})
assert_ceilings [] t = ok tt
assert_ceilings ((key, n) ∷ cs) t =
    if ltb n (total_of t key) then err ceiling_exceeded else assert_ceilings cs t
