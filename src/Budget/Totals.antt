-- ===== src/Budget/Totals.antt =====
-- The totals of budget.py against the entries: what one more entry, or one replaced, adds.
use model_forensics_value_le.Prelude.{
  ℕ, ◌+◌, ◌≤◌, String, ◌≡◌, Bool, true, false, not, ◌&&◌, some, List, [], ◌∷◌, ◌++◌, arith,
  if◌then◌else◌,
}
use model_forensics_value_le.Prelude.Outcome.{ok}
use model_forensics_value_le.Budget.Entry.{
  Kind, gpu, api, storage, other, kind_eq, is_estimated, Entry,
}
use model_forensics_value_le.Budget.Document.{
  BudgetLimits, Sums, Totals, add_cost, sum_entries, totals, assert_limits, no_costs,
}
use model_forensics_value_le.Budget.Ledger.{find_id, replace_id}

-- The committed totals are within the three hard stops.
pub record Fits (limits : BudgetLimits) (t : Totals) : Type 0 where
  pub gpu_fits : t.gpu ≤ limits.gpu_limit
  pub api_fits : t.api ≤ limits.api_limit
  pub total_fits : t.total ≤ limits.total_limit

pub Fits-assert_limits :
    (limits : BudgetLimits) (t : Totals) → assert_limits limits t ≡ ok tt → Fits limits t
unfolding assert_limits
Fits-assert_limits limits t h = ground arith

pub assert_limits-Fits :
    (limits : BudgetLimits) (t : Totals) → Fits limits t → assert_limits limits t ≡ ok tt
unfolding assert_limits
assert_limits-Fits limits t h = ground arith

-- What an entry adds to the total of a kind.
unfoldable pub cost_of : Bool → Kind → Entry → ℕ
cost_of inc k e = if kind_eq e.kind k && not (is_estimated e.status && not inc) then e.amount else 0

-- The total of a kind as a plain sum over the entries.
unfoldable pub spent : Bool → Kind → List Entry → ℕ
spent inc k [] = 0
spent inc k (e ∷ es) = cost_of inc k e + spent inc k es

abbrev Adds : Sums → Sums → (Kind → ℕ) → Type 0
Adds s t n =
    (t.gpu_sum ≡ s.gpu_sum + n gpu)
    × (t.api_sum ≡ s.api_sum + n api)
    × (t.storage_sum ≡ s.storage_sum + n storage)
    × (t.other_sum ≡ s.other_sum + n other)

abbrev next_sums : Bool → Sums → Entry → Sums
next_sums inc s e = if is_estimated e.status && not inc then s else add_cost s e.kind e.amount

next_sums-Adds :
    (inc : Bool) (s : Sums) (e : Entry) → Adds s (next_sums inc s e) (λ k. cost_of inc k e)
unfolding add_cost cost_of
next_sums-Adds inc s e = ground arith

sum_entries-Adds :
    (inc : Bool) (s : Sums) (es : List Entry) → Adds s (sum_entries inc s es) (λ k. spent inc k es)
unfolding sum_entries spent
sum_entries-Adds inc s [] = omega arith
sum_entries-Adds inc s (e ∷ es) =
    omega (arith, next_sums-Adds inc s e, sum_entries-Adds inc (next_sums inc s e) es)

-- The totals of a document are the sums of the amounts of each kind and of all kinds; estimates
-- count only where they are asked for.
pub totals-spent :
    (inc : Bool) (es : List Entry)
    → ((totals inc es).gpu ≡ spent inc gpu es)
      × ((totals inc es).api ≡ spent inc api es)
      × ((totals inc es).storage ≡ spent inc storage es)
      × ((totals inc es).other ≡ spent inc other es)
      × ((totals inc es).total
          ≡ spent inc gpu es + spent inc api es + spent inc storage es + spent inc other es)
unfolding totals
totals-spent inc es = omega (arith, sum_entries-Adds inc no_costs es)

pub spent-append :
    (inc : Bool) (k : Kind) (xs ys : List Entry)
    → spent inc k (xs ++ ys) ≡ spent inc k xs + spent inc k ys
unfolding spent
spent-append inc k [] ys = omega arith
spent-append inc k (e ∷ xs) ys = omega (arith, spent-append inc k xs ys)

pub spent-snoc :
    (inc : Bool) (k : Kind) (xs : List Entry) (e : Entry)
    → spent inc k (xs ++ e ∷ []) ≡ spent inc k xs + cost_of inc k e
unfolding spent
spent-snoc inc k xs e = omega (arith, spent-append inc k xs (e ∷ []))

-- Replacing the first entry with an ID exchanges its cost.
pub spent-replace_id :
    (inc : Bool) (k : Kind) (i : String) (new old : Entry) (es : List Entry)
    → find_id i es ≡ some old
    → spent inc k (replace_id i new es) + cost_of inc k old ≡ spent inc k es + cost_of inc k new
unfolding spent find_id replace_id
spent-replace_id inc k i new old [] h = cc
spent-replace_id inc k i new old (e ∷ es) h = ground (arith, spent-replace_id inc k i new old es)

pub spent-le : (k : Kind) (es : List Entry) → spent false k es ≤ spent true k es
unfolding spent cost_of
spent-le k [] = omega arith
spent-le k (e ∷ es) = ground (arith, spent-le k es)

gpu_cost :
    (e : Entry)
    → e.kind ≡ gpu
    → (cost_of true gpu e ≡ e.amount)
      × (cost_of true api e ≡ 0)
      × (cost_of true storage e ≡ 0)
      × (cost_of true other e ≡ 0)
unfolding cost_of
gpu_cost e h = ground arith

-- One more GPU cost.
pub totals-snoc_gpu :
    (es : List Entry) (e : Entry)
    → e.kind ≡ gpu
    → ((totals true (es ++ e ∷ [])).gpu ≡ (totals true es).gpu + e.amount)
      × ((totals true (es ++ e ∷ [])).total ≡ (totals true es).total + e.amount)
totals-snoc_gpu es e h =
    let cost = gpu_cost e h in
    omega (
      arith,
      totals-spent true es,
      totals-spent true (es ++ e ∷ []),
      spent-snoc true gpu es e,
      spent-snoc true api es e,
      spent-snoc true storage es e,
      spent-snoc true other es e,
      cost,
    )
