-- ===== src/TimeLedger/Usage.antt =====
-- `category_accounting` of timeledger.py.
use model_forensics_value_le.Prelude.{
  ℕ, ◌+◌, ◌≡◌, refl, String, true, List, [], ◌∷◌, map, arith, str_eq, Bool-cases, inl, inr,
}
use model_forensics_value_le.TimeLedger.Ledger.{
  Logged, TimeDocument, time_totals, sum_minutes, is_counted, add_usage, usage_from, usage,
}

-- The minutes of a dictionary of categories.
unfoldable pub sum_usage : List (String × ℕ) → ℕ
sum_usage [] = 0
sum_usage (u ∷ us) = u.1 + sum_usage us

add_usage-sum :
    (us : List (String × ℕ)) (category : String) (n : ℕ)
    → sum_usage (add_usage us category n) ≡ sum_usage us + n
unfolding sum_usage add_usage
add_usage-sum [] category n = omega arith
add_usage-sum (u ∷ us) category n = elim (Bool-cases (str_eq u.0 category)) [
  | inl e ↦ ground arith
  | inr e ↦ ground (arith, add_usage-sum us category n)
]

usage_from-sum :
    (us : List (String × ℕ)) (es : List Logged)
    → sum_usage (usage_from us es) ≡ sum_usage us + sum_minutes true es
unfolding usage_from sum_minutes
usage_from-sum us [] = omega arith
usage_from-sum us (e ∷ es) = elim (Bool-cases (is_counted e.status)) [
  | inl f ↦ ground (
    arith,
    usage_from-sum (add_usage us e.category e.minutes) es,
    add_usage-sum us e.category e.minutes,
  )
  | inr f ↦ ground (arith, usage_from-sum us es)
]

no_usage-sum : (cs : List (String × ℕ)) → sum_usage (map (λ c. (c.0, 0)) cs) ≡ 0
unfolding sum_usage
no_usage-sum [] = refl
no_usage-sum (c ∷ cs) = omega (arith, no_usage-sum cs)

-- The usage by category adds up to the counted minutes.
pub usage-sum :
    (document : TimeDocument) → sum_usage (usage document) ≡ (time_totals document).counted_minutes
unfolding usage time_totals
usage-sum document = omega (
  arith,
  usage_from-sum (map (λ c. (c.0, 0)) document.counted_categories) document.entries,
  no_usage-sum document.counted_categories,
)
