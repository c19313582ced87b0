-- ===== src/GpuBudget/Checked.antt =====
-- What the tests of `reserve_gpu_phase_budget`, gpu_budget.py, leave of a request.
use model_forensics_value_le.Prelude.{
  ℕ, ◌<◌, ◌≡◌, refl, subst, String, true, false, Option, some, arith, inl, inr, ltb,
}
use model_forensics_value_le.Prelude.Outcome.{ok, Result-cases, ok-injective}
use model_forensics_value_le.Prelude.Text.{codes}
use model_forensics_value_le.Budget.Document.{BudgetLimits}
use model_forensics_value_le.GpuBudget.Texts.{phase_matches, is_session_id}
use model_forensics_value_le.GpuBudget.Receipt.{GpuError, Digests, safe_ceiling}
use model_forensics_value_le.GpuBudget.Reserve.{
  Quantity, positive_finite, ceil_usd, GpuRequest, Checked, checked_phase, checked_session,
  checked_margin, checked_request,
}

pub positive_finite-lt : (v : Quantity) (n : ℕ) → positive_finite v ≡ ok n → 0 < n
unfolding positive_finite
positive_finite-lt v n h = ground arith

checked_margin-lt : (v : Quantity) (n : ℕ) → checked_margin v ≡ ok n → (0 < n) × (n < 250_000_000)
unfolding checked_margin
checked_margin-lt v n h = ground arith

-- A text that is returned matches the pattern.
checked_phase-eq :
    (p : Option String) (x : String)
    → checked_phase p ≡ ok x
    → (p ≡ some x) × (phase_matches (codes x) ≡ true)
unfolding checked_phase
checked_phase-eq p x h = ground arith

checked_session-eq :
    (p : Option String) (x : String)
    → checked_session p ≡ ok x
    → (p ≡ some x) × (is_session_id (codes x) ≡ true)
unfolding checked_session
checked_session-eq p x h = ground arith

ceil_usd-lt : (n : ℕ) → 0 < n → 0 < ceil_usd n
unfolding ceil_usd
ceil_usd-lt n h = omega arith

module _ (digests : Digests) (limits : BudgetLimits) where
  -- A request that passed the tests.
  pub record IsChecked (request : GpuRequest) (q : Checked) : Type 0 where
    pub session : String
    pub phase_given : request.phase ≡ some q.phase
    pub session_given : request.session_id ≡ some session
    pub phase_valid : phase_matches (codes q.phase) ≡ true
    pub session_valid : is_session_id (codes session) ≡ true
    pub session_hash : q.session_hash ≡ digests.session session
    pub reservation_id : q.reservation_id ≡ digests.reservation q.phase (digests.session session)
    pub ceiling : q.ceiling ≡ safe_ceiling limits.gpu_limit q.margin
    pub maximum_pos : 0 < q.phase_maximum
    pub runtime_pos : 0 < q.runtime
    pub rate_pos : 0 < q.rate
    pub margin_pos : 0 < q.margin
    pub margin_lt : q.margin < 250_000_000

  abbrev checked_of : String → String → ℕ → ℕ → ℕ → ℕ → Checked
  checked_of phase session maximum runtime rate margin = record {
    phase = phase;
    session_hash = digests.session session;
    reservation_id = digests.reservation phase (digests.session session);
    phase_maximum = ceil_usd maximum;
    runtime = runtime;
    rate = rate;
    margin = margin;
    ceiling = safe_ceiling limits.gpu_limit margin;
  }

  pub checked_request-IsChecked :
      (request : GpuRequest) (q : Checked)
      → checked_request digests limits request ≡ ok q
      → IsChecked request q
  unfolding checked_request
  checked_request-IsChecked request q h = elim (Result-cases (checked_phase request.phase)) [
    | inl (x, f) ↦ absurd (ground arith)
    | inr (p, f) ↦ elim (Result-cases (checked_session request.session_id)) [
      | inl (x, g) ↦ absurd (ground arith)
      | inr (n, g) ↦ elim (Result-cases (positive_finite request.approved_phase_maximum)) [
        | inl (x, a) ↦ absurd (ground arith)
        | inr (maximum, a) ↦
            elim (Result-cases (positive_finite request.approved_maximum_runtime)) [
              | inl (x, b) ↦ absurd (ground arith)
              | inr (runtime, b) ↦ elim (Result-cases (positive_finite request.live_hourly_total)) [
                | inl (x, c) ↦ absurd (ground arith)
                | inr (rate, c) ↦ elim (Result-cases (checked_margin request.safety_margin)) [
                  | inl (x, d) ↦ absurd (ground arith)
                  | inr (margin, d) ↦
                      let e : ltb (safe_ceiling limits.gpu_limit margin) (ceil_usd maximum)
                          ≡ false =
                        ground arith in
                      subst (IsChecked request) {x = checked_of p n maximum runtime rate margin}
                        (ok-injective {E = GpuError} (ground arith))
                        (record {
                          session = n;
                          phase_given = (checked_phase-eq request.phase p f).0;
                          session_given = (checked_session-eq request.session_id n g).0;
                          phase_valid = (checked_phase-eq request.phase p f).1;
                          session_valid = (checked_session-eq request.session_id n g).1;
                          session_hash = refl;
                          reservation_id = refl;
                          ceiling = refl;
                          maximum_pos =
                              ceil_usd-lt maximum
                                (positive_finite-lt request.approved_phase_maximum maximum a);
                          runtime_pos =
                              positive_finite-lt request.approved_maximum_runtime runtime b;
                          rate_pos = positive_finite-lt request.live_hourly_total rate c;
                          margin_pos = (checked_margin-lt request.safety_margin margin d).0;
                          margin_lt = (checked_margin-lt request.safety_margin margin d).1;
                        })
                ]
              ]
            ]
      ]
    ]
  ]
