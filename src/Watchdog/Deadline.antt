-- ===== src/Watchdog/Deadline.antt =====
-- The deadline that `run_watchdog` of runpod_watchdog.py keeps.
use model_forensics_value_le.Prelude.{
  ℕ, ◌+◌, ◌-◌, ◌≤◌, ◌≡◌, ◌⊎◌, refl, ap, ◌∙◌, subst, true, some, List, [], ◌∷◌, leb, arith, inl, inr,
  Option-cases,
}
use model_forensics_value_le.Prelude.Outcome.{ok, Result-cases, ok-injective}
use model_forensics_value_le.Watchdog.Limits.{WatchdogError, WatchdogLimits}
use model_forensics_value_le.Watchdog.Live.{
  PodMetadata, Profile, max2, min2, effective_hourly, DerivedDeadline, derive_deadline,
}
use model_forensics_value_le.Watchdog.Affordable.{IsAffordable, derive_deadline-IsAffordable}
use model_forensics_value_le.Watchdog.Stop.{Confirmed}
use model_forensics_value_le.Watchdog.Monitor.{
  Round, Guard, StopReason, Turn, watching, stopping, stopped_outside, escaped, renewed, answered,
  turn, watch,
}

pub Turn-cases :
    (t : Turn)
    → ((g : Guard) × (t ≡ watching g))
      ⊎ ((r : StopReason) × (t ≡ stopping r))
      ⊎ ((c : Confirmed) × (t ≡ stopped_outside c))
      ⊎ (t ≡ escaped)
Turn-cases (watching g) = inl (g, refl)
Turn-cases (stopping r) = inr (inl (r, refl))
Turn-cases (stopped_outside c) = inr (inr (inl (c, refl)))
Turn-cases escaped = inr (inr (inr refl))

-- Some round starts at this moment of the monotonic clock or later.
abbrev pub Reaches : ℕ → List Round → Type 0
Reaches n [] = ⊥
Reaches n (r ∷ rs) = (n ≤ r.monotonic) ⊎ Reaches n rs

module _ (limits : WatchdogLimits) (profile : Profile) where
  -- The loop keeps its rate, its deadline and its machine: what holds of a guard `g` that follows
  -- the guard `start`.
  pub record Follows (start g : Guard) : Type 0 where
    pub started : g.started_at ≡ start.started_at
    pub identity : g.identity ≡ start.identity
    pub rate : start.rate ≤ g.rate
    pub priced : g.derived.calculation_hourly ≡ g.rate
    pub affordable : IsAffordable limits g.started_at g.derived
    pub monotonic : g.monotonic_deadline ≤ start.monotonic_deadline

  abbrev moved : Guard → Round → DerivedDeadline → ℕ → Guard
  moved g r d rate = record g {
    derived = d;
    rate = rate;
    monotonic_deadline = min2 g.monotonic_deadline (r.later_monotonic + (d.deadline - r.later));
  }

  effective_le :
      (g : Guard) (m : PodMetadata)
      → effective_hourly m ≤ max2 g.rate (effective_hourly m + limits.approved_storage_hourly)
  effective_le g m = ground arith

  renewed-Follows :
      (g g' : Guard) (r : Round) (m : PodMetadata)
      → renewed limits profile g r m ≡ ok g'
      → Follows g g'
  unfolding renewed
  renewed-Follows g g' r m h =
      let rate = max2 g.rate (effective_hourly m + limits.approved_storage_hourly) in
      elim (Result-cases (derive_deadline m limits (some rate))) [
        | inl (e, bad) ↦ absurd (ground arith)
        | inr (d, good) ↦
            let made : moved g r d rate ≡ g' = ok-injective {E = WatchdogError} (ground arith) in
            let same_start : m.last_started_at ≡ g.started_at = ground arith in
            let (pays, priced) =
              derive_deadline-IsAffordable m limits rate d (effective_le g m) good in
            subst (Follows g) made (record {
              started = refl;
              identity = refl;
              rate = ground arith;
              priced = priced;
              affordable = subst (λ s. IsAffordable limits s d) same_start pays;
              monotonic = ground arith;
            })
      ]

  Follows-trans : (a b c : Guard) → Follows a b → Follows b c → Follows a c
  Follows-trans a b c f g = record {
    started = g.started ∙ f.started;
    identity = g.identity ∙ f.identity;
    rate = omega (arith, f.rate, g.rate);
    priced = g.priced;
    affordable = g.affordable;
    monotonic = omega (arith, f.monotonic, g.monotonic);
  }

  guard_of_turn : Guard → Turn → Guard
  guard_of_turn d (watching g) = g
  guard_of_turn d (stopping reason) = d
  guard_of_turn d (stopped_outside c) = d
  guard_of_turn d escaped = d

  watching-injective : {a b : Guard} → ◌≡◌ {A = Turn} (watching a) (watching b) → a ≡ b
  unfolding guard_of_turn
  watching-injective {a = a} h = ap (guard_of_turn a) h

  turn-Follows : (g g' : Guard) (r : Round) → turn limits profile g r ≡ watching g' → Follows g g'
  unfolding turn answered
  turn-Follows g g' r h = elim (Option-cases r.answer) [
    | inl silent ↦ absurd (ground arith)
    | inr (m, heard) ↦ elim (Result-cases (renewed limits profile g r m)) [
      | inl (e, bad) ↦ absurd (ground arith)
      | inr (next, good) ↦
          let same : next ≡ g' = watching-injective (ground arith) in
          renewed-Follows g g' r m (good ∙ ap (λ g. ok g) same)
    ]
  ]

  turn_late :
      (g g' : Guard) (r : Round)
      → g.monotonic_deadline ≤ r.monotonic
      → turn limits profile g r ≡ watching g'
      → ⊥
  unfolding turn
  turn_late g g' r late h =
      let over : leb g.monotonic_deadline r.monotonic ≡ true = ground arith in ground arith

  pub watch-Follows :
      (start g g' : Guard) (rs : List Round)
      → Follows start g
      → watch limits profile g rs ≡ watching g'
      → Follows start g'
  unfolding watch
  watch-Follows start g g' [] f h = subst (Follows start) (watching-injective h) f
  watch-Follows start g g' (r ∷ rs) f h = elim (Turn-cases (turn limits profile g r)) [
    | inl (next, e) ↦
        watch-Follows start next g' rs (Follows-trans start g next f (turn-Follows g next r e))
          (ground arith)
    | inr (inl (reason, e)) ↦ absurd (ground arith)
    | inr (inr (inl (c, e))) ↦ absurd (ground arith)
    | inr (inr (inr e)) ↦ absurd (ground arith)
  ]

  pub watch_late :
      (start g g' : Guard) (rs : List Round)
      → Follows start g
      → Reaches start.monotonic_deadline rs
      → watch limits profile g rs ≡ watching g'
      → ⊥
  unfolding watch
  watch_late start g g' [] f late h = late
  watch_late start g g' (r ∷ rs) f late h = elim (Turn-cases (turn limits profile g r)) [
    | inl (next, e) ↦ elim late [
      | inl now ↦ turn_late g next r (omega (arith, f.monotonic, now)) e
      | inr later ↦
          watch_late start next g' rs (Follows-trans start g next f (turn-Follows g next r e)) later
            (ground arith)
    ]
    | inr (inl (reason, e)) ↦ absurd (ground arith)
    | inr (inr (inl (c, e))) ↦ absurd (ground arith)
    | inr (inr (inr e)) ↦ absurd (ground arith)
  ]
