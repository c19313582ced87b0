-- ===== src/Watchdog/Affordable.antt =====
-- The deadline that `derive_deadline` of runpod_watchdog.py computes.
use model_forensics_value_le.Prelude.{
  ℕ, ◌+◌, ◌-◌, ◌*◌, ◌/◌, ◌%◌, ◌≤◌, ◌≡◌, sym, ap, ◌&&◌, ◌||◌, ltb, some, ◌==◌, arith, inl, inr,
  Bool-cases,
}
use native.Mathlib.Nat.{div-add-mod', mul-le-mul}
use model_forensics_value_le.Prelude.Outcome.{ok, >>=_inversion, ok-injective}
use model_forensics_value_le.Watchdog.Limits.{WatchdogError, WatchdogLimits, safe_budget}
use model_forensics_value_le.Watchdog.Live.{
  PodMetadata, min2, effective_hourly, DerivedDeadline, rounded, timedelta, longest, last_moment,
  moment_after, budget_runtime, runtime_limit, derive_deadline, derived_of,
}

ends_after : (s a b : ℕ) → s ≤ min2 (s + a) (s + b)
ends_after s a b = ground arith

-- Running from the start to the deadline takes no longer than the approved time, and at the rate it
-- costs no more than the safe budget, each up to the half microsecond by which a time is rounded.
pub record IsAffordable (limits : WatchdogLimits) (started : ℕ) (d : DerivedDeadline) : Type 0 where
  pub start : started ≤ d.deadline
  pub runtime : (d.deadline - started) * 10 ≤ limits.maximum_runtime * 36 + 5
  pub cost :
      2 * ((d.deadline - started) * (d.calculation_hourly * 1_000_000_000))
      ≤ 2 * (safe_budget limits * 3_600_000_000) + d.calculation_hourly * 1_000_000_000

-- Rounding adds a half at most.
rounded-le : (n k : ℕ) → 2 * (rounded n k * k) ≤ 2 * n + k
unfolding rounded
rounded-le n k =
    let parts : n / k * k + n % k ≡ n = div-add-mod' n k in
    elim (Bool-cases (ltb (2 * (n % k)) k || (2 * (n % k) == k && n / k % 2 == 0))) [
      | inl down ↦ rw down (omega (arith, parts))
      | inr up ↦
          let enough : k ≤ 2 * (n % k) = ground arith in
          let next : (n / k + 1) * k ≡ n / k * k + k = grind arith in
          rw up (omega (arith, parts, enough, next))
    ]

-- A shorter time is within the same bound.
shorter-le : (t n k u : ℕ) → u ≤ t → 2 * (t * k) ≤ 2 * n + k → 2 * (u * k) ≤ 2 * n + k
shorter-le t n k u h bound =
    let scaled : u * k ≤ t * k = mul-le-mul h (omega arith) in omega (arith, scaled, bound)

timedelta-eq : (n k t : ℕ) → timedelta n k ≡ ok t → rounded n k ≡ t
unfolding timedelta
timedelta-eq n k t h = elim (Bool-cases (ltb longest (rounded n k))) [
  | inl far ↦ absurd (ground arith)
  | inr near ↦ ok-injective {E = WatchdogError} (ground arith)
]

moment_after-eq : (s t u : ℕ) → moment_after s t ≡ ok u → s + t ≡ u
unfolding moment_after
moment_after-eq s t u h = elim (Bool-cases (ltb last_moment (s + t))) [
  | inl far ↦ absurd (ground arith)
  | inr near ↦ ok-injective {E = WatchdogError} (ground arith)
]

-- What a derived deadline is made of.
record IsDerived (m : PodMetadata) (limits : WatchdogLimits) (rate : ℕ) (d : DerivedDeadline)
    : Type 0 where
  pub budget_time : ℕ
  pub runtime_time : ℕ
  pub paid : budget_runtime limits rate ≡ ok budget_time
  pub approved : runtime_limit limits ≡ ok runtime_time
  pub deadline_is :
      d.deadline ≡ min2 (m.last_started_at + budget_time) (m.last_started_at + runtime_time)
  pub hourly_is : d.calculation_hourly ≡ rate

derived_of-IsDerived :
    (m : PodMetadata) (limits : WatchdogLimits) (rate : ℕ) (d : DerivedDeadline)
    → derived_of m limits rate ≡ ok d
    → IsDerived m limits rate d
unfolding derived_of
derived_of-IsDerived m limits rate d h =
    let (b, h1, paid) = >>=_inversion (budget_runtime limits rate) _ d h in
    let (r, h2, approved) = >>=_inversion (runtime_limit limits) _ d h1 in
    let (x, h3, sum) = >>=_inversion (moment_after m.last_started_at b) _ d h2 in
    let (y, h4, sum') = >>=_inversion (moment_after m.last_started_at r) _ d h3 in
    record {
      budget_time = b;
      runtime_time = r;
      paid = paid;
      approved = approved;
      deadline_is =
          rw (moment_after-eq m.last_started_at b x sum, moment_after-eq m.last_started_at r y sum')
            (sym (ap (λ (d : DerivedDeadline). d.deadline) (ok-injective {E = WatchdogError} h4)));
      hourly_is = sym (
          ap (λ (d : DerivedDeadline). d.calculation_hourly) (ok-injective {E = WatchdogError} h4));
    }

IsDerived-IsAffordable :
    (m : PodMetadata) (limits : WatchdogLimits) (rate : ℕ) (d : DerivedDeadline)
    → IsDerived m limits rate d
    → IsAffordable limits m.last_started_at d
unfolding budget_runtime runtime_limit
IsDerived-IsAffordable m limits rate d v =
    let s = m.last_started_at in
    let n = safe_budget limits * 3_600_000_000 in
    let k = rate * 1_000_000_000 in
    let last = limits.maximum_runtime * 18 in
    let budget = timedelta-eq n k v.budget_time v.paid in
    let runtime = timedelta-eq last 5 v.runtime_time v.approved in
    let budget_le : d.deadline - s ≤ rounded n k = ground (arith, v.deadline_is, budget) in
    let runtime_le : d.deadline - s ≤ rounded last 5 = ground (arith, v.deadline_is, runtime) in
    record {
      start = rw v.deadline_is (ends_after s v.budget_time v.runtime_time);
      runtime = omega (arith, rounded-le last 5, runtime_le);
      cost =
          rw v.hourly_is (shorter-le (rounded n k) n k (d.deadline - s) budget_le (rounded-le n k));
    }

-- A deadline that is derived at a rate no lower than the machine's is affordable at that rate.
pub derive_deadline-IsAffordable :
    (m : PodMetadata) (limits : WatchdogLimits) (rate : ℕ) (d : DerivedDeadline)
    → effective_hourly m ≤ rate
    → derive_deadline m limits (some rate) ≡ ok d
    → IsAffordable limits m.last_started_at d × (d.calculation_hourly ≡ rate)
unfolding derive_deadline
derive_deadline-IsAffordable m limits rate d low h = elim (Bool-cases (rate == 0)) [
  | inl z ↦ absurd (ground arith)
  | inr p ↦
      let v = derived_of-IsDerived m limits rate d (ground arith) in
      (IsDerived-IsAffordable m limits rate d v, v.hourly_is)
]
