-- ===== src/Watchdog/Escapes.antt =====
-- Where an `OverflowError` leaves `run_watchdog` of runpod_watchdog.py: in the derivation of a
-- deadline, and nowhere else.
use model_forensics_value_le.Prelude.{
  ℕ, ◌≡◌, ◌⊎◌, refl, ap, ◌∙◌, ◌+◌, ◌≤◌, subst, Bool, true, false, some, List, [], ◌∷◌, inl, inr,
  arith, Option, none, ◌==◌, str_eq, Option-cases, Bool-cases,
}
use model_forensics_value_le.Prelude.Outcome.{Result, ok, err, ◌>>◌, raise_if, Result-cases}
use model_forensics_value_le.Watchdog.Limits.{
  WatchdogError, WatchdogLimits, overflow_error, rate_exceeded, restarted, identity_changed,
  no_metadata,
}
use model_forensics_value_le.Watchdog.Live.{
  PodMetadata, Profile, DerivedDeadline, max2, effective_hourly, check_place, check_machine,
  validate_live_metadata, derive_deadline,
}
use model_forensics_value_le.Watchdog.Monitor.{
  Round, Guard, escaped, escapes, renewed, answered, turn, watch, armed,
}
use model_forensics_value_le.Watchdog.Deadline.{Turn-cases}

-- The error of a call, if it raised, is one that the handlers catch.
abbrev IsCaught : Result WatchdogError (Unit {0}) → Type 0
IsCaught (ok u) = Unit
IsCaught (err e) = escapes e ≡ false

check_place-IsCaught : (profile : Profile) (m : PodMetadata) → IsCaught (check_place profile m)
unfolding check_place escapes
check_place-IsCaught profile m = ground arith

check_machine-IsCaught : (m : PodMetadata) → IsCaught (check_machine m)
unfolding check_machine escapes
check_machine-IsCaught m = ground arith

escapes-eq : (e : WatchdogError) → escapes e ≡ true → e ≡ overflow_error
unfolding escapes
escapes-eq e h = ground arith

rate_exceeded-IsCaught : (over : Bool) → IsCaught (raise_if over rate_exceeded)
unfolding escapes
rate_exceeded-IsCaught over = ground arith

>>-IsCaught : (a b : Result WatchdogError (Unit {0})) → IsCaught a → IsCaught b → IsCaught (a >> b)
>>-IsCaught (ok u) b _ caught = caught
>>-IsCaught (err e) b caught _ = caught

max2_right : (a b : ℕ) → b ≤ max2 a b
max2_right a b = ground arith

restarted-caught : (escapes restarted ≡ false) × (escapes identity_changed ≡ false)
unfolding escapes
restarted-caught = (refl, refl)

no_metadata-caught :
    (e : WatchdogError)
    → ◌≡◌ {A = Result WatchdogError (PodMetadata × DerivedDeadline)} (err no_metadata) (err e)
    → escapes e ≡ true
    → ⊥
unfolding escapes
no_metadata-caught e h out = ground arith

module _ (limits : WatchdogLimits) where
  -- At its hourly rate with storage or a higher one, the deadline of the machine is out of range.
  abbrev pub IsOutOfRange : PodMetadata → Type 0
  IsOutOfRange m =
      (rate : ℕ) × (effective_hourly m + limits.approved_storage_hourly ≤ rate)
      × (derive_deadline m limits (some rate) ≡ err overflow_error)

  -- An answer in the watching loop is such a machine.
  abbrev pub SeesOutOfRange : List Round → Type 0
  SeesOutOfRange [] = ⊥
  SeesOutOfRange (r ∷ rs) =
      ((m : PodMetadata) × (r.answer ≡ some m) × IsOutOfRange m) ⊎ SeesOutOfRange rs

  module _ (profile : Profile) where
    validate_live_metadata-IsCaught :
        (m : PodMetadata) → IsCaught (validate_live_metadata limits profile m)
    unfolding validate_live_metadata
    validate_live_metadata-IsCaught m =
        >>-IsCaught (check_place profile m) _ (check_place-IsCaught profile m)
          (>>-IsCaught (check_machine m) _ (check_machine-IsCaught m) (rate_exceeded-IsCaught _))

    -- A good rate whose deadline is out of range.
    derived-IsOutOfRange :
        (m : PodMetadata) (rate : ℕ) (e : WatchdogError)
        → effective_hourly m + limits.approved_storage_hourly ≤ rate
        → derive_deadline m limits (some rate) ≡ err e
        → escapes e ≡ true
        → IsOutOfRange m
    derived-IsOutOfRange m rate e high h out = (rate, high, h ∙ ap (λ e. err e) (escapes-eq e out))

    renewed-IsOutOfRange :
        (g : Guard) (r : Round) (m : PodMetadata) (e : WatchdogError)
        → renewed limits profile g r m ≡ err e
        → escapes e ≡ true
        → IsOutOfRange m
    unfolding renewed
    renewed-IsOutOfRange g r m e h out =
        let rate = max2 g.rate (effective_hourly m + limits.approved_storage_hourly) in
        elim (Result-cases (validate_live_metadata limits profile m)) [
          | inl (f, bad) ↦
              let caught : escapes f ≡ false =
                subst IsCaught bad (validate_live_metadata-IsCaught m) in
              absurd (ground arith)
          | inr (u, good) ↦ elim (Bool-cases (m.last_started_at == g.started_at)) [
            | inr other ↦ let caught = restarted-caught.0 in absurd (ground arith)
            | inl same ↦ elim (Bool-cases (str_eq m.execution_identity_hash g.identity)) [
              | inr changed ↦ let caught = restarted-caught.1 in absurd (ground arith)
              | inl kept ↦ elim (Result-cases (derive_deadline m limits (some rate))) [
                | inl (f, bad) ↦
                    let equal : f ≡ e = ground arith in
                    derived-IsOutOfRange m rate f
                      (max2_right g.rate (effective_hourly m + limits.approved_storage_hourly)) bad
                      (rw equal out)
                | inr (d, derived) ↦ absurd (ground arith)
              ]
            ]
          ]
        ]

    turn-IsOutOfRange :
        (g : Guard) (r : Round)
        → turn limits profile g r ≡ escaped
        → (m : PodMetadata) × (r.answer ≡ some m) × IsOutOfRange m
    unfolding turn answered
    turn-IsOutOfRange g r h = elim (Option-cases r.answer) [
      | inl silent ↦ absurd (ground arith)
      | inr (m, heard) ↦ elim (Result-cases (renewed limits profile g r m)) [
        | inl (e, bad) ↦
            let out : escapes e ≡ true = ground arith in
            (m, heard, renewed-IsOutOfRange g r m e bad out)
        | inr (next, good) ↦ absurd (ground arith)
      ]
    ]

    pub armed-IsOutOfRange :
        (answer : Option PodMetadata) (e : WatchdogError)
        → armed limits profile answer ≡ err e
        → escapes e ≡ true
        → (m : PodMetadata) × (answer ≡ some m) × IsOutOfRange m
    unfolding armed
    armed-IsOutOfRange none e h out = absurd (no_metadata-caught e h out)
    armed-IsOutOfRange (some m) e h out =
        let rate = effective_hourly m + limits.approved_storage_hourly in
        elim (Result-cases (validate_live_metadata limits profile m)) [
          | inl (f, bad) ↦
              let caught : escapes f ≡ false =
                subst IsCaught bad (validate_live_metadata-IsCaught m) in
              absurd (ground arith)
          | inr (u, good) ↦ elim (Result-cases (derive_deadline m limits (some rate))) [
            | inl (f, bad) ↦
                let same : f ≡ e = ground arith in
                (m, refl, derived-IsOutOfRange m rate f (omega arith) bad (rw same out))
            | inr (d, derived) ↦ absurd (ground arith)
          ]
        ]

    pub watch-SeesOutOfRange :
        (g : Guard) (rs : List Round) → watch limits profile g rs ≡ escaped → SeesOutOfRange rs
    unfolding watch
    watch-SeesOutOfRange g [] h = absurd (ground arith)
    watch-SeesOutOfRange g (r ∷ rs) h = elim (Turn-cases (turn limits profile g r)) [
      | inl (next, e) ↦ inr (watch-SeesOutOfRange next rs (ground arith))
      | inr (inl (reason, e)) ↦ absurd (ground arith)
      | inr (inr (inl (c, e))) ↦ absurd (ground arith)
      | inr (inr (inr e)) ↦ inl (turn-IsOutOfRange g r e)
    ]
