-- ===== src/Spans/Trim.antt =====
-- `_trimmed_bounds` of token_spans.py stays in its range and stops at what is no white space.
use model_forensics_value_le.Prelude.{
  ℕ, zero, suc, ◌+◌, ◌-◌, ◌≤◌, ◌<◌, ◌≡◌, false, ◌&&◌, inl, inr, arith, ltb, Bool-cases, subst,
}
use model_forensics_value_le.Spans.Sections.{Text, space_at, trim_start, trim_end, trimmed_bounds}

record IsTrimmedStart (text : Text) (start stop r : ℕ) : Type 0 where
  pub from : start ≤ r
  pub to : r ≤ stop
  pub visible : r < stop → space_at text r ≡ false

record IsTrimmedEnd (text : Text) (start stop r : ℕ) : Type 0 where
  pub from : start ≤ r
  pub to : r ≤ stop
  pub visible : start < r → space_at text (r - 1) ≡ false

trim_start-IsTrimmedStart :
    (text : Text) (rounds start stop : ℕ)
    → start ≤ stop
    → stop ≤ start + rounds
    → IsTrimmedStart text start stop (trim_start text rounds start stop)
unfolding trim_start
trim_start-IsTrimmedStart text zero start stop h k = record {
  from = omega arith;
  to = h;
  visible = λ l. absurd (omega (arith, l, k));
}
trim_start-IsTrimmedStart text (suc rounds) start stop h k =
    elim (Bool-cases (ltb start stop && space_at text start)) [
      | inr e ↦
          subst (IsTrimmedStart text start stop) {x = start} (ground arith)
            record { from = omega arith; to = h; visible = λ l. ground arith }
      | inl e ↦
          let rest : IsTrimmedStart text (start + 1) stop
              (trim_start text rounds (start + 1) stop) =
            trim_start-IsTrimmedStart text rounds (start + 1) stop (ground arith) (omega arith) in
          subst (IsTrimmedStart text start stop) {x = trim_start text rounds (start + 1) stop}
            (ground arith)
            record { from = omega (arith, rest.from); to = rest.to; visible = rest.visible }
    ]

trim_end-IsTrimmedEnd :
    (text : Text) (rounds start stop : ℕ)
    → start ≤ stop
    → stop ≤ start + rounds
    → IsTrimmedEnd text start stop (trim_end text rounds start stop)
unfolding trim_end
trim_end-IsTrimmedEnd text zero start stop h k = record {
  from = h;
  to = omega arith;
  visible = λ l. absurd (omega (arith, l, k));
}
trim_end-IsTrimmedEnd text (suc rounds) start stop h k =
    elim (Bool-cases (ltb start stop && space_at text (stop - 1))) [
      | inr e ↦
          subst (IsTrimmedEnd text start stop) {x = stop} (ground arith)
            record { from = h; to = omega arith; visible = λ l. ground arith }
      | inl e ↦
          let rest : IsTrimmedEnd text start (stop - 1) (trim_end text rounds start (stop - 1)) =
            trim_end-IsTrimmedEnd text rounds start (stop - 1) (ground arith) (omega arith) in
          subst (IsTrimmedEnd text start stop) {x = trim_end text rounds start (stop - 1)}
            (ground arith)
            record { from = rest.from; to = omega (arith, rest.to); visible = rest.visible }
    ]

-- The trimmed range lies in the given one, and no white space is at its ends.
pub record IsTrimmed (text : Text) (start stop : ℕ) (r : ℕ × ℕ) : Type 0 where
  pub from : start ≤ r.0
  pub ordered : r.0 ≤ r.1
  pub to : r.1 ≤ stop
  pub first_visible : r.0 < r.1 → space_at text r.0 ≡ false
  pub last_visible : r.0 < r.1 → space_at text (r.1 - 1) ≡ false

pub trimmed_bounds-IsTrimmed :
    (text : Text) (start stop : ℕ)
    → start ≤ stop
    → IsTrimmed text start stop (trimmed_bounds text start stop)
unfolding trimmed_bounds
trimmed_bounds-IsTrimmed text start stop h =
    let s = trim_start text (stop - start) start stop in
    let a : IsTrimmedStart text start stop s =
      trim_start-IsTrimmedStart text (stop - start) start stop h (omega arith) in
    let b : IsTrimmedEnd text s stop (trim_end text (stop - s) s stop) =
      trim_end-IsTrimmedEnd text (stop - s) s stop a.to (omega (arith, a.to)) in
    record {
      from = a.from;
      ordered = b.from;
      to = b.to;
      first_visible = λ l. a.visible (omega (arith, l, b.to));
      last_visible = b.visible;
    }
