-- ===== src/Sentences/Steps.antt =====
-- What the inner loops of `sentence_spans`, anchors.py, give.
use model_forensics_value_le.Prelude.{
  ℕ, zero, suc, ◌+◌, ◌-◌, ◌≤◌, ◌<◌, ◌≡◌, refl, Bool, true, false, ◌&&◌, none, some, List, [], ◌∷◌,
  length, get_elem?, arith, inl, inr, Bool-cases, ltb, leb,
}
use model_forensics_value_le.Prelude.Text.{is_space}
use model_forensics_value_le.Sentences.Scan.{
  Boundary, terminal, newline, at_end, is_terminal, is_closer, is_newline, char_is, skip, trim,
  punctuation_end, ends_sentence, scan,
}

get_elem?-past : (xs : List ℕ) (k : ℕ) → length xs ≤ k → get_elem? xs k ≡ none
get_elem?-past [] k h = refl
get_elem?-past (x ∷ xs) zero h = absurd (ground arith)
get_elem?-past (x ∷ xs) (suc k) h = get_elem?-past xs k (omega arith)

pub char_is-lt :
    (test : ℕ → Bool) (text : List ℕ) (i : ℕ) → char_is test text i ≡ true → i < length text
unfolding char_is
char_is-lt test text i h = elim (Bool-cases (ltb i (length text))) [
  | inl inside ↦ ground arith
  | inr past ↦ let none_there = get_elem?-past text i (ground arith) in absurd (ground arith)
]

module _ (test : ℕ → Bool) (text : List ℕ) where
  pub skip-le : (fuel i : ℕ) → i ≤ skip test fuel text i
  unfolding skip
  skip-le zero i = omega arith
  skip-le (suc fuel) i = ground (arith, skip-le fuel (suc i))

  pub skip-end : (fuel i : ℕ) → i ≤ length text → skip test fuel text i ≤ length text
  unfolding skip
  skip-end zero i h = h
  skip-end (suc fuel) i h = elim (Bool-cases (char_is test text i)) [
    | inl b ↦
        let low = char_is-lt test text i b in
        let rest = skip-end fuel (suc i) (omega arith) in ground arith
    | inr b ↦ ground arith
  ]

  -- With the fuel for the rest of the text, the loop stops where the test fails.
  pub skip-stops :
      (fuel i : ℕ) → length text ≤ fuel + i → char_is test text (skip test fuel text i) ≡ false
  unfolding skip
  skip-stops zero i h = elim (Bool-cases (char_is test text i)) [
    | inl b ↦ absurd (omega (arith, char_is-lt test text i b))
    | inr b ↦ b
  ]
  skip-stops (suc fuel) i h = elim (Bool-cases (char_is test text i)) [
    | inl b ↦ rw (skip, b) (skip-stops fuel (suc i) (omega arith))
    | inr b ↦ rw (skip, b) b
  ]

module _ (text : List ℕ) (start : ℕ) where
  pub trim-le : (n : ℕ) → trim text start n ≤ n
  unfolding trim
  trim-le zero = omega arith
  trim-le (suc n) = ground (arith, trim-le n)

  -- A trimmed text that is not empty ends in a character that is no white space.
  pub trim-space :
      (n : ℕ) → start < trim text start n → char_is is_space text (trim text start n - 1) ≡ false
  unfolding trim
  trim-space zero h = absurd (ground arith)
  trim-space (suc n) h = elim (Bool-cases (ltb start (suc n) && char_is is_space text n)) [
    | inl b ↦ rw (trim, b) (trim-space n (ground arith))
    | inr b ↦ let less : suc n - 1 ≡ n = omega arith in rw (trim, b, less) (ground arith)
  ]

module _ (is_digit : ℕ → Bool) (is_abbreviation eligible : List ℕ → Bool) (text : List ℕ)
    (start : ℕ) where
  punctuation_end-lt :
      (cursor : ℕ)
      → cursor < length text
      → (cursor < punctuation_end is_digit is_abbreviation eligible text cursor)
        × (punctuation_end is_digit is_abbreviation eligible text cursor ≤ length text)
  unfolding punctuation_end
  punctuation_end-lt cursor h =
      let mid = skip is_terminal (length text) text (suc cursor) in
      let low = skip-le is_terminal text (length text) (suc cursor) in
      let inside = skip-end is_terminal text (length text) (suc cursor) h in
      (
        omega (arith, skip-le is_closer text (length text) mid),
        skip-end is_closer text (length text) mid inside,
      )

  -- What the scan of a sentence gives, from this cursor.
  pub record IsScanned (fuel cursor : ℕ) : Type 0 where
    pub end : ℕ
    pub b : Boundary
    pub found : scan is_digit is_abbreviation eligible fuel text start cursor ≡ some (end, b)
    pub low : cursor ≤ end
    pub inside : end ≤ length text
    pub later : (cursor < length text) → char_is is_newline text cursor ≡ false → cursor < end

  pub scan-IsScanned :
      (fuel cursor : ℕ) → length text < fuel + cursor → cursor ≤ length text → IsScanned fuel cursor
  unfolding scan
  scan-IsScanned zero cursor enough h = absurd (omega (arith, enough, h))
  scan-IsScanned (suc fuel) cursor enough h = elim (Bool-cases (leb (length text) cursor)) [
    | inl past ↦ record {
      end = length text;
      b = at_end;
      found = rw (scan, past);
      low = h;
      inside = omega arith;
      later = λ k n. k;
    }
    | inr within ↦ elim (Bool-cases (char_is is_newline text cursor)) [
      | inl breaks ↦ record {
        end = cursor;
        b = newline;
        found = rw (scan, within, breaks);
        low = omega arith;
        inside = h;
        later = λ k n. absurd (ground arith);
      }
      | inr goes_on ↦
          let room : cursor < length text = ground arith in
          elim (Bool-cases (ends_sentence is_digit is_abbreviation eligible text start cursor)) [
            | inl ends ↦
                let (low, inside) = punctuation_end-lt cursor room in
                record {
                  end = punctuation_end is_digit is_abbreviation eligible text cursor;
                  b = terminal;
                  found = rw (scan, within, goes_on, ends);
                  low = omega arith;
                  inside = inside;
                  later = λ k n. low;
                }
            | inr unended ↦
                let rest = scan-IsScanned fuel (suc cursor) (omega arith) (omega arith) in
                record {
                  end = rest.end;
                  b = rest.b;
                  found = rw (scan, within, goes_on, unended) rest.found;
                  low = omega (arith, rest.low);
                  inside = rest.inside;
                  later = λ k n. omega (arith, rest.low);
                }
          ]
    ]
  ]
