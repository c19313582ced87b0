-- ===== src/Checkpoint/Final.antt =====
-- The rows that `finalize` of record_checkpoint.py merges.
use model_forensics_value_le.Prelude.{
  ◌≡◌, refl, ap, ◌∙◌, subst, String, some, List, [], ◌∷◌, map, str_eq, eq_iff, inl, inr, arith,
  Bool-cases, Option-cases,
}
use model_forensics_value_le.Prelude.Outcome.{ok, ok-injective, Result-cases}
use model_forensics_value_le.Checkpoint.Store.{
  Error, Row, Files, text_of, row_at, rows_at, load_records, final_rows,
}

cons_eq : {A : Type 0} {x y : A} {xs ys : List A} → x ≡ y → xs ≡ ys → x ∷ xs ≡ y ∷ ys
cons_eq e f = cc

pub row_at-identifier :
    (identifier : String) (rows : List Row) (r : Row)
    → row_at identifier rows ≡ some r
    → text_of r.identifier ≡ identifier
unfolding row_at
row_at-identifier identifier [] r h = absurd (ground arith)
row_at-identifier identifier (s ∷ ss) r h = elim (Option-cases (row_at identifier ss)) [
  | inl none_later ↦ elim (Bool-cases (str_eq (text_of s.identifier) identifier)) [
    | inl b ↦
        let e : s ≡ r = ground arith in
        subst (λ t. text_of t.identifier ≡ identifier) e
          (ground (arith, eq_iff (text_of s.identifier) identifier))
    | inr b ↦ absurd (ground arith)
  ]
  | inr (later, f) ↦
      let e : later ≡ r = ground arith in row_at-identifier identifier ss r (f ∙ ap some e)
]

rows_at-identifiers :
    (expected : List String) (rows found : List Row)
    → rows_at expected rows ≡ ok found
    → map (λ r. text_of r.identifier) found ≡ expected
unfolding rows_at
rows_at-identifiers [] rows found h =
    subst (λ l. map (λ r. text_of r.identifier) l ≡ []) (ok-injective {E = Error} h) refl
rows_at-identifiers (t ∷ ts) rows found h = elim (Option-cases (row_at t rows)) [
  | inl f ↦ absurd (ground arith)
  | inr (r, f) ↦ elim (Result-cases (rows_at ts rows)) [
    | inl (e, g) ↦ absurd (ground arith)
    | inr (rest, g) ↦
        let q : r ∷ rest ≡ found = ok-injective {E = Error} (ground arith) in
        subst (λ l. map (λ r. text_of r.identifier) l ≡ t ∷ ts) {x = r ∷ rest} q
          (cons_eq (row_at-identifier t rows r f) (rows_at-identifiers ts rows rest g))
  ]
]

-- The rows that are merged are those of the expected identifiers, one each, in their order.
pub final_rows-identifiers :
    (row_hash record_name : String → String) (files : Files) (expected : List String)
    (rows : List Row)
    → final_rows row_hash record_name files expected ≡ ok rows
    → map (λ r. text_of r.identifier) rows ≡ expected
unfolding final_rows
final_rows-identifiers row_hash record_name files expected rows h =
    elim (Result-cases (load_records row_hash record_name files)) [
      | inl (e, f) ↦ absurd (ground arith)
      | inr (loaded, f) ↦ rows_at-identifiers expected loaded rows (ground arith)
    ]
