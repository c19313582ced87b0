-- ===== src/Checkpoint/Reload.antt =====
-- `load_final` of record_checkpoint.py after `finalize`.
use model_forensics_value_le.Prelude.{
  ◌≡◌, refl, String, true, false, Option, some, List, [], ◌∷◌, map, All, str_eq, eq_iff, inl, inr,
  arith, Bool-cases, Option-cases, subst, sym, ap, ◌∙◌,
}
use model_forensics_value_le.Prelude.Outcome.{ok, Result-cases, ok-injective}
use model_forensics_value_le.Checkpoint.Store.{
  Error, Row, Files, text_of, row_at, rows_at, validate_row, validate_file, validate_files,
  load_records, final_rows,
}
use model_forensics_value_le.Checkpoint.Commits.{validate_file-some, row_eq_refl}
use model_forensics_value_le.Checkpoint.Final.{row_at-identifier, final_rows-identifiers}
use model_forensics_value_le.Checkpoint.Finish.{
  Finished, texts_eq, manifest_of, finalize, validate_rows, any_differs, load_merged, load_final,
}

texts_eq_refl : (texts : List String) → texts_eq texts texts ≡ true
unfolding texts_eq
texts_eq_refl [] = refl
texts_eq_refl (t ∷ ts) = ground (arith, eq_iff t t, texts_eq_refl ts)

-- Each row is the one that is found under its identifier.
rows_at-All :
    (expected : List String) (loaded found : List Row)
    → rows_at expected loaded ≡ ok found
    → All (λ r. row_at (text_of r.identifier) loaded ≡ some r) found
unfolding rows_at
rows_at-All [] loaded found h =
    subst (All (λ r. row_at (text_of r.identifier) loaded ≡ some r)) {x = []}
      (ok-injective {E = Error} h) tt
rows_at-All (t ∷ ts) loaded found h = elim (Option-cases (row_at t loaded)) [
  | inl f ↦ absurd (ground arith)
  | inr (r, f) ↦ elim (Result-cases (rows_at ts loaded)) [
    | inl (e, g) ↦ absurd (ground arith)
    | inr (rest, g) ↦
        let q : r ∷ rest ≡ found = ok-injective {E = Error} (ground arith) in
        let n : row_at (text_of r.identifier) loaded ≡ some r =
          subst (λ i. row_at i loaded ≡ some r) (sym (row_at-identifier t loaded r f)) f in
        subst (All (λ r. row_at (text_of r.identifier) loaded ≡ some r)) {x = r ∷ rest} q
          (n, rows_at-All ts loaded rest g)
  ]
]

row_at-All :
    (Good : Row → Type 0) (identifier : String) (rows : List Row) (r : Row)
    → All Good rows
    → row_at identifier rows ≡ some r
    → Good r
unfolding row_at
row_at-All Good identifier [] r good h = absurd (ground arith)
row_at-All Good identifier (s ∷ ss) r good h = elim (Option-cases (row_at identifier ss)) [
  | inl none_later ↦ elim (Bool-cases (str_eq (text_of s.identifier) identifier)) [
    | inl b ↦ let e : s ≡ r = ground arith in subst Good e good.0
    | inr b ↦ absurd (ground arith)
  ]
  | inr (later, f) ↦
      let e : later ≡ r = ground arith in row_at-All Good identifier ss r good.1 (f ∙ ap some e)
]

All-found :
    (Good : Row → Type 0) (loaded rows : List Row)
    → All Good loaded
    → All (λ r. row_at (text_of r.identifier) loaded ≡ some r) rows
    → All Good rows
All-found Good loaded [] good found = tt
All-found Good loaded (r ∷ rs) good found = (
  row_at-All Good (text_of r.identifier) loaded r good found.0,
  All-found Good loaded rs good found.1,
)

module _ (row_hash record_name : String → String) where
  validate_files-All :
      (files : Files) (rows : List Row)
      → validate_files row_hash record_name files ≡ ok rows
      → All (λ r. validate_row row_hash record_name (some r) ≡ ok r) rows
  unfolding validate_files
  validate_files-All [] rows h =
      subst (All (λ r. validate_row row_hash record_name (some r) ≡ ok r)) {x = []}
        (ok-injective {E = Error} h) tt
  validate_files-All (f ∷ fs) rows h =
      elim (Result-cases (validate_file row_hash record_name f.0 f.1)) [
        | inl (e, g) ↦ absurd (ground arith)
        | inr (r, g) ↦ elim (Result-cases (validate_files row_hash record_name fs)) [
          | inl (e, k) ↦ absurd (ground arith)
          | inr (rest, k) ↦
              let q : r ∷ rest ≡ rows = ok-injective {E = Error} (ground arith) in
              subst (All (λ r. validate_row row_hash record_name (some r) ≡ ok r)) {x = r ∷ rest} q
                (
                  (validate_file-some row_hash record_name f.0 f.1 r g).1,
                  validate_files-All fs rest k,
                )
        ]
      ]

module _ (row_hash record_name : String → String) (ids_hash : List String → String)
    (hashes_hash : List (Option String) → String) (rows_digest : List Row → String)
    (plan_hash : String) where
  validate_rows-All :
      (rows : List Row)
      → All (λ r. validate_row row_hash record_name (some r) ≡ ok r) rows
      → validate_rows row_hash record_name ids_hash hashes_hash rows_digest plan_hash rows ≡ ok rows
  unfolding validate_rows
  validate_rows-All [] good = refl
  validate_rows-All (r ∷ rs) good = rw good.0 (rw (validate_rows-All rs good.1) refl)

  any_differs-All :
      (loaded rows : List Row)
      → All (λ r. row_at (text_of r.identifier) loaded ≡ some r) rows
      → any_differs row_hash record_name ids_hash hashes_hash rows_digest plan_hash loaded rows
        ≡ false
  unfolding any_differs
  any_differs-All loaded [] found = refl
  any_differs-All loaded (r ∷ rs) found =
      rw found.0 (rw (row_eq_refl row_hash record_name r) (any_differs-All loaded rs found.1))

  -- The merged rows load, with the manifest that was made of them.
  load_merged-manifest_of :
      (files : Files) (expected : List String) (loaded rows : List Row)
      → load_records row_hash record_name files ≡ ok loaded
      → validate_files row_hash record_name files ≡ ok loaded
      → rows_at expected loaded ≡ ok rows
      → map (λ r. text_of r.identifier) rows ≡ expected
      → load_merged row_hash record_name ids_hash hashes_hash rows_digest plan_hash files
          (manifest_of row_hash record_name ids_hash hashes_hash rows_digest plan_hash expected
            rows)
          rows
          expected
        ≡ ok rows
  unfolding load_merged manifest_of
  load_merged-manifest_of files expected loaded rows l v a ids =
      let found = rows_at-All expected loaded rows a in
      let good =
        All-found (λ r. validate_row row_hash record_name (some r) ≡ ok r) loaded rows
          (validate_files-All row_hash record_name files loaded v) found in
      let checked : validate_rows row_hash record_name ids_hash hashes_hash rows_digest plan_hash
            rows
          ≡ ok rows =
        validate_rows-All rows good in
      let same : any_differs row_hash record_name ids_hash hashes_hash rows_digest plan_hash loaded
            rows
          ≡ false =
        any_differs-All loaded rows found in
      let texts : texts_eq (map (λ r. text_of r.identifier) rows) expected ≡ true =
        rw ids (texts_eq_refl expected) in
      let d = rows_digest rows in
      let hs = hashes_hash (map (λ r. r.record_hash) rows) in
      ground (arith, checked, same, texts, l, eq_iff d d, eq_iff hs hs)

  load_records-validate_files :
      (files : Files) (rows : List Row)
      → load_records row_hash record_name files ≡ ok rows
      → validate_files row_hash record_name files ≡ ok rows
  unfolding load_records
  load_records-validate_files files rows h = ground arith

  final_rows-found :
      (files : Files) (expected : List String) (rows : List Row)
      → final_rows row_hash record_name files expected ≡ ok rows
      → (loaded : List Row) × (load_records row_hash record_name files ≡ ok loaded)
        × (rows_at expected loaded ≡ ok rows)
  unfolding final_rows
  final_rows-found files expected rows h =
      elim (Result-cases (load_records row_hash record_name files)) [
        | inl (e, f) ↦ absurd (ground arith)
        | inr (loaded, f) ↦ (loaded, f, ground arith)
      ]

  -- What a returned `finalize` leaves.
  finalize-final_rows :
      (files : Files) (done : Finished) (expected : List String) (r : List Row × Finished)
      → finalize row_hash record_name ids_hash hashes_hash rows_digest plan_hash files done expected
        ≡ ok r
      → (final_rows row_hash record_name files expected ≡ ok r.0)
        × (record {
          merged = some r.0;
          manifest = some (
              manifest_of row_hash record_name ids_hash hashes_hash rows_digest plan_hash expected
                r.0);
        }
            ≡ r.1)
  unfolding finalize
  finalize-final_rows files done expected r h =
      elim (Result-cases (final_rows row_hash record_name files expected)) [
        | inl (e, f) ↦ absurd (ground arith)
        | inr (rows, f) ↦
            let left : Finished = record {
              merged = some rows;
              manifest = some (
                  manifest_of row_hash record_name ids_hash hashes_hash rows_digest plan_hash
                    expected rows);
            } in
            let q : ◌≡◌ {A = List Row × Finished} (rows, left) r =
              ok-injective {E = Error} (ground arith) in
            (
              f ∙ ap (λ p. ok p.0) q,
              subst
                  (λ p.
                    record {
                      merged = some p.0;
                      manifest = some (
                          manifest_of row_hash record_name ids_hash hashes_hash rows_digest
                            plan_hash expected p.0);
                    }
                    ≡ p.1)
                  {x = (rows, left)} q refl,
            )
      ]

  -- A checkpoint that `finalize` finished is loaded with the same rows.
  pub load_final-finalize :
      (files : Files) (done : Finished) (expected : List String) (r : List Row × Finished)
      → finalize row_hash record_name ids_hash hashes_hash rows_digest plan_hash files done expected
        ≡ ok r
      → load_final row_hash record_name ids_hash hashes_hash rows_digest plan_hash files r.1
          expected
        ≡ ok r.0
  unfolding load_final manifest_of
  load_final-finalize files done expected r h =
      let f = finalize-final_rows files done expected r h in
      let (loaded, l, a) = final_rows-found files expected r.0 f.0 in
      let m =
        load_merged-manifest_of files expected loaded r.0 l
          (load_records-validate_files files loaded l) a
          (final_rows-identifiers row_hash record_name files expected r.0 f.0) in
      let i = ids_hash expected in
      subst
        (λ d.
          load_final row_hash record_name ids_hash hashes_hash rows_digest plan_hash files d
            expected
          ≡ ok r.0)
        f.1 (rw ((eq_iff plan_hash plan_hash).1 refl) (rw ((eq_iff i i).1 refl) m))
