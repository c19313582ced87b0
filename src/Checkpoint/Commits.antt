-- ===== src/Checkpoint/Commits.antt =====
-- Sequences of `commit` of record_checkpoint.py.
use model_forensics_value_le.Prelude.{
  ◌≡◌, refl, sym, ap, ◌∙◌, subst, String, true, false, Option, none, some, List, [], ◌∷◌,
  if◌then◌else◌, str_eq, eq_iff, inl, inr, arith, Bool-cases, Option-cases,
}
use model_forensics_value_le.Prelude.Outcome.{Result, ok, err, ◌>>=◌, ok-injective, Result-cases}
use model_forensics_value_le.Checkpoint.Store.{
  Error, different_content, Row, Files, text_of, row_eq, find_file, insert_file, validate_row,
  validate_file, commit_row, commit,
}

find_file-insert_file :
    (name : String) (value : Option Row) (files : Files)
    → find_file name files ≡ none
    → find_file name (insert_file name value files) ≡ some value
unfolding find_file insert_file
find_file-insert_file name value [] h = ground (arith, eq_iff name name)
find_file-insert_file name value (f ∷ fs) h = elim (Bool-cases (str_eq f.0 name)) [
  | inl e ↦ absurd (ground arith)
  | inr e ↦ ground (arith, eq_iff name name, find_file-insert_file name value fs)
]

find_file-insert_other :
    (other name : String) (value found : Option Row) (files : Files)
    → find_file other files ≡ some found
    → find_file name files ≡ none
    → find_file other (insert_file name value files) ≡ some found
unfolding find_file insert_file
find_file-insert_other other name value found [] h k = absurd (ground arith)
find_file-insert_other other name value found (f ∷ fs) h k = ground (
  arith,
  eq_iff f.0 name,
  eq_iff f.0 other,
  eq_iff name other,
  find_file-insert_other other name value found fs,
)

-- The files after commits, some of which may raise.
unfoldable pub files_after : Files → Result Error (Row × Files) → Files
files_after files (err e) = files
files_after files (ok r) = r.1

module _ (row_hash : String → String) (record_name : String → String) where
  unfoldable pub run_commits : Files → List (Option Row) → Files
  run_commits files [] = files
  run_commits files (s ∷ ss) =
      run_commits (files_after files (commit row_hash record_name files s)) ss

  -- What a returned commit leaves: its row under the name of its identifier, and the other files.
  pub record IsCommitted (files : Files) (r : Row × Files) : Type 0 where
    pub valid : validate_row row_hash record_name (some r.0) ≡ ok r.0
    pub stored : find_file (record_name (text_of r.0.identifier)) r.1 ≡ some (some r.0)
    pub kept :
        (name : String) (value : Option Row)
        → find_file name files ≡ some value
        → find_file name r.1 ≡ some value

  validate_row-some :
      (source : Option Row) (row : Row)
      → validate_row row_hash record_name source ≡ ok row
      → (source ≡ some row) × (validate_row row_hash record_name (some row) ≡ ok row)
  unfolding validate_row
  validate_row-some none row h = absurd (ground arith)
  validate_row-some (some s) row h =
      let e : s ≡ row = ok-injective {E = Error} (ground arith) in
      (ap some e, subst (λ t. validate_row row_hash record_name (some t) ≡ ok row) e h)

  pub validate_file-some :
      (name : String) (value : Option Row) (row : Row)
      → validate_file row_hash record_name name value ≡ ok row
      → (value ≡ some row)
        × (validate_row row_hash record_name (some row) ≡ ok row)
        × (name ≡ record_name (text_of row.identifier))
  unfolding validate_file
  validate_file-some name value row h =
      elim (Result-cases (validate_row row_hash record_name value)) [
        | inl (e, f) ↦ absurd (ground arith)
        | inr (s, f) ↦
            let e : s ≡ row = ok-injective {E = Error} (ground arith) in
            let v = validate_row-some value s f in
            let n : name ≡ record_name (text_of s.identifier) =
              ground (arith, eq_iff name (record_name (text_of s.identifier))) in
            subst
              (λ t.
                (value ≡ some t)
                × (validate_row row_hash record_name (some t) ≡ ok t)
                × (name ≡ record_name (text_of t.identifier)))
              e (v.0, v.1, n)
      ]

  commit_row-IsCommitted :
      (files : Files) (row : Row) (r : Row × Files)
      → validate_row row_hash record_name (some row) ≡ ok row
      → commit_row row_hash record_name files row ≡ ok r
      → IsCommitted files r
  unfolding commit_row
  commit_row-IsCommitted files row r v h =
      let name = record_name (text_of row.identifier) in
      elim (Option-cases (find_file name files)) [
        | inl f ↦
            let q : (row, insert_file name (some row) files) ≡ r =
              ok-injective {E = Error} (ground arith) in
            subst (IsCommitted files) {x = (row, insert_file name (some row) files)} q record {
              valid = v;
              stored = find_file-insert_file name (some row) files f;
              kept = λ other value k. find_file-insert_other other name (some row) value files k f;
            }
        | inr (value, f) ↦ elim (Result-cases (validate_file row_hash record_name name value)) [
          | inl (e, g) ↦ absurd (ground arith)
          | inr (observed, g) ↦
              let q : (observed, files) ≡ r = ok-injective {E = Error} (ground arith) in
              let w = validate_file-some name value observed g in
              subst (IsCommitted files) {x = (observed, files)} q record {
                valid = w.1;
                stored =
                    subst (λ n. find_file n files ≡ some (some observed)) w.2 (f ∙ ap some w.0);
                kept = λ other value k. k;
              }
        ]
      ]

  pub commit-IsCommitted :
      (files : Files) (source : Option Row) (r : Row × Files)
      → commit row_hash record_name files source ≡ ok r
      → IsCommitted files r
  unfolding commit
  commit-IsCommitted files source r h =
      elim (Result-cases (validate_row row_hash record_name source)) [
        | inl (e, f) ↦ absurd (ground arith)
        | inr (row, f) ↦
            commit_row-IsCommitted files row r (validate_row-some source row f).1 (ground arith)
      ]

  files_after-keeps :
      (files : Files) (source : Option Row) (name : String) (value : Option Row)
      → find_file name files ≡ some value
      → find_file name (files_after files (commit row_hash record_name files source)) ≡ some value
  unfolding files_after
  files_after-keeps files source name value h =
      elim (Result-cases (commit row_hash record_name files source)) [
        | inl (e, f) ↦ rw f h
        | inr (r, f) ↦ rw f ((commit-IsCommitted files source r f).kept name value h)
      ]

  -- A record file stays as it is, whatever is committed.
  run_commits-keeps :
      (files : Files) (sources : List (Option Row)) (name : String) (value : Option Row)
      → find_file name files ≡ some value
      → find_file name (run_commits files sources) ≡ some value
  unfolding run_commits
  run_commits-keeps files [] name value h = h
  run_commits-keeps files (s ∷ ss) name value h =
      run_commits-keeps (files_after files (commit row_hash record_name files s)) ss name value
        (files_after-keeps files s name value h)

  -- A valid row is read back from the file under its name.
  validate_file-returns :
      (row : Row)
      → validate_row row_hash record_name (some row) ≡ ok row
      → validate_file row_hash record_name (record_name (text_of row.identifier)) (some row)
        ≡ ok row
  unfolding validate_file
  validate_file-returns row v =
      let name = record_name (text_of row.identifier) in ground (arith, eq_iff name name)

  pub row_eq_refl : (row : Row) → row_eq row row ≡ true
  unfolding row_eq
  row_eq_refl row = elim (Option-cases row.identifier) [
    | inl f ↦ elim (Option-cases row.record_hash) [
      | inl g ↦ ground (arith, eq_iff row.fields row.fields)
      | inr (t, g) ↦ ground (arith, eq_iff row.fields row.fields, eq_iff t t)
    ]
    | inr (i, f) ↦ elim (Option-cases row.record_hash) [
      | inl g ↦ ground (arith, eq_iff row.fields row.fields, eq_iff i i)
      | inr (t, g) ↦ ground (arith, eq_iff row.fields row.fields, eq_iff i i, eq_iff t t)
    ]
  ]

  -- What a commit meets when a row is stored under the identifier.
  commit_row-stored :
      (files : Files) (stored row : Row)
      → find_file (record_name (text_of row.identifier)) files ≡ some (some stored)
      → validate_file row_hash record_name (record_name (text_of row.identifier)) (some stored)
        ≡ ok stored
      → commit_row row_hash record_name files row
        ≡ (if row_eq stored row then ok (stored, files) else err different_content)
  unfolding commit_row
  commit_row-stored files stored row f g = elim (Bool-cases (row_eq stored row)) [
    | inl b ↦ ground arith
    | inr b ↦ ground arith
  ]

  commit-stored :
      (files : Files) (stored row : Row)
      → validate_row row_hash record_name (some stored) ≡ ok stored
      → find_file (record_name (text_of stored.identifier)) files ≡ some (some stored)
      → validate_row row_hash record_name (some row) ≡ ok row
      → text_of row.identifier ≡ text_of stored.identifier
      → commit row_hash record_name files (some row)
        ≡ (if row_eq stored row then ok (stored, files) else err different_content)
  unfolding commit
  commit-stored files stored row v f w e =
      ap (λ r. r >>= commit_row row_hash record_name files) w
      ∙ commit_row-stored files stored row
          (subst (λ t. find_file (record_name t) files ≡ some (some stored)) (sym e) f)
          (subst (λ t. validate_file row_hash record_name (record_name t) (some stored) ≡ ok stored)
            (sym e) (validate_file-returns stored v))

  -- A committed row is committed again with no effect, whatever was committed in between.
  pub run_commits-commit :
      (files : Files) (source : Option Row) (r : Row × Files) (later : List (Option Row))
      → commit row_hash record_name files source ≡ ok r
      → commit row_hash record_name (run_commits r.1 later) (some r.0)
        ≡ ok (r.0, run_commits r.1 later)
  run_commits-commit files source r later h =
      let c = commit-IsCommitted files source r h in
      let f =
        run_commits-keeps r.1 later (record_name (text_of r.0.identifier)) (some r.0) c.stored in
      let s = commit-stored (run_commits r.1 later) r.0 r.0 c.valid f c.valid refl in
      s ∙ rw (row_eq_refl r.0) refl

  -- Once a row is committed, a valid row with its identifier and other content is refused, whatever
  -- was committed in between.
  pub run_commits-refused :
      (files : Files) (source : Option Row) (r : Row × Files) (later : List (Option Row))
      (other : Row)
      → commit row_hash record_name files source ≡ ok r
      → validate_row row_hash record_name (some other) ≡ ok other
      → text_of other.identifier ≡ text_of r.0.identifier
      → row_eq r.0 other ≡ false
      → commit row_hash record_name (run_commits r.1 later) (some other) ≡ err different_content
  run_commits-refused files source r later other h v e d =
      let c = commit-IsCommitted files source r h in
      let f =
        run_commits-keeps r.1 later (record_name (text_of r.0.identifier)) (some r.0) c.stored in
      let s = commit-stored (run_commits r.1 later) r.0 other c.valid f v e in s ∙ rw d refl
