-- ===== src/PaidResponses/History.antt =====
-- Sequences of calls of the store of paid_response_store.py, and what none of them changes.
use model_forensics_value_le.Prelude.{
  ◌≡◌, ◌⊎◌, refl, sym, ap, ◌∙◌, subst, String, false, Option, none, some, List, [], ◌∷◌, inl, inr,
  arith, Bool-cases, eq_iff, str_eq,
}
use model_forensics_value_le.PaidResponses.Records.{Paid, Marker, Digests, File, object}
use model_forensics_value_le.PaidResponses.Files.{
  Files, find_file, unlink, Store, World, Response, Attempt,
}
use model_forensics_value_le.PaidResponses.Store.{
  commit, mark_uncertain_attempt, resolve_uncertain_attempt, load, load_uncertain_attempt,
}
use model_forensics_value_le.PaidResponses.Effects.{
  Change, same, stored, placed, cleared, IsPaidFor, commit-Change, mark_uncertain_attempt-Change,
  resolve_uncertain_attempt-Change,
}

-- A call, with what it meets.
pub data Request : Type 0 where
  load_of : World → String → String → Request
  load_attempt_of : World → String → String → Request
  commit_of : World → Response → Request
  mark_of : World → Attempt → Request
  resolve_of : World → String → String → String → Request

clash : {A : Type 0} {a : A} → ◌≡◌ {A = Option A} none (some a) → ⊥
clash h = cc

find_file-other :
    {A : Type 0} (key other : String) (f g : File A) (fs : Files A)
    → find_file key fs ≡ some f
    → find_file other fs ≡ none
    → find_file key ((other, g) ∷ fs) ≡ some f
unfolding find_file
find_file-other key other f g fs found free = elim (Bool-cases (str_eq other key)) [
  | inl b ↦
      let e : other ≡ key = ground (arith, eq_iff other key) in
      absurd (clash (sym free ∙ ap (λ k. find_file k fs) e ∙ found))
  | inr b ↦ rw b found
]

find_file-unlink :
    {A : Type 0} (key other : String) (fs : Files A)
    → str_eq other key ≡ false
    → find_file key (unlink other fs) ≡ find_file key fs
unfolding find_file unlink
find_file-unlink key other [] h = refl
find_file-unlink key other (f ∷ fs) h =
    ground
      (arith, find_file-unlink key other fs h, eq_iff f.0 key, eq_iff f.0 other, eq_iff other key)

pub find_file-unlink_self :
    {A : Type 0} (key : String) (fs : Files A) → find_file key (unlink key fs) ≡ none
unfolding find_file unlink
find_file-unlink_self key [] = refl
find_file-unlink_self key (f ∷ fs) = ground (arith, find_file-unlink_self key fs)

module _ (digests : Digests) where
  unfoldable pub step : Request → Store → Store
  step (load_of w key fingerprint) s = (load digests w key fingerprint s).1
  step (load_attempt_of w key fingerprint) s =
      (load_uncertain_attempt digests w key fingerprint s).1
  step (commit_of w q) s = (commit digests w q s).1
  step (mark_of w q) s = (mark_uncertain_attempt digests w q s).1
  step (resolve_of w key fingerprint expected) s =
      (resolve_uncertain_attempt digests w key fingerprint expected s).1

  -- The store after a sequence of calls.
  unfoldable pub run : List Request → Store → Store
  run [] s = s
  run (r ∷ rs) s = run rs (step r s)

  step-Change : (r : Request) (s : Store) → Change digests s (step r s)
  unfolding step load load_uncertain_attempt
  step-Change (load_of w key fingerprint) s = same
  step-Change (load_attempt_of w key fingerprint) s = same
  step-Change (commit_of w q) s = commit-Change digests w q s
  step-Change (mark_of w q) s = mark_uncertain_attempt-Change digests w q s
  step-Change (resolve_of w key fingerprint expected) s =
      resolve_uncertain_attempt-Change digests w key fingerprint expected s

  -- What each change keeps, a sequence of calls keeps.
  run-keeps :
      (Good : Store → Type 0)
      → ((s t : Store) → Change digests s t → Good s → Good t)
      → (rs : List Request) (s : Store) → Good s
      → Good (run rs s)
  unfolding run
  run-keeps Good keep [] s good = good
  run-keeps Good keep (r ∷ rs) s good =
      run-keeps Good keep rs (step r s) (keep s (step r s) (step-Change r s) good)

  Change-checkpoint :
      (key : String) (f : File Paid) (s t : Store)
      → Change digests s t
      → find_file key s.checkpoints ≡ some f
      → find_file key t.checkpoints ≡ some f
  Change-checkpoint key f s t same h = h
  Change-checkpoint key f s t (stored other p free) h =
      find_file-other key other f (object p) s.checkpoints h free
  Change-checkpoint key f s t (placed other m free) h = h
  Change-checkpoint key f s t (cleared other g found paid) h = h

  -- A checkpoint is never replaced or removed: once a file is there under a key, it is the same file
  -- after any sequence of calls, whether they return or raise, and whichever of their writes fail.
  pub run-checkpoint :
      (rs : List Request) (s : Store) (key : String) (f : File Paid)
      → find_file key s.checkpoints ≡ some f
      → find_file key (run rs s).checkpoints ≡ some f
  run-checkpoint rs s key f h =
      run-keeps (λ s. find_file key s.checkpoints ≡ some f) (Change-checkpoint key f) rs s h

  -- The marker is there, or it was paid for.
  abbrev pub Guarded : String → File Marker → Store → Type 0
  Guarded key f s =
      (find_file key s.markers ≡ some f) ⊎ IsPaidFor digests key f (find_file key s.checkpoints)

  IsPaidFor-Change :
      (key : String) (f : File Marker) (s t : Store)
      → Change digests s t
      → IsPaidFor digests key f (find_file key s.checkpoints)
      → IsPaidFor digests key f (find_file key t.checkpoints)
  IsPaidFor-Change key f s t c h = record {
    fingerprint = h.fingerprint;
    m = h.m;
    p = h.p;
    file = h.file;
    marked = h.marked;
    stored = Change-checkpoint key h.file s t c h.stored;
    paid = h.paid;
  }

  Change-Guarded :
      (key : String) (f : File Marker) (s t : Store)
      → Change digests s t
      → Guarded key f s
      → Guarded key f t
  Change-Guarded key f s t c (inr paid) = inr (IsPaidFor-Change key f s t c paid)
  Change-Guarded key f s t same (inl h) = inl h
  Change-Guarded key f s t (stored other p free) (inl h) = inl h
  Change-Guarded key f s t (placed other m free) (inl h) =
      inl (find_file-other key other f (object m) s.markers h free)
  Change-Guarded key f s t (cleared other g found paid) (inl h) =
      elim (Bool-cases (str_eq other key)) [
        | inl b ↦
            let e : other ≡ key = ground (arith, eq_iff other key) in
            let same_marker : g ≡ f = cc in
            inr (
              subst (λ g. IsPaidFor digests key g (find_file key s.checkpoints)) same_marker
                (subst (λ k. IsPaidFor digests k g (find_file k s.checkpoints)) e paid))
        | inr b ↦ inl (find_file-unlink key other s.markers b ∙ h)
      ]

  -- A write-ahead marker outlives every sequence of calls until its request is paid for: it is still
  -- there, unchanged, or the store has a checkpoint under its key, and for one fingerprint both the
  -- marker and the checkpoint are valid.
  pub run-Guarded :
      (rs : List Request) (s : Store) (key : String) (f : File Marker)
      → find_file key s.markers ≡ some f
      → Guarded key f (run rs s)
  run-Guarded rs s key f h = run-keeps (Guarded key f) (Change-Guarded key f) rs s (inl h)
