-- ===== src/PaidResponses/Effects.antt =====
-- What a call of the store of paid_response_store.py may leave.
use model_forensics_value_le.Prelude.{
  ◌≡◌, ap, String, Bool, true, false, Option, none, some, ◌∷◌, inl, inr, arith, Option-cases,
}
use model_forensics_value_le.Prelude.Outcome.{ok, Result-cases, ok-injective}
use model_forensics_value_le.PaidResponses.Records.{StoreError, Paid, Marker, Digests, File, object}
use model_forensics_value_le.PaidResponses.Files.{
  find_file, unlink, Store, World, Disk, untouched, unsynced, written, after_write, Response,
  Attempt, checked_resolution,
}
use model_forensics_value_le.PaidResponses.Store.{
  read_checkpoint, read_marker, checked_response, commit_checkpoint, commit, checked_attempt,
  place_marker, mark_uncertain_attempt, check_resolution, clear_marker, resolve_uncertain_attempt,
}

-- A write that returned.
pub after_write-ok :
    {A : Type 0} (d : Disk) (anchored : Bool) (a b : A) (s t s' : Store)
    → after_write d anchored a s t ≡ (ok b, s')
    → (a ≡ b) × (t ≡ s')
unfolding after_write
after_write-ok untouched anchored a b s t s' h = absurd (ground arith)
after_write-ok unsynced anchored a b s t s' h = absurd (ground arith)
after_write-ok written false a b s t s' h = absurd (ground arith)
after_write-ok written true a b s t s' h =
    (ok-injective {E = StoreError} (ap (λ x. x.0) h), ap (λ x. x.1) h)

module _ (digests : Digests) where
  -- A marker and a checkpoint of one key that validate for one fingerprint.
  pub record IsPaidFor (key : String) (marker : File Marker) (checkpoint : Option (File Paid))
      : Type 0 where
    pub fingerprint : String
    pub m : Marker
    pub p : Paid
    pub file : File Paid
    pub marked : read_marker digests key fingerprint marker ≡ ok m
    pub stored : checkpoint ≡ some file
    pub paid : read_checkpoint digests key fingerprint file ≡ ok p

  -- A new checkpoint, a new marker, or a marker removed that is paid for.
  pub data Change : Store → Store → Type 0 where
    same : {s : Store} → Change s s
    stored :
        {s : Store} (key : String) (p : Paid)
        → find_file key s.checkpoints ≡ none
        → Change s (record s { checkpoints = (key, object p) ∷ s.checkpoints })
    placed :
        {s : Store} (key : String) (m : Marker)
        → find_file key s.markers ≡ none
        → Change s (record s { markers = (key, object m) ∷ s.markers })
    cleared :
        {s : Store} (key : String) (f : File Marker)
        → find_file key s.markers ≡ some f
        → IsPaidFor key f (find_file key s.checkpoints)
        → Change s (record s { markers = unlink key s.markers })

  after_write-Change :
      {A : Type 0} (d : Disk) (anchored : Bool) (a : A) (s t : Store)
      → Change s t
      → Change s (after_write d anchored a s t).1
  unfolding after_write
  after_write-Change untouched anchored a s t c = same
  after_write-Change unsynced anchored a s t c = c
  after_write-Change written anchored a s t c = c

  commit_checkpoint-Change :
      (w : World) (key fingerprint : String) (p : Paid) (s : Store)
      → Change s (commit_checkpoint digests w key fingerprint p s).1
  unfolding commit_checkpoint
  commit_checkpoint-Change w key fingerprint p s =
      elim (Option-cases (find_file key s.checkpoints)) [
        | inl free ↦
            rw (commit_checkpoint, free)
              (after_write-Change w.disk w.anchored_after p s
                (record s { checkpoints = (key, object p) ∷ s.checkpoints }) (stored key p free))
        | inr (f, found) ↦ rw (commit_checkpoint, found) same
      ]

  pub commit-Change : (w : World) (q : Response) (s : Store) → Change s (commit digests w q s).1
  unfolding commit
  commit-Change w q s = elim (Result-cases (checked_response digests w q)) [
    | inl (e, raised) ↦ rw (commit, raised) same
    | inr (p, checked) ↦ rw (commit, checked) (commit_checkpoint-Change w q.key q.fingerprint p s)
  ]

  place_marker-Change :
      (w : World) (key fingerprint : String) (m : Marker) (s : Store)
      → Change s (place_marker digests w key fingerprint m s).1
  unfolding place_marker
  place_marker-Change w key fingerprint m s = elim (Option-cases (find_file key s.markers)) [
    | inl free ↦
        rw (place_marker, free)
          (after_write-Change w.disk w.anchored_after m s
            (record s { markers = (key, object m) ∷ s.markers }) (placed key m free))
    | inr (f, found) ↦ rw (place_marker, found) same
  ]

  pub mark_uncertain_attempt-Change :
      (w : World) (q : Attempt) (s : Store) → Change s (mark_uncertain_attempt digests w q s).1
  unfolding mark_uncertain_attempt
  mark_uncertain_attempt-Change w q s = elim (Result-cases (checked_attempt digests w q)) [
    | inl (e, raised) ↦ rw (mark_uncertain_attempt, raised) same
    | inr (m, checked) ↦
        rw (mark_uncertain_attempt, checked) (place_marker-Change w q.key q.fingerprint m s)
  ]

  check_resolution-IsPaidFor :
      (key fingerprint expected : String) (f : File Marker) (checkpoint : Option (File Paid))
      → check_resolution digests key fingerprint expected f checkpoint ≡ ok tt
      → IsPaidFor key f checkpoint
  unfolding check_resolution
  check_resolution-IsPaidFor key fingerprint expected f checkpoint h =
      elim (Result-cases (read_marker digests key fingerprint f)) [
        | inl (e, bad) ↦ absurd (ground arith)
        | inr (m, marked) ↦ elim (Option-cases checkpoint) [
          | inl absent ↦ absurd (ground arith)
          | inr (c, there) ↦ elim (Result-cases (read_checkpoint digests key fingerprint c)) [
            | inl (e, bad) ↦ absurd (ground arith)
            | inr (p, paid) ↦ record {
              fingerprint = fingerprint;
              m = m;
              p = p;
              file = c;
              marked = marked;
              stored = there;
              paid = paid;
            }
          ]
        ]
      ]

  clear_marker-Change :
      (w : World) (key fingerprint expected : String) (s : Store)
      → Change s (clear_marker digests w key fingerprint expected s).1
  unfolding clear_marker
  clear_marker-Change w key fingerprint expected s = elim (Option-cases (find_file key s.markers)) [
    | inl free ↦ rw (clear_marker, free) same
    | inr (f, found) ↦
        elim (Result-cases
          (check_resolution digests key fingerprint expected f (find_file key s.checkpoints))) [
            | inl (e, raised) ↦ rw (clear_marker, found, raised) same
            | inr (_, checked) ↦
                rw (clear_marker, found, checked)
                  (after_write-Change w.disk w.anchored_after tt s
                    (record s { markers = unlink key s.markers })
                    (cleared key f found (
                      check_resolution-IsPaidFor key fingerprint expected f
                        (find_file key s.checkpoints) checked)))
          ]
  ]

  pub resolve_uncertain_attempt-Change :
      (w : World) (key fingerprint expected : String) (s : Store)
      → Change s (resolve_uncertain_attempt digests w key fingerprint expected s).1
  unfolding resolve_uncertain_attempt
  resolve_uncertain_attempt-Change w key fingerprint expected s =
      elim (Result-cases (checked_resolution w key expected)) [
        | inl (e, raised) ↦ rw (resolve_uncertain_attempt, raised) same
        | inr (_, checked) ↦
            rw (resolve_uncertain_attempt, checked)
              (clear_marker-Change w key fingerprint expected s)
      ]
