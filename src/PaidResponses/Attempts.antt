-- ===== src/PaidResponses/Attempts.antt =====
-- A paid attempt of paid_response_store.py from its marker to its resolution.
use model_forensics_value_le.Prelude.{
  ◌≡◌, refl, sym, ap, ◌∙◌, subst, String, Bool, true, none, some, ◌∷◌, inl, inr, arith,
  Option-cases, eq_iff,
}
use model_forensics_value_le.Prelude.Outcome.{ok, Result-cases, ok-injective}
use model_forensics_value_le.Prelude.Text.{codes}
use model_forensics_value_le.Prelude.Digest.{hash_matches}
use model_forensics_value_le.PaidResponses.Records.{
  StoreError, Paid, Marker, Digests, File, object, read_object, is_text, validate_uncertain_record,
}
use model_forensics_value_le.PaidResponses.Files.{
  find_file, unlink, Store, World, Disk, written, after_write, open_store, Response, Attempt,
  checked_resolution,
}
use model_forensics_value_le.PaidResponses.Store.{
  read_checkpoint, read_marker, marker_fields, sealed_marker, checked_response, checked_attempt,
  same_marker, place_marker, mark_uncertain_attempt, commit_checkpoint, commit, check_resolution,
  clear_marker, resolve_uncertain_attempt,
}
use model_forensics_value_le.PaidResponses.Effects.{after_write-ok}
use model_forensics_value_le.PaidResponses.History.{find_file-unlink_self}
use model_forensics_value_le.PaidResponses.Replay.{
  read_object-eq, found_first, is_text_refl, commit-IsStored,
}

module _ (digests : Digests) where
  validate_uncertain_record-eq :
      (key fingerprint : String) (m n : Marker)
      → validate_uncertain_record digests key fingerprint m ≡ ok n
      → (m ≡ n) × (is_text m.record_hash (digests.marker m.fields) ≡ true)
  unfolding validate_uncertain_record
  validate_uncertain_record-eq key fingerprint m n h =
      (ok-injective {E = StoreError} (ground arith), ground arith)

  read_marker-eq :
      (key fingerprint : String) (f : File Marker) (n : Marker)
      → read_marker digests key fingerprint f ≡ ok n
      → (f ≡ object n) × (is_text n.record_hash (digests.marker n.fields) ≡ true)
  unfolding read_marker
  read_marker-eq key fingerprint f n h = elim (Result-cases (read_object f)) [
    | inl (e, bad) ↦ absurd (ground arith)
    | inr (m, good) ↦
        let valid : validate_uncertain_record digests key fingerprint m ≡ ok n = ground arith in
        let (e, sealed) = validate_uncertain_record-eq key fingerprint m n valid in
        (
          read_object-eq f m good ∙ ap object e,
          subst (λ (n : Marker). is_text n.record_hash (digests.marker n.fields) ≡ true) e sealed,
        )
  ]

  read_marker-sealed :
      (q : Attempt)
      → let m = sealed_marker digests (marker_fields digests q) in
        read_marker digests q.key q.fingerprint (object m) ≡ ok m
  unfolding read_marker read_object validate_uncertain_record marker_fields
  read_marker-sealed q = rw (
    is_text_refl q.key,
    is_text_refl q.fingerprint,
    is_text_refl (digests.marker (marker_fields digests q)),
  )

  -- The marker of an attempt is there, and is valid for its key and fingerprint.
  pub record IsMarked (q : Attempt) (m : Marker) (s : Store) : Type 0 where
    pub named : hash_matches (codes q.key) ≡ true
    pub there : find_file q.key s.markers ≡ some (object m)
    pub valid : read_marker digests q.key q.fingerprint (object m) ≡ ok m

  checked_attempt-eq :
      (w : World) (q : Attempt) (m : Marker)
      → checked_attempt digests w q ≡ ok m
      → (hash_matches (codes q.key) ≡ true)
        × (read_marker digests q.key q.fingerprint (object m) ≡ ok m)
  unfolding checked_attempt open_store
  checked_attempt-eq w q m h =
      let e : sealed_marker digests (marker_fields digests q) ≡ m =
        ok-injective {E = StoreError} (ground arith) in
      (
        ground arith,
        subst (λ m. read_marker digests q.key q.fingerprint (object m) ≡ ok m) e
            (read_marker-sealed q),
      )

  same_marker-eq :
      (key fingerprint : String) (m n : Marker) (f : File Marker)
      → same_marker digests key fingerprint m f ≡ ok n
      → (f ≡ object n) × (read_marker digests key fingerprint (object n) ≡ ok n)
  unfolding same_marker
  same_marker-eq key fingerprint m n f h =
      elim (Result-cases (read_marker digests key fingerprint f)) [
        | inl (e, bad) ↦ absurd (ground arith)
        | inr (o, good) ↦
            let e : o ≡ n = ok-injective {E = StoreError} (ground arith) in
            let read : read_marker digests key fingerprint f ≡ ok n = good ∙ ap (λ o. ok o) e in
            let same = (read_marker-eq key fingerprint f n read).0 in
            (same, subst (λ f. read_marker digests key fingerprint f ≡ ok n) same read)
      ]

  place_marker-IsMarked :
      (w : World) (q : Attempt) (m n : Marker) (s s' : Store)
      → hash_matches (codes q.key) ≡ true
      → read_marker digests q.key q.fingerprint (object m) ≡ ok m
      → place_marker digests w q.key q.fingerprint m s ≡ (ok n, s')
      → IsMarked q n s'
  unfolding place_marker
  place_marker-IsMarked w q m n s s' named valid h =
      elim (Option-cases (find_file q.key s.markers)) [
        | inl free ↦
            let t = record s { markers = (q.key, object m) ∷ s.markers } in
            let end : after_write w.disk w.anchored_after m s t ≡ (ok n, s') = ground arith in
            let (e, new) = after_write-ok w.disk w.anchored_after m n s t s' end in
            record {
              named = named;
              there =
                  subst (λ (s : Store). find_file q.key s.markers ≡ some (object n)) new
                    (found_first q.key (object m) s.markers ∙ ap (λ m. some (object m)) e);
              valid =
                  subst (λ m. read_marker digests q.key q.fingerprint (object m) ≡ ok m) e valid;
            }
        | inr (f, found) ↦
            let same : same_marker digests q.key q.fingerprint m f ≡ ok n = ground arith in
            let kept : s ≡ s' = ground arith in
            let (e, v) = same_marker-eq q.key q.fingerprint m n f same in
            record {
              named = named;
              there =
                  subst (λ (s : Store). find_file q.key s.markers ≡ some (object n)) kept
                    (found ∙ ap (λ f. some f) e);
              valid = v;
            }
      ]

  mark-IsMarked :
      (w : World) (q : Attempt) (m : Marker) (s s' : Store)
      → mark_uncertain_attempt digests w q s ≡ (ok m, s')
      → IsMarked q m s'
  unfolding mark_uncertain_attempt
  mark-IsMarked w q m s s' h = elim (Result-cases (checked_attempt digests w q)) [
    | inl (e, bad) ↦ absurd (ground arith)
    | inr (n, checked) ↦
        let (named, valid) = checked_attempt-eq w q n checked in
        let call : place_marker digests w q.key q.fingerprint n s ≡ (ok m, s') = ground arith in
        place_marker-IsMarked w q n m s s' named valid call
  ]

  after_write-markers :
      {A : Type 0} (d : Disk) (anchored : Bool) (a : A) (s t : Store)
      → t.markers ≡ s.markers
      → (after_write d anchored a s t).1.markers ≡ s.markers
  unfolding after_write
  after_write-markers d anchored a s t h = ground arith

  commit_checkpoint-markers :
      (w : World) (key fingerprint : String) (p : Paid) (s : Store)
      → (commit_checkpoint digests w key fingerprint p s).1.markers ≡ s.markers
  unfolding commit_checkpoint
  commit_checkpoint-markers w key fingerprint p s =
      elim (Option-cases (find_file key s.checkpoints)) [
        | inl free ↦
            rw (commit_checkpoint, free)
              (after_write-markers w.disk w.anchored_after p s
                (record s { checkpoints = (key, object p) ∷ s.checkpoints }) refl)
        | inr (f, found) ↦ rw (commit_checkpoint, found)
      ]

  commit-markers :
      (w : World) (q : Response) (s : Store) → (commit digests w q s).1.markers ≡ s.markers
  unfolding commit
  commit-markers w q s = elim (Result-cases (checked_response digests w q)) [
    | inl (e, raised) ↦ rw (commit, raised)
    | inr (p, checked) ↦ rw (commit, checked) (commit_checkpoint-markers w q.key q.fingerprint p s)
  ]

  check_resolution_of :
      (q : Attempt) (m : Marker) (r : Paid) (expected : String) (s : Store)
      → IsMarked q m s
      → m.record_hash ≡ some expected
      → find_file q.key s.checkpoints ≡ some (object r)
      → read_checkpoint digests q.key q.fingerprint (object r) ≡ ok r
      → check_resolution digests q.key q.fingerprint expected
          (object m)
          (find_file q.key s.checkpoints)
        ≡ ok tt
  unfolding check_resolution
  check_resolution_of q m r expected s i sealed there paid =
      rw (i.valid, sealed, is_text_refl expected, there, paid)

  expected_hex :
      (q : Attempt) (m : Marker) (expected : String) (s : Store)
      → IsMarked q m s
      → m.record_hash ≡ some expected
      → hash_matches (codes expected) ≡ true
  unfolding is_text
  expected_hex q m expected s i sealed =
      let (_, own) = read_marker-eq q.key q.fingerprint (object m) m i.valid in
      let named : is_text (some expected) (digests.marker m.fields) ≡ true =
        subst (λ h. is_text h (digests.marker m.fields) ≡ true) sealed own in
      let e : expected ≡ digests.marker m.fields =
        ground (arith, eq_iff expected (digests.marker m.fields)) in
      rw e (digests.marker_hex m.fields)

  -- The life of a paid attempt. Its marker was placed, the response was then committed under the
  -- same key and fingerprint, and both calls returned. Where the directory is anchored and its
  -- writes end well, the attempt then resolves under the hash of its marker: the call returns, the
  -- marker is gone and the response is still stored.
  pub resolve_uncertain_attempt-returns :
      (w w' w'' : World) (q : Attempt) (c : Response) (m : Marker) (r : Paid) (expected : String)
      (s s' s'' : Store)
      → mark_uncertain_attempt digests w q s ≡ (ok m, s')
      → commit digests w' c s' ≡ (ok r, s'')
      → c.key ≡ q.key
      → c.fingerprint ≡ q.fingerprint
      → m.record_hash ≡ some expected
      → w''.anchored_before ≡ true
      → w''.anchored_after ≡ true
      → w''.disk ≡ written
      → (t : Store) × (resolve_uncertain_attempt digests w'' q.key q.fingerprint expected s''
          ≡ (ok tt, t))
        × (find_file q.key t.markers ≡ none)
        × (find_file q.key t.checkpoints ≡ some (object r))
  unfolding resolve_uncertain_attempt clear_marker checked_resolution open_store after_write
  resolve_uncertain_attempt-returns w w' w'' q c m r expected s s' s'' marked committed same_key
        same_print sealed before after disk =
      let i = mark-IsMarked w q m s s' marked in
      let p = commit-IsStored digests w' c r s' s'' committed in
      let kept : s''.markers ≡ s'.markers =
        sym (ap (λ x. x.1.markers) committed) ∙ commit-markers w' c s' in
      let i' : IsMarked q m s'' = record {
        named = i.named;
        there = ap (find_file q.key) kept ∙ i.there;
        valid = i.valid;
      } in
      let there : find_file q.key s''.checkpoints ≡ some (object r) =
        ap (λ k. find_file k s''.checkpoints) (sym same_key) ∙ p.there in
      let paid : read_checkpoint digests q.key q.fingerprint (object r) ≡ ok r =
        rw (sym same_key, sym same_print) p.valid in
      let checked = check_resolution_of q m r expected s'' i' sealed there paid in
      let hex = expected_hex q m expected s'' i' sealed in
      (
        record s'' { markers = unlink q.key s''.markers },
        rw (
          resolve_uncertain_attempt, hex, before, i.named, clear_marker, i'.there, checked, disk,
          after,
        ),
        find_file-unlink_self q.key s''.markers,
        there,
      )
