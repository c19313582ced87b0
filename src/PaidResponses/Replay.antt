-- ===== src/PaidResponses/Replay.antt =====
-- The responses that `commit` of paid_response_store.py stores, when they are asked for again.
use model_forensics_value_le.Prelude.{
  ◌≡◌, sym, ap, ◌∙◌, subst, String, true, some, List, ◌∷◌, inl, inr, arith, Option-cases, eq_iff,
}
use model_forensics_value_le.Prelude.Outcome.{ok, Result-cases, ok-injective}
use model_forensics_value_le.Prelude.Text.{codes}
use model_forensics_value_le.Prelude.Digest.{hash_matches}
use model_forensics_value_le.PaidResponses.Records.{
  StoreError, Paid, Digests, File, object, irregular, unreadable, not_object, read_object, is_text,
  validate_record,
}
use model_forensics_value_le.PaidResponses.Files.{
  Files, find_file, Store, World, after_write, open_store, Response,
}
use model_forensics_value_le.PaidResponses.Store.{
  read_checkpoint, paid_fields, checked_response, same_checkpoint, commit_checkpoint, commit,
  load_file, load, sealed,
}
use model_forensics_value_le.PaidResponses.Effects.{after_write-ok}
use model_forensics_value_le.PaidResponses.History.{Request, run, run-checkpoint}

pub is_text_refl : (t : String) → is_text (some t) t ≡ true
unfolding is_text
is_text_refl t = ground (arith, eq_iff t t)

pub read_object-eq : {A : Type 0} (f : File A) (a : A) → read_object f ≡ ok a → f ≡ object a
unfolding read_object
read_object-eq irregular a h = absurd (ground arith)
read_object-eq unreadable a h = absurd (ground arith)
read_object-eq not_object a h = absurd (ground arith)
read_object-eq (object b) a h = ap object (ok-injective {E = StoreError} h)

pub found_first :
    {A : Type 0} (key : String) (f : File A) (fs : Files A) → find_file key ((key, f) ∷ fs) ≡ some f
unfolding find_file
found_first key f fs = ground (arith, eq_iff key key)

module _ (digests : Digests) where
  validate_record-eq :
      (key fingerprint : String) (p r : Paid)
      → validate_record digests key fingerprint p ≡ ok r
      → p ≡ r
  unfolding validate_record
  validate_record-eq key fingerprint p r h = elim (Option-cases p.fields.body) [
    | inl absent ↦ absurd (ground arith)
    | inr (body, there) ↦ ok-injective {E = StoreError} (ground arith)
  ]

  read_checkpoint-eq :
      (key fingerprint : String) (f : File Paid) (r : Paid)
      → read_checkpoint digests key fingerprint f ≡ ok r
      → f ≡ object r
  unfolding read_checkpoint
  read_checkpoint-eq key fingerprint f r h = elim (Result-cases (read_object f)) [
    | inl (e, bad) ↦ absurd (ground arith)
    | inr (p, good) ↦
        let valid : validate_record digests key fingerprint p ≡ ok r = ground arith in
        read_object-eq f p good ∙ ap object (validate_record-eq key fingerprint p r valid)
  ]

  -- What `commit` makes of its arguments is valid for them.
  read_checkpoint-sealed :
      (q : Response) (body : String)
      → let p = sealed digests (paid_fields digests q body) in
        read_checkpoint digests q.key q.fingerprint (object p) ≡ ok p
  unfolding read_checkpoint read_object validate_record paid_fields
  read_checkpoint-sealed q body = rw (
    is_text_refl q.key,
    is_text_refl q.fingerprint,
    is_text_refl (digests.body body),
    is_text_refl (digests.paid (paid_fields digests q body)),
  )

  -- The checkpoint of a call is there, and is valid for its key and fingerprint.
  pub record IsStored (q : Response) (r : Paid) (s : Store) : Type 0 where
    pub named : hash_matches (codes q.key) ≡ true
    pub there : find_file q.key s.checkpoints ≡ some (object r)
    pub valid : read_checkpoint digests q.key q.fingerprint (object r) ≡ ok r

  checked_response-eq :
      (w : World) (q : Response) (p : Paid)
      → checked_response digests w q ≡ ok p
      → (hash_matches (codes q.key) ≡ true)
        × (read_checkpoint digests q.key q.fingerprint (object p) ≡ ok p)
  unfolding checked_response open_store
  checked_response-eq w q p h = elim (Option-cases q.body) [
    | inl absent ↦ absurd (ground arith)
    | inr (body, there) ↦
        let e : sealed digests (paid_fields digests q body) ≡ p =
          ok-injective {E = StoreError} (ground arith) in
        (
          ground arith,
          subst (λ p. read_checkpoint digests q.key q.fingerprint (object p) ≡ ok p) e
              (read_checkpoint-sealed q body),
        )
  ]

  same_checkpoint-eq :
      (key fingerprint : String) (p r : Paid) (f : File Paid)
      → same_checkpoint digests key fingerprint p f ≡ ok r
      → (f ≡ object r) × (read_checkpoint digests key fingerprint (object r) ≡ ok r)
  unfolding same_checkpoint
  same_checkpoint-eq key fingerprint p r f h =
      elim (Result-cases (read_checkpoint digests key fingerprint f)) [
        | inl (e, bad) ↦ absurd (ground arith)
        | inr (o, good) ↦
            let e : o ≡ r = ok-injective {E = StoreError} (ground arith) in
            let read : read_checkpoint digests key fingerprint f ≡ ok r = good ∙ ap (λ o. ok o) e in
            let same = read_checkpoint-eq key fingerprint f r read in
            (same, subst (λ f. read_checkpoint digests key fingerprint f ≡ ok r) same read)
      ]

  commit_checkpoint-IsStored :
      (w : World) (q : Response) (p r : Paid) (s s' : Store)
      → hash_matches (codes q.key) ≡ true
      → read_checkpoint digests q.key q.fingerprint (object p) ≡ ok p
      → commit_checkpoint digests w q.key q.fingerprint p s ≡ (ok r, s')
      → IsStored q r s'
  unfolding commit_checkpoint
  commit_checkpoint-IsStored w q p r s s' named valid h =
      elim (Option-cases (find_file q.key s.checkpoints)) [
        | inl free ↦
            let end : after_write w.disk w.anchored_after p s
                  (record s { checkpoints = (q.key, object p) ∷ s.checkpoints })
                ≡ (ok r, s') =
              ground arith in
            let (e, new) =
              after_write-ok w.disk w.anchored_after p r s
                (record s { checkpoints = (q.key, object p) ∷ s.checkpoints }) s' end in
            record {
              named = named;
              there =
                  subst (λ s. find_file q.key s.checkpoints ≡ some (object r)) new
                    (rw (found_first q.key (object p) s.checkpoints) (ap (λ p. some (object p)) e));
              valid =
                  subst (λ p. read_checkpoint digests q.key q.fingerprint (object p) ≡ ok p) e
                    valid;
            }
        | inr (f, found) ↦
            let same : same_checkpoint digests q.key q.fingerprint p f ≡ ok r = ground arith in
            let kept : s ≡ s' = ground arith in
            let (e, v) = same_checkpoint-eq q.key q.fingerprint p r f same in
            record {
              named = named;
              there =
                  subst (λ s. find_file q.key s.checkpoints ≡ some (object r)) kept
                    (found ∙ ap (λ f. some f) e);
              valid = v;
            }
      ]

  pub commit-IsStored :
      (w : World) (q : Response) (r : Paid) (s s' : Store)
      → commit digests w q s ≡ (ok r, s')
      → IsStored q r s'
  unfolding commit
  commit-IsStored w q r s s' h = elim (Result-cases (checked_response digests w q)) [
    | inl (e, bad) ↦ absurd (ground arith)
    | inr (p, checked) ↦
        let (named, valid) = checked_response-eq w q p checked in
        let call : commit_checkpoint digests w q.key q.fingerprint p s ≡ (ok r, s') =
          ground arith in
        commit_checkpoint-IsStored w q p r s s' named valid call
  ]

  object_of : Paid → File Paid → Paid
  object_of d (object p) = p
  object_of d irregular = d
  object_of d unreadable = d
  object_of d not_object = d

  commit_stored :
      (w : World) (q : Response) (r r' : Paid) (s s' : Store)
      → find_file q.key s.checkpoints ≡ some (object r)
      → commit digests w q s ≡ (ok r', s')
      → (r' ≡ r) × (s' ≡ s)
  unfolding commit commit_checkpoint object_of
  commit_stored w q r r' s s' there h = elim (Result-cases (checked_response digests w q)) [
    | inl (e, bad) ↦ absurd (ground arith)
    | inr (p, checked) ↦
        let same : same_checkpoint digests q.key q.fingerprint p (object r) ≡ ok r' =
          ground arith in
        let left : s' ≡ s = ground arith in
        (
          sym (ap (object_of r) (same_checkpoint-eq q.key q.fingerprint p r' (object r) same).0),
          left,
        )
  ]

  -- A response that was committed is loaded, unchanged, after any sequence of calls, by every load
  -- of its key and fingerprint that finds the directory anchored.
  pub load-commit :
      (w w' : World) (q : Response) (rs : List Request) (r : Paid) (s s' : Store)
      → commit digests w q s ≡ (ok r, s')
      → w'.anchored_before ≡ true
      → w'.anchored_after ≡ true
      → let after = run digests rs s' in
        load digests w' q.key q.fingerprint after ≡ (ok (some r), after)
  unfolding load open_store load_file
  load-commit w w' q rs r s s' h before after =
      let i = commit-IsStored w q r s s' h in
      let there = run-checkpoint digests rs s' q.key (object r) i.there in
      rw (before, i.named, there, i.valid, after)

  -- A key has one response: when a commit returned, a later commit under its key, after any
  -- sequence of calls, returns the same record and changes nothing, or raises.
  pub commit-again :
      (w w' : World) (q q' : Response) (rs : List Request) (r r' : Paid) (s s' s'' : Store)
      → commit digests w q s ≡ (ok r, s')
      → q'.key ≡ q.key
      → commit digests w' q' (run digests rs s') ≡ (ok r', s'')
      → (r' ≡ r) × (s'' ≡ run digests rs s')
  commit-again w w' q q' rs r r' s s' s'' h same h' =
      let i = commit-IsStored w q r s s' h in
      let there = run-checkpoint digests rs s' q.key (object r) i.there in
      commit_stored w' q' r r' (run digests rs s') s''
        (ap (λ k. find_file k (run digests rs s').checkpoints) same ∙ there) h'
