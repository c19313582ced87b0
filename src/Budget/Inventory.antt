-- ===== src/Budget/Inventory.antt =====
-- What the loops of `reserve_batch` (budget.py) make of a batch: named entries, each once.
use model_forensics_value_le.Prelude.{
  String, ◌≡◌, refl, subst, ◌⊎◌, true, false, none, some, List, [], ◌∷◌, ◌++◌, All, All-append,
  arith, inl, inr, Option-cases,
}
use model_forensics_value_le.Prelude.Outcome.{ok, ok-injective, Result-cases}
use model_forensics_value_le.Prelude.Text.{codes, has_visible}
use model_forensics_value_le.Budget.Entry.{Entry, CostEntry, is_id, normalized}
use model_forensics_value_le.Budget.Document.{contains_id, ids_repeat}
use model_forensics_value_le.Budget.Change.{contains_id-find_id, ids_repeat-snoc}
use model_forensics_value_le.Budget.Fresh.{AllFresh, ids_repeat-tail}
use model_forensics_value_le.Budget.Ledger.{find_id, with_id}
use model_forensics_value_le.Budget.Batch.{Plan, add_normalized, normalize_all, plan_batch, keyed}
use model_forensics_value_le.Budget.Calls.Frame.{normalized-facts}

-- A normalized entry of a batch: it has an ID and a description.
pub record IsNamed (e : Entry) : Type 0 where
  pub described : has_visible (codes e.description) ≡ true
  pub id : String
  pub has_it : e.entry_id ≡ some id
  pub good_id : is_id id ≡ true

pub record IsInventory (ns : List Entry) : Type 0 where
  pub named : All IsNamed ns
  pub distinct : ids_repeat ns ≡ false

add_normalized-IsInventory :
    (i : String) (e : Entry) (known : List Entry) {known' : List Entry}
    → is_id i ≡ true
    → has_visible (codes e.description) ≡ true
    → IsInventory known
    → add_normalized i e known ≡ ok known'
    → IsInventory known'
unfolding add_normalized
add_normalized-IsInventory i e known good described v h = elim (Option-cases (find_id i known)) [
  | inl free ↦ subst IsInventory {x = known ++ with_id i e ∷ []} (ground arith) (record {
    named =
        All-append IsNamed known (with_id i e ∷ []) v.named
          (record { described = described; id = i; has_it = refl; good_id = good }, tt);
    distinct =
        ids_repeat-snoc known (with_id i e) v.distinct (rw (contains_id-find_id i known free));
  })
  | inr (old, found) ↦ subst IsInventory {x = known} (ground arith) v
]

-- What the first loop has tested of an item that it went past.
normalize_all-step :
    (now : String) (i : String) (entry : CostEntry) (more : List (String × CostEntry))
    (known : List Entry) {ns : List Entry}
    → normalize_all now ((i, entry) ∷ more) known ≡ ok ns
    → (e : Entry) × (known' : List Entry) × (is_id i ≡ true)
      × (normalized now entry ≡ ok e)
      × (add_normalized i e known ≡ ok known')
      × (normalize_all now more known' ≡ ok ns)
unfolding normalize_all
normalize_all-step now i entry more known h = elim (Result-cases (normalized now entry)) [
  | inl (x, bad) ↦ absurd (ground arith)
  | inr (e, good) ↦ elim (Result-cases (add_normalized i e known)) [
    | inl (x, bad) ↦ absurd (ground arith)
    | inr (known', grown) ↦ (e, known', ground arith, good, grown, ground arith)
  ]
]

normalize_all-nil :
    (now : String) (known : List Entry) {ns : List Entry}
    → normalize_all now [] known ≡ ok ns
    → known ≡ ns
unfolding normalize_all
normalize_all-nil now known h = ok-injective h

pub normalize_all-IsInventory :
    (now : String) (reservations : List (String × CostEntry)) (known : List Entry) {ns : List Entry}
    → IsInventory known
    → normalize_all now reservations known ≡ ok ns
    → IsInventory ns
normalize_all-IsInventory now [] known v h =
    subst IsInventory {x = known} (normalize_all-nil now known h) v
normalize_all-IsInventory now ((i, entry) ∷ more) known v h =
    let (e, known', named, good, grown, rest) = normalize_all-step now i entry more known h in
    normalize_all-IsInventory now more known'
      (add_normalized-IsInventory i e known named (normalized-facts now entry good).0 v grown) rest

-- What a plan adds: named entries with distinct IDs, each of the batch and none of the ledger.
pub record IsNew (es ns new : List Entry) : Type 0 where
  pub named : All IsNamed new
  pub distinct : ids_repeat new ≡ false
  pub fresh : AllFresh es new
  pub within : (j : String) → contains_id j ns ≡ false → contains_id j new ≡ false

IsNew-cons :
    (es : List Entry) (i : String) (n : Entry) (ns new : List Entry)
    → IsNamed n
    → n.entry_id ≡ some i
    → find_id i es ≡ none
    → contains_id i ns ≡ false
    → IsNew es ns new
    → IsNew es (n ∷ ns) (n ∷ new)
unfolding ids_repeat contains_id
IsNew-cons es i n ns new named own free once q = record {
  named = (named, q.named);
  distinct = ground (arith, q.within i once);
  fresh = (ground (arith, contains_id-find_id i es free), q.fresh);
  within = λ j absent. ground (arith, q.within j);
}

IsNew-skip :
    (es : List Entry) (n : Entry) (ns new : List Entry) → IsNew es ns new → IsNew es (n ∷ ns) new
unfolding contains_id
IsNew-skip es n ns new q = record {
  named = q.named;
  distinct = q.distinct;
  fresh = q.fresh;
  within = λ j absent. q.within j (ground arith);
}

IsInventory-head :
    (i : String) (n : Entry) (ns : List Entry)
    → n.entry_id ≡ some i
    → ids_repeat (n ∷ ns) ≡ false
    → contains_id i ns ≡ false
unfolding ids_repeat
IsInventory-head i n ns own h = ground arith

plan_batch-nil : (es : List Entry) {p : Plan} → plan_batch es [] ≡ ok p → p.additions ≡ []
unfolding plan_batch
plan_batch-nil es h = ground arith

-- How the second loop goes past an item: it is new and added, or known and covered.
plan_batch-step :
    (es : List Entry) (i : String) (n : Entry) (ns : List Entry) {p : Plan}
    → n.entry_id ≡ some i
    → plan_batch es (keyed (n ∷ ns)) ≡ ok p
    → (q : Plan) × (plan_batch es (keyed ns) ≡ ok q)
      × (((find_id i es ≡ none) × (p.additions ≡ n ∷ q.additions)) ⊎ (p.additions ≡ q.additions))
unfolding plan_batch
plan_batch-step es i n ns named h = elim (Result-cases (plan_batch es (keyed ns))) [
  | inl (x, bad) ↦ absurd (ground arith)
  | inr (q, good) ↦ elim (Option-cases (find_id i es)) [
    | inl free ↦ (q, good, inl (free, ground arith))
    | inr (old, found) ↦ (q, good, inr (ground arith))
  ]
]

pub plan_batch-IsNew :
    (es ns : List Entry) {p : Plan}
    → IsInventory ns
    → plan_batch es (keyed ns) ≡ ok p
    → IsNew es ns p.additions
plan_batch-IsNew es [] v h =
    rw (plan_batch-nil es h)
      (record { named = tt; distinct = v.distinct; fresh = tt; within = λ j absent. absent })
plan_batch-IsNew es (n ∷ ns) v h =
    let i = v.named.0.id in
    let own = v.named.0.has_it in
    let (q, rest, how) = plan_batch-step es i n ns own h in
    let tail : IsInventory ns = record {
      named = v.named.1;
      distinct = ids_repeat-tail n ns v.distinct;
    } in
    let old = plan_batch-IsNew es ns tail rest in
    elim how [
      | inl (free, grown) ↦ rw grown (
          IsNew-cons es i n ns q.additions v.named.0 own free
            (IsInventory-head i n ns own v.distinct) old)
      | inr same ↦ rw same (IsNew-skip es n ns q.additions old)
    ]
