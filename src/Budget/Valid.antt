-- ===== src/Budget/Valid.antt =====
-- The documents that `_load_unlocked` of budget.py accepts, and that what the ledger writes is one.
use model_forensics_value_le.Prelude.{
  String, ◌≡◌, refl, true, false, Option, none, some, List, [], ◌∷◌, map, All, subst, arith, inl,
  inr, Option-cases,
}
use model_forensics_value_le.Prelude.Outcome.{ok, err, Result-cases, ok-injective}
use model_forensics_value_le.Prelude.Text.{codes, has_visible}
use model_forensics_value_le.Budget.Entry.{Entry, is_id, invalid_ledger}
use model_forensics_value_le.Budget.Document.{
  BudgetLimits, RawItem, RawFile, document, not_document, sum_entries, RawDocument, totals,
  assert_limits, checked_entry, checked_entries, checked_items, ids_repeat, limits_eq,
  load_document, raw_entry,
}
use model_forensics_value_le.Budget.Store.{ledger_document}
use model_forensics_value_le.Budget.Totals.{Fits, Fits-assert_limits, assert_limits-Fits}

abbrev pub HasGoodId : Option String → Type 0
HasGoodId none = Unit
HasGoodId (some i) = is_id i ≡ true

pub record IsWellFormed (e : Entry) : Type 0 where
  pub described : has_visible (codes e.description) ≡ true
  pub identified : HasGoodId e.entry_id

pub record IsValid (limits : BudgetLimits) (es : List Entry) : Type 0 where
  pub well_formed : All IsWellFormed es
  pub distinct : ids_repeat es ≡ false
  pub within : Fits limits (totals true es)

checked_entry-raw : (e : Entry) → IsWellFormed e → checked_entry (raw_entry e) ≡ ok e
unfolding checked_entry raw_entry
checked_entry-raw e w = ground arith

checked_entries-raw :
    (es : List Entry) → All IsWellFormed es → checked_entries (map raw_entry es) ≡ ok es
unfolding checked_entries
checked_entries-raw [] w = refl
checked_entries-raw (e ∷ es) w = rw (checked_entry-raw e w.0) (rw (checked_entries-raw es w.1))

checked_entry-IsWellFormed : (i : RawItem) {e : Entry} → checked_entry i ≡ ok e → IsWellFormed e
unfolding checked_entry
checked_entry-IsWellFormed i h = ground arith

checked_entries-IsWellFormed :
    (is : List RawItem) {es : List Entry} → checked_entries is ≡ ok es → All IsWellFormed es
unfolding checked_entries
checked_entries-IsWellFormed [] {es = es} h = subst (All IsWellFormed) (ok-injective h) tt
checked_entries-IsWellFormed (i ∷ is) {es = es} h = elim (Result-cases (checked_entry i)) [
  | inl (x, bad) ↦ absurd (ground arith)
  | inr (e, good) ↦ elim (Result-cases (checked_entries is)) [
    | inl (x, bad) ↦ absurd (ground arith)
    | inr (tail, read) ↦
        subst (All IsWellFormed) {x = e ∷ tail} (ground arith)
          (checked_entry-IsWellFormed i good, checked_entries-IsWellFormed is read)
  ]
]

limits_eq_self : (l : BudgetLimits) → limits_eq l l ≡ true
unfolding limits_eq
limits_eq_self l = ground arith

-- A valid document reads back as it was written.
pub load_document-written :
    (limits : BudgetLimits) (es : List Entry)
    → IsValid limits es
    → load_document limits (some (document (ledger_document limits es))) ≡ ok es
unfolding load_document checked_items
load_document-written limits es v = rw (
  limits_eq_self limits,
  checked_entries-raw es v.well_formed,
  v.distinct,
  assert_limits-Fits limits (totals true es) v.within,
)

empty-IsValid : (limits : BudgetLimits) → IsValid limits []
unfolding ids_repeat totals sum_entries
empty-IsValid limits = record { well_formed = tt; distinct = refl; within = omega arith }

-- What `checked_items` has tested of a list that it returns.
checked_items-tested :
    (limits : BudgetLimits) (hard_stops : Option BudgetLimits) (items : List RawItem)
    (es : List Entry)
    → checked_items limits hard_stops items ≡ ok es
    → (checked_entries items ≡ ok es)
      × (ids_repeat es ≡ false)
      × (assert_limits limits (totals true es) ≡ ok tt)
unfolding checked_items
checked_items-tested limits hard_stops items es h = ground arith

checked_items-IsValid :
    (limits : BudgetLimits) (hard_stops : Option BudgetLimits) (items : List RawItem)
    (es : List Entry)
    → checked_items limits hard_stops items ≡ ok es
    → IsValid limits es
checked_items-IsValid limits hard_stops items es h =
    let (read, once, fits) = checked_items-tested limits hard_stops items es h in
    record {
      well_formed = checked_entries-IsWellFormed items read;
      distinct = once;
      within = Fits-assert_limits limits (totals true es) fits;
    }

load_document-missing :
    (limits : BudgetLimits) (d : RawDocument)
    → d.entries ≡ none
    → load_document limits (some (document d)) ≡ err invalid_ledger
unfolding load_document
load_document-missing limits d h = ground arith

load_document-items :
    (limits : BudgetLimits) (d : RawDocument) (items : List RawItem) {es : List Entry}
    → d.entries ≡ some items
    → load_document limits (some (document d)) ≡ ok es
    → checked_items limits d.hard_stops items ≡ ok es
unfolding load_document
load_document-items limits d items found h = ground arith

-- Only valid documents are accepted.
pub load_document-IsValid :
    (limits : BudgetLimits) (f : Option RawFile) {es : List Entry}
    → load_document limits f ≡ ok es
    → IsValid limits es
unfolding load_document checked_items
load_document-IsValid limits none h = subst (IsValid limits) (ok-injective h) (empty-IsValid limits)
load_document-IsValid limits (some not_document) h = cc
load_document-IsValid limits (some (document d)) {es = es} h = elim (Option-cases d.entries) [
  | inl missing ↦ cc (load_document-missing limits d missing)
  | inr (items, found) ↦
      checked_items-IsValid limits d.hard_stops items es
        (load_document-items limits d items found h)
]
