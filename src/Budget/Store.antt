-- ===== src/Budget/Store.antt =====
-- The ledger file and the calls that read and replace it under the lock. A call returns its result
-- or raises, with the file as it leaves it.
use model_forensics_value_le.Prelude.{◌≡◌, Bool, true, false, Option, none, some, List, map}
use model_forensics_value_le.Prelude.Outcome.{Result, ok, err}
use model_forensics_value_le.Budget.Entry.{Error, Entry}
use model_forensics_value_le.Budget.Document.{
  BudgetLimits, RawDocument, RawFile, document, load_document, raw_entry,
}

-- PyYAML, as `_load_cost_ledger` and `_dump_cost_ledger` use it: `safe_load` returns the plain
-- data that `safe_dump` was given.
pub record Yaml : Type 1 where
  pub Text : Type 0
  pub safe_load : Text → RawFile
  pub safe_dump : RawDocument → Text
  pub load-dump : (d : RawDocument) → safe_load (safe_dump d) ≡ document d

-- The `candidate` document of the calls that write.
abbrev pub ledger_document : BudgetLimits → List Entry → RawDocument
ledger_document limits es = record {
  schema_version = 1;
  currency = "USD";
  hard_stops = some limits;
  entries = some (map raw_entry es);
}

-- `none` is a path that does not exist.
abbrev pub Action : Type 0 → Type 0 → Type 0
Action T A = Option T → Result Error A × Option T

infixl 5 ◌>>=◌ ◌>>◌
abbrev pub ◌>>=◌ : {T A B : Type 0} → Action T A → (A → Action T B) → Action T B
◌>>=◌ m f s = let (r, s') = m s in elim r [ ok a ↦ f a s' | err e ↦ (err e, s') ]

abbrev pub ◌>>◌ : {T A B : Type 0} → Action T A → Action T B → Action T B
m >> k = m >>= λ _. k

module _ {T A : Type 0} where
  abbrev pub pure : A → Action T A
  pure a s = (ok a, s)

  abbrev pub lift : Result Error A → Action T A
  lift r s = (r, s)

abbrev pub raise_if : {T : Type 0} → Bool → Error → Action T (Unit {0})
raise_if true e s = (err e, s)
raise_if false e s = (ok tt, s)

module _ (yaml : Yaml) (limits : BudgetLimits) where
  abbrev pub read_file : Option yaml.Text → Option RawFile
  read_file none = none
  read_file (some text) = some (yaml.safe_load text)

  -- `self._load_unlocked()`
  abbrev pub load : Action yaml.Text (List Entry)
  load s = (load_document limits (read_file s), s)

  -- `atomic_write_text(self.path, _dump_cost_ledger(candidate))`
  abbrev pub write : List Entry → Action yaml.Text (Unit {0})
  write es s = (ok tt, some (yaml.safe_dump (ledger_document limits es)))
