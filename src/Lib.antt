-- ===== src/Lib.antt =====
-- A model of the value-leakage investigation package, the Python package under
-- src/model_forensics of the repository. The package samples a language model on rented machines,
-- pays for API calls, maps sentences of its completions to tokens, resamples them, and keeps a
-- ledger of money and of time. Modelled are the parts that decide: the two ledgers, the mapping of
-- text to tokens, the top-up rule of the resampling, the checkpoints, the budget of a
-- GPU phase, the store of paid responses, the watchdog, the adjustment of p-values, and the authorizations of a rented machine.
--
-- Prelude: what the other modules share. Prelude/Outcome has the result of a call that returns or
-- raises, Prelude/Lists lists measured by native numbers, Prelude/Text the white space of a `str`.
--
-- Budget, src/model_forensics/budget.py: the cost ledger. Budget/Entry has `CostEntry` and
-- `normalized`; Budget/Document has `BudgetLimits`, `totals`, `_assert_limits` and the validation of
-- `_load_unlocked`; Budget/Store has the calls that read and write the file; Budget/Ledger has
-- `append`, `assert_estimate_fits`, `reserve`, `reserve_once` and `settle_reservation`, with the
-- ceilings of `reserve_once` in Budget/Ceilings; Budget/Batch and Budget/BatchCall have
-- `reserve_batch`. A call takes the file and gives the file and a result, and a call that raises
-- leaves the file as it was last written. Budget/History has sequences of calls. The modules under
-- Budget/Calls show what each call leaves, Budget/Safety what any sequence of calls leaves.
-- Amounts are whole millionths of a dollar, the precision to which the ledger rounds; the error of
-- binary floating point is not modelled. PyYAML is the record `Yaml`: what was dumped is loaded.
-- The advisory lock makes the calls a sequence. Not modelled: `_stdlib_load_canonical_ledger` and
-- the estimate of GPU prices.
--
-- GpuBudget, src/model_forensics/gpu_budget.py: the cumulative budget of a GPU phase, a client of the
-- ledger. GpuBudget/Texts has the regular expressions, GpuBudget/Receipt
-- `GpuPhaseBudgetReservation` and `_validate_receipt_invariants`, GpuBudget/Reserve
-- `reserve_gpu_phase_budget`, and GpuBudget/Resume the validations of a resumed session and
-- `settle_gpu_phase_budget`. Money is in millionths of a dollar, durations and rates in billionths;
-- the safe runtime is rounded down to a billionth of an hour, which is the tolerance that the code
-- allows. The two digests are parameters; that a digest has the form of one is the field
-- `session_hex`. The other modules show what a returned call establishes. Not modelled: the JSON file
-- of a receipt and the payload of the bootstrap validation.
--
-- Spans, src/model_forensics/token_spans.py: Spans/Sections has `locate_completion_sections` with
-- `_trimmed_bounds` and the tests of `CompletionSections`; Spans/Search has the two binary searches;
-- Spans/Map has `OriginalTokenSpan` and `CompletionTokenMap`. A text is a list of code points. The
-- tokenizer is a parameter, a function from token IDs to a text that may fail. The cache of decoded
-- prefixes is left out, for a prefix is a function of its length; its two entries that are there
-- from the start, for no token and for all tokens, are clauses of `decode_prefix`. Spans/Streams has
-- the manifest of token streams and `from_manifest`, with the digest of a payload as a parameter. The searches run
-- on a number of rounds, the number of tokens, and the trimming loops on the length of their range;
-- each round shortens the range by one at least, so these are enough. Not modelled: the dictionaries
-- of `as_dict`.
--
-- EstimateSpans, src/model_forensics/estimate_spans.py: EstimateSpans/Span has `FirstEstimateSpan` and
-- `parse_first_estimate_span`, EstimateSpans/Collect `_occurrences` and
-- `collect_first_estimate_span`, EstimateSpans/Positions the plain list of all places of a quote. The
-- answer of the judge is what the JSON reader returns of it; the judge and `str.isdigit` are
-- parameters. The loop of `_occurrences` runs on the length of the text and two, for its cursor moves
-- on by one at least and stops behind the text. Not modelled: the hashes and the provenance.
--
-- Sentences, src/model_forensics/anchors.py: Sentences/Scan has `SentenceSpan` and `sentence_spans`. The
-- test of an abbreviation and `eligible_sentence_text` are made of regular expressions and are
-- parameters. A loop over the text runs on its length, and the outer loop and the scan on one more;
-- the rounds move the cursor on, so these are enough, and running out would be the error
-- `out_of_fuel`. Not modelled: the selection of anchors.
--
-- Trajectory, src/model_forensics/parsing.py: Trajectory/Features has `_numeric_values`,
-- `_deduplicate_revisions` and `derive_trajectory_features`, with `is_good_outcome` of
-- src/model_forensics/prompts.py. The floating-point numbers and their comparisons are the record
-- `Floats`, of which nothing is assumed. Not modelled: the regular expressions that find numbers.
--
-- TimeLedger, src/model_forensics/timeledger.py: TimeLedger/Ledger has `TimeEntry`, `TimeLedger` and
-- its `start`, `stop` and `append`. A moment is a whole number of microseconds, the precision of
-- `datetime`. The state is the loaded document.
--
-- Resampling, src/model_forensics/resampling.py: Resampling/TopUp has
-- `plan_effect_independent_top_up`, Resampling/Prefixes `build_token_identical_prefixes` and
-- Resampling/Cut `raw_thinking_prefix_before`, a client of Sentences. A width is
-- a whole number of millionths; the encoder of a chat template, which may keep a state, and the
-- digest of tokens are parameters. Resampling/Rendered says what one answer of the encoder gives. Not modelled: the hash of a plan and the semantic divergence, which rests on
-- embeddings.
--
-- Checkpoint, src/model_forensics/record_checkpoint.py: Checkpoint/Store has the store's
-- `_freeze_plan`, `_validate_row`, `commit`, `load_records` and the rows that `finalize` merges;
-- Checkpoint/Finish has `finalize` and `load_final`. A row is its canonical JSON text; the digests
-- and the file name of an identifier are parameters. Not modelled: the constant fields of the
-- manifest and its own hash.
--
-- Lifecycle, src/model_forensics/runpod_lifecycle_state.py: Lifecycle/State has the authorizations
-- of a rented machine and the validation of their history. The regular expressions and the hash of
-- the launch specification are parameters. Not modelled: the tests on the file that holds them.
--
-- PaidResponses, src/model_forensics/paid_response_store.py: PaidResponses/Records has the checkpoint of a
-- response and the write-ahead marker of an attempt, with their validation, PaidResponses/Files
-- the state and what a call meets, PaidResponses/Store `load`, `load_uncertain_attempt`, `commit`, `mark_uncertain_attempt` and
-- `resolve_uncertain_attempt`. A record is its fields and its hash, and the hashes are parameters;
-- that a hash of a marker has the form of one is the field `marker_hex`. A `World` says what a call
-- meets: whether `identity` holds at its start and at its end, and whether its write fails before or
-- after the name is replaced. PaidResponses/History has sequences of calls, each in a world of its
-- own, and a writer that holds the lock is one call. Not modelled: descriptors, permissions and locks.
--
-- Watchdog, src/model_forensics/runpod_watchdog.py: Watchdog/Limits has `WatchdogLimits`,
-- Watchdog/Live `PodMetadata`, `validate_live_metadata` and `derive_deadline`, Watchdog/Stop
-- `_stop_until_confirmed` and Watchdog/Monitor `run_watchdog`. What the clocks, the provider and
-- the disk answer is a list of rounds, one for each pass of a loop; a loop that has not ended when
-- its list is used up is pending. A moment is a whole number of microseconds from the start of year
-- 1; a duration is rounded to the nearest one, ties to even, as `timedelta` does, and a duration or
-- moment out of the range of the library raises `overflow_error`, which no handler of the watchdog
-- catches. The arithmetic before that is exact. The expressions of a GPU family are a parameter.
-- Watchdog/Affordable, Watchdog/Deadline and Watchdog/Escapes say what a deadline is and where its
-- error goes. Watchdog/Handover has the limits that a receipt of gpu_budget.py hands over. Not
-- modelled: the parsing of the response of the provider, the HTTP client, the content of the state
-- files, and the re-arming of the host.
--
-- Statistics, src/model_forensics/statistics.py: Statistics/Numbers has the floating-point numbers, a
-- parameter with named laws, which are those of IEEE 754 on comparisons, negation and the rounding of a
-- product. Statistics/Adjust has `holm_adjust_pvalues`, Statistics/Effects `classify_effect`, and
-- Statistics/Rejection Holm's rule with no order and no positions. The call of `sorted` is an insertion
-- sort, stable as that is. Not modelled: the bootstrap, the permutations and the logarithm.
--
-- The remaining modules are drivers of GPU inference, model providers, archives and rented machines,
-- tensor and floating-point code, schemas that libraries validate, and the command line.
pub mod Prelude
pub mod Budget
pub mod GpuBudget
pub mod Watchdog
pub mod Spans
pub mod EstimateSpans
pub mod Sentences
pub mod Trajectory
pub mod TimeLedger
pub mod Resampling
pub mod Checkpoint
pub mod Lifecycle
pub mod PaidResponses
pub mod Statistics
