-- ===== src/Watchdog/Tests.antt =====
-- The watchdog of runpod_watchdog.py on a small run, and its theorems at it.
use model_forensics_value_le.Prelude.{◌≡◌, refl, inl, inr, true, false, none, some, [], ◌∷◌, arith}
use model_forensics_value_le.Prelude.Outcome.{ok}
use model_forensics_value_le.Watchdog.Limits.{
  overflow_error, billionths, watchdog_limits, check_limits, WatchdogLimits, global_safe_budget,
  safe_budget, approved_compute,
}
use model_forensics_value_le.Watchdog.Live.{
  running, exited, PodMetadata, Profile, effective_hourly, runtime, check_place, check_machine,
  validate_live_metadata, DerivedDeadline, rounded, timedelta, moment_after, budget_runtime,
  runtime_limit, derived_of, derive_deadline,
}
use model_forensics_value_le.Watchdog.Stop.{
  StopRound, stopped_confirmed, returned, raised, pending, confirmed, terminal_of, complete,
  stop_until_confirmed,
}
use model_forensics_value_le.Watchdog.Monitor.{
  Round, Guard, escapes, renewed, answered, turn, watch, Observations, armed, guard_of, after_watch,
  run_armed, bad_run, run_watchdog,
}
use model_forensics_value_le.Watchdog.FailSafe.{stop_until_confirmed-first}
use model_forensics_value_le.Watchdog.Limit.{run_watchdog_ends}

-- 220 dollars and 4 hours, at a margin of three percent.
abbrev limits : WatchdogLimits
limits = record {
  gpu_hard_stop = 220_000_000_000;
  maximum_runtime = 4_000_000_000;
  safety_margin = 30_000_000;
  approved_hourly_total = none;
  approved_storage_hourly = 0;
  prior_committed_gpu = 0;
  approved_compute_hourly = none;
}

abbrev profile : Profile
profile = record {
  is_family = λ name. true;
  gpu_count = 8;
  provider_gpu_id = "NVIDIA H100";
  data_center_ids = "EU" ∷ [];
  cuda_versions = "12.8" ∷ [];
  approved_image = some "image";
}

-- A machine at 20 dollars an hour.
abbrev machine : PodMetadata
machine = record {
  gpu_count = 8;
  provider_gpu_id = "NVIDIA H100";
  gpu_display_name = "H100";
  runtime_gpu_count = some 8;
  execution_identity_hash = "sha256:";
  data_center_id = "EU";
  cuda_version = some "12.8";
  secure_cloud = true;
  container_image = "image";
  container_disk_gb = 50;
  persistent_volume_disk_gb = 650;
  persistent_volume_mount_path = "/workspace";
  ports = "22/tcp" ∷ [];
  global_networking_enabled = none;
  ssh_ready = true;
  direct_ssh_ready = true;
  direct_ssh_endpoint_hash = some "sha256:";
  environment_verified = true;
  desired_status = running;
  cost_per_hr = 20_000_000_000;
  adjusted_cost_per_hr = 20_000_000_000;
  last_started_at = 0;
  observed_at = 60_000_000;
  locked = some false;
  interruptible = some false;
  network_volume_attached = false;
}

abbrev found : DerivedDeadline
found = record {
  budget_deadline = 38_412_000_000;
  runtime_deadline = 14_400_000_000;
  deadline = 14_400_000_000;
  calculation_hourly = 20_000_000_000;
  incurred_cost = 333_333_333;
}

abbrev early : Round
early = record {
  time = 60_000_000;
  monotonic = 0;
  requested = false;
  later = 75_000_000;
  answer = some machine;
  later_monotonic = 15_000_000;
  persisted = true;
}

abbrev late : Round
late = record early { monotonic = 14_340_000_000 }

abbrev unknown : StopRound
unknown = record { before = none; persisted = true }

abbrev down : StopRound
down = record { before = some exited; persisted = true }

abbrev seen : Observations
seen = record {
  armed_at = 60_000_000;
  armed_monotonic = 0;
  answer = some machine;
  persisted = true;
  rounds = early ∷ late ∷ [];
  stop_rounds = unknown ∷ down ∷ [];
}

abbrev quiet : Observations
quiet = record seen { rounds = early ∷ [] }

arming : armed limits profile (some machine) ≡ ok (machine, found)
unfolding armed validate_live_metadata check_place check_machine approved_compute effective_hourly
    derive_deadline derived_of budget_runtime runtime_limit rounded timedelta moment_after
    safe_budget global_safe_budget runtime
arming = refl

abbrev guard : Guard
guard = record {
  started_at = 0;
  identity = "sha256:";
  derived = found;
  rate = 20_000_000_000;
  monotonic_deadline = 14_340_000_000;
}

-- The machine is stopped at the deadline, at the second attempt.
run_seen :
    run_watchdog limits profile 15_000_000 none seen
    ≡ record { outcome = returned stopped_confirmed; stops = 1 }
unfolding run_watchdog bad_run armed run_armed after_watch watch turn answered confirmed renewed
    guard_of validate_live_metadata check_place check_machine approved_compute effective_hourly
    derive_deadline derived_of budget_runtime runtime_limit rounded timedelta moment_after
    safe_budget global_safe_budget runtime stop_until_confirmed terminal_of complete
run_seen = refl

run_watchdog_ends_example : (run_watchdog limits profile 15_000_000 none seen).outcome ≡ pending → ⊥
unfolding terminal_of confirmed
run_watchdog_ends_example =
    run_watchdog_ends limits profile 15_000_000 seen machine found arming (inr (inl (omega arith)))
      (inr (inl (stopped_confirmed, refl)))

-- A bound of one attempt, and the answer after it.
stop_until_confirmed-first_example :
    let e = stop_until_confirmed (some 1) (unknown ∷ down ∷ []) in
    (e.outcome ≡ complete true stopped_confirmed) × (e.stops ≡ 1)
unfolding terminal_of confirmed
stop_until_confirmed-first_example =
    stop_until_confirmed-first (some 1) (unknown ∷ []) [] down stopped_confirmed (omega arith)
      (refl, tt) refl

-- Limits that are accepted, of a hundred million hours, end the call with no stop request.
abbrev far : WatchdogLimits
far = record limits { maximum_runtime = 100_000_000_000_000_000 }

far_accepted :
    watchdog_limits (record {
      gpu_hard_stop = billionths 220_000_000_000;
      maximum_runtime = billionths 100_000_000_000_000_000;
      safety_margin = billionths 30_000_000;
      approved_hourly_total = none;
      approved_storage_hourly = billionths 0;
      prior_committed_gpu = billionths 0;
      approved_compute_hourly = none;
    })
    ≡ ok far
unfolding watchdog_limits check_limits global_safe_budget
far_accepted = refl

run_far :
    run_watchdog far profile 15_000_000 none seen
    ≡ record { outcome = raised overflow_error; stops = 0 }
unfolding run_watchdog bad_run armed validate_live_metadata check_place check_machine
    approved_compute effective_hourly derive_deadline derived_of budget_runtime runtime_limit
    rounded timedelta moment_after safe_budget global_safe_budget runtime escapes
run_far = refl
