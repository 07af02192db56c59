-- ===== src/MobileShell/Tests.antt =====
-- A session that waits for a retry, on which the theorems about the directives are applied.
use ntd.Prelude.{ℕ, ◌<◌, ◌≤◌, ◌≡◌, ◌≢◌, ◌⊎◌, refl, true, false, none, some, [], ok, arith}
use ntd.MobileShell.Continuity.{
  MobileContinuityBundle, RetryBackoff, active_execution, retry_backoff, next_delay_ms,
  next_delay_ms_bounds, validate_retry,
}
use ntd.MobileShell.Scheduler.{
  ResourceSnapshot, WakeContext, nominal, critical, start_foreground_execution,
  schedule_persistent_work, returns, panics, active_task, choose_platform_directive,
}
use ntd.MobileShell.Scheduler.Policy.{
  choose_platform_directive_returns, choose_platform_directive_foreground,
}
use ntd.MobileShell.Scheduler.Window.{choose_platform_directive-due}

abbrev retry_two : RetryBackoff
retry_two = record {
  attempts = 2;
  not_before_epoch_ms = 5000;
  base_delay_ms = 100;
  max_delay_ms = 300;
}

abbrev retrying : MobileContinuityBundle
retrying = record {
  identity = [];
  state = active_execution;
  wake_reason = retry_backoff;
  checkpoint_sequence = 1;
  cognitive_checkpoint = [];
  action_checkpoint = [];
  capabilities = [];
  pending_approval = none;
  retry = some retry_two;
}

abbrev plugged_in : ResourceSnapshot
plugged_in = record {
  available_ram_bytes = 1000;
  battery_percent = 3;
  charging = true;
  thermal = nominal;
  latency_budget_ms = 10;
}

abbrev at_time : ℕ → WakeContext
at_time now = record {
  now_epoch_ms = now;
  user_visible = false;
  network_available = true;
  device_unlocked = true;
}

choose_platform_directive_returns_example :
    choose_platform_directive retrying plugged_in (at_time 4000) ≢ panics
choose_platform_directive_returns_example =
    choose_platform_directive_returns retrying plugged_in (at_time 4000)

in_foreground :
    choose_platform_directive retrying plugged_in (at_time 6000)
    ≡ returns (ok (start_foreground_execution active_task))
unfolding choose_platform_directive
in_foreground = refl

choose_platform_directive_foreground_example :
    (plugged_in.thermal ≢ critical) × ((plugged_in.charging ≡ true) ⊎ (5 < 3))
choose_platform_directive_foreground_example =
    choose_platform_directive_foreground retrying plugged_in (at_time 6000)
      (start_foreground_execution active_task) in_foreground refl

too_early :
    choose_platform_directive retrying plugged_in (at_time 4000)
    ≡ returns (ok (schedule_persistent_work 1000 false true))
unfolding choose_platform_directive
too_early = refl

choose_platform_directive-due_example : 5000 ≤ 5000
choose_platform_directive-due_example =
    choose_platform_directive-due retrying plugged_in (at_time 4000) retry_two
      (schedule_persistent_work 1000 false true) 5000 refl too_early refl

retry_two_valid : validate_retry retry_two ≡ ok tt
unfolding validate_retry
retry_two_valid = refl

next_delay_ms_bounds_example : (100 ≤ next_delay_ms retry_two) × (next_delay_ms retry_two ≤ 300)
next_delay_ms_bounds_example = next_delay_ms_bounds retry_two (omega arith) retry_two_valid
