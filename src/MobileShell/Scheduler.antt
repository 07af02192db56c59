-- ===== src/MobileShell/Scheduler.antt =====
-- crates/ntd-mobile-shell/src/scheduler.rs: `choose_platform_directive`, with the snapshot of the
-- device's resources (crates/ntd-runtime/src/mobile.rs).
pub mod Policy
pub mod Window
use ntd.Prelude.{
  ℕ, ◌-◌, Text, codes, Bool, true, false, ◌&&◌, ◌||◌, not, leb, ltb, ◌==◌, Option, none, some,
  Result, ok, err, if◌then◌else◌,
}
use ntd.MobileShell.Continuity.{
  MobileContinuityState, interactive, active_execution, checkpointed, suspended_by_os,
  waiting_condition, waiting_approval, reconstructing, verifying_resume, completed,
  failed_recoverable, MobileContinuityBundle, PendingApproval, RetryBackoff,
}

pub data ThermalState : Type 0 where
  nominal warm hot critical : ThermalState

pub record ResourceSnapshot : Type 0 where
  pub available_ram_bytes : ℕ
  pub battery_percent : ℕ
  pub charging : Bool
  pub thermal : ThermalState
  pub latency_budget_ms : ℕ

pub record WakeContext : Type 0 where
  pub now_epoch_ms : ℕ
  pub user_visible : Bool
  pub network_available : Bool
  pub device_unlocked : Bool

pub data PlatformDirective : Type 0 where
  keep_interactive : PlatformDirective
  start_foreground_execution : (reason : Text) → PlatformDirective
  schedule_persistent_work : (delay_ms : ℕ) (require_network persisted : Bool) → PlatformDirective
  show_approval : (capability rationale : Text) → PlatformDirective
  checkpoint_and_suspend verify_resume no_eligible_work : PlatformDirective

pub data WakePolicyError : Type 0 where
  missing_approval invalid_retry_window : WakePolicyError

-- What a call comes to: it returns, or it panics in `unreachable!`.
pub data Call : Type 0 where
  returns : Result WakePolicyError PlatformDirective → Call
  panics : Call

abbrev pub is_critical : ThermalState → Bool
is_critical critical = true
is_critical _ = false

unfoldable pub must_suspend : ResourceSnapshot → Bool
must_suspend r = is_critical r.thermal || (not r.charging && leb r.battery_percent 5)

unfoldable pub active_task : Text
active_task = codes "visible active task"

unfoldable pub show_pending : Option PendingApproval → Call
show_pending none = returns (err missing_approval)
show_pending (some a) = returns (ok (show_approval a.capability a.rationale))

-- The match at the end.
unfoldable pub directive_of : MobileContinuityState → WakeContext → Call
directive_of interactive c =
    if c.user_visible
    then returns (ok keep_interactive)
    else returns (ok (schedule_persistent_work 1000 false false))
directive_of active_execution c =
    if c.user_visible
    then returns (ok keep_interactive)
    else returns (ok (start_foreground_execution active_task))
directive_of checkpointed c = returns (
    ok (
      schedule_persistent_work (if c.device_unlocked then 1000 else 15000) (not c.network_available)
        true))
directive_of suspended_by_os c = returns (
    ok (
      schedule_persistent_work (if c.device_unlocked then 1000 else 15000) (not c.network_available)
        true))
directive_of waiting_condition c = returns (
    ok (
      schedule_persistent_work (if c.device_unlocked then 1000 else 15000) (not c.network_available)
        true))
directive_of waiting_approval c = panics
directive_of reconstructing c = panics
directive_of verifying_resume c = panics
directive_of completed c = panics
directive_of failed_recoverable c = panics

-- From the check of the resources on.
unfoldable pub by_resources : MobileContinuityState → ResourceSnapshot → WakeContext → Call
unfolding must_suspend directive_of
by_resources state resources c =
    if must_suspend resources then returns (ok checkpoint_and_suspend) else directive_of state c

-- From the check of the retry window on.
unfoldable pub by_retry :
    Option RetryBackoff → MobileContinuityState → ResourceSnapshot → WakeContext → Call
unfolding by_resources
by_retry none state resources c = by_resources state resources c
by_retry (some retry) state resources c =
    if ltb c.now_epoch_ms retry.not_before_epoch_ms
    then returns
        (ok (schedule_persistent_work (retry.not_before_epoch_ms - c.now_epoch_ms) false true))
    else if retry.base_delay_ms == 0 || ltb retry.max_delay_ms retry.base_delay_ms
    then returns (err invalid_retry_window)
    else by_resources state resources c

-- The choice by the bundle's state.
unfoldable pub by_state :
    MobileContinuityState
    → Option PendingApproval
    → Option RetryBackoff
    → ResourceSnapshot
    → WakeContext
    → Call
unfolding show_pending by_retry
by_state waiting_approval approval retry resources c = show_pending approval
by_state completed approval retry resources c = returns (ok no_eligible_work)
by_state failed_recoverable approval retry resources c = returns (ok no_eligible_work)
by_state reconstructing approval retry resources c = returns (ok verify_resume)
by_state verifying_resume approval retry resources c = returns (ok verify_resume)
by_state state approval retry resources c = by_retry retry state resources c

unfoldable pub choose_platform_directive :
    MobileContinuityBundle → ResourceSnapshot → WakeContext → Call
unfolding by_state
choose_platform_directive bundle resources c =
    by_state bundle.state bundle.pending_approval bundle.retry resources c
