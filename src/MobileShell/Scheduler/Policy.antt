-- ===== src/MobileShell/Scheduler/Policy.antt =====
-- What the choice of a directive guarantees.
use ntd.Prelude.{
  ℕ, ◌-◌, ◌<◌, ◌≡◌, ◌≢◌, ap, ◌∙◌, refl, Bool, true, false, ◌||◌, ◌&&◌, not, ltb, leb, ◌==◌, ◌⊎◌,
  Option, none, some, ok, err, if◌then◌else◌, arith,
}
use ntd.MobileShell.Continuity.{
  MobileContinuityState, interactive, active_execution, checkpointed, suspended_by_os,
  waiting_condition, waiting_approval, reconstructing, verifying_resume, completed,
  failed_recoverable, MobileContinuityBundle, PendingApproval, RetryBackoff,
}
use ntd.MobileShell.Scheduler.{
  ThermalState, nominal, warm, hot, critical, is_critical, ResourceSnapshot, WakeContext,
  PlatformDirective, keep_interactive, start_foreground_execution, checkpoint_and_suspend,
  schedule_persistent_work, Call, returns, panics, must_suspend, show_pending, directive_of,
  by_resources, by_retry, by_state, invalid_retry_window, choose_platform_directive,
}

-- The states for which the retry window and the resources are looked at.
abbrev pub is_runnable : MobileContinuityState → Bool
is_runnable interactive = true
is_runnable active_execution = true
is_runnable checkpointed = true
is_runnable suspended_by_os = true
is_runnable waiting_condition = true
is_runnable _ = false

directive_of_returns :
    (state : MobileContinuityState) (c : WakeContext)
    → is_runnable state ≡ true
    → directive_of state c ≢ panics
unfolding directive_of
directive_of_returns state c h k = ground arith

by_retry_returns :
    (retry : Option RetryBackoff) (state : MobileContinuityState) (r : ResourceSnapshot)
    (c : WakeContext)
    → is_runnable state ≡ true
    → by_retry retry state r c ≢ panics
unfolding by_retry by_resources
by_retry_returns none state r c h k = ground (arith, directive_of_returns state c h)
by_retry_returns (some retry) state r c h k = ground (arith, directive_of_returns state c h)

by_state_returns :
    (state : MobileContinuityState) (approval : Option PendingApproval)
    (retry : Option RetryBackoff) (r : ResourceSnapshot) (c : WakeContext)
    → by_state state approval retry r c ≢ panics
unfolding by_state show_pending
by_state_returns interactive approval retry r c h = by_retry_returns retry interactive r c refl h
by_state_returns active_execution approval retry r c h =
    by_retry_returns retry active_execution r c refl h
by_state_returns checkpointed approval retry r c h = by_retry_returns retry checkpointed r c refl h
by_state_returns suspended_by_os approval retry r c h =
    by_retry_returns retry suspended_by_os r c refl h
by_state_returns waiting_condition approval retry r c h =
    by_retry_returns retry waiting_condition r c refl h
by_state_returns waiting_approval none retry r c h = cc
by_state_returns waiting_approval (some a) retry r c h = cc
by_state_returns reconstructing approval retry r c h = cc
by_state_returns verifying_resume approval retry r c h = cc
by_state_returns completed approval retry r c h = cc
by_state_returns failed_recoverable approval retry r c h = cc

-- `choose_platform_directive` returns for every bundle: its `unreachable!` is not reached.
pub choose_platform_directive_returns :
    (bundle : MobileContinuityBundle) (r : ResourceSnapshot) (c : WakeContext)
    → choose_platform_directive bundle r c ≢ panics
unfolding choose_platform_directive
choose_platform_directive_returns bundle r c =
    by_state_returns bundle.state bundle.pending_approval bundle.retry r c

abbrev pub is_foreground : PlatformDirective → Bool
is_foreground keep_interactive = true
is_foreground (start_foreground_execution reason) = true
is_foreground _ = false

abbrev pub is_foreground_call : Call → Bool
is_foreground_call (returns (ok d)) = is_foreground d
is_foreground_call _ = false

by_resources_foreground :
    (state : MobileContinuityState) (r : ResourceSnapshot) (c : WakeContext)
    → is_foreground_call (by_resources state r c) ≡ true
    → must_suspend r ≡ false
unfolding by_resources
by_resources_foreground state r c h = split (must_suspend r) h
  where
    split :
        (b : Bool)
        → is_foreground_call
            (if b then returns (ok checkpoint_and_suspend) else directive_of state c)
          ≡ true
        → b ≡ false
    split true k = cc
    split false k = refl

by_retry_foreground :
    (retry : Option RetryBackoff) (state : MobileContinuityState) (r : ResourceSnapshot)
    (c : WakeContext)
    → is_foreground_call (by_retry retry state r c) ≡ true
    → must_suspend r ≡ false
unfolding by_retry
by_retry_foreground none state r c h = by_resources_foreground state r c h
by_retry_foreground (some retry) state r c h = by_resources_foreground state r c (
    split (ltb c.now_epoch_ms retry.not_before_epoch_ms)
      (retry.base_delay_ms == 0 || ltb retry.max_delay_ms retry.base_delay_ms) h)
  where
    split :
        (a b : Bool)
        → is_foreground_call (
            if a
            then returns (
                ok (
                  schedule_persistent_work (retry.not_before_epoch_ms - c.now_epoch_ms) false true))
            else if b
            then returns (err invalid_retry_window)
            else by_resources state r c)
          ≡ true
        → is_foreground_call (by_resources state r c) ≡ true
    split true b k = cc
    split false true k = cc
    split false false k = k

by_state_foreground :
    (state : MobileContinuityState) (approval : Option PendingApproval)
    (retry : Option RetryBackoff) (r : ResourceSnapshot) (c : WakeContext)
    → is_foreground_call (by_state state approval retry r c) ≡ true
    → must_suspend r ≡ false
unfolding by_state show_pending
by_state_foreground interactive approval retry r c h = by_retry_foreground retry interactive r c h
by_state_foreground active_execution approval retry r c h =
    by_retry_foreground retry active_execution r c h
by_state_foreground checkpointed approval retry r c h = by_retry_foreground retry checkpointed r c h
by_state_foreground suspended_by_os approval retry r c h =
    by_retry_foreground retry suspended_by_os r c h
by_state_foreground waiting_condition approval retry r c h =
    by_retry_foreground retry waiting_condition r c h
by_state_foreground waiting_approval none retry r c h = cc
by_state_foreground waiting_approval (some a) retry r c h = cc
by_state_foreground reconstructing approval retry r c h = cc
by_state_foreground verifying_resume approval retry r c h = cc
by_state_foreground completed approval retry r c h = cc
by_state_foreground failed_recoverable approval retry r c h = cc

suspends_not :
    (t : ThermalState) (charging : Bool) (battery : ℕ)
    → (is_critical t || (not charging && leb battery 5)) ≡ false
    → (t ≢ critical) × ((charging ≡ true) ⊎ (5 < battery))
suspends_not critical charging battery h = cc
suspends_not nominal charging battery h = (λ e. ground arith, ground arith)
suspends_not warm charging battery h = (λ e. ground arith, ground arith)
suspends_not hot charging battery h = (λ e. ground arith, ground arith)

-- If the directive is to stay interactive or to execute in the foreground, the device is not
-- thermally critical, and it is charging or has more than 5 percent of its battery left.
pub choose_platform_directive_foreground :
    (bundle : MobileContinuityBundle) (r : ResourceSnapshot) (c : WakeContext)
    (d : PlatformDirective)
    → choose_platform_directive bundle r c ≡ returns (ok d)
    → is_foreground d ≡ true
    → (r.thermal ≢ critical) × ((r.charging ≡ true) ⊎ (5 < r.battery_percent))
unfolding choose_platform_directive must_suspend
choose_platform_directive_foreground bundle r c d h f =
    suspends_not r.thermal r.charging r.battery_percent (
      by_state_foreground bundle.state bundle.pending_approval bundle.retry r c
        (ap is_foreground_call h ∙ f))
