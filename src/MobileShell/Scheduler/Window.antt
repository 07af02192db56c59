-- ===== src/MobileShell/Scheduler/Window.antt =====
-- crates/ntd-mobile-shell/src/scheduler.rs: the retry window, and the moments for which
-- `choose_platform_directive` plans work.
use ntd.Prelude.{
  ℕ, ◌+◌, ◌≤◌, ◌≡◌, ap, ◌∙◌, ltb, ◌||◌, ◌==◌, inl, inr, Bool-cases, Option, none, some, ok, arith,
}
use ntd.MobileShell.Continuity.{
  MobileContinuityState, interactive, active_execution, checkpointed, suspended_by_os,
  waiting_condition, waiting_approval, reconstructing, verifying_resume, completed,
  failed_recoverable, MobileContinuityBundle, PendingApproval, RetryBackoff,
}
use ntd.MobileShell.Scheduler.{
  ResourceSnapshot, WakeContext, PlatformDirective, keep_interactive, start_foreground_execution,
  schedule_persistent_work, Call, returns, must_suspend, show_pending, directive_of, by_resources,
  by_retry, by_state, choose_platform_directive,
}

-- The moment from which a directive lets the session work: at once, or behind the delay.
abbrev pub due : WakeContext → PlatformDirective → Option ℕ
due c keep_interactive = some c.now_epoch_ms
due c (start_foreground_execution reason) = some c.now_epoch_ms
due c (schedule_persistent_work delay_ms require_network persisted) =
    some (c.now_epoch_ms + delay_ms)
due c _ = none

abbrev pub due_of : WakeContext → Call → Option ℕ
due_of c (returns (ok d)) = due c d
due_of c _ = none

directive_of_due :
    (state : MobileContinuityState) (c : WakeContext) (t : ℕ)
    → due_of c (directive_of state c) ≡ some t
    → c.now_epoch_ms ≤ t
unfolding directive_of
directive_of_due state c t h = ground arith

by_resources_due :
    (state : MobileContinuityState) (r : ResourceSnapshot) (c : WakeContext) (t : ℕ)
    → due_of c (by_resources state r c) ≡ some t
    → c.now_epoch_ms ≤ t
unfolding by_resources
by_resources_due state r c t h = elim (Bool-cases (must_suspend r)) [
  | inl e ↦ let k = rw e at h in cc
  | inr e ↦ directive_of_due state c t (rw e at h)
]

by_retry_due :
    (retry : RetryBackoff) (state : MobileContinuityState) (r : ResourceSnapshot) (c : WakeContext)
    (t : ℕ)
    → due_of c (by_retry (some retry) state r c) ≡ some t
    → retry.not_before_epoch_ms ≤ t
unfolding by_retry
by_retry_due retry state r c t h =
    elim (Bool-cases (ltb c.now_epoch_ms retry.not_before_epoch_ms)) [
      | inl e ↦ let k = rw e at h in ground arith
      | inr e ↦
          let k = rw e at h in
          elim (Bool-cases
            (retry.base_delay_ms == 0 || ltb retry.max_delay_ms retry.base_delay_ms)) [
              | inl b ↦ let j = rw b at k in cc
              | inr b ↦
                  let l : c.now_epoch_ms ≤ t = by_resources_due state r c t (rw b at k) in
                  ground arith
            ]
    ]

-- If the session has a retry window, no directive lets it work before the window opens: neither at
-- once nor as scheduled work, whatever its state, the resources and the context.
pub choose_platform_directive-due :
    (bundle : MobileContinuityBundle) (r : ResourceSnapshot) (c : WakeContext)
    (retry : RetryBackoff) (d : PlatformDirective) (t : ℕ)
    → bundle.retry ≡ some retry
    → choose_platform_directive bundle r c ≡ returns (ok d)
    → due c d ≡ some t
    → retry.not_before_epoch_ms ≤ t
unfolding choose_platform_directive by_state show_pending
choose_platform_directive-due bundle r c retry d t e h k =
    opens bundle.state (rw e at (ap (due_of c) h ∙ k))
  where
    opens :
        (state : MobileContinuityState)
        → due_of c (by_state state bundle.pending_approval (some retry) r c) ≡ some t
        → retry.not_before_epoch_ms ≤ t
    opens interactive j = by_retry_due retry interactive r c t j
    opens active_execution j = by_retry_due retry active_execution r c t j
    opens checkpointed j = by_retry_due retry checkpointed r c t j
    opens suspended_by_os j = by_retry_due retry suspended_by_os r c t j
    opens waiting_condition j = by_retry_due retry waiting_condition r c t j
    opens waiting_approval j = asks bundle.pending_approval j
      where
        asks :
            (approval : Option PendingApproval)
            → due_of c (show_pending approval) ≡ some t
            → retry.not_before_epoch_ms ≤ t
        asks none i = cc
        asks (some a) i = cc
    opens reconstructing j = cc
    opens verifying_resume j = cc
    opens completed j = cc
    opens failed_recoverable j = cc
