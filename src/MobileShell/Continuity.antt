-- ===== src/MobileShell/Continuity.antt =====
-- crates/ntd-mobile-shell/src/continuity.rs: the continuity bundle and its retry window. The
-- bundle's encoding is not modelled.
use ntd.Prelude.{
  ℕ, ◌*◌, ◌^◌, ◌≤◌, ◌≡◌, subst, Text, false, ◌||◌, ◌==◌, ltb, Option, List, Result, ok, err, refuse,
  refuse_ok, min, if◌then◌else◌, arith,
}
use native.Mathlib.Nat.{mul-le-mul_left, one-le-pow}
use ntd.Prelude.Words.{saturating_mul_u64, u64_max}
use ntd.Capability.Descriptor.{CapabilityDescriptor}
use ntd.Capability.Action.{Bytes}

pub data MobileContinuityState : Type 0 where
  interactive active_execution checkpointed suspended_by_os waiting_condition waiting_approval
        reconstructing verifying_resume completed failed_recoverable :
      MobileContinuityState

pub data WakeReason : Type 0 where
  user_interaction foreground_execution scheduled_work retry_backoff reboot approval_resolved
        network_available charging manual_recovery :
      WakeReason

pub data MobileContinuityError : Type 0 where
  truncated invalid_magic invalid_header : MobileContinuityError
  unsupported_version : (major minor : ℕ) → MobileContinuityError
  invalid_utf8 : MobileContinuityError
  invalid_boolean invalid_continuity_state invalid_wake_reason : ℕ → MobileContinuityError
  non_canonical_encoding invalid_identity invalid_retry_backoff invalid_approval :
      MobileContinuityError
  task_action_mismatch : (task_id : ℕ) → MobileContinuityError
  overflow : MobileContinuityError
  cognitive_checkpoint action_checkpoint : Text → MobileContinuityError

unfoldable pub continuity_state_try_from : ℕ → Result MobileContinuityError MobileContinuityState
continuity_state_try_from value =
    if value == 1
    then ok interactive
    else if value == 2
    then ok active_execution
    else if value == 3
    then ok checkpointed
    else if value == 4
    then ok suspended_by_os
    else if value == 5
    then ok waiting_condition
    else if value == 6
    then ok waiting_approval
    else if value == 7
    then ok reconstructing
    else if value == 8
    then ok verifying_resume
    else if value == 9
    then ok completed
    else if value == 10
    then ok failed_recoverable
    else err (invalid_continuity_state value)

unfoldable pub wake_reason_try_from : ℕ → Result MobileContinuityError WakeReason
wake_reason_try_from value =
    if value == 1
    then ok user_interaction
    else if value == 2
    then ok foreground_execution
    else if value == 3
    then ok scheduled_work
    else if value == 4
    then ok retry_backoff
    else if value == 5
    then ok reboot
    else if value == 6
    then ok approval_resolved
    else if value == 7
    then ok network_available
    else if value == 8
    then ok charging
    else if value == 9
    then ok manual_recovery
    else err (invalid_wake_reason value)

pub record PendingApproval : Type 0 where
  pub task_id : ℕ
  pub plan_id : ℕ
  pub action_id : ℕ
  pub capability : Text
  pub rationale : Text

pub record RetryBackoff : Type 0 where
  pub attempts : ℕ
  pub not_before_epoch_ms : ℕ
  pub base_delay_ms : ℕ
  pub max_delay_ms : ℕ

-- `1u64 << exponent` does not overflow, since the exponent is at most 20.
unfoldable pub next_delay_ms : RetryBackoff → ℕ
next_delay_ms r = min (saturating_mul_u64 r.base_delay_ms (2 ^ min r.attempts 20)) r.max_delay_ms

unfoldable pub validate_retry : RetryBackoff → Result MobileContinuityError (Unit {0})
validate_retry r =
    refuse (r.base_delay_ms == 0 || ltb r.max_delay_ms r.base_delay_ms) invalid_retry_backoff

-- The identity is that of cognition.rs, 16 bytes.
pub record MobileContinuityBundle : Type 0 where
  pub identity : Bytes
  pub state : MobileContinuityState
  pub wake_reason : WakeReason
  pub checkpoint_sequence : ℕ
  pub cognitive_checkpoint : Bytes
  pub action_checkpoint : Bytes
  pub capabilities : List CapabilityDescriptor
  pub pending_approval : Option PendingApproval
  pub retry : Option RetryBackoff

scaled : (base e : ℕ) → base ≤ base * 2 ^ e
scaled base e =
    subst (λ n. n ≤ base * 2 ^ e) (omega arith)
      (mul-le-mul_left base (one-le-pow e 2 (omega arith)))

-- If the retry window is valid and its base delay fits into 64 bits, the delay is between the base
-- and the maximal delay.
pub next_delay_ms_bounds :
    (r : RetryBackoff)
    → r.base_delay_ms ≤ u64_max
    → validate_retry r ≡ ok tt
    → (r.base_delay_ms ≤ next_delay_ms r) × (next_delay_ms r ≤ r.max_delay_ms)
unfolding next_delay_ms validate_retry
next_delay_ms_bounds r small h =
    let refused =
      refuse_ok (r.base_delay_ms == 0 || ltb r.max_delay_ms r.base_delay_ms) invalid_retry_backoff
        h in
    bounds (2 ^ min r.attempts 20) (scaled r.base_delay_ms (min r.attempts 20)) (window refused)
  where
    window :
        (r.base_delay_ms == 0 || ltb r.max_delay_ms r.base_delay_ms) ≡ false
        → r.base_delay_ms ≤ r.max_delay_ms
    window k = ground arith

    bounds :
        (n : ℕ)
        → r.base_delay_ms ≤ r.base_delay_ms * n
        → r.base_delay_ms ≤ r.max_delay_ms
        → (r.base_delay_ms ≤ min (saturating_mul_u64 r.base_delay_ms n) r.max_delay_ms)
          × (min (saturating_mul_u64 r.base_delay_ms n) r.max_delay_ms ≤ r.max_delay_ms)
    bounds n large k = (omega (arith, large, k, small), omega arith)
