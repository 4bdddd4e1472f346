-- ===== src/Policy/Evaluate.antt =====
-- `evaluate` of crates/oc-policy/src/lib.rs. Each early `return Verdict::Deny(r)` is an `err r`, and
-- the checks run in the order of the source; the ones that stand together are a function.
pub mod Passes
pub mod Checks
pub mod Same
pub mod Granted
use open_crate.Base.{
  ℕ, ◌+◌, ◌-◌, ◌*◌, ◌^◌, Bool, true, false, not, ◌||◌, Option, none, some, List, [], ◌∷◌, ltb, leb,
  if◌then◌else◌, Result, ok, err, ◌>>=◌, ◌>>◌, fail_if, ok_or,
}
use open_crate.Base.Words
use open_crate.Base.Int.{ℤ, pos, pos_part, ltb_ℤ, saturating_sub, saturating_add}
use open_crate.Policy.{
  Action, screenshot, Validity, always, window, from_first_open, Network, strict_online, Policy,
  TpmClock, DeviceClock, read, absent, unreadable, LeaseFacts, Context, Obligations, DenyReason,
  Verdict, action_not_permitted, action_tightened_by_server, policy_not_fully_understood,
  clock_rollback, lease_rollback, tpm_clock_rollback, tpm_clock_missing, tpm_clock_unreadable,
  hardware_clock_outran_wall_clock, not_yet_valid, expired, open_limit_reached,
  offline_not_permitted, no_lease, wrong_device, policy_hash_mismatch, binding_too_weak,
  lease_issued_in_the_future, lease_outlives_policy, offline_too_long, first_open_not_recorded,
  max_clock_skew_seconds,
}
use open_crate.Policy.Digest.{digest_eq}
use open_crate.Policy.Rules.{rule, is_allow, level, binding_for, effective_binding}
use open_crate.Policy.Intersect.{intersect}

abbrev Check : Type 0
Check = Result DenyReason (Unit {0})

abbrev pass : Check
pass = ok tt

-- `lease.and_then(|l| l.server_policy.as_ref())`
abbrev server_policy_of : Option LeaseFacts → Option Policy
server_policy_of none = none
server_policy_of (some l) = l.server_policy

abbrev pub composed : Policy → Option Policy → Policy
composed author none = author
composed author (some server) = intersect author server

abbrev first_unknown : List ℕ → Check
first_unknown [] = pass
first_unknown (u ∷ us) = err (policy_not_fully_understood u)

unfoldable pub check_understood : Policy → Check
check_understood p = first_unknown p.unknown_actions

unfoldable pub check_floor : Context → Check
check_floor ctx = fail_if (ltb_ℤ ctx.now ctx.monotonic_floor) clock_rollback

unfoldable pub check_binding : Policy → Option LeaseFacts → Action → Context → Check
check_binding p lease action ctx =
    let required = binding_for p action in
    let actual = effective_binding ctx.device.binding lease in
    fail_if (ltb (level actual) (level required)) (binding_too_weak required actual)

-- The lease is not revoked, and is for this device, these rules and no older than one seen.
unfoldable pub check_lease : LeaseFacts → Context → Check
check_lease l ctx = do
  fail_if l.revoked DenyReason.revoked
  fail_if (not (digest_eq l.device_fingerprint ctx.device.fingerprint)) wrong_device
  fail_if (not (digest_eq l.policy_hash ctx.policy_hash)) policy_hash_mismatch
  fail_if (ltb l.seq ctx.highest_seq_seen) (lease_rollback ctx.highest_seq_seen l.seq)

abbrev presented_clock : DeviceClock → Result DenyReason TpmClock
presented_clock (read c) = ok c
presented_clock absent = err tpm_clock_missing
presented_clock unreadable = err tpm_clock_unreadable

clock_after : TpmClock → TpmClock → Check
clock_after issued presented =
    fail_if (ltb presented.clock_ms issued.clock_ms || ltb presented.reset_count issued.reset_count)
      (tpm_clock_rollback issued presented)

abbrev tpm_clock_at : Option TpmClock → DeviceClock → Check
tpm_clock_at none device = pass
tpm_clock_at (some issued) device = presented_clock device >>= clock_after issued

unfoldable pub check_tpm_clock : LeaseFacts → Context → Check
unfolding clock_after
check_tpm_clock l ctx = tpm_clock_at l.tpm_clock ctx.device.tpm_clock

unfoldable pub check_issued : LeaseFacts → Context → Check
check_issued l ctx =
    fail_if (ltb_ℤ (pos max_clock_skew_seconds) (saturating_sub l.issued_at ctx.now))
      (lease_issued_in_the_future l.issued_at ctx.now)

abbrev pub network_at : Network → LeaseFacts → Context → Check
network_at strict_online l ctx = fail_if (not ctx.online) offline_not_permitted
network_at (Network.lease seconds offline) l ctx =
    let granted = saturating_sub l.expires_at l.issued_at in
    fail_if (ltb_ℤ granted (pos 0) || ltb_ℤ seconds granted) (lease_outlives_policy seconds granted)

unfoldable pub check_network : Policy → LeaseFacts → Context → Check
check_network p l ctx = network_at p.network l ctx

-- `DeviceClock::reading`
abbrev pub reading : DeviceClock → Option TpmClock
reading (read c) = some c
reading absent = none
reading unreadable = none

elapsed_at : LeaseFacts → Context → Option TpmClock → Option TpmClock → Check
unfolding Words.saturating_mul Words.saturating_add
elapsed_at l ctx none presented = pass
elapsed_at l ctx (some issued) none = pass
elapsed_at l ctx (some issued) (some presented) =
    let hardware_ms = presented.clock_ms - issued.clock_ms in
    let wall_ms = Words.saturating_mul (pos_part (saturating_sub ctx.now l.issued_at)) 1000 in
    let slack_ms = Words.saturating_mul max_clock_skew_seconds 1000 in
    fail_if (ltb (Words.saturating_add wall_ms slack_ms) hardware_ms)
      (hardware_clock_outran_wall_clock hardware_ms wall_ms)

-- Hardware elapsed time against wall elapsed time. `u64::try_from(i).unwrap_or(0)` is `pos_part i`.
unfoldable pub check_elapsed : LeaseFacts → Context → Check
unfolding elapsed_at
check_elapsed l ctx = elapsed_at l ctx l.tpm_clock (reading ctx.device.tpm_clock)

unfoldable pub check_expiry : LeaseFacts → Context → Check
check_expiry l ctx = fail_if (ltb_ℤ l.expires_at ctx.now) expired

abbrev pub offline_at : Network → Bool → ℤ → Check
offline_at (Network.lease seconds max_offline) false elapsed =
    fail_if (ltb_ℤ max_offline elapsed) (offline_too_long max_offline elapsed)
offline_at (Network.lease seconds max_offline) true elapsed = pass
offline_at strict_online online elapsed = pass

unfoldable pub check_offline : Policy → LeaseFacts → Context → Check
check_offline p l ctx = offline_at p.network ctx.online (saturating_sub ctx.now l.issued_at)

abbrev pub first_open : ℤ → Option ℤ → Context → Check
first_open seconds (some first) ctx = fail_if (ltb_ℤ (saturating_add first seconds) ctx.now) expired
first_open seconds none ctx = fail_if (not ctx.online) first_open_not_recorded

abbrev pub validity_at : Validity → Context → Check
validity_at always ctx = pass
validity_at (window not_before not_after) ctx =
    fail_if (ltb_ℤ ctx.now not_before) not_yet_valid >> fail_if (ltb_ℤ not_after ctx.now) expired
validity_at (from_first_open seconds) ctx = first_open seconds ctx.first_open_at ctx

unfoldable pub check_validity : Policy → Context → Check
check_validity p ctx = validity_at p.validity ctx

abbrev pub limit_at : Option ℕ → ℕ → Check
limit_at none opens = pass
limit_at (some most) opens = fail_if (leb most opens) open_limit_reached

unfoldable pub check_opens : Policy → LeaseFacts → Context → Check
check_opens p l ctx =
    limit_at p.max_opens ctx.opens_so_far >> limit_at l.opens_remaining ctx.opens_under_lease

unfoldable pub check_rule : Policy → Policy → Action → Check
check_rule author p action = fail_if (not (is_allow (rule p action))) (
    if is_allow (rule author action)
    then action_tightened_by_server action
    else action_not_permitted action)

unfoldable pub obligations : Policy → Obligations
obligations p = record {
  watermark = p.watermark;
  block_screen_capture = not (is_allow (rule p screenshot));
  suppress_crash_dumps = true;
}

-- The checks that need a lease, under the policy `p` that is in force.
unfoldable pub with_lease :
    Policy → Policy → LeaseFacts → Action → Context → Result DenyReason Obligations
with_lease author p l action ctx = do
  check_lease l ctx
  check_tpm_clock l ctx
  check_issued l ctx
  check_network p l ctx
  check_elapsed l ctx
  check_expiry l ctx
  check_offline p l ctx
  check_validity p ctx
  check_opens p l ctx
  check_rule author p action
  ok (obligations p)

pub decide : Policy → Option LeaseFacts → Action → Context → Result DenyReason Obligations
decide author lease action ctx = do
  let p = composed author (server_policy_of lease)
  check_understood p
  check_floor ctx
  check_binding p lease action ctx
  l ← ok_or lease no_lease
  with_lease author p l action ctx

abbrev pub verdict : Result DenyReason Obligations → Verdict
verdict (ok o) = Verdict.allow o
verdict (err r) = Verdict.deny r

unfoldable pub evaluate : Policy → Option LeaseFacts → Action → Context → Verdict
unfolding decide
evaluate policy lease action ctx = verdict (decide policy lease action ctx)
