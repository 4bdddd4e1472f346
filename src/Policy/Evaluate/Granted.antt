-- ===== src/Policy/Evaluate/Granted.antt =====
-- The access decision against a description of it in exact integers.
use open_crate.Base.{◌≤◌, ◌≡◌, ◌↔◌, some, []}
use open_crate.Base.Int.{pos, ◌≤ℤ◌, IsI64}
use open_crate.Policy.{Action, Rule, Policy, LeaseFacts, Context, Obligations, Verdict}
use open_crate.Policy.Rules.{rule, level, binding_for, effective_binding}
use open_crate.Policy.Evaluate.{obligations, evaluate}
use open_crate.Policy.Evaluate.Passes.{Passes, in_force, Passes-allow, allow-Passes}
use open_crate.Policy.Evaluate.Checks.{
  Within, ClockHolds, ElapsedHolds, NetworkHolds, OfflineHolds, ValidityHolds, LimitHolds,
  LeaseHolds, Digests, NetworkBounded, ClocksBounded, check_understood_iff, check_floor_iff,
  check_binding_iff, check_lease_iff, check_tpm_clock_iff, check_issued_iff, check_network_iff,
  check_elapsed_iff, check_expiry_iff, check_offline_iff, check_validity_iff, check_opens_iff,
  check_rule_iff,
}

-- The facts permit the action under the policy `p`.
pub record Granted (p : Policy) (l : LeaseFacts) (action : Action) (ctx : Context) : Type 0 where
  pub understood : p.unknown_actions ≡ []
  pub floor : ctx.monotonic_floor ≤ℤ ctx.now
  pub binding : level (binding_for p action) ≤ level (effective_binding ctx.device.binding (some l))
  pub lease : LeaseHolds l ctx
  pub tpm_clock : ClockHolds l.tpm_clock ctx.device.tpm_clock
  pub issued : Within l.issued_at ctx.now (pos 300)
  pub network : NetworkHolds p.network l ctx.online
  pub elapsed : ElapsedHolds l.tpm_clock ctx.device.tpm_clock ctx.now l.issued_at
  pub expiry : ctx.now ≤ℤ l.expires_at
  pub offline : OfflineHolds p.network l ctx.online ctx.now
  pub validity : ValidityHolds p.validity ctx.first_open_at ctx.online ctx.now
  pub opens :
      LimitHolds p.max_opens ctx.opens_so_far × LimitHolds l.opens_remaining ctx.opens_under_lease
  pub rule : rule p action ≡ Rule.allow

-- The numbers are machine integers and the digests are 32 bytes.
pub record InputsInRange (p : Policy) (l : LeaseFacts) (ctx : Context) : Type 0 where
  pub digests : Digests l ctx
  pub now : IsI64 ctx.now
  pub network : NetworkBounded p.network
  pub clocks : ClocksBounded l.tpm_clock ctx.device.tpm_clock

module _ (author : Policy) (l : LeaseFacts) (action : Action) (ctx : Context) where
  abbrev p : Policy
  p = in_force author l

  Passes-Granted :
      InputsInRange (in_force author l) l ctx
      → Passes author (in_force author l) l action ctx
      → Granted (in_force author l) l action ctx
  Passes-Granted r h = record {
    understood = (check_understood_iff p).0 h.understood;
    floor = (check_floor_iff ctx).0 h.floor;
    binding = (check_binding_iff p (some l) action ctx).0 h.binding;
    lease = (check_lease_iff l ctx r.digests).0 h.lease;
    tpm_clock = (check_tpm_clock_iff l ctx).0 h.tpm_clock;
    issued = (check_issued_iff l ctx).0 h.issued;
    network = (check_network_iff p l ctx r.network).0 h.network;
    elapsed = (check_elapsed_iff l ctx r.clocks).0 h.elapsed;
    expiry = (check_expiry_iff l ctx).0 h.expiry;
    offline = (check_offline_iff p l ctx r.network).0 h.offline;
    validity = (check_validity_iff p ctx r.now).0 h.validity;
    opens = (check_opens_iff p l ctx).0 h.opens;
    rule = (check_rule_iff author p action).0 h.rule;
  }

  Granted-Passes :
      InputsInRange (in_force author l) l ctx
      → Granted (in_force author l) l action ctx
      → Passes author (in_force author l) l action ctx
  Granted-Passes r h = record {
    understood = (check_understood_iff p).1 h.understood;
    floor = (check_floor_iff ctx).1 h.floor;
    binding = (check_binding_iff p (some l) action ctx).1 h.binding;
    lease = (check_lease_iff l ctx r.digests).1 h.lease;
    tpm_clock = (check_tpm_clock_iff l ctx).1 h.tpm_clock;
    issued = (check_issued_iff l ctx).1 h.issued;
    network = (check_network_iff p l ctx r.network).1 h.network;
    elapsed = (check_elapsed_iff l ctx r.clocks).1 h.elapsed;
    expiry = (check_expiry_iff l ctx).1 h.expiry;
    offline = (check_offline_iff p l ctx r.network).1 h.offline;
    validity = (check_validity_iff p ctx r.now).1 h.validity;
    opens = (check_opens_iff p l ctx).1 h.opens;
    rule = (check_rule_iff author p action).1 h.rule;
  }

-- With inputs in the range of their types, `evaluate` on a lease allows the action with the
-- obligations `o` exactly if `o` are the obligations of the policy in force (the author's, or its
-- intersection with the lease's server policy) and the facts permit the action under that policy.
pub evaluate-allow_iff :
    (author : Policy) (l : LeaseFacts) (action : Action) (ctx : Context) (o : Obligations)
    → InputsInRange (in_force author l) l ctx
    → (evaluate author (some l) action ctx ≡ Verdict.allow o)
      ↔ ((o ≡ obligations (in_force author l)) × Granted (in_force author l) l action ctx)
evaluate-allow_iff author l action ctx o r = (
  λ h.
      let (passes, obliged) = allow-Passes author l action ctx o h in
      (obliged, Passes-Granted author l action ctx r passes),
  λ (obliged, granted).
      rw obliged (Passes-allow author l action ctx (Granted-Passes author l action ctx r granted)),
)
