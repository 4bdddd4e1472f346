-- ===== src/Policy/Evaluate/Passes.antt =====
-- `evaluate` allows exactly if every one of its checks passes.
use open_crate.Base.{◌≡◌, none, some, arith, ok}
use open_crate.Policy.{Action, Policy, LeaseFacts, Context, Obligations, Verdict}
use open_crate.Policy.Evaluate.{
  composed, check_understood, check_floor, check_binding, check_lease, check_tpm_clock,
  check_issued, check_network, check_elapsed, check_expiry, check_offline, check_validity,
  check_opens, check_rule, obligations, with_lease, evaluate,
}

-- Every check passes, under the policy `p` that is in force.
pub record Passes (author p : Policy) (l : LeaseFacts) (action : Action) (ctx : Context)
    : Type 0 where
  pub understood : check_understood p ≡ ok tt
  pub floor : check_floor ctx ≡ ok tt
  pub binding : check_binding p (some l) action ctx ≡ ok tt
  pub lease : check_lease l ctx ≡ ok tt
  pub tpm_clock : check_tpm_clock l ctx ≡ ok tt
  pub issued : check_issued l ctx ≡ ok tt
  pub network : check_network p l ctx ≡ ok tt
  pub elapsed : check_elapsed l ctx ≡ ok tt
  pub expiry : check_expiry l ctx ≡ ok tt
  pub offline : check_offline p l ctx ≡ ok tt
  pub validity : check_validity p ctx ≡ ok tt
  pub opens : check_opens p l ctx ≡ ok tt
  pub rule : check_rule author p action ≡ ok tt

-- The policy in force.
abbrev pub in_force : Policy → LeaseFacts → Policy
in_force author l = composed author l.server_policy

pub Passes-allow :
    (author : Policy) (l : LeaseFacts) (action : Action) (ctx : Context)
    → Passes author (in_force author l) l action ctx
    → evaluate author (some l) action ctx ≡ Verdict.allow (obligations (in_force author l))
unfolding evaluate with_lease
Passes-allow author l action ctx h = ground arith

evaluate-none :
    (author : Policy) (action : Action) (ctx : Context) {o : Obligations}
    → evaluate author none action ctx ≡ Verdict.allow o
    → ⊥
unfolding evaluate
evaluate-none author action ctx h = ground arith

pub allow-Passes :
    (author : Policy) (l : LeaseFacts) (action : Action) (ctx : Context) (o : Obligations)
    → evaluate author (some l) action ctx ≡ Verdict.allow o
    → Passes author (in_force author l) l action ctx × (o ≡ obligations (in_force author l))
unfolding evaluate with_lease
allow-Passes author l action ctx o h = ground arith
