-- ===== src/Policy/Evaluate/Same.antt =====
-- `evaluate` of crates/oc-policy/src/lib.rs reads of a policy of the server no more than what it says.
use open_crate.Base.{◌≡◌, refl, Option, none, some}
use open_crate.Policy.{
  Action, screenshot, Policy, Network, strict_online, TpmClock, Binding, software, hardware,
  hardware_attested, LeaseFacts, Context,
}
use open_crate.Policy.Rules.{effective_binding}
use open_crate.Policy.Intersect.{intersect}
use open_crate.Policy.Intersect.Cong.{intersect-SamePolicy}
use open_crate.Policy.Intersect.Order.{SamePolicy}
use open_crate.Policy.Evaluate.{
  network_at, elapsed_at, reading, evaluate, decide, with_lease, check_understood, check_binding,
  check_network, check_offline, check_validity, check_opens, check_rule, obligations, check_lease,
  check_tpm_clock, check_issued, check_elapsed, check_expiry,
}

abbrev pub under : LeaseFacts → Option Policy → LeaseFacts
under l p = record l { server_policy = p }

network_same :
    (n : Network) (l : LeaseFacts) (s t : Option Policy) (ctx : Context)
    → network_at n (under l s) ctx ≡ network_at n (under l t) ctx
network_same strict_online l s t ctx = refl
network_same (Network.lease seconds offline) l s t ctx = refl

elapsed_same :
    (l : LeaseFacts) (s t : Option Policy) (ctx : Context) (issued presented : Option TpmClock)
    → elapsed_at (under l s) ctx issued presented ≡ elapsed_at (under l t) ctx issued presented
unfolding elapsed_at
elapsed_same l s t ctx none presented = refl
elapsed_same l s t ctx (some c) none = refl
elapsed_same l s t ctx (some c) (some d) = refl

effective_same :
    (b : Binding) (l : LeaseFacts) (s t : Option Policy)
    → effective_binding b (some (under l s)) ≡ effective_binding b (some (under l t))
unfolding effective_binding
effective_same software l s t = refl
effective_same hardware l s t = refl
effective_same hardware_attested l s t = refl

with_lease_same :
    (author p q : Policy) (l : LeaseFacts) (s t : Option Policy) (a : Action) (ctx : Context)
    → SamePolicy p q
    → with_lease author p (under l s) a ctx ≡ with_lease author q (under l t) a ctx
unfolding with_lease check_lease check_tpm_clock check_issued check_network check_elapsed
    check_expiry check_offline check_validity check_opens check_rule obligations
with_lease_same author p q l s t a ctx h =
    rw
      (
        h.rules a,
        h.rules screenshot,
        h.validity,
        h.max_opens,
        h.network,
        h.watermark,
        network_same q.network l s t ctx,
        elapsed_same l s t ctx l.tpm_clock (reading ctx.device.tpm_clock),
      )
      refl

binding_same :
    (p q : Policy) (l : LeaseFacts) (s t : Option Policy) (a : Action) (ctx : Context)
    → SamePolicy p q
    → check_binding p (some (under l s)) a ctx ≡ check_binding q (some (under l t)) a ctx
unfolding check_binding
binding_same p q l s t a ctx h = rw (h.bindings a, effective_same ctx.device.binding l s t) refl

understood_same : (p q : Policy) → SamePolicy p q → check_understood p ≡ check_understood q
unfolding check_understood
understood_same p q h = rw (h.unknown) refl

-- For a lease whose policy is exchanged for one that says the same, `evaluate` gives the same verdict.
pub evaluate_same :
    (author p q : Policy) (l : LeaseFacts) (a : Action) (ctx : Context)
    → SamePolicy p q
    → evaluate author (some (under l (some p))) a ctx
      ≡ evaluate author (some (under l (some q))) a ctx
unfolding evaluate decide
evaluate_same author p q l a ctx h =
    let same = intersect-SamePolicy author p q h in
    let m = intersect author p in
    let n = intersect author q in
    rw
      (
        understood_same m n same,
        binding_same m n l (some p) (some q) a ctx same,
        with_lease_same author m n l (some p) (some q) a ctx same,
      )
      refl
