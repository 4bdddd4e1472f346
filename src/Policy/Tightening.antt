-- ===== src/Policy/Tightening.antt =====
-- A lease that carries a server policy against the same lease without it: `evaluate` and
-- `intersect` of crates/oc-policy/src/lib.rs together.
use open_crate.Base.{◌≡◌, ◌≢◌, refl, true, ◌⊎◌, none, some, arith, ok, ◌∙◌}
use open_crate.Base.Int.{ℤ, ltb_ℤ, saturating_sub}
use open_crate.Policy.{
  Action, Network, strict_online, Policy, LeaseFacts, Context, Obligations, Verdict,
  lease_outlives_policy,
}
use open_crate.Policy.Sets.{union_empty}
use open_crate.Policy.Rules.{binding_for, effective_binding, level-binding_max-left}
use open_crate.Policy.Intersect.{intersect}
use open_crate.Policy.Intersect.Meet.{binding_for-intersect}
use open_crate.Policy.Evaluate.{
  check_understood, check_binding, check_lease, check_tpm_clock, check_issued, check_network,
  with_lease, evaluate,
}
use open_crate.Policy.Evaluate.Passes.{Passes, allow-Passes}

-- The lease without the server's policy.
abbrev pub untightened : LeaseFacts → LeaseFacts
untightened l = record l { server_policy = none }

-- An intersection never lifts the limit on the lease's length: the author set none, or the server
-- sets one too.
abbrev KeepsLeaseLimit : Policy → Policy → Type 0
KeepsLeaseLimit author server = (author.network ≡ strict_online) ⊎ (server.network ≢ strict_online)

module _ (author server : Policy) where
  understood_author :
      check_understood (intersect author server) ≡ ok tt → check_understood author ≡ ok tt
  unfolding check_understood intersect
  understood_author h = ground (arith, union_empty author.unknown_actions server.unknown_actions)

  binding_author :
      (l l' : LeaseFacts) (a : Action) (ctx : Context)
      → l'.attested ≡ l.attested
      → check_binding (intersect author server) (some l) a ctx ≡ ok tt
      → check_binding author (some l') a ctx ≡ ok tt
  unfolding check_binding effective_binding
  binding_author l l' a ctx e h = ground (
    arith,
    binding_for-intersect author server a,
    level-binding_max-left (binding_for author a) (binding_for server a),
  )

-- The lease with a server policy.
abbrev pub tightened : Policy → LeaseFacts → LeaseFacts
tightened server l = record l { server_policy = some server }

-- The checks of the lease itself do not read its server policy.
record SameLease (server : Policy) (l : LeaseFacts) (ctx : Context) : Type 0 where
  lease : check_lease (untightened l) ctx ≡ check_lease (tightened server l) ctx
  tpm_clock : check_tpm_clock (untightened l) ctx ≡ check_tpm_clock (tightened server l) ctx
  issued : check_issued (untightened l) ctx ≡ check_issued (tightened server l) ctx

same_lease : (server : Policy) (l : LeaseFacts) (ctx : Context) → SameLease server l ctx
unfolding check_lease check_tpm_clock check_issued
same_lease server l ctx = record { lease = refl; tpm_clock = refl; issued = refl }

-- Where `evaluate` allows with a server policy, and the author limits the length of a lease to less
-- than this lease has, then without the server policy it denies, for just that reason.
pub strict_server_lifts_limit :
    (author server : Policy) (l : LeaseFacts) (action : Action) (ctx : Context) (o : Obligations)
    {seconds offline : ℤ}
    → author.network ≡ Network.lease seconds offline
    → ltb_ℤ seconds (saturating_sub l.expires_at l.issued_at) ≡ true
    → evaluate author (some (tightened server l)) action ctx ≡ Verdict.allow o
    → evaluate author (some (untightened l)) action ctx
      ≡ Verdict.deny (lease_outlives_policy seconds (saturating_sub l.expires_at l.issued_at))
unfolding evaluate with_lease check_network
strict_server_lifts_limit author server l action ctx o e long h =
    let passes = (allow-Passes author (tightened server l) action ctx o h).0 in
    let same = same_lease server l ctx in
    ground (
      arith,
      e,
      long,
      understood_author author server passes.understood,
      passes.floor,
      binding_author author server (tightened server l) (untightened l) action ctx refl
          passes.binding,
      same.lease ∙ passes.lease,
      same.tpm_clock ∙ passes.tpm_clock,
      same.issued ∙ passes.issued,
    )
