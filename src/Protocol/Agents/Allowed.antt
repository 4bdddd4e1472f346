-- ===== src/Protocol/Agents/Allowed.antt =====
-- Actions along a chain of crates/oc-protocol/src/agent.rs: what the last holder may do, the author has allowed.
use open_crate.Base.{
  ℕ, true, false, not, ◌≡◌, refl, sym, ◌∙◌, Option, none, some, List, [], ◌∷◌, ok, >>=-eq-ok,
  >>-eq-ok, fail_if-eq-ok, arith,
}
use open_crate.Base.Bytes.{bytes_eq, bytes_eq_iff}
use open_crate.Base.Int.{ℤ, ltb_ℤ, ◌≤ℤ◌}
use open_crate.Protocol.{Verifier}
use open_crate.Protocol.Actions.{ActionRule, Args}
use open_crate.Protocol.Actions.Text.{check_rule_shape}
use open_crate.Protocol.Actions.Within.{args_within}
use open_crate.Protocol.Actions.Narrowing.{narrower-args_within}
use open_crate.Protocol.Actions.Grant as ActionGrants
use open_crate.Protocol.Actions.Grant.{ActionGrant, check_rules}
use open_crate.Protocol.Agents.{AgentGrant, Delegation, check_delegation_shape}
use open_crate.Protocol.Agents.Chain.{
  ChainFacts, or_refuse, not_yet_valid, expired, actions_wrong_grant, actions_outlive_grant,
  bad_action_grant, link_facts, root_facts, root_actions, verify_grant_chain_with_actions,
}
use open_crate.Protocol.Agents.Links.{or_refuse-ok, taken, Chain, linked, at_end}
use open_crate.Protocol.Agents.Shapes.{decode_delegation-Shaped, action_grant-Shaped}
use mathlib.Core.Path.{subst}
use mathlib.Core.List.{Memᴰ}
use mathlib.Core.List.Memᴰ
use open_crate.Protocol.Agents.Safety.{verify_grant_chain_iff, Chain-Within}

check_rules-mem :
    (rules : List ActionRule) (rule : ActionRule)
    → check_rules rules ≡ ok tt
    → Memᴰ rule rules
    → check_rule_shape rule ≡ ok tt
unfolding check_rules
check_rules-mem [] rule h m = absurd (Memᴰ.not-nil m)
check_rules-mem (r ∷ rules) rule h (Memᴰ.head e) =
    subst (λ (q : ActionRule). check_rule_shape q ≡ ok tt) (sym e)
      (>>-eq-ok (check_rule_shape r) (check_rules rules) h).0
check_rules-mem (r ∷ rules) rule h (Memᴰ.tail m) =
    check_rules-mem rules rule (>>-eq-ok (check_rule_shape r) (check_rules rules) h).1 m

delegation-rules :
    (link : Delegation) → check_delegation_shape link ≡ ok tt → check_rules link.actions ≡ ok tt
unfolding check_delegation_shape
delegation-rules link h = ground (arith, h)

-- The arguments that a rule at the end of a chain allows, some rule at its start allows.
Chain-allowed :
    (verify : Verifier) (now : ℤ) (first last : ChainFacts) (links : List (List ℕ))
    (rule : ActionRule) (args : Args)
    → Chain verify true now first links last
    → check_rules first.actions ≡ ok tt
    → Memᴰ rule last.actions
    → args_within rule args ≡ ok tt
    → (root : ActionRule) × Memᴰ root first.actions × (args_within root args ≡ ok tt)
unfolding link_facts
Chain-allowed verify now first last [] rule args at_end shaped m w = (rule, m, w)
Chain-allowed verify now first last (raw ∷ links) rule args (linked link signed l rest) shaped m w =
    let here =
      delegation-rules link (decode_delegation-Shaped verify raw first.holder_verify link signed) in
    let (child, n, allowed) =
      Chain-allowed verify now (link_facts first link (taken true link)) last links rule args rest
        here m w in
    let (parent, k, narrow) = l.narrowed child n in
    (
      parent,
      k,
      narrower-args_within child parent args (check_rules-mem first.actions parent shaped k) narrow
          allowed,
    )

Chain-no_actions :
    (verify : Verifier) (now : ℤ) (first last : ChainFacts) (links : List (List ℕ))
    → Chain verify false now first links last
    → first.actions ≡ []
    → last.actions ≡ []
unfolding link_facts
Chain-no_actions verify now first last [] at_end none_yet = none_yet
Chain-no_actions verify now first last (raw ∷ links) (linked link signed l rest) none_yet =
    Chain-no_actions verify now (link_facts first link []) last links rest refl

root_actions-none :
    (verify : Verifier) (author_key : List ℕ) (grant : AgentGrant) (now : ℤ)
    (rules : List ActionRule)
    → root_actions verify author_key grant none now ≡ ok rules
    → rules ≡ []
unfolding root_actions
root_actions-none verify author_key grant now rules h = cc h

root_actions-grant :
    (verify : Verifier) (author_key bytes : List ℕ) (grant : AgentGrant) (now : ℤ)
    (rules : List ActionRule)
    → root_actions verify author_key grant (some bytes) now ≡ ok rules
    → (signed : ActionGrant) × (ActionGrants.decode_grant verify bytes author_key ≡ ok signed)
      × (signed.grant_id ≡ grant.grant_id)
      × (signed.expires_at ≤ℤ grant.expires_at)
      × (rules ≡ signed.rules)
unfolding root_actions
root_actions-grant verify author_key bytes grant now rules h =
    let (signed, e, rest) =
      >>=-eq-ok (or_refuse (ActionGrants.decode_grant verify bytes author_key) bad_action_grant) _
        h in
    let (same, rest) =
      fail_if-eq-ok (not (bytes_eq signed.grant_id grant.grant_id)) actions_wrong_grant _ rest in
    let (within, rest) =
      fail_if-eq-ok (ltb_ℤ grant.expires_at signed.expires_at) actions_outlive_grant _ rest in
    let (begun, rest) = fail_if-eq-ok (ltb_ℤ now signed.issued_at) not_yet_valid _ rest in
    let (not_over, rest) = fail_if-eq-ok (ltb_ℤ signed.expires_at now) expired _ rest in
    (
      signed,
      or_refuse-ok (ActionGrants.decode_grant verify bytes author_key) bad_action_grant signed e,
      (bytes_eq_iff signed.grant_id grant.grant_id).0 (ground (arith, same)),
      ground (arith, within),
      cc rest,
    )

-- When a rule that an accepted chain leaves to its holder allows some arguments, there is an action grant which is
-- signed by the author, is bound to the author's grant and has a rule that allows these arguments.
pub verify_grant_chain-allowed :
    (verify : Verifier) (author_key grant_bytes : List ℕ) (links : List (List ℕ))
    (actions : Option (List ℕ)) (now : ℤ) (last : ChainFacts) (rule : ActionRule) (args : Args)
    → verify_grant_chain_with_actions verify author_key grant_bytes links actions now ≡ ok last
    → Memᴰ rule last.actions
    → args_within rule args ≡ ok tt
    → (bytes : List ℕ) × (signed : ActionGrant) × (root : ActionRule) × (actions ≡ some bytes)
      × (ActionGrants.decode_grant verify bytes author_key ≡ ok signed)
      × (signed.grant_id ≡ last.grant_id)
      × Memᴰ root signed.rules
      × (args_within root args ≡ ok tt)
unfolding root_facts
verify_grant_chain-allowed verify author_key grant_bytes links none now last rule args h m w =
    let g = (verify_grant_chain_iff verify author_key grant_bytes links none now last).0 h in
    let no_rules = root_actions-none verify author_key g.grant now g.rules g.rooted in
    absurd (
      Memᴰ.not-nil (
        subst (Memᴰ rule)
          (Chain-no_actions verify now (root_facts g.grant g.rules) last links g.chain no_rules) m))
verify_grant_chain-allowed verify author_key grant_bytes links (some bytes) now last rule args h m
      w =
    let g =
      (verify_grant_chain_iff verify author_key grant_bytes links (some bytes) now last).0 h in
    let (signed, decoded, same, within, rules) =
      root_actions-grant verify author_key bytes g.grant now g.rules g.rooted in
    let shaped =
      subst (λ (r : List ActionRule). check_rules r ≡ ok tt) (sym rules)
        (action_grant-Shaped verify bytes author_key signed decoded) in
    let (root, k, allowed) =
      Chain-allowed verify now (root_facts g.grant g.rules) last links rule args g.chain shaped m
        w in
    let bound = Chain-Within verify true now (root_facts g.grant g.rules) last links g.chain in
    (
      bytes,
      signed,
      root,
      refl,
      decoded,
      same ∙ sym bound.same_grant,
      subst (Memᴰ root) rules k,
      allowed,
    )
