-- ===== src/Protocol/Agents/Links.antt =====
-- Chains of delegation of crates/oc-protocol/src/agent.rs as a relation, and that the code follows exactly these chains.
use open_crate.Base.{
  ℕ, Bool, true, false, ◌+◌, ◌<◌, ◌≡◌, refl, sym, ap, ◌∙◌, List, [], ◌∷◌, ok, err, >>=-eq-ok,
  >>-eq-ok, arith,
}
use open_crate.Base.Int.{ℤ, ◌≤ℤ◌}
use open_crate.Base.Bytes.{bytes_eq_iff}
use open_crate.Format.{Parsed}
use open_crate.Protocol.{Verifier}
use open_crate.Protocol.Actions.{ActionRule}
use open_crate.Protocol.Agents.{Delegation}
use open_crate.Protocol.Agents.Decode.{decode_delegation}
use open_crate.Protocol.Agents.Chain.{
  ChainFacts, ChainRefusal, or_refuse, bad_link, check_children, narrow_actions, file_in, files_of,
  link_facts, check_link, link_actions, follow, follow_all,
}
use open_crate.Protocol.Agents.Narrowed.{
  Narrowed, check_children_sound, check_children_complete, all_in_sound, all_in_complete,
}
use mathlib.Core.Path.{subst}

-- The actions that a link takes over.
abbrev pub taken : Bool → Delegation → List ActionRule
taken false link = []
taken true link = link.actions

abbrev ActionsNarrowed : Bool → ChainFacts → Delegation → Type 0
ActionsNarrowed false facts link = Unit
ActionsNarrowed true facts link = Narrowed facts.actions link.actions

-- What a link has to be under the facts of its parent.
pub record IsLink (facts : ChainFacts) (with_actions : Bool) (now : ℤ) (link : Delegation)
    : Type 0 where
  pub same_grant : link.grant_id ≡ facts.grant_id
  same_parent : link.parent_fpr ≡ facts.holder_fpr
  pub less_depth : link.depth < facts.depth_left
  pub subset :
      (file : List ℕ)
      → file_in (files_of link.entries) file ≡ true
      → file_in facts.files file ≡ true
  pub no_longer : link.expires_at ≤ℤ facts.expires_at
  pub not_over : now ≤ℤ link.expires_at
  pub narrowed : ActionsNarrowed with_actions facts link

link_actions_sound :
    (with_actions : Bool) (facts : ChainFacts) (link : Delegation) (index : ℕ)
    (actions : List ActionRule)
    → link_actions with_actions facts link index ≡ ok actions
    → ActionsNarrowed with_actions facts link × (actions ≡ taken with_actions link)
unfolding link_actions narrow_actions
link_actions_sound false facts link index actions h = (tt, cc h)
link_actions_sound true facts link index actions h =
    let checked : check_children facts.actions link.actions index ≡ ok tt = ground (arith, h) in
    (check_children_sound facts.actions link.actions index checked, ground (arith, h))

check_link_sound :
    (facts : ChainFacts) (link : Delegation) (now : ℤ) (index : ℕ) (with_actions : Bool)
    → check_link facts link now index ≡ ok tt
    → ActionsNarrowed with_actions facts link
    → IsLink facts with_actions now link
unfolding check_link
check_link_sound facts link now index with_actions h narrowed = record {
  same_grant = (bytes_eq_iff link.grant_id facts.grant_id).0 (ground (arith, h));
  same_parent = (bytes_eq_iff link.parent_fpr facts.holder_fpr).0 (ground (arith, h));
  less_depth = ground (arith, h);
  subset = λ file m. all_in_sound facts.files link.entries file (ground (arith, h)) m;
  no_longer = ground (arith, h);
  not_over = ground (arith, h);
  narrowed = narrowed;
}

check_link_complete :
    (facts : ChainFacts) (link : Delegation) (now : ℤ) (index : ℕ) (with_actions : Bool)
    → IsLink facts with_actions now link
    → check_link facts link now index ≡ ok tt
unfolding check_link
check_link_complete facts link now index with_actions l =
    let grant = (bytes_eq_iff link.grant_id facts.grant_id).1 l.same_grant in
    let parent = (bytes_eq_iff link.parent_fpr facts.holder_fpr).1 l.same_parent in
    let subset = all_in_complete facts.files link.entries l.subset in
    ground (arith, grant, parent, subset, l.less_depth, l.no_longer, l.not_over)

link_actions_complete :
    (with_actions : Bool) (facts : ChainFacts) (link : Delegation) (index : ℕ)
    → ActionsNarrowed with_actions facts link
    → link_actions with_actions facts link index ≡ ok (taken with_actions link)
unfolding link_actions narrow_actions
link_actions_complete false facts link index narrowed = refl
link_actions_complete true facts link index narrowed =
    let checked = check_children_complete facts.actions link.actions index narrowed in
    ground (arith, checked)

pub or_refuse-ok {ℓ} :
    {A : Type ℓ} (r : Parsed A) (refusal : ChainRefusal) (made : A)
    → or_refuse r refusal ≡ ok made
    → r ≡ ok made
or_refuse-ok (ok a) refusal made h = cc h
or_refuse-ok (err failure) refusal made h = cc

module _ (verify : Verifier) (with_actions : Bool) (now : ℤ) where
  -- From the facts of a holder, along signed links, to the facts of the last one.
  pub data Chain : ChainFacts → List (List ℕ) → ChainFacts → Type 0 where
    at_end : {facts : ChainFacts} → Chain facts [] facts
    linked :
        {facts last : ChainFacts} {raw : List ℕ} {links : List (List ℕ)}
        → (link : Delegation) → decode_delegation verify raw facts.holder_verify ≡ ok link
        → IsLink facts with_actions now link
        → Chain (link_facts facts link (taken with_actions link)) links last
        → Chain facts (raw ∷ links) last

  follow_sound :
      (facts next : ChainFacts) (raw : List ℕ) (index : ℕ)
      → follow verify with_actions facts raw now index ≡ ok next
      → (link : Delegation) × (decode_delegation verify raw facts.holder_verify ≡ ok link)
        × IsLink facts with_actions now link
        × (next ≡ link_facts facts link (taken with_actions link))
  unfolding follow
  follow_sound facts next raw index h =
      let (link, e, rest) =
        >>=-eq-ok (or_refuse (decode_delegation verify raw facts.holder_verify) (bad_link index)) _
          h in
      let signed =
        or_refuse-ok (decode_delegation verify raw facts.holder_verify) (bad_link index) link e in
      let (checked, taking) = >>-eq-ok (check_link facts link now index) _ rest in
      let (actions, a, made) = >>=-eq-ok (link_actions with_actions facts link index) _ taking in
      let (narrowed, same) = link_actions_sound with_actions facts link index actions a in
      let next_made : link_facts facts link actions ≡ next = cc made in
      (
        link,
        signed,
        check_link_sound facts link now index with_actions checked narrowed,
        sym next_made ∙ ap (link_facts facts link) same,
      )

  follow_complete :
      (facts : ChainFacts) (raw : List ℕ) (index : ℕ) (link : Delegation)
      → decode_delegation verify raw facts.holder_verify ≡ ok link
      → IsLink facts with_actions now link
      → follow verify with_actions facts raw now index
        ≡ ok (link_facts facts link (taken with_actions link))
  unfolding follow
  follow_complete facts raw index link signed l =
      let checked = check_link_complete facts link now index with_actions l in
      let actions = link_actions_complete with_actions facts link index l.narrowed in
      ground (arith, signed, checked, actions)

  pub follow_all_sound :
      (facts last : ChainFacts) (links : List (List ℕ)) (index : ℕ)
      → follow_all verify with_actions facts links now index ≡ ok last
      → Chain facts links last
  unfolding follow_all
  follow_all_sound facts last [] index h =
      let e : facts ≡ last = cc h in subst (λ (f : ChainFacts). Chain facts [] f) e at_end
  follow_all_sound facts last (raw ∷ links) index h =
      let (next, e, rest) = >>=-eq-ok (follow verify with_actions facts raw now index) _ h in
      let (link, signed, l, made) = follow_sound facts next raw index e in
      linked link signed l (
        subst (λ (f : ChainFacts). Chain f links last) made
          (follow_all_sound next last links (index + 1) rest))

  pub follow_all_complete :
      (facts last : ChainFacts) (links : List (List ℕ)) (index : ℕ)
      → Chain facts links last
      → follow_all verify with_actions facts links now index ≡ ok last
  unfolding follow_all
  follow_all_complete facts last links index at_end = refl
  follow_all_complete facts last (raw ∷ links) index (linked link signed l rest) =
      let next = follow_complete facts raw index link signed l in
      let done =
        follow_all_complete (link_facts facts link (taken with_actions link)) last links (index + 1)
          rest in
      ground (arith, next, done)
