-- ===== src/Protocol/Agents/Safety.antt =====
-- What a chain that `verify_grant_chain_with_actions` of crates/oc-protocol/src/agent.rs accepts can give to its holder.
use open_crate.Base.{
  ℕ, Bool, true, ◌+◌, ◌≤◌, ◌≡◌, refl, ◌↔◌, Option, List, [], ◌∷◌, length, ok, >>=-eq-ok,
  fail_if-eq-ok, arith,
}
use open_crate.Base.Int.{ℤ, ltb_ℤ, ◌≤ℤ◌}
use open_crate.Protocol.{Verifier}
use open_crate.Protocol.Actions.{ActionRule}
use open_crate.Protocol.Agents.{AgentGrant, max_grant_depth, check_grant_shape}
use open_crate.Protocol.Agents.Decode.{decode_grant}
use open_crate.Protocol.Agents.Chain.{
  ChainFacts, or_refuse, not_yet_valid, expired, bad_grant, file_in, files_of, link_facts,
  root_facts, root_actions, is_some, verify_grant_chain_with_actions,
}
use open_crate.Protocol.Agents.Links.{
  or_refuse-ok, taken, Chain, linked, at_end, follow_all_sound, follow_all_complete,
}
use open_crate.Protocol.Agents.Shapes.{decode_grant-Shaped}

-- A chain as the documentation describes it: a grant of the author that holds now, the rules of an action grant, and
-- links that hold under one another.
pub record IsGranted (verify : Verifier) (author_key grant_bytes : List ℕ) (links : List (List ℕ))
    (actions : Option (List ℕ)) (now : ℤ) (last : ChainFacts) : Type 0 where
  pub grant : AgentGrant
  pub rules : List ActionRule
  pub signed : decode_grant verify grant_bytes author_key ≡ ok grant
  pub begun : grant.issued_at ≤ℤ now
  pub not_over : now ≤ℤ grant.expires_at
  pub rooted : root_actions verify author_key grant actions now ≡ ok rules
  pub chain : Chain verify (is_some actions) now (root_facts grant rules) links last

-- `verify_grant_chain_with_actions` accepts exactly the chains of which the grant, the rules of the action grant and
-- every link are signed and hold, and gives the facts of the last link.
pub verify_grant_chain_iff :
    (verify : Verifier) (author_key grant_bytes : List ℕ) (links : List (List ℕ))
    (actions : Option (List ℕ)) (now : ℤ) (last : ChainFacts)
    → (verify_grant_chain_with_actions verify author_key grant_bytes links actions now ≡ ok last)
      ↔ IsGranted verify author_key grant_bytes links actions now last
unfolding verify_grant_chain_with_actions
verify_grant_chain_iff verify author_key grant_bytes links actions now last = (
  λ h.
      let (grant, e, rest) =
        >>=-eq-ok (or_refuse (decode_grant verify grant_bytes author_key) bad_grant) _ h in
      let (begun, rest) = fail_if-eq-ok (ltb_ℤ now grant.issued_at) not_yet_valid _ rest in
      let (not_over, rest) = fail_if-eq-ok (ltb_ℤ grant.expires_at now) expired _ rest in
      let (rules, rooted, followed) =
        >>=-eq-ok (root_actions verify author_key grant actions now) _ rest in
      record {
        grant = grant;
        rules = rules;
        signed = or_refuse-ok (decode_grant verify grant_bytes author_key) bad_grant grant e;
        begun = ground (arith, begun);
        not_over = ground (arith, not_over);
        rooted = rooted;
        chain =
            follow_all_sound verify (is_some actions) now (root_facts grant rules) last links 0
              followed;
      },
  λ g.
      let followed =
        follow_all_complete verify (is_some actions) now (root_facts g.grant g.rules) last links 0
          g.chain in
      ground (arith, followed, g.signed, g.begun, g.not_over, g.rooted),
)

-- What holds of the facts at the end of a chain.
pub record Within (first last : ChainFacts) (links : List (List ℕ)) : Type 0 where
  pub same_grant : last.grant_id ≡ first.grant_id
  pub files : (file : List ℕ) → file_in last.files file ≡ true → file_in first.files file ≡ true
  pub no_longer : last.expires_at ≤ℤ first.expires_at
  pub depth : last.depth_left + length links ≤ first.depth_left

module _ (verify : Verifier) (with_actions : Bool) (now : ℤ) where
  pub Chain-Within :
      (first last : ChainFacts) (links : List (List ℕ))
      → Chain verify with_actions now first links last
      → Within first last links
  unfolding link_facts
  Chain-Within first last [] at_end = record {
    same_grant = refl;
    files = λ file m. m;
    no_longer = omega arith;
    depth = omega arith;
  }
  Chain-Within first last (raw ∷ links) (linked link signed l rest) =
      let w = Chain-Within (link_facts first link (taken with_actions link)) last links rest in
      record {
        same_grant = w.same_grant;
        files = λ file m. l.subset file (w.files file m);
        no_longer = omega (arith, w.no_longer, l.no_longer);
        depth = omega (arith, w.depth, l.less_depth);
      }

  Chain-not_over :
      (first last : ChainFacts) (links : List (List ℕ))
      → Chain verify with_actions now first links last
      → now ≤ℤ first.expires_at
      → now ≤ℤ last.expires_at
  unfolding link_facts
  Chain-not_over first last [] at_end h = h
  Chain-not_over first last (raw ∷ links) (linked link signed l rest) h =
      Chain-not_over (link_facts first link (taken with_actions link)) last links rest l.not_over

decode_grant-depth :
    (verify : Verifier) (bytes author_key : List ℕ) (grant : AgentGrant)
    → decode_grant verify bytes author_key ≡ ok grant
    → grant.max_depth ≤ max_grant_depth
unfolding check_grant_shape
decode_grant-depth verify bytes author_key grant h =
    let shape = decode_grant-Shaped verify bytes author_key grant h in ground (arith, shape)

-- The holder at the end of an accepted chain has no file that the author's grant does not name, no end later than the
-- grant's, and a moment that lies within grant and chain. With every link the depth that is left falls, so an accepted
-- chain has at most four links.
pub verify_grant_chain-Within :
    (verify : Verifier) (author_key grant_bytes : List ℕ) (links : List (List ℕ))
    (actions : Option (List ℕ)) (now : ℤ) (last : ChainFacts)
    → verify_grant_chain_with_actions verify author_key grant_bytes links actions now ≡ ok last
    → (grant : AgentGrant) × (decode_grant verify grant_bytes author_key ≡ ok grant)
      × (last.grant_id ≡ grant.grant_id)
      × ((file : List ℕ)
          → file_in last.files file ≡ true
          → file_in (files_of grant.entries) file ≡ true)
      × (last.expires_at ≤ℤ grant.expires_at)
      × (grant.issued_at ≤ℤ now)
      × (now ≤ℤ last.expires_at)
      × (last.depth_left + length links ≤ grant.max_depth)
      × (length links ≤ max_grant_depth)
unfolding root_facts
verify_grant_chain-Within verify author_key grant_bytes links actions now last h =
    let g = (verify_grant_chain_iff verify author_key grant_bytes links actions now last).0 h in
    let w =
      Chain-Within verify (is_some actions) now (root_facts g.grant g.rules) last links g.chain in
    let deep = decode_grant-depth verify grant_bytes author_key g.grant g.signed in
    (
      g.grant,
      g.signed,
      w.same_grant,
      w.files,
      w.no_longer,
      g.begun,
      Chain-not_over verify (is_some actions) now (root_facts g.grant g.rules) last links g.chain
          g.not_over,
      w.depth,
      omega (arith, w.depth, deep),
    )
