-- ===== src/Protocol/Agents/Chain.antt =====
-- `verify_grant_chain_with_actions` of crates/oc-protocol/src/agent.rs.
use open_crate.Base.{
  ℕ, Bool, true, false, not, ◌&&◌, ◌||◌, ◌+◌, Option, none, some, List, [], ◌∷◌, ◌++◌, leb, ◌==◌,
  if◌then◌else◌, Result, ok, err, ◌>>=◌, ◌>>◌, fail_if,
}
use open_crate.Base.Int.{ℤ, ltb_ℤ}
use open_crate.Base.Bytes.{bytes_eq}
use open_crate.Format.{Parsed}
use open_crate.Policy.{Policy}
use open_crate.Protocol.{Verifier}
use open_crate.Protocol.Actions.{ActionRule, ActionRefusal, wrong_kind, kind_eq}
use open_crate.Protocol.Actions.Within.{narrower}
use open_crate.Protocol.Actions.Grant as ActionGrants
use open_crate.Protocol.Actions.Grant.{ActionGrant}
use open_crate.Protocol.Agents.{Entry, AgentGrant, Delegation}
use open_crate.Protocol.Agents.Decode.{decode_grant, decode_delegation}

pub record ChainFacts : Type 0 where
  pub grant_id : List ℕ
  pub holder_fpr : List ℕ
  pub holder_verify : List ℕ
  pub files : List (List ℕ)
  pub expires_at : ℤ
  pub tightening : List Policy
  pub depth_left : ℕ
  pub actions : List ActionRule

pub data ChainRefusal : Type 0 where
  bad_grant : ChainRefusal
  bad_link : ℕ → ChainRefusal
  not_a_subset : ℕ → ChainRefusal
  outlives_parent : ℕ → ChainRefusal
  depth_exhausted : ℕ → ChainRefusal
  wrong_parent : ℕ → ChainRefusal
  expired : ChainRefusal
  not_yet_valid : ChainRefusal
  bad_action_grant : ChainRefusal
  actions_wrong_grant : ChainRefusal
  actions_outlive_grant : ChainRefusal
  action_not_granted : ℕ → ChainRefusal
  action_widens : ℕ → ActionRefusal → ChainRefusal

abbrev Chained {ℓ} : Type ℓ → Type ℓ
Chained A = Result ChainRefusal A

-- `map_err(|_| refusal)`
abbrev pub or_refuse {ℓ} : {A : Type ℓ} → Parsed A → ChainRefusal → Chained A
or_refuse (ok a) refusal = ok a
or_refuse (err failure) refusal = err refusal

-- The loops of `narrow_actions`: `parents.iter().filter(…)`, the parents of one child, and the children.
unfoldable pub same_kind : List ActionRule → ActionRule → List ActionRule
same_kind [] child = []
same_kind (p ∷ parents) child =
    let rest = same_kind parents child in if kind_eq p.kind child.kind then p ∷ rest else rest

unfoldable pub first_reason : Option ActionRefusal → ActionRefusal → ActionRefusal
first_reason none why = why
first_reason (some first) why = first

unfoldable pub try_parents :
    ℕ → Option ActionRefusal → ActionRule → List ActionRule → Chained (Unit {0})
try_parents index first child [] = err (action_widens index (first_reason first wrong_kind))
try_parents index first child (parent ∷ parents) = elim (narrower child parent) [
  | ok accepted ↦ ok tt
  | err why ↦ try_parents index (some (first_reason first why)) child parents
]

abbrev pub none_left : List ActionRule → Bool
none_left [] = true
none_left (p ∷ parents) = false

unfoldable pub check_children : List ActionRule → List ActionRule → ℕ → Chained (Unit {0})
check_children parents [] index = ok tt
check_children parents (child ∷ children) index =
    fail_if (none_left (same_kind parents child)) (action_not_granted index)
    >> try_parents index none child (same_kind parents child)
    >> check_children parents children index

unfoldable pub narrow_actions : List ActionRule → List ActionRule → ℕ → Chained (List ActionRule)
narrow_actions parents children index = do check_children parents children index; ok children

-- `facts.files.contains(file)`, and the file identifiers of entries.
unfoldable pub file_in : List (List ℕ) → List ℕ → Bool
file_in [] file = false
file_in (f ∷ files) file = bytes_eq f file || file_in files file

unfoldable pub all_in : List (List ℕ) → List Entry → Bool
all_in files [] = true
all_in files (entry ∷ entries) = file_in files entry.file_id && all_in files entries

abbrev pub files_of : List Entry → List (List ℕ)
files_of [] = []
files_of (entry ∷ entries) = entry.file_id ∷ files_of entries

abbrev pub policies : Option Policy → List Policy
policies none = []
policies (some p) = p ∷ []

abbrev pub is_some {ℓ} : {A : Type ℓ} → Option A → Bool
is_some none = false
is_some (some a) = true

-- The facts of the grant.
unfoldable pub root_facts : AgentGrant → List ActionRule → ChainFacts
root_facts grant root_actions = record {
  grant_id = grant.grant_id;
  holder_fpr = grant.door_fpr;
  holder_verify = grant.door_verify;
  files = files_of grant.entries;
  expires_at = grant.expires_at;
  tightening = policies grant.tightening;
  depth_left = grant.max_depth;
  actions = root_actions;
}

-- What a link makes of the facts.
unfoldable pub link_facts : ChainFacts → Delegation → List ActionRule → ChainFacts
link_facts facts link actions = record {
  grant_id = facts.grant_id;
  holder_fpr = link.child_fpr;
  holder_verify = link.child_verify;
  files = files_of link.entries;
  expires_at = link.expires_at;
  tightening = facts.tightening ++ policies link.tightening;
  depth_left = link.depth;
  actions = actions;
}

-- The checks of a link before its actions.
unfoldable pub check_link : ChainFacts → Delegation → ℤ → ℕ → Chained (Unit {0})
check_link facts link now index =
    fail_if
      (not (bytes_eq link.grant_id facts.grant_id)
        || not (bytes_eq link.parent_fpr facts.holder_fpr))
      (wrong_parent index)
    >> fail_if ((facts.depth_left == 0) || leb facts.depth_left link.depth) (depth_exhausted index)
    >> fail_if (not (all_in facts.files link.entries)) (not_a_subset index)
    >> fail_if (ltb_ℤ facts.expires_at link.expires_at) (outlives_parent index)
    >> fail_if (ltb_ℤ link.expires_at now) expired

-- `if actions.is_some() { narrow_actions(…)? } else { Vec::new() }`
unfoldable pub link_actions : Bool → ChainFacts → Delegation → ℕ → Chained (List ActionRule)
link_actions false facts link index = ok []
link_actions true facts link index = narrow_actions facts.actions link.actions index

module _ (verify : Verifier) where
  -- The rules of the action grant.
  unfoldable pub root_actions :
      List ℕ → AgentGrant → Option (List ℕ) → ℤ → Chained (List ActionRule)
  root_actions author_key grant none now = ok []
  root_actions author_key grant (some bytes) now = do
    signed ← or_refuse (ActionGrants.decode_grant verify bytes author_key) bad_action_grant
    fail_if (not (bytes_eq signed.grant_id grant.grant_id)) actions_wrong_grant
    fail_if (ltb_ℤ grant.expires_at signed.expires_at) actions_outlive_grant
    fail_if (ltb_ℤ now signed.issued_at) not_yet_valid
    fail_if (ltb_ℤ signed.expires_at now) expired
    ok signed.rules

  -- One round of the loop over the links.
  unfoldable pub follow : Bool → ChainFacts → List ℕ → ℤ → ℕ → Chained ChainFacts
  follow with_actions facts raw now index = do
    link ← or_refuse (decode_delegation verify raw facts.holder_verify) (bad_link index)
    check_link facts link now index
    actions ← link_actions with_actions facts link index
    ok (link_facts facts link actions)

  -- `for (index, raw) in links.iter().enumerate()`
  unfoldable pub follow_all : Bool → ChainFacts → List (List ℕ) → ℤ → ℕ → Chained ChainFacts
  follow_all with_actions facts [] now index = ok facts
  follow_all with_actions facts (raw ∷ links) now index = do
    next ← follow with_actions facts raw now index
    follow_all with_actions next links now (index + 1)

  unfoldable pub verify_grant_chain_with_actions :
      List ℕ → List ℕ → List (List ℕ) → Option (List ℕ) → ℤ → Chained ChainFacts
  verify_grant_chain_with_actions author_key grant_bytes links actions now = do
    grant ← or_refuse (decode_grant verify grant_bytes author_key) bad_grant
    fail_if (ltb_ℤ now grant.issued_at) not_yet_valid
    fail_if (ltb_ℤ grant.expires_at now) expired
    rules ← root_actions author_key grant actions now
    follow_all (is_some actions) (root_facts grant rules) links now 0

  unfoldable verify_grant_chain : List ℕ → List ℕ → List (List ℕ) → ℤ → Chained ChainFacts
  verify_grant_chain author_key grant_bytes links now =
      verify_grant_chain_with_actions author_key grant_bytes links none now
