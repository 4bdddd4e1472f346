-- ===== src/Protocol/Agents/Shapes.antt =====
-- Documents that parsing accepts have the shape that crates/oc-protocol/src/agent.rs and action.rs demand.
use open_crate.Base.{ℕ, not, ◌≡◌, List, ok, >>=-eq-ok, >>-eq-ok, fail_if-eq-ok, arith}
use open_crate.Base.Bytes.{bytes_eq}
use open_crate.Format.{bad_field_length, bad_header_signature}
use open_crate.Format.Tlv.{read_fields}
use open_crate.Protocol.{Verifier, split_signature}
use open_crate.Protocol.Actions.Grant as ActionGrants
use open_crate.Protocol.Actions.Grant.{ActionGrant, check_rules}
use open_crate.Protocol.Agents.{
  AgentGrant, Delegation, check_grant_shape, check_delegation_shape, grant_transcript,
  delegation_transcript,
}
use open_crate.Protocol.Agents.Decode.{
  decode_grant, decode_grant_body, decode_delegation, decode_delegation_body, grant_of, link_of,
  grant_field, no_grant_fields, link_field, no_link_fields,
}
use mathlib.Core.Path.{subst}

grant_body-Shaped :
    (body : List ℕ) (grant : AgentGrant)
    → decode_grant_body body ≡ ok grant
    → check_grant_shape grant ≡ ok tt
unfolding decode_grant_body
grant_body-Shaped body grant h =
    let (st, e, rest) = >>=-eq-ok (read_fields grant_field body no_grant_fields) _ h in
    let (made, f, rest) = >>=-eq-ok (grant_of st) _ rest in
    let (shape, same) = >>-eq-ok (check_grant_shape made) (ok made) rest in
    let same : made ≡ grant = cc same in
    subst (λ (g : AgentGrant). check_grant_shape g ≡ ok tt) same shape

pub decode_grant-Shaped :
    (verify : Verifier) (bytes author_key : List ℕ) (grant : AgentGrant)
    → decode_grant verify bytes author_key ≡ ok grant
    → check_grant_shape grant ≡ ok tt
unfolding decode_grant check_grant_shape
decode_grant-Shaped verify bytes author_key grant h =
    let (parts, e, rest) = >>=-eq-ok (split_signature bytes) _ h in
    let (signed, rest) =
      fail_if-eq-ok (not (verify author_key (grant_transcript parts.1) parts.0))
        bad_header_signature _ rest in
    let (made, f, rest) = >>=-eq-ok (decode_grant_body parts.1) _ rest in
    let (named, rest) =
      fail_if-eq-ok (not (bytes_eq made.author_key author_key)) (bad_field_length 11 32) _ rest in
    let same : record made { signature = parts.0 } ≡ grant = cc rest in
    subst (λ (g : AgentGrant). check_grant_shape g ≡ ok tt) same (grant_body-Shaped parts.1 made f)

delegation_body-Shaped :
    (body : List ℕ) (link : Delegation)
    → decode_delegation_body body ≡ ok link
    → check_delegation_shape link ≡ ok tt
unfolding decode_delegation_body
delegation_body-Shaped body link h =
    let (st, e, rest) = >>=-eq-ok (read_fields link_field body no_link_fields) _ h in
    let (made, f, rest) = >>=-eq-ok (link_of st) _ rest in
    let (shape, same) = >>-eq-ok (check_delegation_shape made) (ok made) rest in
    let same : made ≡ link = cc same in
    subst (λ (g : Delegation). check_delegation_shape g ≡ ok tt) same shape

pub decode_delegation-Shaped :
    (verify : Verifier) (bytes parent_verify : List ℕ) (link : Delegation)
    → decode_delegation verify bytes parent_verify ≡ ok link
    → check_delegation_shape link ≡ ok tt
unfolding decode_delegation check_delegation_shape
decode_delegation-Shaped verify bytes parent_verify link h =
    let (parts, e, rest) = >>=-eq-ok (split_signature bytes) _ h in
    let (signed, rest) =
      fail_if-eq-ok (not (verify parent_verify (delegation_transcript parts.1) parts.0))
        bad_header_signature _ rest in
    let (made, f, rest) = >>=-eq-ok (decode_delegation_body parts.1) _ rest in
    let same : record made { signature = parts.0 } ≡ link = cc rest in
    subst (λ (g : Delegation). check_delegation_shape g ≡ ok tt) same
      (delegation_body-Shaped parts.1 made f)

action_body-Shaped :
    (body : List ℕ) (grant : ActionGrant)
    → ActionGrants.decode_grant_body body ≡ ok grant
    → ActionGrants.check_grant_shape grant ≡ ok tt
unfolding ActionGrants.decode_grant_body
action_body-Shaped body grant h =
    let (st, e, rest) =
      >>=-eq-ok (read_fields ActionGrants.grant_field body ActionGrants.no_grant_fields) _ h in
    let (made, f, rest) = >>=-eq-ok (ActionGrants.grant_of st) _ rest in
    let (shape, same) = >>-eq-ok (ActionGrants.check_grant_shape made) (ok made) rest in
    let same : made ≡ grant = cc same in
    subst (λ (g : ActionGrant). ActionGrants.check_grant_shape g ≡ ok tt) same shape

rules-Shaped :
    (grant : ActionGrant)
    → ActionGrants.check_grant_shape grant ≡ ok tt
    → check_rules grant.rules ≡ ok tt
unfolding ActionGrants.check_grant_shape
rules-Shaped grant h = ground (arith, h)

pub action_grant-Shaped :
    (verify : Verifier) (bytes author_key : List ℕ) (grant : ActionGrant)
    → ActionGrants.decode_grant verify bytes author_key ≡ ok grant
    → check_rules grant.rules ≡ ok tt
unfolding ActionGrants.decode_grant
action_grant-Shaped verify bytes author_key grant h =
    let (parts, e, rest) = >>=-eq-ok (split_signature bytes) _ h in
    let (signed, rest) =
      fail_if-eq-ok (not (verify author_key (ActionGrants.grant_transcript parts.1) parts.0))
        bad_header_signature _ rest in
    let (made, f, rest) = >>=-eq-ok (ActionGrants.decode_grant_body parts.1) _ rest in
    let (named, rest) =
      fail_if-eq-ok (not (bytes_eq made.author_key author_key))
        (bad_field_length ActionGrants.author_key_tag 32) _ rest in
    let same : record made { signature = parts.0 } ≡ grant = cc rest in
    subst (λ (g : ActionGrant). check_rules g.rules ≡ ok tt) same
      (rules-Shaped made (action_body-Shaped parts.1 made f))
