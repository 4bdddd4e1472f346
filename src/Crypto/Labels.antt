-- ===== src/Crypto/Labels.antt =====
-- The labels of crates/oc-crypto/src/lib.rs, module `label`: each is the bytes of its text.
use open_crate.Base.{ℕ, List, [], ◌∷◌}

abbrev pub Label : Type 0
Label = List ℕ

-- "CC/v1/header-sig"
abbrev header_sig_label : Label
header_sig_label =
    67 ∷ 67 ∷ 47 ∷ 118 ∷ 49 ∷ 47 ∷ 104 ∷ 101 ∷ 97 ∷ 100 ∷ 101 ∷ 114 ∷ 45 ∷ 115 ∷ 105 ∷ 103 ∷ []

-- "CC/v1/revocation"
abbrev pub revocation_label : Label
revocation_label =
    67 ∷ 67 ∷ 47 ∷ 118 ∷ 49 ∷ 47 ∷ 114 ∷ 101 ∷ 118 ∷ 111 ∷ 99 ∷ 97 ∷ 116 ∷ 105 ∷ 111 ∷ 110 ∷ []

-- "CC/v1/grant"
abbrev pub grant_label : Label
grant_label = 67 ∷ 67 ∷ 47 ∷ 118 ∷ 49 ∷ 47 ∷ 103 ∷ 114 ∷ 97 ∷ 110 ∷ 116 ∷ []

-- "CC/v1/agent-grant"
abbrev pub agent_grant_label : Label
agent_grant_label =
    67 ∷ 67 ∷ 47 ∷ 118 ∷ 49 ∷ 47 ∷ 97 ∷ 103 ∷ 101 ∷ 110 ∷ 116 ∷ 45 ∷ 103 ∷ 114 ∷ 97 ∷ 110 ∷ 116 ∷ []

-- "CC/v1/delegation"
abbrev pub delegation_label : Label
delegation_label =
    67 ∷ 67 ∷ 47 ∷ 118 ∷ 49 ∷ 47 ∷ 100 ∷ 101 ∷ 108 ∷ 101 ∷ 103 ∷ 97 ∷ 116 ∷ 105 ∷ 111 ∷ 110 ∷ []

-- "CC/v1/action-grant"
abbrev pub action_grant_label : Label
action_grant_label =
    67 ∷ 67 ∷ 47 ∷ 118 ∷ 49 ∷ 47 ∷ 97 ∷ 99 ∷ 116 ∷ 105 ∷ 111 ∷ 110 ∷ 45 ∷ 103 ∷ 114 ∷ 97 ∷ 110 ∷ 116
    ∷ []

-- "CC/v1/action-lease"
abbrev action_lease_label : Label
action_lease_label =
    67 ∷ 67 ∷ 47 ∷ 118 ∷ 49 ∷ 47 ∷ 97 ∷ 99 ∷ 116 ∷ 105 ∷ 111 ∷ 110 ∷ 45 ∷ 108 ∷ 101 ∷ 97 ∷ 115 ∷ 101
    ∷ []

-- "CC/v1/action-decision"
abbrev action_decision_label : Label
action_decision_label =
    67 ∷ 67 ∷ 47 ∷ 118 ∷ 49 ∷ 47 ∷ 97 ∷ 99 ∷ 116 ∷ 105 ∷ 111 ∷ 110 ∷ 45 ∷ 100 ∷ 101 ∷ 99 ∷ 105 ∷ 115
    ∷ 105 ∷ 111 ∷ 110 ∷ []

-- "CC/v1/lease"
abbrev pub lease_label : Label
lease_label = 67 ∷ 67 ∷ 47 ∷ 118 ∷ 49 ∷ 47 ∷ 108 ∷ 101 ∷ 97 ∷ 115 ∷ 101 ∷ []

-- "CC/v1/activate-req"
abbrev activate_req_label : Label
activate_req_label =
    67 ∷ 67 ∷ 47 ∷ 118 ∷ 49 ∷ 47 ∷ 97 ∷ 99 ∷ 116 ∷ 105 ∷ 118 ∷ 97 ∷ 116 ∷ 101 ∷ 45 ∷ 114 ∷ 101 ∷ 113
    ∷ []

-- "CC/v1/audit-entry"
abbrev audit_entry_label : Label
audit_entry_label =
    67 ∷ 67 ∷ 47 ∷ 118 ∷ 49 ∷ 47 ∷ 97 ∷ 117 ∷ 100 ∷ 105 ∷ 116 ∷ 45 ∷ 101 ∷ 110 ∷ 116 ∷ 114 ∷ 121
    ∷ []

-- "CC/v1/audit-head"
abbrev audit_head_label : Label
audit_head_label =
    67 ∷ 67 ∷ 47 ∷ 118 ∷ 49 ∷ 47 ∷ 97 ∷ 117 ∷ 100 ∷ 105 ∷ 116 ∷ 45 ∷ 104 ∷ 101 ∷ 97 ∷ 100 ∷ []

-- "CC/v1/attest-nonce"
abbrev attest_nonce_label : Label
attest_nonce_label =
    67 ∷ 67 ∷ 47 ∷ 118 ∷ 49 ∷ 47 ∷ 97 ∷ 116 ∷ 116 ∷ 101 ∷ 115 ∷ 116 ∷ 45 ∷ 110 ∷ 111 ∷ 110 ∷ 99
    ∷ 101 ∷ []

-- "CC/v1/content-mac"
abbrev content_mac_label : Label
content_mac_label =
    67 ∷ 67 ∷ 47 ∷ 118 ∷ 49 ∷ 47 ∷ 99 ∷ 111 ∷ 110 ∷ 116 ∷ 101 ∷ 110 ∷ 116 ∷ 45 ∷ 109 ∷ 97 ∷ 99 ∷ []

-- "CC/v1/editor-sig"
abbrev editor_sig_label : Label
editor_sig_label =
    67 ∷ 67 ∷ 47 ∷ 118 ∷ 49 ∷ 47 ∷ 101 ∷ 100 ∷ 105 ∷ 116 ∷ 111 ∷ 114 ∷ 45 ∷ 115 ∷ 105 ∷ 103 ∷ []

-- "CC/v1/editor-cert"
abbrev editor_cert_label : Label
editor_cert_label =
    67 ∷ 67 ∷ 47 ∷ 118 ∷ 49 ∷ 47 ∷ 101 ∷ 100 ∷ 105 ∷ 116 ∷ 111 ∷ 114 ∷ 45 ∷ 99 ∷ 101 ∷ 114 ∷ 116
    ∷ []

-- "CC/v1/edit-session"
abbrev edit_session_label : Label
edit_session_label =
    67 ∷ 67 ∷ 47 ∷ 118 ∷ 49 ∷ 47 ∷ 101 ∷ 100 ∷ 105 ∷ 116 ∷ 45 ∷ 115 ∷ 101 ∷ 115 ∷ 115 ∷ 105 ∷ 111
    ∷ 110 ∷ []

-- "CC/v1/edition-claim"
abbrev edition_claim_label : Label
edition_claim_label =
    67 ∷ 67 ∷ 47 ∷ 118 ∷ 49 ∷ 47 ∷ 101 ∷ 100 ∷ 105 ∷ 116 ∷ 105 ∷ 111 ∷ 110 ∷ 45 ∷ 99 ∷ 108 ∷ 97
    ∷ 105 ∷ 109 ∷ []

-- "CC/v1/footer-imprint"
abbrev footer_imprint_label : Label
footer_imprint_label =
    67 ∷ 67 ∷ 47 ∷ 118 ∷ 49 ∷ 47 ∷ 102 ∷ 111 ∷ 111 ∷ 116 ∷ 101 ∷ 114 ∷ 45 ∷ 105 ∷ 109 ∷ 112 ∷ 114
    ∷ 105 ∷ 110 ∷ 116 ∷ []

-- "CC/v1/witness-cosign"
abbrev witness_cosign_label : Label
witness_cosign_label =
    67 ∷ 67 ∷ 47 ∷ 118 ∷ 49 ∷ 47 ∷ 119 ∷ 105 ∷ 116 ∷ 110 ∷ 101 ∷ 115 ∷ 115 ∷ 45 ∷ 99 ∷ 111 ∷ 115
    ∷ 105 ∷ 103 ∷ 110 ∷ []

-- "CC/v1/directory-entry"
abbrev directory_entry_label : Label
directory_entry_label =
    67 ∷ 67 ∷ 47 ∷ 118 ∷ 49 ∷ 47 ∷ 100 ∷ 105 ∷ 114 ∷ 101 ∷ 99 ∷ 116 ∷ 111 ∷ 114 ∷ 121 ∷ 45 ∷ 101
    ∷ 110 ∷ 116 ∷ 114 ∷ 121 ∷ []

-- "CC/v1/directory-head"
abbrev directory_head_label : Label
directory_head_label =
    67 ∷ 67 ∷ 47 ∷ 118 ∷ 49 ∷ 47 ∷ 100 ∷ 105 ∷ 114 ∷ 101 ∷ 99 ∷ 116 ∷ 111 ∷ 114 ∷ 121 ∷ 45 ∷ 104
    ∷ 101 ∷ 97 ∷ 100 ∷ []

-- "CC/v1/mark-layout"
abbrev mark_layout_label : Label
mark_layout_label =
    67 ∷ 67 ∷ 47 ∷ 118 ∷ 49 ∷ 47 ∷ 109 ∷ 97 ∷ 114 ∷ 107 ∷ 45 ∷ 108 ∷ 97 ∷ 121 ∷ 111 ∷ 117 ∷ 116 ∷ []

-- "CC/v1/mark-choice"
abbrev mark_choice_label : Label
mark_choice_label =
    67 ∷ 67 ∷ 47 ∷ 118 ∷ 49 ∷ 47 ∷ 109 ∷ 97 ∷ 114 ∷ 107 ∷ 45 ∷ 99 ∷ 104 ∷ 111 ∷ 105 ∷ 99 ∷ 101 ∷ []

-- "CC/v1/recovery-manifest"
abbrev recovery_manifest_label : Label
recovery_manifest_label =
    67 ∷ 67 ∷ 47 ∷ 118 ∷ 49 ∷ 47 ∷ 114 ∷ 101 ∷ 99 ∷ 111 ∷ 118 ∷ 101 ∷ 114 ∷ 121 ∷ 45 ∷ 109 ∷ 97
    ∷ 110 ∷ 105 ∷ 102 ∷ 101 ∷ 115 ∷ 116 ∷ []

-- "CC/v1/authority-binding"
abbrev authority_binding_label : Label
authority_binding_label =
    67 ∷ 67 ∷ 47 ∷ 118 ∷ 49 ∷ 47 ∷ 97 ∷ 117 ∷ 116 ∷ 104 ∷ 111 ∷ 114 ∷ 105 ∷ 116 ∷ 121 ∷ 45 ∷ 98
    ∷ 105 ∷ 110 ∷ 100 ∷ 105 ∷ 110 ∷ 103 ∷ []

-- "CC/v1/control-request"
abbrev control_request_label : Label
control_request_label =
    67 ∷ 67 ∷ 47 ∷ 118 ∷ 49 ∷ 47 ∷ 99 ∷ 111 ∷ 110 ∷ 116 ∷ 114 ∷ 111 ∷ 108 ∷ 45 ∷ 114 ∷ 101 ∷ 113
    ∷ 117 ∷ 101 ∷ 115 ∷ 116 ∷ []

-- "CC/v1/operation-receipt"
abbrev operation_receipt_label : Label
operation_receipt_label =
    67 ∷ 67 ∷ 47 ∷ 118 ∷ 49 ∷ 47 ∷ 111 ∷ 112 ∷ 101 ∷ 114 ∷ 97 ∷ 116 ∷ 105 ∷ 111 ∷ 110 ∷ 45 ∷ 114
    ∷ 101 ∷ 99 ∷ 101 ∷ 105 ∷ 112 ∷ 116 ∷ []

-- "CC/v1/replica-push"
abbrev replica_push_label : Label
replica_push_label =
    67 ∷ 67 ∷ 47 ∷ 118 ∷ 49 ∷ 47 ∷ 114 ∷ 101 ∷ 112 ∷ 108 ∷ 105 ∷ 99 ∷ 97 ∷ 45 ∷ 112 ∷ 117 ∷ 115
    ∷ 104 ∷ []

-- "CC/v1/replica-ack"
abbrev replica_ack_label : Label
replica_ack_label =
    67 ∷ 67 ∷ 47 ∷ 118 ∷ 49 ∷ 47 ∷ 114 ∷ 101 ∷ 112 ∷ 108 ∷ 105 ∷ 99 ∷ 97 ∷ 45 ∷ 97 ∷ 99 ∷ 107 ∷ []

-- "CC/v1/authority-transfer"
abbrev authority_transfer_label : Label
authority_transfer_label =
    67 ∷ 67 ∷ 47 ∷ 118 ∷ 49 ∷ 47 ∷ 97 ∷ 117 ∷ 116 ∷ 104 ∷ 111 ∷ 114 ∷ 105 ∷ 116 ∷ 121 ∷ 45 ∷ 116
    ∷ 114 ∷ 97 ∷ 110 ∷ 115 ∷ 102 ∷ 101 ∷ 114 ∷ []

-- "CC/v1/chunk"
abbrev pub chunk_label : Label
chunk_label = 67 ∷ 67 ∷ 47 ∷ 118 ∷ 49 ∷ 47 ∷ 99 ∷ 104 ∷ 117 ∷ 110 ∷ 107 ∷ []

-- "CC/v1/leaf"
abbrev pub leaf_label : Label
leaf_label = 67 ∷ 67 ∷ 47 ∷ 118 ∷ 49 ∷ 47 ∷ 108 ∷ 101 ∷ 97 ∷ 102 ∷ []

-- "CC/v1/node"
abbrev pub node_label : Label
node_label = 67 ∷ 67 ∷ 47 ∷ 118 ∷ 49 ∷ 47 ∷ 110 ∷ 111 ∷ 100 ∷ 101 ∷ []

-- "CC/v1/kek"
abbrev kek_label : Label
kek_label = 67 ∷ 67 ∷ 47 ∷ 118 ∷ 49 ∷ 47 ∷ 107 ∷ 101 ∷ 107 ∷ []

-- "CC/v1/payload"
abbrev payload_label : Label
payload_label = 67 ∷ 67 ∷ 47 ∷ 118 ∷ 49 ∷ 47 ∷ 112 ∷ 97 ∷ 121 ∷ 108 ∷ 111 ∷ 97 ∷ 100 ∷ []

-- "CC/v1/nonce-base"
abbrev nonce_base_label : Label
nonce_base_label =
    67 ∷ 67 ∷ 47 ∷ 118 ∷ 49 ∷ 47 ∷ 110 ∷ 111 ∷ 110 ∷ 99 ∷ 101 ∷ 45 ∷ 98 ∷ 97 ∷ 115 ∷ 101 ∷ []

-- "CC/v1/private-meta"
abbrev pub private_meta_label : Label
private_meta_label =
    67 ∷ 67 ∷ 47 ∷ 118 ∷ 49 ∷ 47 ∷ 112 ∷ 114 ∷ 105 ∷ 118 ∷ 97 ∷ 116 ∷ 101 ∷ 45 ∷ 109 ∷ 101 ∷ 116
    ∷ 97 ∷ []

-- "CC/v1/claim-device"
abbrev claim_device_label : Label
claim_device_label =
    67 ∷ 67 ∷ 47 ∷ 118 ∷ 49 ∷ 47 ∷ 99 ∷ 108 ∷ 97 ∷ 105 ∷ 109 ∷ 45 ∷ 100 ∷ 101 ∷ 118 ∷ 105 ∷ 99 ∷ 101
    ∷ []

-- "CC/v1/slot-b-claim"
abbrev slot_b_claim_label : Label
slot_b_claim_label =
    67 ∷ 67 ∷ 47 ∷ 118 ∷ 49 ∷ 47 ∷ 115 ∷ 108 ∷ 111 ∷ 116 ∷ 45 ∷ 98 ∷ 45 ∷ 99 ∷ 108 ∷ 97 ∷ 105 ∷ 109
    ∷ []

-- "CC/v1/slot-b-commit"
abbrev slot_b_commit_label : Label
slot_b_commit_label =
    67 ∷ 67 ∷ 47 ∷ 118 ∷ 49 ∷ 47 ∷ 115 ∷ 108 ∷ 111 ∷ 116 ∷ 45 ∷ 98 ∷ 45 ∷ 99 ∷ 111 ∷ 109 ∷ 109 ∷ 105
    ∷ 116 ∷ []

-- "CC/v1/slot-commit"
abbrev slot_commit_label : Label
slot_commit_label =
    67 ∷ 67 ∷ 47 ∷ 118 ∷ 49 ∷ 47 ∷ 115 ∷ 108 ∷ 111 ∷ 116 ∷ 45 ∷ 99 ∷ 111 ∷ 109 ∷ 109 ∷ 105 ∷ 116
    ∷ []

-- "CC/v1/a-to-device"
abbrev a_to_device_label : Label
a_to_device_label =
    67 ∷ 67 ∷ 47 ∷ 118 ∷ 49 ∷ 47 ∷ 97 ∷ 45 ∷ 116 ∷ 111 ∷ 45 ∷ 100 ∷ 101 ∷ 118 ∷ 105 ∷ 99 ∷ 101 ∷ []

-- "CC/v1/b-to-device"
abbrev b_to_device_label : Label
b_to_device_label =
    67 ∷ 67 ∷ 47 ∷ 118 ∷ 49 ∷ 47 ∷ 98 ∷ 45 ∷ 116 ∷ 111 ∷ 45 ∷ 100 ∷ 101 ∷ 118 ∷ 105 ∷ 99 ∷ 101 ∷ []

-- "CC/v1/cached-lease"
abbrev cached_lease_label : Label
cached_lease_label =
    67 ∷ 67 ∷ 47 ∷ 118 ∷ 49 ∷ 47 ∷ 99 ∷ 97 ∷ 99 ∷ 104 ∷ 101 ∷ 100 ∷ 45 ∷ 108 ∷ 101 ∷ 97 ∷ 115 ∷ 101
    ∷ []

-- "CC/v1/seal-key"
abbrev seal_key_label : Label
seal_key_label = 67 ∷ 67 ∷ 47 ∷ 118 ∷ 49 ∷ 47 ∷ 115 ∷ 101 ∷ 97 ∷ 108 ∷ 45 ∷ 107 ∷ 101 ∷ 121 ∷ []

-- "CC/v1/seal-nonce"
abbrev seal_nonce_label : Label
seal_nonce_label =
    67 ∷ 67 ∷ 47 ∷ 118 ∷ 49 ∷ 47 ∷ 115 ∷ 101 ∷ 97 ∷ 108 ∷ 45 ∷ 110 ∷ 111 ∷ 110 ∷ 99 ∷ 101 ∷ []

-- "CC/v1/wrap-nonce"
abbrev wrap_nonce_label : Label
wrap_nonce_label =
    67 ∷ 67 ∷ 47 ∷ 118 ∷ 49 ∷ 47 ∷ 119 ∷ 114 ∷ 97 ∷ 112 ∷ 45 ∷ 110 ∷ 111 ∷ 110 ∷ 99 ∷ 101 ∷ []

-- "CC/v1/frame-nonce"
abbrev pub frame_nonce_label : Label
frame_nonce_label =
    67 ∷ 67 ∷ 47 ∷ 118 ∷ 49 ∷ 47 ∷ 102 ∷ 114 ∷ 97 ∷ 109 ∷ 101 ∷ 45 ∷ 110 ∷ 111 ∷ 110 ∷ 99 ∷ 101 ∷ []

-- "CC/v1/meta-nonce"
abbrev pub meta_nonce_label : Label
meta_nonce_label =
    67 ∷ 67 ∷ 47 ∷ 118 ∷ 49 ∷ 47 ∷ 109 ∷ 101 ∷ 116 ∷ 97 ∷ 45 ∷ 110 ∷ 111 ∷ 110 ∷ 99 ∷ 101 ∷ []

-- "CC/v1/core-hash"
abbrev core_hash_label : Label
core_hash_label =
    67 ∷ 67 ∷ 47 ∷ 118 ∷ 49 ∷ 47 ∷ 99 ∷ 111 ∷ 114 ∷ 101 ∷ 45 ∷ 104 ∷ 97 ∷ 115 ∷ 104 ∷ []

-- "CC/v1/policy-hash"
abbrev policy_hash_label : Label
policy_hash_label =
    67 ∷ 67 ∷ 47 ∷ 118 ∷ 49 ∷ 47 ∷ 112 ∷ 111 ∷ 108 ∷ 105 ∷ 99 ∷ 121 ∷ 45 ∷ 104 ∷ 97 ∷ 115 ∷ 104 ∷ []

-- "CC/v1/slot-server"
abbrev slot_server_label : Label
slot_server_label =
    67 ∷ 67 ∷ 47 ∷ 118 ∷ 49 ∷ 47 ∷ 115 ∷ 108 ∷ 111 ∷ 116 ∷ 45 ∷ 115 ∷ 101 ∷ 114 ∷ 118 ∷ 101 ∷ 114
    ∷ []

-- "CC/v1/slot-recipient"
abbrev slot_recipient_label : Label
slot_recipient_label =
    67 ∷ 67 ∷ 47 ∷ 118 ∷ 49 ∷ 47 ∷ 115 ∷ 108 ∷ 111 ∷ 116 ∷ 45 ∷ 114 ∷ 101 ∷ 99 ∷ 105 ∷ 112 ∷ 105
    ∷ 101 ∷ 110 ∷ 116 ∷ []

-- "CC/v1/slot-author-device"
abbrev slot_author_device_label : Label
slot_author_device_label =
    67 ∷ 67 ∷ 47 ∷ 118 ∷ 49 ∷ 47 ∷ 115 ∷ 108 ∷ 111 ∷ 116 ∷ 45 ∷ 97 ∷ 117 ∷ 116 ∷ 104 ∷ 111 ∷ 114
    ∷ 45 ∷ 100 ∷ 101 ∷ 118 ∷ 105 ∷ 99 ∷ 101 ∷ []

-- "CC/v1/claim-code"
abbrev claim_code_label : Label
claim_code_label =
    67 ∷ 67 ∷ 47 ∷ 118 ∷ 49 ∷ 47 ∷ 99 ∷ 108 ∷ 97 ∷ 105 ∷ 109 ∷ 45 ∷ 99 ∷ 111 ∷ 100 ∷ 101 ∷ []

-- "CC/v1/author-order"
abbrev author_order_label : Label
author_order_label =
    67 ∷ 67 ∷ 47 ∷ 118 ∷ 49 ∷ 47 ∷ 97 ∷ 117 ∷ 116 ∷ 104 ∷ 111 ∷ 114 ∷ 45 ∷ 111 ∷ 114 ∷ 100 ∷ 101
    ∷ 114 ∷ []

-- "CC/v1/prove-echo"
abbrev prove_echo_label : Label
prove_echo_label =
    67 ∷ 67 ∷ 47 ∷ 118 ∷ 49 ∷ 47 ∷ 112 ∷ 114 ∷ 111 ∷ 118 ∷ 101 ∷ 45 ∷ 101 ∷ 99 ∷ 104 ∷ 111 ∷ []

-- "CC/v1/session-mac"
abbrev session_mac_label : Label
session_mac_label =
    67 ∷ 67 ∷ 47 ∷ 118 ∷ 49 ∷ 47 ∷ 115 ∷ 101 ∷ 115 ∷ 115 ∷ 105 ∷ 111 ∷ 110 ∷ 45 ∷ 109 ∷ 97 ∷ 99 ∷ []

-- "CC/v1/echo-transcript"
abbrev echo_transcript_label : Label
echo_transcript_label =
    67 ∷ 67 ∷ 47 ∷ 118 ∷ 49 ∷ 47 ∷ 101 ∷ 99 ∷ 104 ∷ 111 ∷ 45 ∷ 116 ∷ 114 ∷ 97 ∷ 110 ∷ 115 ∷ 99 ∷ 114
    ∷ 105 ∷ 112 ∷ 116 ∷ []

-- "CC/v1/device-fpr"
abbrev device_fpr_label : Label
device_fpr_label =
    67 ∷ 67 ∷ 47 ∷ 118 ∷ 49 ∷ 47 ∷ 100 ∷ 101 ∷ 118 ∷ 105 ∷ 99 ∷ 101 ∷ 45 ∷ 102 ∷ 112 ∷ 114 ∷ []

-- "CC/v1/operation-id"
abbrev operation_id_label : Label
operation_id_label =
    67 ∷ 67 ∷ 47 ∷ 118 ∷ 49 ∷ 47 ∷ 111 ∷ 112 ∷ 101 ∷ 114 ∷ 97 ∷ 116 ∷ 105 ∷ 111 ∷ 110 ∷ 45 ∷ 105
    ∷ 100 ∷ []

-- "CC/v1/server-fresh"
abbrev server_fresh_label : Label
server_fresh_label =
    67 ∷ 67 ∷ 47 ∷ 118 ∷ 49 ∷ 47 ∷ 115 ∷ 101 ∷ 114 ∷ 118 ∷ 101 ∷ 114 ∷ 45 ∷ 102 ∷ 114 ∷ 101 ∷ 115
    ∷ 104 ∷ []

-- "CC/v1/package-manifest"
abbrev package_manifest_label : Label
package_manifest_label =
    67 ∷ 67 ∷ 47 ∷ 118 ∷ 49 ∷ 47 ∷ 112 ∷ 97 ∷ 99 ∷ 107 ∷ 97 ∷ 103 ∷ 101 ∷ 45 ∷ 109 ∷ 97 ∷ 110 ∷ 105
    ∷ 102 ∷ 101 ∷ 115 ∷ 116 ∷ []

-- "CC/v1/attest-qualify"
abbrev attest_qualify_label : Label
attest_qualify_label =
    67 ∷ 67 ∷ 47 ∷ 118 ∷ 49 ∷ 47 ∷ 97 ∷ 116 ∷ 116 ∷ 101 ∷ 115 ∷ 116 ∷ 45 ∷ 113 ∷ 117 ∷ 97 ∷ 108
    ∷ 105 ∷ 102 ∷ 121 ∷ []

-- `ALL`
unfoldable pub all_labels : List Label
all_labels =
    header_sig_label ∷ revocation_label ∷ grant_label ∷ lease_label ∷ activate_req_label
    ∷ audit_entry_label ∷ audit_head_label ∷ attest_nonce_label ∷ content_mac_label
    ∷ editor_sig_label ∷ chunk_label ∷ leaf_label ∷ node_label ∷ kek_label ∷ payload_label
    ∷ nonce_base_label ∷ private_meta_label ∷ claim_device_label ∷ slot_b_claim_label
    ∷ slot_b_commit_label ∷ slot_commit_label ∷ a_to_device_label ∷ b_to_device_label
    ∷ cached_lease_label ∷ seal_key_label ∷ seal_nonce_label ∷ wrap_nonce_label ∷ frame_nonce_label
    ∷ meta_nonce_label ∷ core_hash_label ∷ policy_hash_label ∷ slot_server_label
    ∷ slot_recipient_label ∷ slot_author_device_label ∷ claim_code_label ∷ author_order_label
    ∷ prove_echo_label ∷ session_mac_label ∷ echo_transcript_label ∷ device_fpr_label
    ∷ operation_id_label ∷ attest_qualify_label ∷ editor_cert_label ∷ edit_session_label
    ∷ edition_claim_label ∷ footer_imprint_label ∷ witness_cosign_label ∷ directory_entry_label
    ∷ directory_head_label ∷ mark_layout_label ∷ mark_choice_label ∷ recovery_manifest_label
    ∷ authority_binding_label ∷ control_request_label ∷ operation_receipt_label ∷ replica_push_label
    ∷ replica_ack_label ∷ authority_transfer_label ∷ server_fresh_label ∷ package_manifest_label
    ∷ agent_grant_label ∷ delegation_label ∷ action_grant_label ∷ action_lease_label
    ∷ action_decision_label ∷ []
