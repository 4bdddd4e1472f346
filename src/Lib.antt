-- ===== src/Lib.antt =====
-- Open Crate keeps a document in a container that its author signs, and decides on the reader's device
-- whether the reader may do something with it. This library models the core of that program:
--
-- * Policy (crates/oc-policy/src/lib.rs) is the access decision. `evaluate` takes the author's policy, a
--   lease and the facts of the moment, and allows or denies one action. Policy/Rules has the methods of
--   `Policy`, Policy/Digest `digest_eq`, Policy/Intersect `intersect`, and Policy/Evaluate `evaluate`, one
--   definition for each check in the order of the code. A `BTreeMap` keyed by actions is a function from
--   actions, a `BTreeSet<u16>` its increasing list (Policy/Sets).
-- * Format/Tlv (crates/oc-format/src/tlv.rs) is the encoding of fields on which all documents stand:
--   `TlvReader::next_field`, `TlvWriter::put`, and the loops `while let Some(field) = reader.next_field()?`
--   with any body, as `read_fields`.
-- * Format/Prologue and Format/Layout (crates/oc-format/src/lib.rs) cut the signed header out of a
--   container, and map ranges of the plaintext to chunks and to ranges of the file.
-- * Format/Frame (crates/oc-format/src/frame.rs) is the length before a message.
-- * Format/Footer (crates/oc-format/src/footer.rs) is the timestamp after the chunks.
-- * Format/PolicyCodec (crates/oc-format/src/policy_codec.rs) carries a policy into the signed header and
--   back: Values has the values of single fields, Encode and Decode the two directions. It stands on
--   Policy and on Format/Tlv.
--
-- * Crypto/Labels and Crypto/Transcript (crates/oc-crypto/src/lib.rs, transcript.rs) are the registry of labels and
--   the bytes that are signed. Crypto/Merkle (crates/oc-crypto/src/merkle.rs) is the integrity tree over the chunks:
--   its levels, proofs, their verification, and the change of one leaf; Crypto/Merkle/Consistency has the proofs that
--   one tree extends another. BLAKE3 is a parameter.
-- * Crypto/Stream (crates/oc-crypto/src/stream.rs) is the loop that reads a host's source, seals chunk by chunk and delivers
--   the frames, on Crypto/Aead (crates/oc-crypto/src/aead.rs, and hedged_nonce of kdf.rs), Crypto/Secret
--   (crates/oc-crypto/src/secret.rs) and Crypto/Merkle. The cipher, HKDF and the host's calls are parameters.
-- * Protocol/Actions (crates/oc-protocol/src/action.rs) are the rules of what an agent may do: Text has the shape of
--   names and paths, Within `args_within` and `narrower`, Decode and Grant the parsing of rules and of signed grants.
-- * Protocol/Agents (crates/oc-protocol/src/agent.rs) are grants to an agent's door and their delegation: Decode
--   parses the signed documents, which stand on Format/Tlv and Format/PolicyCodec, and Chain is
--   `verify_grant_chain_with_actions`, which follows the links and narrows the rules. The check of an Ed25519
--   signature is a parameter.
-- * Protocol/Leases (crates/oc-protocol/src/lease.rs) is the server's document with the facts that `evaluate` reads,
--   and with a policy in it; Protocol/Revocations (crates/oc-protocol/src/revocation.rs) is the document of a
--   revocation. Protocol/Signatures is about the readers of all signed documents, what
--   they take for a signature, and the labels that keep the documents apart.
--
-- Code that may fail returns a `Result`; a method that changes its record returns the new one. `u64` and
-- `usize` are numbers with the checks of the code written out (Base/Words), a `usize` has 64 bits, and an
-- `i64` is an integer with `IsI64` where a theorem needs its range (Base/Int). Bytes are numbers with
-- `IsBytes` where a theorem needs it. The loops over fields run on fuel that is one more than the length of
-- the buffer: each field takes six bytes or more, and the theorems on the loops show that it is enough. The
-- loops over the levels of a tree run on fuel that is the number of its leaves, since each level is shorter than
-- the one below; `fill` has a round for each byte of room, and `seal_chunks` one for each `u32` index, which grows
-- in each; `split_point` has one round for each bit of a `usize`, and the inner loops of
-- `verify_consistency` have more rounds than the number that they halve; `subproof` and `mth` recurse on shorter slices. A string is the list of its UTF-8 bytes.
-- `oc_crypto::digest_eq`, the constant-time comparison of a third-party crate, is equality of bytes.
--
-- Not modelled: ciphers, signatures, key agreement and key derivation; wiping and capacity of buffers other than
-- `SecretBuf`; the texts
-- of errors; the encoders of grants and delegations, and requests, leases and
-- decisions of actions; and the other documents of crates/oc-format, crates/oc-protocol and crates/oc-engine.
pub mod Base
pub mod Policy
pub mod Format
pub mod Crypto
pub mod Protocol
pub mod Tests
