-- ===== src/Crypto.antt =====
-- crates/oc-crypto: the errors that its operations share (src/lib.rs).
pub mod Labels
pub mod Transcript
pub mod Merkle
pub mod Secret
pub mod Aead
pub mod Stream
use open_crate.Base.{Result}

pub data CryptoError : Type 0 where
  authentication bad_signature bad_length tree_mismatch index_out_of_range bad_key
        unsupported_algorithm :
      CryptoError

abbrev pub Checked {ℓ} : Type ℓ → Type ℓ
Checked A = Result CryptoError A
