-- ===== src/Crypto/Secret.antt =====
-- `SecretBuf` of crates/oc-crypto/src/secret.rs: a buffer of plaintext with a fixed capacity. Its bytes are all there at
-- any time, so their number is the capacity.
pub mod Declared
use open_crate.Base.{
  ℕ, ◌+◌, ◌-◌, ◌≤◌, ◌≡◌, refl, List, ◌++◌, length, take, drop, leb, if◌then◌else◌, Option, none,
  some, ok, ◌>>◌, fail_if, ltb, ◌>>=◌, ok_or, All, arith,
}
use open_crate.Crypto.{Checked, bad_length}
use open_crate.Crypto.Merkle.{zeros}

pub record SecretBuf : Type 0 where
  pub bytes : List ℕ
  pub len : ℕ

unfoldable pub with_capacity : ℕ → SecretBuf
with_capacity capacity = record { bytes = zeros capacity; len = 0 }

abbrev pub capacity : SecretBuf → ℕ
capacity buf = length buf.bytes

-- `self.bytes.get(..self.len).unwrap_or_default()`
unfoldable pub as_slice : SecretBuf → List ℕ
as_slice buf = if leb buf.len (capacity buf) then take buf.len buf.bytes else List.[]

unfoldable pub wipe : SecretBuf → SecretBuf
wipe buf = record { bytes = zeros (capacity buf); len = 0 }

-- What a caller of `as_capacity_mut` leaves that writes from the start on: the buffer is wiped before.
unfoldable pub written : SecretBuf → List ℕ → SecretBuf
written buf src = record {
  bytes = take (capacity buf) (src ++ drop (length src) (zeros (capacity buf)));
  len = 0;
}

unfoldable pub declare_len : SecretBuf → ℕ → Checked SecretBuf
declare_len buf len = do fail_if (ltb (capacity buf) len) bad_length; ok (record buf { len = len })

-- What a caller of `as_declared_mut` leaves that puts other bytes in the place of the declared ones.
unfoldable pub replaced : SecretBuf → List ℕ → SecretBuf
replaced buf src = record buf { bytes = src ++ drop (length src) buf.bytes }
