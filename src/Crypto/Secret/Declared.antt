-- ===== src/Crypto/Secret/Declared.antt =====
-- What is in a `SecretBuf` of crates/oc-crypto/src/secret.rs after a write.
use open_crate.Base.{
  ℕ, zero, suc, ◌≤◌, ◌≡◌, refl, ap, List, ◌++◌, length, take, drop, ok, arith, take_all,
  take-append, length-append, length-drop, le→leb, le→ltb,
}
use open_crate.Crypto.Merkle.{zeros}
use open_crate.Crypto.Secret.{SecretBuf, capacity, wipe, written, declare_len, as_slice}

pub length-zeros : (n : ℕ) → length (zeros n) ≡ n
length-zeros zero = refl
length-zeros (suc n) = ap suc (length-zeros n)

whole :
    (buf : SecretBuf) (src : List ℕ)
    → length src ≤ capacity buf
    → length (src ++ drop (length src) (zeros (capacity buf))) ≡ capacity buf
whole buf src fits = omega (
  arith,
  length-append src (drop (length src) (zeros (capacity buf))),
  length-drop (length src) (zeros (capacity buf)),
  length-zeros (capacity buf),
  fits,
)

-- A buffer with the bytes `src` declared.
pub record Holds (buf : SecretBuf) (room : ℕ) (src : List ℕ) : Type 0 where
  pub slice : as_slice buf ≡ src
  pub size : capacity buf ≡ room
  pub len : buf.len ≡ length src

-- What fits is written, declared and read back.
pub declare_len-written :
    (buf : SecretBuf) (src : List ℕ)
    → length src ≤ capacity buf
    → (after : SecretBuf) × (declare_len (written buf src) (length src) ≡ ok after)
      × Holds after (capacity buf) src
unfolding declare_len written as_slice
declare_len-written buf src fits =
    let bytes = src ++ drop (length src) (zeros (capacity buf)) in
    let full = whole buf src fits in
    let all : take (capacity buf) bytes ≡ bytes =
      (take_all (capacity buf) bytes (omega (arith, full))).0 in
    (
      record { bytes = bytes; len = length src },
      rw (all, full, le→ltb (capacity buf) (length src) fits) refl,
      record {
        slice =
            rw (full, le→leb (length src) (capacity buf) fits)
              (take-append src (drop (length src) (zeros (capacity buf))));
        size = full;
        len = refl;
      },
    )

pub capacity-wipe : (buf : SecretBuf) → capacity (wipe buf) ≡ capacity buf
unfolding wipe
capacity-wipe buf = length-zeros (capacity buf)
