-- ===== src/Crypto/Aead/Wiped.antt =====
-- `open_chunk` of crates/oc-crypto/src/aead.rs leaves no plaintext that was not authenticated.
use open_crate.Base.{
  ℕ, ◌≤◌, ◌≡◌, refl, ap, ◌∙◌, Option-cases, List, length, drop, ltb, ok, err, arith, length-drop,
  length-append, Bool-cases, inl, inr,
}
use open_crate.Crypto.{Checked, CryptoError}
use open_crate.Crypto.Merkle.{Hash}
use open_crate.Crypto.Secret.{SecretBuf, capacity, wipe, as_slice, replaced, with_capacity}
use open_crate.Crypto.Secret.Declared.{declare_len-written, capacity-wipe, Holds}
use open_crate.Crypto.Aead.{
  AeadAlg, xchacha20_poly1305, aes256_gcm, aes256_gcm_siv, Primitives, split_tag, chunk_aad,
  open_in_place, open_declared, open_chunk_inner, open_chunk, wipe_failed,
}

-- Decryption in place keeps the number of bytes.
abbrev InPlace : Primitives → Type 0
InPlace prim =
    (key nonce aad ct tag : List ℕ) → length (prim.decrypt key nonce aad ct tag).1 ≡ length ct

capacity-replaced :
    (buf : SecretBuf) (room : ℕ) (ct plaintext : List ℕ)
    → Holds buf room ct
    → length ct ≤ room
    → length plaintext ≡ length ct
    → capacity (replaced buf plaintext) ≡ room
unfolding replaced
capacity-replaced buf room ct plaintext h fits same = omega (
  arith,
  length-append plaintext (drop (length plaintext) buf.bytes),
  length-drop (length plaintext) buf.bytes,
  h.size,
  fits,
  same,
)

module _ (prim : Primitives) (in_place : InPlace prim) (key : List ℕ) (file_id : List ℕ) (index : ℕ)
    (nonce : List ℕ) where
  capacity-open_in_place :
      (alg : AeadAlg) (buf : SecretBuf) (room : ℕ) (ct tag aad : List ℕ)
      → Holds buf room ct
      → length ct ≤ room
      → capacity (open_in_place prim key alg nonce buf tag aad).1 ≡ room
  unfolding open_in_place
  capacity-open_in_place xchacha20_poly1305 buf room ct tag aad h fits =
      capacity-replaced buf room ct (prim.decrypt key nonce aad (as_slice buf) tag).1 h fits
        (in_place key nonce aad (as_slice buf) tag ∙ ap length h.slice)
  capacity-open_in_place aes256_gcm buf room ct tag aad h fits = h.size
  capacity-open_in_place aes256_gcm_siv buf room ct tag aad h fits = h.size

  -- The buffer keeps its capacity on every way through `open_chunk_inner`.
  capacity-open_chunk_inner :
      (alg : AeadAlg) (ct_and_tag : List ℕ) (out : SecretBuf)
      → capacity (open_chunk_inner prim key alg file_id index nonce ct_and_tag out).1 ≡ capacity out
  unfolding open_chunk_inner open_declared
  capacity-open_chunk_inner alg ct_and_tag out = elim (Option-cases (split_tag ct_and_tag)) [
    | inl e ↦ rw (open_chunk_inner, e) refl
    | inr ((ct, tag), e) ↦ elim (Bool-cases (ltb (capacity out) (length ct))) [
      | inl long ↦ rw (open_chunk_inner, e, long) (capacity-wipe out)
      | inr fits ↦
          let inside : length ct ≤ capacity out = ground (arith, fits) in
          let (buf, declared, h) = declare_len-written out ct inside in
          rw (open_chunk_inner, e, fits, declared)
            (capacity-open_in_place alg buf (capacity out) ct tag (chunk_aad file_id index alg) h
              inside)
    ]
  ]

  failed_is_wiped :
      (r : Checked Hash × SecretBuf) (failure : CryptoError)
      → (wipe_failed prim r).0 ≡ err failure
      → (wipe_failed prim r).1 ≡ with_capacity (capacity r.1)
  unfolding wipe with_capacity
  failed_is_wiped (ok leaf, out) failure e = cc
  failed_is_wiped (err x, out) failure e = refl

  -- Where `open_chunk` fails, for whatever reason and with whatever was in the buffer before, the buffer is as new
  -- afterwards: zeros, with no bytes declared and with the same capacity.
  pub open_chunk-with_capacity :
      (alg : AeadAlg) (ct_and_tag : List ℕ) (out : SecretBuf) (failure : CryptoError)
      → (open_chunk prim key alg file_id index nonce ct_and_tag out).0 ≡ err failure
      → (open_chunk prim key alg file_id index nonce ct_and_tag out).1
        ≡ with_capacity (capacity out)
  unfolding open_chunk
  open_chunk-with_capacity alg ct_and_tag out failure e =
      failed_is_wiped (open_chunk_inner prim key alg file_id index nonce ct_and_tag (wipe out))
        failure e
      ∙ ap with_capacity (capacity-open_chunk_inner alg ct_and_tag (wipe out) ∙ capacity-wipe out)
