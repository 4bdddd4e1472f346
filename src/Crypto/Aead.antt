-- ===== src/Crypto/Aead.antt =====
-- crates/oc-crypto/src/aead.rs: sealing and opening of one chunk, and `hedged_nonce` of src/kdf.rs. The cipher and HKDF are
-- parameters; keys are plain bytes.
pub mod Opened
pub mod Wiped
use open_crate.Base.{
  ℕ, ◌+◌, ◌-◌, Bool, true, false, Option, none, some, List, [], ◌∷◌, ◌++◌, length, take, drop, ltb,
  leb, if◌then◌else◌, ok, err, ◌>>=◌, ◌>>◌, fail_if, ok_or,
}
use open_crate.Base.Words.{to_u32}
use open_crate.Base.Bytes.{to_be}
use open_crate.Crypto.Labels.{
  Label, chunk_label, frame_nonce_label, private_meta_label, meta_nonce_label,
}
use open_crate.Crypto.{Checked, bad_length, unsupported_algorithm, authentication}
use open_crate.Crypto.Merkle.{Hash, leaf_of, zeros}
use open_crate.Crypto.Secret.{SecretBuf, capacity, wipe, written, declare_len, as_slice, replaced}

abbrev pub nonce_len : ℕ
nonce_len = 24

abbrev pub tag_len : ℕ
tag_len = 16

pub data AeadAlg : Type 0 where
  xchacha20_poly1305 aes256_gcm aes256_gcm_siv : AeadAlg

abbrev pub alg_as_u8 : AeadAlg → ℕ
alg_as_u8 xchacha20_poly1305 = 1
alg_as_u8 aes256_gcm = 2
alg_as_u8 aes256_gcm_siv = 3

-- `for (slot, byte) in aad.iter_mut().zip(source)`
abbrev pub zip_into : List ℕ → List ℕ → List ℕ
zip_into [] source = []
zip_into (slot ∷ slots) [] = slot ∷ slots
zip_into (slot ∷ slots) (byte ∷ source) = byte ∷ zip_into slots source

pub chunk_aad : List ℕ → ℕ → AeadAlg → List ℕ
chunk_aad file_id index alg =
    zip_into (zeros 32) (chunk_label ++ (file_id ++ (to_be 4 index ++ (alg_as_u8 alg ∷ []))))

unfoldable metadata_aad : List ℕ → List ℕ
metadata_aad file_id =
    zip_into (zeros (length private_meta_label + 16)) (private_meta_label ++ file_id)

unfoldable ensure_supported : AeadAlg → Checked (Unit {0})
ensure_supported xchacha20_poly1305 = ok tt
ensure_supported aes256_gcm = err unsupported_algorithm
ensure_supported aes256_gcm_siv = err unsupported_algorithm

-- XChaCha20-Poly1305 and HKDF-SHA256 of other crates. `encrypt` gives the ciphertext and then the tag. `decrypt` works
-- in place on the ciphertext, tells if the tag is right, and leaves some bytes of the same number where it is not;
-- `decrypt_vec` takes ciphertext and tag together.
pub record Primitives : Type 0 where
  pub encrypt : List ℕ → List ℕ → List ℕ → List ℕ → Option (List ℕ)
  pub decrypt : List ℕ → List ℕ → List ℕ → List ℕ → List ℕ → Bool × List ℕ
  pub decrypt_vec : List ℕ → List ℕ → List ℕ → List ℕ → Option (List ℕ)
  pub hkdf : List ℕ → List ℕ → List ℕ → ℕ → Option (List ℕ)
  pub blake3 : List ℕ → Hash

-- `slice::split_last_chunk::<TAG_LEN>`
unfoldable pub split_tag : List ℕ → Option (List ℕ × List ℕ)
split_tag bytes =
    if ltb (length bytes) tag_len
    then none
    else some (take (length bytes - tag_len) bytes, drop (length bytes - tag_len) bytes)

module _ (prim : Primitives) where
  pub hedged_nonce : Label → List ℕ → List ℕ → List ℕ → Checked (List ℕ)
  hedged_nonce label seed plaintext aad = do
    pt_len ← ok_or (to_u32 (length plaintext)) bad_length
    aad_len ← ok_or (to_u32 (length aad)) bad_length
    let ikm = to_be 4 pt_len ++ (plaintext ++ (to_be 4 aad_len ++ aad))
    ok_or (prim.hkdf seed ikm label nonce_len) bad_length

  pub seal_with : List ℕ → AeadAlg → List ℕ → List ℕ → List ℕ → Checked (List ℕ)
  seal_with key xchacha20_poly1305 nonce plaintext aad =
      ok_or (prim.encrypt key nonce aad plaintext) bad_length
  seal_with key aes256_gcm nonce plaintext aad = err unsupported_algorithm
  seal_with key aes256_gcm_siv nonce plaintext aad = err unsupported_algorithm

  -- `seal_chunk_with_aad`, with what it leaves in `out`.
  pub seal_chunk_with_aad :
      List ℕ → AeadAlg → ℕ → List ℕ → List ℕ → List ℕ → Checked (Hash × List ℕ)
  seal_chunk_with_aad key alg index nonce plaintext aad = do
    sealed ← seal_with key alg nonce plaintext aad
    (ct, tag) ← ok_or (split_tag sealed) bad_length
    ok (leaf_of prim.blake3 index nonce tag ct, sealed)

  pub seal_chunk_hedged :
      List ℕ → AeadAlg → List ℕ → ℕ → List ℕ → List ℕ → Checked (List ℕ × Hash × List ℕ)
  seal_chunk_hedged key alg file_id index nonce_seed plaintext = do
    let aad = chunk_aad file_id index alg
    nonce ← hedged_nonce frame_nonce_label nonce_seed plaintext aad
    (leaf, framed) ← seal_chunk_with_aad key alg index nonce plaintext aad
    ok (nonce, leaf, framed)

  -- `open_in_place` on the declared bytes of a buffer: the buffer is changed in any case.
  unfoldable pub open_in_place :
      List ℕ → AeadAlg → List ℕ → SecretBuf → List ℕ → List ℕ → Checked (Unit {0}) × SecretBuf
  open_in_place key xchacha20_poly1305 nonce buf tag aad =
      let (right, plaintext) = prim.decrypt key nonce aad (as_slice buf) tag in
      (if right then ok tt else err authentication, replaced buf plaintext)
  open_in_place key aes256_gcm nonce buf tag aad = (err unsupported_algorithm, buf)
  open_in_place key aes256_gcm_siv nonce buf tag aad = (err unsupported_algorithm, buf)

  -- The part of `open_chunk_inner` after its buffer has the ciphertext.
  unfoldable pub open_declared :
      List ℕ
      → AeadAlg
      → List ℕ
      → ℕ
      → List ℕ
      → List ℕ
      → List ℕ
      → SecretBuf
      → Checked Hash × SecretBuf
  open_declared key alg file_id index nonce ct tag buf =
      let (opened, after) = open_in_place key alg nonce buf tag (chunk_aad file_id index alg) in
      (opened >> ok (leaf_of prim.blake3 index nonce tag ct), after)

  -- Where the bytes have no tag, or the buffer has no room, it stays as it is.
  unfoldable pub open_chunk_inner :
      List ℕ → AeadAlg → List ℕ → ℕ → List ℕ → List ℕ → SecretBuf → Checked Hash × SecretBuf
  open_chunk_inner key alg file_id index nonce ct_and_tag out = elim (split_tag ct_and_tag) [
    | none ↦ (err bad_length, out)
    | some (ct, tag) ↦
        if ltb (capacity out) (length ct)
        then (err bad_length, wipe out)
        else elim (declare_len (written out ct) (length ct)) [
          | err failure ↦ (err failure, written out ct)
          | ok declared ↦ open_declared key alg file_id index nonce ct tag declared
        ]
  ]

  abbrev pub wipe_failed : Checked Hash × SecretBuf → Checked Hash × SecretBuf
  wipe_failed (ok leaf, out) = (ok leaf, out)
  wipe_failed (err failure, out) = (err failure, wipe out)

  unfoldable pub open_chunk :
      List ℕ → AeadAlg → List ℕ → ℕ → List ℕ → List ℕ → SecretBuf → Checked Hash × SecretBuf
  open_chunk key alg file_id index nonce ct_and_tag out =
      wipe_failed (open_chunk_inner key alg file_id index nonce ct_and_tag (wipe out))

  unfoldable seal_metadata_hedged : List ℕ → List ℕ → List ℕ → List ℕ → Checked (List ℕ × List ℕ)
  seal_metadata_hedged key file_id nonce_seed plaintext = do
    let aad = metadata_aad file_id
    nonce ← hedged_nonce meta_nonce_label nonce_seed plaintext aad
    ct ← seal_with key xchacha20_poly1305 nonce plaintext aad
    ok (nonce, ct)

  unfoldable open_with : List ℕ → AeadAlg → List ℕ → List ℕ → List ℕ → Checked (List ℕ)
  open_with key xchacha20_poly1305 nonce ct_and_tag aad =
      ok_or (prim.decrypt_vec key nonce aad ct_and_tag) authentication
  open_with key aes256_gcm nonce ct_and_tag aad = err unsupported_algorithm
  open_with key aes256_gcm_siv nonce ct_and_tag aad = err unsupported_algorithm

  unfoldable open_metadata : List ℕ → List ℕ → List ℕ → List ℕ → Checked (List ℕ)
  open_metadata key file_id nonce ct_and_tag =
      open_with key xchacha20_poly1305 nonce ct_and_tag (metadata_aad file_id)
