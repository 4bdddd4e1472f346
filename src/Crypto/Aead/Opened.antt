-- ===== src/Crypto/Aead/Opened.antt =====
-- Sealing and opening of a chunk of crates/oc-crypto/src/aead.rs.
use open_crate.Base.{
  ℕ, suc, ◌+◌, ◌-◌, ◌^◌, ◌<◌, ◌≤◌, ◌≡◌, refl, ap, true, some, List, [], ◌∷◌, ◌++◌, length, take,
  drop, ok, arith, length-take, length-append, le→ltb, leb, le→leb, take-append,
}
use open_crate.Base.Words.{to_u32_lem}
use open_crate.Base.Bytes.{to_be}
use open_crate.Crypto.Merkle.{Hash, leaf_of, zeros}
use open_crate.Crypto.Labels.{chunk_label, frame_nonce_label}
use open_crate.Crypto.Secret.{SecretBuf, capacity, wipe, as_slice, replaced}
use open_crate.Crypto.Secret.Declared.{declare_len-written, capacity-wipe, Holds}
use open_crate.Crypto.Aead.{
  AeadAlg, alg_as_u8, zip_into, xchacha20_poly1305, Primitives, tag_len, split_tag, chunk_aad,
  hedged_nonce, seal_with, seal_chunk_with_aad, seal_chunk_hedged, open_in_place, open_declared,
  open_chunk_inner, open_chunk,
}

-- What the documentation of XChaCha20-Poly1305 and of HKDF says: a plaintext and data within the limit of the cipher,
-- which is above 2^32 bytes, are encrypted, with a tag of 16 bytes; with the same key, nonce and data the ciphertext is
-- decrypted to the plaintext; and 24 bytes can be derived.
pub record IsCipher (prim : Primitives) : Type 0 where
  pub sealed : List ℕ → List ℕ → List ℕ → List ℕ → List ℕ
  pub derived : List ℕ → List ℕ → List ℕ → List ℕ
  pub encrypts :
      (key nonce aad plaintext : List ℕ)
      → length aad < 2 ^ 32
      → length plaintext < 2 ^ 32
      → prim.encrypt key nonce aad plaintext ≡ some (sealed key nonce aad plaintext)
  pub grows :
      (key nonce aad plaintext : List ℕ)
      → length aad < 2 ^ 32
      → length plaintext < 2 ^ 32
      → length (sealed key nonce aad plaintext) ≡ length plaintext + tag_len
  pub decrypts :
      (key nonce aad plaintext : List ℕ)
      → length aad < 2 ^ 32
      → length plaintext < 2 ^ 32
      → prim.decrypt key nonce aad
          (take (length plaintext) (sealed key nonce aad plaintext))
          (drop (length plaintext) (sealed key nonce aad plaintext))
        ≡ (true, plaintext)
  pub derives : (seed ikm info : List ℕ) → prim.hkdf seed ikm info 24 ≡ some (derived seed ikm info)

length-zip_into : (slots source : List ℕ) → length (zip_into slots source) ≡ length slots
length-zip_into [] source = refl
length-zip_into (s ∷ slots) [] = refl
length-zip_into (s ∷ slots) (b ∷ source) = ap suc (length-zip_into slots source)

length-chunk_aad :
    (file_id : List ℕ) (index : ℕ) (alg : AeadAlg) → length (chunk_aad file_id index alg) ≡ 32
unfolding chunk_aad
length-chunk_aad file_id index alg =
    length-zip_into (zeros 32) (chunk_label ++ (file_id ++ (to_be 4 index ++ (alg_as_u8 alg ∷ []))))

split_tag_lem :
    (sealed : List ℕ) (n : ℕ)
    → length sealed ≡ n + tag_len
    → split_tag sealed ≡ some (take n sealed, drop n sealed)
unfolding split_tag
split_tag_lem sealed n h =
    let cut : length sealed - tag_len ≡ n = omega (arith, h) in
    rw (le→ltb (length sealed) tag_len (omega (arith, h)), cut) refl

as_slice-replaced :
    (buf : SecretBuf) (room : ℕ) (ct plaintext : List ℕ)
    → Holds buf room ct
    → length ct ≡ length plaintext
    → length ct ≤ room
    → as_slice (replaced buf plaintext) ≡ plaintext
unfolding as_slice replaced
as_slice-replaced buf room ct plaintext h same fits =
    let rest = drop (length plaintext) buf.bytes in
    let inside : leb buf.len (length (plaintext ++ rest)) ≡ true =
      le→leb buf.len (length (plaintext ++ rest))
        (omega (arith, h.len, same, length-append plaintext rest)) in
    rw (inside, h.len, same) (take-append plaintext rest)

module _ (prim : Primitives) (c : IsCipher prim) (key file_id : List ℕ) where
  abbrev aad_of : ℕ → List ℕ
  aad_of index = chunk_aad file_id index xchacha20_poly1305

  short_aad : (index : ℕ) → length (aad_of index) < 2 ^ 32
  short_aad index = omega (arith, length-chunk_aad file_id index xchacha20_poly1305)

  -- The nonce, the bytes and the leaf of a chunk.
  abbrev pub nonce_of : ℕ → List ℕ → List ℕ → List ℕ
  nonce_of index seed plaintext =
      c.derived seed (to_be 4 (length plaintext) ++ (plaintext ++ (to_be 4 32 ++ aad_of index)))
        frame_nonce_label

  abbrev pub framed_of : ℕ → List ℕ → List ℕ → List ℕ
  framed_of index seed plaintext =
      c.sealed key (nonce_of index seed plaintext) (aad_of index) plaintext

  abbrev pub chunk_leaf : ℕ → List ℕ → List ℕ → Hash
  chunk_leaf index seed plaintext =
      let framed = framed_of index seed plaintext in
      leaf_of prim.blake3 index (nonce_of index seed plaintext) (drop (length plaintext) framed)
        (take (length plaintext) framed)

  pub seal_chunk_hedged_lem :
      (index : ℕ) (seed plaintext : List ℕ)
      → length plaintext < 2 ^ 32
      → seal_chunk_hedged prim key xchacha20_poly1305 file_id index seed plaintext
        ≡ ok (
          nonce_of index seed plaintext,
          chunk_leaf index seed plaintext,
          framed_of index seed plaintext,
        )
  unfolding seal_chunk_hedged hedged_nonce seal_chunk_with_aad seal_with
  seal_chunk_hedged_lem index seed plaintext small =
      let nonce = nonce_of index seed plaintext in
      rw
        (
          to_u32_lem (length plaintext) small,
          length-chunk_aad file_id index xchacha20_poly1305,
          to_u32_lem 32 (omega arith),
          c.derives seed (to_be 4 (length plaintext) ++ (plaintext ++ (to_be 4 32 ++ aad_of index)))
              frame_nonce_label,
          c.encrypts key nonce (aad_of index) plaintext (short_aad index) small,
          split_tag_lem (framed_of index seed plaintext) (length plaintext)
              (c.grows key nonce (aad_of index) plaintext (short_aad index) small),
        )
        refl

  -- A chunk that is opened where it was sealed: the plaintext is in the buffer, and the leaf is the same.
  pub open_chunk-seal_chunk_hedged :
      (index : ℕ) (seed plaintext : List ℕ) (out : SecretBuf)
      → length plaintext < 2 ^ 32
      → length plaintext ≤ capacity out
      → (after : SecretBuf) × (open_chunk prim key xchacha20_poly1305 file_id index
            (nonce_of index seed plaintext)
            (framed_of index seed plaintext)
            out
          ≡ (ok (chunk_leaf index seed plaintext), after))
        × (as_slice after ≡ plaintext)
  unfolding open_chunk open_chunk_inner open_declared open_in_place
  open_chunk-seal_chunk_hedged index seed plaintext out small room =
      let nonce = nonce_of index seed plaintext in
      let framed = framed_of index seed plaintext in
      let grown = c.grows key nonce (aad_of index) plaintext (short_aad index) small in
      let ct = take (length plaintext) framed in
      let same : length ct ≡ length plaintext =
        omega (arith, length-take (length plaintext) framed, grown) in
      let fits : length ct ≤ capacity (wipe out) = omega (arith, same, room, capacity-wipe out) in
      let (buf, declared, holds) = declare_len-written (wipe out) ct fits in
      (
        replaced buf plaintext,
        rw
            (
              open_chunk,
              open_chunk_inner,
              split_tag_lem framed (length plaintext) grown,
              le→ltb (capacity (wipe out)) (length ct) fits,
              declared,
              holds.slice,
              c.decrypts key nonce (aad_of index) plaintext (short_aad index) small,
            )
            refl,
        as_slice-replaced buf (capacity (wipe out)) ct plaintext holds same fits,
      )
