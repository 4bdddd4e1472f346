-- ===== src/Tests/Streams.antt =====
-- The theorems on crates/oc-crypto/src/aead.rs and src/stream.rs with a cipher that does not encrypt, and a source that gives
-- two bytes at a time.
use open_crate.Base.{
  ℕ, ◌+◌, ◌-◌, ◌≡◌, refl, sym, some, List, [], ◌∷◌, ◌++◌, length, take, drop, min, ok, err, ◌>>=◌,
  arith, length-take, length-append, take-append, drop-append, take-append-drop, nil_of_length,
}
use open_crate.Base.Bytes.{bytes_eq}
use open_crate.Crypto.{CryptoError, authentication}
use open_crate.Crypto.Merkle.{Hash, MerkleTree, zeros, build, root}
use open_crate.Crypto.Secret.{
  SecretBuf, with_capacity, as_slice, wipe, written, declare_len, replaced,
}
use open_crate.Crypto.Aead.{
  Primitives, xchacha20_poly1305, open_chunk, open_chunk_inner, open_declared, open_in_place,
  split_tag,
}
use open_crate.Crypto.Aead.Opened.{IsCipher}
use open_crate.Crypto.Aead.Wiped.{open_chunk-with_capacity}
use open_crate.Crypto.Stream.{Host, State, Sealed, seal_chunks}
use open_crate.Crypto.Stream.Chunks.{Delivers}
use open_crate.Crypto.Stream.Loop.{seal_input, seal_chunks-seal_input, without_source}
use open_crate.Crypto.Stream.Frames.{delivered, open_all}
use open_crate.Crypto.Stream.Opened.{seal_chunks-open_all}

abbrev plain : Primitives
plain = record {
  encrypt = λ key nonce aad plaintext. some (plaintext ++ zeros 16);
  decrypt = λ key nonce aad ct tag. (bytes_eq tag (zeros 16), ct);
  decrypt_vec = λ key nonce aad sealed. some (take (length sealed - 16) sealed);
  hkdf = λ seed ikm info n. some (take n (seed ++ (info ++ zeros 24)));
  blake3 = λ bytes. take 32 (bytes ++ zeros 32);
}

plain-IsCipher : IsCipher plain
unfolding bytes_eq
plain-IsCipher = record {
  sealed = λ key nonce aad plaintext. plaintext ++ zeros 16;
  derived = λ seed ikm info. take 24 (seed ++ (info ++ zeros 24));
  encrypts = λ key nonce aad plaintext short small. refl;
  grows = λ key nonce aad plaintext short small. omega (arith, length-append plaintext (zeros 16));
  decrypts = λ key nonce aad plaintext short small.
      rw (take-append plaintext (zeros 16), drop-append plaintext (zeros 16)) refl;
  derives = λ seed ikm info. refl;
}

abbrev two_at_a_time : Host CryptoError (List ℕ) (List (List ℕ)) ℕ
two_at_a_time = record {
  source = λ bytes room. ok (take (min 2 room) bytes, drop (min 2 room) bytes);
  sink = λ sunk bytes. ok (sunk ++ (bytes ∷ []));
  fill_bytes = λ counter n. (counter ∷ zeros 23, counter + 1);
}

two_at_a_time-Delivers : Delivers two_at_a_time (λ bytes. bytes)
two_at_a_time-Delivers = record {
  got = λ bytes room. take (min 2 room) bytes;
  next = λ bytes room. drop (min 2 room) bytes;
  call = λ bytes room h. refl;
  prefix = λ bytes room h. sym (take-append-drop (min 2 room) bytes);
  fits = λ bytes room h. omega (arith, length-take (min 2 room) bytes);
  end = λ bytes room h e. nil_of_length bytes (omega (arith, e, h, length-take (min 2 room) bytes));
}

abbrev seven : List ℕ
seven = 1 ∷ 2 ∷ 3 ∷ 4 ∷ 5 ∷ 6 ∷ 7 ∷ []

abbrev zero_key : List ℕ
zero_key = zeros 32

seal_chunks-seal_input_example :
    (seal_chunks two_at_a_time plain zero_key xchacha20_poly1305 (zeros 16) 3 seven [] 0
      >>= without_source)
    ≡ seal_input two_at_a_time plain zero_key xchacha20_poly1305 (zeros 16) 3 seven [] 0
seal_chunks-seal_input_example =
    seal_chunks-seal_input two_at_a_time plain zero_key xchacha20_poly1305 (zeros 16)
      (λ bytes. bytes) two_at_a_time-Delivers 3 seven [] 0

seal_chunks-open_all_example :
    (sealed : Sealed) × (from : List ℕ) × (st : State (List (List ℕ)) ℕ) × (frames : List
      (List ℕ × List ℕ))
    × (leaves : List Hash) × (tree : MerkleTree) × (seal_chunks two_at_a_time plain zero_key
          xchacha20_poly1305
          (zeros 16)
          3
          seven
          []
          0
        ≡ ok (sealed, from, st))
    × (st.to ≡ delivered frames)
    × (open_all plain zero_key (zeros 16) 3 0 frames ≡ ok (seven, leaves))
    × (sealed.total_len ≡ 7)
    × (sealed.chunk_count ≡ length leaves)
    × (build plain.blake3 leaves ≡ ok tree)
    × (sealed.tree_root ≡ root plain.blake3 tree)
seal_chunks-open_all_example =
    seal_chunks-open_all two_at_a_time (λ sunk bytes. refl) plain plain-IsCipher zero_key (zeros 16)
      (λ bytes. bytes) 3 seven 0 two_at_a_time-Delivers (omega arith) (omega arith) (omega arith)

-- Two bytes and a tag that is wrong.
abbrev forged : List ℕ
forged = 8 ∷ 9 ∷ 1 ∷ zeros 15

abbrev used : SecretBuf
used = record { bytes = 5 ∷ 6 ∷ 7 ∷ []; len = 2 }

forged_refused :
    (open_chunk plain zero_key xchacha20_poly1305 (zeros 16) 0 (zeros 24) forged used).0
    ≡ err authentication
unfolding open_chunk open_chunk_inner open_declared open_in_place split_tag wipe written declare_len
    replaced as_slice bytes_eq
forged_refused = refl

open_chunk-with_capacity_example :
    (open_chunk plain zero_key xchacha20_poly1305 (zeros 16) 0 (zeros 24) forged used).1
    ≡ with_capacity 3
open_chunk-with_capacity_example =
    open_chunk-with_capacity plain (λ key nonce aad ct tag. refl) zero_key (zeros 16) 0 (zeros 24)
      xchacha20_poly1305 forged used authentication forged_refused
