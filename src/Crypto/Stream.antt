-- ===== src/Crypto/Stream.antt =====
-- crates/oc-crypto/src/stream.rs: a stream is sealed chunk by chunk. The host's source, sink and generator are parameters,
-- each with a state that a call changes; a source says how many bytes it has by giving them.
pub mod Chunks
pub mod Pieces
pub mod Loop
pub mod Frames
pub mod Opened
use open_crate.Base.{
  ℕ, zero, suc, ◌+◌, ◌-◌, ◌^◌, Bool, true, false, ◌&&◌, Option, none, some, List, [], ◌∷◌, ◌++◌,
  length, ltb, ◌==◌, if◌then◌else◌, Result, ok, err, ◌>>=◌, ◌>>◌, fail_if, ok_or,
}
use open_crate.Base.Words.{checked_add, checked_add_u32}
use open_crate.Crypto.{CryptoError, Checked, bad_length}
use open_crate.Crypto.Merkle.{Hash, MerkleTree, build, root}
use open_crate.Crypto.Secret.{SecretBuf, with_capacity, written, declare_len, as_slice}
use open_crate.Crypto.Aead.{AeadAlg, Primitives, seal_chunk_hedged, nonce_len}

pub record Sealed : Type 0 where
  pub total_len : ℕ
  pub chunk_count : ℕ
  pub tree_root : Hash

pub data StreamError (E : Type 0) : Type 0 where
  crypto : CryptoError → StreamError E
  host : E → StreamError E
  too_large : StreamError E

-- `?` on an error of cryptography, and `map_err(StreamError::Host)`.
abbrev in_stream : {E A : Type 0} → Checked A → Result (StreamError E) A
in_stream (ok a) = ok a
in_stream (err failure) = err (crypto failure)

abbrev of_host : {E A : Type 0} → Result E A → Result (StreamError E) A
of_host (ok a) = ok a
of_host (err failure) = err (host failure)

-- What the host gives: the states of source, sink and generator, and their calls.
pub record Host (E S K G : Type 0) : Type 0 where
  pub source : S → ℕ → Result E (List ℕ × S)
  pub sink : K → List ℕ → Result E K
  pub fill_bytes : G → ℕ → List ℕ × G

-- The variables of the loop of `seal_chunks`, but for the source.
pub record State (K G : Type 0) : Type 0 where
  pub to : K
  pub rng : G
  pub leaves : List Hash
  pub total_len : ℕ
  pub index : ℕ

module _ {E S K G : Type 0} (h : Host E S K G) where
  -- The loop of `fill` on a buffer of `room` bytes, with what the source has given; each call gives a byte or ends it, so
  -- `room` rounds are enough.
  pub fill_from : ℕ → ℕ → List ℕ → S → Result (StreamError E) (List ℕ × S)
  fill_from zero room filled from = ok (filled, from)
  fill_from (suc fuel) room filled from =
      if ltb (length filled) room
      then (do
        (got, from) ← of_host (h.source from (room - length filled))
        elim (length got == 0) [
          | true ↦ ok (filled, from)
          | false ↦ fill_from fuel room (filled ++ got) from
        ])
      else ok (filled, from)

  pub fill : ℕ → S → Result (StreamError E) (List ℕ × S)
  fill room from = fill_from room room [] from

  module _ (prim : Primitives) (key : List ℕ) (alg : AeadAlg) (file_id : List ℕ) where
    -- A chunk is sealed, and delivered to the sink.
    pub seal_piece : List ℕ → State K G → Result (StreamError E) (State K G)
    seal_piece piece st = do
      let (nonce_seed, rng) = h.fill_bytes st.rng nonce_len
      (nonce, leaf, framed) ←
          in_stream (seal_chunk_hedged prim key alg file_id st.index nonce_seed piece)
      to ← of_host (h.sink st.to nonce)
      to ← of_host (h.sink to framed)
      total_len ← ok_or (checked_add st.total_len (length piece)) too_large
      index ← ok_or (checked_add_u32 st.index 1) too_large
      ok (record {
        to = to;
        rng = rng;
        leaves = st.leaves ++ (leaf ∷ []);
        total_len = total_len;
        index = index;
      })

    -- The loop of `seal_chunks`. The index is a `u32` and grows, so 2 ^ 32 rounds are enough.
    pub seal_loop : ℕ → ℕ → S → State K G → Result (StreamError E) (S × State K G)
    seal_loop zero capacity from st = err too_large
    seal_loop (suc fuel) capacity from st = do
      (filled, from) ← fill capacity from
      plaintext ← in_stream (declare_len (written (with_capacity capacity) filled) (length filled))
      elim ((length filled == 0) && ltb 0 st.index) [
        | true ↦ ok (from, st)
        | false ↦ seal_piece (as_slice plaintext) st >>= λ sealed.
            elim (ltb (length filled) capacity) [
              | true ↦ ok (from, sealed)
              | false ↦ seal_loop fuel capacity from sealed
            ]
      ]

    -- The tree of the leaves, and what is told of the stream.
    pub sealed_of : State K G → Result (StreamError E) Sealed
    sealed_of st = do
      tree ← in_stream (build prim.blake3 st.leaves)
      ok (record {
        total_len = st.total_len;
        chunk_count = st.index;
        tree_root = root prim.blake3 tree;
      })

    -- `seal_chunks`, with the states in which it leaves the host.
    pub seal_chunks : ℕ → S → K → G → Result (StreamError E) (Sealed × S × State K G)
    seal_chunks chunk_size from to rng = do
      fail_if (chunk_size == 0) (crypto bad_length)
      (from, st) ←
          seal_loop (2 ^ 32) chunk_size from
            (record { to = to; rng = rng; leaves = []; total_len = 0; index = 0 })
      sealed ← sealed_of st
      ok (sealed, from, st)
