-- ===== src/Crypto/Stream/Opened.antt =====
-- What `seal_chunks` of crates/oc-crypto/src/stream.rs seals, `open_chunk` of src/aead.rs opens.
use open_crate.Base.{
  ℕ, ◌-◌, ◌*◌, ◌^◌, ◌<◌, ◌≤◌, ◌≡◌, refl, ap, ◌∙◌, false, List, [], ◌∷◌, ◌++◌, length, ◌==◌, Result,
  ok, err, ◌>>=◌, arith,
}
use open_crate.Crypto.Merkle.{Hash, MerkleTree, build, root}
use open_crate.Crypto.Merkle.Height.{build-levels_bound}
use open_crate.Crypto.Aead.{xchacha20_poly1305, Primitives}
use open_crate.Crypto.Aead.Opened.{IsCipher}
use open_crate.Crypto.Stream.{Host, State, Sealed, sealed_of, seal_chunks}
use open_crate.Crypto.Stream.Chunks.{pieces, seal_all, Delivers}
use open_crate.Crypto.Stream.Pieces.{joined, joined-pieces, pieces-All, length-pieces, some_pieces}
use open_crate.Crypto.Stream.Loop.{without_source, seal_chunks-seal_input, seal_input}
use open_crate.Crypto.Stream.Frames.{Frame, delivered, open_all, seal_all_lem}

with_source :
    {E S T : Type 0} (r : Result E (Sealed × S × T)) (sealed : Sealed) (st : T)
    → (r >>= without_source) ≡ ok (sealed, st)
    → (from : S) × (r ≡ ok (sealed, from, st))
with_source (err failure) sealed st e = cc
with_source {E} {S} {T} (ok (sealed', from, st')) sealed st e = (
  from,
  ap (λ (r : Result E (Sealed × T)). r >>= λ (pair : Sealed × T). ok (pair.0, from, pair.1)) e,
)

module _ {E S G : Type 0} (h : Host E S (List (List ℕ)) G)
    (collects : (sunk : List (List ℕ)) (bytes : List ℕ)
      → h.sink sunk bytes ≡ ok (sunk ++ (bytes ∷ [])))
    (prim : Primitives) (c : IsCipher prim) (key file_id : List ℕ) where
  abbrev sealed_as : State (List (List ℕ)) G → MerkleTree → Sealed
  sealed_as st tree = record {
    total_len = st.total_len;
    chunk_count = st.index;
    tree_root = root prim.blake3 tree;
  }

  seal_input_lem :
      (chunk_size : ℕ) (input : List ℕ) (rng : G) (st' : State (List (List ℕ)) G)
      (tree : MerkleTree)
      → 0 < chunk_size
      → seal_all h prim key xchacha20_poly1305 file_id
          (pieces (length input) chunk_size input)
          (record { to = []; rng = rng; leaves = []; total_len = 0; index = 0 })
        ≡ ok st'
      → build prim.blake3 st'.leaves ≡ ok tree
      → seal_input h prim key xchacha20_poly1305 file_id chunk_size input [] rng
        ≡ ok (sealed_as st' tree, st')
  unfolding seal_input sealed_of
  seal_input_lem chunk_size input rng st' tree some_room all built =
      let positive : (chunk_size == 0) ≡ false = ground (arith, some_room) in
      rw (positive, all, built) refl

  -- For a chunk size that is no zero and a `u32`, and an input that a `u32` counts the chunks of, however the source gives
  -- the input: `seal_chunks` comes to an end and succeeds. It tells the length of the input and the number of chunks, a
  -- reader that opens the delivered frames in their order gets the input back, and the root that is told is the one of
  -- the tree of the leaves that this reader gets.
  pub seal_chunks-open_all :
      (left : S → List ℕ) (chunk_size : ℕ) (from : S) (rng : G)
      → Delivers h left
      → 0 < chunk_size
      → chunk_size < 2 ^ 32
      → length (left from) ≤ chunk_size * (2 ^ 32 - 1)
      → (sealed : Sealed) × (from' : S) × (st : State (List (List ℕ)) G) × (frames : List Frame)
        × (leaves : List Hash) × (tree : MerkleTree) × (seal_chunks h prim key xchacha20_poly1305
              file_id chunk_size from [] rng
            ≡ ok (sealed, from', st))
        × (st.to ≡ delivered frames)
        × (open_all prim key file_id chunk_size 0 frames ≡ ok (left from, leaves))
        × (sealed.total_len ≡ length (left from))
        × (sealed.chunk_count ≡ length leaves)
        × (build prim.blake3 leaves ≡ ok tree)
        × (sealed.tree_root ≡ root prim.blake3 tree)
  seal_chunks-open_all left chunk_size from rng d some_room small few =
      let input = left from in
      let ps = pieces (length input) chunk_size input in
      let start : State (List (List ℕ)) G = record {
        to = [];
        rng = rng;
        leaves = [];
        total_len = 0;
        index = 0;
      } in
      let same : joined ps ≡ input = joined-pieces (length input) chunk_size input in
      let count = length-pieces (length input) chunk_size (2 ^ 32 - 1) input (omega arith) few in
      let (st', all, done) =
        seal_all_lem h collects prim c key file_id chunk_size small ps start
          (pieces-All (length input) chunk_size input some_room (omega arith))
          (omega (arith, count)) (omega (arith, ap length same, few, small)) in
      let some_leaf = some_pieces (length input) chunk_size input in
      let (tree, built, one, high) =
        build-levels_bound prim.blake3 done.leaves 32 (omega (arith, done.count, some_leaf))
          (omega (arith, done.count, count)) (omega (arith, done.count, count)) in
      let (from', ran) =
        with_source (seal_chunks h prim key xchacha20_poly1305 file_id chunk_size from [] rng)
          (sealed_as st' tree) st'
          (seal_chunks-seal_input h prim key xchacha20_poly1305 file_id left d chunk_size from []
              rng
            ∙ seal_input_lem chunk_size input rng st' tree some_room all (rw done.tree built)) in
      (
        sealed_as st' tree,
        from',
        st',
        done.frames,
        done.leaves,
        tree,
        ran,
        done.to,
        done.opened ∙ ap (λ (bytes : List ℕ). ok (bytes, done.leaves)) same,
        omega (arith, done.total_len, ap length same),
        omega (arith, done.index, done.count),
        built,
        refl,
      )
