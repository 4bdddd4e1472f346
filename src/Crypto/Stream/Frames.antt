-- ===== src/Crypto/Stream/Frames.antt =====
-- The frames that crates/oc-crypto/src/stream.rs delivers, and a reader that opens them with `open_chunk`.
use open_crate.Base.{
  ℕ, lt→ltb, ◌+◌, ◌^◌, ◌<◌, ◌≤◌, ◌≡◌, refl, ap, sym, ◌∙◌, List, [], ◌∷◌, ◌++◌, length, All, ok, err,
  ◌>>=◌, arith, length-append,
}
use open_crate.Base.Words.{checked_add, checked_add_lem, checked_add_u32}
use open_crate.Crypto.{Checked}
use open_crate.Crypto.Merkle.{Hash}
use open_crate.Crypto.Secret.{SecretBuf, with_capacity, capacity, as_slice}
use open_crate.Crypto.Secret.Declared.{length-zeros}
use open_crate.Crypto.Aead.{xchacha20_poly1305, Primitives, open_chunk, nonce_len}
use open_crate.Crypto.Aead.Opened.{
  IsCipher, nonce_of, framed_of, chunk_leaf, seal_chunk_hedged_lem, open_chunk-seal_chunk_hedged,
}
use open_crate.Crypto.Stream.{Host, State, seal_piece}
use open_crate.Crypto.Stream.Chunks.{seal_all}
use open_crate.Crypto.Stream.Pieces.{joined}
use mathlib.Core.List.{append_assoc, append-nil}

abbrev pub Frame : Type 0
Frame = List ℕ × List ℕ

-- What was delivered for some frames: the nonce and the bytes of each.
abbrev pub delivered : List Frame → List (List ℕ)
delivered [] = []
delivered ((nonce, framed) ∷ frames) = nonce ∷ framed ∷ delivered frames

-- A reader that opens frames in their order, each in a buffer of its own, and adds up what is in them.
abbrev and_then :
    Checked Hash × SecretBuf
    → (Hash → List ℕ → Checked (List ℕ × List Hash))
    → Checked (List ℕ × List Hash)
and_then (err failure, out) next = err failure
and_then (ok leaf, out) next = next leaf (as_slice out)

pub open_all :
    (prim : Primitives) (key file_id : List ℕ) → ℕ → ℕ → List Frame → Checked (List ℕ × List Hash)
open_all prim key file_id room index [] = ok ([], [])
open_all prim key file_id room index ((nonce, framed) ∷ frames) =
    let rest = open_all prim key file_id room (index + 1) frames in
    and_then
      (open_chunk prim key xchacha20_poly1305 file_id index nonce framed (with_capacity room))
      (λ leaf plaintext. rest >>= λ (more, leaves). ok (plaintext ++ more, leaf ∷ leaves))

-- The pieces `ps`, sealed from the state `st` on: what the state is then, and what a reader makes of what was delivered.
pub record Done {G : Type 0} (prim : Primitives) (key file_id : List ℕ) (room : ℕ)
    (ps : List (List ℕ)) (st st' : State (List (List ℕ)) G) : Type 0 where
  pub frames : List Frame
  pub leaves : List Hash
  pub index : st'.index ≡ st.index + length ps
  pub total_len : st'.total_len ≡ st.total_len + length (joined ps)
  pub to : st'.to ≡ st.to ++ delivered frames
  pub tree : st'.leaves ≡ st.leaves ++ leaves
  pub opened : open_all prim key file_id room st.index frames ≡ ok (joined ps, leaves)
  pub count : length leaves ≡ length ps

capacity_lem : (room n : ℕ) → n ≤ room → n ≤ capacity (with_capacity room)
unfolding with_capacity
capacity_lem room n h = omega (arith, h, length-zeros room)

module _ {E S G : Type 0} (h : Host E S (List (List ℕ)) G)
    (collects : (sunk : List (List ℕ)) (bytes : List ℕ)
      → h.sink sunk bytes ≡ ok (sunk ++ (bytes ∷ [])))
    (prim : Primitives) (c : IsCipher prim) (key file_id : List ℕ) where
  seal_piece_lem :
      (piece : List ℕ) (st : State (List (List ℕ)) G)
      → length piece < 2 ^ 32
      → st.index + 1 < 2 ^ 32
      → st.total_len + length piece < 2 ^ 64
      → (seed : List ℕ) × (st' : State (List (List ℕ)) G) × (seal_piece h prim key
            xchacha20_poly1305 file_id piece st
          ≡ ok st')
        × (st'.index ≡ st.index + 1)
        × (st'.total_len ≡ st.total_len + length piece)
        × (st'.to
            ≡ st.to
              ++ (nonce_of prim c key file_id st.index seed piece
                  ∷ framed_of prim c key file_id st.index seed piece
                  ∷ []))
        × (st'.leaves ≡ st.leaves ++ (chunk_leaf prim c key file_id st.index seed piece ∷ []))
  unfolding seal_piece checked_add_u32 checked_add
  seal_piece_lem piece st small below total =
      let seed = (h.fill_bytes st.rng nonce_len).0 in
      let nonce = nonce_of prim c key file_id st.index seed piece in
      let framed = framed_of prim c key file_id st.index seed piece in
      (
        seed,
        record {
          to = (st.to ++ (nonce ∷ [])) ++ (framed ∷ []);
          rng = (h.fill_bytes st.rng nonce_len).1;
          leaves = st.leaves ++ (chunk_leaf prim c key file_id st.index seed piece ∷ []);
          total_len = st.total_len + length piece;
          index = st.index + 1;
        },
        rw
            (
              seal_chunk_hedged_lem prim c key file_id st.index seed piece small,
              collects st.to nonce,
              collects (st.to ++ (nonce ∷ [])) framed,
              checked_add_lem st.total_len (length piece) total,
              lt→ltb (st.index + 1) (2 ^ 32) below,
            )
            refl,
        refl,
        refl,
        append_assoc st.to (nonce ∷ []) (framed ∷ []),
        refl,
      )

  -- Pieces that fit into a buffer and are not too many are sealed, and a reader gets them and their leaves back.
  pub seal_all_lem :
      (room : ℕ)
      → room < 2 ^ 32
      → (ps : List (List ℕ)) (st : State (List (List ℕ)) G) → All (λ piece. length piece ≤ room) ps
      → st.index + length ps < 2 ^ 32
      → st.total_len + length (joined ps) < 2 ^ 64
      → (st' : State (List (List ℕ)) G) × (seal_all h prim key xchacha20_poly1305 file_id ps st
          ≡ ok st')
        × Done prim key file_id room ps st st'
  unfolding seal_all open_all
  seal_all_lem room small [] st fits below total = (
    st,
    refl,
    record {
      frames = [];
      leaves = [];
      index = omega arith;
      total_len = omega arith;
      to = sym (append-nil st.to);
      tree = sym (append-nil st.leaves);
      opened = refl;
      count = refl;
    },
  )
  seal_all_lem room small (piece ∷ ps) st (fit, fits) below total =
      let sum = length-append piece (joined ps) in
      let (seed, st1, sealed, index, total_len, to, tree) =
        seal_piece_lem piece st (omega (arith, fit, small)) (omega (arith, below))
          (omega (arith, total, sum)) in
      let (st', all, done) =
        seal_all_lem room small ps st1 fits (omega (arith, below, index))
          (omega (arith, total, sum, total_len)) in
      let nonce = nonce_of prim c key file_id st.index seed piece in
      let framed = framed_of prim c key file_id st.index seed piece in
      let (after, opens, slice) =
        open_chunk-seal_chunk_hedged prim c key file_id st.index seed piece (with_capacity room)
          (omega (arith, fit, small)) (capacity_lem room (length piece) fit) in
      let later : open_all prim key file_id room (st.index + 1) done.frames
          ≡ ok (joined ps, done.leaves) =
        ap (λ (n : ℕ). open_all prim key file_id room n done.frames) (sym index) ∙ done.opened in
      (
        st',
        rw sealed all,
        record {
          frames = (nonce, framed) ∷ done.frames;
          leaves = chunk_leaf prim c key file_id st.index seed piece ∷ done.leaves;
          index = omega (arith, index, done.index);
          total_len = omega (arith, total_len, done.total_len, sum);
          to = done.to ∙ rw to (append_assoc st.to (nonce ∷ framed ∷ []) (delivered done.frames));
          tree =
              done.tree
              ∙ rw tree (
                  append_assoc st.leaves (chunk_leaf prim c key file_id st.index seed piece ∷ [])
                    done.leaves);
          opened = rw (opens, slice, later) refl;
          count = omega (arith, done.count);
        },
      )
