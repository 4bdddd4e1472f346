-- ===== src/Crypto/Stream/Loop.antt =====
-- The loop of `seal_chunks` of crates/oc-crypto/src/stream.rs against the pieces of the input.
use open_crate.Base.{
  ℕ, zero, suc, ◌+◌, ◌-◌, ◌^◌, ◌<◌, ◌≤◌, ◌≡◌, refl, ap, ◌∙◌, true, false, ◌&&◌, List, [], ◌∷◌,
  length, take, drop, ltb, leb, ◌==◌, if◌then◌else◌, Result, Result-cases, Bool-cases, inl, inr, ok,
  err, ◌>>=◌, ◌>>◌, fail_if, arith, le→leb, leb→le, length-take, length-drop, take_all,
}
use open_crate.Base.Words.{checked_add_u32}
use open_crate.Crypto.{bad_length}
use open_crate.Crypto.Secret.{with_capacity, capacity}
use open_crate.Crypto.Secret.Declared.{declare_len-written, length-zeros}
use open_crate.Crypto.Aead.{AeadAlg, Primitives}
use open_crate.Crypto.Stream.{
  Sealed, crypto, sealed_of, seal_chunks, Host, State, StreamError, seal_piece, seal_loop,
}
use open_crate.Crypto.Stream.Chunks.{pieces, seal_all, Delivers, fill_lem}

module _ {E S K G : Type 0} (h : Host E S K G) (prim : Primitives) (key : List ℕ) (alg : AeadAlg)
    (file_id : List ℕ) where
  seal_piece-index :
      (piece : List ℕ) (st st' : State K G)
      → seal_piece h prim key alg file_id piece st ≡ ok st'
      → (st'.index ≡ st.index + 1) × (st'.index < 2 ^ 32)
  unfolding seal_piece checked_add_u32
  seal_piece-index piece st st' e = ground (arith, e)

  -- What is left to be sealed: after the first piece, no input is no piece.
  abbrev rest_pieces : ℕ → ℕ → List ℕ → ℕ → List (List ℕ)
  rest_pieces fuel capacity input index =
      if (length input == 0) && ltb 0 index then [] else pieces fuel capacity input

  rest_pieces-first :
      (n room : ℕ) (input : List ℕ) → rest_pieces n room input 0 ≡ pieces n room input
  rest_pieces-first n room input = ground arith

  -- The pieces after the first one.
  tail_pieces : ℕ → ℕ → List ℕ → List (List ℕ)
  tail_pieces n room input =
      if leb (length input) room then [] else pieces (n - 1) room (drop room input)

  pieces_cons :
      (n room : ℕ) (input : List ℕ)
      → 0 < room
      → length input ≤ n
      → pieces n room input ≡ take room input ∷ tail_pieces n room input
  unfolding tail_pieces
  pieces_cons zero room input some_room enough =
      let (all, none_left) = take_all room input (omega (arith, enough)) in
      rw (all, le→leb (length input) room (omega (arith, enough))) refl
  pieces_cons (suc n) room input some_room enough = elim (Bool-cases (leb (length input) room)) [
    | inl short ↦ rw (short, (take_all room input (leb→le (length input) room short)).0) refl
    | inr long ↦
        let less : n ≡ suc n - 1 = omega arith in
        rw long (ap (λ (k : ℕ). take room input ∷ pieces k room (drop room input)) less)
  ]

  rest_pieces-tail :
      (n room : ℕ) (input : List ℕ) (index : ℕ)
      → 0 < index
      → room ≤ length input
      → rest_pieces (n - 1) room (drop room input) index ≡ tail_pieces n room input
  unfolding tail_pieces
  rest_pieces-tail n room input index later full = elim (Bool-cases (leb (length input) room)) [
    | inl short ↦ ground (arith, short, full, later, length-drop room input)
    | inr long ↦ ground (arith, long, full, later, length-drop room input)
  ]

  module _ (left : S → List ℕ) (d : Delivers h left) where
    -- One round of the loop, with what `fill` has read.
    seal_round :
        (fuel room : ℕ) (from : S) (first piece : List ℕ) (st : State K G)
        → Result (StreamError E) (S × State K G)
    seal_round fuel room from first piece st = elim ((length first == 0) && ltb 0 st.index) [
      | true ↦ ok (from, st)
      | false ↦ seal_piece h prim key alg file_id piece st >>= λ sealed.
          elim (ltb (length first) room) [
            | true ↦ ok (from, sealed)
            | false ↦ seal_loop h prim key alg file_id fuel room from sealed
          ]
    ]

    seal_loop-round :
        (fuel room : ℕ) (from : S) (st : State K G)
        → (from' : S) × (left from' ≡ drop room (left from))
          × (seal_loop h prim key alg file_id (suc fuel) room from st
              ≡ seal_round fuel room from' (take room (left from)) (take room (left from)) st)
    unfolding seal_loop seal_round with_capacity
    seal_loop-round fuel room from st =
        let (from', filled, left') = fill_lem h left d room from in
        let first = take room (left from) in
        let fits : length first ≤ capacity (with_capacity room) =
          omega (arith, length-take room (left from), length-zeros room) in
        let (buf, declared, holds) = declare_len-written (with_capacity room) first fits in
        (
          from',
          left',
          rw (filled, declared)
              (ap (λ (piece : List ℕ). seal_round fuel room from' first piece st) holds.slice),
        )

    -- The statement on the loop with some fuel.
    Sealing : ℕ → Type 0
    Sealing fuel =
        (n room : ℕ) (from : S) (st : State K G)
        → 0 < room
        → st.index + fuel ≡ 2 ^ 32
        → st.index < 2 ^ 32
        → length (left from) ≤ n
        → (seal_loop h prim key alg file_id fuel room from st >>= λ (from', st'). ok st')
          ≡ seal_all h prim key alg file_id (rest_pieces n room (left from) st.index) st

    seal_round_lem :
        (fuel n room : ℕ) (from from' : S) (st : State K G)
        → 0 < room
        → st.index + suc fuel ≡ 2 ^ 32
        → st.index < 2 ^ 32
        → length (left from) ≤ n
        → left from' ≡ drop room (left from)
        → Sealing fuel
        → (seal_round fuel room from' (take room (left from)) (take room (left from)) st
            >>= λ (from2, st'). ok st')
          ≡ seal_all h prim key alg file_id (rest_pieces n room (left from) st.index) st
    unfolding seal_round Sealing seal_all tail_pieces
    seal_round_lem fuel n room from from' st some_room total below enough left' ih =
        let input = left from in
        let first = take room input in
        let cons = pieces_cons n room input some_room enough in
        let same : (length first == 0) ≡ (length input == 0) =
          ground (arith, length-take room input, some_room) in
        elim (Bool-cases ((length input == 0) && ltb 0 st.index)) [
          | inl over ↦ rw (seal_round, same, over) refl
          | inr more ↦ elim (Result-cases (seal_piece h prim key alg file_id first st)) [
            | inr (x, e) ↦ rw (seal_round, same, more, cons, e) refl
            | inl (st', e) ↦
                let (next, low) = seal_piece-index first st st' e in
                elim (Bool-cases (ltb (length first) room)) [
                  | inl last ↦
                      let short : leb (length input) room ≡ true =
                        ground (arith, last, length-take room input) in
                      rw (seal_round, same, more, cons, e, last, short) refl
                  | inr full ↦
                      let tail =
                        ih (n - 1) room from' st' some_room (omega (arith, total, next)) low
                          (rw left' (omega (arith, length-drop room input, enough, some_room))) in
                      let tails : rest_pieces (n - 1) room (left from') st'.index
                          ≡ tail_pieces n room input =
                        rw left' (
                          rest_pieces-tail n room input st'.index (omega (arith, next))
                            (ground (arith, full, length-take room input))) in
                      rw (seal_round, same, more, cons, e, full)
                        (tail ∙ ap (λ rest. seal_all h prim key alg file_id rest st') tails)
                ]
          ]
        ]

    seal_loop_lem : (fuel : ℕ) → Sealing fuel
    unfolding Sealing
    seal_loop_lem zero n room from st some_room total below enough =
        absurd (omega (arith, total, below))
    seal_loop_lem (suc fuel) n room from st some_room total below enough =
        let (from', left', round) = seal_loop-round fuel room from st in
        rw round (
          seal_round_lem fuel n room from from' st some_room total below enough left'
            (seal_loop_lem fuel))

-- What follows the loop, with and without the source.
abbrev then_sealed : {E S T : Type 0} → (T → Result E Sealed) → S × T → Result E (Sealed × S × T)
then_sealed next (from, st) = next st >>= λ sealed. ok (sealed, from, st)

abbrev then_pair : {E T : Type 0} → (T → Result E Sealed) → T → Result E (Sealed × T)
then_pair next st = next st >>= λ sealed. ok (sealed, st)

abbrev pub without_source : {E S T : Type 0} → Sealed × S × T → Result E (Sealed × T)
without_source (sealed, from, st) = ok (sealed, st)

abbrev last_state : {E S T : Type 0} → S × T → Result E T
last_state (from, st) = ok st

after_loop :
    {E S T : Type 0} (r : Result E (S × T)) (next : T → Result E Sealed)
    → ((r >>= then_sealed next) >>= without_source) ≡ ((r >>= last_state) >>= then_pair next)
after_loop (err failure) next = refl
after_loop (ok (from, st)) next = elim (Result-cases (next st)) [
  | inl (sealed, e) ↦ rw e refl
  | inr (x, e) ↦ rw e refl
]

-- `seal_chunks` on an input that lies before it: its pieces are sealed one after the other.
unfoldable pub seal_input :
    {E S K G : Type 0} (h : Host E S K G) (prim : Primitives) (key : List ℕ) (alg : AeadAlg)
    (file_id : List ℕ)
    → ℕ
    → List ℕ
    → K
    → G
    → Result (StreamError E) (Sealed × State K G)
seal_input h prim key alg file_id capacity input to rng = do
  fail_if (capacity == 0) (crypto bad_length)
  st ←
      seal_all h prim key alg file_id (pieces (length input) capacity input)
        (record { to = to; rng = rng; leaves = []; total_len = 0; index = 0 })
  sealed ← sealed_of h prim key alg file_id st
  ok (sealed, st)

-- Whatever the sizes of its reads, a source that delivers an input has it sealed as if the input lay before
-- `seal_chunks`: in its pieces, with the same results, the same bytes for the sink and the same errors.
pub seal_chunks-seal_input :
    {E S K G : Type 0} (h : Host E S K G) (prim : Primitives) (key : List ℕ) (alg : AeadAlg)
    (file_id : List ℕ) (left : S → List ℕ)
    → Delivers h left
    → (chunk_size : ℕ) (from : S) (to : K) (rng : G)
    → (seal_chunks h prim key alg file_id chunk_size from to rng >>= λ (sealed, from', st).
        ok (sealed, st))
      ≡ seal_input h prim key alg file_id chunk_size (left from) to rng
unfolding seal_chunks seal_input Sealing
seal_chunks-seal_input {E} {S} {K} {G} h prim key alg file_id left d chunk_size from to rng =
    let st : State K G = record { to = to; rng = rng; leaves = []; total_len = 0; index = 0 } in
    elim (Bool-cases (chunk_size == 0)) [
      | inl nothing ↦ rw nothing refl
      | inr some_room ↦
          let looped =
            seal_loop_lem h prim key alg file_id left d (2 ^ 32) (length (left from)) chunk_size
              from st (ground (arith, some_room)) (omega arith) (omega arith) (omega arith)
            ∙ ap (λ (ps : List (List ℕ)). seal_all h prim key alg file_id ps st)
                (rest_pieces-first h prim key alg file_id (length (left from)) chunk_size
                  (left from)) in
          rw some_room (
            after_loop (seal_loop h prim key alg file_id (2 ^ 32) chunk_size from st)
              (sealed_of h prim key alg file_id)
            ∙ ap
                (λ (r : Result (StreamError E) (State K G)).
                  r >>= then_pair (sealed_of h prim key alg file_id))
                looped)
    ]
