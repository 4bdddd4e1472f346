-- ===== src/Crypto/Stream/Chunks.antt =====
-- How `fill` and `seal_chunks` of crates/oc-crypto/src/stream.rs split what a source has, however it gives it.
use open_crate.Base.{
  ℕ, take_all, nil_of_length, zero, suc, ◌+◌, ◌-◌, ◌<◌, ◌≤◌, ◌≡◌, ◌⊎◌, refl, ap, sym, ◌∙◌, List, [],
  ◌∷◌, ◌++◌, length, take, drop, ltb, leb, ◌==◌, if◌then◌else◌, Result, Bool-cases, inl, inr, ok,
  ◌>>=◌, arith, length-append, take-append, drop-append,
}
use open_crate.Crypto.Stream.{Host, State, StreamError, fill_from, fill, seal_piece}
use open_crate.Crypto.Aead.{AeadAlg, Primitives}
use mathlib.Core.Path.{subst}
use mathlib.Core.List.{append_assoc, append-nil}

-- The input in pieces of a capacity: one piece at least, and all but the last are full.
abbrev pub pieces : ℕ → ℕ → List ℕ → List (List ℕ)
pieces zero capacity input = input ∷ []
pieces (suc fuel) capacity input =
    let rest = pieces fuel capacity (drop capacity input) in
    if leb (length input) capacity then input ∷ [] else take capacity input ∷ rest

unfoldable pub seal_all :
    {E S K G : Type 0} (h : Host E S K G) (prim : Primitives) (key : List ℕ) (alg : AeadAlg)
    (file_id : List ℕ)
    → List (List ℕ)
    → State K G
    → Result (StreamError E) (State K G)
seal_all h prim key alg file_id [] st = ok st
seal_all h prim key alg file_id (piece ∷ rest) st =
    seal_piece h prim key alg file_id piece st >>= λ sealed.
    seal_all h prim key alg file_id rest sealed

-- A source that has the bytes `left` gives some of them at each call, at most as many as there is room for, and none only
-- if it has none.
pub record Delivers {E S K G : Type 0} (h : Host E S K G) (left : S → List ℕ) : Type 0 where
  pub got : S → ℕ → List ℕ
  pub next : S → ℕ → S
  pub call : (s : S) (room : ℕ) → 0 < room → h.source s room ≡ ok (got s room, next s room)
  pub prefix : (s : S) (room : ℕ) → 0 < room → left s ≡ got s room ++ left (next s room)
  pub fits : (s : S) (room : ℕ) → 0 < room → length (got s room) ≤ room
  pub end : (s : S) (room : ℕ) → 0 < room → length (got s room) ≡ 0 → left s ≡ []

-- The first bytes of the input, and the rest.
record Taken (n : ℕ) (input first rest : List ℕ) : Type 0 where
  parts : input ≡ first ++ rest
  fits : length first ≤ n
  full : (length first ≡ n) ⊎ (rest ≡ [])

Taken-take :
    (n : ℕ) (input first rest : List ℕ)
    → Taken n input first rest
    → (first ≡ take n input) × (rest ≡ drop n input)
Taken-take n input first rest t = elim t.full [
  | inl full ↦ (
    sym (take-append first rest) ∙ rw (t.parts, full) refl,
    sym (drop-append first rest) ∙ rw (t.parts, full) refl,
  )
  | inr over ↦
      let all : input ≡ first = t.parts ∙ rw over (append-nil first) in
      let (a, b) = take_all n first t.fits in (sym (rw all a), over ∙ sym (rw all b))
]

module _ {E S K G : Type 0} (h : Host E S K G) (left : S → List ℕ) (d : Delivers h left) where
  fill_from_lem :
      (fuel room : ℕ) (filled : List ℕ) (s : S)
      → length filled ≤ room
      → room ≤ length filled + fuel
      → (more : List ℕ) × (s' : S) × (fill_from h fuel room filled s ≡ ok (filled ++ more, s'))
        × Taken (room - length filled) (left s) more (left s')
  unfolding fill_from
  fill_from_lem zero room filled s inside enough = (
    [],
    s,
    ap (λ (bytes : List ℕ). ok (bytes, s)) (sym (append-nil filled)),
    record { parts = refl; fits = omega arith; full = inl (omega (arith, inside, enough)) },
  )
  fill_from_lem (suc fuel) room filled s inside enough =
      elim (Bool-cases (ltb (length filled) room)) [
        | inr e ↦ (
          [],
          s,
          rw e (ap (λ (bytes : List ℕ). ok (bytes, s)) (sym (append-nil filled))),
          record { parts = refl; fits = omega arith; full = inl (ground (arith, e, inside)) },
        )
        | inl e ↦
            let r = room - length filled in
            let some_room : 0 < r = ground (arith, e) in
            let got = d.got s r in
            let next = d.next s r in
            elim (Bool-cases (length got == 0)) [
              | inl nothing ↦
                  let over : left s ≡ [] = d.end s r some_room (ground (arith, nothing)) in
                  let spent : left next ≡ [] = nil_of_length (left next) (
                    omega (
                      arith,
                      ap length over,
                      ap length (d.prefix s r some_room),
                      length-append got (left next),
                    )) in
                  (
                    [],
                    next,
                    ground (arith, e, d.call s r some_room, nothing, append-nil filled),
                    record { parts = over ∙ sym spent; fits = omega arith; full = inr spent },
                  )
              | inr something ↦
                  let fits = d.fits s r some_room in
                  let progress : 0 < length got = ground (arith, something) in
                  let (more, s', ran, t) =
                    fill_from_lem fuel room (filled ++ got) next
                      (omega (arith, length-append filled got, fits, some_room))
                      (omega (arith, length-append filled got, progress, enough)) in
                  let room_left : room - length (filled ++ got) ≡ r - length got =
                    omega (arith, length-append filled got) in
                  (
                    got ++ more,
                    s',
                    ground (
                      arith,
                      e,
                      d.call s r some_room,
                      something,
                      ran,
                      append_assoc filled got more,
                    ),
                    record {
                      parts =
                          d.prefix s r some_room
                          ∙ rw t.parts (sym (append_assoc got more (left s')));
                      fits = omega (arith, length-append got more, t.fits, room_left, fits);
                      full = elim t.full [
                        | inl all ↦
                            inl (omega (arith, length-append got more, all, room_left, fits))
                        | inr over ↦ inr over
                      ];
                    },
                  )
            ]
      ]

  -- `fill` gives the first bytes of what is left, as many as there is room for, and leaves the rest.
  pub fill_lem :
      (room : ℕ) (s : S)
      → (s' : S) × (fill h room s ≡ ok (take room (left s), s')) × (left s' ≡ drop room (left s))
  unfolding fill
  fill_lem room s =
      let (more, s', ran, t) = fill_from_lem room room [] s (omega arith) (omega arith) in
      let all : room - 0 ≡ room = omega arith in
      let (first, rest) =
        Taken-take room (left s) more (left s')
          (subst (λ (n : ℕ). Taken n (left s) more (left s')) all t) in
      (s', ran ∙ ap (λ (bytes : List ℕ). ok (bytes, s')) first, rest)
