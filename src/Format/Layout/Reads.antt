-- ===== src/Format/Layout/Reads.antt =====
-- `Layout::chunk_of` and `Layout::chunks_for` of crates/oc-format/src/lib.rs: the chunks that a read of
-- the plaintext needs.
use open_crate.Base.{
  ℕ, ◌+◌, ◌-◌, ◌*◌, ◌/◌, ◌^◌, ◌<◌, ◌≤◌, ◌≡◌, min, max, ok, ◌⊎◌, inl, inr, arith, some, none, ◌↔◌,
}
use open_crate.Format.Layout.{Layout, chunk_of, covering, chunks_for}
use open_crate.Format.Layout.Chunks.{IsLayout}
use native.Mathlib.Nat.{div-lt_iff_lt-mul, le-div_iff_mul-le}

-- The byte `b` of the plaintext lies in the chunk `i`.
abbrev pub LiesIn : Layout → ℕ → ℕ → Type 0
LiesIn l b i = (i * l.chunk_size ≤ b) × (b < (i + 1) * l.chunk_size)

-- The read of `len` bytes from `offset` on needs the byte `b`.
abbrev pub Reads : Layout → ℕ → ℕ → ℕ → Type 0
Reads l offset len b = (offset ≤ b) × (b < offset + len) × (b < l.total_len)

module _ (l : Layout) (v : IsLayout l) where
  size_pos : 0 < l.chunk_size
  size_pos = omega (arith, v.size_least)

  index_below : (b : ℕ) → b < l.total_len → b / l.chunk_size < l.chunk_count
  index_below b h =
      (div-lt_iff_lt-mul {k = l.chunk_size} {x = b} {y = l.chunk_count} size_pos).1
        (omega (arith, v.enough))

  chunk_of_lem : (b : ℕ) → b < l.total_len → chunk_of l b ≡ ok (b / l.chunk_size)
  unfolding chunk_of
  chunk_of_lem b h = ground (arith, index_below b h, v.count_word)

  covering_lem :
      (offset len : ℕ)
      → 0 < len
      → offset < l.total_len
      → offset + len < 2 ^ 64
      → covering l offset len
        ≡ ok (
            some
              (offset / l.chunk_size, min (offset + len - 1) (l.total_len - 1) / l.chunk_size + 1))
  unfolding covering
  covering_lem offset len some_len inside fits =
      let last = min (offset + len - 1) (l.total_len - 1) in
      let last_inside : last < l.total_len = omega arith in
      ground (
        arith,
        chunk_of_lem offset inside,
        chunk_of_lem last last_inside,
        index_below last last_inside,
        v.count_word,
      )

  -- Chunks from that of `a` to that of `z` are those that some byte from `a` to `z` lies in.
  between_to_byte :
      (a z i : ℕ)
      → a ≤ z
      → a / l.chunk_size ≤ i
      → i < z / l.chunk_size + 1
      → (b : ℕ) × (a ≤ b) × (b ≤ z) × LiesIn l b i
  between_to_byte a z i az lo hi =
      let i_start : i * l.chunk_size ≤ z =
        (le-div_iff_mul-le {k = l.chunk_size} {x = i} {y = z} size_pos).0 (omega arith) in
      let a_before : a < (i + 1) * l.chunk_size =
        (div-lt_iff_lt-mul {k = l.chunk_size} {x = a} {y = i + 1} size_pos).0 (omega arith) in
      (
        max a (i * l.chunk_size),
        omega arith,
        omega arith,
        (omega arith, omega (arith, a_before, size_pos)),
      )

  byte_to_between :
      (a z b i : ℕ)
      → a ≤ b
      → b ≤ z
      → LiesIn l b i
      → (a / l.chunk_size ≤ i) × (i < z / l.chunk_size + 1)
  byte_to_between a z b i ab bz inside =
      let a_below : a / l.chunk_size < i + 1 =
        (div-lt_iff_lt-mul {k = l.chunk_size} {x = a} {y = i + 1} size_pos).1 (omega arith) in
      let i_below : i ≤ z / l.chunk_size =
        (le-div_iff_mul-le {k = l.chunk_size} {x = i} {y = z} size_pos).1 (omega arith) in
      (omega arith, omega arith)

-- On a layout, a read that is not empty, begins inside the plaintext and ends within 64 bits gets
-- a range of chunks, and a chunk is in that range exactly if some byte that the read needs lies in it.
pub chunks_for_exact :
    (l : Layout)
    → IsLayout l
    → (offset len : ℕ) → 0 < len
    → offset < l.total_len
    → offset + len < 2 ^ 64
    → (first : ℕ) × (range_end : ℕ) × (chunks_for l offset len ≡ ok (some (first, range_end)))
      × ((i : ℕ)
          → ((first ≤ i) × (i < range_end)) ↔ ((b : ℕ) × Reads l offset len b × LiesIn l b i))
unfolding chunks_for
chunks_for_exact l v offset len some_len inside fits =
    let last = min (offset + len - 1) (l.total_len - 1) in
    let ordered : offset ≤ last = omega arith in
    (
      offset / l.chunk_size,
      last / l.chunk_size + 1,
      ground (arith, covering_lem l v offset len some_len inside fits),
      λ i. (
        λ (lo, hi).
            let (b, ab, bz, lies) = between_to_byte l v offset last i ordered lo hi in
            (b, (ab, omega arith, omega arith), lies),
        λ (b, needed, lies). byte_to_between l v offset last b i needed.0 (omega arith) lies,
      ),
    )

-- An empty read, and one from the end of the plaintext on, needs no chunk.
chunks_for_nothing :
    (l : Layout) (offset len : ℕ)
    → (len ≡ 0) ⊎ (l.total_len ≤ offset)
    → chunks_for l offset len ≡ ok none
unfolding chunks_for
chunks_for_nothing l offset len (inl e) = ground arith
chunks_for_nothing l offset len (inr h) = ground arith
