-- ===== src/Format/Layout/Spans.antt =====
-- `Layout::plaintext_len_of` and `Layout::ciphertext_span` of crates/oc-format/src/lib.rs: the chunks
-- divide the plaintext, and follow one another on disk.
use open_crate.Base.{
  ℕ, zero, suc, ◌+◌, ◌-◌, ◌*◌, ◌^◌, ◌<◌, ◌≤◌, ◌≡◌, min, ok, ◌>>=◌, inl, inr, arith, ap, ◌∙◌,
}
use open_crate.Format.{Parsed}
use open_crate.Format.Layout.{Layout, plaintext_len_of, ciphertext_span}
use open_crate.Format.Layout.Chunks.{IsLayout}
use native.Mathlib.Nat.{mul-le-mul, mul-le-mul_right}

module _ (l : Layout) (v : IsLayout l) where
  product_fits : (i : ℕ) → i < l.chunk_count → i * l.chunk_size < 2 ^ 63
  product_fits i h =
      let i_le : i ≤ 2 ^ 32 = omega (arith, v.count_word) in
      let size_le : l.chunk_size ≤ 2 ^ 20 = omega (arith, v.size_most) in
      omega (arith, mul-le-mul i_le size_le)

  plaintext_len_of_lem :
      (i : ℕ)
      → i < l.chunk_count
      → plaintext_len_of l i ≡ ok (min (l.total_len - i * l.chunk_size) l.chunk_size)
  unfolding plaintext_len_of
  plaintext_len_of_lem i h = ground (arith, product_fits i h)

-- The lengths of the first `n` chunks, added up.
abbrev pub plaintext_len_sum : Layout → ℕ → Parsed ℕ
plaintext_len_sum l zero = ok 0
plaintext_len_sum l (suc n) = do
  before ← plaintext_len_sum l n
  last ← plaintext_len_of l n
  ok (before + last)

next_sum :
    (total n size : ℕ)
    → min total (n * size) + min (total - n * size) size ≡ min total (suc n * size)
next_sum total n size = omega arith

plaintext_len_sum_lem :
    (l : Layout)
    → IsLayout l
    → (n : ℕ) → n ≤ l.chunk_count
    → plaintext_len_sum l n ≡ ok (min l.total_len (n * l.chunk_size))
plaintext_len_sum_lem l v zero h = ap ok (omega arith)
plaintext_len_sum_lem l v (suc n) h =
    rw (plaintext_len_sum_lem l v n (omega arith), plaintext_len_of_lem l v n h)
      (ap ok (next_sum l.total_len n l.chunk_size))

-- The lengths of all chunks of a layout add up to the length of the plaintext.
pub plaintext_lens_total :
    (l : Layout) → IsLayout l → plaintext_len_sum l l.chunk_count ≡ ok l.total_len
plaintext_lens_total l v =
    plaintext_len_sum_lem l v l.chunk_count (omega arith) ∙ ap ok (omega (arith, v.enough))

-- A chunk on disk: its nonce, its ciphertext and its tag.
abbrev pub framed : Layout → ℕ
framed l = l.chunk_size + 40

-- The whole payload ends within 64 bits.
abbrev PayloadFits : Layout → Type 0
PayloadFits l = l.payload_offset + l.chunk_count * framed l < 2 ^ 64

regroup : (n : ℕ) → n + 24 + 16 ≡ n + 40
regroup n = omega arith

module _ (l : Layout) (v : IsLayout l) (fits : PayloadFits l) where
  framed_fits : (i : ℕ) → i < l.chunk_count → l.payload_offset + i * framed l + framed l < 2 ^ 64
  framed_fits i h = omega (arith, mul-le-mul_right (framed l) h, fits)

  ciphertext_span_lem :
      (i : ℕ)
      → i < l.chunk_count
      → let start = l.payload_offset + i * framed l in
        ciphertext_span l i
        ≡ ok (start, start + 40 + min (l.total_len - i * l.chunk_size) l.chunk_size)
  unfolding ciphertext_span
  ciphertext_span_lem i h =
      ground
        (arith, framed_fits i h, product_fits l v i h, ap (λ (n : ℕ). i * n) (regroup l.chunk_size))

  full_before_last : (i : ℕ) → i + 1 < l.chunk_count → (i + 1) * l.chunk_size ≤ l.total_len
  full_before_last i h = elim v.needed [
    | inl one ↦ absurd (omega arith)
    | inr more ↦
        let i_le : i + 1 ≤ l.chunk_count - 1 = omega arith in
        omega (arith, mul-le-mul_right l.chunk_size i_le, more)
  ]

-- In a layout whose payload ends within 64 bits, the span of every chunk but the last begins where
-- the framed chunks before it end and is exactly one full framed chunk long, the span of the next
-- chunk begins where it ends, and that one does not pass the end of the payload.
pub ciphertext_spans_adjacent :
    (l : Layout)
    → IsLayout l
    → PayloadFits l
    → (i : ℕ) → i + 1 < l.chunk_count
    → (ciphertext_span l i
        ≡ ok (l.payload_offset + i * framed l, l.payload_offset + (i + 1) * framed l))
      × ((span_end : ℕ) × (ciphertext_span l (i + 1)
            ≡ ok (l.payload_offset + (i + 1) * framed l, span_end))
          × (span_end ≤ l.payload_offset + l.chunk_count * framed l))
ciphertext_spans_adjacent l v fits i h =
    let full = full_before_last l v fits i h in
    let last : i + 1 + 1 ≤ l.chunk_count = omega arith in
    (
      ciphertext_span_lem l v fits i (omega arith)
          ∙ ap (λ (n : ℕ). ok (l.payload_offset + i * framed l, n)) (omega (arith, full)),
      (
        l.payload_offset
            + (i + 1) * framed l
            + 40
            + min (l.total_len - (i + 1) * l.chunk_size) l.chunk_size,
        ciphertext_span_lem l v fits (i + 1) h,
        omega (arith, mul-le-mul_right (framed l) last),
      ),
    )
