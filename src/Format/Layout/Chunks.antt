-- ===== src/Format/Layout/Chunks.antt =====
-- `Layout` of crates/oc-format/src/lib.rs: what `Layout::new` checks, and how its chunks divide the
-- plaintext.
use open_crate.Base.{
  ℕ, zero, suc, ◌+◌, ◌-◌, ◌*◌, ◌/◌, ◌%◌, ◌^◌, ◌<◌, ◌≤◌, ◌≡◌, true, max, ◌==◌, ok, ◌⊎◌, inl, inr,
  arith, Bool-cases, ==_iff, ap,
}
use open_crate.Base.Words.{is_power_of_two}
use open_crate.Format.Layout.{
  Layout, min_chunk_size, max_chunk_size, check_chunk_size, required_chunks, new,
}
use native.Mathlib.Nat.{div-add-mod', mod-lt, div-lt_iff_lt-mul, mul-le-mul_left}

-- `chunk_count` chunks of `chunk_size` bytes are enough for the plaintext, and one fewer is not,
-- but there is always one.
pub record IsLayout (l : Layout) : Type 0 where
  pub size_least : min_chunk_size ≤ l.chunk_size
  pub size_most : l.chunk_size ≤ max_chunk_size
  size_power : is_power_of_two l.chunk_size ≡ true
  count_pos : 1 ≤ l.chunk_count
  pub count_word : l.chunk_count < 2 ^ 32
  pub enough : l.total_len ≤ l.chunk_count * l.chunk_size
  pub needed : (l.chunk_count ≡ 1) ⊎ ((l.chunk_count - 1) * l.chunk_size < l.total_len)

add_pred : (q : ℕ) → q + 1 - 1 ≡ q
add_pred q = omega arith

suc_pred : (q : ℕ) → suc q - 1 ≡ q
suc_pred q = omega arith

-- The ceiling by the quotient `q` and the remainder `r` of the division.
exact_bounds :
    (total size q c : ℕ)
    → total ≡ q * size
    → c ≡ max q 1
    → 0 < size
    → (total ≤ c * size) × ((c ≡ 1) ⊎ ((c - 1) * size < total))
exact_bounds total size zero c e f h = (omega arith, inl (omega arith))
exact_bounds total size (suc q) c e f h =
    let c_eq : c ≡ suc q = omega arith in
    let less : (suc q - 1) * size < total = omega (arith, ap (λ (n : ℕ). n * size) (suc_pred q)) in
    rw c_eq (omega arith, inr less)

rounded_bounds :
    (total size q r : ℕ)
    → total ≡ q * size + r
    → 0 < r
    → r < size
    → (total ≤ (q + 1) * size) × ((q + 1 ≡ 1) ⊎ ((q + 1 - 1) * size < total))
rounded_bounds total size q r e pos h =
    (omega arith, inr (omega (arith, ap (λ (n : ℕ). n * size) (add_pred q))))

quotient_fits : (total size : ℕ) → 4096 ≤ size → total < 2 ^ 64 → total / size < 2 ^ 52
quotient_fits total size h t =
    (div-lt_iff_lt-mul {k = size} {x = total} {y = 2 ^ 52} (omega arith)).1
      (omega (arith, mul-le-mul_left (2 ^ 52) h))

required_chunks_bounds :
    (total size c : ℕ)
    → 4096 ≤ size
    → total < 2 ^ 64
    → required_chunks total size ≡ ok c
    → (1 ≤ c) × (c < 2 ^ 32) × (total ≤ c * size) × ((c ≡ 1) ⊎ ((c - 1) * size < total))
unfolding required_chunks
required_chunks_bounds total size c pos small h = elim (Bool-cases (total % size == 0)) [
  | inl even ↦
      let cs : (c ≡ max (total / size) 1) × (c < 2 ^ 32) = ground arith in
      let b =
        exact_bounds total size (total / size) c
          (omega (arith, div-add-mod' total size, (==_iff (total % size) 0).0 even)) cs.0
          (omega arith) in
      (omega arith, cs.1, b.0, b.1)
  | inr odd ↦
      let cs : (c ≡ total / size + 1) × (c < 2 ^ 32) =
        ground (arith, quotient_fits total size pos small) in
      let b =
        rounded_bounds total size (total / size) (total % size)
          (omega (arith, div-add-mod' total size)) (ground arith) (mod-lt total (omega arith)) in
      (omega arith, cs.1, rw cs.0 b.0, rw cs.0 b.1)
]

-- Arguments that `Layout::new` accepts, with a length of 64 bits, make a layout with the arguments as its
-- fields.
pub new-IsLayout :
    (chunk_size chunk_count total_len payload_offset : ℕ) (l : Layout)
    → total_len < 2 ^ 64
    → new chunk_size chunk_count total_len payload_offset ≡ ok l
    → IsLayout l
      × (l ≡ record {
        chunk_size = chunk_size;
        chunk_count = chunk_count;
        total_len = total_len;
        payload_offset = payload_offset;
      })
unfolding new check_chunk_size
new-IsLayout size count total offset l small h =
    let r : required_chunks total size ≡ ok count = ground arith in
    let sized : (4096 ≤ size) × (size ≤ 1024 * 1024) × (is_power_of_two size ≡ true) =
      ground arith in
    let bounds = required_chunks_bounds total size count sized.0 small r in
    let e : l ≡ record {
      chunk_size = size;
      chunk_count = count;
      total_len = total;
      payload_offset = offset;
    } =
      ground arith in
    (
      rw e (record {
        size_least = sized.0;
        size_most = sized.1;
        size_power = sized.2;
        count_pos = bounds.0;
        count_word = bounds.1;
        enough = bounds.2;
        needed = bounds.3;
      }),
      e,
    )
