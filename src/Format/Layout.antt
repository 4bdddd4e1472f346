-- ===== src/Format/Layout.antt =====
-- `Layout` of crates/oc-format/src/lib.rs: plaintext ranges and ciphertext ranges.
pub mod Chunks
pub mod Spans
pub mod Reads
use open_crate.Base.{
  ℕ, ◌+◌, ◌-◌, ◌*◌, ◌/◌, ◌%◌, ◌^◌, ◌<◌, ◌≤◌, ◌≡◌, Bool, true, false, not, ◌&&◌, ◌||◌, Option, none,
  some, min, max, ltb, leb, ◌==◌, if◌then◌else◌, ok, err, ◌>>=◌, ◌>>◌, fail_if, ok_or,
}
use open_crate.Base.Words.{
  checked_add, checked_sub, checked_mul, checked_add_u32, saturating_add, to_u32, is_power_of_two,
}
use open_crate.Format.{
  Parsed, bad_chunk_size, chunk_count_mismatch, chunk_out_of_range, offset_overflow,
}

abbrev pub nonce_len : ℕ
nonce_len = 24

abbrev pub tag_len : ℕ
tag_len = 16

abbrev pub min_chunk_size : ℕ
min_chunk_size = 4 * 1024

abbrev pub max_chunk_size : ℕ
max_chunk_size = 1024 * 1024

pub check_chunk_size : ℕ → Parsed ℕ
check_chunk_size size =
    if leb min_chunk_size size && leb size max_chunk_size && is_power_of_two size
    then ok size
    else err (bad_chunk_size size)

pub record Layout : Type 0 where
  pub chunk_size : ℕ
  pub chunk_count : ℕ
  pub total_len : ℕ
  pub payload_offset : ℕ

pub required_chunks : ℕ → ℕ → Parsed ℕ
unfolding saturating_add to_u32
required_chunks total_len size =
    let full = total_len / size in
    let remainder = total_len % size in
    let count = if remainder == 0 then full else saturating_add full 1 in
    ok_or (to_u32 (max count 1)) offset_overflow

-- `Layout::new`. A size that passed the check is not 0, so `NonZeroU32::new` does not fail.
unfoldable pub new : ℕ → ℕ → ℕ → ℕ → Parsed Layout
unfolding check_chunk_size required_chunks
new chunk_size chunk_count total_len payload_offset = do
  size ← check_chunk_size chunk_size
  fail_if (size == 0) (bad_chunk_size 0)
  expected ← required_chunks total_len size
  fail_if (not (expected == chunk_count)) (chunk_count_mismatch expected chunk_count)
  ok (record {
    chunk_size = size;
    chunk_count = chunk_count;
    total_len = total_len;
    payload_offset = payload_offset;
  })

pub chunk_of : Layout → ℕ → Parsed ℕ
unfolding to_u32
chunk_of l plaintext_offset = do
  index ← ok_or (to_u32 (plaintext_offset / l.chunk_size)) offset_overflow
  fail_if (leb l.chunk_count index) (chunk_out_of_range index l.chunk_count)
  ok index

abbrev sub_one : Option ℕ → Option ℕ
sub_one none = none
sub_one (some e) = checked_sub e 1

-- A half-open range.
abbrev Range : Type 0
Range = ℕ × ℕ

abbrev no_chunks : Option Range
no_chunks = none

covering : Layout → ℕ → ℕ → Parsed (Option Range)
unfolding checked_add checked_sub checked_add_u32
covering l offset len = do
  read_end ← ok_or (sub_one (checked_add offset len)) offset_overflow
  first ← chunk_of l offset
  last ← chunk_of l (min read_end (l.total_len - 1))
  range_end ← ok_or (checked_add_u32 last 1) offset_overflow
  ok (some (first, range_end))

pub chunks_for : Layout → ℕ → ℕ → Parsed (Option Range)
unfolding covering
chunks_for l offset len =
    if len == 0 || leb l.total_len offset then ok no_chunks else covering l offset len

pub plaintext_len_of : Layout → ℕ → Parsed ℕ
unfolding checked_mul
plaintext_len_of l index = do
  fail_if (leb l.chunk_count index) (chunk_out_of_range index l.chunk_count)
  start ← ok_or (checked_mul index l.chunk_size) offset_overflow
  ok (min (l.total_len - start) l.chunk_size)

-- `a.checked_add(b).and_then(|v| v.checked_add(c))` with `ok_or(OffsetOverflow)?`.
add_checked : ℕ → ℕ → Parsed ℕ
unfolding checked_add
add_checked a b = ok_or (checked_add a b) offset_overflow

mul_checked : ℕ → ℕ → Parsed ℕ
unfolding checked_mul
mul_checked a b = ok_or (checked_mul a b) offset_overflow

pub ciphertext_span : Layout → ℕ → Parsed Range
unfolding plaintext_len_of add_checked mul_checked
ciphertext_span l index = do
  plaintext_len ← plaintext_len_of l index
  with_nonce ← add_checked l.chunk_size nonce_len
  framed_full ← add_checked with_nonce tag_len
  before ← mul_checked index framed_full
  start ← add_checked l.payload_offset before
  after_nonce ← add_checked start nonce_len
  after_text ← add_checked after_nonce plaintext_len
  span_end ← add_checked after_text tag_len
  ok (start, span_end)
