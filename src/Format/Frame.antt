-- ===== src/Format/Frame.antt =====
-- crates/oc-format/src/frame.rs: a length in four bytes before a message.
use open_crate.Base.{
  ℕ, ◌^◌, ◌<◌, ◌≤◌, ◌≡◌, ap, ◌∙◌, List, ltb, length, ok, err, ◌>>=◌, ◌>>◌, fail_if, ok_or, arith,
  if◌then◌else◌,
}
use open_crate.Base.Words.{to_u32, to_u32_lem}
use open_crate.Base.Bytes.{
  IsBytes, to_le, from_le, from_le-to_le, to_le-from_le, from_le-lt, length-to_le,
}
use open_crate.Format.{Parsed, offset_overflow}

pub header : ℕ → ℕ → Parsed (List ℕ)
header len max = do
  fail_if (ltb max len) offset_overflow
  value ← ok_or (to_u32 len) offset_overflow
  ok (to_le 4 value)

-- The argument is an array of four bytes.
unfoldable pub body_len : List ℕ → ℕ → Parsed ℕ
body_len head max = do let len = from_le head; fail_if (ltb max len) offset_overflow; ok len

header_lem : (len max : ℕ) → len ≤ max → len < 2 ^ 32 → header len max ≡ ok (to_le 4 len)
unfolding header
header_lem len max h small = ground (arith, to_u32_lem len small)

-- Within the limit, and in 32 bits, the frame header is four bytes from which the reader, under any
-- limit, gets the length back if it is within its own limit, and an error if not.
pub header-body_len :
    (len max reader_max : ℕ)
    → len ≤ max
    → len < 2 ^ 32
    → (head : List ℕ) × (header len max ≡ ok head)
      × (length head ≡ 4)
      × (body_len head reader_max ≡ (if ltb reader_max len then err offset_overflow else ok len))
unfolding body_len
header-body_len len max reader_max h small = (
  to_le 4 len,
  header_lem len max h small,
  length-to_le 4 len,
  ground (arith, from_le-to_le 4 len small),
)

-- From any four bytes the reader takes a length only within its limit, and then those four bytes are the
-- header of that length.
pub body_len-header :
    (head : List ℕ) (max len : ℕ)
    → IsBytes head
    → length head ≡ 4
    → body_len head max ≡ ok len
    → (len ≤ max) × (header len max ≡ ok head)
unfolding body_len header
body_len-header head max len bytes four h =
    let taken : (len ≡ from_le head) × (len ≤ max) = ground arith in
    let small : len < 2 ^ 32 = ground (arith, from_le-lt head bytes, ap (λ n. 256 ^ n) four) in
    let frame : to_le 4 len ≡ to_le (length head) (from_le head) = cc (taken.0, four) in
    (taken.1, header_lem len max taken.1 small ∙ ap ok (frame ∙ to_le-from_le head bytes))
