-- ===== src/Format/Prologue/Split.antt =====
-- `Prologue::split` of crates/oc-format/src/lib.rs: what it accepts, and what it then returns.
use open_crate.Base.{
  ℕ, ◌+◌, ◌≤◌, ◌≡◌, refl, ap, sym, ◌∙◌, some, List, ◌++◌, length, ok, arith, ◌↔◌, Option-cases, inl,
  inr, drop, All-take, All-drop,
}
use open_crate.Base.Words.{checked_add}
use open_crate.Base.Bytes.{
  IsByte, IsBytes, slice, array, from_le, to_le, bytes_eq_iff, slice_at, drop-slice, slice-some,
  array_lem, from_le-to_le, to_le-from_le, length-to_le,
}
use open_crate.Format.Prologue.{Prologue, magic, max_header_len, get_array, split}

-- The bytes of a container up to the end of the signature, and then `rest`.
abbrev signed_bytes : List ℕ → List ℕ → List ℕ → List ℕ
signed_bytes header signature rest =
    magic ++ (to_le 4 (length header) ++ (header ++ (signature ++ rest)))

abbrev prologue_of : List ℕ → List ℕ → Prologue
prologue_of header signature = record {
  header = header;
  signature = signature;
  after_signature = 12 + length header + 64;
  declared_len = length header;
}

get_array_lem :
    (buf s : List ℕ) (a b n : ℕ)
    → slice buf a b ≡ some s
    → length s ≡ n
    → get_array buf a b n ≡ some s
unfolding get_array
get_array_lem buf s a b n e h = ground (arith, array_lem n s h)

get_array-some :
    (buf s : List ℕ) (a b n : ℕ)
    → get_array buf a b n ≡ some s
    → (slice buf a b ≡ some s) × (length s ≡ n)
unfolding get_array array
get_array-some buf s a b n h = ground arith

split_reads :
    (buf len_bytes header signature : List ℕ) (d : ℕ)
    → slice buf 0 8 ≡ some magic
    → get_array buf 8 12 4 ≡ some len_bytes
    → from_le len_bytes ≡ d
    → d ≤ max_header_len
    → slice buf 12 (12 + d) ≡ some header
    → get_array buf (12 + d) (12 + d + 64) 64 ≡ some signature
    → split buf
      ≡ ok (record {
        header = header;
        signature = signature;
        after_signature = 12 + d + 64;
        declared_len = d;
      })
unfolding split checked_add
split_reads buf len_bytes header signature d m l v small h s =
    ground (arith, (bytes_eq_iff magic magic).1 refl)

split_at :
    (buf header signature rest : List ℕ)
    → buf ≡ signed_bytes header signature rest
    → length header ≤ max_header_len
    → length signature ≡ 64
    → split buf ≡ ok (prologue_of header signature)
split_at buf header signature rest e small sig =
    let n = length header in
    let (magic_read, e1, in1) =
      slice_at buf magic (to_le 4 n ++ (header ++ (signature ++ rest))) 0 8 e (omega arith) refl in
    let (len_read, e2, in2) =
      slice_at buf (to_le 4 n) (header ++ (signature ++ rest)) 8 12 e1 in1
        (omega (arith, length-to_le 4 n)) in
    let (header_read, e3, in3) = slice_at buf header (signature ++ rest) 12 (12 + n) e2 in2 refl in
    let (sig_read, e4, in4) =
      slice_at buf signature rest (12 + n) (12 + n + 64) e3 in3 (omega arith) in
    split_reads buf (to_le 4 n) header signature n magic_read
      (get_array_lem buf (to_le 4 n) 8 12 4 len_read (length-to_le 4 n))
      (from_le-to_le 4 n (omega arith)) small header_read
      (get_array_lem buf signature (12 + n) (12 + n + 64) 64 sig_read sig)

Found : List ℕ → Prologue → Type 0
Found buf p =
    (slice buf 0 8 ≡ some magic)
    × (get_array buf 8 12 4 ≡ some (to_le 4 p.declared_len))
    × (p.declared_len ≤ max_header_len)
    × (slice buf 12 (12 + p.declared_len) ≡ some p.header)
    × (get_array buf (12 + p.declared_len) (12 + p.declared_len + 64) 64 ≡ some p.signature)
    × (p.after_signature ≡ 12 + p.declared_len + 64)

len_bytes_eq :
    (buf b : List ℕ) → IsBytes buf → get_array buf 8 12 4 ≡ some b → b ≡ to_le 4 (from_le b)
len_bytes_eq buf b bytes e =
    let (read, four) = get_array-some buf b 8 12 4 e in
    let (ab, fits, is) = slice-some buf 8 12 b read in
    let b_bytes : IsBytes b =
      rw is (All-take IsByte 4 (drop 8 buf) (All-drop IsByte 8 buf bytes)) in
    sym (to_le-from_le b b_bytes) ∙ ap (λ (k : ℕ). to_le k (from_le b)) four

split-Found : (buf : List ℕ) (p : Prologue) → IsBytes buf → split buf ≡ ok p → Found buf p
unfolding split Found checked_add
split-Found buf p bytes h = elim (Option-cases (get_array buf 8 12 4)) [
  | inl e ↦ absurd (ground arith)
  | inr (b, e) ↦ elim (Option-cases (slice buf 0 8)) [
    | inl m ↦ absurd (ground arith)
    | inr (found, m) ↦
        let is_magic : found ≡ magic = (bytes_eq_iff found magic).0 (ground arith) in
        let d : p.declared_len ≡ from_le b = ground arith in
        (
          m ∙ ap some is_magic,
          e ∙ ap some (len_bytes_eq buf b bytes e ∙ ap (to_le 4) (sym d)),
          ground arith,
          ground arith,
          ground arith,
          ground arith,
        )
  ]
]

-- The buffer begins with the magic, the length of the header, the header and 64 bytes of signature, and the
-- prologue is made of just these.
abbrev pub Signed : List ℕ → Prologue → Type 0
Signed buf p =
    (rest : List ℕ) × (buf ≡ signed_bytes p.header p.signature rest)
    × (length p.header ≤ max_header_len)
    × (length p.signature ≡ 64)
    × (p ≡ prologue_of p.header p.signature)

Found-Signed : (buf : List ℕ) (p : Prologue) → Found buf p → Signed buf p
unfolding Found
Found-Signed buf p (m, l, small, h, s, after) =
    let d = p.declared_len in
    let (sig_read, sig) = get_array-some buf p.signature (12 + d) (12 + d + 64) 64 s in
    let at_len = drop-slice buf 8 12 (to_le 4 d) (get_array-some buf (to_le 4 d) 8 12 4 l).0 in
    let at_header = drop-slice buf 12 (12 + d) p.header h in
    let at_sig = drop-slice buf (12 + d) (12 + d + 64) p.signature sig_read in
    let width : d ≡ length p.header = omega (arith, at_header.1) in
    let total : buf
        ≡ magic ++ (to_le 4 d ++ (p.header ++ (p.signature ++ drop (12 + d + 64) buf))) =
      cc ((drop-slice buf 0 8 magic m).0, at_len.0, at_header.0, at_sig.0) in
    (drop (12 + d + 64) buf, rw (sym width) total, omega arith, sig, cc (width, after))

-- On any buffer of bytes, `split` gives a prologue exactly if the buffer begins with the magic, the
-- length of a header of at most 2^20 bytes, that header and 64 bytes of signature; the prologue then
-- has just these parts, and the offset behind them.
pub split_iff : (buf : List ℕ) (p : Prologue) → IsBytes buf → (split buf ≡ ok p) ↔ Signed buf p
split_iff buf p bytes = (
  λ h. Found-Signed buf p (split-Found buf p bytes h),
  λ (rest, e, small, sig, same).
      split_at buf p.header p.signature rest e small sig ∙ ap ok (sym same),
)
