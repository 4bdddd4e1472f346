-- ===== src/Format/PolicyCodec/Values.antt =====
-- The values of single policy fields of crates/oc-format/src/policy_codec.rs, and that they are read back.
use open_crate.Base.{
  ℕ, ◌&&◌, ◌==◌, Option, none, some, List, [], ◌∷◌, ◌++◌, length, ok, err, ◌>>=◌, ok_or,
  if◌then◌else◌,
}
use open_crate.Base.Int.{ℤ}
use open_crate.Base.Bytes.{slice, array, to_le, from_le, bits64, signed64}
use open_crate.Format.{Parsed, bad_field_length}
use open_crate.Policy.{Validity, always, window, from_first_open, Network, strict_online, lease}

-- `i64::to_le_bytes` and `i64::from_le_bytes`.
unfoldable pub i64_le : ℤ → List ℕ
i64_le n = to_le 8 (bits64 n)

unfoldable pub i64_from_le : List ℕ → ℤ
i64_from_le bytes = signed64 (from_le bytes)

unfoldable pub encode_validity : Validity → List ℕ
encode_validity always = 1 ∷ []
encode_validity (window not_before not_after) = (2 ∷ i64_le not_before) ++ i64_le not_after
encode_validity (from_first_open seconds) = 3 ∷ i64_le seconds

unfoldable pub encode_network : Network → List ℕ
encode_network strict_online = 1 ∷ []
encode_network (lease seconds max_offline) = (2 ∷ i64_le seconds) ++ i64_le max_offline

unfoldable pub encode_max_opens : Option ℕ → List ℕ
encode_max_opens none = []
encode_max_opens (some limit) = to_le 4 limit

unfoldable pub split_kind : ℕ → List ℕ → Parsed (ℕ × List ℕ)
split_kind tag [] = err (bad_field_length tag 0)
split_kind tag (kind ∷ rest) = ok (kind, rest)

unfoldable pub one_i64 : ℕ → List ℕ → Parsed ℤ
one_i64 tag bytes = do
  word ← ok_or (array 8 bytes) (bad_field_length tag (length bytes))
  ok (i64_from_le word)

-- `pair.get(a..b).and_then(|s| <[u8; 8]>::try_from(s).ok())`
unfoldable pub half : List ℕ → ℕ → ℕ → Option (List ℕ)
half pair a b = elim (slice pair a b) [ none ↦ none | some s ↦ array 8 s ]

unfoldable pub two_i64 : ℕ → List ℕ → Parsed (ℤ × ℤ)
two_i64 tag bytes = do
  pair ← ok_or (array 16 bytes) (bad_field_length tag (length bytes))
  first ← ok_or (half pair 0 8) (bad_field_length tag (length bytes))
  second ← ok_or (half pair 8 16) (bad_field_length tag (length bytes))
  ok (i64_from_le first, i64_from_le second)

unfoldable pub decode_validity : ℕ → List ℕ → Parsed Validity
decode_validity tag bytes = do
  (kind, rest) ← split_kind tag bytes
  if (kind == 1) && (length rest == 0)
      then ok always
      else if kind == 2
      then (do (before, after) ← two_i64 tag rest; ok (window before after))
      else if kind == 3
      then (do seconds ← one_i64 tag rest; ok (from_first_open seconds))
      else err (bad_field_length tag (length bytes))

unfoldable pub decode_network : ℕ → List ℕ → Parsed Network
decode_network tag bytes = do
  (kind, rest) ← split_kind tag bytes
  if (kind == 1) && (length rest == 0)
      then ok strict_online
      else if kind == 2
      then (do (seconds, max_offline) ← two_i64 tag rest; ok (lease seconds max_offline))
      else err (bad_field_length tag (length bytes))

unfoldable pub decode_max_opens : ℕ → List ℕ → Parsed (Option ℕ)
decode_max_opens tag [] = ok none
decode_max_opens tag (b ∷ bs) = do
  word ← ok_or (array 4 (b ∷ bs)) (bad_field_length tag (length (b ∷ bs)))
  ok (some (from_le word))
