-- ===== src/Format/PolicyCodec/Fields.antt =====
-- The values of single policy fields of crates/oc-format/src/policy_codec.rs are read back as they were written.
use open_crate.Base.{
  ℕ, ◌+◌, ◌^◌, ◌<◌, ◌≤◌, ◌≡◌, refl, sym, ◌∙◌, Option, none, some, List, [], ◌++◌, length, ok, arith,
  length-append, drop,
}
use mathlib.Core.List.{append-nil}
use open_crate.Base.Int.{ℤ, IsI64}
use open_crate.Base.Bytes.{
  to_le, bits64, signed64-bits64, bits64-lt, from_le-to_le, length-to_le, slice_at, array_lem,
}
use open_crate.Policy.{Validity, always, window, from_first_open, Network, strict_online, lease}
use open_crate.Policy.Intersect.Order.{ValidityInRange, NetworkInRange}
use open_crate.Format.PolicyCodec.Values.{
  i64_le, i64_from_le, encode_validity, encode_network, encode_max_opens, split_kind, one_i64, half,
  two_i64, decode_validity, decode_network, decode_max_opens,
}

pub length-i64_le : (n : ℤ) → length (i64_le n) ≡ 8
unfolding i64_le
length-i64_le n = length-to_le 8 (bits64 n)

pub i64_from_le-i64_le : (n : ℤ) → IsI64 n → i64_from_le (i64_le n) ≡ n
unfolding i64_le i64_from_le
i64_from_le-i64_le n h = rw (from_le-to_le 8 (bits64 n) (bits64-lt n h)) (signed64-bits64 n h)

one_i64-i64_le : (tag : ℕ) (n : ℤ) → IsI64 n → one_i64 tag (i64_le n) ≡ ok n
unfolding one_i64
one_i64-i64_le tag n h = rw (array_lem 8 (i64_le n) (length-i64_le n), i64_from_le-i64_le n h) refl

half_lem :
    (pair s rest : List ℕ) (a b : ℕ)
    → drop a pair ≡ s ++ rest
    → a ≤ length pair
    → b ≡ a + 8
    → length s ≡ 8
    → (half pair a b ≡ some s) × (drop b pair ≡ rest) × (b ≤ length pair)
unfolding half
half_lem pair s rest a b e inside hb eight =
    let (read, behind, fits) = slice_at pair s rest a b e inside (omega arith) in
    (ground (arith, array_lem 8 s eight), behind, fits)

two_i64-i64_le :
    (tag : ℕ) (m n : ℤ) → IsI64 m → IsI64 n → two_i64 tag (i64_le m ++ i64_le n) ≡ ok (m, n)
unfolding two_i64
two_i64-i64_le tag m n hm hn =
    let pair = i64_le m ++ i64_le n in
    let size : length pair ≡ 16 =
      omega (arith, length-append (i64_le m) (i64_le n), length-i64_le m, length-i64_le n) in
    let (first, behind, inside) =
      half_lem pair (i64_le m) (i64_le n) 0 8 refl (omega arith) refl (length-i64_le m) in
    let (second, _, _) =
      half_lem pair (i64_le n) [] 8 16 (behind ∙ sym (append-nil (i64_le n))) inside refl
        (length-i64_le n) in
    ground (arith, array_lem 16 pair size, i64_from_le-i64_le m hm, i64_from_le-i64_le n hn)

pub decode_validity-encode_validity :
    (tag : ℕ) (v : Validity) → ValidityInRange v → decode_validity tag (encode_validity v) ≡ ok v
unfolding decode_validity encode_validity split_kind
decode_validity-encode_validity tag always h = refl
decode_validity-encode_validity tag (window f t) (hf, ht) = rw (two_i64-i64_le tag f t hf ht) refl
decode_validity-encode_validity tag (from_first_open s) h = rw (one_i64-i64_le tag s h) refl

pub decode_network-encode_network :
    (tag : ℕ) (n : Network) → NetworkInRange n → decode_network tag (encode_network n) ≡ ok n
unfolding decode_network encode_network split_kind
decode_network-encode_network tag strict_online h = refl
decode_network-encode_network tag (lease s m) (hs, hm) = rw (two_i64-i64_le tag s m hs hm) refl

abbrev pub OpensInRange : Option ℕ → Type 0
OpensInRange none = Unit {0}
OpensInRange (some limit) = limit < 2 ^ 32

pub decode_max_opens-encode_max_opens :
    (tag : ℕ) (opens : Option ℕ)
    → OpensInRange opens
    → decode_max_opens tag (encode_max_opens opens) ≡ ok opens
unfolding decode_max_opens encode_max_opens to_le
decode_max_opens-encode_max_opens tag none h = refl
decode_max_opens-encode_max_opens tag (some limit) h =
    rw (array_lem 4 (to_le 4 limit) (length-to_le 4 limit), from_le-to_le 4 limit h) refl

pub length-encode_validity : (v : Validity) → length (encode_validity v) ≤ 17
unfolding encode_validity
length-encode_validity always = omega arith
length-encode_validity (window f t) =
    omega (arith, length-append (i64_le f) (i64_le t), length-i64_le f, length-i64_le t)
length-encode_validity (from_first_open s) = omega (arith, length-i64_le s)

pub length-encode_network : (n : Network) → length (encode_network n) ≤ 17
unfolding encode_network
length-encode_network strict_online = omega arith
length-encode_network (lease s m) =
    omega (arith, length-append (i64_le s) (i64_le m), length-i64_le s, length-i64_le m)

pub length-encode_max_opens : (opens : Option ℕ) → length (encode_max_opens opens) ≤ 4
unfolding encode_max_opens
length-encode_max_opens none = omega arith
length-encode_max_opens (some limit) = omega (arith, length-to_le 4 limit)
