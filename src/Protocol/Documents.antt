-- ===== src/Protocol/Documents.antt =====
-- The signed documents of crates/oc-protocol: 64 bytes of signature, then the body, with the fields of fixed length.
use open_crate.Base.{
  ℕ, ◌^◌, ◌<◌, ◌⊎◌, ◌≡◌, refl, ap, sym, ◌∙◌, Bool-cases, false, not, ltb, le→ltb, if◌then◌else◌,
  List, ◌++◌, length, take, drop, take-append, drop-append, length-append, ok, err, ◌>>=◌, ◌>>◌,
  fail_if, arith, inl, inr,
}
use open_crate.Base.Bytes.{to_le, from_le-to_le, length-to_le, array_lem}
use open_crate.Crypto.Transcript.{Transcript}
use open_crate.Format.{Parsed, bad_header_signature}
use open_crate.Format.Tlv.{field_array, field_uint}
use open_crate.Format.Tlv.Loop.{entry_field}
use open_crate.Protocol.{Verifier, split_signature, signature_len}

pub field_array_lem :
    (n tag pos : ℕ) (value : List ℕ)
    → length value ≡ n
    → field_array n (entry_field pos tag value) ≡ ok value
unfolding field_array
field_array_lem n tag pos value h = rw (array_lem n value h) refl

pub field_uint_lem :
    (n tag pos k : ℕ) → k < 256 ^ n → field_uint n (entry_field pos tag (to_le n k)) ≡ ok k
unfolding field_uint
field_uint_lem n tag pos k h =
    rw (field_array_lem n tag pos (to_le n k) (length-to_le n k), from_le-to_le n k h) refl

split_signature_lem :
    (signature body : List ℕ)
    → length signature ≡ 64
    → split_signature (signature ++ body) ≡ ok (signature, body)
unfolding split_signature
split_signature_lem signature body h =
    let t : take signature_len (signature ++ body) ≡ signature =
      ap (λ (n : ℕ). take n (signature ++ body)) (sym h) ∙ take-append signature body in
    let d : drop signature_len (signature ++ body) ≡ body =
      ap (λ (n : ℕ). drop n (signature ++ body)) (sym h) ∙ drop-append signature body in
    let l : ltb (length (signature ++ body)) signature_len ≡ false =
      le→ltb (length (signature ++ body)) 64 (omega (arith, h, length-append signature body)) in
    rw (l, t, d) refl

pub unsigned_refused :
    {A : Type 0} (verify : Verifier) (key bytes : List ℕ) (message : List ℕ → Transcript)
    (rest : List ℕ → List ℕ → Parsed A)
    → (length bytes < signature_len)
      ⊎ (verify key (message (drop signature_len bytes)) (take signature_len bytes) ≡ false)
    → (split_signature bytes >>= λ (signature, body). do
      fail_if (not (verify key (message body) signature)) bad_header_signature
      rest signature body)
      ≡ err bad_header_signature
unfolding split_signature
unsigned_refused verify key bytes message rest unsigned =
    elim (Bool-cases (ltb (length bytes) signature_len)) [
      | inl e ↦ rw e refl
      | inr e ↦ elim unsigned [
        | inl short ↦ absurd (ground (arith, e, short))
        | inr wrong ↦ rw (e, wrong) refl
      ]
    ]

pub signed_read :
    {A : Type 0} (verify : Verifier) (key signature body : List ℕ) (message : List ℕ → Transcript)
    (rest : List ℕ → Parsed A)
    → length signature ≡ 64
    → (split_signature (signature ++ body) >>= λ (s, b). do
      fail_if (not (verify key (message b) s)) bad_header_signature
      rest b)
      ≡ (if verify key (message body) signature then rest body else err bad_header_signature)
signed_read verify key signature body message rest h =
    rw (split_signature_lem signature body h)
      (elim (Bool-cases (verify key (message body) signature)) [
        | inl e ↦ rw e refl
        | inr e ↦ rw e refl
      ])
