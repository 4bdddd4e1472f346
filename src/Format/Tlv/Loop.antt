-- ===== src/Format/Tlv/Loop.antt =====
-- The loops over the fields of a buffer: each runs its body over the entries that the buffer encodes.
use open_crate.Base.{
  ℕ, zero, suc, ◌+◌, ◌^◌, ◌<◌, ◌≤◌, ◌≡◌, refl, ap, ◌∙◌, sym, none, some, List, [], ◌∷◌, ◌++◌,
  length, drop, arith, ok, err, ◌>>=◌, >>=-eq-ok, length-drop, Result-cases, inl, inr,
}
use open_crate.Base.Bytes.{IsBytes}
use open_crate.Format.{Parsed}
use open_crate.Format.Tlv.{Field, TlvReader, next_field, is_exhausted, read_field, each_field}
use open_crate.Format.Tlv.Encoding.{Entry, encode_field, encode_fields, IsOrdered}
use open_crate.Format.Tlv.Reader.{field_at, after_field, next_field-encode_field}
use open_crate.Format.Tlv.Sound.{Consumed, next_field_sound}

-- The field of an entry whose record begins at `pos`.
abbrev pub entry_field : ℕ → ℕ → List ℕ → Field
entry_field pos tag value = record {
  tag = tag;
  value = value;
  span = (pos + 6, pos + 6 + length value);
}

module _ {S : Type 0} (body : S → Field → Parsed S) where
  -- The body, over the entries in order.
  abbrev pub fold_entries : ℕ → List Entry → S → Parsed S
  fold_entries pos [] s = ok s
  fold_entries pos ((tag, value) ∷ es) s =
      body s (entry_field pos tag value) >>= λ s'. fold_entries (pos + 6 + length value) es s'

-- Where the entries end that begin at a place.
abbrev pub end_of : ℕ → List Entry → ℕ
end_of pos [] = pos
end_of pos ((tag, value) ∷ es) = end_of (pos + 6 + length value) es

pub fold-append :
    {S : Type 0} (body : S → Field → Parsed S) (es more : List Entry) (pos : ℕ) (s t : S)
    → fold_entries body pos es s ≡ ok t
    → fold_entries body pos (es ++ more) s ≡ fold_entries body (end_of pos es) more t
fold-append body [] more pos s t h = ap (fold_entries body pos more) (ground arith)
fold-append body ((tag, value) ∷ es) more pos s t h =
    let (s', first, rest) = >>=-eq-ok (body s (entry_field pos tag value)) _ h in
    rw first (fold-append body es more (pos + 6 + length value) s' t rest)

next_field_end : (r : TlvReader) → length r.buf ≤ r.pos → next_field r ≡ ok (none, r)
unfolding next_field is_exhausted
next_field_end r h = ground arith

end_of_next_field : (r r' : TlvReader) → next_field r ≡ ok (none, r') → length r.buf ≤ r.pos
unfolding next_field is_exhausted read_field
end_of_next_field r r' h = ground arith

nil_of_length : {A : Type 0} (xs : List A) → length xs ≤ 0 → xs ≡ []
nil_of_length [] h = refl
nil_of_length (x ∷ xs) h = absurd (omega arith)

drop-all : (n : ℕ) (xs : List ℕ) → length xs ≤ n → drop n xs ≡ []
drop-all n xs h = nil_of_length (drop n xs) (omega (arith, length-drop n xs))

module _ {S : Type 0} (body : S → Field → Parsed S) where
  pub each_field-encode_fields :
      (es : List Entry) (fuel : ℕ) (r : TlvReader) (s : S)
      → drop r.pos r.buf ≡ encode_fields es
      → r.pos ≤ length r.buf
      → length r.buf < 2 ^ 63
      → IsOrdered r.last_tag es
      → length es < fuel
      → each_field body fuel r s ≡ fold_entries body r.pos es s
  unfolding each_field encode_fields
  each_field-encode_fields es zero r s e inside small ord enough = absurd (omega arith)
  each_field-encode_fields [] (suc fuel) r s e inside small ord enough =
      let no_more : length r.buf ≤ r.pos = omega (arith, length-drop r.pos r.buf, ap length e) in
      rw (next_field_end r no_more, each_field)
  each_field-encode_fields ((tag, value) ∷ es) (suc fuel) r s e inside small (after, entry, rest)
        enough =
      let (read, e', inside') =
        next_field-encode_field r tag value (encode_fields es) e inside small entry after in
      rw (read, each_field)
        (step (body s (field_at r tag value)) (λ s'.
          each_field-encode_fields es fuel (after_field r tag value) s' e' inside' small rest
            (omega arith)))
    where
      step :
          (b : Parsed S)
          → ((s' : S)
              → each_field body fuel (after_field r tag value) s'
                ≡ fold_entries body (r.pos + 6 + length value) es s')
          → elim b as (λ x. Parsed S) [
            | err x ↦ err x
            | ok s' ↦ each_field body fuel (after_field r tag value) s'
          ]
            ≡ (b >>= λ s'. fold_entries body (r.pos + 6 + length value) es s')
      step (err x) h = refl
      step (ok s') h = h s'

  -- The entries that the buffer of `r` holds from `pos` on, with what the body made of them.
  abbrev Ran : TlvReader → S → S → Type 0
  Ran r s s' =
      (es : List Entry) × (drop r.pos r.buf ≡ encode_fields es)
      × IsOrdered r.last_tag es
      × (fold_entries body r.pos es s ≡ ok s')

  Ran-end : (r r' : TlvReader) (s s' : S) → next_field r ≡ ok (none, r') → s ≡ s' → Ran r s s'
  unfolding encode_fields
  Ran-end r r' s s' e same = ([], drop-all r.pos r.buf (end_of_next_field r r' e), tt, ap ok same)

  Ran-field :
      (r r' : TlvReader) (f : Field) (s t s' : S)
      → Consumed r f r'
      → body s f ≡ ok t
      → Ran (after_field r f.tag f.value) t s'
      → Ran r s s'
  unfolding encode_fields
  Ran-field r r' f s t s' c b (es, bytes, ord, ran) = (
    (f.tag, f.value) ∷ es,
    c.bytes ∙ ap (λ rest. encode_field (f.tag, f.value) ++ rest) bytes,
    (c.after, c.entry, ord),
    rw (ap (body s) (sym c.field) ∙ b) ran,
  )

  pub each_field-Ran :
      (fuel : ℕ) (r : TlvReader) (s s' : S)
      → IsBytes r.buf
      → each_field body fuel r s ≡ ok s'
      → Ran r s s'
  unfolding each_field
  each_field-Ran zero r s s' bytes h = cc
  each_field-Ran (suc fuel) r s s' bytes h = elim (Result-cases (next_field r)) [
    | inr (x, e) ↦ absurd (ground (arith, e))
    | inl ((none, r'), e) ↦ Ran-end r r' s s' e (ground (arith, e))
    | inl ((some f, r'), e) ↦ elim (Result-cases (body s f)) [
      | inr (x, b) ↦ absurd (ground (arith, e, b))
      | inl (t, b) ↦
          let c = next_field_sound r r' f bytes e in
          let rest : each_field body fuel (after_field r f.tag f.value) t ≡ ok s' =
            ap (λ (q : TlvReader). each_field body fuel q t) (sym c.next) ∙ ground (arith, e, b) in
          Ran-field r r' f s t s' c b
            (each_field-Ran fuel (after_field r f.tag f.value) t s' bytes rest)
    ]
  ]
