-- ===== src/Format/Tlv/RoundTrip.antt =====
-- Writing and reading of crates/oc-format/src/tlv.rs together.
use open_crate.Base.{
  ℕ, suc, ◌^◌, ◌<◌, ◌≤◌, ◌≡◌, refl, ap, ◌∙◌, none, List, [], ◌∷◌, length, arith, ok, ◌>>=◌,
  length-append, ◌↔◌,
}
use open_crate.Base.Bytes.{IsBytes}
use open_crate.Format.{Parsed}
use open_crate.Format.Tlv.{Field, new_reader, new_writer, read_fields}
use open_crate.Format.Tlv.Encoding.{
  Entry, encode_field, encode_fields, IsOrdered, length-encode_field,
}
use open_crate.Format.Tlv.Writer.{put_all, put_all_lem}
use open_crate.Format.Tlv.Loop.{fold_entries, each_field-encode_fields, each_field-Ran}

length-le-encode_fields : (es : List Entry) → length es ≤ length (encode_fields es)
unfolding encode_fields
length-le-encode_fields [] = omega arith
length-le-encode_fields ((tag, value) ∷ es) = omega (
  arith,
  length-le-encode_fields es,
  length-append (encode_field (tag, value)) (encode_fields es),
  length-encode_field tag value,
)

-- A loop over the fields of a buffer, whatever its body, runs the body over just the entries that were
-- encoded, in order: the fuel is enough, and no field is lost or changed.
pub read_fields-encode_fields :
    {S : Type 0} (body : S → Field → Parsed S) (es : List Entry) (s : S)
    → IsOrdered none es
    → length (encode_fields es) < 2 ^ 63
    → read_fields body (encode_fields es) s ≡ fold_entries body 0 es s
unfolding read_fields
read_fields-encode_fields body es s ord small =
    each_field-encode_fields body es (suc (length (encode_fields es)))
      (new_reader (encode_fields es)) s refl (omega arith) small ord
      (omega (arith, length-le-encode_fields es))

-- On fewer than 2^63 bytes of any kind, a loop over the fields succeeds exactly if the bytes are the encoding of
-- entries in range with increasing tags and the body succeeds over those.
pub read_fields_iff :
    {S : Type 0} (body : S → Field → Parsed S) (buf : List ℕ) (s s' : S)
    → IsBytes buf
    → length buf < 2 ^ 63
    → (read_fields body buf s ≡ ok s') ↔ (
        (es : List Entry) × (buf ≡ encode_fields es)
        × IsOrdered none es
        × (fold_entries body 0 es s ≡ ok s'))
unfolding read_fields
read_fields_iff body buf s s' bytes small = (
  λ h. each_field-Ran body (suc (length buf)) (new_reader buf) s s' bytes h,
  λ (es, e, ord, ran).
      rw e (read_fields-encode_fields body es s ord (omega (arith, ap length e)) ∙ ran),
)

-- What the writer has written for entries in range with increasing tags, encoded in fewer than 2^63
-- bytes, the loop reads back: the body
-- runs over just these entries.
pub write_read :
    {S : Type 0} (body : S → Field → Parsed S) (es : List Entry) (s : S)
    → IsOrdered none es
    → length (encode_fields es) < 2 ^ 63
    → (put_all new_writer es >>= λ w. read_fields body w.buf s) ≡ fold_entries body 0 es s
write_read body es s ord small =
    let (w, written, bytes) = put_all_lem es ord small in
    rw (written, bytes) (read_fields-encode_fields body es s ord small)
