-- ===== src/Base/Utf8.antt =====
-- `core::str::from_utf8`: which byte strings are UTF-8.
use open_crate.Base.{
  ℕ, zero, suc, Bool, true, false, ◌&&◌, List, [], ◌∷◌, leb, ltb, ◌==◌, if◌then◌else◌,
}

-- The bytes that are still due, with bounds on the next one.
abbrev first_byte : (ℕ → ℕ → ℕ → Bool) → ℕ → Bool
first_byte continue b =
    if ltb b 128
    then continue 0 128 191
    else if ltb b 194
    then false
    else if ltb b 224
    then continue 1 128 191
    else if b == 224
    then continue 2 160 191
    else if b == 237
    then continue 2 128 159
    else if ltb b 240
    then continue 2 128 191
    else if b == 240
    then continue 3 144 191
    else if ltb b 244
    then continue 3 128 191
    else if b == 244
    then continue 3 128 143
    else false

unfoldable pub utf8_from : List ℕ → ℕ → ℕ → ℕ → Bool
utf8_from [] zero low high = true
utf8_from [] (suc due) low high = false
utf8_from (b ∷ bytes) zero low high = first_byte (utf8_from bytes) b
utf8_from (b ∷ bytes) (suc due) low high = leb low b && leb b high && utf8_from bytes due 128 191

unfoldable pub is_utf8 : List ℕ → Bool
unfolding utf8_from
is_utf8 bytes = utf8_from bytes 0 128 191
