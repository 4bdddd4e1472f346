-- ===== src/Policy/Digest.antt =====
-- `digest_eq` of crates/oc-policy/src/lib.rs: a comparison with no early exit.
use Prim.Native.Nat.{bit_or, bit_xor}
use open_crate.Base.{
  ℕ, ◌<◌, ◌≡◌, refl, ap₂, Bool, true, List, [], ◌∷◌, arith, ◌==◌, length, ◌↔◌, ==_iff,
}
use open_crate.Base.Bytes.{IsBytes}
use open_crate.Base.Bits.{bit_xor-byte, eq_of_bit_xor, bit_or-byte, zero_of_bit_or, bit_xor_self}

-- The loop `for (x, y) in a.iter().zip(b.iter()) { diff |= x ^ y; }`.
unfoldable diff_loop : ℕ → List ℕ → List ℕ → ℕ
diff_loop diff [] b = diff
diff_loop diff (x ∷ a) [] = diff
diff_loop diff (x ∷ a) (y ∷ b) = diff_loop (bit_or diff (bit_xor x y)) a b

unfoldable pub digest_eq : List ℕ → List ℕ → Bool
unfolding diff_loop
digest_eq a b = diff_loop 0 a b == 0

abbrev pub IsDigest : List ℕ → Type 0
IsDigest d = (length d ≡ 32) × IsBytes d

-- The loop ends at 0 exactly if it began at 0 and no pair differs.
diff_loop_zero :
    (diff : ℕ) (a b : List ℕ)
    → diff < 256
    → IsBytes a
    → IsBytes b
    → length a ≡ length b
    → diff_loop diff a b ≡ 0
    → (diff ≡ 0) × (a ≡ b)
unfolding diff_loop
diff_loop_zero diff [] [] hd ha hb e h = (h, refl)
diff_loop_zero diff [] (y ∷ b) hd ha hb e h = absurd (omega arith)
diff_loop_zero diff (x ∷ a) [] hd ha hb e h = absurd (omega arith)
diff_loop_zero diff (x ∷ a) (y ∷ b) hd ha hb e h =
    let hx = bit_xor-byte x y ha.0 hb.0 in
    let (z, tails) =
      diff_loop_zero (bit_or diff (bit_xor x y)) a b (bit_or-byte diff (bit_xor x y) hd hx) ha.1
        hb.1 (omega arith) h in
    let (d, x_eq) = zero_of_bit_or diff (bit_xor x y) hd hx z in
    (d, ap₂ ◌∷◌ (eq_of_bit_xor x y ha.0 hb.0 x_eq) tails)

diff_loop_self : (a : List ℕ) → IsBytes a → diff_loop 0 a a ≡ 0
unfolding diff_loop
diff_loop_self [] h = refl
diff_loop_self (x ∷ a) h = rw (bit_xor_self x h.0) (diff_loop_self a h.1)

-- On digests the accumulated difference is zero exactly if they are equal.
pub digest_eq_iff : (a b : List ℕ) → IsDigest a → IsDigest b → (digest_eq a b ≡ true) ↔ (a ≡ b)
unfolding digest_eq
digest_eq_iff a b ha hb = (
  λ h. (diff_loop_zero 0 a b (omega arith) ha.1 hb.1 (omega arith) ((==_iff _ 0).0 h)).1,
  λ e. rw (← e) ((==_iff _ 0).1 (diff_loop_self a ha.1)),
)
