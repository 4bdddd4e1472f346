-- ===== src/Policy/Intersect/Assoc.antt =====
-- `intersect` of crates/oc-policy/src/lib.rs: three policies combined in either grouping.
use open_crate.Base.{ℕ, ◌≡◌, refl, Option, List, arith, ap, ap₂, sym, ◌∙◌}
use open_crate.Base.Int.{
  ℤ, min_ℤ, max_ℤ, IsI64, i64_max, i64_min, min_ℤ_comm, max_ℤ_comm, min_ℤ_assoc, max_ℤ_assoc,
  min_ℤ-i64_min, max_ℤ-i64_max,
}
use open_crate.Policy.{
  Binding, Validity, always, window, from_first_open, Network, strict_online, Policy,
}
use open_crate.Policy.Sets.{union, IsIncreasing, union-IsIncreasing, contains-union, increasing_ext}
use open_crate.Policy.Rules.{binding_max}
use open_crate.Policy.Intersect.{
  intersect, tighten_network, tighten_validity, min_opens, impossible,
}
use open_crate.Policy.Intersect.Meet.{rule-intersect, binding_for-intersect}
use open_crate.Policy.Intersect.Order.{SamePolicy, IsPolicy, ValidityInRange}

window_impossible :
    (f t : ℤ) → IsI64 f → IsI64 t → window (max_ℤ f i64_max) (min_ℤ t i64_min) ≡ impossible
window_impossible f t hf ht = ap₂ window (max_ℤ-i64_max f hf) (min_ℤ-i64_min t ht)

impossible_window :
    (f t : ℤ) → IsI64 f → IsI64 t → window (max_ℤ i64_max f) (min_ℤ i64_min t) ≡ impossible
impossible_window f t hf ht =
    ap₂ window (max_ℤ_comm i64_max f) (min_ℤ_comm i64_min t) ∙ window_impossible f t hf ht

tighten_validity_assoc :
    (u v w : Validity)
    → ValidityInRange u
    → ValidityInRange w
    → tighten_validity (tighten_validity u v) w ≡ tighten_validity u (tighten_validity v w)
unfolding tighten_validity
tighten_validity_assoc always always always h k = refl
tighten_validity_assoc always always (window wf wt) h k = refl
tighten_validity_assoc always always (from_first_open ws) h k = refl
tighten_validity_assoc always (window vf vt) always h k = refl
tighten_validity_assoc always (window vf vt) (window wf wt) h k = refl
tighten_validity_assoc always (window vf vt) (from_first_open ws) h k = refl
tighten_validity_assoc always (from_first_open vs) always h k = refl
tighten_validity_assoc always (from_first_open vs) (window wf wt) h k = refl
tighten_validity_assoc always (from_first_open vs) (from_first_open ws) h k = refl
tighten_validity_assoc (window uf ut) always always h k = refl
tighten_validity_assoc (window uf ut) always (window wf wt) h k = refl
tighten_validity_assoc (window uf ut) always (from_first_open ws) h k = refl
tighten_validity_assoc (window uf ut) (window vf vt) always h k = refl
tighten_validity_assoc (window uf ut) (window vf vt) (window wf wt) h k =
    ap₂ window (max_ℤ_assoc uf vf wf) (min_ℤ_assoc ut vt wt)
tighten_validity_assoc (window uf ut) (window vf vt) (from_first_open ws) h k =
    sym (window_impossible uf ut h.0 h.1)
tighten_validity_assoc (window uf ut) (from_first_open vs) always h k = refl
tighten_validity_assoc (window uf ut) (from_first_open vs) (window wf wt) h k =
    impossible_window wf wt k.0 k.1 ∙ sym (window_impossible uf ut h.0 h.1)
tighten_validity_assoc (window uf ut) (from_first_open vs) (from_first_open ws) h k = refl
tighten_validity_assoc (from_first_open us) always always h k = refl
tighten_validity_assoc (from_first_open us) always (window wf wt) h k = refl
tighten_validity_assoc (from_first_open us) always (from_first_open ws) h k = refl
tighten_validity_assoc (from_first_open us) (window vf vt) always h k = refl
tighten_validity_assoc (from_first_open us) (window vf vt) (window wf wt) h k =
    impossible_window wf wt k.0 k.1
tighten_validity_assoc (from_first_open us) (window vf vt) (from_first_open ws) h k = refl
tighten_validity_assoc (from_first_open us) (from_first_open vs) always h k = refl
tighten_validity_assoc (from_first_open us) (from_first_open vs) (window wf wt) h k = refl
tighten_validity_assoc (from_first_open us) (from_first_open vs) (from_first_open ws) h k =
    ap from_first_open (min_ℤ_assoc us vs ws)

tighten_network_assoc :
    (m n k : Network)
    → tighten_network (tighten_network m n) k ≡ tighten_network m (tighten_network n k)
unfolding tighten_network
tighten_network_assoc strict_online n k = refl
tighten_network_assoc (Network.lease s o) strict_online k = refl
tighten_network_assoc (Network.lease s o) (Network.lease t p) strict_online = refl
tighten_network_assoc (Network.lease s o) (Network.lease t p) (Network.lease u q) =
    ap₂ Network.lease (min_ℤ_assoc s t u) (min_ℤ_assoc o p q)

min_opens_assoc : (m n k : Option ℕ) → min_opens (min_opens m n) k ≡ min_opens m (min_opens n k)
unfolding min_opens
min_opens_assoc m n k = ground arith

binding_max_assoc :
    (a b c : Binding) → binding_max (binding_max a b) c ≡ binding_max a (binding_max b c)
unfolding binding_max
binding_max_assoc a b c = ground arith

union_assoc :
    (xs ys zs : List ℕ) → IsIncreasing zs → union (union xs ys) zs ≡ union xs (union ys zs)
union_assoc xs ys zs i =
    increasing_ext (union (union xs ys) zs) (union xs (union ys zs))
      (union-IsIncreasing (union xs ys) zs i)
      (union-IsIncreasing xs (union ys zs) (union-IsIncreasing ys zs i))
      (λ a. simp contains-union (ground arith))

-- Regrouping three intersected policies, the outer two in the ranges of their types, changes nothing
-- that `evaluate` reads.
pub intersect_assoc :
    (p q r : Policy)
    → IsPolicy p
    → IsPolicy r
    → SamePolicy (intersect (intersect p q) r) (intersect p (intersect q r))
intersect_assoc p q r hp hr = record {
  rules = λ a. simp rule-intersect (ground arith);
  validity =
      unfold intersect in
      tighten_validity_assoc p.validity q.validity r.validity hp.validity hr.validity;
  max_opens = unfold intersect in min_opens_assoc p.max_opens q.max_opens r.max_opens;
  network = unfold intersect in tighten_network_assoc p.network q.network r.network;
  bindings = λ a. simp (binding_for-intersect, binding_max_assoc);
  watermark = unfold intersect in ground arith;
  unknown =
      unfold intersect in
      union_assoc p.unknown_actions q.unknown_actions r.unknown_actions hr.unknown;
}
