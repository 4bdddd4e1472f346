-- ===== src/Protocol/Agents/Narrowed.antt =====
-- What crates/oc-protocol/src/agent.rs demands of one link of a chain.
use open_crate.Base.{
  ℕ, true, false, ◌≡◌, refl, sym, Option, none, some, List, [], ◌∷◌, ok, Result-cases, arith,
  Bool-cases, inl, inr,
}
use open_crate.Base.Bytes.{bytes_eq, bytes_eq_iff}
use open_crate.Protocol.Actions.{ActionRule, ActionRefusal, kind_eq}
use open_crate.Protocol.Actions.Within.{narrower}
use open_crate.Protocol.Agents.{Entry}
use open_crate.Protocol.Agents.Chain.{
  same_kind, try_parents, none_left, check_children, file_in, all_in, files_of, first_reason,
}
use mathlib.Core.Path.{subst}
use mathlib.Core.List.{Memᴰ}
use mathlib.Core.List.Memᴰ

-- Every rule of the child is narrower than one of the parent's.
abbrev pub Narrowed : List ActionRule → List ActionRule → Type 0
Narrowed parents children =
    (child : ActionRule)
    → Memᴰ child children
    → (parent : ActionRule) × Memᴰ parent parents × (narrower child parent ≡ ok tt)

same_kind-same :
    (q : ActionRule) (parents : List ActionRule) (child : ActionRule)
    → kind_eq q.kind child.kind ≡ true
    → same_kind (q ∷ parents) child ≡ q ∷ same_kind parents child
unfolding same_kind
same_kind-same q parents child e = rw e refl

same_kind-other :
    (q : ActionRule) (parents : List ActionRule) (child : ActionRule)
    → kind_eq q.kind child.kind ≡ false
    → same_kind (q ∷ parents) child ≡ same_kind parents child
unfolding same_kind
same_kind-other q parents child e = rw e refl

mem-same_kind :
    (parents : List ActionRule) (child p : ActionRule)
    → Memᴰ p (same_kind parents child)
    → Memᴰ p parents
unfolding same_kind
mem-same_kind [] child p m = absurd (Memᴰ.not-nil m)
mem-same_kind (q ∷ parents) child p m = elim (Bool-cases (kind_eq q.kind child.kind)) [
  | inl same ↦ elim (Memᴰ.cases_cons (subst (Memᴰ p) (same_kind-same q parents child same) m)) [
    | inl e ↦ Memᴰ.head e
    | inr rest ↦ Memᴰ.tail (mem-same_kind parents child p rest)
  ]
  | inr other ↦
      Memᴰ.tail
        (mem-same_kind parents child p (subst (Memᴰ p) (same_kind-other q parents child other) m))
]

try_parents_sound :
    (index : ℕ) (first : Option ActionRefusal) (child : ActionRule) (parents : List ActionRule)
    → try_parents index first child parents ≡ ok tt
    → (parent : ActionRule) × Memᴰ parent parents × (narrower child parent ≡ ok tt)
unfolding try_parents
try_parents_sound index first child [] h = cc
try_parents_sound index first child (p ∷ parents) h = elim (Result-cases (narrower child p)) [
  | inl (accepted, e) ↦ (p, Memᴰ.head refl, e)
  | inr (why, e) ↦
      let (parent, m, n) =
        try_parents_sound index (some (first_reason first why)) child parents
          (ground (arith, e, h)) in
      (parent, Memᴰ.tail m, n)
]

pub check_children_sound :
    (parents children : List ActionRule) (index : ℕ)
    → check_children parents children index ≡ ok tt
    → Narrowed parents children
unfolding check_children
check_children_sound parents [] index h child m = absurd (Memᴰ.not-nil m)
check_children_sound parents (c ∷ children) index h child (Memᴰ.head e) =
    let (parent, m, n) = try_parents_sound index none c (same_kind parents c) (ground (arith, h)) in
    (
      parent,
      mem-same_kind parents c parent m,
      subst (λ (r : ActionRule). narrower r parent ≡ ok tt) (sym e) n,
    )
check_children_sound parents (c ∷ children) index h child (Memᴰ.tail m) =
    check_children_sound parents children index (ground (arith, h)) child m

pub all_in_sound :
    (files : List (List ℕ)) (entries : List Entry) (file : List ℕ)
    → all_in files entries ≡ true
    → file_in (files_of entries) file ≡ true
    → file_in files file ≡ true
unfolding all_in file_in
all_in_sound files [] file h k = cc
all_in_sound files (entry ∷ entries) file h k =
    let rest = all_in_sound files entries file in
    elim (Bool-cases (bytes_eq entry.file_id file)) [
      | inl same ↦
          let same = (bytes_eq_iff entry.file_id file).0 same in
          subst (λ (f : List ℕ). file_in files f ≡ true) same (ground (arith, h))
      | inr other ↦ rest (ground (arith, h)) (ground (arith, other, k))
    ]

narrower-kind :
    (child parent : ActionRule)
    → narrower child parent ≡ ok tt
    → kind_eq parent.kind child.kind ≡ true
unfolding narrower
narrower-kind child parent h = ground (arith, h)

mem-kept :
    (parents : List ActionRule) (child p : ActionRule)
    → Memᴰ p parents
    → kind_eq p.kind child.kind ≡ true
    → Memᴰ p (same_kind parents child)
mem-kept [] child p m e = absurd (Memᴰ.not-nil m)
mem-kept (q ∷ parents) child p (Memᴰ.head same) e =
    rw
      (same_kind-same q parents child
        (subst (λ (r : ActionRule). kind_eq r.kind child.kind ≡ true) same e))
      (Memᴰ.head same)
mem-kept (q ∷ parents) child p (Memᴰ.tail m) e = elim (Bool-cases (kind_eq q.kind child.kind)) [
  | inl same ↦ rw (same_kind-same q parents child same) (Memᴰ.tail (mem-kept parents child p m e))
  | inr other ↦ rw (same_kind-other q parents child other) (mem-kept parents child p m e)
]

try_parents_complete :
    (index : ℕ) (first : Option ActionRefusal) (child parent : ActionRule)
    (parents : List ActionRule)
    → Memᴰ parent parents
    → narrower child parent ≡ ok tt
    → try_parents index first child parents ≡ ok tt
unfolding try_parents
try_parents_complete index first child parent [] m n = absurd (Memᴰ.not-nil m)
try_parents_complete index first child parent (p ∷ parents) (Memᴰ.head e) n =
    let n = subst (λ (r : ActionRule). narrower child r ≡ ok tt) e n in ground (arith, n)
try_parents_complete index first child parent (p ∷ parents) (Memᴰ.tail m) n =
    elim (Result-cases (narrower child p)) [
      | inl (accepted, e) ↦ ground (arith, e)
      | inr (why, e) ↦
          let rest =
            try_parents_complete index (some (first_reason first why)) child parent parents m n in
          ground (arith, e, rest)
    ]

mem-not_none :
    (parents : List ActionRule) (p : ActionRule) → Memᴰ p parents → none_left parents ≡ false
mem-not_none [] p m = absurd (Memᴰ.not-nil m)
mem-not_none (q ∷ parents) p m = refl

pub check_children_complete :
    (parents children : List ActionRule) (index : ℕ)
    → Narrowed parents children
    → check_children parents children index ≡ ok tt
unfolding check_children
check_children_complete parents [] index all = refl
check_children_complete parents (c ∷ children) index all =
    let (parent, m, n) = all c (Memᴰ.head refl) in
    let kept = mem-kept parents c parent m (narrower-kind c parent n) in
    rw
      (
        mem-not_none (same_kind parents c) parent kept,
        try_parents_complete index none c parent (same_kind parents c) kept n,
      )
      (check_children_complete parents children index
        (λ child member. all child (Memᴰ.tail member)))

file_in-files_of-head :
    (entry : Entry) (entries : List Entry)
    → file_in (files_of (entry ∷ entries)) entry.file_id ≡ true
unfolding file_in
file_in-files_of-head entry entries =
    let same = (bytes_eq_iff entry.file_id entry.file_id).1 refl in ground (arith, same)

file_in-tail :
    (entry : Entry) (entries : List Entry) (file : List ℕ)
    → file_in (files_of entries) file ≡ true
    → file_in (files_of (entry ∷ entries)) file ≡ true
unfolding file_in
file_in-tail entry entries file h = ground (arith, h)

pub all_in_complete :
    (files : List (List ℕ)) (entries : List Entry)
    → ((file : List ℕ) → file_in (files_of entries) file ≡ true → file_in files file ≡ true)
    → all_in files entries ≡ true
unfolding all_in
all_in_complete files [] all = refl
all_in_complete files (entry ∷ entries) all =
    let first = all entry.file_id (file_in-files_of-head entry entries) in
    let rest =
      all_in_complete files entries (λ file m. all file (file_in-tail entry entries file m)) in
    ground (arith, first, rest)
