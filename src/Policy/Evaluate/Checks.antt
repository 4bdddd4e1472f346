-- ===== src/Policy/Evaluate/Checks.antt =====
-- What each check of `evaluate` means, in exact integers and with no saturation.
use open_crate.Base.{
  ℕ, ◌+◌, ◌-◌, ◌*◌, ◌^◌, ◌≤◌, ◌<◌, ◌≡◌, refl, Bool, true, false, Option, none, some, [], arith, ok,
  ◌↔◌, ◌⊎◌, inl, inr, Bool-cases, leb,
}
use open_crate.Base.Int.{
  ℤ, pos, pos_part, neg_part, ltb_ℤ, ◌≤ℤ◌, IsI64, i64_max, i64_min, saturating_sub, saturating_add,
}
use open_crate.Policy.{
  Action, Rule, Validity, always, window, from_first_open, Network, strict_online, Policy, TpmClock,
  DeviceClock, read, absent, unreadable, LeaseFacts, Context,
}
use open_crate.Policy.Digest.{IsDigest, digest_eq_iff}
use open_crate.Policy.Rules.{rule, level, binding_for, effective_binding}
use open_crate.Policy.Evaluate.{
  check_understood, check_floor, check_binding, check_lease, check_tpm_clock, check_issued,
  check_network, network_at, offline_at, validity_at, first_open, check_elapsed, check_expiry,
  check_offline, check_validity, check_opens, check_rule,
}

-- a - b ≤ k, exactly.
abbrev pub Within : ℤ → ℤ → ℤ → Type 0
Within a b k = pos_part a + neg_part b + neg_part k ≤ pos_part k + neg_part a + pos_part b

-- The same, where `i64::MAX` sets no limit.
abbrev NotOver : ℤ → ℤ → ℤ → Type 0
NotOver a b k = Within a b k ⊎ (k ≡ i64_max)

abbrev pub ClockHolds : Option TpmClock → DeviceClock → Type 0
ClockHolds none d = Unit {0}
ClockHolds (some i) (read c) = (i.clock_ms ≤ c.clock_ms) × (i.reset_count ≤ c.reset_count)
ClockHolds (some i) absent = ⊥
ClockHolds (some i) unreadable = ⊥

-- The hardware clock ran at most as long as the wall clock, and 300 seconds.
abbrev pub ElapsedHolds : Option TpmClock → DeviceClock → ℤ → ℤ → Type 0
ElapsedHolds (some i) (read c) now issued =
    c.clock_ms
    ≤ i.clock_ms
      + (pos_part now + neg_part issued - (neg_part now + pos_part issued)) * 1000
      + 300_000
ElapsedHolds (some i) absent now issued = Unit {0}
ElapsedHolds (some i) unreadable now issued = Unit {0}
ElapsedHolds none d now issued = Unit {0}

abbrev pub NetworkHolds : Network → LeaseFacts → Bool → Type 0
NetworkHolds strict_online l online = online ≡ true
NetworkHolds (Network.lease seconds offline) l online =
    (l.issued_at ≤ℤ l.expires_at) × NotOver l.expires_at l.issued_at seconds

abbrev pub OfflineHolds : Network → LeaseFacts → Bool → ℤ → Type 0
OfflineHolds strict_online l online now = Unit {0}
OfflineHolds (Network.lease seconds offline) l online now =
    (online ≡ true) ⊎ NotOver now l.issued_at offline

abbrev pub ValidityHolds : Validity → Option ℤ → Bool → ℤ → Type 0
ValidityHolds always first online now = Unit {0}
ValidityHolds (window a b) first online now = (a ≤ℤ now) × (now ≤ℤ b)
ValidityHolds (from_first_open seconds) (some f) online now = Within now f seconds ⊎ (now ≡ i64_min)
ValidityHolds (from_first_open seconds) none online now = online ≡ true

abbrev pub LimitHolds : Option ℕ → ℕ → Type 0
LimitHolds none opens = Unit {0}
LimitHolds (some most) opens = opens < most

pub check_understood_iff : (p : Policy) → (check_understood p ≡ ok tt) ↔ (p.unknown_actions ≡ [])
unfolding check_understood
check_understood_iff p = (λ h. ground arith, λ h. ground arith)

pub check_floor_iff : (ctx : Context) → (check_floor ctx ≡ ok tt) ↔ (ctx.monotonic_floor ≤ℤ ctx.now)
unfolding check_floor
check_floor_iff ctx = (λ h. ground arith, λ h. ground arith)

pub check_binding_iff :
    (p : Policy) (l : Option LeaseFacts) (a : Action) (ctx : Context)
    → (check_binding p l a ctx ≡ ok tt)
      ↔ (level (binding_for p a) ≤ level (effective_binding ctx.device.binding l))
unfolding check_binding
check_binding_iff p l a ctx = (λ h. ground arith, λ h. ground arith)

-- The part of `check_lease` about identity.
pub record LeaseHolds (l : LeaseFacts) (ctx : Context) : Type 0 where
  active : l.revoked ≡ false
  pub device : l.device_fingerprint ≡ ctx.device.fingerprint
  pub rules : l.policy_hash ≡ ctx.policy_hash
  fresh : ctx.highest_seq_seen ≤ l.seq

pub record Digests (l : LeaseFacts) (ctx : Context) : Type 0 where
  pub lease_device : IsDigest l.device_fingerprint
  pub lease_policy : IsDigest l.policy_hash
  pub own_device : IsDigest ctx.device.fingerprint
  pub own_policy : IsDigest ctx.policy_hash

module _ (l : LeaseFacts) (ctx : Context) (d : Digests l ctx) where
  pub check_lease_iff : (check_lease l ctx ≡ ok tt) ↔ LeaseHolds l ctx
  unfolding check_lease
  check_lease_iff =
      let device =
        digest_eq_iff l.device_fingerprint ctx.device.fingerprint d.lease_device d.own_device in
      let rules = digest_eq_iff l.policy_hash ctx.policy_hash d.lease_policy d.own_policy in
      (λ h. ground arith, λ h. ground arith)

pub check_tpm_clock_iff :
    (l : LeaseFacts) (ctx : Context)
    → (check_tpm_clock l ctx ≡ ok tt) ↔ ClockHolds l.tpm_clock ctx.device.tpm_clock
unfolding check_tpm_clock
check_tpm_clock_iff l ctx = (λ h. ground arith, λ h. ground arith)

pub check_issued_iff :
    (l : LeaseFacts) (ctx : Context)
    → (check_issued l ctx ≡ ok tt) ↔ Within l.issued_at ctx.now (pos 300)
unfolding check_issued saturating_sub
check_issued_iff l ctx = (λ h. ground arith, λ h. ground arith)

-- Saturated differences and sums against a bound.
saturating_sub-NotOver :
    (a b k : ℤ) → IsI64 k → (ltb_ℤ k (saturating_sub a b) ≡ false) ↔ NotOver a b k
unfolding saturating_sub
saturating_sub-NotOver a b k hk = (
  λ h.
      elim (Bool-cases
        (leb (pos_part a + neg_part b + neg_part k) (pos_part k + neg_part a + pos_part b))) [
          | inl le ↦ inl (ground arith)
          | inr gt ↦ inr (ground arith)
        ],
  λ h. ground arith,
)

saturating_sub_nonneg : (a b : ℤ) → (ltb_ℤ (saturating_sub a b) (pos 0) ≡ false) ↔ (b ≤ℤ a)
unfolding saturating_sub
saturating_sub_nonneg a b = (λ h. ground arith, λ h. ground arith)

saturating_add_ge :
    (now f s : ℤ)
    → IsI64 now
    → (ltb_ℤ (saturating_add f s) now ≡ false) ↔ (Within now f s ⊎ (now ≡ i64_min))
unfolding saturating_add
saturating_add_ge now f s hn = (
  λ h.
      elim (Bool-cases
        (leb (pos_part now + neg_part f + neg_part s) (pos_part s + neg_part now + pos_part f))) [
          | inl le ↦ inl (ground arith)
          | inr gt ↦ inr (ground arith)
        ],
  λ h. ground arith,
)

abbrev pub NetworkBounded : Network → Type 0
NetworkBounded strict_online = Unit {0}
NetworkBounded (Network.lease seconds offline) = IsI64 seconds × IsI64 offline

module _ (p : Policy) (l : LeaseFacts) (ctx : Context) (bounded : NetworkBounded p.network) where
  pub check_network_iff : (check_network p l ctx ≡ ok tt) ↔ NetworkHolds p.network l ctx.online
  unfolding check_network
  check_network_iff = at p.network bounded
    where
      at :
          (n : Network)
          → NetworkBounded n
          → (network_at n l ctx ≡ ok tt) ↔ NetworkHolds n l ctx.online
      at strict_online b = (λ h. ground arith, λ h. ground arith)
      at (Network.lease s o) b =
          let over = saturating_sub-NotOver l.expires_at l.issued_at s b.0 in
          let negative = saturating_sub_nonneg l.expires_at l.issued_at in
          (
            λ h. (negative.0 (ground arith), over.0 (ground arith)),
            λ h. ground (arith, negative.1 h.0, over.1 h.1),
          )

  pub check_offline_iff :
      (check_offline p l ctx ≡ ok tt) ↔ OfflineHolds p.network l ctx.online ctx.now
  unfolding check_offline
  check_offline_iff = at p.network ctx.online bounded
    where
      at :
          (n : Network) (online : Bool)
          → NetworkBounded n
          → (offline_at n online (saturating_sub ctx.now l.issued_at) ≡ ok tt)
            ↔ OfflineHolds n l online ctx.now
      at strict_online online b = (λ h. tt, λ h. refl)
      at (Network.lease s o) true b = (λ h. inl refl, λ h. refl)
      at (Network.lease s o) false b =
          let over = saturating_sub-NotOver ctx.now l.issued_at o b.1 in
          (λ h. inr (over.0 (ground arith)), elim [ inl e ↦ cc | inr e ↦ ground (arith, over.1 e) ])

abbrev pub ClocksBounded : Option TpmClock → DeviceClock → Type 0
ClocksBounded i (read c) = c.clock_ms < 2 ^ 64
ClocksBounded i absent = Unit {0}
ClocksBounded i unreadable = Unit {0}

pub check_elapsed_iff :
    (l : LeaseFacts) (ctx : Context)
    → ClocksBounded l.tpm_clock ctx.device.tpm_clock
    → (check_elapsed l ctx ≡ ok tt)
      ↔ ElapsedHolds l.tpm_clock ctx.device.tpm_clock ctx.now l.issued_at
unfolding check_elapsed saturating_sub
check_elapsed_iff l ctx b = (λ h. ground arith, λ h. ground arith)

pub check_expiry_iff :
    (l : LeaseFacts) (ctx : Context) → (check_expiry l ctx ≡ ok tt) ↔ (ctx.now ≤ℤ l.expires_at)
unfolding check_expiry
check_expiry_iff l ctx = (λ h. ground arith, λ h. ground arith)

pub check_validity_iff :
    (p : Policy) (ctx : Context)
    → IsI64 ctx.now
    → (check_validity p ctx ≡ ok tt) ↔ ValidityHolds p.validity ctx.first_open_at ctx.online ctx.now
unfolding check_validity
check_validity_iff p ctx hn = at p.validity
  where
    opened :
        (s : ℤ) (first : Option ℤ)
        → (first_open s first ctx ≡ ok tt)
          ↔ ValidityHolds (from_first_open s) first ctx.online ctx.now
    opened s none = (λ h. ground arith, λ h. ground arith)
    opened s (some f) =
        let late = saturating_add_ge ctx.now f s hn in
        (λ h. late.0 (ground arith), λ h. ground (arith, late.1 h))

    at :
        (v : Validity)
        → (validity_at v ctx ≡ ok tt) ↔ ValidityHolds v ctx.first_open_at ctx.online ctx.now
    at always = (λ h. tt, λ h. refl)
    at (window a b) = (λ h. ground arith, λ h. ground arith)
    at (from_first_open s) = opened s ctx.first_open_at

pub check_opens_iff :
    (p : Policy) (l : LeaseFacts) (ctx : Context)
    → (check_opens p l ctx ≡ ok tt) ↔ (
        LimitHolds p.max_opens ctx.opens_so_far
        × LimitHolds l.opens_remaining ctx.opens_under_lease)
unfolding check_opens
check_opens_iff p l ctx = (λ h. ground arith, λ h. ground arith)

pub check_rule_iff :
    (author p : Policy) (a : Action) → (check_rule author p a ≡ ok tt) ↔ (rule p a ≡ Rule.allow)
unfolding check_rule
check_rule_iff author p a = (λ h. ground arith, λ h. ground arith)
