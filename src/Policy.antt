-- ===== src/Policy.antt =====
-- crates/oc-policy/src/lib.rs: the data of the access decision.
-- A digest is a list of 32 bytes, a `Timestamp` is its `i64`, a `BTreeMap` keyed by the six actions
-- is a function (iteration follows `all_actions`, the order of the keys), and a `BTreeSet<u16>` is
-- its increasing list. The operations stand in the modules below.
pub mod Sets
pub mod Digest
pub mod Rules
pub mod Intersect
pub mod Evaluate
pub mod Tightening
use open_crate.Base.{ℕ, Bool, Option, List, [], ◌∷◌}
use open_crate.Base.Int.{ℤ}

abbrev Timestamp : Type 0
Timestamp = ℤ

pub data TimeSource : Type 0 where
  wall : TimeSource
  tpm : ℕ → TimeSource
  server_asserted : TimeSource

pub data Action : Type 0 where
  view edit print clipboard export screenshot : Action

-- The actions in their `Ord`, which is the order in which a `BTreeMap` is iterated.
abbrev pub all_actions : List Action
all_actions = view ∷ edit ∷ print ∷ clipboard ∷ export ∷ screenshot ∷ []

pub data Rule : Type 0 where
  allow deny : Rule

pub data Attestation : Type 0 where
  vendor_certificate enrolled_ek : Attestation

pub data Binding : Type 0 where
  software hardware hardware_attested : Binding

pub data Validity : Type 0 where
  always : Validity
  window : Timestamp → Timestamp → Validity
  from_first_open : ℤ → Validity

pub data Network : Type 0 where
  strict_online : Network
  lease : ℤ → ℤ → Network

-- A `BTreeMap<Action, V>`.
abbrev pub ActionMap : Type 0 → Type 0
ActionMap V = Action → Option V

pub record Policy : Type 0 where
  pub actions : ActionMap Rule
  pub validity : Validity
  pub max_opens : Option ℕ
  pub network : Network
  pub min_binding : Binding
  pub action_binding : ActionMap Binding
  pub watermark : Bool
  pub unknown_actions : List ℕ

pub record TpmClock : Type 0 where
  pub reset_count : ℕ
  pub clock_ms : ℕ

pub data DeviceClock : Type 0 where
  read : TpmClock → DeviceClock
  absent unreadable : DeviceClock

pub record DeviceFacts : Type 0 where
  pub fingerprint : List ℕ
  pub binding : Binding
  pub tpm_clock : DeviceClock

pub record LeaseFacts : Type 0 where
  pub device_fingerprint : List ℕ
  pub policy_hash : List ℕ
  pub seq : ℕ
  pub epoch : ℕ
  pub issued_at : Timestamp
  pub expires_at : Timestamp
  pub opens_remaining : Option ℕ
  pub revoked : Bool
  pub server_policy : Option Policy
  pub attested : Option Attestation
  pub tpm_clock : Option TpmClock

pub record Context : Type 0 where
  pub now : Timestamp
  pub time_source : TimeSource
  pub monotonic_floor : Timestamp
  pub first_open_at : Option Timestamp
  pub opens_so_far : ℕ
  pub opens_under_lease : ℕ
  pub device : DeviceFacts
  pub highest_seq_seen : ℕ
  pub online : Bool
  pub policy_hash : List ℕ

pub record Obligations : Type 0 where
  pub watermark : Bool
  pub block_screen_capture : Bool
  pub suppress_crash_dumps : Bool

pub data DenyReason : Type 0 where
  action_not_permitted : Action → DenyReason
  action_tightened_by_server : Action → DenyReason
  policy_not_fully_understood : ℕ → DenyReason
  clock_rollback : DenyReason
  lease_rollback : ℕ → ℕ → DenyReason
  tpm_clock_rollback : TpmClock → TpmClock → DenyReason
  tpm_clock_missing : DenyReason
  tpm_clock_unreadable : DenyReason
  hardware_clock_outran_wall_clock : ℕ → ℕ → DenyReason
  not_yet_valid : DenyReason
  expired : DenyReason
  revoked : DenyReason
  open_limit_reached : DenyReason
  offline_not_permitted : DenyReason
  no_lease : DenyReason
  wrong_device : DenyReason
  policy_hash_mismatch : DenyReason
  binding_too_weak : Binding → Binding → DenyReason
  lease_issued_in_the_future : Timestamp → Timestamp → DenyReason
  lease_outlives_policy : ℤ → ℤ → DenyReason
  offline_too_long : ℤ → ℤ → DenyReason
  first_open_not_recorded : DenyReason

pub data Verdict : Type 0 where
  allow : Obligations → Verdict
  deny : DenyReason → Verdict

-- `MAX_CLOCK_SKEW_SECONDS`
abbrev pub max_clock_skew_seconds : ℕ
max_clock_skew_seconds = 300
