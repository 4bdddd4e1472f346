-- ===== src/Tests/Decisions.antt =====
-- crates/oc-policy/src/lib.rs on concrete facts.
use open_crate.Base.{ℕ, ◌≡◌, refl, ◌↔◌, true, false, Option, none, some, List, [], ◌∷◌, arith}
use open_crate.Base.Int.{pos, saturating_sub, saturating_add}
use open_crate.Policy.{
  Action, view, hardware, hardware_attested, vendor_certificate, from_first_open, Network,
  strict_online, Policy, read, wall, LeaseFacts, Context, Verdict, lease_outlives_policy,
}
use open_crate.Policy.Rules.{
  deny_all, allow_action, insert, rule, binding_for, effective_binding, no_tightening,
}
use open_crate.Policy.Digest.{digest_eq, IsDigest}
use open_crate.Policy.Intersect.{intersect}
use open_crate.Policy.Intersect.Order.{SamePolicy, IsPolicy, intersect_comm}
use open_crate.Policy.Intersect.Assoc.{intersect_assoc}
use open_crate.Policy.Intersect.Identity.{intersect-no_tightening}
use open_crate.Policy.Evaluate.{
  evaluate, with_lease, obligations, check_understood, check_floor, check_binding, check_lease,
  check_tpm_clock, check_issued, check_network, check_elapsed, check_expiry, check_offline,
  check_validity, check_opens, check_rule,
}
use open_crate.Policy.Evaluate.Granted.{Granted, evaluate-allow_iff}
use open_crate.Policy.Tightening.{tightened, untightened, strict_server_lifts_limit}

abbrev device_digest : List ℕ
device_digest =
    7 ∷ 7 ∷ 7 ∷ 7 ∷ 7 ∷ 7 ∷ 7 ∷ 7 ∷ 7 ∷ 7 ∷ 7 ∷ 7 ∷ 7 ∷ 7 ∷ 7 ∷ 7 ∷ 7 ∷ 7 ∷ 7 ∷ 7 ∷ 7 ∷ 7 ∷ 7 ∷ 7
    ∷ 7 ∷ 7 ∷ 7 ∷ 7 ∷ 7 ∷ 7 ∷ 7 ∷ 7 ∷ []

abbrev rules_digest : List ℕ
rules_digest =
    9 ∷ 9 ∷ 9 ∷ 9 ∷ 9 ∷ 9 ∷ 9 ∷ 9 ∷ 9 ∷ 9 ∷ 9 ∷ 9 ∷ 9 ∷ 9 ∷ 9 ∷ 9 ∷ 9 ∷ 9 ∷ 9 ∷ 9 ∷ 9 ∷ 9 ∷ 9 ∷ 9
    ∷ 9 ∷ 9 ∷ 9 ∷ 9 ∷ 9 ∷ 9 ∷ 9 ∷ 9 ∷ []

-- A lease of an hour, half an hour old, on a device with a clock that ran for ten minutes of it.
abbrev hour_lease : LeaseFacts
hour_lease = record {
  device_fingerprint = device_digest;
  policy_hash = rules_digest;
  seq = 5;
  epoch = 0;
  issued_at = pos 10_000;
  expires_at = pos 13_600;
  opens_remaining = some 3;
  revoked = false;
  server_policy = none;
  attested = some vendor_certificate;
  tpm_clock = some (record { reset_count = 2; clock_ms = 1_000 });
}

abbrev pub half_past : Context
half_past = record {
  now = pos 11_800;
  time_source = wall;
  monotonic_floor = pos 11_000;
  first_open_at = some (pos 10_500);
  opens_so_far = 1;
  opens_under_lease = 1;
  device = record {
    fingerprint = device_digest;
    binding = hardware;
    tpm_clock = read (record { reset_count = 2; clock_ms = 601_000 });
  };
  highest_seq_seen = 5;
  online = true;
  policy_hash = rules_digest;
}

-- The author allows to view, on attested hardware, for a day after the first open.
abbrev author : Policy
author = record (allow_action deny_all view) {
  validity = from_first_open (pos 86_400);
  max_opens = some 10;
  network = Network.lease (pos 7_200) (pos 3_600);
  min_binding = hardware;
  watermark = true;
}

-- A server that wants the device to be online, and a shorter time.
abbrev online_server : Policy
online_server = record no_tightening {
  network = strict_online;
  validity = from_first_open (pos 3_600);
}

abbrev short_server : Policy
short_server = record no_tightening {
  network = Network.lease (pos 3_600) (pos 600);
  min_binding = hardware_attested;
}

-- A proof that unfolds `run` computes with the whole decision.
run : Policy → Option LeaseFacts → Action → Context → Verdict
unfolding evaluate with_lease obligations check_understood check_floor check_binding check_lease
    check_tpm_clock check_issued check_network check_elapsed check_expiry check_offline
    check_validity check_opens check_rule intersect binding_for effective_binding rule insert
    allow_action deny_all digest_eq no_tightening saturating_sub saturating_add
run = evaluate

evaluate_runs :
    evaluate author (some hour_lease) view half_past
    ≡ Verdict.allow
        (record { watermark = true; block_screen_capture = true; suppress_crash_dumps = true })
unfolding run
evaluate_runs = refl

sample_digests : IsDigest device_digest × IsDigest rules_digest
sample_digests = omega arith

evaluate-allow_iff_example :
    (evaluate author (some hour_lease) view half_past ≡ Verdict.allow (obligations author))
    ↔ ((obligations author ≡ obligations author) × Granted author hour_lease view half_past)
evaluate-allow_iff_example =
    evaluate-allow_iff author hour_lease view half_past (obligations author) (record {
      digests = record {
        lease_device = sample_digests.0;
        lease_policy = sample_digests.1;
        own_device = sample_digests.0;
        own_policy = sample_digests.1;
      };
      now = omega arith;
      network = omega arith;
      clocks = omega arith;
    })

-- The same lease, for four hours where the author allows two.
abbrev long_lease : LeaseFacts
long_lease = record hour_lease { expires_at = pos 24_400 }

long_allows :
    evaluate author (some (tightened online_server long_lease)) view half_past
    ≡ Verdict.allow (obligations author)
unfolding run
long_allows = refl

strict_server_lifts_limit_example :
    evaluate author (some (untightened long_lease)) view half_past
    ≡ Verdict.deny (lease_outlives_policy (pos 7_200) (saturating_sub (pos 24_400) (pos 10_000)))
strict_server_lifts_limit_example =
    strict_server_lifts_limit author online_server long_lease view half_past (obligations author)
      {seconds = pos 7_200} {offline = pos 3_600} refl (unfold saturating_sub in refl) long_allows

author-IsPolicy : IsPolicy author
unfolding allow_action deny_all
author-IsPolicy = omega arith

online_server-IsPolicy : IsPolicy online_server
unfolding no_tightening
online_server-IsPolicy = omega arith

intersect_comm_example :
    SamePolicy (intersect author online_server) (intersect online_server author)
intersect_comm_example = intersect_comm author online_server author-IsPolicy online_server-IsPolicy

intersect_assoc_example :
    SamePolicy
      (intersect (intersect author short_server) online_server)
      (intersect author (intersect short_server online_server))
intersect_assoc_example =
    intersect_assoc author short_server online_server author-IsPolicy online_server-IsPolicy

intersect-no_tightening_example : SamePolicy (intersect author no_tightening) author
intersect-no_tightening_example = intersect-no_tightening author author-IsPolicy
