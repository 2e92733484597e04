-- ===== src/Tests/StratumTests.antt =====
-- A miner that is logged in, and the nonce that it sends.
use zano_p2pool.Prelude.{
  ok, ℕ, inl, inr, Bool-cases, ◌==◌, ◌≡◌, ◌⊎◌, refl, ◌∙◌, ap, subst, none, some, some-injective,
  true, [], ◌∷◌, arith,
}
use zano_p2pool.Bytes.{zeros}
use zano_p2pool.OrderedMap.{nat_key, find}
use zano_p2pool.Hash.Absorb.{cn_fast_hash-IsArray}
use zano_p2pool.Platform.{light}
use zano_p2pool.Share.{IsShare}
use zano_p2pool.Chain.{ShareChain, empty_chain, best_tip, accepted}
use zano_p2pool.Stratum.Session.{
  StratumLogin, login, publish_template, StratumSession, StratumSessionRegistry, StratumIssuedWork,
  StratumSessionConfig, new_registry, create_session,
}
use zano_p2pool.Stratum.Issuing.{issue_work}
use zano_p2pool.Stratum.Issuing.Jobs.{JobsHold, Issues, issue_work-Issues}
use zano_p2pool.Stratum.Issuing.Reach.{
  Reached-JobsHold, started, created, logged, published, handed,
}
use zano_p2pool.Stratum.Submission.{
  StratumSubmission, Routed, submit, submitted_share, outcome, rejected_share, miner_id_for_session,
}
use zano_p2pool.Stratum.Submission.Routing.{Routes, SharesFit, submit-Routes}
use zano_p2pool.Tests.Printing.{platform, printer}
use zano_p2pool.Tests.Samples.{
  array, header, one, ten, value_or, is_ok, ok_value_or, context, empty_chain-IsValid,
  empty_chain-Apart,
}

abbrev root_job : StratumIssuedWork
root_job = record {
  job_version = 1;
  session_id = 1;
  share_difficulty = one;
  wire_work = record {
    header_hash = header;
    seed_hash = zeros 32;
    share_target = zeros 32;
    height = 60000;
  };
  trusted_context = context;
  parent_binding = none;
}

abbrev miner_session : StratumSession
miner_session = record {
  id = 1;
  logged_in = true;
  username = b'm' ∷ [];
  worker = b'w' ∷ [];
  payout = none;
  configured_share_difficulty = 1;
  current_work = some root_job;
  previous_work = none;
}

abbrev one_session : StratumSessionRegistry
one_session = record {
  config = record {
    default_share_difficulty = 1;
    minimum_share_difficulty = 1;
    maximum_share_difficulty = 10;
  };
  next_session_id = 2;
  next_template_version = 2;
  sessions = (1, miner_session) ∷ [];
  current_template = none;
}

abbrev sent : StratumSubmission
sent = record { nonce = 5; header_hash = header; mix_hash = zeros 32; worker = b'w' ∷ [] }

abbrev routed : Routed
routed =
    value_or (outcome rejected_share accepted (zeros 32) 0, [], empty_chain)
      (submit platform one_session [] empty_chain 1 sent 1000 light)

was_routed : is_ok (submit platform one_session [] empty_chain 1 sent 1000 light) ≡ true
unfolding zano_p2pool.Chain.Submit.submit_share zano_p2pool.Share.share_id
    zano_p2pool.Share.serialize_share zano_p2pool.Share.common_fields
    zano_p2pool.Share.append_u64_be zano_p2pool.Bytes.fill zano_p2pool.OrderedMap.contains
    empty_chain zano_p2pool.Chain.Submit.own_reject_reason
    zano_p2pool.Chain.Rules.structural_reject_reason zano_p2pool.Bytes.is_zero
    zano_p2pool.Bytes.before zano_p2pool.Chain.Rules.trusted_context_reject_reason
    zano_p2pool.Bytes.same zano_p2pool.Chain.Rules.absolute_timestamp_reject_reason
    zano_p2pool.Chain.Submit.connected_parent_reject_reason
    zano_p2pool.Chain.Rules.expected_difficulty_reject_reason
    zano_p2pool.Validation.validate_candidate zano_p2pool.Bytes.value_from
    zano_p2pool.Chain.Connect.add_prevalidated_share zano_p2pool.Chain.Connect.connect_and_promote
    zano_p2pool.Chain.Connect.connect_checked zano_p2pool.Chain.Connect.connect_share
    zano_p2pool.Chain.Connect.insert_connected zano_p2pool.Chain.Connect.link_reject_reason
    zano_p2pool.Chain.Connect.parent_of zano_p2pool.Chain.Connect.promote_children
    zano_p2pool.Chain.Connect.updated_tip zano_p2pool.Chain.Submit.checked_validation
    zano_p2pool.Chain.Submit.proof_check zano_p2pool.Chain.Submit.submit_checked
    zano_p2pool.Decimal.parse_from zano_p2pool.Decimal.parse_uint128_decimal
    zano_p2pool.OrderedMap.erase zano_p2pool.OrderedMap.find zano_p2pool.OrderedMap.insert
    zano_p2pool.Share.check_payout zano_p2pool.Share.difficulty128_to_decimal
    zano_p2pool.Target.bytes_to_uint256 zano_p2pool.Target.difficulty_to_target
    zano_p2pool.Target.hash_meets_difficulty zano_p2pool.Target.hash_meets_target
    zano_p2pool.Target.parse_difficulty zano_p2pool.Target.uint256_to_big_endian_bytes
    zano_p2pool.Validation.progpowz_epoch zano_p2pool.Validation.progpowz_hash
    zano_p2pool.Work.share_work submit zano_p2pool.Stratum.Submission.submit_in
    zano_p2pool.Stratum.Submission.submit_matched zano_p2pool.Stratum.Submission.submit_current
    zano_p2pool.Stratum.Submission.submit_fresh zano_p2pool.Stratum.Submission.was_submitted
    submitted_share zano_p2pool.Stratum.Session.match_submission
    zano_p2pool.Stratum.Session.require_session zano_p2pool.Stratum.Session.find_session
    zano_p2pool.Stratum.Submission.judged_outcome miner_id_for_session best_tip
    zano_p2pool.Hash.cn_fast_hash
was_routed = refl

job-IsShare : IsShare (submitted_share miner_session root_job (best_tip empty_chain) 5 1000)
unfolding submitted_share miner_id_for_session best_tip empty_chain find
job-IsShare = record {
  version_range = omega arith;
  parent_array = array 32 (zeros 32) refl refl;
  height_range = omega arith;
  timestamp_range = omega arith;
  zano_height_range = omega arith;
  header_array = array 32 header refl refl;
  nonce_range = omega arith;
  share_difficulty_array = array 16 one refl refl;
  network_difficulty_array = array 16 ten refl refl;
  miner_array = cn_fast_hash-IsArray (b'Z' ∷ b'P' ∷ b'2' ∷ b'M' ∷ 0 ∷ b'm' ∷ []);
  keys_arrays = λ p h. absurd (ground (arith, h));
}

job-SharesFit : SharesFit one_session empty_chain 1 sent 1000
unfolding zano_p2pool.Stratum.Session.find_session find
job-SharesFit session issued there job =
    let known : miner_session ≡ session = some-injective there in
    let same_job : root_job ≡ issued = some-injective (ap (λ s. s.current_work) known ∙ job) in
    subst (λ s. IsShare (submitted_share s issued (best_tip empty_chain) 5 1000)) known
      (subst (λ i. IsShare (submitted_share miner_session i (best_tip empty_chain) 5 1000)) same_job
        job-IsShare)

submit-Routes_example :
    (routed.2 ≡ empty_chain)
    ⊎ Routes platform light one_session [] empty_chain 1 sent 1000 routed.1 routed.2
submit-Routes_example =
    submit-Routes platform one_session [] empty_chain 1 sent 1000 light routed.0 routed.1 routed.2
      empty_chain-IsValid empty_chain-Apart job-SharesFit (ok_value_or _ _ was_routed)

-- A miner that has logged in, with a published template.
abbrev ready : StratumSessionRegistry
ready = record one_session {
  sessions = (1, record miner_session { current_work = none }) ∷ [];
  current_template = some (record {
    version = 1;
    header_hash = header;
    seed_hash = zeros 32;
    height = 60000;
    network_difficulty = ten;
    parent_binding = none;
  });
}

abbrev issued : StratumIssuedWork × StratumSessionRegistry
issued = value_or (root_job, ready) (issue_work printer.print ready 1 (some one) none)

was_issued : is_ok (issue_work printer.print ready 1 (some one) none) ≡ true
unfolding issue_work zano_p2pool.Stratum.Session.require_session
    zano_p2pool.Stratum.Issuing.issue_from zano_p2pool.Stratum.Issuing.issue_or_keep
    zano_p2pool.Stratum.Issuing.issue_for zano_p2pool.Stratum.Issuing.work_parent
    zano_p2pool.Stratum.Issuing.work_difficulty find zano_p2pool.OrderedMap.insert
    zano_p2pool.Bytes.is_zero zano_p2pool.Bytes.before zano_p2pool.Bytes.value_from
    zano_p2pool.Bytes.fill zano_p2pool.Target.difficulty_to_target
    zano_p2pool.Target.uint256_to_big_endian_bytes zano_p2pool.Target.parse_difficulty
    zano_p2pool.Decimal.parse_from zano_p2pool.Decimal.parse_uint128_decimal
    zano_p2pool.Share.difficulty128_to_decimal
was_issued = refl

ready-JobsHold : JobsHold ready
unfolding find
ready-JobsHold id session work there has = elim (Bool-cases (1 == id)) [
  | inl e ↦
      let known : record miner_session { current_work = none } ≡ session =
        some-injective (ground (arith, e, there)) in
      absurd (ground (arith, ap (λ s. s.current_work) known, has))
  | inr e ↦ absurd (ground (arith, e, there))
]

issue_work-Issues_example : Issues ready 1 issued.0 issued.1
issue_work-Issues_example =
    issue_work-Issues printer.print ready 1 (some one) none issued.0 issued.1 ready-JobsHold
      (ok_value_or _ _ was_issued)

abbrev limits : StratumSessionConfig
limits = record {
  default_share_difficulty = 5;
  minimum_share_difficulty = 1;
  maximum_share_difficulty = 10;
}

abbrev first : StratumSessionRegistry
first = record {
  config = limits;
  next_session_id = 1;
  next_template_version = 1;
  sessions = [];
  current_template = none;
}

was_new : new_registry limits ≡ ok first
unfolding new_registry
was_new = refl

abbrev second : ℕ × StratumSessionRegistry
second = value_or (0, first) (create_session first)

was_created : is_ok (create_session first) ≡ true
unfolding create_session
was_created = refl

abbrev greeting : StratumLogin
greeting = record {
  username = b'm' ∷ [];
  password = [];
  worker = b'w' ∷ [];
  requested_difficulty = none;
}

abbrev third : StratumSessionRegistry
third = value_or first (login (λ name. none) printer.print second.1 1 greeting)

was_logged : is_ok (login (λ name. none) printer.print second.1 1 greeting) ≡ true
unfolding create_session login zano_p2pool.Stratum.Session.require_session
    zano_p2pool.Stratum.Session.clamp_requested_difficulty find zano_p2pool.OrderedMap.insert
was_logged = refl

abbrev fourth : ℕ × StratumSessionRegistry
fourth = value_or (0, first) (publish_template third header (zeros 32) 60000 ten none)

was_published : is_ok (publish_template third header (zeros 32) 60000 ten none) ≡ true
unfolding publish_template zano_p2pool.Bytes.is_zero create_session login
    zano_p2pool.Stratum.Session.require_session
    zano_p2pool.Stratum.Session.clamp_requested_difficulty find zano_p2pool.OrderedMap.insert
was_published = refl

abbrev fifth : StratumIssuedWork × StratumSessionRegistry
fifth = value_or (root_job, first) (issue_work printer.print fourth.1 1 (some one) none)

was_handed : is_ok (issue_work printer.print fourth.1 1 (some one) none) ≡ true
unfolding issue_work zano_p2pool.Stratum.Session.require_session
    zano_p2pool.Stratum.Issuing.issue_from zano_p2pool.Stratum.Issuing.issue_or_keep
    zano_p2pool.Stratum.Issuing.issue_for zano_p2pool.Stratum.Issuing.work_parent
    zano_p2pool.Stratum.Issuing.work_difficulty find zano_p2pool.OrderedMap.insert
    zano_p2pool.Bytes.is_zero zano_p2pool.Bytes.before zano_p2pool.Bytes.value_from
    zano_p2pool.Bytes.fill zano_p2pool.Target.difficulty_to_target
    zano_p2pool.Target.uint256_to_big_endian_bytes zano_p2pool.Target.parse_difficulty
    zano_p2pool.Decimal.parse_from zano_p2pool.Decimal.parse_uint128_decimal
    zano_p2pool.Share.difficulty128_to_decimal create_session login publish_template
    zano_p2pool.Stratum.Session.clamp_requested_difficulty
was_handed = refl

-- A miner has connected, has logged in, a template was published, and the miner has a job.
Reached-JobsHold_example : JobsHold fifth.1
Reached-JobsHold_example =
    Reached-JobsHold (λ name. none) printer.print fifth.1
      (handed fourth.1 fifth.1 1 (some one) none fifth.0
        (published third fourth.1 header (zeros 32) 60000 ten none fourth.0
          (logged second.1 third 1 greeting
            (created first second.1 second.0 (started limits first was_new)
              (ok_value_or _ _ was_created))
            (ok_value_or _ _ was_logged))
          (ok_value_or _ _ was_published))
        (ok_value_or _ _ was_handed))
