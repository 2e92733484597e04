-- ===== src/Chain/Submission.antt =====
-- The proofs about `submit_share` of src/share_chain.cpp.
use zano_p2pool.Prelude.{
  ℕ, ◌+◌, ◌*◌, ◌≤◌, ◌≡◌, sym, ◌∙◌, ap, subst, ◌⊎◌, inl, inr, true, false, ◌||◌, Bool-cases,
  Result-cases, some, ok, arith, leb, ==_iff, ◌>>=◌,
}
use zano_p2pool.Bytes.{Bytes, IsArray, value}
use zano_p2pool.Bytes.Order.{same_iff}
use zano_p2pool.OrderedMap.{bytes_key, contains}
use zano_p2pool.Target.{max256}
use zano_p2pool.Share.{
  Share, IsShare, has_value, difficulty128_to_decimal, share_id, difficulty128_is_zero,
}
use zano_p2pool.Params.{share_max_future_seconds}
use zano_p2pool.Platform.{Platform, ProgPowZContextMode}
use zano_p2pool.Validation.{CandidateValidation, progpowz_epoch, validate_candidate}
use zano_p2pool.Validation.Candidate.{validate_candidate-IsJudgement}
use zano_p2pool.Chain.{ShareChain, AddShareResult, ShareWorkContext, is_accepted}
use zano_p2pool.Chain.Rules.{
  structural_reject_reason, trusted_context_reject_reason, absolute_timestamp_reject_reason,
  expected_difficulty_reject_reason,
}
use zano_p2pool.Chain.Submit.{
  own_reject_reason, connected_parent_reject_reason, proof_check, checked_validation, passed,
  failed, submit_checked, submit_share,
}
use zano_p2pool.Chain.Invariant.{IsValid, Apart}
use zano_p2pool.Chain.Admission.{add_prevalidated-Adds}
use zano_p2pool.Chain.Dispositions.{Adds, structural-nonzero}

-- The share names the trusted work, is not from the future, and its hash meets its difficulty.
pub record IsProven (platform : Platform) (mode : ProgPowZContextMode) (share : Share)
    (context : ShareWorkContext) (now : ℕ) : Type 0 where
  pub same_height : share.zano_height ≡ context.zano_height
  pub same_header : share.mining_header_hash ≡ context.mining_header_hash
  pub same_difficulty : share.network_difficulty ≡ context.network_difficulty
  pub not_ahead : share.timestamp ≤ now + share_max_future_seconds
  pub meets_difficulty :
      value
          (platform.progpow_hash mode
            (progpowz_epoch share.zano_height)
            share.zano_height
            share.mining_header_hash
            share.nonce).final_hash
        * value share.share_difficulty
      ≤ max256

network-nonzero :
    (chain : ShareChain) (share : Share)
    → is_accepted (structural_reject_reason chain share) ≡ true
    → difficulty128_is_zero share.network_difficulty ≡ false
unfolding structural_reject_reason
network-nonzero chain share h = elim (Bool-cases (difficulty128_is_zero share.network_difficulty)) [
  | inr e ↦ e
  | inl e ↦ ground (arith, e)
]

pub own_reject_reason-accepted :
    (chain : ShareChain) (share : Share) (context : ShareWorkContext) (now : ℕ)
    → is_accepted (own_reject_reason chain share context now) ≡ true
    → (is_accepted (structural_reject_reason chain share) ≡ true)
      × (is_accepted (trusted_context_reject_reason share context) ≡ true)
      × (is_accepted (absolute_timestamp_reject_reason share now) ≡ true)
unfolding own_reject_reason
own_reject_reason-accepted chain share context now h = (ground arith, ground arith, ground arith)

trusted_context-equal :
    (share : Share) (context : ShareWorkContext)
    → is_accepted (trusted_context_reject_reason share context) ≡ true
    → (share.zano_height ≡ context.zano_height)
      × (share.mining_header_hash ≡ context.mining_header_hash)
      × (share.network_difficulty ≡ context.network_difficulty)
unfolding trusted_context_reject_reason
trusted_context-equal share context h = (
  (==_iff share.zano_height context.zano_height).0 (ground arith),
  (same_iff share.mining_header_hash context.mining_header_hash).0 (ground arith),
  (same_iff share.network_difficulty context.network_difficulty).0 (ground arith),
)

timestamp-not_ahead :
    (share : Share) (now : ℕ)
    → is_accepted (absolute_timestamp_reject_reason share now) ≡ true
    → share.timestamp ≤ now + share_max_future_seconds
unfolding absolute_timestamp_reject_reason
timestamp-not_ahead share now h = ground arith

checked_validation-passed :
    (w v : CandidateValidation)
    → checked_validation w ≡ passed v
    → (w ≡ v) × (w.meets_share_difficulty ≡ true)
unfolding checked_validation
checked_validation-passed w v h = (ground arith, ground arith)

-- The end of the check, once the expected difficulty is there and the build has the hash.
passed-validation :
    (platform : Platform) (chain : ShareChain) (share : Share) (context : ShareWorkContext)
    (mode : ProgPowZContextMode) (v : CandidateValidation)
    → proof_check platform chain share context mode ≡ ok (passed v)
    → (validate_candidate platform context.zano_height context.mining_header_hash share.nonce
          (difficulty128_to_decimal platform.printer.print share.share_difficulty)
          (difficulty128_to_decimal platform.printer.print context.network_difficulty)
          mode
        ≡ ok v)
      × (v.meets_share_difficulty ≡ true)
unfolding proof_check
passed-validation platform chain share context mode v h =
    elim (Result-cases (expected_difficulty_reject_reason chain share)) [
      | inr (x, e) ↦ absurd (ground (arith, e))
      | inl (reason, e) ↦
          elim (Result-cases (
            validate_candidate platform context.zano_height context.mining_header_hash share.nonce
              (difficulty128_to_decimal platform.printer.print share.share_difficulty)
              (difficulty128_to_decimal platform.printer.print context.network_difficulty) mode)) [
                | inr (x, f) ↦ absurd (ground (arith, e, f))
                | inl (w, f) ↦
                    let (same_v, met) = checked_validation-passed w v (ground (arith, e, f)) in
                    (
                      f ∙ ap (λ u. ok u) same_v,
                      subst (λ u. u.meets_share_difficulty ≡ true) same_v met,
                    )
              ]
    ]

leb→le : (a b : ℕ) → leb a b ≡ true → a ≤ b
leb→le a b h = grind arith

-- What the checks of a share establish.
pub proof_check-IsProven :
    (platform : Platform) (chain : ShareChain) (share : Share) (context : ShareWorkContext)
    (now : ℕ) (mode : ProgPowZContextMode) (v : CandidateValidation)
    → IsShare share
    → is_accepted (own_reject_reason chain share context now) ≡ true
    → proof_check platform chain share context mode ≡ ok (passed v)
    → IsProven platform mode share context now
proof_check-IsProven platform chain share context now mode v ranges fine h =
    let (structural, trusted, timely) = own_reject_reason-accepted chain share context now fine in
    let (height, header, network) = trusted_context-equal share context trusted in
    let (validation, met) = passed-validation platform chain share context mode v h in
    let judged =
      validate_candidate-IsJudgement platform context.zano_height context.mining_header_hash
        share.nonce mode share.share_difficulty context.network_difficulty v
        ranges.share_difficulty_array (structural-nonzero chain share structural)
        (subst (IsArray 16) network ranges.network_difficulty_array)
        (subst (λ d. difficulty128_is_zero d ≡ false) network
          (network-nonzero chain share structural))
        validation in
    record {
      same_height = height;
      same_header = header;
      same_difficulty = network;
      not_ahead = timestamp-not_ahead share now timely;
      meets_difficulty = rw (height, header) (leb→le _ max256 (sym judged.share_flag ∙ met));
    }

-- The chain is as before, or the share is proven and was added with its validation.
abbrev pub Submitted :
    Platform
    → ProgPowZContextMode
    → ShareChain
    → Share
    → ShareWorkContext
    → ℕ
    → AddShareResult
    → ShareChain
    → Type 0
Submitted platform mode chain share context now r new =
    (new ≡ chain) ⊎ (IsProven platform mode share context now × Adds chain share r new)

submit_checked-Submitted :
    (platform : Platform) (chain : ShareChain) (share : Share) (context : ShareWorkContext)
    (now : ℕ) (mode : ProgPowZContextMode) (id : Bytes) (r : AddShareResult) (new : ShareChain)
    → IsValid chain
    → Apart chain
    → IsShare share
    → is_accepted (own_reject_reason chain share context now) ≡ true
    → (proof_check platform chain share context mode >>= λ check.
        submit_checked platform chain share id check)
      ≡ ok (r, new)
    → Submitted platform mode chain share context now r new
unfolding submit_checked
submit_checked-Submitted platform chain share context now mode id r new v apart ranges fine h =
    elim (Result-cases (proof_check platform chain share context mode)) [
      | inr (x, e) ↦ absurd (ground (arith, e))
      | inl (failed reason, e) ↦ inl (ground (arith, e))
      | inl (passed w, e) ↦ inr (
        proof_check-IsProven platform chain share context now mode w ranges fine e,
        add_prevalidated-Adds chain share (some w) (has_value chain.difficulty_policy) r new v apart
            ranges (rw e at h),
      )
    ]

-- When `submit_share` returns on a valid chain with unconnected orphans and a share of proper
-- field widths, the chain is as before, or the share has the height, header and network
-- difficulty of the trusted context, is at most the tolerance ahead of now, its proof-of-work
-- hash times its difficulty is below 2 ^ 256, and the chain changed as `add_prevalidated_share`
-- says, invariants kept.
pub submit_share-Submitted :
    (platform : Platform) (chain : ShareChain) (share : Share) (context : ShareWorkContext)
    (now : ℕ) (mode : ProgPowZContextMode) (r : AddShareResult) (new : ShareChain)
    → IsValid chain
    → Apart chain
    → IsShare share
    → submit_share platform chain share context now mode ≡ ok (r, new)
    → Submitted platform mode chain share context now r new
unfolding submit_share
submit_share-Submitted platform chain share context now mode r new v apart ranges h =
    elim (Result-cases (share_id share)) [
      | inr (x, e) ↦ absurd (ground (arith, e))
      | inl (id, e) ↦ elim (Bool-cases (contains id chain.connected || contains id chain.orphans)) [
        | inl known ↦ inl (ground (arith, e, known))
        | inr unknown ↦
            elim (Bool-cases (is_accepted (own_reject_reason chain share context now))) [
              | inr refused ↦ inl (ground (arith, e, unknown, refused))
              | inl fine ↦
                  elim (Bool-cases (is_accepted (connected_parent_reject_reason chain share))) [
                    | inr refused ↦ inl (ground (arith, e, unknown, fine, refused))
                    | inl parent ↦
                        submit_checked-Submitted platform chain share context now mode id r new v
                          apart ranges fine (rw (e, unknown, fine, parent) at h)
                  ]
            ]
      ]
    ]
