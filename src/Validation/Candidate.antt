-- ===== src/Validation/Candidate.antt =====
-- What the validation of a candidate computes, in terms of the hash and of the two difficulties.
use zano_p2pool.Prelude.{ℕ, ◌*◌, ◌≡◌, inl, inr, Bool, false, Result-cases, ok, arith, leb}
use zano_p2pool.Bytes.{Bytes, IsArray, value}
use zano_p2pool.Target.{max256, hash_meets_difficulty}
use zano_p2pool.Target.Meets.{hash_meets_difficulty-product}
use zano_p2pool.Share.{difficulty128_to_decimal, difficulty128_is_zero}
use zano_p2pool.Share.Difficulty.{parse-difficulty, value-pos}
use zano_p2pool.Platform.{Platform, ProgPowZResult, ProgPowZContextMode, light, full}
use zano_p2pool.Validation.{
  CandidateValidation, progpowz_epoch, progpowz_hash, validate_candidate, classify,
}

-- `hash * difficulty < 2 ^ 256`.
abbrev pub meets : Bytes → Bytes → Bool
meets hash difficulty = leb (value hash * value difficulty) max256

-- `v` is the judgement of the hash `pow` against the two difficulties.
pub record IsJudgement (pow : ProgPowZResult) (share_difficulty network_difficulty : Bytes)
    (v : CandidateValidation) : Type 0 where
  pub pow_result : v.pow ≡ pow
  pub share_flag : v.meets_share_difficulty ≡ meets pow.final_hash share_difficulty
  pub network_flag : v.meets_network_difficulty ≡ meets pow.final_hash network_difficulty
  pub class : v.classification ≡ classify v.meets_share_difficulty v.meets_network_difficulty

module _ (platform : Platform) where
  pub meets-printed :
      (hash d : Bytes)
      → IsArray 16 d
      → difficulty128_is_zero d ≡ false
      → hash_meets_difficulty hash (difficulty128_to_decimal platform.printer.print d)
        ≡ ok (meets hash d)
  meets-printed hash d a z =
      hash_meets_difficulty-product hash (difficulty128_to_decimal platform.printer.print d)
        (value d) (parse-difficulty platform.printer d a z) (value-pos d z)

  pub progpowz_hash-ok :
      (height : ℕ) (header : Bytes) (nonce : ℕ) (mode : ProgPowZContextMode) (pow : ProgPowZResult)
      → progpowz_hash platform height header nonce mode ≡ ok pow
      → pow ≡ platform.progpow_hash mode (progpowz_epoch height) height header nonce
  unfolding progpowz_hash
  progpowz_hash-ok height header nonce light pow h = ground (arith, h)
  progpowz_hash-ok height header nonce full pow h = ground (arith, h)

  -- When `validate_candidate` returns on two nonzero printed difficulties of 16 bytes, the
  -- result holds the platform's hash of the height's epoch, each flag says whether hash times
  -- difficulty is below 2 ^ 256, and the classification follows from the flags.
  pub validate_candidate-IsJudgement :
      (height : ℕ) (header : Bytes) (nonce : ℕ) (mode : ProgPowZContextMode)
      (share_difficulty network_difficulty : Bytes) (v : CandidateValidation)
      → IsArray 16 share_difficulty
      → difficulty128_is_zero share_difficulty ≡ false
      → IsArray 16 network_difficulty
      → difficulty128_is_zero network_difficulty ≡ false
      → validate_candidate platform height header nonce
          (difficulty128_to_decimal platform.printer.print share_difficulty)
          (difficulty128_to_decimal platform.printer.print network_difficulty)
          mode
        ≡ ok v
      → IsJudgement
          (platform.progpow_hash mode (progpowz_epoch height) height header nonce)
          share_difficulty
          network_difficulty
          v
  unfolding validate_candidate
  validate_candidate-IsJudgement height header nonce mode sd nd v sa sz na nz h =
      elim (Result-cases (progpowz_hash platform height header nonce mode)) [
        | inr (x, e) ↦ absurd (ground (arith, e))
        | inl (pow, e) ↦
            let same_pow = progpowz_hash-ok height header nonce mode pow e in
            let s = meets-printed pow.final_hash sd sa sz in
            let n = meets-printed pow.final_hash nd na nz in
            let eq = rw (e, s, n) at h in
            record {
              pow_result = ground (arith, eq, same_pow);
              share_flag = ground (arith, eq, same_pow);
              network_flag = ground (arith, eq, same_pow);
              class = ground (arith, eq, same_pow);
            }
      ]
