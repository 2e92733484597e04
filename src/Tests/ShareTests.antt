-- ===== src/Tests/ShareTests.antt =====
-- Shares, difficulties, work and tips, on concrete inputs.
use zano_p2pool.Prelude.{
  ◌↔◌, ◌≡◌, ◌+◌, ◌%◌, ◌*◌, ◌^◌, refl, ok, none, true, false, [], ◌∷◌, arith, ltb, leb,
}
use zano_p2pool.Bytes.{Bytes, IsArray, zeros, value, value_from, fill, same, before, is_zero}
use zano_p2pool.Decimal.{parse_from, parse_uint128_decimal}
use zano_p2pool.Decimal.Text.{Spells, parse_uint128_decimal_iff, parse-print}
use zano_p2pool.Target.{max256, hash_meets_difficulty}
use zano_p2pool.Target.Meets.{hash_meets_difficulty-product}
use zano_p2pool.Share.{
  serialize_share, deserialize_share, common_fields, append_u64_be, check_payout,
  difficulty128_from_decimal, difficulty128_to_decimal,
}
use zano_p2pool.Share.RoundTrip.{deserialize-serialize}
use zano_p2pool.Share.Difficulty.{difficulty_round_trip}
use zano_p2pool.Work.{add_chain_work_checked}
use zano_p2pool.Work.Sum.{add_chain_work-sum}
use zano_p2pool.Platform.{light}
use zano_p2pool.Validation.{
  CandidateValidation, validate_candidate, progpowz_epoch, progpowz_hash, invalid,
}
use zano_p2pool.Validation.Candidate.{IsJudgement, validate_candidate-IsJudgement}
use zano_p2pool.Chain.{ConnectedShare, better_tip}
use zano_p2pool.Chain.TipOrder.{better_tip_trans, better_tip_total}
use zano_p2pool.Tests.Printing.{printer, platform}
use zano_p2pool.Tests.Samples.{
  array, header, one, ten, root_share, root_share-IsShare, value_or, is_ok, ok_value_or,
}

abbrev pub written : Bytes
written = value_or [] (serialize_share root_share)

pub was_written : is_ok (serialize_share root_share) ≡ true
unfolding serialize_share check_payout common_fields append_u64_be fill
was_written = refl

deserialize-serialize_example : deserialize_share written ≡ ok root_share
deserialize-serialize_example =
    deserialize-serialize root_share written root_share-IsShare (ok_value_or _ _ was_written)

difficulty_round_trip_example :
    difficulty128_from_decimal (difficulty128_to_decimal printer.print ten) ≡ ok ten
unfolding is_zero
difficulty_round_trip_example = difficulty_round_trip printer ten (array 16 ten refl refl) refl

parse-print_example : parse_uint128_decimal (printer.print 2160) ≡ ok 2160
parse-print_example = parse-print printer 2160 (omega arith) (omega arith)

parse_uint128_decimal_iff_example :
    (parse_uint128_decimal (b'4' ∷ b'2' ∷ []) ≡ ok 42) ↔ Spells (b'4' ∷ b'2' ∷ []) 42
parse_uint128_decimal_iff_example = parse_uint128_decimal_iff (b'4' ∷ b'2' ∷ []) 42

hash_meets_difficulty-product_example :
    hash_meets_difficulty header (b'4' ∷ b'2' ∷ []) ≡ ok (leb (value header * 42) max256)
unfolding parse_uint128_decimal parse_from
hash_meets_difficulty-product_example =
    hash_meets_difficulty-product header (b'4' ∷ b'2' ∷ []) 42 refl (omega arith)

add_chain_work-sum_example :
    ((add_chain_work_checked ten one).0 ≡ ltb (value ten + value one) (256 ^ 16))
    × (value (add_chain_work_checked ten one).1 ≡ (value ten + value one) % 256 ^ 16)
    × IsArray 16 (add_chain_work_checked ten one).1
add_chain_work-sum_example =
    add_chain_work-sum 16 ten one (array 16 ten refl refl) (array 16 one refl refl)

abbrev judged : CandidateValidation
judged =
    value_or
      (record {
        pow = record { final_hash = []; mix_hash = [] };
        meets_share_difficulty = false;
        meets_network_difficulty = false;
        classification = invalid;
      })
      (validate_candidate platform 60000 header 5 (difficulty128_to_decimal printer.print one)
        (difficulty128_to_decimal printer.print ten) light)

was_judged :
    is_ok (
      validate_candidate platform 60000 header 5
        (difficulty128_to_decimal printer.print one)
        (difficulty128_to_decimal printer.print ten)
        light)
    ≡ true
unfolding validate_candidate progpowz_hash hash_meets_difficulty parse_uint128_decimal
    difficulty128_to_decimal value_from parse_from
was_judged = refl

validate_candidate-IsJudgement_example :
    IsJudgement (platform.progpow_hash light (progpowz_epoch 60000) 60000 header 5) one ten judged
unfolding is_zero
validate_candidate-IsJudgement_example =
    validate_candidate-IsJudgement platform 60000 header 5 light one ten judged
      (array 16 one refl refl) refl (array 16 ten refl refl) refl (ok_value_or _ _ was_judged)

-- Tips with this id and this work.
abbrev tip : Bytes → Bytes → ConnectedShare
tip id work = record {
  share = root_share;
  id = id;
  cumulative_work = work;
  pow_validation = none;
  validated_ancestry = false;
}

better_tip_trans_example : better_tip (tip header ten) (tip header one) ≡ true
unfolding better_tip before same
better_tip_trans_example =
    better_tip_trans (tip header ten) (tip (zeros 32) one) (tip header one) refl refl

better_tip_total_example : header ≡ header
unfolding better_tip before same
better_tip_total_example = better_tip_total (tip header ten) (tip header ten) refl refl
