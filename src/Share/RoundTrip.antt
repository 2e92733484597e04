-- ===== src/Share/RoundTrip.antt =====
-- Reading back the encoding of a share, in both versions.
use zano_p2pool.Prelude.{
  ℕ, ◌≡◌, ◌≤◌, ◌⊎◌, refl, [], ◌∷◌, ◌++◌, ok, Option, none, some, true, inl, inr, arith, length,
  le→ltb,
}
use zano_p2pool.Bytes.{Bytes, same}
use zano_p2pool.Bytes.Order.{same_refl}
use zano_p2pool.Share.{
  Share, IsShare, PayoutPublicKeys, append_u64_be, read_fields, common_fields, share_magic,
  serialize_share, deserialize_share, deserialize_body, read_keys, read_payout, payout_bytes,
  miner_id_from_payout,
}
use zano_p2pool.Share.Codec.{read_array-append, read_u64_be-append, read_array_self}

-- The fields that follow the version byte.
abbrev pub body_fields : Share → Bytes → Bytes
body_fields s rest =
    s.parent_id
    ++ (append_u64_be s.share_height
        ++ (append_u64_be s.timestamp
            ++ (append_u64_be s.zano_height
                ++ (s.mining_header_hash
                    ++ (append_u64_be s.nonce
                        ++ (s.share_difficulty
                            ++ (s.network_difficulty ++ (s.miner_id ++ rest))))))))

read_fields-body :
    (s : Share) (rest : Bytes)
    → IsShare s
    → read_fields s.version (body_fields s rest) ≡ ok (record s { payout = none }, rest)
unfolding read_fields
read_fields-body s rest v = rw (
  read_array-append 32 s.parent_id _ v.parent_array.0,
  read_u64_be-append s.share_height _ v.height_range,
  read_u64_be-append s.timestamp _ v.timestamp_range,
  read_u64_be-append s.zano_height _ v.zano_height_range,
  read_array-append 32 s.mining_header_hash _ v.header_array.0,
  read_u64_be-append s.nonce _ v.nonce_range,
  read_array-append 16 s.share_difficulty _ v.share_difficulty_array.0,
  read_array-append 16 s.network_difficulty _ v.network_difficulty_array.0,
  read_array-append 32 s.miner_id _ v.miner_array.0,
)

-- The two ways in which an encoding succeeds.
abbrev pub EncodesV1 : Share → Bytes → Type 0
EncodesV1 s b = (s.version ≡ 1) × (s.payout ≡ none) × (b ≡ common_fields s []) × (length b ≡ 165)

abbrev pub EncodesV2 : Share → Bytes → PayoutPublicKeys → Type 0
EncodesV2 s b p =
    (s.version ≡ 2)
    × (s.payout ≡ some p)
    × (same s.miner_id (miner_id_from_payout p) ≡ true)
    × (b ≡ common_fields s (payout_bytes (some p)))
    × (length b ≡ 229)

pub serialize_cases :
    (s : Share) (b : Bytes) (o : Option PayoutPublicKeys)
    → s.payout ≡ o
    → serialize_share s ≡ ok b
    → EncodesV1 s b ⊎ ((p : PayoutPublicKeys) × EncodesV2 s b p)
unfolding serialize_share
serialize_cases s b none e h = inl (ground arith, e, ground arith, ground arith)
serialize_cases s b (some p) e h =
    inr (p, (ground arith, e, ground arith, ground arith, ground arith))

deserialize-common :
    (s : Share) (rest b : Bytes) (n : ℕ)
    → b ≡ common_fields s rest
    → length b ≡ n
    → 5 ≤ n
    → deserialize_share b ≡ deserialize_body n s.version (body_fields s rest)
unfolding deserialize_share common_fields
deserialize-common s rest b n e size h = rw (
  le→ltb 5 (length b) (omega arith),
  size,
  e,
  read_array-append 4 share_magic (s.version ∷ body_fields s rest) refl,
  same_refl share_magic,
)

deserialize-v1 : (s : Share) (b : Bytes) → IsShare s → EncodesV1 s b → deserialize_share b ≡ ok s
unfolding deserialize_body
deserialize-v1 s b v (version, keys, bytes, size) =
    rw (deserialize-common s [] b 165 bytes size (omega arith))
      (ground (arith, read_fields-body s [] v))

read_keys_lem :
    (s : Share) (p : PayoutPublicKeys)
    → length p.spend_public_key ≡ 32
    → length p.view_public_key ≡ 32
    → same s.miner_id (miner_id_from_payout p) ≡ true
    → read_keys s (payout_bytes (some p)) ≡ ok (record s { payout = some p })
unfolding read_keys read_payout
read_keys_lem s p h k own = rw (
  read_array-append 32 p.spend_public_key p.view_public_key h,
  read_array_self 32 p.view_public_key k,
  own,
)

deserialize-v2 :
    (s : Share) (b : Bytes) (p : PayoutPublicKeys)
    → IsShare s
    → EncodesV2 s b p
    → deserialize_share b ≡ ok s
unfolding deserialize_body
deserialize-v2 s b p v (version, keys, own, bytes, size) =
    rw (deserialize-common s (payout_bytes (some p)) b 229 bytes size (omega arith)) (
      ground (
        arith,
        read_fields-body s (payout_bytes (some p)) v,
        read_keys_lem (record s { payout = none }) p,
        v.keys_arrays p keys,
      ))

-- What `serialize_share` writes of a share of proper field widths, `deserialize_share` reads
-- back as that share, in both versions.
pub deserialize-serialize :
    (s : Share) (b : Bytes) → IsShare s → serialize_share s ≡ ok b → deserialize_share b ≡ ok s
deserialize-serialize s b v h = elim (serialize_cases s b s.payout refl h) [
  | inl e ↦ deserialize-v1 s b v e
  | inr (p, e) ↦ deserialize-v2 s b p v e
]
