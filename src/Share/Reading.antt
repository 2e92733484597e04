-- ===== src/Share/Reading.antt =====
-- The whole of `deserialize_share` of src/share.cpp, read backwards.
use zano_p2pool.Prelude.{
  ℕ, ◌≡◌, ◌<◌, refl, sym, ◌∙◌, ap, subst, Bool-cases, inl, inr, true, not, ◌&&◌, none, some, [],
  ◌∷◌, ◌++◌, ok, arith, length, All, ltb, ◌==◌, ==_iff, bind-ok, guard-ok, some-injective,
}
use zano_p2pool.Bytes.{Bytes, IsByte, IsArray, same}
use zano_p2pool.Bytes.Order.{same_iff}
use zano_p2pool.Share.RoundTrip.{body_fields}
use zano_p2pool.Share.{
  Share, PayoutPublicKeys, IsShare, read_array, read_fields, read_keys, require_end,
  deserialize_body, deserialize_share, deserialize_version, serialize_share, common_fields,
  share_magic, payout_bytes, miner_id_from_payout, expected_size,
}
use zano_p2pool.Share.Canonical.{read_array-inv, read_fields-inv, read_keys-inv, require_end-inv}

-- A share of proper field widths, whose encoding is the bytes.
abbrev pub Encodes : Bytes → Share → Type 0
Encodes b s = IsShare s × (serialize_share s ≡ ok b)

serialize-without_keys :
    (s : Share)
    → s.version ≡ 1
    → s.payout ≡ none
    → length (common_fields s []) ≡ 165
    → serialize_share s ≡ ok (common_fields s [])
unfolding serialize_share
serialize-without_keys s v p size = ground arith

serialize-with_keys :
    (s : Share) (p : PayoutPublicKeys)
    → s.version ≡ 2
    → s.payout ≡ some p
    → same s.miner_id (miner_id_from_payout p) ≡ true
    → length (common_fields s (payout_bytes (some p))) ≡ 229
    → serialize_share s ≡ ok (common_fields s (payout_bytes (some p)))
unfolding serialize_share
serialize-with_keys s p v k own size = ground arith

-- The bytes of a body with the magic and the version in front.
abbrev framed : ℕ → Bytes → Bytes
framed version b = share_magic ++ (version ∷ b)

body_v1-Encodes :
    (b : Bytes) (s : Share) (rest : Bytes) (t : Share)
    → length (framed s.version b) ≡ 165
    → IsShare s
    → s.version ≡ 1
    → s.payout ≡ none
    → b ≡ body_fields s rest
    → require_end rest s ≡ ok t
    → Encodes (framed s.version b) t
unfolding common_fields
body_v1-Encodes b s rest t size ranges v keys parts h =
    let (ended, whole) = require_end-inv rest s t h in
    let bytes : b ≡ body_fields s [] = parts ∙ ap (body_fields s) ended in
    subst (Encodes (framed s.version b)) whole (
      ranges,
      subst (λ c. serialize_share s ≡ ok (framed s.version c)) (sym bytes)
          (serialize-without_keys s v keys
            (subst (λ c. length (framed s.version c) ≡ 165) bytes size)),
    )

body_v2-Encodes :
    (b : Bytes) (s : Share) (rest : Bytes) (t : Share)
    → length (framed s.version b) ≡ 229
    → IsShare s
    → s.version ≡ 2
    → b ≡ body_fields s rest
    → All IsByte rest
    → read_keys s rest ≡ ok t
    → Encodes (framed s.version b) t
unfolding common_fields
body_v2-Encodes b s rest t size ranges v parts bytes h =
    let (p, whole, spend, view, own, keys) = read_keys-inv s rest t bytes h in
    let all : b ≡ body_fields s (payout_bytes (some p)) = parts ∙ ap (body_fields s) keys in
    subst (Encodes (framed s.version b)) (sym whole) (
      record {
        version_range = ranges.version_range;
        parent_array = ranges.parent_array;
        height_range = ranges.height_range;
        timestamp_range = ranges.timestamp_range;
        zano_height_range = ranges.zano_height_range;
        header_array = ranges.header_array;
        nonce_range = ranges.nonce_range;
        share_difficulty_array = ranges.share_difficulty_array;
        network_difficulty_array = ranges.network_difficulty_array;
        miner_array = ranges.miner_array;
        keys_arrays = λ q e.
            subst (λ r. IsArray 32 r.spend_public_key × IsArray 32 r.view_public_key)
              (some-injective e) (spend, view);
      },
      subst (λ c. serialize_share (record s { payout = some p }) ≡ ok (framed s.version c))
          (sym all)
          (serialize-with_keys (record s { payout = some p }) p v refl own
            (subst (λ c. length (framed s.version c) ≡ 229) all size)),
    )

body-Encodes :
    (version : ℕ) (b : Bytes) (t : Share)
    → version < 256
    → All IsByte b
    → deserialize_body (length (framed version b)) version b ≡ ok t
    → Encodes (framed version b) t
unfolding deserialize_body
body-Encodes version b t small bytes h =
    let (supported, h1) = guard-ok (not (version == 1) && not (version == 2)) _ _ h in
    let (sized, h2) = guard-ok (not (length (framed version b) == expected_size version)) _ _ h1 in
    let ((s, rest), r, h3) = bind-ok (read_fields version b) _ h2 in
    let (ranges, v, keys, left, parts) = read_fields-inv version b s rest small bytes r in
    elim (Bool-cases (version == 2)) [
      | inl two ↦
          subst (λ k. Encodes (framed k b) t) v
            (body_v2-Encodes b s rest t (ground (arith, v, two, sized)) ranges
              (v ∙ (==_iff version 2).0 two) parts left (rw two at h3))
      | inr other ↦
          subst (λ k. Encodes (framed k b) t) v
            (body_v1-Encodes b s rest t (ground (arith, v, other, sized, supported)) ranges
              (v ∙ (==_iff version 1).0 (ground (arith, other, supported))) keys parts
              (rw other at h3))
    ]

version-Encodes :
    (magic rest : Bytes) (t : Share)
    → magic ≡ share_magic
    → All IsByte rest
    → deserialize_version (length (magic ++ rest)) rest ≡ ok t
    → Encodes (magic ++ rest) t
version-Encodes magic [] t m bytes h = cc
version-Encodes magic (version ∷ b) t m bytes h =
    subst (λ k. Encodes (k ++ (version ∷ b)) t) (sym m)
      (body-Encodes version b t bytes.0 bytes.1
        (subst (λ k. deserialize_body (length (k ++ (version ∷ b))) version b ≡ ok t) m h))

-- If bytes are read as a share, the share has proper field widths and is written as the same
-- bytes, so that every share has one encoding.
pub serialize-deserialize :
    (b : Bytes) (s : Share)
    → All IsByte b
    → deserialize_share b ≡ ok s
    → IsShare s × (serialize_share s ≡ ok b)
unfolding deserialize_share
serialize-deserialize b s bytes h =
    let (long, h1) = guard-ok (ltb (length b) 5) _ _ h in
    let ((magic, rest), r, h2) = bind-ok (read_array 4 b) _ h1 in
    let (right, h3) = guard-ok (not (same magic share_magic)) _ _ h2 in
    let (array, left, parts) = read_array-inv 4 b magic rest bytes r in
    subst (λ c. Encodes c s) (sym parts)
      (version-Encodes magic rest s ((same_iff magic share_magic).0 (ground (arith, right))) left
        (subst (λ c. deserialize_version (length c) rest ≡ ok s) parts h3))
