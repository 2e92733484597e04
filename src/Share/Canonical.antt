-- ===== src/Share/Canonical.antt =====
-- The encoding of src/share.cpp is canonical: a share that is read is written back as it was read.
use mathlib.Core.List.{append-nil}
use zano_p2pool.Prelude.{
  ℕ, ◌≡◌, ◌<◌, ◌>>=◌, ◌^◌, refl, sym, ◌∙◌, ap, subst, Bool-cases, inl, inr, true, not, none, some,
  [], ◌∷◌, ◌++◌, ok, arith, length, length-take, take, drop, All, All-take, All-drop,
  take-append-drop, ltb_false→le, ltb, bind-ok, guard-ok, ok-injective, Result,
}
use zano_p2pool.Bytes.{Bytes, IsByte, IsArray, value, to_bytes, same}
use zano_p2pool.Bytes.Value.{to_bytes-value, value_bound}
use zano_p2pool.Share.RoundTrip.{body_fields}
use zano_p2pool.Share.{
  Share, PayoutPublicKeys, IsShare, read_array, read_u64_be, append_u64_be, read_fields,
  read_payout, read_keys, require_end, payout_bytes, miner_id_from_payout,
}

-- An array of the size, in front of the rest.
pub read_array-inv :
    (n : ℕ) (b xs rest : Bytes)
    → All IsByte b
    → read_array n b ≡ ok (xs, rest)
    → IsArray n xs × All IsByte rest × (b ≡ xs ++ rest)
unfolding read_array
read_array-inv n b xs rest bytes h = elim (Bool-cases (ltb (length b) n)) [
  | inl e ↦ absurd (ground (arith, e))
  | inr e ↦
      let enough = ltb_false→le (length b) n e in
      let first : take n b ≡ xs = ground (arith, e) in
      let behind : drop n b ≡ rest = ground (arith, e) in
      (
        subst (IsArray n) first (omega (arith, length-take n b), All-take IsByte n b bytes),
        subst (All IsByte) behind (All-drop IsByte n b bytes),
        sym (
            subst (λ ys. ys ++ rest ≡ b) first
              (subst (λ ys. take n b ++ ys ≡ b) behind (take-append-drop n b))),
      )
]

read_u64_be-inv :
    (b : Bytes) (v : ℕ) (rest : Bytes)
    → All IsByte b
    → read_u64_be b ≡ ok (v, rest)
    → (v < 2 ^ 64) × All IsByte rest × (b ≡ append_u64_be v ++ rest)
unfolding read_u64_be append_u64_be read_array
read_u64_be-inv b v rest bytes h = elim (Bool-cases (ltb (length b) 8)) [
  | inl e ↦ absurd (ground (arith, e))
  | inr e ↦
      let (array, left, parts) = read_array-inv 8 b (take 8 b) (drop 8 b) bytes (rw e refl) in
      let word : value (take 8 b) ≡ v = ground (arith, e) in
      let behind : drop 8 b ≡ rest = ground (arith, e) in
      (
        subst (λ k. k < 2 ^ 64) word
            (subst (λ k. value (take 8 b) < 256 ^ k) array.0 (value_bound (take 8 b) array.1)),
        subst (All IsByte) behind left,
        subst (λ r. b ≡ to_bytes 8 v ++ r) behind
            (subst (λ k. b ≡ to_bytes 8 k ++ drop 8 b) word
              (subst (λ xs. b ≡ xs ++ drop 8 b) (sym (to_bytes-value 8 (take 8 b) array)) parts)),
      )
]

-- A share of proper field widths and what is behind it.
abbrev pub ReadsFields : ℕ → Bytes → Share → Bytes → Type 0
ReadsFields version b s rest =
    IsShare s
    × (s.version ≡ version)
    × (s.payout ≡ none)
    × All IsByte rest
    × (b ≡ body_fields s rest)

-- A read that returns, in front of what is done with it.
module _ {ℓ} {B G : Type ℓ} (b : Bytes) {y : B} where
  read_array-then :
      (n : ℕ) (f : Bytes × Bytes → Result B)
      → All IsByte b
      → (read_array n b >>= f) ≡ ok y
      → ((xs rest : Bytes)
          → IsArray n xs
          → All IsByte rest
          → b ≡ xs ++ rest
          → f (xs, rest) ≡ ok y
          → G)
      → G
  read_array-then n f bytes h go =
      let (read, r, k) = bind-ok (read_array n b) f h in
      let (array, left, parts) = read_array-inv n b read.0 read.1 bytes r in
      go read.0 read.1 array left parts k

  read_u64_be-then :
      (f : ℕ × Bytes → Result B)
      → All IsByte b
      → (read_u64_be b >>= f) ≡ ok y
      → ((v : ℕ) (rest : Bytes)
          → v < 2 ^ 64
          → All IsByte rest
          → b ≡ append_u64_be v ++ rest
          → f (v, rest) ≡ ok y
          → G)
      → G
  read_u64_be-then f bytes h go =
      let (read, r, k) = bind-ok (read_u64_be b) f h in
      let (range, left, parts) = read_u64_be-inv b read.0 read.1 bytes r in
      go read.0 read.1 range left parts k

pub read_fields-inv :
    (version : ℕ) (b : Bytes) (s : Share) (rest : Bytes)
    → version < 256
    → All IsByte b
    → read_fields version b ≡ ok (s, rest)
    → ReadsFields version b s rest
unfolding read_fields
read_fields-inv version b s rest small bytes h =
    read_array-then b 32 _ bytes h (λ parent b1 parent_array bytes1 e1 h1.
      read_u64_be-then b1 _ bytes1 h1 (λ height b2 height_range bytes2 e2 h2.
        read_u64_be-then b2 _ bytes2 h2 (λ timestamp b3 timestamp_range bytes3 e3 h3.
          read_u64_be-then b3 _ bytes3 h3 (λ zano_height b4 zano_range bytes4 e4 h4.
            read_array-then b4 32 _ bytes4 h4 (λ header b5 header_array bytes5 e5 h5.
              read_u64_be-then b5 _ bytes5 h5 (λ nonce b6 nonce_range bytes6 e6 h6.
                read_array-then b6 16 _ bytes6 h6 (λ difficulty b7 difficulty_array bytes7 e7 h7.
                  read_array-then b7 16 _ bytes7 h7 (λ network b8 network_array bytes8 e8 h8.
                    read_array-then b8 32 _ bytes8 h8 (λ miner b9 miner_array bytes9 e9 h9.
                      subst (λ p. ReadsFields version b p.0 p.1) (ok-injective h9)
                        (
                          record {
                            version_range = small;
                            parent_array = parent_array;
                            height_range = height_range;
                            timestamp_range = timestamp_range;
                            zano_height_range = zano_range;
                            header_array = header_array;
                            nonce_range = nonce_range;
                            share_difficulty_array = difficulty_array;
                            network_difficulty_array = network_array;
                            miner_array = miner_array;
                            keys_arrays = λ p k. absurd cc;
                          },
                          refl,
                          refl,
                          bytes9,
                          e1 ∙ rw (e2, e3, e4, e5, e6, e7, e8, e9) refl,
                        ))))))))))

pub require_end-inv :
    (rest : Bytes) (s t : Share) → require_end rest s ≡ ok t → (rest ≡ []) × (s ≡ t)
require_end-inv [] s t h = (refl, ok-injective h)
require_end-inv (b ∷ rest) s t h = cc

-- The keys that are read, of the size of the array, and own the miner id.
abbrev pub HasKeys : Share → Bytes → Share → Type 0
HasKeys s b t =
    (p : PayoutPublicKeys) × (t ≡ record s { payout = some p })
    × IsArray 32 p.spend_public_key
    × IsArray 32 p.view_public_key
    × (same s.miner_id (miner_id_from_payout p) ≡ true)
    × (b ≡ payout_bytes (some p))

pub read_keys-inv :
    (s : Share) (b : Bytes) (t : Share) → All IsByte b → read_keys s b ≡ ok t → HasKeys s b t
unfolding read_keys read_payout
read_keys-inv s b t bytes h =
    let ((p, left), r, h1) = bind-ok (read_payout s.miner_id b) _ h in
    let (ended, whole) = require_end-inv left (record s { payout = some p }) t h1 in
    read_array-then b 32 _ bytes r (λ spend b1 spend_array bytes1 e1 r1.
      read_array-then b1 32 _ bytes1 r1 (λ view b2 view_array bytes2 e2 r2.
        let (own, r3) =
          guard-ok
            (not (
              same s.miner_id (
                miner_id_from_payout
                  (record { spend_public_key = spend; view_public_key = view }))))
            _ _ r2 in
        let keys = ok-injective r3 in
        subst (λ q. HasKeys s b q) whole
          (subst (λ q. HasKeys s b (record s { payout = some q })) (ap (λ q. q.0) keys)
            (
              record { spend_public_key = spend; view_public_key = view },
              refl,
              spend_array,
              view_array,
              ground (arith, own),
              e1
                  ∙ ap (λ r. spend ++ r)
                      (e2 ∙ ap (λ r. view ++ r) (ap (λ q. q.1) keys ∙ ended) ∙ append-nil view),
            ))))
