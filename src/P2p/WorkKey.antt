-- ===== src/P2p/WorkKey.antt =====
-- `P2pTrustedWorkRegistry::Key` of include/zano_p2pool/p2p_share.hpp, a tuple with the
-- lexicographic order of std::tuple.
use zano_p2pool.Prelude.{
  ℕ, ◌≡◌, ◌↔◌, sym, subst, Bool, Bool-cases, inl, inr, true, false, not, ◌&&◌, if◌then◌else◌, ltb,
  ◌==◌, ==_iff, arith,
}
use zano_p2pool.Bytes.{Bytes, same, before}
use zano_p2pool.Bytes.Order.{same_iff, same_refl, before_irrefl, before_trans, before_total}
use zano_p2pool.OrderedMap.{Key}

pub record WorkKey : Type 0 where
  pub zano_height : ℕ
  pub mining_header_hash : Bytes
  pub parent_id : Bytes

abbrev pub same_work_key : WorkKey → WorkKey → Bool
same_work_key a b =
    (a.zano_height == b.zano_height)
    && (same a.mining_header_hash b.mining_header_hash && same a.parent_id b.parent_id)

abbrev pub before_work_key : WorkKey → WorkKey → Bool
before_work_key a b =
    if not (a.zano_height == b.zano_height)
    then ltb a.zano_height b.zano_height
    else if not (same a.mining_header_hash b.mining_header_hash)
    then before a.mining_header_hash b.mining_header_hash
    else before a.parent_id b.parent_id

key_ext :
    (a b : WorkKey)
    → a.zano_height ≡ b.zano_height
    → a.mining_header_hash ≡ b.mining_header_hash
    → a.parent_id ≡ b.parent_id
    → a ≡ b
key_ext a b p q r = cc

same_work_key_refl : (a : WorkKey) → same_work_key a a ≡ true
same_work_key_refl a = ground (arith, same_refl a.mining_header_hash, same_refl a.parent_id)

pub same_work_key_iff : (a b : WorkKey) → (same_work_key a b ≡ true) ↔ (a ≡ b)
same_work_key_iff a b = (
  λ h.
      key_ext a b ((==_iff a.zano_height b.zano_height).0 (ground (arith, h)))
        ((same_iff a.mining_header_hash b.mining_header_hash).0 (ground (arith, h)))
        ((same_iff a.parent_id b.parent_id).0 (ground (arith, h))),
  λ e. subst (λ k. same_work_key a k ≡ true) e (same_work_key_refl a),
)

pub before_work_key_irrefl : (a : WorkKey) → before_work_key a a ≡ false
before_work_key_irrefl a = ground (arith, before_irrefl a.parent_id, same_refl a.mining_header_hash)

pub before_work_key_trans :
    (a b c : WorkKey)
    → before_work_key a b ≡ true
    → before_work_key b c ≡ true
    → before_work_key a c ≡ true
before_work_key_trans a b c h k = ground (
  arith,
  before_trans a.mining_header_hash b.mining_header_hash c.mining_header_hash,
  before_trans a.parent_id b.parent_id c.parent_id,
  same_iff a.mining_header_hash b.mining_header_hash,
  same_iff b.mining_header_hash c.mining_header_hash,
  same_iff a.mining_header_hash c.mining_header_hash,
  before_irrefl a.mining_header_hash,
)

pub before_work_key_total :
    (a b : WorkKey) → before_work_key a b ≡ false → before_work_key b a ≡ false → a ≡ b
before_work_key_total a b h k = elim (Bool-cases (a.zano_height == b.zano_height)) [
  | inr e ↦ absurd (ground (arith, e))
  | inl e ↦ elim (Bool-cases (same a.mining_header_hash b.mining_header_hash)) [
    | inr f ↦ absurd (
        ground (
          arith,
          e,
          f,
          before_total a.mining_header_hash b.mining_header_hash,
          same_iff a.mining_header_hash b.mining_header_hash,
          same_iff b.mining_header_hash a.mining_header_hash,
        ))
    | inl f ↦
        let headers = (same_iff a.mining_header_hash b.mining_header_hash).0 f in
        let back : same b.mining_header_hash a.mining_header_hash ≡ true =
          (same_iff b.mining_header_hash a.mining_header_hash).1 (sym headers) in
        key_ext a b ((==_iff a.zano_height b.zano_height).0 e) headers (
          before_total a.parent_id b.parent_id (ground (arith, e, f, back))
            (ground (arith, e, f, back)))
  ]
]

instance abbrev pub work_key : Key WorkKey
work_key = record {
  same_key = same_work_key;
  before_key = before_work_key;
  same_key_iff = same_work_key_iff;
  irrefl = before_work_key_irrefl;
  trans = before_work_key_trans;
  total = before_work_key_total;
}
