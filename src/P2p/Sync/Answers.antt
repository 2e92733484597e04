-- ===== src/P2p/Sync/Answers.antt =====
-- Requests for shares and the answers, from one node to the other.
use zano_p2pool.Prelude.{
  ◌≡◌, refl, ◌∙◌, ap, subst, inl, inr, true, false, not, Option, none, some, ◌∷◌, ◌++◌, ok, arith,
  bind-ok, guard-ok, ok-injective, length, length-append, take-append, drop-append, take-all,
  le→ltb,
}
use zano_p2pool.Bytes.{Bytes, same}
use zano_p2pool.Bytes.Order.{same_refl, same_iff}
use zano_p2pool.Share.{Share, IsShare, share_id, serialize_share, is_zero_share_id}
use zano_p2pool.Share.RoundTrip.{serialize_cases, deserialize-serialize}
use zano_p2pool.P2p.Protocol.{P2pEnvelope, require_envelope_type}
use zano_p2pool.P2p.Receiver.{is_share_size}
use zano_p2pool.P2p.Sync.{
  P2pShareResponse, make_p2p_share_request_envelope, parse_p2p_share_request_envelope,
  make_p2p_share_response_envelope, parse_p2p_share_response_envelope, make_found_envelope,
  parse_found, parse_response_payload, code_found, code_not_found,
}

-- The request for an id of 32 bytes is parsed as that id.
pub parse-make_request :
    (id : Bytes) (e : P2pEnvelope)
    → length id ≡ 32
    → make_p2p_share_request_envelope id ≡ ok e
    → parse_p2p_share_request_envelope e ≡ ok id
unfolding make_p2p_share_request_envelope parse_p2p_share_request_envelope require_envelope_type
parse-make_request id e size h =
    let (nonzero, k) = guard-ok (is_zero_share_id id) _ _ h in
    subst (λ f. parse_p2p_share_request_envelope f ≡ ok id) (ok-injective k)
      (rw (parse_p2p_share_request_envelope, nonzero, size) refl)

-- The response that a reader gets.
abbrev pub response_for : Bytes → Option Share → P2pShareResponse
response_for id none = record { code = code_not_found; requested_id = id; share = none }
response_for id (some share) = record { code = code_found; requested_id = id; share = some share }

serialize-size :
    (s : Share) (b : Bytes) → serialize_share s ≡ ok b → is_share_size (length b) ≡ true
serialize-size s b h = elim (serialize_cases s b s.payout refl h) [
  | inl (v, k, bytes, size) ↦ ground (arith, size)
  | inr (p, (v, k, own, bytes, size)) ↦ ground (arith, size)
]

parse-found :
    (id : Bytes) (s : Share) (b : Bytes)
    → IsShare s
    → length id ≡ 32
    → is_zero_share_id id ≡ false
    → share_id s ≡ ok id
    → serialize_share s ≡ ok b
    → parse_response_payload (code_found ∷ (id ++ b)) ≡ ok (response_for id (some s))
unfolding parse_response_payload parse_found
parse-found id s b ranges size nonzero own written =
    rw
      (
        parse_response_payload,
        parse_found,
        take-append 32 id b size,
        drop-append 32 id b size,
        nonzero,
        le→ltb 33 (length (code_found ∷ (id ++ b))) (omega (arith, length-append id b)),
        serialize-size s b written,
        deserialize-serialize s b ranges written,
        own,
        same_refl id,
      )
      refl

parse-not_found :
    (id : Bytes)
    → length id ≡ 32
    → is_zero_share_id id ≡ false
    → parse_response_payload (code_not_found ∷ id) ≡ ok (response_for id none)
unfolding parse_response_payload
parse-not_found id size nonzero =
    rw (parse_response_payload, take-all 32 id size, nonzero, size) refl

parse-make_found :
    (id : Bytes) (s : Share) (e : P2pEnvelope)
    → length id ≡ 32
    → IsShare s
    → is_zero_share_id id ≡ false
    → make_found_envelope id s ≡ ok e
    → parse_p2p_share_response_envelope e ≡ ok (response_for id (some s))
unfolding make_found_envelope parse_p2p_share_response_envelope require_envelope_type
parse-make_found id s e size ranges nonzero h =
    let (own, o, h1) = bind-ok (share_id s) _ h in
    let (agrees, h2) = guard-ok (not (same own id)) _ _ h1 in
    let (b, written, h3) = bind-ok (serialize_share s) _ h2 in
    let same_id : own ≡ id = (same_iff own id).0 (ground (arith, agrees)) in
    subst (λ f. parse_p2p_share_response_envelope f ≡ ok (response_for id (some s)))
      (ok-injective h3)
      (parse-found id s b ranges size nonzero (o ∙ ap (λ k. ok k) same_id) written)

-- What `make_p2p_share_response_envelope` makes for an id of 32 bytes, with no share or one of
-- proper field widths, is parsed as the response with that id and that share.
pub parse-make_response :
    (id : Bytes) (share : Option Share) (e : P2pEnvelope)
    → length id ≡ 32
    → ((s : Share) → share ≡ some s → IsShare s)
    → make_p2p_share_response_envelope id share ≡ ok e
    → parse_p2p_share_response_envelope e ≡ ok (response_for id share)
unfolding make_p2p_share_response_envelope parse_p2p_share_response_envelope require_envelope_type
parse-make_response id none e size ranges h =
    let (nonzero, k) = guard-ok (is_zero_share_id id) _ _ h in
    subst (λ f. parse_p2p_share_response_envelope f ≡ ok (response_for id none)) (ok-injective k)
      (parse-not_found id size nonzero)
parse-make_response id (some s) e size ranges h =
    let (nonzero, k) = guard-ok (is_zero_share_id id) _ _ h in
    parse-make_found id s e size (ranges s refl) nonzero k
