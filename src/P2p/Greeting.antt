-- ===== src/P2p/Greeting.antt =====
-- Reading back the handshake of src/p2p_protocol.cpp.
use zano_p2pool.Prelude.{
  ℕ, zero, suc, ◌+◌, ◌^◌, ◌<◌, ◌≤◌, ◌≡◌, refl, sym, ◌∙◌, subst, inl, inr, Bool-cases, Result-cases,
  true, false, [], ◌∷◌, ◌++◌, ok, arith, length, length-append, take, drop, take-append,
  drop-append, get_or, ◌==◌, ==_iff, le→ltb,
}
use mathlib.Core.List.{append-nil}
use zano_p2pool.Bytes.{Bytes, IsArray, to_bytes}
use zano_p2pool.Bytes.Value.{value-to_bytes, to_bytes-IsArray}
use zano_p2pool.Share.{append_u64_be}
use zano_p2pool.Params.{is_zero_sidechain_id}
use zano_p2pool.P2p.Protocol.{
  P2pHandshake, handshake_bytes, serialize_p2p_handshake_payload, deserialize_p2p_handshake_payload,
  read_be, is_supported_network, require_valid_handshake, resolved_p2p_sidechain_id,
}

-- The ranges of the fields of a C++ `P2pHandshake`.
pub record IsHandshake (h : P2pHandshake) : Type 0 where
  pub node_array : IsArray 32 h.node_id
  pub capabilities_range : h.capabilities < 2 ^ 64
  pub port_range : h.listen_port < 2 ^ 16
  pub best_array : IsArray 32 h.best_share_id
  pub height_range : h.best_share_height < 2 ^ 64
  pub sidechain_array : IsArray 32 h.sidechain

-- A word behind `k` other bytes.
read_be-drop :
    (n k v : ℕ) (bytes rest : Bytes)
    → drop k bytes ≡ to_bytes n v ++ rest
    → k + n ≤ length bytes
    → v < 256 ^ n
    → read_be n bytes k ≡ ok v
unfolding read_be
read_be-drop n k v bytes rest e l h = rw (
  le→ltb (k + n) (length bytes) l,
  e,
  take-append n (to_bytes n v) rest (to_bytes-IsArray n v).0,
  value-to_bytes n v h,
)

drop-nil : (n : ℕ) → drop {A = ℕ} n [] ≡ []
drop-nil zero = refl
drop-nil (suc n) = refl

drop-add : (n m : ℕ) (xs : Bytes) → drop (n + m) xs ≡ drop m (drop n xs)
drop-add zero m xs = ground arith
drop-add (suc n) m [] = drop-nil (suc n + m) ∙ sym (drop-nil m)
drop-add (suc n) m (x ∷ xs) =
    let step : suc n + m ≡ suc (n + m) = omega arith in rw step (drop-add n m xs)

-- The parts of a handshake of 115 bytes, at their offsets.
record Parts (h : P2pHandshake) (effective : Bytes) (b : Bytes) : Type 0 where
  network : get_or b 0 0 ≡ h.network
  sidechain : take 32 (drop 1 b) ≡ effective
  node_id : take 32 (drop 33 b) ≡ h.node_id
  capabilities : read_be 8 b 65 ≡ ok h.capabilities
  listen_port : read_be 2 b 73 ≡ ok h.listen_port
  best_share_id : take 32 (drop 75 b) ≡ h.best_share_id
  best_share_height : read_be 8 b 107 ≡ ok h.best_share_height

drop-next :
    (k n : ℕ) (b xs rest : Bytes) → drop k b ≡ xs ++ rest → length xs ≡ n → drop (k + n) b ≡ rest
drop-next k n b xs rest e l = drop-add k n b ∙ rw e (drop-append n xs rest l)

handshake-Parts :
    (h : P2pHandshake) (effective : Bytes)
    → IsHandshake h
    → length effective ≡ 32
    → length (handshake_bytes h effective) ≡ 115
    → Parts h effective (handshake_bytes h effective)
unfolding handshake_bytes append_u64_be
handshake-Parts h effective v l total =
    let b = handshake_bytes h effective in
    let caps = to_bytes 8 h.capabilities in
    let port = to_bytes 2 h.listen_port in
    let height = to_bytes 8 h.best_share_height in
    let r4 = h.best_share_id ++ height in
    let r3 = port ++ r4 in
    let r2 = caps ++ r3 in
    let r1 = h.node_id ++ r2 in
    let at_1 : drop 1 b ≡ effective ++ r1 = refl in
    let at_33 : drop 33 b ≡ h.node_id ++ r2 = drop-next 1 32 b effective r1 at_1 l in
    let at_65 : drop 65 b ≡ caps ++ r3 = drop-next 33 32 b h.node_id r2 at_33 v.node_array.0 in
    let at_73 : drop 73 b ≡ port ++ r4 =
      drop-next 65 8 b caps r3 at_65 (to_bytes-IsArray 8 h.capabilities).0 in
    let at_75 : drop 75 b ≡ h.best_share_id ++ height =
      drop-next 73 2 b port r4 at_73 (to_bytes-IsArray 2 h.listen_port).0 in
    let at_107 : drop 107 b ≡ height =
      drop-next 75 32 b h.best_share_id height at_75 v.best_array.0 in
    record {
      network = refl;
      sidechain = rw at_1 (take-append 32 effective r1 l);
      node_id = rw at_33 (take-append 32 h.node_id r2 v.node_array.0);
      capabilities =
          read_be-drop 8 65 h.capabilities b r3 at_65 (omega (arith, total)) v.capabilities_range;
      listen_port = read_be-drop 2 73 h.listen_port b r4 at_73 (omega (arith, total)) v.port_range;
      best_share_id = rw at_75 (take-append 32 h.best_share_id height v.best_array.0);
      best_share_height =
          read_be-drop 8 107 h.best_share_height b [] (at_107 ∙ sym (append-nil height))
            (omega (arith, total)) v.height_range;
    }

handshake-length :
    (h : P2pHandshake) (effective : Bytes)
    → IsHandshake h
    → length (handshake_bytes h effective) ≡ 115
    → length effective ≡ 32
unfolding handshake_bytes append_u64_be
handshake-length h effective v total = omega (
  arith,
  total,
  length-append effective (
      h.node_id
      ++ (to_bytes 8 h.capabilities
          ++ (to_bytes 2 h.listen_port ++ (h.best_share_id ++ to_bytes 8 h.best_share_height)))),
  length-append h.node_id (
      to_bytes 8 h.capabilities
      ++ (to_bytes 2 h.listen_port ++ (h.best_share_id ++ to_bytes 8 h.best_share_height))),
  length-append (to_bytes 8 h.capabilities)
      (to_bytes 2 h.listen_port ++ (h.best_share_id ++ to_bytes 8 h.best_share_height)),
  length-append (to_bytes 2 h.listen_port) (h.best_share_id ++ to_bytes 8 h.best_share_height),
  length-append h.best_share_id (to_bytes 8 h.best_share_height),
  v.node_array.0,
  v.best_array.0,
  (to_bytes-IsArray 8 h.capabilities).0,
  (to_bytes-IsArray 2 h.listen_port).0,
  (to_bytes-IsArray 8 h.best_share_height).0,
)

valid-network :
    (h : P2pHandshake) → require_valid_handshake h ≡ ok tt → is_supported_network h.network ≡ true
unfolding require_valid_handshake
valid-network h e = elim (Bool-cases (is_supported_network h.network)) [
  | inl f ↦ f
  | inr f ↦ absurd (ground (arith, f))
]

valid-sidechain :
    (h : P2pHandshake) (effective : Bytes)
    → require_valid_handshake (record h { sidechain = effective }) ≡ require_valid_handshake h
unfolding require_valid_handshake
valid-sidechain h effective = refl

deserialize-Parts :
    (h : P2pHandshake) (effective b : Bytes)
    → Parts h effective b
    → length b ≡ 115
    → require_valid_handshake h ≡ ok tt
    → is_zero_sidechain_id effective ≡ false
    → deserialize_p2p_handshake_payload b ≡ ok (record h { sidechain = effective })
unfolding deserialize_p2p_handshake_payload
deserialize-Parts h effective b p l valid nonzero = rw (
  deserialize_p2p_handshake_payload,
  l,
  p.network,
  p.sidechain,
  p.node_id,
  p.capabilities,
  p.listen_port,
  p.best_share_id,
  p.best_share_height,
  valid-network h valid,
  nonzero,
  valid-sidechain h effective,
  valid,
)

-- If the sidechain id of a handshake of proper field widths resolves to one that is not zero,
-- then what `serialize_p2p_handshake_payload` writes of the handshake is read back as the
-- handshake with that sidechain id.
pub deserialize-serialize_handshake :
    (h : P2pHandshake) (effective b : Bytes)
    → IsHandshake h
    → resolved_p2p_sidechain_id h ≡ ok effective
    → is_zero_sidechain_id effective ≡ false
    → serialize_p2p_handshake_payload h ≡ ok b
    → deserialize_p2p_handshake_payload b ≡ ok (record h { sidechain = effective })
unfolding serialize_p2p_handshake_payload
deserialize-serialize_handshake h effective b v resolved nonzero e =
    elim (Result-cases (require_valid_handshake h)) [
      | inr (x, f) ↦ absurd (ground (arith, f))
      | inl (u, f) ↦ elim (Bool-cases (length (handshake_bytes h effective) == 115)) [
        | inr g ↦ absurd (ground (arith, f, resolved, g))
        | inl g ↦
            let total = (==_iff (length (handshake_bytes h effective)) 115).0 g in
            let eq : handshake_bytes h effective ≡ b = ground (arith, f, resolved, g) in
            subst
              (λ c. deserialize_p2p_handshake_payload c ≡ ok (record h { sidechain = effective }))
              eq
              (deserialize-Parts h effective (handshake_bytes h effective)
                (handshake-Parts h effective v (handshake-length h effective v total) total) total f
                nonzero)
      ]
    ]
