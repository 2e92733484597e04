-- ===== src/P2p/Framing.antt =====
-- Reading back envelopes and handshakes of src/p2p_protocol.cpp.
use zano_p2pool.Prelude.{
  ℕ, ◌+◌, ◌^◌, ◌<◌, ◌≤◌, ◌≡◌, refl, subst, inl, inr, Bool-cases, true, [], ◌∷◌, ◌++◌, ok, arith,
  length, length-append, take, drop, take-append, drop-append, get_or, ltb, ◌==◌, ==_iff, ==_refl,
  le→ltb, ltb_false→le,
}
use zano_p2pool.Bytes.{Bytes, to_bytes, fill}
use zano_p2pool.Bytes.Value.{value-to_bytes, to_bytes-IsArray}
use zano_p2pool.Bytes.Order.{same_refl}
use zano_p2pool.P2p.MessageType.{p2p_message_type_supported}
use zano_p2pool.P2p.Protocol.{
  P2pEnvelope, p2p_magic, envelope_bytes, serialize_p2p_envelope, deserialize_p2p_envelope, read_be,
}

-- A word is read back at the offset where it was written.
pub read_be-append :
    (n v : ℕ) (pre rest : Bytes)
    → v < 256 ^ n
    → read_be n (pre ++ (to_bytes n v ++ rest)) (length pre) ≡ ok v
unfolding read_be
read_be-append n v pre rest h =
    let size = (to_bytes-IsArray n v).0 in
    rw (
      le→ltb (length pre + n) (length (pre ++ (to_bytes n v ++ rest))) (
          omega (
            arith,
            length-append pre (to_bytes n v ++ rest),
            length-append (to_bytes n v) rest,
            size,
          )),
      drop-append (length pre) pre (to_bytes n v ++ rest) refl,
      take-append n (to_bytes n v) rest size,
      value-to_bytes n v h,
    )

-- The flags and the size of an envelope are read back.
read-flags : (e : P2pEnvelope) → e.flags < 256 ^ 2 → read_be 2 (envelope_bytes e) 6 ≡ ok e.flags
unfolding envelope_bytes
read-flags e h =
    read_be-append 2 e.flags (b'Z' ∷ b'P' ∷ b'2' ∷ b'P' ∷ e.version ∷ e.message_type ∷ [])
      (to_bytes 4 (length e.payload) ++ e.payload) h

read-size :
    (e : P2pEnvelope)
    → length e.payload < 256 ^ 4
    → read_be 4 (envelope_bytes e) 8 ≡ ok (length e.payload)
unfolding envelope_bytes fill
read-size e h =
    read_be-append 4 (length e.payload)
      (b'Z' ∷ b'P' ∷ b'2' ∷ b'P' ∷ e.version ∷ e.message_type ∷ to_bytes 2 e.flags) e.payload h

head-parts :
    (e : P2pEnvelope)
    → (length (envelope_bytes e) ≡ 12 + length e.payload)
      × (take 4 (envelope_bytes e) ≡ b'Z' ∷ b'P' ∷ b'2' ∷ b'P' ∷ [])
      × (get_or (envelope_bytes e) 4 0 ≡ e.version)
      × (get_or (envelope_bytes e) 5 0 ≡ e.message_type)
      × (drop 12 (envelope_bytes e) ≡ e.payload)
unfolding envelope_bytes fill
head-parts e = (omega arith, refl, refl, refl, refl)

deserialize-bytes :
    (e : P2pEnvelope)
    → (e.version == 2) ≡ true
    → p2p_message_type_supported e.message_type ≡ true
    → (e.flags == 0) ≡ true
    → length e.payload ≤ 65536
    → deserialize_p2p_envelope (envelope_bytes e) ≡ ok e
unfolding deserialize_p2p_envelope
deserialize-bytes e v t f l =
    let (size, magic, version, message_type, payload) = head-parts e in
    let no_flags : e.flags ≡ 0 = (==_iff e.flags 0).0 f in
    let flags = read-flags e (omega (arith, no_flags)) in
    let count = read-size e (omega arith) in
    rw (
      deserialize_p2p_envelope,
      size,
      magic,
      version,
      message_type,
      payload,
      flags,
      count,
      le→ltb 12 (12 + length e.payload) (omega arith),
      same_refl p2p_magic,
      v,
      t,
      f,
      le→ltb (length e.payload) 65536 l,
      ==_refl (12 + length e.payload),
    )

-- What `serialize_p2p_envelope` writes, `deserialize_p2p_envelope` reads back as the same
-- envelope.
pub deserialize-serialize_envelope :
    (e : P2pEnvelope) (b : Bytes)
    → serialize_p2p_envelope e ≡ ok b
    → deserialize_p2p_envelope b ≡ ok e
unfolding serialize_p2p_envelope
deserialize-serialize_envelope e b h = elim (Bool-cases (e.version == 2)) [
  | inr v ↦ absurd (ground (arith, v))
  | inl v ↦ elim (Bool-cases (p2p_message_type_supported e.message_type)) [
    | inr t ↦ absurd (ground (arith, v, t))
    | inl t ↦ elim (Bool-cases (e.flags == 0)) [
      | inr f ↦ absurd (ground (arith, v, t, f))
      | inl f ↦ elim (Bool-cases (ltb 65536 (length e.payload))) [
        | inl l ↦ absurd (ground (arith, v, t, f, l))
        | inr l ↦
            let eq : envelope_bytes e ≡ b = ground (arith, v, t, f, l) in
            subst (λ c. deserialize_p2p_envelope c ≡ ok e) eq
              (deserialize-bytes e v t f (ltb_false→le 65536 (length e.payload) l))
      ]
    ]
  ]
]
