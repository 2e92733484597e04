-- ===== src/PeerScore/Scores.antt =====
-- The scores of a book and its bans.
use zano_p2pool.Prelude.{
  ℕ, ◌<◌, ◌≤◌, ◌≡◌, subst, Bool-cases, Option-cases, inl, inr, none, some, arith, if◌then◌else◌,
  ltb, ◌==◌,
}
use zano_p2pool.Bytes.{Bytes, same}
use zano_p2pool.OrderedMap.{bytes_key, find}
use zano_p2pool.OrderedMap.Laws.{find-insert, find-insert_self}
use zano_p2pool.Share.{has_value}
use zano_p2pool.PeerScore.{
  Entry, P2pPeerScoreConfig, P2pPeerScoreBook, fresh_entry, entry_of, refresh_locked, take_penalty,
  penalize_entry, penalize, score_of, banned_until_of,
}

-- The score is at most the threshold, and is the threshold exactly during a ban.
abbrev pub IsScored : P2pPeerScoreConfig → Entry → Type 0
IsScored config entry =
    (entry.score ≤ config.ban_threshold)
    × (has_value entry.banned_until ≡ (entry.score == config.ban_threshold))

abbrev pub AreScored : P2pPeerScoreBook → Type 0
AreScored book =
    (id : Bytes) (entry : Entry) → find id book.entries ≡ some entry → IsScored book.config entry

fresh_entry-IsScored :
    (config : P2pPeerScoreConfig) → 0 < config.ban_threshold → IsScored config fresh_entry
fresh_entry-IsScored config p = (omega arith, ground arith)

refresh_locked-IsScored :
    (config : P2pPeerScoreConfig) (entry : Entry) (now : ℕ)
    → 0 < config.ban_threshold
    → IsScored config entry
    → IsScored config (refresh_locked entry now)
unfolding refresh_locked
refresh_locked-IsScored config entry now p h = elim (Option-cases entry.banned_until) [
  | inl e ↦ rw (refresh_locked, e) h
  | inr (until, e) ↦ elim (Bool-cases (ltb now until)) [
    | inl f ↦ rw (refresh_locked, e, f) h
    | inr f ↦ rw (refresh_locked, e, f) (fresh_entry-IsScored config p)
  ]
]

penalize_entry-IsScored :
    (config : P2pPeerScoreConfig) (entry : Entry) (penalty now : ℕ)
    → IsScored config entry
    → IsScored config (penalize_entry config entry penalty now).0
unfolding penalize_entry take_penalty
penalize_entry-IsScored config entry penalty now h = (ground (arith, h), ground (arith, h))

found-IsScored :
    (book : P2pPeerScoreBook) (id : Bytes)
    → 0 < book.config.ban_threshold
    → AreScored book
    → IsScored book.config (entry_of (find id book.entries))
found-IsScored book id p h = elim (Option-cases (find id book.entries)) [
  | inl e ↦ rw e (fresh_entry-IsScored book.config p)
  | inr (entry, e) ↦ rw e (h id entry e)
]

-- With a positive threshold, a penalty keeps every peer's score at most the threshold, and at
-- the threshold exactly while a ban is set.
pub penalize-AreScored :
    (book : P2pPeerScoreBook) (id : Bytes) (penalty now : ℕ)
    → 0 < book.config.ban_threshold
    → AreScored book
    → AreScored (penalize book id penalty now).1
unfolding penalize
penalize-AreScored book id penalty now p h k e found =
    let refreshed = refresh_locked (entry_of (find id book.entries)) now in
    let new = (penalize_entry book.config refreshed penalty now).0 in
    let scored = penalize_entry-IsScored book.config refreshed penalty now (
      refresh_locked-IsScored book.config (entry_of (find id book.entries)) now p
        (found-IsScored book id p h)) in
    elim (Bool-cases (same id k)) [
      | inl eq ↦
          let own : new ≡ e = ground (arith, find-insert k id new book.entries, found) in
          subst (IsScored book.config) own scored
      | inr ne ↦ h k e (ground (arith, find-insert k id new book.entries, found))
    ]

-- If a penalty answers with a ban until some time, then a later query finds the ban and the
-- answered score before that time, and no ban and the score zero from that time on.
pub penalize-ban :
    (book : P2pPeerScoreBook) (id : Bytes) (penalty now until later : ℕ)
    → (penalize book id penalty now).0.banned_until ≡ some until
    → ((banned_until_of (penalize book id penalty now).1 id later).0
        ≡ (if ltb later until then some until else none))
      × ((score_of (penalize book id penalty now).1 id later).0
          ≡ (if ltb later until then (penalize book id penalty now).0.score else 0))
unfolding penalize banned_until_of score_of refresh_locked
penalize-ban book id penalty now until later h =
    let refreshed = refresh_locked (entry_of (find id book.entries)) now in
    let new = (penalize_entry book.config refreshed penalty now).0 in
    let found = find-insert_self id new book.entries in
    elim (Bool-cases (ltb later until)) [
      | inl e ↦ (
        rw (banned_until_of, found, refresh_locked, h, e) h,
        rw (score_of, found, refresh_locked, h, e),
      )
      | inr e ↦ (
        rw (banned_until_of, found, refresh_locked, h, e),
        rw (score_of, found, refresh_locked, h, e),
      )
    ]
