-- ===== src/PeerScore.antt =====
-- include/zano_p2pool/p2p_peer_score.hpp: the score book of a node's peers. Points of time are
-- milliseconds. A query refreshes the entry it reads, so it returns the book as well; the mutex
-- makes each method one step.
pub mod Scores
use zano_p2pool.Prelude.{
  ℕ, ◌+◌, ◌-◌, ◌>>=◌, ◌>>◌, Bool, true, false, Option, none, some, [], Result, ok, throw_if,
  runtime_error, if◌then◌else◌, ltb, ◌==◌,
}
use zano_p2pool.Bytes.{Bytes}
use zano_p2pool.OrderedMap.{bytes_key, OrderedMap, find, insert, erase}
use zano_p2pool.Share.{has_value}
use zano_p2pool.Pplns.{min}

abbrev pub p2p_protocol_violation_penalty : ℕ
p2p_protocol_violation_penalty = 25

pub record P2pPeerScoreConfig : Type 0 where
  pub ban_threshold : ℕ
  pub ban_duration : ℕ

pub record P2pPeerPenaltyResult : Type 0 where
  pub score : ℕ
  pub banned : Bool
  pub ban_started : Bool
  pub banned_until : Option ℕ

pub record Entry : Type 0 where
  pub score : ℕ
  pub banned_until : Option ℕ

pub record P2pPeerScoreBook : Type 0 where
  pub config : P2pPeerScoreConfig
  pub entries : OrderedMap Bytes Entry

-- The constructor.
unfoldable pub new_book : P2pPeerScoreConfig → Result P2pPeerScoreBook
new_book config = do
  throw_if (config.ban_threshold == 0) runtime_error
  throw_if (config.ban_duration == 0) runtime_error
  ok (record { config = config; entries = [] })

abbrev pub fresh_entry : Entry
fresh_entry = record { score = 0; banned_until = none }

-- `entries_[node_id]`, which makes an empty entry.
abbrev pub entry_of : Option Entry → Entry
entry_of none = fresh_entry
entry_of (some entry) = entry

unfoldable pub refresh_locked : Entry → ℕ → Entry
refresh_locked entry now = elim entry.banned_until [
  | none ↦ entry
  | some until ↦ if ltb now until then entry else fresh_entry
]

abbrev pub result_locked : Entry → Bool → P2pPeerPenaltyResult
result_locked entry ban_started = record {
  score = entry.score;
  banned = has_value entry.banned_until;
  ban_started = ban_started;
  banned_until = entry.banned_until;
}

-- The refreshed entry that is not banned takes the penalty: the entry, and whether a ban starts.
unfoldable pub take_penalty : P2pPeerScoreConfig → Entry → ℕ → ℕ → Entry × Bool
take_penalty config entry penalty now =
    let score = entry.score + min penalty (config.ban_threshold - entry.score) in
    if ltb score config.ban_threshold
    then (record { score = score; banned_until = entry.banned_until }, false)
    else (
      record { score = config.ban_threshold; banned_until = some (now + config.ban_duration) },
      true,
    )

unfoldable pub penalize_entry : P2pPeerScoreConfig → Entry → ℕ → ℕ → Entry × Bool
unfolding take_penalty
penalize_entry config entry penalty now =
    if has_value entry.banned_until
    then (entry, false)
    else if penalty == 0
    then (entry, false)
    else take_penalty config entry penalty now

unfoldable pub penalize : P2pPeerScoreBook → Bytes → ℕ → ℕ → P2pPeerPenaltyResult × P2pPeerScoreBook
unfolding penalize_entry
penalize book node_id penalty now =
    let (entry, ban_started) =
      penalize_entry book.config (refresh_locked (entry_of (find node_id book.entries)) now) penalty
        now in
    (result_locked entry ban_started, record book { entries = insert node_id entry book.entries })

unfoldable pub score_of : P2pPeerScoreBook → Bytes → ℕ → ℕ × P2pPeerScoreBook
score_of book node_id now = elim (find node_id book.entries) [
  | none ↦ (0, book)
  | some entry ↦
      let refreshed = refresh_locked entry now in
      (refreshed.score, record book { entries = insert node_id refreshed book.entries })
]

unfoldable pub banned_until_of : P2pPeerScoreBook → Bytes → ℕ → Option ℕ × P2pPeerScoreBook
banned_until_of book node_id now = elim (find node_id book.entries) [
  | none ↦ (none, book)
  | some entry ↦
      let refreshed = refresh_locked entry now in
      (refreshed.banned_until, record book { entries = insert node_id refreshed book.entries })
]

unfoldable pub banned_at : P2pPeerScoreBook → Bytes → ℕ → Bool × P2pPeerScoreBook
unfolding banned_until_of
banned_at book node_id now =
    let (until, book1) = banned_until_of book node_id now in (has_value until, book1)

unfoldable pub clear : P2pPeerScoreBook → Bytes → P2pPeerScoreBook
clear book node_id = record book { entries = erase node_id book.entries }
