-- ===== src/Stratum/Session.antt =====
-- include/zano_p2pool/stratum_session.hpp and src/stratum_session.cpp. The decoder of addresses,
-- src/zano_address.cpp, is a parameter: it gives the keys of a valid address.
use zano_p2pool.Prelude.{
  ℕ, ◌+◌, ◌%◌, ◌^◌, ◌>>=◌, ◌>>◌, Bool, true, false, ◌&&◌, ◌||◌, not, Option, none, some, [], ◌∷◌,
  Result, ok, throws, throw_if, runtime_error, if◌then◌else◌, ltb, ◌==◌,
}
use zano_p2pool.Bytes.{Bytes, same}
use zano_p2pool.Decimal.{Text}
use zano_p2pool.OrderedMap.{nat_key, OrderedMap, find, insert, erase}
use zano_p2pool.Share.{PayoutPublicKeys, difficulty128_is_zero, is_zero_share_id}
use zano_p2pool.Chain.{ShareWorkContext}

pub record StratumSessionConfig : Type 0 where
  pub default_share_difficulty : ℕ
  pub minimum_share_difficulty : ℕ
  pub maximum_share_difficulty : ℕ

pub record StratumShareParentBinding : Type 0 where
  pub parent_id : Bytes
  pub share_height : ℕ

pub record StratumTemplate : Type 0 where
  pub version : ℕ
  pub header_hash : Bytes
  pub seed_hash : Bytes
  pub height : ℕ
  pub network_difficulty : Bytes
  pub parent_binding : Option StratumShareParentBinding

pub record StratumWork : Type 0 where
  pub header_hash : Bytes
  pub seed_hash : Bytes
  pub share_target : Bytes
  pub height : ℕ

pub record StratumIssuedWork : Type 0 where
  pub job_version : ℕ
  pub session_id : ℕ
  pub share_difficulty : Bytes
  pub wire_work : StratumWork
  pub trusted_context : ShareWorkContext
  pub parent_binding : Option StratumShareParentBinding

pub data StratumWorkMatch : Type 0 where
  current_match stale_match unknown_match : StratumWorkMatch

pub record StratumSession : Type 0 where
  pub id : ℕ
  pub logged_in : Bool
  pub username : Text
  pub worker : Text
  pub payout : Option PayoutPublicKeys
  pub configured_share_difficulty : ℕ
  pub current_work : Option StratumIssuedWork
  pub previous_work : Option StratumIssuedWork

pub record StratumLogin : Type 0 where
  pub username : Text
  pub password : Text
  pub worker : Text
  pub requested_difficulty : Option ℕ

pub record StratumSessionRegistry : Type 0 where
  pub config : StratumSessionConfig
  pub next_session_id : ℕ
  pub next_template_version : ℕ
  pub sessions : OrderedMap ℕ StratumSession
  pub current_template : Option StratumTemplate

-- `std::clamp`
abbrev pub clamp : ℕ → ℕ → ℕ → ℕ
clamp value low high = if ltb value low then low else if ltb high value then high else value

abbrev pub chosen_difficulty : StratumSessionConfig → Option ℕ → ℕ
chosen_difficulty config none = config.default_share_difficulty
chosen_difficulty config (some requested) =
    if requested == 0 then config.default_share_difficulty else requested

unfoldable pub clamp_requested_difficulty : StratumSessionConfig → Option ℕ → ℕ
clamp_requested_difficulty config requested =
    clamp (chosen_difficulty config requested) config.minimum_share_difficulty
      config.maximum_share_difficulty

-- The constructor.
unfoldable pub new_registry : StratumSessionConfig → Result StratumSessionRegistry
new_registry config = do
  throw_if (config.minimum_share_difficulty == 0) runtime_error
  throw_if (ltb config.maximum_share_difficulty config.minimum_share_difficulty) runtime_error
  throw_if
      (ltb config.default_share_difficulty config.minimum_share_difficulty
        || ltb config.maximum_share_difficulty config.default_share_difficulty)
      runtime_error
  ok (record {
    config = config;
    next_session_id = 1;
    next_template_version = 1;
    sessions = [];
    current_template = none;
  })

unfoldable pub create_session : StratumSessionRegistry → Result (ℕ × StratumSessionRegistry)
create_session registry = do
  throw_if (registry.next_session_id == 0) runtime_error
  let session : StratumSession = record {
    id = registry.next_session_id;
    logged_in = false;
    username = [];
    worker = [];
    payout = none;
    configured_share_difficulty = registry.config.default_share_difficulty;
    current_work = none;
    previous_work = none;
  }
  ok (
    registry.next_session_id,
    record registry {
      next_session_id = (registry.next_session_id + 1) % 2 ^ 64;
      sessions = insert registry.next_session_id session registry.sessions;
    },
  )

unfoldable pub remove_session : StratumSessionRegistry → ℕ → StratumSessionRegistry
remove_session registry session_id = record registry {
  sessions = erase session_id registry.sessions;
}

unfoldable pub require_session : StratumSessionRegistry → ℕ → Result StratumSession
require_session registry session_id = elim (find session_id registry.sessions) [
  | none ↦ throws runtime_error
  | some session ↦ ok session
]

abbrev pub is_empty : Text → Bool
is_empty [] = true
is_empty (c ∷ text) = false

-- `login`, with the decoder of addresses and `std::to_string`.
unfoldable pub login :
    (Text → Option PayoutPublicKeys)
    → (ℕ → Text)
    → StratumSessionRegistry
    → ℕ
    → StratumLogin
    → Result StratumSessionRegistry
unfolding require_session clamp_requested_difficulty
login decode print registry session_id request = do
  session ← require_session registry session_id
  throw_if (is_empty request.username) runtime_error
  ok (record registry {
    sessions =
        insert session_id
          (record session {
            username = request.username;
            worker = if is_empty request.worker then print session.id else request.worker;
            payout = decode request.username;
            configured_share_difficulty =
                clamp_requested_difficulty registry.config request.requested_difficulty;
            logged_in = true;
            current_work = none;
            previous_work = none;
          })
          registry.sessions;
  })

-- A root has height zero, and only a root.
abbrev pub is_binding : Option StratumShareParentBinding → Bool
is_binding none = true
is_binding (some b) =
    if is_zero_share_id b.parent_id then b.share_height == 0 else not (b.share_height == 0)

abbrev pub same_binding : Option StratumShareParentBinding → Option StratumShareParentBinding → Bool
same_binding none none = true
same_binding (some a) (some b) = same a.parent_id b.parent_id && (a.share_height == b.share_height)
same_binding _ _ = false

-- The template that is published already.
abbrev pub is_current : Option StratumTemplate → StratumTemplate → Bool
is_current none new = false
is_current (some t) new =
    same t.header_hash new.header_hash
    && (same t.seed_hash new.seed_hash
        && ((t.height == new.height)
            && (same t.network_difficulty new.network_difficulty
                && same_binding t.parent_binding new.parent_binding)))

abbrev pub version_of : Option StratumTemplate → ℕ
version_of none = 0
version_of (some t) = t.version

-- `publish_template`: the template comes with the version that it gets if it is new.
unfoldable pub publish_template :
    StratumSessionRegistry
    → Bytes
    → Bytes
    → ℕ
    → Bytes
    → Option StratumShareParentBinding
    → Result (ℕ × StratumSessionRegistry)
publish_template registry header_hash seed_hash height network_difficulty parent_binding = do
  throw_if (difficulty128_is_zero network_difficulty) runtime_error
  throw_if (not (is_binding parent_binding)) runtime_error
  let work_template : StratumTemplate = record {
    version = registry.next_template_version;
    header_hash = header_hash;
    seed_hash = seed_hash;
    height = height;
    network_difficulty = network_difficulty;
    parent_binding = parent_binding;
  }
  if is_current registry.current_template work_template
      then ok (version_of registry.current_template, registry)
      else (throw_if (registry.next_template_version == 0) runtime_error
          >> ok (
            registry.next_template_version,
            record registry {
              next_template_version = (registry.next_template_version + 1) % 2 ^ 64;
              current_template = some work_template;
            },
          ))

abbrev pub is_work_for : Option StratumIssuedWork → Bytes → Bool
is_work_for none header_hash = false
is_work_for (some work) header_hash = same work.wire_work.header_hash header_hash

abbrev pub has_work : Option StratumIssuedWork → Bool
has_work none = false
has_work (some work) = true

abbrev pub match_in : StratumSession → Bytes → StratumWorkMatch
match_in session header_hash =
    if not (has_work session.current_work)
    then unknown_match
    else if is_work_for session.current_work header_hash
    then current_match
    else if is_work_for session.previous_work header_hash
    then stale_match
    else unknown_match

unfoldable pub match_submission : StratumSessionRegistry → ℕ → Bytes → Result StratumWorkMatch
unfolding require_session
match_submission registry session_id header_hash = do
  session ← require_session registry session_id
  ok (match_in session header_hash)

unfoldable pub find_session : StratumSessionRegistry → ℕ → Option StratumSession
find_session registry session_id = find session_id registry.sessions
