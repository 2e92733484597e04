-- ===== src/Stratum/Issuing.antt =====
-- The jobs that `issue_work` of src/stratum_session.cpp hands out, from the published template.
pub mod Jobs
pub mod Reach
use zano_p2pool.Prelude.{
  ℕ, ◌+◌, ◌%◌, ◌^◌, ◌>>=◌, ◌>>◌, Bool, true, false, ◌&&◌, ◌||◌, not, Option, none, some, [], ◌∷◌,
  Result, ok, throws, throw_if, runtime_error, if◌then◌else◌, ltb, ◌==◌,
}
use zano_p2pool.Bytes.{Bytes, same, before}
use zano_p2pool.Decimal.{Text}
use zano_p2pool.OrderedMap.{nat_key, OrderedMap, find, insert, erase}
use zano_p2pool.Share.{
  PayoutPublicKeys, difficulty128_is_zero, difficulty128_from_decimal, difficulty128_to_decimal,
  is_zero_share_id,
}
use zano_p2pool.Target.{difficulty_to_target}
use zano_p2pool.Chain.{ShareWorkContext}
use zano_p2pool.Stratum.Session.{
  StratumSession, StratumSessionRegistry, StratumIssuedWork, StratumTemplate,
  StratumShareParentBinding, same_binding, is_binding, require_session,
}

unfoldable pub effective_share_difficulty :
    (ℕ → Text) → StratumSession → StratumTemplate → Result Bytes
effective_share_difficulty print session work_template = do
  configured ← difficulty128_from_decimal (print session.configured_share_difficulty)
  ok (
      if before work_template.network_difficulty configured
      then work_template.network_difficulty
      else configured)

-- The parent of the work: that of the template, which a caller's must equal, or the caller's.
unfoldable pub work_parent :
    Option StratumShareParentBinding
    → Option StratumShareParentBinding
    → Result (Option StratumShareParentBinding)
work_parent none given = ok given
work_parent (some own) none = ok (some own)
work_parent (some own) (some given) =
    if same_binding (some given) (some own) then ok (some own) else throws runtime_error

unfoldable pub work_difficulty :
    (ℕ → Text) → StratumSession → StratumTemplate → Option Bytes → Result Bytes
unfolding effective_share_difficulty
work_difficulty print session work_template none =
    effective_share_difficulty print session work_template
work_difficulty print session work_template (some consensus) = do
  throw_if (difficulty128_is_zero consensus) runtime_error
  throw_if (before work_template.network_difficulty consensus) runtime_error
  ok consensus

-- Whether the session has this job already.
abbrev pub is_issued :
    Option StratumIssuedWork → ℕ → Bytes → Option StratumShareParentBinding → Bool
is_issued none version difficulty binding = false
is_issued (some work) version difficulty binding =
    (work.job_version == version)
    && (same work.share_difficulty difficulty && same_binding work.parent_binding binding)

abbrev pub work_for :
    StratumSession
    → StratumTemplate
    → Bytes
    → Bytes
    → Option StratumShareParentBinding
    → StratumIssuedWork
work_for session t difficulty target binding = record {
  job_version = t.version;
  session_id = session.id;
  share_difficulty = difficulty;
  wire_work = record {
    header_hash = t.header_hash;
    seed_hash = t.seed_hash;
    share_target = target;
    height = t.height;
  };
  trusted_context = record {
    zano_height = t.height;
    mining_header_hash = t.header_hash;
    network_difficulty = t.network_difficulty;
  };
  parent_binding = binding;
}

-- The job that the session has, or a new one that replaces it.
unfoldable pub issue_for :
    (ℕ → Text)
    → StratumSessionRegistry
    → ℕ
    → StratumSession
    → StratumTemplate
    → Bytes
    → Option StratumShareParentBinding
    → Result (StratumIssuedWork × StratumSessionRegistry)
issue_for print registry session_id session t difficulty binding = do
  target ← difficulty_to_target (difficulty128_to_decimal print difficulty)
  let issued = work_for session t difficulty target binding
  ok (
    issued,
    record registry {
      sessions =
          insert session_id
            (record session { previous_work = session.current_work; current_work = some issued })
            registry.sessions;
    },
  )

unfoldable pub issue_or_keep :
    (ℕ → Text)
    → StratumSessionRegistry
    → ℕ
    → StratumSession
    → StratumTemplate
    → Bytes
    → Option StratumShareParentBinding
    → Result (StratumIssuedWork × StratumSessionRegistry)
unfolding issue_for
issue_or_keep print registry session_id session t difficulty binding = elim session.current_work [
  | none ↦ issue_for print registry session_id session t difficulty binding
  | some work ↦
      if is_issued (some work) t.version difficulty binding
      then ok (work, registry)
      else issue_for print registry session_id session t difficulty binding
]

-- Behind the tests for a login and a template.
unfoldable pub issue_from :
    (ℕ → Text)
    → StratumSessionRegistry
    → ℕ
    → StratumSession
    → StratumTemplate
    → Option Bytes
    → Option StratumShareParentBinding
    → Result (StratumIssuedWork × StratumSessionRegistry)
unfolding work_parent work_difficulty issue_or_keep
issue_from print registry session_id session t consensus given = do
  binding ← work_parent t.parent_binding given
  throw_if (not (is_binding binding)) runtime_error
  difficulty ← work_difficulty print session t consensus
  issue_or_keep print registry session_id session t difficulty binding

unfoldable pub issue_work :
    (ℕ → Text)
    → StratumSessionRegistry
    → ℕ
    → Option Bytes
    → Option StratumShareParentBinding
    → Result (StratumIssuedWork × StratumSessionRegistry)
unfolding require_session issue_from
issue_work print registry session_id consensus given = do
  session ← require_session registry session_id
  throw_if (not session.logged_in) runtime_error
  elim registry.current_template [
    | none ↦ throws runtime_error
    | some t ↦ issue_from print registry session_id session t consensus given
  ]
