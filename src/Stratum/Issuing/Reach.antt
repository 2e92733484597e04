-- ===== src/Stratum/Issuing/Reach.antt =====
-- The registries that the methods of src/stratum_session.cpp can produce, one step at a time.
use zano_p2pool.Prelude.{
  ℕ, ◌≡◌, ap, subst, inl, inr, Bool-cases, not, Option, ok, bind-ok, guard-ok, ok-injective, arith,
  ◌||◌, ◌==◌, ltb,
}
use zano_p2pool.Bytes.{Bytes}
use zano_p2pool.Decimal.{Text}
use zano_p2pool.OrderedMap.{nat_key, find}
use zano_p2pool.OrderedMap.Laws.{find-erase}
use zano_p2pool.Share.{PayoutPublicKeys, difficulty128_is_zero}
use zano_p2pool.Stratum.Session.{
  StratumSessionConfig, StratumSessionRegistry, StratumIssuedWork, StratumLogin,
  StratumShareParentBinding, StratumTemplate, new_registry, create_session, remove_session, login,
  publish_template, is_binding, is_current, require_session, is_empty,
}
use zano_p2pool.Stratum.Issuing.{issue_work}
use zano_p2pool.Stratum.Issuing.Jobs.{JobsHold, insert-JobsHold, issue_work-Issues}

module _ (decode : Text → Option PayoutPublicKeys) (print : ℕ → Text) where
  -- What is reached from the constructor by methods that return.
  pub data Reached : StratumSessionRegistry → Type 0 where
    started :
        (config : StratumSessionConfig) (registry : StratumSessionRegistry)
        → new_registry config ≡ ok registry
        → Reached registry
    created :
        (registry next : StratumSessionRegistry) (id : ℕ)
        → Reached registry
        → create_session registry ≡ ok (id, next)
        → Reached next
    removed :
        (registry : StratumSessionRegistry) (id : ℕ)
        → Reached registry
        → Reached (remove_session registry id)
    logged :
        (registry next : StratumSessionRegistry) (id : ℕ) (request : StratumLogin)
        → Reached registry
        → login decode print registry id request ≡ ok next
        → Reached next
    published :
        (registry next : StratumSessionRegistry) (header_hash seed_hash : Bytes) (height : ℕ)
        (network_difficulty : Bytes) (binding : Option StratumShareParentBinding) (version : ℕ)
        → Reached registry
        → publish_template registry header_hash seed_hash height network_difficulty binding
          ≡ ok (version, next)
        → Reached next
    handed :
        (registry next : StratumSessionRegistry) (id : ℕ) (consensus : Option Bytes)
        (given : Option StratumShareParentBinding) (work : StratumIssuedWork)
        → Reached registry
        → issue_work print registry id consensus given ≡ ok (work, next)
        → Reached next

  new_registry-JobsHold :
      (config : StratumSessionConfig) (registry : StratumSessionRegistry)
      → new_registry config ≡ ok registry
      → JobsHold registry
  unfolding new_registry find
  new_registry-JobsHold config registry h =
      let (a, h1) = guard-ok (config.minimum_share_difficulty == 0) _ _ h in
      let (b, h2) =
        guard-ok (ltb config.maximum_share_difficulty config.minimum_share_difficulty) _ _ h1 in
      let (c, h3) =
        guard-ok
          (ltb config.default_share_difficulty config.minimum_share_difficulty
            || ltb config.maximum_share_difficulty config.default_share_difficulty)
          _ _ h2 in
      subst JobsHold (ok-injective h3) (λ id session work there has. absurd (ground (arith, there)))

  create_session-JobsHold :
      (registry next : StratumSessionRegistry) (id : ℕ)
      → JobsHold registry
      → create_session registry ≡ ok (id, next)
      → JobsHold next
  unfolding create_session
  create_session-JobsHold registry next id all h =
      let (a, h1) = guard-ok (registry.next_session_id == 0) _ _ h in
      subst JobsHold (ap (λ p. p.1) (ok-injective h1)) (
        insert-JobsHold registry registry.next_session_id _ all
          (λ work has. absurd (ground (arith, has))))

  remove_session-JobsHold :
      (registry : StratumSessionRegistry) (id : ℕ)
      → JobsHold registry
      → JobsHold (remove_session registry id)
  unfolding remove_session
  remove_session-JobsHold registry id all key session work there has =
      let left = find-erase key id registry.sessions in
      elim (Bool-cases (id == key)) [
        | inl e ↦ absurd (ground (arith, left, e, there))
        | inr e ↦ all key session work (ground (arith, left, e, there)) has
      ]

  login-JobsHold :
      (registry next : StratumSessionRegistry) (id : ℕ) (request : StratumLogin)
      → JobsHold registry
      → login decode print registry id request ≡ ok next
      → JobsHold next
  unfolding login
  login-JobsHold registry next id request all h =
      let (session, e, h1) = bind-ok (require_session registry id) _ h in
      let (a, h2) = guard-ok (is_empty request.username) _ _ h1 in
      subst JobsHold (ok-injective h2)
        (insert-JobsHold registry id _ all (λ work has. absurd (ground (arith, has))))

  publish_template-JobsHold :
      (registry next : StratumSessionRegistry) (header_hash seed_hash : Bytes) (height : ℕ)
      (network_difficulty : Bytes) (binding : Option StratumShareParentBinding) (version : ℕ)
      → JobsHold registry
      → publish_template registry header_hash seed_hash height network_difficulty binding
        ≡ ok (version, next)
      → JobsHold next
  unfolding publish_template
  publish_template-JobsHold registry next header_hash seed_hash height network_difficulty binding
        version all h =
      let t : StratumTemplate = record {
        version = registry.next_template_version;
        header_hash = header_hash;
        seed_hash = seed_hash;
        height = height;
        network_difficulty = network_difficulty;
        parent_binding = binding;
      } in
      let (a, h1) = guard-ok (difficulty128_is_zero network_difficulty) _ _ h in
      let (b, h2) = guard-ok (not (is_binding binding)) _ _ h1 in
      elim (Bool-cases (is_current registry.current_template t)) [
        | inl current ↦ subst JobsHold (ap (λ p. p.1) (ok-injective (rw current at h2))) all
        | inr fresh ↦
            let (c, h3) = guard-ok (registry.next_template_version == 0) _ _ (rw fresh at h2) in
            subst JobsHold (ap (λ p. p.1) (ok-injective h3)) all
      ]

  -- In every registry that the constructor and any sequence of returning calls of
  -- `create_session`, `remove_session`, `login`, `publish_template` and `issue_work` reach, each
  -- session's job shows the header and the height that its shares are judged by, is no harder
  -- than the network difficulty and has a proper parent.
  pub Reached-JobsHold : (registry : StratumSessionRegistry) → Reached registry → JobsHold registry
  Reached-JobsHold _ (started config registry h) = new_registry-JobsHold config registry h
  Reached-JobsHold _ (created registry next id before h) =
      create_session-JobsHold registry next id (Reached-JobsHold registry before) h
  Reached-JobsHold _ (removed registry id before) =
      remove_session-JobsHold registry id (Reached-JobsHold registry before)
  Reached-JobsHold _ (logged registry next id request before h) =
      login-JobsHold registry next id request (Reached-JobsHold registry before) h
  Reached-JobsHold _
        (published registry next header seed height difficulty binding version before h) =
      publish_template-JobsHold registry next header seed height difficulty binding version
        (Reached-JobsHold registry before) h
  Reached-JobsHold _ (handed registry next id consensus given work before h) =
      (issue_work-Issues print registry id consensus given work next
        (Reached-JobsHold registry before) h).jobs
