-- ===== src/Stratum/Issuing/Jobs.antt =====
-- The jobs that src/stratum_session.cpp hands out agree with the work they are judged by.
use zano_p2pool.Prelude.{
  ℕ, ◌≡◌, refl, sym, ◌∙◌, ap, subst, inl, inr, Bool-cases, Option-cases, true, false, not, Option,
  none, some, some-injective, ok, bind-ok, guard-ok, ok-injective, arith, ◌==◌,
}
use zano_p2pool.Bytes.{Bytes, before}
use zano_p2pool.Bytes.Order.{before_irrefl}
use zano_p2pool.Decimal.{Text}
use zano_p2pool.OrderedMap.{nat_key, find, insert}
use zano_p2pool.OrderedMap.Laws.{find-insert, find-insert_self}
use zano_p2pool.Share.{difficulty128_from_decimal, difficulty128_to_decimal, difficulty128_is_zero}
use zano_p2pool.Target.{difficulty_to_target}
use zano_p2pool.Stratum.Session.{
  StratumSession, StratumSessionRegistry, StratumIssuedWork, StratumTemplate,
  StratumShareParentBinding, is_binding, require_session,
}
use zano_p2pool.Stratum.Issuing.{
  is_issued, work_for, issue_work, issue_from, issue_or_keep, issue_for, work_parent,
  work_difficulty, effective_share_difficulty,
}

-- What the miner is shown is what its share is judged by, and the share is no harder than a block.
pub record IsJob (work : StratumIssuedWork) : Type 0 where
  pub own_header : work.wire_work.header_hash ≡ work.trusted_context.mining_header_hash
  pub own_height : work.wire_work.height ≡ work.trusted_context.zano_height
  pub reachable : before work.trusted_context.network_difficulty work.share_difficulty ≡ false
  pub bound : is_binding work.parent_binding ≡ true

-- Every session's current job is one.
abbrev pub JobsHold : StratumSessionRegistry → Type 0
JobsHold registry =
    (id : ℕ) (session : StratumSession) (work : StratumIssuedWork)
    → find id registry.sessions ≡ some session
    → session.current_work ≡ some work
    → IsJob work

-- The job is held by the session, and is for the template; the template and the other sessions are
-- as before.
pub record Issues (registry : StratumSessionRegistry) (session_id : ℕ) (issued : StratumIssuedWork)
    (next : StratumSessionRegistry) : Type 0 where
  pub holder : StratumSession
  pub has_session : find session_id next.sessions ≡ some holder
  pub has_job : holder.current_work ≡ some issued
  pub logged_in : holder.logged_in ≡ true
  pub work_template : StratumTemplate
  pub has_template : registry.current_template ≡ some work_template
  pub for_template : issued.job_version ≡ work_template.version
  pub same_template : next.current_template ≡ registry.current_template
  pub others :
      (id : ℕ) → ((session_id == id) ≡ false) → find id next.sessions ≡ find id registry.sessions
  pub jobs : JobsHold next

work_difficulty-reachable :
    (print : ℕ → Text) (session : StratumSession) (t : StratumTemplate) (consensus : Option Bytes)
    (difficulty : Bytes)
    → work_difficulty print session t consensus ≡ ok difficulty
    → before t.network_difficulty difficulty ≡ false
unfolding work_difficulty effective_share_difficulty
work_difficulty-reachable print session t none difficulty h =
    let (configured, e, h1) =
      bind-ok (difficulty128_from_decimal (print session.configured_share_difficulty)) _ h in
    elim (Bool-cases (before t.network_difficulty configured)) [
      | inl above ↦
          subst (λ d. before t.network_difficulty d ≡ false) (ok-injective (rw above at h1))
            (before_irrefl t.network_difficulty)
      | inr below ↦
          subst (λ d. before t.network_difficulty d ≡ false) (ok-injective (rw below at h1)) below
    ]
work_difficulty-reachable print session t (some consensus) difficulty h =
    elim (Bool-cases (difficulty128_is_zero consensus)) [
      | inl zero_difficulty ↦ absurd (ground (arith, zero_difficulty, h))
      | inr nonzero ↦ elim (Bool-cases (before t.network_difficulty consensus)) [
        | inl above ↦ absurd (ground (arith, nonzero, above, h))
        | inr below ↦ ground (arith, nonzero, below, h)
      ]
    ]

-- A session whose job is one can be put in.
pub insert-JobsHold :
    (registry : StratumSessionRegistry) (session_id : ℕ) (holder : StratumSession)
    → JobsHold registry
    → ((work : StratumIssuedWork) → holder.current_work ≡ some work → IsJob work)
    → JobsHold (record registry { sessions = insert session_id holder registry.sessions })
insert-JobsHold registry session_id holder all own id session work there has =
    let found = find-insert id session_id holder registry.sessions in
    elim (Bool-cases (session_id == id)) [
      | inl e ↦
          let known : holder ≡ session = some-injective (sym (found ∙ rw e refl) ∙ there) in
          own work (ap (λ s. s.current_work) known ∙ has)
      | inr e ↦ all id session work (sym (found ∙ rw e refl) ∙ there) has
    ]

-- A new job for a session that is logged in.
issue_for-Issues :
    (print : ℕ → Text) (registry : StratumSessionRegistry) (session_id : ℕ)
    (session : StratumSession) (t : StratumTemplate) (difficulty : Bytes)
    (binding : Option StratumShareParentBinding) (issued : StratumIssuedWork)
    (next : StratumSessionRegistry)
    → JobsHold registry
    → session.logged_in ≡ true
    → registry.current_template ≡ some t
    → before t.network_difficulty difficulty ≡ false
    → is_binding binding ≡ true
    → issue_for print registry session_id session t difficulty binding ≡ ok (issued, next)
    → Issues registry session_id issued next
unfolding issue_for
issue_for-Issues print registry session_id session t difficulty binding issued next all logged_in
      published reachable bound h =
    let (target, e, h1) =
      bind-ok (difficulty_to_target (difficulty128_to_decimal print difficulty)) _ h in
    let job = work_for session t difficulty target binding in
    let holder : StratumSession = record session {
      previous_work = session.current_work;
      current_work = some job;
    } in
    let new : StratumSessionRegistry = record registry {
      sessions = insert session_id holder registry.sessions;
    } in
    let own : IsJob job = record {
      own_header = refl;
      own_height = refl;
      reachable = reachable;
      bound = bound;
    } in
    let same_pair : ((job, new) ≡ (issued, next)) = ok-injective h1 in
    subst (λ p. Issues registry session_id p.0 p.1) same_pair
      (record {
        holder = holder;
        has_session = find-insert_self session_id holder registry.sessions;
        has_job = refl;
        logged_in = logged_in;
        work_template = t;
        has_template = published;
        for_template = refl;
        same_template = refl;
        others = λ id other. find-insert id session_id holder registry.sessions ∙ rw other refl;
        jobs =
            insert-JobsHold registry session_id holder all
              (λ work has. subst IsJob (some-injective has) own);
      })

-- The session's own job stays if it is for the template already.
issue_or_keep-Issues :
    (print : ℕ → Text) (registry : StratumSessionRegistry) (session_id : ℕ)
    (session : StratumSession) (t : StratumTemplate) (difficulty : Bytes)
    (binding : Option StratumShareParentBinding) (issued : StratumIssuedWork)
    (next : StratumSessionRegistry)
    → JobsHold registry
    → find session_id registry.sessions ≡ some session
    → session.logged_in ≡ true
    → registry.current_template ≡ some t
    → before t.network_difficulty difficulty ≡ false
    → is_binding binding ≡ true
    → issue_or_keep print registry session_id session t difficulty binding ≡ ok (issued, next)
    → Issues registry session_id issued next
unfolding issue_or_keep
issue_or_keep-Issues print registry session_id session t difficulty binding issued next all there
      logged_in published reachable bound h =
    elim (Option-cases session.current_work) [
      | inl idle ↦
          issue_for-Issues print registry session_id session t difficulty binding issued next all
            logged_in published reachable bound (ground (arith, idle, h))
      | inr (work, has) ↦ elim (Bool-cases (is_issued (some work) t.version difficulty binding)) [
        | inr other ↦
            issue_for-Issues print registry session_id session t difficulty binding issued next all
              logged_in published reachable bound (ground (arith, has, other, h))
        | inl kept ↦
            let mine : StratumIssuedWork × StratumSessionRegistry = (work, registry) in
            let answer : StratumIssuedWork × StratumSessionRegistry = (issued, next) in
            let same_pair : mine ≡ answer = ok-injective (ground (arith, has, kept, h)) in
            subst (λ p. Issues registry session_id p.0 p.1) same_pair
              (record {
                holder = session;
                has_session = there;
                has_job = has;
                logged_in = logged_in;
                work_template = t;
                has_template = published;
                for_template = ground (arith, kept);
                same_template = refl;
                others = λ id other. refl;
                jobs = all;
              })
      ]
    ]

require_session-found :
    (registry : StratumSessionRegistry) (session_id : ℕ) (session : StratumSession)
    → require_session registry session_id ≡ ok session
    → find session_id registry.sessions ≡ some session
unfolding require_session
require_session-found registry session_id session h =
    elim (Option-cases (find session_id registry.sessions)) [
      | inl gone ↦ absurd (ground (arith, gone, h))
      | inr (found, there) ↦ ground (arith, there, h)
    ]

issue_from-Issues :
    (print : ℕ → Text) (registry : StratumSessionRegistry) (session_id : ℕ)
    (session : StratumSession) (t : StratumTemplate) (consensus : Option Bytes)
    (given : Option StratumShareParentBinding) (issued : StratumIssuedWork)
    (next : StratumSessionRegistry)
    → JobsHold registry
    → find session_id registry.sessions ≡ some session
    → session.logged_in ≡ true
    → registry.current_template ≡ some t
    → issue_from print registry session_id session t consensus given ≡ ok (issued, next)
    → Issues registry session_id issued next
unfolding issue_from
issue_from-Issues print registry session_id session t consensus given issued next all there
      logged_in published h =
    let (binding, e, h1) = bind-ok (work_parent t.parent_binding given) _ h in
    let (bound, h2) = guard-ok (not (is_binding binding)) _ _ h1 in
    let (difficulty, e3, h3) = bind-ok (work_difficulty print session t consensus) _ h2 in
    issue_or_keep-Issues print registry session_id session t difficulty binding issued next all
      there logged_in published (work_difficulty-reachable print session t consensus difficulty e3)
      (ground (arith, bound)) h3

-- When `issue_work` returns on a registry whose jobs show their trusted header and height, are
-- no harder than the network difficulty and have a proper parent, the session is logged in and
-- holds the returned job, the job has the version of the published template, the template and
-- the other sessions are as before, and all jobs of the new registry are such jobs.
pub issue_work-Issues :
    (print : ℕ → Text) (registry : StratumSessionRegistry) (session_id : ℕ)
    (consensus : Option Bytes) (given : Option StratumShareParentBinding)
    (issued : StratumIssuedWork) (next : StratumSessionRegistry)
    → JobsHold registry
    → issue_work print registry session_id consensus given ≡ ok (issued, next)
    → Issues registry session_id issued next
unfolding issue_work
issue_work-Issues print registry session_id consensus given issued next all h =
    let (session, e, h1) = bind-ok (require_session registry session_id) _ h in
    let (in_, h2) = guard-ok (not session.logged_in) _ _ h1 in
    elim (Option-cases registry.current_template) [
      | inl unpublished ↦ absurd (ground (arith, unpublished, h2))
      | inr (t, published) ↦
          issue_from-Issues print registry session_id session t consensus given issued next all
            (require_session-found registry session_id session e) (ground (arith, in_)) published
            (ground (arith, published, h2))
    ]
