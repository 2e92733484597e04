-- ===== src/Stratum/Submission/Routing.antt =====
-- What a nonce from a miner can do to the chain.
use zano_p2pool.Prelude.{
  ℕ, ◌≡◌, refl, sym, ◌∙◌, ap, subst, ◌⊎◌, inl, inr, Bool-cases, Option-cases, true, false, some,
  ◌∷◌, ok, arith, bind-ok, ok-injective, ==_refl,
}
use zano_p2pool.Bytes.{Bytes, same}
use zano_p2pool.OrderedMap.{nat_key, find, insert}
use zano_p2pool.OrderedMap.Laws.{find-insert_self}
use zano_p2pool.Platform.{Platform, ProgPowZContextMode}
use zano_p2pool.Share.{IsShare, share_id}
use zano_p2pool.Chain.{ShareChain, AddShareResult, best_tip}
use zano_p2pool.Chain.Invariant.{IsValid, Apart}
use zano_p2pool.Chain.Submit.{submit_share}
use zano_p2pool.Chain.Submission.{IsProven, submit_share-Submitted}
use zano_p2pool.Chain.Dispositions.{Adds}
use zano_p2pool.Stratum.Session.{
  StratumSession, StratumSessionRegistry, StratumIssuedWork, StratumWorkMatch, current_match,
  stale_match, unknown_match, match_in, match_submission, require_session, find_session,
}
use zano_p2pool.Stratum.Submission.{
  StratumSubmission, StratumSubmissionResult, SubmittedNonces, was_submitted, seen_of,
  submitted_share, submit, submit_in, submit_matched, submit_current, submit_fresh,
}

-- The share of the job is proven against the work that was handed out, and was added; the nonce was
-- not recorded for the job, and is now.
pub record IsTaken (platform : Platform) (mode : ProgPowZContextMode) (nonces : SubmittedNonces)
    (chain : ShareChain) (session_id nonce now : ℕ) (session : StratumSession)
    (issued : StratumIssuedWork) (next : SubmittedNonces) (new : ShareChain) : Type 0 where
  pub fresh : was_submitted nonces session_id issued.job_version nonce ≡ false
  pub recorded : was_submitted next session_id issued.job_version nonce ≡ true
  pub proven :
      IsProven platform mode
        (submitted_share session issued (best_tip chain) nonce now)
        issued.trusted_context
        now
  pub result : AddShareResult
  pub added : Adds chain (submitted_share session issued (best_tip chain) nonce now) result new

recorded_now :
    (nonces : SubmittedNonces) (session_id version nonce : ℕ)
    → was_submitted
        (insert session_id ((version, nonce) ∷ seen_of (find session_id nonces)) nonces)
        session_id
        version
        nonce
      ≡ true
unfolding was_submitted
recorded_now nonces session_id version nonce =
    rw
      (
        was_submitted,
        find-insert_self session_id ((version, nonce) ∷ seen_of (find session_id nonces)) nonces,
        ==_refl version,
        ==_refl nonce,
      )
      refl

submit_fresh-IsTaken :
    (platform : Platform) (mode : ProgPowZContextMode) (nonces : SubmittedNonces)
    (chain : ShareChain) (session_id nonce now : ℕ) (session : StratumSession)
    (issued : StratumIssuedWork) (answer : StratumSubmissionResult) (next : SubmittedNonces)
    (new : ShareChain)
    → IsValid chain
    → Apart chain
    → IsShare (submitted_share session issued (best_tip chain) nonce now)
    → was_submitted nonces session_id issued.job_version nonce ≡ false
    → submit_fresh platform nonces chain session_id session issued nonce now mode
      ≡ ok (answer, next, new)
    → (new ≡ chain)
      ⊎ IsTaken platform mode nonces chain session_id nonce now session issued next new
unfolding submit_fresh
submit_fresh-IsTaken platform mode nonces chain session_id nonce now session issued answer next new
      v apart ranges fresh h =
    let own = submitted_share session issued (best_tip chain) nonce now in
    let (id, e, h1) = bind-ok (share_id own) _ h in
    let ((r, last), submitted, h2) =
      bind-ok (submit_share platform chain own issued.trusted_context now mode) _ h1 in
    let same_nonces = ap (λ p. p.1) (ok-injective h2) in
    let same_chain : last ≡ new = ap (λ p. p.2) (ok-injective h2) in
    elim (submit_share-Submitted platform chain own issued.trusted_context now mode r last v apart
      ranges submitted) [
        | inl unchanged ↦ inl (sym same_chain ∙ unchanged)
        | inr (proven, added) ↦ inr (record {
          fresh = fresh;
          recorded =
              subst (λ n. was_submitted n session_id issued.job_version nonce ≡ true) same_nonces
                (recorded_now nonces session_id issued.job_version nonce);
          proven = proven;
          result = r;
          added = subst (Adds chain own r) same_chain added;
        })
      ]

-- The chain is as before, or the session has the job that the miner names, and its share is taken.
pub record Routes (platform : Platform) (mode : ProgPowZContextMode)
    (sessions : StratumSessionRegistry) (nonces : SubmittedNonces) (chain : ShareChain)
    (session_id : ℕ) (submission : StratumSubmission) (now : ℕ) (next : SubmittedNonces)
    (new : ShareChain) : Type 0 where
  pub session : StratumSession
  pub issued : StratumIssuedWork
  pub has_session : find_session sessions session_id ≡ some session
  pub logged_in : session.logged_in ≡ true
  pub has_job : session.current_work ≡ some issued
  pub same_header : same issued.wire_work.header_hash submission.header_hash ≡ true
  pub taken :
      IsTaken platform mode nonces chain session_id submission.nonce now session issued next new

-- The share of the job that the session has, of proper field widths.
abbrev pub SharesFit : StratumSessionRegistry → ShareChain → ℕ → StratumSubmission → ℕ → Type 0
SharesFit sessions chain session_id submission now =
    (session : StratumSession) (issued : StratumIssuedWork)
    → find_session sessions session_id ≡ some session
    → session.current_work ≡ some issued
    → IsShare (submitted_share session issued (best_tip chain) submission.nonce now)

match-current :
    (session : StratumSession) (issued : StratumIssuedWork) (header_hash : Bytes)
    → session.current_work ≡ some issued
    → match_in session header_hash ≡ current_match
    → same issued.wire_work.header_hash header_hash ≡ true
match-current session issued header_hash job h =
    elim (Bool-cases (same issued.wire_work.header_hash header_hash)) [
      | inl e ↦ e
      | inr e ↦ absurd (ground (arith, job, e, h))
    ]

-- Of the three answers only a current job can change the chain.
submit_matched-IsTaken :
    (platform : Platform) (mode : ProgPowZContextMode) (nonces : SubmittedNonces)
    (chain : ShareChain) (session_id nonce now : ℕ) (session : StratumSession)
    (issued : StratumIssuedWork) (found : StratumWorkMatch) (answer : StratumSubmissionResult)
    (next : SubmittedNonces) (new : ShareChain)
    → IsValid chain
    → Apart chain
    → IsShare (submitted_share session issued (best_tip chain) nonce now)
    → submit_matched platform nonces chain session_id session issued found nonce now mode
      ≡ ok (answer, next, new)
    → (new ≡ chain)
      ⊎ ((found ≡ current_match)
          × IsTaken platform mode nonces chain session_id nonce now session issued next new)
unfolding submit_matched submit_current
submit_matched-IsTaken platform mode nonces chain session_id nonce now session issued stale_match
      answer next new v apart ranges h =
    inl (sym (ap (λ p. p.2) (ok-injective h)))
submit_matched-IsTaken platform mode nonces chain session_id nonce now session issued unknown_match
      answer next new v apart ranges h =
    inl (sym (ap (λ p. p.2) (ok-injective h)))
submit_matched-IsTaken platform mode nonces chain session_id nonce now session issued current_match
      answer next new v apart ranges h =
    elim (Bool-cases (was_submitted nonces session_id issued.job_version nonce)) [
      | inl again ↦ inl (sym (ap (λ p. p.2) (ok-injective (simp (again) at h))))
      | inr fresh ↦
          elim (submit_fresh-IsTaken platform mode nonces chain session_id nonce now session issued
            answer next new v apart ranges fresh (simp (fresh) at h)) [
              | inl unchanged ↦ inl unchanged
              | inr taken ↦ inr (refl, taken)
            ]
    ]

-- When `submit` of a nonce returns on a valid chain with unconnected orphans, and the share of
-- the session's job has proper field widths, the chain is as before, or the session is logged in
-- and has a job with the named header, the nonce was not recorded for the job and is now, and
-- the share that is made of the job is proven against the work that was handed out and was
-- added.
pub submit-Routes :
    (platform : Platform) (sessions : StratumSessionRegistry) (nonces : SubmittedNonces)
    (chain : ShareChain) (session_id : ℕ) (submission : StratumSubmission) (now : ℕ)
    (mode : ProgPowZContextMode) (answer : StratumSubmissionResult) (next : SubmittedNonces)
    (new : ShareChain)
    → IsValid chain
    → Apart chain
    → SharesFit sessions chain session_id submission now
    → submit platform sessions nonces chain session_id submission now mode ≡ ok (answer, next, new)
    → (new ≡ chain) ⊎ Routes platform mode sessions nonces chain session_id submission now next new
unfolding submit submit_in match_submission require_session find_session
submit-Routes platform sessions nonces chain session_id submission now mode answer next new v apart
      fit h =
    elim (Option-cases (find session_id sessions.sessions)) [
      | inl gone ↦ inl (ground (arith, gone))
      | inr (session, there) ↦ elim (Bool-cases session.logged_in) [
        | inr out ↦ inl (ground (arith, there, out))
        | inl logged_in ↦ elim (Option-cases session.current_work) [
          | inl idle ↦ inl (ground (arith, there, logged_in, idle))
          | inr (issued, job) ↦
              let found = match_in session submission.header_hash in
              let matched : submit_matched platform nonces chain session_id session issued found
                    submission.nonce now mode
                  ≡ ok (answer, next, new) =
                ground (arith, there, logged_in, job, h) in
              elim (submit_matched-IsTaken platform mode nonces chain session_id submission.nonce
                now session issued found answer next new v apart (fit session issued there job)
                matched) [
                  | inl unchanged ↦ inl unchanged
                  | inr (current, taken) ↦ inr (record {
                    session = session;
                    issued = issued;
                    has_session = there;
                    logged_in = logged_in;
                    has_job = job;
                    same_header = match-current session issued submission.header_hash job current;
                    taken = taken;
                  })
                ]
        ]
      ]
    ]
