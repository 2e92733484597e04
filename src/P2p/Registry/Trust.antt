-- ===== src/P2p/Registry/Trust.antt =====
-- What the registry of trusted work keeps.
use zano_p2pool.Prelude.{
  ◌≡◌, refl, sym, ◌∙◌, subst, Bool-cases, Option-cases, Result-cases, inl, inr, false, none, some,
  ok, arith,
}
use zano_p2pool.Bytes.{Bytes}
use zano_p2pool.Bytes.Order.{same_iff}
use zano_p2pool.Share.{difficulty128_is_zero}
use zano_p2pool.OrderedMap.{find, insert}
use zano_p2pool.OrderedMap.Laws.{find-insert, find-insert_self}
use zano_p2pool.Chain.{ShareWorkContext}
use zano_p2pool.P2p.WorkKey.{WorkKey, work_key, same_work_key, same_work_key_iff}
use zano_p2pool.P2p.Registry.{
  TrustedEntry, P2pTrustedWorkRegistry, key_of, require_difficulty, remember, remember_with_parent,
  confirm_parent, same_difficulty, other_parent,
}

-- An entry stands under the height and the header of its context, which has a difficulty.
pub record IsTrusted (key : WorkKey) (entry : TrustedEntry) : Type 0 where
  pub own_height : entry.context.zano_height ≡ key.zano_height
  pub own_header : entry.context.mining_header_hash ≡ key.mining_header_hash
  pub has_difficulty : difficulty128_is_zero entry.context.network_difficulty ≡ false

abbrev pub AreTrusted : P2pTrustedWorkRegistry → Type 0
AreTrusted contexts =
    (key : WorkKey) (entry : TrustedEntry) → find key contexts ≡ some entry → IsTrusted key entry

-- A new or confirmed entry is the only change.
pub record Remembers (old new : P2pTrustedWorkRegistry) : Type 0 where
  pub trusted : AreTrusted new
  pub kept :
      (key : WorkKey) (entry : TrustedEntry)
      → find key old ≡ some entry
      → (now : TrustedEntry) × (find key new ≡ some now) × (now.context ≡ entry.context)

insert-AreTrusted :
    (contexts : P2pTrustedWorkRegistry) (key : WorkKey) (entry : TrustedEntry)
    → AreTrusted contexts
    → IsTrusted key entry
    → AreTrusted (insert key entry contexts)
insert-AreTrusted contexts key entry all own k e h = elim (Bool-cases (same_work_key key k)) [
  | inl eq ↦
      let same_entry : entry ≡ e = ground (arith, find-insert k key entry contexts) in
      let same_key = (same_work_key_iff key k).0 eq in
      subst (λ j. IsTrusted j e) same_key (subst (IsTrusted key) same_entry own)
  | inr ne ↦ all k e (ground (arith, find-insert k key entry contexts))
]

insert-Remembers :
    (contexts : P2pTrustedWorkRegistry) (key : WorkKey) (entry : TrustedEntry)
    → AreTrusted contexts
    → IsTrusted key entry
    → ((old : TrustedEntry) → find key contexts ≡ some old → entry.context ≡ old.context)
    → Remembers contexts (insert key entry contexts)
insert-Remembers contexts key entry all own same_context = record {
  trusted = insert-AreTrusted contexts key entry all own;
  kept = λ k e h. elim (Bool-cases (same_work_key key k)) [
    | inl eq ↦
        let same_key = (same_work_key_iff key k).0 eq in
        (
          entry,
          find-insert k key entry contexts ∙ rw eq,
          same_context e (subst (λ j. find j contexts ≡ some e) (sym same_key) h),
        )
    | inr ne ↦ (e, find-insert k key entry contexts ∙ rw ne h, refl)
  ];
}

-- The work stands in the registry with its difficulty.
abbrev pub Stands : P2pTrustedWorkRegistry → ShareWorkContext → Bytes → Type 0
Stands contexts context parent_id =
    (entry : TrustedEntry) × (find (key_of context parent_id) contexts ≡ some entry)
    × (entry.context.network_difficulty ≡ context.network_difficulty)

-- The same, and the block that the work was built on is known.
abbrev pub StandsWith : P2pTrustedWorkRegistry → ShareWorkContext → Bytes → Bytes → Type 0
StandsWith contexts context parent_id hash =
    (entry : TrustedEntry) × (find (key_of context parent_id) contexts ≡ some entry)
    × (entry.context.network_difficulty ≡ context.network_difficulty)
    × (entry.zano_parent_hash ≡ some hash)

Remembers-refl :
    (contexts : P2pTrustedWorkRegistry) → AreTrusted contexts → Remembers contexts contexts
Remembers-refl contexts all = record { trusted = all; kept = λ k e h. (e, h, refl) }

require_difficulty-ok :
    (context : ShareWorkContext) (u : Unit {0})
    → require_difficulty context ≡ ok u
    → difficulty128_is_zero context.network_difficulty ≡ false
unfolding require_difficulty
require_difficulty-ok context u h =
    elim (Bool-cases (difficulty128_is_zero context.network_difficulty)) [
      | inr e ↦ e
      | inl e ↦ ground (arith, e)
    ]

-- When `remember` returns on a registry whose entries have the height and the header of their
-- keys and a difficulty, the new registry is such a registry, keeps the context of every entry,
-- and holds the work with its difficulty.
pub remember-Remembers :
    (contexts : P2pTrustedWorkRegistry) (context : ShareWorkContext) (parent_id : Bytes)
    (new : P2pTrustedWorkRegistry)
    → AreTrusted contexts
    → remember contexts context parent_id ≡ ok new
    → Remembers contexts new × Stands new context parent_id
unfolding remember
remember-Remembers contexts context parent_id new all h =
    elim (Result-cases (require_difficulty context)) [
      | inr (x, e) ↦ absurd (ground (arith, e))
      | inl (u, e) ↦
          let nonzero = require_difficulty-ok context u e in
          elim (Option-cases (find (key_of context parent_id) contexts)) [
            | inl new_key ↦
                let entry : TrustedEntry = record { context = context; zano_parent_hash = none } in
                let result : insert (key_of context parent_id) entry contexts ≡ new =
                  ground (arith, e, new_key) in
                subst (λ m. Remembers contexts m × Stands m context parent_id) result
                  (
                    insert-Remembers contexts (key_of context parent_id) entry all
                        (record { own_height = refl; own_header = refl; has_difficulty = nonzero })
                        (λ old k. cc (new_key, k)),
                    (entry, find-insert_self (key_of context parent_id) entry contexts, refl),
                  )
            | inr (entry, known) ↦ elim (Bool-cases (same_difficulty entry context)) [
              | inr differs ↦ absurd (ground (arith, e, known, differs))
              | inl agrees ↦
                  let result : contexts ≡ new = ground (arith, e, known, agrees) in
                  subst (λ m. Remembers contexts m × Stands m context parent_id) result
                    (Remembers-refl contexts all, (entry, known, (same_iff _ _).0 agrees))
            ]
          ]
    ]

confirm_parent-Remembers :
    (contexts : P2pTrustedWorkRegistry) (context : ShareWorkContext) (parent_id hash : Bytes)
    (entry : TrustedEntry) (new : P2pTrustedWorkRegistry)
    → AreTrusted contexts
    → find (key_of context parent_id) contexts ≡ some entry
    → confirm_parent contexts (key_of context parent_id) entry context hash ≡ ok new
    → Remembers contexts new × StandsWith new context parent_id hash
unfolding confirm_parent
confirm_parent-Remembers contexts context parent_id hash entry new all known h =
    elim (Bool-cases (same_difficulty entry context)) [
      | inr differs ↦ absurd (ground (arith, differs))
      | inl agrees ↦ elim (Bool-cases (other_parent entry.zano_parent_hash hash)) [
        | inl other ↦ absurd (ground (arith, agrees, other))
        | inr same_parent ↦
            let key = key_of context parent_id in
            let now : TrustedEntry = record entry { zano_parent_hash = some hash } in
            let own = all key entry known in
            let result : insert key now contexts ≡ new = ground (arith, agrees, same_parent) in
            subst (λ m. Remembers contexts m × StandsWith m context parent_id hash) result
              (
                insert-Remembers contexts key now all
                    (record {
                      own_height = own.own_height;
                      own_header = own.own_header;
                      has_difficulty = own.has_difficulty;
                    })
                    (λ old k. ground (arith, known, k)),
                (now, find-insert_self key now contexts, (same_iff _ _).0 agrees, refl),
              )
      ]
    ]

-- When `remember_with_parent` returns on a registry whose entries have the height and the header
-- of their keys and a difficulty, the new registry is such a registry, keeps the context of
-- every entry, and holds the work with its difficulty and the confirmed parent block.
pub remember_with_parent-Remembers :
    (contexts : P2pTrustedWorkRegistry) (context : ShareWorkContext) (parent_id hash : Bytes)
    (new : P2pTrustedWorkRegistry)
    → AreTrusted contexts
    → remember_with_parent contexts context parent_id hash ≡ ok new
    → Remembers contexts new × StandsWith new context parent_id hash
unfolding remember_with_parent
remember_with_parent-Remembers contexts context parent_id hash new all h =
    elim (Result-cases (require_difficulty context)) [
      | inr (x, e) ↦ absurd (ground (arith, e))
      | inl (u, e) ↦ elim (Option-cases (find (key_of context parent_id) contexts)) [
        | inr (entry, known) ↦
            confirm_parent-Remembers contexts context parent_id hash entry new all known
              (rw (e, known) at h)
        | inl new_key ↦
            let key = key_of context parent_id in
            let entry : TrustedEntry = record { context = context; zano_parent_hash = some hash } in
            let result : insert key entry contexts ≡ new = ground (arith, e, new_key) in
            subst (λ m. Remembers contexts m × StandsWith m context parent_id hash) result
              (
                insert-Remembers contexts key entry all
                    (record {
                      own_height = refl;
                      own_header = refl;
                      has_difficulty = require_difficulty-ok context u e;
                    })
                    (λ old k. cc (new_key, k)),
                (entry, find-insert_self key entry contexts, refl, refl),
              )
      ]
    ]
