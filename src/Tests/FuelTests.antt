-- ===== src/Tests/FuelTests.antt =====
-- The walks and the promotion of orphans with different fuel, on the chain of a root share.
use zano_p2pool.Prelude.{◌≡◌, refl, none, false, [], ◌∷◌, arith}
use zano_p2pool.Bytes.{zeros, same}
use zano_p2pool.OrderedMap.{bytes_key, find}
use zano_p2pool.Chain.{ShareChain}
use zano_p2pool.Chain.Connect.{promote_children}
use zano_p2pool.Chain.Fuel.{promote_children-enough}
use zano_p2pool.Pplns.{Walk, walk_window}
use zano_p2pool.Pplns.Fuel.{walk_window-enough}
use zano_p2pool.Tests.Samples.{header, root_share}
use zano_p2pool.Tests.ChainTests.{root_chain, root_entry, root_chain-IsValid}

-- An orphan waits for the root share.
abbrev waiting_chain : ShareChain
waiting_chain = record root_chain {
  orphans =
      (
        zeros 32,
        record {
          share = root_share;
          id = zeros 32;
          pow_validation = none;
          enforce_sidechain_difficulty = false;
        },
      )
      ∷ [];
  orphans_by_parent = (header, zeros 32 ∷ []) ∷ [];
}

promote_children-enough_example :
    promote_children 1 waiting_chain header ≡ promote_children 5 waiting_chain header
promote_children-enough_example =
    promote_children-enough 1 5 waiting_chain header (omega arith) (omega arith)

abbrev start : Walk
start = record { remaining = 1; included_shares = 0; credited = [] }

walk_window-enough_example :
    walk_window 1 root_chain root_entry start ≡ walk_window 9 root_chain root_entry start
unfolding find same
walk_window-enough_example =
    walk_window-enough 1 9 root_chain header root_entry start root_chain-IsValid refl (omega arith)
      (omega arith)
