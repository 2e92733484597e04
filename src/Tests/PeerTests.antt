-- ===== src/Tests/PeerTests.antt =====
-- A peer that is penalized up to the ban, and the delays after failures.
use zano_p2pool.Prelude.{◌≡◌, ◌*◌, ◌^◌, refl, arith, some, none, [], ltb, if◌then◌else◌}
use zano_p2pool.OrderedMap.{bytes_key, find}
use zano_p2pool.PeerScore.{P2pPeerScoreBook, refresh_locked, penalize, banned_until_of, score_of}
use zano_p2pool.PeerScore.Scores.{AreScored, penalize-AreScored, penalize-ban}
use zano_p2pool.Backoff.{RpcRetryBackoff, next_delay}
use zano_p2pool.Backoff.Delays.{after_failures, after_failures-delay}
use zano_p2pool.Pplns.{min}
use zano_p2pool.Tests.Samples.{header}

abbrev empty_book : P2pPeerScoreBook
empty_book = record { config = record { ban_threshold = 100; ban_duration = 300000 }; entries = [] }

empty_book-AreScored : AreScored empty_book
unfolding find
empty_book-AreScored = λ id entry h. absurd (ground (arith, h))

penalize-AreScored_example : AreScored (penalize empty_book header 25 7).1
penalize-AreScored_example =
    penalize-AreScored empty_book header 25 7 (omega arith) empty_book-AreScored

penalize-ban_example :
    ((banned_until_of (penalize empty_book header 100 7).1 header 400000).0
      ≡ (if ltb 400000 300007 then some 300007 else none))
    × ((score_of (penalize empty_book header 100 7).1 header 400000).0
        ≡ (if ltb 400000 300007 then (penalize empty_book header 100 7).0.score else 0))
unfolding penalize find refresh_locked
penalize-ban_example = penalize-ban empty_book header 100 7 300007 400000 refl

abbrev half_second : RpcRetryBackoff
half_second = record { initial = 500; maximum = 30000; next = 500 }

after_failures-delay_example : next_delay (after_failures 3 half_second) ≡ min (500 * 2 ^ 3) 30000
after_failures-delay_example = after_failures-delay 3 half_second (omega arith)
