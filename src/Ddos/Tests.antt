-- ===== src/Ddos/Tests.antt =====
-- Concrete runs of the scores and the bans.
use prime_pool_deprecated.Common.{◌≡◌, refl, true, false, [], ◌∷◌, arith, length, get_elem?}
use mathlib.Core.Option
use prime_pool_deprecated.Ddos.{Score, Filter, score, add_score, wrap, banned, ban}
use prime_pool_deprecated.Ddos.Window.{IsScore, slot_after, add_score-IsScore, get_elem?-add_score}
use prime_pool_deprecated.Ddos.Bans.{ban_lasts, ban_again}

-- Three seconds, of which the second is at hand.
abbrev busy : Score
busy = record { slots = (true, 4) ∷ (true, 2) ∷ (false, 9) ∷ []; started = 1000; iterator = 1 }

abbrev peer : Filter
peer = record { started = 0; bantime = 0; totalbans = 0; requests = busy; connections = busy }

add_score_test :
    add_score 1002 5 busy
    ≡ record { slots = (true, 4) ∷ (true, 2) ∷ (true, 5) ∷ []; started = 1000; iterator = 2 }
unfolding add_score
add_score_test = refl

peer_free : banned 1000 peer ≡ false
unfolding banned
peer_free = refl

add_score-IsScore_test :
    IsScore (add_score 1002 5 busy) × (length (add_score 1002 5 busy).slots ≡ 3)
add_score-IsScore_test =
    add_score-IsScore 1002 5 busy (record { nonempty = omega arith; in_range = omega arith })

get_elem?-add_score_test :
    get_elem? (add_score 1002 5 busy).slots 2
    ≡ Option.map
        (slot_after (wrap 1002 busy).0.iterator (wrap 1002 busy).1 5 2)
        (get_elem? (wrap 1002 busy).0.slots 2)
get_elem?-add_score_test = get_elem?-add_score 1002 5 2 busy

ban_lasts_test :
    (banned 2100 (ban 1000 peer) ≡ true)
    × ((ban 1000 peer).totalbans ≡ 1)
    × (score (ban 1000 peer).requests ≡ 0)
    × (score (ban 1000 peer).connections ≡ 0)
ban_lasts_test = ban_lasts peer 1000 2100 peer_free (omega arith) (omega arith) (omega arith)

ban_again_test : ban 2100 (ban 1000 peer) ≡ ban 1000 peer
ban_again_test = ban_again peer 1000 2100 peer_free (omega arith) (omega arith) (omega arith)
