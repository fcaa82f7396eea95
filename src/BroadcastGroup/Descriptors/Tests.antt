-- ===== src/BroadcastGroup/Descriptors/Tests.antt =====
-- The life of a small group: two join, one of them leaves, a third finds no pipe.
use httpoll.Prelude.{◌≡◌, none, some, List, [], ◌∷◌, ◌++◌}
use httpoll.BroadcastGroup.{construct, destroy}
use httpoll.BroadcastGroup.Descriptors.{
  count, ends, Request, joins, leaves, opened_by, closed_by, serve, descriptors_balance,
}

abbrev requests : List Request
requests =
    joins (some 100) (some (5, 6))
    ∷ joins (some 101) (some (7, 8))
    ∷ leaves 100
    ∷ joins (some 102) none
    ∷ joins none (some (9, 10))
    ∷ []

descriptors_balance_example :
    let (calls, g) = serve requests (construct (some (3, 4))) in
    count 6 (ends (some (3, 4)) ++ opened_by requests) ≡ count 6 (closed_by (calls ++ destroy g))
descriptors_balance_example = descriptors_balance 6 (some (3, 4)) requests
