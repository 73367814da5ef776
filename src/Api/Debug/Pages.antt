-- ===== src/Api/Debug/Pages.antt =====
-- internal/api/debug.go: what the page on the cluster lists.
use distributed_caching.Prelude.{◌≡◌, true, false, List, [], ◌∷◌, ◌++◌, map, Str, str_key, ◌⊎◌, All}
use distributed_caching.Prelude.Dict.{Dict}
use distributed_caching.Cluster.Ring.{Ring, nodes}
use distributed_caching.Api.Debug.{NodeStatus, ClusterStatus}

abbrev pub IsFollower : NodeStatus → Type 0
IsFollower s = s.is_coordinator ≡ false

-- The name of the last node that calls itself coordinator, or no name.
abbrev pub NamesLast : List NodeStatus → Str → Type 0
NamesLast xs coordinator =
    ((coordinator ≡ []) × All IsFollower xs)
    ⊎ ((before : List NodeStatus) × (s : NodeStatus) × (after : List NodeStatus) × (xs
          ≡ before ++ s ∷ after)
        × (s.is_coordinator ≡ true)
        × (s.node_id ≡ coordinator)
        × All IsFollower after)

abbrev Lists : List Str → ClusterStatus → Type 0
Lists ids r = (map (λ s. s.node_id) r.nodes ≡ ids) × NamesLast r.nodes r.coordinator
