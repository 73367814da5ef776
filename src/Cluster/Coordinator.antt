-- ===== src/Cluster/Coordinator.antt =====
-- internal/cluster/coordinator.go: routing by the ring and by the health of the nodes. The health
-- trackers are held by value: the process makes one for each node and hands out no other reference.
use distributed_caching.Prelude.{
  ◌≡◌, Bool, true, false, Option, none, some, [], if◌then◌else◌, Str, str_key, Time, same, arith,
  ite, ◌↔◌,
}
use distributed_caching.Prelude.Dict.{Dict, lookup, insert, lookup-insert}
use distributed_caching.Cluster.Node.{NodeHealth, is_available, mark_available, mark_unavailable}
use distributed_caching.Cluster.Ring.{Ring}
use distributed_caching.Cluster.Ring

pub data RouteError : Type 0 where
  no_coordinator routing_mismatch : RouteError

pub record RouteResult : Type 0 where
  pub node_id : Str
  pub addr : Str

pub record Coordinator : Type 0 where
  pub ring : Ring
  pub health : Dict Str NodeHealth
  pub leader : Bool

-- `RouteResult{}`
abbrev pub no_route : RouteResult
no_route = record { node_id = []; addr = [] }

unfoldable pub new_coordinator : Ring → Dict Str NodeHealth → Coordinator
new_coordinator ring health = record { ring = ring; health = health; leader = false }

-- Whether a node is known and available.
unfoldable pub node_up : Coordinator → Str → Bool
node_up c node_id = elim (lookup node_id c.health) [ none ↦ false | some h ↦ is_available h ]

unfoldable pub route : Str → Coordinator → RouteResult × Bool × Option RouteError
route key c =
    if c.leader
    then elim (Ring.get key c.ring) [
      | none ↦ (no_route, false, some no_coordinator)
      | some (node_id, addr) ↦
          if node_up c node_id
          then (record { node_id = node_id; addr = addr }, true, none)
          else (no_route, false, none)
    ]
    else (no_route, false, some no_coordinator)

unfoldable pub validate_ownership : Str → Str → Coordinator → Option RouteError
validate_ownership key node_id c = elim (Ring.get key c.ring) [
  | none ↦ some no_coordinator
  | some (owner_id, addr) ↦ if same owner_id node_id then none else some routing_mismatch
]

unfoldable pub set_leader : Bool → Coordinator → Coordinator
set_leader is_leader c = record c { leader = is_leader }

unfoldable pub update_node_health : Time → Str → Bool → Coordinator → Coordinator
update_node_health now node_id available c = elim (lookup node_id c.health) [
  | none ↦ c
  | some h ↦ record c {
    health =
        insert node_id (if available then mark_available now h else mark_unavailable h) c.health;
  }
]

-- `Route` sends a request out exactly if this node is the leader, the ring has an owner for the key
-- and that owner is up; it then names the owner and the address that the ring holds for it.
pub route_iff :
    (key : Str) (c : Coordinator) (r : RouteResult)
    → (route key c ≡ (r, true, none)) ↔ (
        (c.leader ≡ true)
        × (Ring.get key c.ring ≡ some (r.node_id, r.addr))
        × (node_up c r.node_id ≡ true))
unfolding route
route_iff key c r = ground arith

-- On the leader, a key whose owner is down is a miss without an error, and is not sent to any
-- other node.
pub route_down :
    (key : Str) (c : Coordinator) (owner addr : Str)
    → c.leader ≡ true
    → Ring.get key c.ring ≡ some (owner, addr)
    → node_up c owner ≡ false
    → route key c ≡ (no_route, false, none)
unfolding route
route_down key c owner addr l g d = ground arith

-- The node that `Route` names passes the ownership check of the same coordinator, and it alone.
pub route-validate_ownership :
    (key node_id : Str) (c : Coordinator) (r : RouteResult)
    → route key c ≡ (r, true, none)
    → (validate_ownership key node_id c ≡ none) ↔ (r.node_id ≡ node_id)
unfolding route validate_ownership
route-validate_ownership key node_id c r e = ground arith

node_up-update :
    (now : Time) (n m : Str) (up : Bool) (c : Coordinator) {h : NodeHealth}
    → lookup n c.health ≡ some h
    → node_up (update_node_health now n up c) m ≡ ite (str_key.dec n m) up (node_up c m)
unfolding node_up update_node_health is_available mark_available mark_unavailable
node_up-update now n m up c {h} e =
    rw (e, update_node_health)
      (ground (
        arith,
        lookup-insert n m (if up then mark_available now h else mark_unavailable h) c.health,
      ))

update-fields :
    (now : Time) (n : Str) (up : Bool) (c : Coordinator)
    → ((update_node_health now n up c).leader ≡ c.leader)
      × ((update_node_health now n up c).ring ≡ c.ring)
unfolding update_node_health
update-fields now n up c = ground arith

-- On the leader, a health report about a known node decides whether its keys are routed, and
-- leaves the routing of all keys of other nodes as it was.
pub route-update_node_health :
    (now : Time) (key n : Str) (up : Bool) (c : Coordinator) (owner addr : Str) {h : NodeHealth}
    → lookup n c.health ≡ some h
    → c.leader ≡ true
    → Ring.get key c.ring ≡ some (owner, addr)
    → route key (update_node_health now n up c)
      ≡ ite
          (str_key.dec n owner)
          (if up
            then (record { node_id = owner; addr = addr }, true, none)
            else (no_route, false, none))
          (route key c)
unfolding route
route-update_node_health now key n up c owner addr {h} e l g =
    let f = update-fields now n up c in
    rw (f.1, f.0, g, l, route) (ground (arith, node_up-update now n owner up c e, g, l))
