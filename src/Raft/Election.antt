-- ===== src/Raft/Election.antt =====
-- internal/raft/timer.go: the election timer, the election, and the heartbeats of a leader. The
-- collection of the votes is one step for each result, since the lock is given up between them.
use distributed_caching.Prelude.{
  ℕ, ◌+◌, ◌-◌, ◌*◌, ◌/◌, Bool, true, false, not, ◌&&◌, List, [], ◌∷◌, if◌then◌else◌, ltb, leb,
  Int64, int64, Time, length,
}
use distributed_caching.Raft.{
  NodeState, candidate, leader, RaftNode, become_follower, become_candidate, become_leader,
  AppendEntriesRequest, AppendEntriesResponse, catch_up,
}

abbrev pub millisecond : ℕ
millisecond = 1_000_000

abbrev pub election_timeout_min : ℕ
election_timeout_min = 150 * millisecond

abbrev pub election_timeout_max : ℕ
election_timeout_max = 300 * millisecond

-- `randomElectionTimeout`; `jitter` is what `rand.Int63n(delta)` draws, a number below delta
unfoldable pub random_election_timeout : (ℕ → ℕ) → ℕ
random_election_timeout draw =
    election_timeout_min + draw (election_timeout_max - election_timeout_min)

abbrev pub is_leader : NodeState → Bool
is_leader leader = true
is_leader other = false

abbrev pub is_candidate : NodeState → Bool
is_candidate candidate = true
is_candidate other = false

-- What the expiry of the election timer leads to: an election, unless the node is the leader or has
-- heard from one.
unfoldable pub election_due : Time → RaftNode → Bool
election_due now n = not (is_leader n.state) && leb election_timeout_min (now - n.last_heartbeat)

-- `(len(peers)+1)/2 + 1`
abbrev pub majority : ℕ → ℕ
majority peers = (peers + 1) / 2 + 1

pub record VoteResult : Type 0 where
  pub granted : Bool
  pub term : Int64

-- The result of an RPC that failed.
abbrev pub failed : VoteResult
failed = record { granted = false; term = int64 0 }

-- Where the collection stands after a result.
pub data Outcome : Type 0 where
  superseded : Outcome  -- a newer term was seen: return
  won : Outcome  -- return, after the heartbeats are sent
  counting : (votes : ℕ) → Outcome

-- One round of the collection.
unfoldable pub collect : Bool → ℕ → VoteResult → ℕ → RaftNode → RaftNode × Outcome
collect saved needed result votes n =
    if ltb n.ps.current_term result.term
    then (become_follower saved result.term n, superseded)
    else if result.granted
    then (if leb needed (votes + 1) && is_candidate n.state
        then (become_leader n, won)
        else (n, counting (votes + 1)))
    else (n, counting votes)

-- The whole election of a node that nothing else happens to meanwhile, on the results in the order
-- in which they arrive.
unfoldable pub collect_all : Bool → ℕ → List VoteResult → ℕ → RaftNode → RaftNode
collect_all saved needed [] votes n = n
collect_all saved needed (r ∷ rs) votes n =
    let (m, outcome) = collect saved needed r votes n in
    elim outcome [ superseded ↦ m | won ↦ m | counting v ↦ collect_all saved needed rs v m ]

unfoldable pub start_election : Bool → Bool → List VoteResult → RaftNode → RaftNode
start_election saved saved_later results n =
    collect_all saved_later (majority (length n.peers)) results 1 (become_candidate saved n)

-- The heartbeat that `sendHeartbeats` sends to every peer, and what it does with an answer.
unfoldable pub heartbeat : RaftNode → AppendEntriesRequest
heartbeat n = record { term = n.ps.current_term; leader_id = n.id }

unfoldable pub heartbeat_answer : Bool → AppendEntriesResponse → RaftNode → RaftNode
heartbeat_answer saved resp n = catch_up saved resp.term n
