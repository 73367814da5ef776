-- ===== src/Raft/InMemory.antt =====
-- scripts/raft_election.go: a cluster of nodes in one process, whose transport calls the handlers of
-- the addressed node at once, and an election in it that no other timer disturbs.
pub mod Voting
pub mod Quiet
use distributed_caching.Prelude.{
  ℕ, ◌+◌, ◌<◌, ◌≤◌, ◌^◌, ◌≡◌, ◌≢◌, ◌⊎◌, inl, inr, refl, sym, ap, subst, ◌∙◌, Bool, true, false,
  Option, none, some, List, [], ◌∷◌, ◌++◌, if◌then◌else◌, Str, str_key, codes, same, Int64, int64,
  inc64, Time, length, All, arith, if_pos, if_neg, not,
}
use distributed_caching.Prelude.Dict.{Dict, lookup, insert, lookup-insert}
use distributed_caching.Raft.{
  RaftNode, PeerConfig, StateFile, NodeState, follower, leader, new_raft_node, become_candidate,
  become_follower, save_state, catch_up, vote, step_back, handle_request_vote,
  handle_append_entries, RequestVoteRequest, RequestVoteResponse, AppendEntriesRequest,
  AppendEntriesResponse,
}
use distributed_caching.Raft.Election.{
  VoteResult, failed, majority, start_election, is_leader, heartbeat, heartbeat_answer,
}
use distributed_caching.Raft.Leadership.{granted_count, NoneNewer, start_election-wins}

-- `inMemoryTransport`
abbrev pub Nodes : Type 0
Nodes = Dict Str RaftNode

-- An error stands for an address that is not there.
unfoldable pub request_vote :
    Bool → Str → RequestVoteRequest → Nodes → Nodes × Option RequestVoteResponse
request_vote saved addr req m = elim (lookup addr m) [
  | none ↦ (m, none)
  | some n ↦ let (n', resp) = handle_request_vote saved saved req n in (insert addr n' m, some resp)
]

unfoldable pub append_entries :
    Bool → Time → Str → AppendEntriesRequest → Nodes → Nodes × Option AppendEntriesResponse
append_entries saved now addr req m = elim (lookup addr m) [
  | none ↦ (m, none)
  | some n ↦ let (n', resp) = handle_append_entries saved now req n in (insert addr n' m, some resp)
]

-- The peers of a node: all but itself.
unfoldable pub peers_of : Str → List Str → List PeerConfig
peers_of id [] = []
peers_of id (pid ∷ ids) =
    let rest = peers_of id ids in
    if same pid id then rest else record { id = pid; addr = pid } ∷ rest

abbrev pub cluster_ids : List Str
cluster_ids = codes "node1" ∷ codes "node2" ∷ codes "node3" ∷ []

-- The loop of `makeCluster` over the nodes still to be made; no cluster stands for the panic.
unfoldable pub make_nodes : (Str → StateFile) → List Str → Nodes → Option Nodes
make_nodes files [] m = some m
make_nodes files (id ∷ ids) m = elim (new_raft_node id (peers_of id cluster_ids) (files id)) [
  | none ↦ none
  | some n ↦ make_nodes files ids (insert id n m)
]

abbrev pub make_cluster : (Str → StateFile) → Option Nodes
make_cluster files = make_nodes files cluster_ids []

-- What the goroutine of a peer sends to the candidate.
abbrev pub result_of : Option RequestVoteResponse → VoteResult
result_of none = failed
result_of (some resp) = record { granted = resp.vote_granted; term = resp.term }

-- The requests to the peers, in the order in which they answer.
unfoldable pub ask_peers :
    Bool → RequestVoteRequest → List PeerConfig → Nodes → Nodes × List VoteResult
ask_peers saved req [] m = (m, [])
ask_peers saved req (p ∷ ps) m =
    let (m', resp) = request_vote saved p.addr req m in
    let (m'', rs) = ask_peers saved req ps m' in (m'', result_of resp ∷ rs)

-- What the leader makes of the answer to a heartbeat.
abbrev pub hear : Bool → Option AppendEntriesResponse → RaftNode → RaftNode
hear saved none n = n
hear saved (some resp) n = heartbeat_answer saved resp n

unfoldable pub beat_peers :
    Bool → Time → AppendEntriesRequest → List PeerConfig → RaftNode → Nodes → RaftNode × Nodes
beat_peers saved now req [] n m = (n, m)
beat_peers saved now req (p ∷ ps) n m =
    let (m', resp) = append_entries saved now p.addr req m in
    beat_peers saved now req ps (hear saved resp n) m'

-- The candidate after its election: a leader sends its heartbeats.
unfoldable pub announce : Bool → Time → Str → List PeerConfig → RaftNode → Nodes → Nodes
announce saved now id order n m =
    if is_leader n.state
    then (let (n', m') = beat_peers saved now (heartbeat n) order n m in insert id n' m')
    else insert id n m

-- The election of the node that stands at `id`, once the request is made up.
unfoldable pub elect :
    Bool → Time → Str → List PeerConfig → RequestVoteRequest → RaftNode → Nodes → Nodes
elect saved now id order req n m =
    let (m', rs) = ask_peers saved req order m in
    announce saved now id order (start_election saved saved rs n) m'

-- The election that the timer of node `id` starts. `order` has the peers in the order in which they
-- answer. A node is not its own peer, so that its requests do not change what it holds.
unfoldable pub run_election : Bool → Time → Str → List PeerConfig → Nodes → Nodes
run_election saved now id order m = elim (lookup id m) [
  | none ↦ m
  | some n ↦
      let c = become_candidate saved n in
      elect saved now id order (record { term = c.ps.current_term; candidate_id = c.id }) n m
]
