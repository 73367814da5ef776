-- ===== src/Raft.antt =====
-- internal/raft: the state of a node (state.go), its two handlers (rpc.go), and the transitions of
-- its election loop (timer.go). The mutex makes each of them one step.
--
-- The state file is part of the node here. Whether a write of it succeeds is up to the disk: the
-- argument `saved` says so for each write. Its JSON encoding is taken to give back what was written.
pub mod Election
pub mod Votes
pub mod Moves
pub mod Ballots
pub mod Counting
pub mod Invariant
pub mod System
pub mod Safety
pub mod Leadership
pub mod InMemory
use distributed_caching.Prelude.{
  ℕ, suc, ◌+◌, ◌-◌, ◌/◌, ◌≡◌, Bool, true, false, not, ◌&&◌, Option, none, some, List, [], ◌∷◌,
  if◌then◌else◌, ltb, leb, Str, Int64, int64, inc64, Time, same, str_key, length,
}

pub data NodeState : Type 0 where
  follower candidate leader : NodeState

pub record PeerConfig : Type 0 where
  pub id : Str
  pub addr : Str

pub record PersistentState : Type 0 where
  pub current_term : Int64
  pub voted_for : Str

-- The state file: not there, readable, or not.
pub data StateFile : Type 0 where
  absent : StateFile
  stored : PersistentState → StateFile
  unreadable : StateFile

pub record RaftNode : Type 0 where
  pub id : Str
  pub peers : List PeerConfig
  pub state : NodeState
  pub leader_id : Str
  pub ps : PersistentState
  pub file : StateFile
  pub leader_ch : Option Str  -- a channel with room for one
  pub last_heartbeat : Time

abbrev pub no_state : PersistentState
no_state = record { current_term = int64 0; voted_for = [] }

-- `loadState`: what it leaves in `ps`, or an error.
unfoldable pub load_state : StateFile → Option PersistentState
load_state absent = some no_state
load_state (stored ps) = some ps
load_state unreadable = none

-- `NewRaftNode`
unfoldable pub new_raft_node : Str → List PeerConfig → StateFile → Option RaftNode
new_raft_node id peers file = elim (load_state file) [
  | none ↦ none
  | some ps ↦ some (record {
    id = id;
    peers = peers;
    state = follower;
    leader_id = [];
    ps = ps;
    file = file;
    leader_ch = none;
    last_heartbeat = 0;
  })
]

-- `saveState`, whose error the callers drop
unfoldable pub save_state : Bool → RaftNode → RaftNode
save_state saved n = if saved then record n { file = stored n.ps } else n

unfoldable pub become_follower : Bool → Int64 → RaftNode → RaftNode
become_follower saved term n =
    if ltb n.ps.current_term term
    then save_state saved
        (record n { state = follower; ps = record { current_term = term; voted_for = [] } })
    else record n { state = follower }

unfoldable pub become_candidate : Bool → RaftNode → RaftNode
become_candidate saved n = save_state saved (record n {
  state = candidate;
  ps = record { current_term = inc64 n.ps.current_term; voted_for = n.id };
})

unfoldable pub become_leader : RaftNode → RaftNode
become_leader n = record n {
  state = leader;
  leader_id = n.id;
  leader_ch = elim n.leader_ch [ none ↦ some n.id | some waiting ↦ some waiting ];
}

-- What a receive on `LeaderCh` takes.
unfoldable pub receive_leader : RaftNode → Option Str × RaftNode
receive_leader n = (n.leader_ch, record n { leader_ch = none })

pub record RequestVoteRequest : Type 0 where
  pub term : Int64
  pub candidate_id : Str

pub record RequestVoteResponse : Type 0 where
  pub term : Int64
  pub vote_granted : Bool

pub record AppendEntriesRequest : Type 0 where
  pub term : Int64
  pub leader_id : Str

pub record AppendEntriesResponse : Type 0 where
  pub term : Int64
  pub success : Bool

-- A newer term turns the node into a follower of that term.
unfoldable pub catch_up : Bool → Int64 → RaftNode → RaftNode
catch_up saved term n = if ltb n.ps.current_term term then become_follower saved term n else n

-- The vote of `HandleRequestVote`, once the node is not behind.
unfoldable pub vote : Bool → Str → RaftNode → RaftNode × RequestVoteResponse
vote saved candidate_id n =
    if not (same n.ps.voted_for []) && not (same n.ps.voted_for candidate_id)
    then (n, record { term = n.ps.current_term; vote_granted = false })
    else (
      save_state saved (record n { ps = record n.ps { voted_for = candidate_id } }),
      record { term = n.ps.current_term; vote_granted = true },
    )

-- `saved_term` is the fate of the write for a newer term, `saved_vote` that of the write of the vote.
unfoldable pub handle_request_vote :
    Bool → Bool → RequestVoteRequest → RaftNode → RaftNode × RequestVoteResponse
handle_request_vote saved_term saved_vote req n =
    if ltb req.term n.ps.current_term
    then (n, record { term = n.ps.current_term; vote_granted = false })
    else vote saved_vote req.candidate_id (catch_up saved_term req.term n)

-- `if n.state == Candidate { n.state = Follower }`
abbrev pub step_back : NodeState → NodeState
step_back candidate = follower
step_back other = other

unfoldable pub handle_append_entries :
    Bool → Time → AppendEntriesRequest → RaftNode → RaftNode × AppendEntriesResponse
handle_append_entries saved now req n =
    if ltb req.term n.ps.current_term
    then (n, record { term = n.ps.current_term; success = false })
    else (let m = catch_up saved req.term n in
        (
          record m { state = step_back m.state; leader_id = req.leader_id; last_heartbeat = now },
          record { term = m.ps.current_term; success = true },
        ))
