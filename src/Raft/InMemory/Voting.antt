-- ===== src/Raft/InMemory/Voting.antt =====
-- scripts/raft_election.go: what the requests for votes and the heartbeats
-- leave in the nodes that they reach.
use distributed_caching.Prelude.{
  ◌<◌, ◌≡◌, ◌≢◌, ◌⊎◌, inl, inr, refl, sym, subst, ◌∙◌, Bool, true, some, List, [], ◌∷◌, Str,
  str_key, Int64, Time, length, All, arith, if_pos, if_neg,
}
use distributed_caching.Prelude.Dict.{lookup, insert, lookup-insert}
use distributed_caching.Raft.{
  RaftNode, PeerConfig, follower, become_follower, save_state, catch_up, vote, handle_request_vote,
  handle_append_entries, RequestVoteRequest, AppendEntriesRequest,
}
use distributed_caching.Raft.Election.{heartbeat_answer}
use distributed_caching.Raft.Leadership.{granted_count, NoneNewer}
use distributed_caching.Raft.InMemory.{
  Nodes, request_vote, append_entries, ask_peers, hear, beat_peers, result_of,
}

-- What the nodes hold at an address.
abbrev pub At : (RaftNode → Type 0) → Nodes → Str → Type 0
At P m a = (q : RaftNode) × (lookup a m ≡ some q) × P q

At-insert :
    (P : RaftNode → Type 0) (m : Nodes) (a b : Str) (q : RaftNode)
    → P q
    → At P m a
    → At P (insert b q m) a
At-insert P m a b q h (x, e, g) = elim (str_key.dec b a) [
  | yes p ↦ (q, lookup-insert b a q m ∙ if_pos (str_key.dec b a) p (some q) (lookup a m), h)
  | no n ↦ (x, lookup-insert b a q m ∙ if_neg (str_key.dec b a) n (some q) (lookup a m) ∙ e, g)
]

pub At-here :
    (P : RaftNode → Type 0) (m : Nodes) (b : Str) (q : RaftNode) → P q → At P (insert b q m) b
At-here P m b q h =
    (q, lookup-insert b b q m ∙ if_pos (str_key.dec b b) refl (some q) (lookup b m), h)

pub At-other :
    (P : RaftNode → Type 0) (m : Nodes) (a b : Str) (q : RaftNode)
    → a ≢ b
    → At P m a
    → At P (insert b q m) a
At-other P m a b q n (x, e, g) = (
  x,
  lookup-insert b a q m ∙ if_neg (str_key.dec b a) (λ h. n (sym h)) (some q) (lookup a m) ∙ e,
  g,
)

-- A node that has voted for the candidate in its term.
abbrev pub HasVoted : Int64 → Str → RaftNode → Type 0
HasVoted term id q = (q.ps.current_term ≡ term) × (q.ps.voted_for ≡ id) × (q.state ≡ follower)

-- A node that will vote for the candidate, or has done so.
abbrev pub Ready : Int64 → Str → RaftNode → Type 0
Ready term id q = (q.ps.current_term < term) ⊎ HasVoted term id q

handle_request_vote-HasVoted :
    (saved : Bool) (req : RequestVoteRequest) (q : RaftNode)
    → Ready req.term req.candidate_id q
    → HasVoted req.term req.candidate_id (handle_request_vote saved saved req q).0
      × ((handle_request_vote saved saved req q).1.vote_granted ≡ true)
      × ((handle_request_vote saved saved req q).1.term ≡ req.term)
unfolding handle_request_vote catch_up become_follower save_state vote
handle_request_vote-HasVoted saved req q (inl h) = (ground arith, ground arith, ground arith)
handle_request_vote-HasVoted saved req q (inr h) = (ground arith, ground arith, ground arith)

module _ (saved : Bool) (req : RequestVoteRequest) where
  abbrev pub Waits : RaftNode → Type 0
  Waits = Ready req.term req.candidate_id

  abbrev pub Votes : RaftNode → Type 0
  Votes = HasVoted req.term req.candidate_id

  -- What every voter satisfies, and a node satisfied before, it satisfies after the request.
  request_vote-keeps :
      (P : RaftNode → Type 0) (b a : Str) (m : Nodes)
      → ((q : RaftNode) → Votes q → P q)
      → At Waits m b
      → At P m a
      → At P (request_vote saved b req m).0 a
  unfolding request_vote
  request_vote-keeps P b a m f (q, e, w) h =
      rw (e, request_vote)
        (At-insert P m a b _ (f _ (handle_request_vote-HasVoted saved req q w).0) h)

  request_vote-Votes :
      (b : Str) (m : Nodes)
      → At Waits m b
      → At Votes (request_vote saved b req m).0 b
        × ((result_of (request_vote saved b req m).1).granted ≡ true)
        × ((result_of (request_vote saved b req m).1).term ≡ req.term)
  unfolding request_vote
  request_vote-Votes b m (q, e, w) =
      let (voted, granted, term) = handle_request_vote-HasVoted saved req q w in
      rw (e, request_vote) (At-here Votes m b _ voted, granted, term)

  -- The predicate holds of the node at each address.
  abbrev pub AllAt : (RaftNode → Type 0) → Nodes → List PeerConfig → Type 0
  AllAt P m ps = All (λ (p : PeerConfig). At P m p.addr) ps

  request_vote-AllAt :
      (b : Str) (m : Nodes) (ps : List PeerConfig)
      → At Waits m b
      → AllAt Waits m ps
      → AllAt Waits (request_vote saved b req m).0 ps
  request_vote-AllAt b m [] w h = tt
  request_vote-AllAt b m (p ∷ ps) w h =
      (request_vote-keeps Waits b p.addr m (λ q v. inr v) w h.0, request_vote-AllAt b m ps w h.1)

  ask_peers-keeps :
      (P : RaftNode → Type 0) (ps : List PeerConfig) (a : Str) (m : Nodes)
      → ((q : RaftNode) → Votes q → P q)
      → AllAt Waits m ps
      → At P m a
      → At P (ask_peers saved req ps m).0 a
  unfolding ask_peers
  ask_peers-keeps P [] a m f w h = h
  ask_peers-keeps P (p ∷ ps) a m f w h =
      ask_peers-keeps P ps a _ f (request_vote-AllAt p.addr m ps w.0 w.1)
        (request_vote-keeps P p.addr a m f w.0 h)

  pub ask_peers-Votes :
      (ps : List PeerConfig) (m : Nodes)
      → AllAt Waits m ps
      → AllAt Votes (ask_peers saved req ps m).0 ps
        × (granted_count (ask_peers saved req ps m).1 ≡ length ps)
        × NoneNewer req.term (ask_peers saved req ps m).1
  unfolding ask_peers
  ask_peers-Votes [] m w = (tt, refl, tt)
  ask_peers-Votes (p ∷ ps) m w =
      let (voted, granted, term) = request_vote-Votes p.addr m w.0 in
      let later = request_vote-AllAt p.addr m ps w.0 w.1 in
      let (all, count, newer) = ask_peers-Votes ps (request_vote saved p.addr req m).0 later in
      (
        (ask_peers-keeps Votes ps p.addr _ (λ q v. v) later voted, all),
        rw (granted, count) (omega arith),
        (omega (arith, term), newer),
      )

-- A node that follows the leader in its term.
abbrev pub Follows : Int64 → Str → RaftNode → Type 0
Follows term id q = HasVoted term id q × (q.leader_id ≡ id)

handle_append_entries-Follows :
    (saved : Bool) (now : Time) (req : AppendEntriesRequest) (q : RaftNode)
    → HasVoted req.term req.leader_id q
    → Follows req.term req.leader_id (handle_append_entries saved now req q).0
      × ((handle_append_entries saved now req q).1.term ≡ req.term)
unfolding handle_append_entries catch_up
handle_append_entries-Follows saved now req q h =
    (((ground arith, ground arith, ground arith), ground arith), ground arith)

module _ (saved : Bool) (now : Time) (req : AppendEntriesRequest) where
  abbrev pub Voter : RaftNode → Type 0
  Voter = HasVoted req.term req.leader_id

  abbrev pub Follower : RaftNode → Type 0
  Follower = Follows req.term req.leader_id

  append_entries-keeps :
      (P : RaftNode → Type 0) (b a : Str) (m : Nodes)
      → ((q : RaftNode) → Follower q → P q)
      → At Voter m b
      → At P m a
      → At P (append_entries saved now b req m).0 a
  unfolding append_entries
  append_entries-keeps P b a m f (q, e, w) h =
      rw (e, append_entries)
        (At-insert P m a b _ (f _ (handle_append_entries-Follows saved now req q w).0) h)

  append_entries-Follows :
      (b : Str) (m : Nodes) (n : RaftNode)
      → n.ps.current_term ≡ req.term
      → At Voter m b
      → At Follower (append_entries saved now b req m).0 b
        × (hear saved (append_entries saved now b req m).1 n ≡ n)
  unfolding append_entries heartbeat_answer catch_up
  append_entries-Follows b m n same_term (q, e, w) =
      let (follows, term) = handle_append_entries-Follows saved now req q w in
      rw (e, append_entries) (At-here Follower m b _ follows, ground arith)

  append_entries-AllAt :
      (b : Str) (m : Nodes) (ps : List PeerConfig)
      → At Voter m b
      → All (λ (p : PeerConfig). At Voter m p.addr) ps
      → All (λ (p : PeerConfig). At Voter (append_entries saved now b req m).0 p.addr) ps
  append_entries-AllAt b m [] w h = tt
  append_entries-AllAt b m (p ∷ ps) w h =
      (append_entries-keeps Voter b p.addr m (λ q v. v.0) w h.0, append_entries-AllAt b m ps w h.1)

  beat_peers-keeps :
      (P : RaftNode → Type 0) (ps : List PeerConfig) (a : Str) (n : RaftNode) (m : Nodes)
      → ((q : RaftNode) → Follower q → P q)
      → All (λ (p : PeerConfig). At Voter m p.addr) ps
      → At P m a
      → At P (beat_peers saved now req ps n m).1 a
  unfolding beat_peers
  beat_peers-keeps P [] a n m f w h = h
  beat_peers-keeps P (p ∷ ps) a n m f w h =
      beat_peers-keeps P ps a _ _ f (append_entries-AllAt p.addr m ps w.0 w.1)
        (append_entries-keeps P p.addr a m f w.0 h)

  pub beat_peers-Follows :
      (ps : List PeerConfig) (n : RaftNode) (m : Nodes)
      → n.ps.current_term ≡ req.term
      → All (λ (p : PeerConfig). At Voter m p.addr) ps
      → All (λ (p : PeerConfig). At Follower (beat_peers saved now req ps n m).1 p.addr) ps
        × ((beat_peers saved now req ps n m).0 ≡ n)
  unfolding beat_peers
  beat_peers-Follows [] n m h w = (tt, refl)
  beat_peers-Follows (p ∷ ps) n m h w =
      let (follows, heard) = append_entries-Follows p.addr m n h w.0 in
      let later = append_entries-AllAt p.addr m ps w.0 w.1 in
      let (all, same_leader) =
        beat_peers-Follows ps n (append_entries saved now p.addr req m).0 h later in
      subst
        (λ x.
          All
            (λ (p' : PeerConfig).
              At Follower
                (beat_peers saved now req ps x (append_entries saved now p.addr req m).0).1 p'.addr)
            (p ∷ ps)
          × ((beat_peers saved now req ps x (append_entries saved now p.addr req m).0).0 ≡ n))
        (sym heard)
        ((beat_peers-keeps Follower ps p.addr n _ (λ q v. v) later follows, all), same_leader)
