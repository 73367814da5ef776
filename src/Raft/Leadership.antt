-- ===== src/Raft/Leadership.antt =====
-- internal/raft: when a vote is granted, and when an election is won.
use distributed_caching.Prelude.{
  ℕ, ◌+◌, ◌<◌, ◌≤◌, ◌≡◌, ◌≢◌, ◌⊎◌, ◌↔◌, refl, ap, sym, ◌∙◌, Bool, true, false, none, some, List, [],
  ◌∷◌, if◌then◌else◌, str_key, Int64, inc64, length, arith,
}
use distributed_caching.Raft.{
  RaftNode, candidate, leader, new_raft_node, load_state, save_state, become_follower,
  become_candidate, become_leader, catch_up, vote, handle_request_vote, RequestVoteRequest,
}
use distributed_caching.Raft.Election.{majority, VoteResult, collect, collect_all, start_election}

-- A node grants its vote exactly if the candidate's term is newer than its own, or the same while it
-- has voted for nobody or for this candidate.
pub handle_request_vote-granted :
    (saved_term saved_vote : Bool) (req : RequestVoteRequest) (n : RaftNode)
    → ((handle_request_vote saved_term saved_vote req n).1.vote_granted ≡ true) ↔ (
        (n.ps.current_term < req.term)
        ⊎ ((n.ps.current_term ≡ req.term)
            × ((n.ps.voted_for ≡ []) ⊎ (n.ps.voted_for ≡ req.candidate_id))))
unfolding handle_request_vote vote catch_up become_follower save_state
handle_request_vote-granted saved_term saved_vote req n = ground arith

-- What a node that grants its vote has written.
granted_file :
    (req : RequestVoteRequest) (n : RaftNode)
    → (handle_request_vote true true req n).1.vote_granted ≡ true
    → load_state (handle_request_vote true true req n).0.file
      ≡ some (record { current_term = req.term; voted_for = req.candidate_id })
unfolding handle_request_vote vote catch_up become_follower save_state load_state
granted_file req n granted = ground arith

refused_other :
    (saved_term saved_vote : Bool) (other : RequestVoteRequest) (m : RaftNode)
    → m.ps.current_term ≡ other.term
    → m.ps.voted_for ≢ []
    → m.ps.voted_for ≢ other.candidate_id
    → (handle_request_vote saved_term saved_vote other m).1.vote_granted ≡ false
unfolding handle_request_vote vote catch_up
refused_other saved_term saved_vote other m t named differs = ground arith

-- A vote that was granted to a candidate with a name and written stands: a node that has
-- restarted from the state file refuses every other candidate of the same term.
pub vote_stands :
    (req other : RequestVoteRequest) (n m : RaftNode)
    → req.candidate_id ≢ []
    → (handle_request_vote true true req n).1.vote_granted ≡ true
    → new_raft_node n.id n.peers (handle_request_vote true true req n).0.file ≡ some m
    → other.term ≡ req.term
    → other.candidate_id ≢ req.candidate_id
    → (handle_request_vote true true other m).1.vote_granted ≡ false
unfolding new_raft_node
vote_stands req other n m named granted restarted same_term differs =
    refused_other true true other m (ap (λ x. x.current_term) held ∙ sym same_term)
      (λ e. named (sym (ap (λ x. x.voted_for) held) ∙ e))
      (λ e. differs (sym e ∙ ap (λ x. x.voted_for) held))
  where
    held : m.ps ≡ record { current_term = req.term; voted_for = req.candidate_id }
    held =
        ap (λ o. elim o [ none ↦ m.ps | some x ↦ x.ps ])
          (sym (rw (granted_file req n granted, new_raft_node) at restarted))

-- The results that grant their vote.
abbrev pub granted_count : List VoteResult → ℕ
granted_count [] = 0
granted_count (r ∷ rs) = if r.granted then granted_count rs + 1 else granted_count rs

-- No result is of a newer term.
abbrev pub NoneNewer : Int64 → List VoteResult → Type 0
NoneNewer t [] = Unit
NoneNewer t (r ∷ rs) = (r.term ≤ t) × NoneNewer t rs

collect_all-wins :
    (saved : Bool) (needed : ℕ) (rs : List VoteResult) (votes : ℕ) (n : RaftNode)
    → n.state ≡ candidate
    → NoneNewer n.ps.current_term rs
    → votes < needed
    → needed ≤ votes + granted_count rs
    → (collect_all saved needed rs votes n).state ≡ leader
unfolding collect_all collect become_leader
collect_all-wins saved needed [] votes n c h lt le = absurd (omega arith)
collect_all-wins saved needed (r ∷ rs) votes n c h lt le = ground (
  arith,
  collect_all-wins saved needed rs votes n c h.1,
  collect_all-wins saved needed rs (votes + 1) n c h.1,
)

-- A node that has peers, and meets no newer term, wins its election if the votes of its peers and its
-- own are a majority, in whatever order the results arrive.
pub start_election-wins :
    (saved saved_later : Bool) (rs : List VoteResult) (n : RaftNode)
    → 0 < length n.peers
    → NoneNewer (inc64 n.ps.current_term) rs
    → majority (length n.peers) ≤ 1 + granted_count rs
    → (start_election saved saved_later rs n).state ≡ leader
unfolding start_election become_candidate save_state
start_election-wins true saved_later rs n some_peer h le =
    collect_all-wins saved_later (majority (length n.peers)) rs 1 (become_candidate true n) refl h
      (omega arith) le
start_election-wins false saved_later rs n some_peer h le =
    collect_all-wins saved_later (majority (length n.peers)) rs 1 (become_candidate false n) refl h
      (omega arith) le
