-- ===== src/Tests/Raft.antt =====
-- internal/raft: three nodes elect the first of them.
use distributed_caching.Prelude.{
  ◌≡◌, refl, ap, true, false, none, List, [], ◌∷◌, Str, Str-discrete, str_key, int64, arith, inl,
}
use distributed_caching.Prelude.Sets.{erase}
use distributed_caching.Raft.{
  RaftNode, PeerConfig, RequestVoteRequest, follower, candidate, leader, absent, no_state,
  load_state, new_raft_node, save_state, become_candidate, become_follower, become_leader, catch_up,
  handle_request_vote,
}
use distributed_caching.Raft
use distributed_caching.Raft.Election.{collect, collect_all, election_due, start_election}
use distributed_caching.Raft.System.{
  System, Election, Ask, ids, do_timeout, do_vote, do_collect, timeout, vote, take_result, Reach,
  here, next,
}
use distributed_caching.Raft.Leadership.{vote_stands, start_election-wins}
use distributed_caching.Raft.Safety.{Starts, leaders_agree}

abbrev a : Str
a = 97 ∷ []

abbrev b : Str
b = 98 ∷ []

abbrev c : Str
c = 99 ∷ []

abbrev members : List Str
members = a ∷ b ∷ c ∷ []

abbrev configs : List Str → List PeerConfig
configs [] = []
configs (i ∷ is) = record { id = i; addr = i } ∷ configs is

ids-configs : (is : List Str) → ids (configs is) ≡ is
ids-configs [] = refl
ids-configs (i ∷ is) = ap (λ js. i ∷ js) (ids-configs is)

abbrev start : System
start = record {
  nodes = λ i. record {
    id = i;
    peers = configs (erase i members);
    state = follower;
    leader_id = [];
    ps = no_state;
    file = absent;
    leader_ch = none;
    last_heartbeat = 0;
  };
  elections = λ i. none;
  asks = [];
  replies = [];
  beats = [];
  cast = λ p t. none;
}

program : Unit {0}
unfolding Str-discrete load_state new_raft_node save_state become_candidate become_follower
    become_leader catch_up Raft.vote handle_request_vote collect election_due collect_all
    start_election do_timeout do_vote do_collect
program = tt

start-Starts : Starts members start
unfolding program
start-Starts = record {
  distinct = (refl, (refl, (refl, tt)));
  named = λ i m nil. ground arith;
  peers = λ i. configs (erase i members);
  others = λ i m. ids-configs (erase i members);
  nodes = λ i m. refl;
  elections = λ i. refl;
  asks = refl;
  replies = refl;
  cast = λ p t. refl;
}

abbrev ask : Ask
ask = record { candidate_id = a; term = int64 1 }

abbrev election : Election
election = record { term = int64 1; votes = 1; waiting = b ∷ c ∷ []; supporters = a ∷ [] }

abbrev asked : System
asked = do_timeout a start

abbrev answered : System
answered = do_vote b ask asked

abbrev elected : System
elected = do_collect a b election (record { granted = true; term = int64 1 }) answered

elected-Reach : Reach members start elected
unfolding program
elected-Reach =
    next
      (next (next here (timeout a 200_000_000 refl refl refl (omega arith)))
        (vote b ask refl (inl refl)))
      (take_result a b election (record { granted = true; term = int64 1 }) refl refl refl
        (inl refl))

-- The second node asks for votes in the next term while the first still leads its own.
abbrev later : System
later = do_timeout b elected

later-Reach : Reach members elected later
unfolding program
later-Reach = next here (timeout b 300_000_000 refl refl refl (omega arith))

leaders_agree_example : a ≡ a
unfolding program
leaders_agree_example =
    leaders_agree members start elected later a a start-Starts elected-Reach later-Reach refl refl
      refl refl refl

abbrev fresh : RaftNode
fresh = start.nodes a

abbrev for_b : RequestVoteRequest
for_b = record { term = int64 3; candidate_id = b }

abbrev for_c : RequestVoteRequest
for_c = record { term = int64 3; candidate_id = c }

abbrev restarted : RaftNode
restarted = record fresh {
  ps = record { current_term = int64 3; voted_for = b };
  file = (handle_request_vote true true for_b fresh).0.file;
}

vote_stands_example : (handle_request_vote true true for_c restarted).1.vote_granted ≡ false
unfolding program
vote_stands_example =
    vote_stands for_b for_c fresh restarted (λ e. ground arith) refl refl refl (λ e. ground arith)

start_election-wins_example :
    (start_election true true
      (record { granted = false; term = int64 0 } ∷ record { granted = true; term = int64 1 } ∷ [])
      fresh).state
    ≡ leader
unfolding program
start_election-wins_example =
    start_election-wins true true
      (record { granted = false; term = int64 0 } ∷ record { granted = true; term = int64 1 } ∷ [])
      fresh (omega arith) (omega arith, (omega arith, tt)) (omega arith)

-- A node without peers has the only vote of its cluster, and is not elected.
alone : (start_election true true [] (record fresh { peers = [] })).state ≡ candidate
unfolding program
alone = refl
