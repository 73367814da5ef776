-- ===== src/Raft/InMemory/Quiet.antt =====
-- scripts/raft_election.go: the outcome of an election that no other timer disturbs.
use distributed_caching.Prelude.{
  ℕ, ◌+◌, ◌<◌, ◌≤◌, ◌^◌, ◌≡◌, ◌≢◌, inl, refl, sym, ap, subst, ◌∙◌, Bool, true, false, some, List,
  [], ◌∷◌, if◌then◌else◌, Str, str_key, Int64, inc64, Time, length, All, arith,
}
use distributed_caching.Prelude.Dict.{lookup, insert}
use distributed_caching.Raft.{
  RaftNode, PeerConfig, leader, become_candidate, become_leader, save_state, RequestVoteRequest,
}
use distributed_caching.Raft.Election.{
  VoteResult, majority, start_election, is_leader, heartbeat, collect_all, collect,
}
use distributed_caching.Raft.Leadership.{NoneNewer, start_election-wins}
use distributed_caching.Raft.InMemory.{Nodes, ask_peers, announce, elect, beat_peers, run_election}
use distributed_caching.Raft.InMemory.Voting.{
  At, At-here, At-other, HasVoted, Ready, Follows, ask_peers-Votes, beat_peers-Follows,
}

collect_all-ps :
    (saved : Bool) (needed : ℕ) (rs : List VoteResult) (votes : ℕ) (n : RaftNode)
    → NoneNewer n.ps.current_term rs
    → ((collect_all saved needed rs votes n).ps ≡ n.ps)
      × ((collect_all saved needed rs votes n).id ≡ n.id)
unfolding collect_all collect become_leader
collect_all-ps saved needed [] votes n h = (refl, refl)
collect_all-ps saved needed (r ∷ rs) votes n h = (
  ground (
    arith,
    collect_all-ps saved needed rs votes n h.1,
    collect_all-ps saved needed rs (votes + 1) n h.1,
  ),
  ground (
    arith,
    collect_all-ps saved needed rs votes n h.1,
    collect_all-ps saved needed rs (votes + 1) n h.1,
  ),
)

start_election-ps :
    (saved saved_later : Bool) (rs : List VoteResult) (n : RaftNode)
    → NoneNewer (inc64 n.ps.current_term) rs
    → ((start_election saved saved_later rs n).ps.current_term ≡ inc64 n.ps.current_term)
      × ((start_election saved saved_later rs n).id ≡ n.id)
unfolding start_election become_candidate save_state
start_election-ps true saved_later rs n h =
    let (e, g) =
      collect_all-ps saved_later (majority (length n.peers)) rs 1 (become_candidate true n) h in
    (ap (λ x. x.current_term) e, g)
start_election-ps false saved_later rs n h =
    let (e, g) =
      collect_all-ps saved_later (majority (length n.peers)) rs 1 (become_candidate false n) h in
    (ap (λ x. x.current_term) e, g)

-- The leader of a term.
abbrev pub Leads : Int64 → RaftNode → Type 0
Leads term q = (q.state ≡ leader) × (q.ps.current_term ≡ term)

-- The node at `id` leads the term under its name, and the peers follow it.
abbrev pub IsElected : Int64 → Str → Str → List PeerConfig → Nodes → Type 0
IsElected term name id order m =
    At (Leads term) m id × All (λ (p : PeerConfig). At (Follows term name) m p.addr) order

-- The node may ask this peer: it is another node of the cluster, and not of a newer term.
abbrev pub MayAsk : Nodes → Str → Int64 → PeerConfig → Type 0
MayAsk m id term p = (p.addr ≢ id) × At (λ q. q.ps.current_term ≤ term) m p.addr

majority-le : (n : ℕ) → 0 < n → majority n ≤ 1 + n
majority-le n h = omega arith

All-insert :
    (P : RaftNode → Type 0) (m m' : Nodes) (id : Str) (term : Int64) (q : RaftNode)
    (ps : List PeerConfig)
    → All (MayAsk m' id term) ps
    → All (λ (p : PeerConfig). At P m p.addr) ps
    → All (λ (p : PeerConfig). At P (insert id q m) p.addr) ps
All-insert P m m' id term q [] ask h = tt
All-insert P m m' id term q (p ∷ ps) ask h =
    (At-other P m p.addr id q ask.0.0 h.0, All-insert P m m' id term q ps ask.1 h.1)

announce-leads :
    (saved : Bool) (now : Time) (id : Str) (order : List PeerConfig) (n : RaftNode) (m m' : Nodes)
    (term : Int64)
    → n.state ≡ leader
    → All (MayAsk m' id term) order
    → All (λ (p : PeerConfig). At (HasVoted n.ps.current_term n.id) m p.addr) order
    → IsElected n.ps.current_term n.id id order (announce saved now id order n m)
unfolding announce heartbeat
announce-leads saved now id order n m m' term won ask voted =
    let beaten = beat_peers saved now (heartbeat n) order n m in
    let (follow, same_leader) = beat_peers-Follows saved now (heartbeat n) order n m refl voted in
    subst (λ r. IsElected n.ps.current_term n.id id order r)
      (sym (ap (λ st. if is_leader st then insert id beaten.0 beaten.1 else insert id n m) won))
      (
        At-here (Leads n.ps.current_term) beaten.1 id beaten.0
            (subst (Leads n.ps.current_term) (sym same_leader) (won, refl)),
        All-insert (Follows n.ps.current_term n.id) beaten.1 m' id term beaten.0 order ask follow,
      )

-- What a candidate that has won announces, in a term and under a name that are its own.
announced :
    (saved : Bool) (now : Time) (id : Str) (order : List PeerConfig) (n : RaftNode) (m m' : Nodes)
    (term t : Int64) (c : Str)
    → n.ps.current_term ≡ t
    → n.id ≡ c
    → n.state ≡ leader
    → All (MayAsk m' id term) order
    → All (λ (p : PeerConfig). At (HasVoted t c) m p.addr) order
    → IsElected t c id order (announce saved now id order n m)
announced saved now id order n m m' term t c same_term same_id won ask voted =
    let after = announce saved now id order n m in
    let voted' =
      subst (λ u. All (λ (p : PeerConfig). At (HasVoted u c) m p.addr) order) (sym same_term)
        voted in
    let voted'' =
      subst (λ d. All (λ (p : PeerConfig). At (HasVoted n.ps.current_term d) m p.addr) order)
        (sym same_id) voted' in
    subst (λ u. IsElected u c id order after) same_term
      (subst (λ d. IsElected n.ps.current_term d id order after) same_id
        (announce-leads saved now id order n m m' term won ask voted''))

inc_lem : (t : Int64) → t + 1 < 2 ^ 64 → inc64 t ≡ t + 1
inc_lem t room = omega (arith, room)

AllReady :
    (m : Nodes) (id candidate_id : Str) (term : Int64) (ps : List PeerConfig)
    → All (MayAsk m id term) ps
    → All (λ (p : PeerConfig). At (Ready (term + 1) candidate_id) m p.addr) ps
AllReady m id c term [] h = tt
AllReady m id c term (p ∷ ps) ((n, (q, e, le)), h) =
    ((q, e, inl (omega (arith, le))), AllReady m id c term ps h)

elect-leads :
    (saved : Bool) (now : Time) (id : Str) (order : List PeerConfig) (m : Nodes) (n : RaftNode)
    → 0 < length n.peers
    → length order ≡ length n.peers
    → n.ps.current_term + 1 < 2 ^ 64
    → All (MayAsk m id n.ps.current_term) order
    → let r =
        elect saved now id order
          (record { term = n.ps.current_term + 1; candidate_id = n.id })
          n
          m in
      IsElected (n.ps.current_term + 1) n.id id order r
unfolding elect
elect-leads saved now id order m n some_peer answered room ask =
    let req : RequestVoteRequest = record { term = n.ps.current_term + 1; candidate_id = n.id } in
    let next_term = inc_lem n.ps.current_term room in
    let asked = ask_peers saved req order m in
    let (voted, count, newer) =
      ask_peers-Votes saved req order m (AllReady m id n.id n.ps.current_term order ask) in
    let not_newer = subst (λ t. NoneNewer t asked.1) (sym next_term) newer in
    let won =
      start_election-wins saved saved asked.1 n some_peer not_newer
        (omega (arith, count, answered, majority-le (length n.peers) some_peer)) in
    let (term, named) = start_election-ps saved saved asked.1 n not_newer in
    announced saved now id order (start_election saved saved asked.1 n) asked.0 m n.ps.current_term
      (n.ps.current_term + 1) n.id (term ∙ next_term) named won ask voted

-- An election in a cluster over the in-memory transport succeeds when no other timer fires meanwhile:
-- if a node has peers, its peers answer all, in whatever order and whether the state files
-- can be written or not, the peers are other nodes of the cluster and of no newer term, and its own term can
-- be counted up, then the node leads the next term, and every peer has voted for it and follows it.
pub run_election-leads :
    (saved : Bool) (now : Time) (id : Str) (order : List PeerConfig) (m : Nodes) (n : RaftNode)
    → lookup id m ≡ some n
    → 0 < length n.peers
    → length order ≡ length n.peers
    → n.ps.current_term + 1 < 2 ^ 64
    → All (MayAsk m id n.ps.current_term) order
    → IsElected (n.ps.current_term + 1) n.id id order (run_election saved now id order m)
unfolding run_election become_candidate save_state
run_election-leads true now id order m n found some_peer answered room ask =
    rw (found, run_election)
      (subst
        (λ u.
          IsElected (n.ps.current_term + 1) n.id id order
            (elect true now id order (record { term = u; candidate_id = n.id }) n m))
        (sym (inc_lem n.ps.current_term room))
        (elect-leads true now id order m n some_peer answered room ask))
run_election-leads false now id order m n found some_peer answered room ask =
    rw (found, run_election)
      (subst
        (λ u.
          IsElected (n.ps.current_term + 1) n.id id order
            (elect false now id order (record { term = u; candidate_id = n.id }) n m))
        (sym (inc_lem n.ps.current_term room))
        (elect-leads false now id order m n some_peer answered room ask))
