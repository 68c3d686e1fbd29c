-- ===== src/Coord/Thread.antt =====
-- The state of GroupThread (src/riaps/run/dc.py), and the operations that its handlers share.
-- Clock readings are microseconds, timeouts milliseconds, as in the source's `int(elapsed *
-- 1000)`. `out` is the trace of what was sent, the newest first.
use riaps_pycom.Prelude.{
  ℕ, ◌+◌, ◌-◌, ◌*◌, ◌/◌, ◌%◌, max, Bool, true, false, ◌&&◌, Option, none, some, List, [], ◌∷◌, Dict,
  delete, length, ltb, ◌==◌, same, if◌then◌else◌,
}
use riaps_pycom.Coord.Poll.{Poll}
use riaps_pycom.Coord.Message.{Net, Note, Effect, publish, notify, connect, disconnect}

pub data Role : Type 0 where
  follower candidate leading : Role

-- The parameters of the group, from Group.setupParams.
pub record Params : Type 0 where
  pub heartbeat : ℕ
  pub election_min : ℕ
  pub election_max : ℕ
  pub peer_timeout : ℕ
  pub consensus_timeout : ℕ

pub record Thread : Type 0 where
  pub own : ℕ
  pub coordinated : Bool
  pub host : ℕ
  pub params : Params
  pub group_size : ℕ
  pub state : Role
  pub timeout : ℕ
  pub last_wait : ℕ
  pub last_heartbeat : ℕ
  pub leader_deadline : Option ℕ
  pub peers : Dict ℕ
  pub num_peers : ℕ
  pub leader : Option ℕ
  pub ldr_port : Option ℕ
  pub term : ℕ
  pub votes : ℕ
  pub voted_for : Option ℕ
  pub polls : Dict Poll
  -- serverHost and serverPort of the query port, portNum and identity of the answer port
  pub query : Option (ℕ × ℕ)
  pub answer : Option ℕ
  pub identity : List ℕ
  pub out : List Effect

-- What a handler takes from outside: a later reading of the clock, the two random numbers that
-- it may draw, and the number of a port that it may bind.
pub record Draw : Type 0 where
  pub clock : ℕ
  pub election : ℕ
  pub deadline : ℕ
  pub port : ℕ

-- random.randrange(lo, hi), for lo < hi
unfoldable pub randrange : (lo hi random : ℕ) → ℕ
randrange lo hi random = lo + random % (hi - lo)

abbrev pub emit : Effect → Thread → Thread
emit e t = record t { out = e ∷ t.out }

-- sendChangeMessage
abbrev pub send_change : Note → Thread → Thread
send_change note t = emit (notify note) t

-- `ownId` is set by `setup` for coordinated groups only
unfoldable pub own_id : Thread → Option ℕ
own_id t = if t.coordinated then some t.own else none

unfoldable pub is_leader : Thread → Bool
unfolding own_id
is_leader t = same t.leader (own_id t)

unfoldable pub set_leader_deadline : Draw → Thread → Thread
unfolding randrange
set_leader_deadline d t = record t {
  leader_deadline =
      some (d.clock + randrange t.params.election_max t.params.peer_timeout d.deadline * 1000);
}

unfoldable pub election_timeout : Draw → Thread → ℕ
unfolding randrange
election_timeout d t = randrange t.params.election_min t.params.election_max d.election

unfoldable pub threshold : Thread → ℕ
threshold t = t.num_peers / 2 + 1

unfoldable pub set_timeout : ℕ → ℕ → Thread → Thread
set_timeout value now t = record t { timeout = value; last_wait = now }

unfoldable pub heartbeat : ℕ → Thread → Thread
heartbeat now t =
    if ltb (t.last_heartbeat + t.params.heartbeat * 1000) now
    then record t { out = publish (Net.tic (some t.own)) ∷ t.out; last_heartbeat = now }
    else t

-- `int((now - seen) * 1000) > peerTimeout`; a clock that went back gives no timeout
unfoldable pub stale : ℕ → Thread → ℕ → Bool
stale now t seen = ltb t.params.peer_timeout ((now - seen) / 1000)

unfoldable pub leavers : (ℕ → Bool) → Dict ℕ → List ℕ
leavers gone [] = []
leavers gone ((peer, seen) ∷ peers) =
    let rest = leavers gone peers in if gone seen then peer ∷ rest else rest

unfoldable pub drop_peers : List ℕ → Thread → Thread
drop_peers [] t = t
drop_peers (leaver ∷ rest) t =
    drop_peers rest
      (record t { out = notify (Note.mlt leaver) ∷ t.out; peers = delete leaver t.peers })

unfoldable pub recount : Thread → Thread
recount t = record t { num_peers = length t.peers }

unfoldable pub update_peers : ℕ → Thread → Thread
unfolding stale leavers drop_peers recount
update_peers now t = elim (leavers (stale now t) t.peers) [
  | [] ↦ t
  | p ∷ ps ↦ recount (drop_peers (p ∷ ps) t)
]

-- `int(elapsed * 1000)` of a negative time adds to what remains
unfoldable pub remaining : ℕ → Thread → ℕ
remaining now t =
    max
      (if ltb now t.last_wait
        then t.timeout + (t.last_wait - now) / 1000
        else t.timeout - (now - t.last_wait) / 1000)
      1

unfoldable pub update_timeout : ℕ → Thread → Thread
unfolding remaining
update_timeout now t = record t { timeout = remaining now t; last_wait = now }

abbrev same_endpoint : Option (ℕ × ℕ) → Option (ℕ × ℕ) → Bool
same_endpoint none none = true
same_endpoint (some (h, p)) (some (g, q)) = (h == g) && (p == q)
same_endpoint _ _ = false

abbrev link : (ℕ → ℕ → Effect) → Option (ℕ × ℕ) → List Effect → List Effect
link e none out = out
link e (some (host, port)) out = e host port ∷ out

-- GroupQryPort.update of run/dcPorts.py: leave the old leader's socket, then join the new one's
unfoldable pub query_update : Option (ℕ × ℕ) → Thread → Thread
query_update server t =
    if same_endpoint t.query server
    then t
    else record t { out = link connect server (link disconnect t.query t.out); query = server }

-- GroupThread.setup and the start of GroupThread.run, for a coordinated group.
unfoldable pub start : (own host : ℕ) → Params → (group_size now : ℕ) → Draw → Thread
unfolding set_leader_deadline heartbeat
start own host params group_size now d = set_leader_deadline d (
    heartbeat now (record {
      own = own;
      coordinated = true;
      host = host;
      params = params;
      group_size = group_size;
      state = follower;
      timeout = params.heartbeat;
      last_wait = now;
      last_heartbeat = 0;
      leader_deadline = none;
      peers = [];
      num_peers = 0;
      leader = none;
      ldr_port = none;
      term = 0;
      votes = 0;
      voted_for = none;
      polls = [];
      query = none;
      answer = none;
      identity = [];
      out = [];
    }))
