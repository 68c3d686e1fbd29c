-- ===== src/Coord/Group.antt =====
-- The class Group of src/riaps/run/dc.py: what runs in the component, and talks to the group
-- thread. The handlers of the component are called from it; `calls` is the trace of these calls,
-- and `sent` the trace of the commands, the newest first.
pub mod Exchange
pub mod Receiving
use riaps_pycom.Prelude.{
  ℕ, Bool, true, false, ◌&&◌, Option, none, some, List, [], ◌∷◌, ◌++◌, ltb, ◌==◌, if◌then◌else◌,
}
use riaps_pycom.Coord.Poll.{Rfv, Voting, Subject, value, action}
use riaps_pycom.Coord.Message.{Ballot, aye, nay, GroupVote, Cmd, Note}
use riaps_pycom.Coord.Thread.{Params}

-- The parameters of a group as its model gives them, in milliseconds.
pub record Given : Type 0 where
  pub heartbeat : Option ℕ
  pub election_min : Option ℕ
  pub election_max : Option ℕ
  pub peer_timeout : Option ℕ
  pub consensus_timeout : Option ℕ

-- `modelParams.get(name,None) or value`: also a zero gives way to the default
unfoldable pub given_or : Option ℕ → ℕ → ℕ
given_or none default = default
given_or (some given) default = if given == 0 then default else given

abbrev resolved : (defaults : Params) → Given → Params
resolved defaults model = record {
  heartbeat = given_or model.heartbeat defaults.heartbeat;
  election_min = given_or model.election_min defaults.election_min;
  election_max = given_or model.election_max defaults.election_max;
  peer_timeout = given_or model.peer_timeout defaults.peer_timeout;
  consensus_timeout = given_or model.consensus_timeout defaults.consensus_timeout;
}

abbrev all_positive : Params → Bool
all_positive p =
    ltb 0 p.heartbeat
    && (ltb 0 p.election_min
        && (ltb 0 p.election_max && (ltb 0 p.peer_timeout && ltb 0 p.consensus_timeout)))

abbrev in_order : Params → Bool
in_order p =
    ltb p.heartbeat p.election_min
    && (ltb p.election_min p.election_max
        && (ltb p.election_max p.peer_timeout && ltb p.consensus_timeout p.election_max))

-- Group.setupParams, with the defaults of the constants; `none` is a failed assertion.
unfoldable pub setup_params : (defaults : Params) → Given → Option Params
unfolding given_or
setup_params defaults model =
    let p = resolved defaults model in if all_positive p && in_order p then some p else none

pub data Call : Type 0 where
  group_message message_to_leader message_from_leader : Call
  vote_request : (rfv_id : ℕ) → Call
  action_vote_request : (rfv_id when : ℕ) → Call
  vote_result : (rfv_id : ℕ) → Ballot → Call
  member_joined member_left leader_elected leader_exited : (member : ℕ) → Call

pub record Group : Type 0 where
  pub coordinated : Bool
  -- not an attribute before the first message to the leader, or the first one to a member
  pub identity : Option (List ℕ)
  pub msg_queue : List (List ℕ)
  pub calls : List Call
  pub sent : List Cmd

abbrev pub called : Call → Group → Group
called c g = record g { calls = c ∷ g.calls }

abbrev pub queued : List ℕ → Group → Group
queued payload g = record g { msg_queue = g.msg_queue ++ payload ∷ [] }

abbrev requested : Subject → Rfv → Call
requested value r = Call.vote_request r.rfv_id
requested action r = Call.action_vote_request r.rfv_id r.release

-- Group.handleMessage; a reply that is not awaited is an unknown control message.
unfoldable pub handle_message : Note → Group → Group
handle_message (Note.msg payload) g = called Call.group_message (queued payload g)
handle_message (Note.mtl payload identity) g =
    called Call.message_to_leader (queued payload (record g { identity = some identity }))
handle_message (Note.mfl payload) g = called Call.message_from_leader (queued payload g)
handle_message (Note.rcm (GroupVote.rfv r)) g = called (requested r.subject r) (queued r.topic g)
handle_message (Note.rcm _) g = g
handle_message (Note.ann (GroupVote.ann rfv_id vote)) g = called (Call.vote_result rfv_id vote) g
handle_message (Note.ann _) g = g
handle_message (Note.mjd member) g = called (Call.member_joined member) g
handle_message (Note.mlt member) g = called (Call.member_left member) g
handle_message (Note.lel leader) g = called (Call.leader_elected leader) g
handle_message (Note.lex leader) g = called (Call.leader_exited leader) g
handle_message _ g = g

-- How a call of the component ends. `blocked` waits for a reply that has not come.
pub data Result : Type 0 where
  done : Bool → Result
  type_error attribute_error : Result
  blocked : Result

-- The loop of Group.send_port over the messages of the thread. A GROUP_ERR makes a PortError of
-- three arguments, where the class takes two.
unfoldable pub await_reply : List Note → Group → Result × Group
unfolding handle_message
await_reply [] g = (Result.blocked, g)
await_reply (Note.ack ∷ notes) g = (Result.done true, g)
await_reply (Note.nld ∷ notes) g = (Result.done false, g)
await_reply (Note.err errno ∷ notes) g = (Result.type_error, g)
await_reply (note ∷ notes) g = await_reply notes (handle_message note g)

-- `notes` is what the thread answers to the command, and what it sends meanwhile.
unfoldable pub send_port : (Cmd → List Note) → Cmd → Group → Result × Group
unfolding await_reply
send_port notes cmd g = await_reply (notes cmd) (record g { sent = cmd ∷ g.sent })

-- Group.send
unfoldable pub send : (Cmd → List Note) → (msg : List ℕ) → Group → Result × Group
unfolding send_port
send notes msg g = send_port notes (Cmd.msg msg) g

-- What follows for a coordinated group with a leader. The PortError for a group that is not
-- coordinated has one argument, where the class takes two.
abbrev pub coordinate_send : (leader : Option ℕ) → Group → Result × Group → Result × Group
coordinate_send leader g body =
    if g.coordinated
    then elim leader [ none ↦ (Result.done false, g) | some id ↦ body ]
    else (Result.type_error, g)

-- Group.sendToLeader; `leader` is what the group thread knows.
unfoldable pub send_to_leader :
    (Cmd → List Note) → (leader : Option ℕ) → (msg : List ℕ) → Group → Result × Group
unfolding send_port
send_to_leader notes leader msg g = coordinate_send leader g (send_port notes (Cmd.mtl msg) g)

abbrev last_identity : Option (List ℕ) → Option (List ℕ) → Option (List ℕ)
last_identity none last = last
last_identity (some identity) last = some identity

-- Group.sendToMember: the last identity is used if none is given.
unfoldable pub send_to_member :
    (Cmd → List Note)
    → (leader : Option ℕ) → (msg : List ℕ) → (identity : Option (List ℕ)) → Group
    → Result × Group
unfolding send_port
send_to_member notes leader msg identity g =
    coordinate_send leader g (elim (last_identity identity g.identity) [
      | none ↦ (Result.attribute_error, g)
      | some to ↦ send_port notes (Cmd.mfl msg to) (record g { identity = some to })
    ])

-- requestVote and requestActionVote: the id, the clock and the fields of the request are given;
-- the id is returned if the request was acknowledged.
unfoldable pub request_vote :
    (Cmd → List Note) → (leader : Option ℕ) → Rfv → Group → (Option ℕ) × Result × Group
unfolding send_port
request_vote notes leader r g =
    let (result, g1) = coordinate_send leader g (send_port notes (Cmd.rfv (GroupVote.rfv r)) g) in
    (elim result [ done true ↦ some r.rfv_id | _ ↦ none ], result, g1)

-- sendVote: no look at the leader
unfoldable pub send_vote : (Cmd → List Note) → (rfv_id : ℕ) (vote : Bool) → Group → Result × Group
unfolding send_port
send_vote notes rfv_id vote g =
    if g.coordinated
    then send_port notes (Cmd.rtc (GroupVote.rtc rfv_id (if vote then aye else nay))) g
    else (Result.type_error, g)

-- recv_msg, for bytes: `none` is the PortError of an empty queue
unfoldable pub recv : Group → Option (List ℕ) × Group
recv g = elim g.msg_queue [
  | [] ↦ (none, g)
  | msg ∷ queue ↦ (some msg, record g { msg_queue = queue })
]

-- Group.leave: the command has no reply
unfoldable pub leave : Group → Group
leave g = record g { sent = Cmd.mlt ∷ g.sent }
