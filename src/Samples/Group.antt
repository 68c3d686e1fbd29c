-- ===== src/Samples/Group.antt =====
-- A group of three members (src/riaps/run/dc.py): the thread of member 1, in each of its roles.
pub mod Elections
pub mod Handlers
use riaps_pycom.Prelude.{
  length, ℕ, ◌+◌, ◌/◌, ◌<◌, ◌≡◌, ◌↔◌, refl, true, false, Option, none, some, [], ◌∷◌, if◌then◌else◌,
  ◌==◌, arith, lookup,
}
use riaps_pycom.Coord.Poll
use riaps_pycom.Coord.Poll.{
  Rfv, Voting, majority, Subject, value, init, result, all_voted, vote, expired,
}
use riaps_pycom.Coord.Poll.Count.{cast, yes_votes, Passes, result-cast}
use riaps_pycom.Coord.Message.{
  Net, Note, Effect, publish, notify, to_leader, Cmd, GroupVote, ForLeader,
}
use riaps_pycom.Coord.Thread.{
  Role, follower, candidate, leading, Params, Thread, Draw, start, threshold, update_peers, stale,
  leavers, is_leader,
}
use riaps_pycom.Coord.Outcome.{ok, raised, attribute_error, port_error, after}
use riaps_pycom.Coord.Polling.{check_all_polls}
use riaps_pycom.Coord.Polling.Endings.{still_open, endings, check_all_polls_closes}
use riaps_pycom.Coord.Timeout.{past_deadline, follower_timeout, candidate_timeout, handle_timeout}
use riaps_pycom.Coord.Net.{ballot, follower_ldr, follower_vote, candidate_count}
use riaps_pycom.Coord.Comp.{handle_comp_message}
use riaps_pycom.Coord.Comp.Replies.{
  refused_send_ends, accepted_send_acknowledged, unconnected_acknowledged,
}
use riaps_pycom.Coord.Loop.{Turn, run}
use riaps_pycom.Coord.Coherent.{IsCoherent, IsOrdered, left_notes}
use riaps_pycom.Coord.Coherent.Peers.{if_heard}
use riaps_pycom.Coord.Coherent.Commands.{Returns, handle_timeout-Returns}
use riaps_pycom.Coord.Coherent.Runs.{run-start-IsCoherent}
use riaps_pycom.Coord.Election.Ballots.{Request, grants, vote_forgotten, stale_request_grants}
use riaps_pycom.Coord.Election.Winning.{
  Suffices, leads, runs, newest, candidate_count_wins, second_win_raises, follower_timeout-runs,
}
use riaps_pycom.Coord.Election.Counting.{hear_votes, enough_votes_elect}
use riaps_pycom.Coord.Election.Stall.{failed_election_stalls, asked_follower_stalls}

-- The defaults of the module, in milliseconds.
abbrev pub defaults : Params
defaults = record {
  heartbeat = 1000;
  election_min = 1500;
  election_max = 2000;
  peer_timeout = 3000;
  consensus_timeout = 1500;
}

pub defaults-IsOrdered : IsOrdered defaults
defaults-IsOrdered = record {
  beats = ground arith;
  beat_before_election = ground arith;
  election_range = ground arith;
  election_before_peer = ground arith;
  consensus_before_election = ground arith;
}

abbrev pub drawn : Draw
drawn = record { clock = 7000000; election = 12; deadline = 7; port = 5555 }

abbrev pub request : Rfv
request = record {
  topic = 84 ∷ [];
  rfv_id = 9;
  kind = majority;
  subject = value;
  release = 0;
  started = 1000000;
  timeout = 2000000;
}

abbrev pub open_poll : Poll.Poll
open_poll = init request [] 2000000 3000000 3

-- Three peers are known, and one poll is under way.
abbrev pub in_role : Role → (leader voted_for answer : Option ℕ) → Option (ℕ × ℕ) → Thread
in_role state leader voted_for answer query = record {
  own = 1;
  coordinated = true;
  host = 10;
  params = defaults;
  group_size = 2;
  state = state;
  timeout = 1000;
  last_wait = 6000000;
  last_heartbeat = 6000000;
  leader_deadline = some 6500000;
  peers = (2, 5000000) ∷ (3, 5900000) ∷ (4, 5900000) ∷ [];
  num_peers = 3;
  leader = leader;
  ldr_port = answer;
  term = 4;
  votes = 1;
  voted_for = voted_for;
  polls = (9, open_poll) ∷ [];
  query = query;
  answer = answer;
  identity = [];
  out = [];
}

abbrev pub following : Thread
following = in_role follower none (some 2) none none

abbrev pub running : Thread
running = in_role candidate none (some 1) none none

abbrev pub served : Thread
served = in_role follower (some 2) none none (some (20, 5000))

pub following-IsCoherent : IsCoherent following
following-IsCoherent = ground (arith, defaults-IsOrdered)

pub running-IsCoherent : IsCoherent running
running-IsCoherent = ground (arith, defaults-IsOrdered)

-- A turn in which a peer asks for a vote, and one that is a timeout.
abbrev pub asking : Turn
asking = record {
  now = 7000000;
  draw = drawn;
  fault = none;
  group = none;
  sub = some (Net.req 5 3);
  ans = none;
  qry = none;
}

abbrev pub idle : Turn
idle = record asking { sub = none; now = 12000000 }

abbrev pub ask : (term node : ℕ) → Request
ask term node = record { now = 7000000; draw = drawn; term = term; node = node }
