-- ===== src/Coord/Poll.antt =====
-- The class Poll of src/riaps/run/dc.py: the votes on one request, counted by the group leader.
-- Times are microseconds. The kind and the subject are those of src/riaps/run/dc.capnp.
pub mod Count
use riaps_pycom.Prelude.{
  ℕ, ◌+◌, ◌/◌, Bool, true, false, List, [], ◌∷◌, ltb, leb, ◌==◌, if◌then◌else◌,
}

pub data Voting : Type 0 where
  majority consensus : Voting

pub data Subject : Type 0 where
  value action : Subject

-- The request for a vote, ReqForVote of dc.capnp.
pub record Rfv : Type 0 where
  pub topic : List ℕ
  pub rfv_id : ℕ
  pub kind : Voting
  pub subject : Subject
  pub release : ℕ
  pub started : ℕ
  pub timeout : ℕ

pub record Poll : Type 0 where
  pub topic : List ℕ
  pub rfv_id : ℕ
  pub kind : Voting
  pub subject : Subject
  pub release : ℕ
  pub started : ℕ
  pub timeout : ℕ
  pub deadline : ℕ
  pub member : List ℕ
  pub num_peers : ℕ
  pub threshold : ℕ
  pub vote_cnt : ℕ
  pub yes_cnt : ℕ

-- Poll.__init__
unfoldable pub init : Rfv → List ℕ → (timeout deadline num_peers : ℕ) → Poll
init rfv member timeout deadline num_peers = record {
  topic = rfv.topic;
  rfv_id = rfv.rfv_id;
  kind = rfv.kind;
  subject = rfv.subject;
  release = rfv.release;
  started = rfv.started;
  timeout = timeout;
  deadline = deadline;
  member = member;
  num_peers = num_peers;
  threshold = num_peers / 2 + 1;
  vote_cnt = 0;
  yes_cnt = 0;
}

unfoldable pub vote : Bool → Poll → Poll
vote yes_vote poll = record poll {
  vote_cnt = poll.vote_cnt + 1;
  yes_cnt = if yes_vote then poll.yes_cnt + 1 else poll.yes_cnt;
}

unfoldable pub expired : ℕ → Poll → Bool
expired now poll = ltb poll.deadline now

unfoldable pub all_voted : Poll → Bool
all_voted poll = poll.vote_cnt == poll.num_peers

abbrev tally : Voting → Poll → Bool
tally majority poll = leb poll.threshold poll.yes_cnt
tally consensus poll = poll.yes_cnt == poll.num_peers

unfoldable pub result : Poll → Bool
result poll = tally poll.kind poll
