-- ===== src/Coord/Message.antt =====
-- The messages of src/riaps/run/dc.py and src/riaps/run/dc.capnp, decoded: between the members of
-- a group, between a member and its leader, and between a component and its group thread. An
-- identifier of 16 bytes is the number that it spells, and so is an id of a request for a vote; a
-- payload and a socket identity are lists of bytes.
use riaps_pycom.Prelude.{ℕ, Bool, Option, List}
use riaps_pycom.Coord.Poll.{Rfv}

-- enum Vote of dc.capnp: yes, no, timeout
pub data Ballot : Type 0 where
  aye nay timed_out : Ballot

-- struct GroupVote
pub data GroupVote : Type 0 where
  rfv : Rfv → GroupVote
  rtc : (rfv_id : ℕ) → Ballot → GroupVote
  ann : (rfv_id : ℕ) → Ballot → GroupVote

-- What members publish to the group. A frame that should hold 16 bytes and does not is `none`.
pub data Net : Type 0 where
  msg : List ℕ → Net
  mlt : (leaver : Option ℕ) → Net
  tic : (peer : Option ℕ) → Net
  rcm : GroupVote → Net
  ann : GroupVote → Net
  req : (term node : ℕ) → Net
  vot : (term candidate : ℕ) (vote : Bool) (node : ℕ) → Net
  ldr : (term leader host port : ℕ) → Net

-- What a member sends to the leader, through the query port.
pub data ForLeader : Type 0 where
  mtl : List ℕ → ForLeader
  rfv rtc : GroupVote → ForLeader
  unknown : ForLeader

-- What the leader sends to a member, through the answer port.
pub data ForMember : Type 0 where
  mfl : List ℕ → ForMember
  unknown : ForMember

-- Commands of the component to its group thread.
pub data Cmd : Type 0 where
  upd : (host port : ℕ) → Cmd
  msg mtl : List ℕ → Cmd
  mfl : List ℕ → (identity : List ℕ) → Cmd
  rfv rtc : GroupVote → Cmd
  mlt unknown : Cmd

-- What the group thread tells the component.
pub data Note : Type 0 where
  ack nld : Note
  err : (errno : ℕ) → Note
  msg mfl : List ℕ → Note
  mtl : List ℕ → (identity : List ℕ) → Note
  rcm ann : GroupVote → Note
  mjd mlt lel lex : (member : ℕ) → Note

-- What leaves the group thread through a socket.
pub data Effect : Type 0 where
  publish : Net → Effect
  notify : Note → Effect
  to_leader : ForLeader → Effect
  to_member : (identity : List ℕ) → ForMember → Effect
  connect disconnect subscribe : (host port : ℕ) → Effect
