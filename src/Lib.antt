-- ===== src/Lib.antt =====
-- A model of the component runtime and of the coordination, discovery, timer, state-machine and
-- deployment cores of RIAPS (the package src/riaps of the repository), with their theorems.
--
-- The parts and the files:
--
--   Actor  src/riaps/run/actor.py, part.py, comp.py, port.py and the modules of the port
--          classes. An actor is a process with parts; a part manages the thread of one
--          component, and the thread serves the sockets of the component's ports and groups.
--          Actor/Port has the ports (setupBindSocket, setupConnSocket, update, resetConnSocket),
--          Actor/Port/Frames the frames of messages (port_send, port_recv, ans_port_send,
--          ans_port_recv). Actor/Thread is the class ComponentThread with its poller and maps,
--          Actor/Thread/Handlers has executeHandlerFor, Actor/Thread/Commands runCommand and
--          setupSockets, Actor/Jobs the queues of the schedulers, Actor/Scheduler
--          batchScheduler, priorityScheduler and rrScheduler, and Actor/Run the main loop.
--          Actor/Part is the class Part, Actor/Params the parameters and arguments of the class
--          Actor (parseParams, buildInstArgs, with getopt in Actor/Options), and Actor/Process
--          the messages that an actor passes on. Actor/Part/Building and Actor/Part/Ports put a
--          part and its thread together.
--   Coord  src/riaps/run/dc.py, src/riaps/run/dcPorts.py, src/riaps/run/dc.capnp. A group of
--          components elects a leader, in the way of Raft, and the leader conducts polls.
--          Coord/Poll is the class Poll. Coord/Message holds the messages, decoded; Coord/Thread
--          the state of GroupThread and the operations its handlers share (setLeaderDeadline,
--          setTimeout, heartbeat, updatePeers, updateTimeout, and GroupQryPort.update).
--          Coord/Polling has startPoll, checkPoll, checkAllPolls and updatePoll, Coord/Timeout
--          handleTimeout, Coord/Net handleNetMessage with one function for each role and message,
--          Coord/Comp handleCompMessage, Coord/Member handleMessageForLeader and
--          handleMessageForMember, and Coord/Loop the loop of run. Coord/Outcome is what a
--          handler ends in. Coord/Coherent is the invariant of the thread, Coord/Stable and
--          Coord/Turns carry a property through the handlers and the loop, and Coord/Election is
--          about elections. Coord/Group is the class Group, which runs in the component and sends
--          the commands, and Coord/Coordinator the class Coordinator, which keeps the groups of a
--          component.
--   Fsm    src/riaps/run/fsm.py. on_call and declare are the decorator FSM.on, collect_map is the
--          part of __init__ that builds the transition maps, and update is _update.
--   Timer  src/riaps/run/timPort.py, the class TimerThread: run over the sequence of what waitFor
--          returns. Timer/Port is the class TimPort.
--   Deploy src/riaps/deplo/appdb.py (Deploy/AppDbase), src/riaps/deplo/procm.py
--          (Deploy/ProcessManager), and src/riaps/run/deplc.py (Deploy/Client), the client of the
--          deployment service.
--   Disco  src/riaps/discd/discs.py (Disco/Keys, Disco/Service, Disco/Update),
--          src/riaps/discd/dbase.py (Disco/Dbase) and src/riaps/discd/dbase_redis.py
--          (Disco/Redis). The service takes the database as an interface, and Disco/Redis fills
--          it. Disco/Client is the class DiscoClient of src/riaps/run/disco.py, by which an actor
--          talks to the service; Disco/Client/Groups registers its groups, and
--          Disco/Client/Exchange puts client and service together.
--   Prelude what the others share: numbers, lists, dictionaries and texts.
--   Samples concrete inputs.
--
-- State is a record that each operation takes and returns. What is sent is a list in the state,
-- the newest first; that of a part is in the order of sending. What the code takes from outside
-- is an argument: the clock, random numbers, the number of a port that is bound, what each poll
-- of zmq returns, what the handlers of a component do, pickle and struct
-- (Actor.Port.Frames.Codec), the REQ socket of zmq (Deploy.Client.ReqSocket), str.isidentifier,
-- the error with which zmq refuses a message, the key-value store lmdb (Deploy.AppDbase.Store)
-- and the redis server (Disco.Dbase.SetStore). The last two are interfaces with laws, and
-- Samples has a concrete one of each.
--
-- A handler of a component is a function of the component's state that says what the handler did:
-- the groups that it joined and left, the time it took, and whether it returned or raised an
-- exception (Actor.Thread.Handled). That goes for the handlers of ports and groups, which the
-- thread calls inside a try; and for those that it calls by itself (App.on_event): the handlers of
-- missed deadlines, inside a try, and the handlers of commands, such as handleActivate and
-- handleCPULimit, outside of any. Where a result is about components whose handlers return, it
-- says so.
--
-- Numbers: times are microseconds, timeouts are milliseconds, identifiers are natural numbers. A
-- term and a port are taken to be below 2 ^ 32, so that struct.pack never fails on them.
-- Python's int of a time difference is a division; a clock that goes back is written out where
-- it matters. Loops are structural, over the peers, the polls, the turns of a thread or what a
-- poller returns. Only Actor.Run takes fuel, which counts the turns of its main loop; each turn
-- takes a poll, so more fuel than polls is enough (Actor.Run.Turns, for all schedulers).
--
-- Not modelled: the controller, the deployment manager with its resource and fault managers, the
-- database on a DHT, the modelling languages and the code generator; the loading of a
-- component's code and the default handlers of class Component; encryption, socket options and
-- network interfaces; devices and peripherals; the time stamps of timed groups; sends outside
-- the handlers of commands, which are taken to succeed; failures of inproc sockets; the encoding
-- of messages; connection errors of redis and the opening of databases; threads, which meet only
-- through the messages. A member of a group that is not coordinated is covered by the handlers,
-- and not by the invariant. A text is a list of bytes.
pub mod Prelude
pub mod Actor
pub mod Coord
pub mod Fsm
pub mod Timer
pub mod Deploy
pub mod Disco
pub mod Samples
