-- ===== src/Actor/Port/Frames.antt =====
-- src/riaps/run/port.py and ansPort.py: the frames of a message. pickle and struct are parameters.
use riaps_pycom.Prelude.{
  ℕ, ◌≡◌, refl, Bool, true, false, Option, none, some, List, [], ◌∷◌, if◌then◌else◌, arith,
}
use riaps_pycom.Actor.Port.{Port}

abbrev pub Frame : Type 0
Frame = List ℕ

pub record Codec (O : Type 0) : Type 0 where
  pub dumps : O → Frame
  pub loads : Frame → Option O
  pub pack : ℕ → Frame
  pub unpack : Frame → Option ℕ

pub data Content (O : Type 0) : Type 0 where
  object : O → Content O
  bytes : Frame → Content O

pub data Sent : Type 0 where
  sent : List Frame → Sent
  send_error : (errno : ℕ) → Sent
  send_type_error : Sent

pub data Received (O : Type 0) : Type 0 where
  received : Content O → Port → Received O
  recv_error : (errno : ℕ) → Received O
  -- an exception of pickle or struct, or an index out of range
  unreadable : Received O

abbrev pub is_object : {O : Type 0} → Content O → Bool
is_object (object o) = true
is_object (bytes b) = false

module _ {O : Type 0} (codec : Codec O) where
  abbrev payload : Content O → Frame
  payload (object o) = codec.dumps o
  payload (bytes b) = b

  abbrev time_frames : (is_timed : Bool) (now : ℕ) → List Frame
  time_frames is_timed now = if is_timed then codec.pack now ∷ [] else []

  abbrev or_error : (fault : Option ℕ) → List Frame → Sent
  or_error none frames = sent frames
  or_error (some errno) frames = send_error errno

  -- Port.port_send; `fault` is the error with which zmq refuses the message, if it does.
  unfoldable pub port_send : (fault : Option ℕ) (now : ℕ) → Content O → Port → Sent
  port_send fault now c p = or_error fault (payload c ∷ time_frames p.is_timed now)

  -- A time frame that is there is read, whether the port is timed or not.
  abbrev read_time : List Frame → Port → Option Port
  read_time [] p = some p
  read_time (f ∷ []) p = elim (codec.unpack f) [
    | none ↦ none
    | some t ↦ some (record p { send_time = t })
  ]
  read_time (f ∷ g ∷ l) p = some p

  abbrev read_payload : (is_pyobj : Bool) → Frame → Option (Content O)
  read_payload false f = some (bytes f)
  read_payload true f = elim (codec.loads f) [ none ↦ none | some o ↦ some (object o) ]

  abbrev finish : Option (Content O) → Option Port → Received O
  finish none o = unreadable
  finish (some c) none = unreadable
  finish (some c) (some p) = received c p

  abbrev stamp : (now : ℕ) → Port → Port
  stamp now p = if p.is_timed then record p { recv_time = now } else p

  -- Port.port_recv of the frames that came
  unfoldable pub port_recv : (now : ℕ) (is_pyobj : Bool) → List Frame → Port → Received O
  port_recv now is_pyobj [] p = unreadable
  port_recv now is_pyobj (f ∷ l) p = finish (read_payload is_pyobj f) (read_time l (stamp now p))

  -- AnsPort.ans_port_send: the identity stands in front.
  unfoldable pub ans_port_send : (fault : Option ℕ) (now : ℕ) → Content O → Port → Sent
  ans_port_send fault now c p = elim p.identity [
    | none ↦ send_type_error
    | some i ↦ or_error fault (i ∷ payload c ∷ time_frames p.is_timed now)
  ]

  -- AnsPort.ans_port_recv
  unfoldable pub ans_port_recv : (now : ℕ) (is_pyobj : Bool) → List Frame → Port → Received O
  ans_port_recv now is_pyobj [] p = unreadable
  ans_port_recv now is_pyobj (i ∷ []) p = unreadable
  ans_port_recv now is_pyobj (i ∷ f ∷ l) p =
      finish (read_payload is_pyobj f) (read_time l (record (stamp now p) { identity = some i }))

  -- What the documentation of pickle and struct promises.
  pub record IsLossless : Type 0 where
    pub loads-dumps : (o : O) → codec.loads (codec.dumps o) ≡ some o
    pub unpack-pack : (t : ℕ) → codec.unpack (codec.pack t) ≡ some t

  abbrev pub stamped : (sender_timed : Bool) (sent_at received_at : ℕ) → Port → Port
  stamped sender_timed sent_at received_at q = record q {
    recv_time = if q.is_timed then received_at else q.recv_time;
    send_time = if sender_timed then sent_at else q.send_time;
  }

  abbrev exchange : Sent → (List Frame → Received O) → Received O
  exchange (sent frames) f = f frames
  exchange (send_error errno) f = recv_error errno
  exchange send_type_error f = unreadable

  -- What a port receives is what the other sent, as an object or as bytes. A timed sender's time is
  -- kept as the send time, and a timed receiver keeps the time of the receipt.
  pub port_recv-port_send :
      IsLossless
      → (c : Content O) (sent_at received_at : ℕ) (p q : Port)
      → exchange (port_send none sent_at c p) (λ l. port_recv received_at (is_object c) l q)
        ≡ received c (stamped p.is_timed sent_at received_at q)
  unfolding port_send port_recv
  port_recv-port_send h (object o) sent_at received_at p q =
      ground (arith, h.loads-dumps o, h.unpack-pack sent_at)
  port_recv-port_send h (bytes b) sent_at received_at p q = ground (arith, h.unpack-pack sent_at)

  abbrev pub answer : Received O → (Port → Sent) → Sent
  answer (received c p) f = f p
  answer (recv_error errno) f = send_error errno
  answer unreadable f = send_type_error

  ans_port_recv_lem :
      IsLossless
      → (c : Content O) (timed : Bool) (i : Frame) (t1 t2 : ℕ) (q : Port)
      → ans_port_recv t2 (is_object c) (i ∷ payload c ∷ time_frames timed t1) q
        ≡ received c (record (stamped timed t1 t2 q) { identity = some i })
  unfolding ans_port_recv
  ans_port_recv_lem h (object o) timed i t1 t2 q = ground (arith, h.loads-dumps o, h.unpack-pack t1)
  ans_port_recv_lem h (bytes b) timed i t1 t2 q = ground (arith, h.unpack-pack t1)

  -- Whoever asked last is answered. A router socket puts the identity of the client before the
  -- frames of a query; after its receipt an answer goes out with that identity in front, and the
  -- client that gets the frames behind it reads the answer that was given.
  pub answer-reaches-asker :
      IsLossless
      → (query reply : Content O) (i : Frame) (t1 t2 t3 t4 : ℕ) (asker server : Port)
      → (queried answered : List Frame) × (port_send none t1 query asker ≡ sent queried)
        × (answer
              (ans_port_recv t2 (is_object query) (i ∷ queried) server)
              (ans_port_send none t3 reply)
            ≡ sent (i ∷ answered))
        × (port_recv t4 (is_object reply) answered asker
            ≡ received reply (stamped server.is_timed t3 t4 asker))
  unfolding port_send ans_port_send
  answer-reaches-asker h query reply i t1 t2 t3 t4 asker server = (
    payload query ∷ time_frames asker.is_timed t1,
    payload reply ∷ time_frames server.is_timed t3,
    refl,
    rw (ans_port_recv_lem h query asker.is_timed i t1 t2 server) refl,
    port_recv-port_send h reply t3 t4 server asker,
  )
