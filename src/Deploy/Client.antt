-- ===== src/Deploy/Client.antt =====
-- src/riaps/run/deplc.py: the client of the deployment service, which an actor keeps. The REQ socket
-- of zmq is a parameter. Messages are decoded; a status is true for "ok".
pub mod Waiting
use riaps_pycom.Prelude.{ℕ, ◌≡◌, Bool, true, false, Option, none, some, List, [], ◌∷◌, ◌++◌, Text}

-- DeplReq, as the client fills it
pub data Asked : Type 0 where
  actor_reg : (app actor : Text) (is_device : Bool) → Asked
  device_get : (app model type inst : Text) (args : List (Text × Text)) → Asked
  device_rel : (app model type inst : Text) → Asked
  report_event : (app actor msg : Text) → Asked

-- DeplRep
pub data Rep : Type 0 where
  actor_reg : (status : Bool) (port uuid : ℕ) → Rep
  device_get device_rel report_event : (status : Bool) → Rep
  other : Rep

-- zmq's REQ socket. `send` is none where it raises an exception; `recv` has no answer where it
-- raises one, after its timeout.
pub record ReqSocket : Type 1 where
  pub Sock : Type 0
  pub send : Asked → Sock → Option Sock
  pub recv : Sock → Option Rep × Sock

-- What zmq documents of it: requests and answers alternate. A socket that waits for an answer
-- refuses to send, and waits until the answer is received.
pub record IsStrict (z : ReqSocket) : Type 0 where
  pub awaits : z.Sock → Bool
  pub send-awaiting : (q : Asked) (s : z.Sock) → awaits s ≡ true → z.send q s ≡ none
  pub awaits-send : (q : Asked) (s u : z.Sock) → z.send q s ≡ some u → awaits u ≡ true
  pub awaits-recv :
      (s : z.Sock) → awaits s ≡ true → (z.recv s).0 ≡ none → awaits (z.recv s).1 ≡ true

-- DeplClient after `start`; the channel has the ports that it is connected to.
pub record DeplClient (z : ReqSocket) : Type 0 where
  pub app_name : Text
  pub actor_name : Text
  pub is_device : Bool
  pub socket : Option z.Sock
  pub channel : List ℕ
  pub uuid : Option ℕ

-- An operation of the client; the first argument of a request or a release is the bundle.
pub data Operation : Type 0 where
  registers : Operation
  requests : (app model type inst : Text) (args : List (Text × Text)) → Operation
  releases : (app model type inst : Text) → Operation
  reports : (bundle : Text) → Operation

module _ (z : ReqSocket) where
  open z use {send, recv}

  -- The send and the receipt that each operation begins with; `none` where it returns False
  abbrev received : Option Rep × z.Sock → DeplClient z → Option Rep × DeplClient z
  received (r, u) c = (r, record c { socket = some u })

  unfoldable pub exchange : Asked → DeplClient z → Option Rep × DeplClient z
  exchange q c = elim c.socket [
    | none ↦ (none, c)
    | some s ↦ elim (send q s) [ none ↦ (none, c) | some u ↦ received (recv u) c ]
  ]

  abbrev registered : Option Rep × DeplClient z → Bool × DeplClient z
  registered (some (actor_reg true port uuid), c) =
      (true, record c { channel = port ∷ c.channel; uuid = some uuid })
  registered (_, c) = (false, c)

  unfoldable pub register_actor : DeplClient z → Bool × DeplClient z
  unfolding exchange
  register_actor c = registered (exchange (actor_reg c.app_name c.actor_name c.is_device) c)

  abbrev requested : Option Rep × DeplClient z → Bool × DeplClient z
  requested (some (device_get status), c) = (status, c)
  requested (_, c) = (false, c)

  unfoldable pub request_device :
      (app model type inst : Text) → List (Text × Text) → DeplClient z → Bool × DeplClient z
  unfolding exchange
  request_device app model type inst args c =
      requested (exchange (device_get app model type inst args) c)

  abbrev released : Option Rep × DeplClient z → Bool × DeplClient z
  released (some (device_rel status), c) = (status, c)
  released (_, c) = (false, c)

  unfoldable pub release_device : (app model type inst : Text) → DeplClient z → Bool × DeplClient z
  unfolding exchange
  release_device app model type inst c = released (exchange (device_rel app model type inst) c)

  abbrev reported : Option Rep × DeplClient z → Bool × DeplClient z
  reported (some (report_event status), c) = (status, c)
  reported (_, c) = (false, c)

  unfoldable pub report_event_of : (bundle : Text) → DeplClient z → Bool × DeplClient z
  unfolding exchange
  report_event_of bundle c = reported (exchange (report_event c.app_name c.actor_name bundle) c)

  unfoldable pub operate : Operation → DeplClient z → Bool × DeplClient z
  unfolding register_actor request_device release_device report_event_of
  operate registers c = register_actor c
  operate (requests app model type inst args) c = request_device app model type inst args c
  operate (releases app model type inst) c = release_device app model type inst c
  operate (reports bundle) c = report_event_of bundle c
