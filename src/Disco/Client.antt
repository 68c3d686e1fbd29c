-- ===== src/Disco/Client.antt =====
-- src/riaps/run/disco.py: the client of the discovery service, which an actor keeps. What the
-- service makes of a request is a parameter. Messages are decoded; a status is true for "ok".
pub mod Groups
pub mod Answers
pub mod Exchange
use riaps_pycom.Prelude.{
  ℕ, Bool, true, false, Option, none, some, List, [], ◌∷◌, ◌++◌, if◌then◌else◌, ◌==◌, Text, codes,
}
use riaps_pycom.Disco.Keys.{Kind, Scope, global, local, internal, Client, dot}
use riaps_pycom.Disco.Service.{PortPath}

-- DiscoReq, as the client fills it
pub data Asked : Type 0 where
  actor_reg : (app actor : Text) (is_device : Bool) → Asked
  actor_unreg : (app actor : Text) → Asked
  service_reg service_unreg : PortPath → (host port : Text) → Asked
  service_lookup service_unlookup : (app msg_type : Text) → Kind → Scope → Client → Asked

-- DiscoRep
pub data Rep : Type 0 where
  actor_reg actor_unreg : (status : Bool) (port : ℕ) → Rep
  service_reg service_unreg service_unlookup : (status : Bool) → Rep
  service_lookup : (status : Bool) (sockets : List (Text × Text)) → Rep
  other : Rep

-- What becomes of a request: zmq refuses to send it, no answer comes in time, or there is one.
pub data Answer : Type 0 where
  not_sent not_answered : Answer
  answered : Rep → Answer

-- DiscoClient; `open` tells that the socket is not None, and the channel has the ports that it is
-- connected to.
pub record DiscoClient : Type 0 where
  pub app_name : Text
  pub actor_name : Text
  pub is_device : Bool
  pub global_host : Text
  pub local_host : Text
  pub open_ : Bool
  pub channel : List ℕ
  pub pending_rpc : Bool

-- The pair of a part's names and a PortInfo
pub record Bundle : Type 0 where
  pub part_name : Text
  pub kind : Kind
  pub scope : Scope
  pub port_name : Text
  pub msg_type : Text
  pub port_num : Text

-- An endpoint of a part that is to be updated: the part, its port, the provider's host and port.
abbrev pub Endpoint : Type 0
Endpoint = Text × Text × Text × Text

pub data Outcome (A : Type 0) : Type 0 where
  done : A → DiscoClient → Outcome A
  setup_error attribute_error : DiscoClient → Outcome A

abbrev pub then_ : {A B : Type 0} → Outcome A → (A → DiscoClient → Outcome B) → Outcome B
then_ (done x c) f = f x c
then_ (setup_error c) f = setup_error c
then_ (attribute_error c) f = attribute_error c

abbrev pub close : DiscoClient → DiscoClient
close c = record c { open_ = false }

-- rpcDisco, with sendToDisco and recvFromDisco. A socket that is None raises an exception in the
-- `try` of sendToDisco, and another in its handler, which closes the socket.
abbrev pub exchanged : Answer → DiscoClient → Outcome Rep
exchanged not_sent c = setup_error (close c)
exchanged not_answered c = setup_error (record (close c) { pending_rpc = false })
exchanged (answered r) c = done r (record c { pending_rpc = false })

unfoldable pub rpc_disco : (Asked → Answer) → Asked → DiscoClient → Outcome Rep
rpc_disco disco q c = if c.open_ then exchanged (disco q) c else attribute_error c

-- start
unfoldable pub start : DiscoClient → DiscoClient
start c = record c { open_ = true; channel = [] }

abbrev pub registered : Rep → DiscoClient → Outcome Unit
registered (actor_reg true port) c = done tt (record c { channel = port ∷ c.channel })
registered _ c = setup_error c

unfoldable pub register_actor : (Asked → Answer) → DiscoClient → Outcome Unit
unfolding rpc_disco
register_actor disco c =
    then_ (rpc_disco disco (actor_reg c.app_name c.actor_name c.is_device) c) registered

-- reconnect disconnects the socket first, which must not be None.
unfoldable pub reconnect : (Asked → Answer) → DiscoClient → Outcome Unit
unfolding register_actor
reconnect disco c =
    if c.open_ then register_actor disco (record c { channel = [] }) else attribute_error c

abbrev pub host_of : Scope → DiscoClient → Text
host_of global c = c.global_host
host_of local c = c.local_host
host_of internal c = c.local_host

abbrev pub path_of : Bundle → DiscoClient → PortPath
path_of b c = record {
  app_name = c.app_name;
  actor_name = c.actor_name;
  msg_type = b.msg_type;
  kind = b.kind;
  scope = b.scope;
}

abbrev pub client_of : Bundle → DiscoClient → Client
client_of b c = record {
  actor_host = c.global_host;
  actor_name = c.actor_name;
  instance_name = b.part_name;
  port_name = b.port_name;
}

abbrev pub service_registered : Rep → DiscoClient → Outcome Unit
service_registered (service_reg true) c = done tt c
service_registered _ c = setup_error c

unfoldable pub handle_reg_req : (Asked → Answer) → Bundle → DiscoClient → Outcome Unit
unfolding rpc_disco
handle_reg_req disco b c =
    if c.open_
    then then_ (rpc_disco disco (service_reg (path_of b c) (host_of b.scope c) b.port_num) c)
        service_registered
    else done tt c

abbrev pub endpoints : Bundle → List (Text × Text) → List Endpoint
endpoints b [] = []
endpoints b ((host, port) ∷ l) = (b.part_name, b.port_name, host, port) ∷ endpoints b l

abbrev pub looked_up : Bundle → Rep → DiscoClient → Outcome (List Endpoint)
looked_up b (service_lookup true sockets) c = done (endpoints b sockets) c
looked_up b _ c = setup_error c

unfoldable pub handle_lookup_req : (Asked → Answer) → Bundle → DiscoClient → Outcome (List Endpoint)
unfolding rpc_disco
handle_lookup_req disco b c =
    if c.open_
    then then_
        (rpc_disco disco (service_lookup c.app_name b.msg_type b.kind b.scope (client_of b c)) c)
        (looked_up b)
    else done [] c

abbrev pub service_unregistered : Rep → DiscoClient → Outcome Unit
service_unregistered (service_unreg true) c = done tt c
service_unregistered _ c = setup_error c

unfoldable pub handle_unreg_req : (Asked → Answer) → Bundle → DiscoClient → Outcome Unit
unfolding rpc_disco
handle_unreg_req disco b c =
    if c.open_
    then then_ (rpc_disco disco (service_unreg (path_of b c) (host_of b.scope c) b.port_num) c)
        service_unregistered
    else done tt c

abbrev pub service_unlooked : Rep → DiscoClient → Outcome (List Endpoint)
service_unlooked (service_unlookup true) c = done [] c
service_unlooked _ c = setup_error c

unfoldable pub handle_unlookup_req :
    (Asked → Answer) → Bundle → DiscoClient → Outcome (List Endpoint)
unfolding rpc_disco
handle_unlookup_req disco b c =
    if c.open_
    then then_
        (rpc_disco disco (service_unlookup c.app_name b.msg_type b.kind b.scope (client_of b c)) c)
        service_unlooked
    else done [] c

-- What registerEndpoint does with the kind of a port
pub data Role : Type 0 where
  provides asks neither : Role

unfoldable pub role : Kind → Role
role Kind.pub_ = provides
role Kind.srv = provides
role Kind.rep = provides
role Kind.ans = provides
role Kind.sub = asks
role Kind.clt = asks
role Kind.req = asks
role Kind.qry = asks
role Kind.gpub = neither
role Kind.gsub = neither

unfoldable pub register_endpoint : (Asked → Answer) → Bundle → DiscoClient → Outcome (List Endpoint)
unfolding role handle_reg_req handle_lookup_req
register_endpoint disco b c = elim (role b.kind) [
  | provides ↦ then_ (handle_reg_req disco b c) (λ x d. done [] d)
  | asks ↦ handle_lookup_req disco b c
  | neither ↦ setup_error c
]

abbrev without : ℕ → List ℕ → List ℕ
without p [] = []
without p (x ∷ l) = let rest = without p l in if x == p then l else x ∷ rest

abbrev pub unregistered : Outcome Rep → DiscoClient
unregistered (done (actor_unreg true port) c) = record c { channel = without port c.channel }
unregistered (done _ c) = c
unregistered (setup_error c) = c
unregistered (attribute_error c) = c

-- terminate, which ignores every exception. The answer to a request that was interrupted is taken
-- first; if it does not come, the socket is closed.
unfoldable pub terminate : (Asked → Answer) → (comes : Bool) → DiscoClient → DiscoClient
unfolding rpc_disco
terminate disco comes c =
    if c.open_
    then (let d = if c.pending_rpc then (if comes then c else close c) else c in
        unregistered (rpc_disco disco (actor_unreg d.app_name d.actor_name) d))
    else c
