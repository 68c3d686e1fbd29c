-- ===== src/Disco/Keys.antt =====
-- The keys, values and client texts of src/riaps/discd/discs.py. A port number is the text that
-- `str` makes of it; the service prints it and reads it back.
pub mod Meeting
use riaps_pycom.Prelude.{
  ℕ, ◌≡◌, Bool, true, false, Option, none, some, List, [], ◌∷◌, ◌++◌, Text, codes, split, has_text,
  if◌then◌else◌,
}

abbrev pub slash : ℕ
slash = b'/'

abbrev pub colon : ℕ
colon = b':'

abbrev pub dot : ℕ
dot = b'.'

-- The kinds of ports, without `pub`'s clash with a word of the language.
pub data Kind : Type 0 where
  pub_ sub clt srv req rep qry ans gpub gsub : Kind

pub data Scope : Type 0 where
  global local internal : Scope

unfoldable pub kind_text : Kind → Text
kind_text pub_ = codes "pub"
kind_text sub = codes "sub"
kind_text clt = codes "clt"
kind_text srv = codes "srv"
kind_text req = codes "req"
kind_text rep = codes "rep"
kind_text qry = codes "qry"
kind_text ans = codes "ans"
kind_text gpub = codes "gpub"
kind_text gsub = codes "gsub"

-- kindMap; a kind that it lacks is a KeyError
unfoldable pub provider : Kind → Option Kind
provider sub = some pub_
provider clt = some srv
provider req = some rep
provider rep = some req
provider qry = some ans
provider gsub = some gpub
provider _ = none

-- Where the service runs, and the client keys of the local devices.
pub record Site : Type 0 where
  pub mac_address : Text
  pub host_address : Text
  pub devices : List Text

abbrev pub base_key : (app actor : Text) → Text
base_key app actor = slash ∷ (app ++ slash ∷ (actor ++ slash ∷ []))

abbrev pub actor_key : (app actor : Text) → Text
actor_key app actor = app ++ slash ∷ actor

unfoldable pub is_device_name : Site → (app actor : Text) → Bool
is_device_name site app actor = has_text (base_key app actor) site.devices

-- `actorName,_rest = name.split('.')`: a ValueError unless there are two pieces
abbrev pub before_dot : List Text → Option Text
before_dot (actor ∷ rest ∷ []) = some actor
before_dot _ = none

unfoldable pub owner : Site → (app actor : Text) → Option Text
unfolding is_device_name
owner site app actor =
    if is_device_name site app actor then before_dot (split dot actor) else some actor

-- What the scope adds to a key or to a client. `owner` is evaluated for internal ports only.
abbrev pub suffix : Site → Scope → Option Text → Option Text
suffix site global actor = some []
suffix site local actor = some (colon ∷ site.mac_address)
suffix site internal none = none
suffix site internal (some actor) = some (colon ∷ (site.mac_address ++ colon ∷ actor))

abbrev pub append_suffix : Text → Option Text → Option Text
append_suffix key none = none
append_suffix key (some s) = some (key ++ s)

abbrev pub service_key : (app msg_type : Text) → Kind → Text
service_key app msg_type kind = slash ∷ (app ++ slash ∷ (msg_type ++ slash ∷ kind_text kind))

unfoldable pub build_insert_key : Site → (app actor msg_type : Text) → Kind → Scope → Option Text
unfolding owner
build_insert_key site app actor msg_type kind scope =
    append_suffix (service_key app msg_type kind) (suffix site scope (owner site app actor))

unfoldable pub build_value : (host port : Text) → Text
build_value host port = host ++ colon ∷ port

-- buildInsertKeyValuePair
unfoldable pub build_insert_key_value_pair :
    Site → (app actor msg_type : Text) → Kind → Scope → (host port : Text) → Option (Text × Text)
unfolding build_insert_key build_value
build_insert_key_value_pair site app actor msg_type kind scope host port =
    elim (build_insert_key site app actor msg_type kind scope) [
      | none ↦ none
      | some key ↦ some (key, build_value host port)
    ]

pub record Client : Type 0 where
  pub actor_host : Text
  pub actor_name : Text
  pub instance_name : Text
  pub port_name : Text

-- The suffix of a client names the actor as it is, device or not.
unfoldable pub client_text : Site → Text → Scope → Client → Text
client_text site app scope c =
    let base =
      slash
      ∷ (app
          ++ slash
            ∷ (c.actor_name
                ++ slash ∷ (c.actor_host ++ slash ∷ (c.instance_name ++ slash ∷ c.port_name)))) in
    elim scope [
      | global ↦ base
      | local ↦ base ++ colon ∷ site.mac_address
      | internal ↦ base ++ colon ∷ (site.mac_address ++ colon ∷ c.actor_name)
    ]

-- The key that a lookup asks for: under the provider's kind, with the scope's suffix.
unfoldable pub build_lookup_key_only :
    Site → (app msg_type : Text) → Kind → Scope → (actor : Text) → Option Text
unfolding provider owner
build_lookup_key_only site app msg_type kind scope actor = elim (provider kind) [
  | none ↦ none
  | some offered ↦
      let key = slash ∷ (app ++ slash ∷ (msg_type ++ slash ∷ kind_text offered)) in
      elim scope [
        | global ↦ some key
        | local ↦ some (key ++ colon ∷ site.mac_address)
        | internal ↦ elim (owner site app actor) [
          | none ↦ none
          | some name ↦ some (key ++ colon ∷ (site.mac_address ++ colon ∷ name))
        ]
      ]
]

-- buildLookupKey
unfoldable pub build_lookup_key :
    Site → (app msg_type : Text) → Kind → Scope → Client → Option (Text × Text)
unfolding build_lookup_key_only client_text
build_lookup_key site app msg_type kind scope c =
    elim (build_lookup_key_only site app msg_type kind scope c.actor_name) [
      | none ↦ none
      | some key ↦ some (key, client_text site app scope c)
    ]
