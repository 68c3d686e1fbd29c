-- ===== src/Disco/Client/Groups.antt =====
-- src/riaps/run/disco.py: the groups that the parts of an actor join and leave.
use riaps_pycom.Prelude.{List, ◌∷◌, ◌++◌, Text, codes}
use riaps_pycom.Disco.Keys.{Kind, global, dot}
use riaps_pycom.Disco.Client.{
  Asked, Answer, DiscoClient, Bundle, Endpoint, Outcome, done, then_, handle_reg_req,
  handle_lookup_req, handle_unreg_req, handle_unlookup_req,
}

-- What a part reports of a group
pub record GroupBundle : Type 0 where
  pub group_type : Text
  pub group_name : Text
  pub message_type : Text
  pub pub_port : Text
  pub part_name : Text
  pub port_name : Text

abbrev pub group_endpoint : GroupBundle → Kind → (port_num : Text) → Bundle
group_endpoint g kind port_num = record {
  part_name = g.part_name;
  kind = kind;
  scope = global;
  port_name = g.port_name;
  msg_type = g.message_type ++ b'@' ∷ (g.group_type ++ dot ∷ g.group_name);
  port_num = port_num;
}

-- The lookup comes first; `disco1` and `disco2` are the service at the two requests.
unfoldable pub register_group :
    (disco1 disco2 : Asked → Answer) → GroupBundle → DiscoClient → Outcome (List Endpoint)
unfolding handle_reg_req handle_lookup_req
register_group disco1 disco2 g c =
    then_ (handle_lookup_req disco1 (group_endpoint g Kind.gsub (codes "0")) c) (λ l d.
      then_ (handle_reg_req disco2 (group_endpoint g Kind.gpub g.pub_port) d) (λ x e. done l e))

unfoldable pub unregister_group :
    (disco1 disco2 : Asked → Answer) → GroupBundle → DiscoClient → Outcome (List Endpoint)
unfolding handle_unreg_req handle_unlookup_req
unregister_group disco1 disco2 g c =
    then_ (handle_unlookup_req disco1 (group_endpoint g Kind.gsub (codes "0")) c) (λ l d.
      then_ (handle_unreg_req disco2 (group_endpoint g Kind.gpub g.pub_port) d) (λ x e. done l e))
