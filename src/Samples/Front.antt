-- ===== src/Samples/Front.antt =====
-- The component's side of the group of three (src/riaps/run/dc.py).
use riaps_pycom.Prelude.{
  ◌+◌, ◌≡◌, refl, Bool, true, none, some, List, [], ◌∷◌, ◌++◌, length, map, Text, codes, has_text,
  find, erase, text_eq,
}
use riaps_pycom.Coord.Message.{Note}
use riaps_pycom.Coord.Thread.{is_leader}
use riaps_pycom.Coord.Group.{Group, Result, send, send_to_leader, request_vote}
use riaps_pycom.Coord.Group.Receiving.{payloads, handle_all, receive, received_in_order}
use riaps_pycom.Coord.Group.Exchange.{answers, connected_send_succeeds}
use riaps_pycom.Coord.Coordinator.{
  Coordinator, group_name, join_group, get_group, leave_group, join_group-leave_group,
}
use riaps_pycom.Samples.Group.{request, served}

abbrev front : Group
front = record {
  coordinated = true;
  identity = none;
  msg_queue = (1 ∷ []) ∷ [];
  calls = [];
  sent = [];
}

abbrev arriving : List Note
arriving = Note.mjd 4 ∷ Note.msg (2 ∷ []) ∷ Note.mfl (3 ∷ []) ∷ []

received_in_order_example :
    receive (length (front.msg_queue ++ payloads arriving)) (handle_all arriving front) ≡ (
      map (λ m. some m) (front.msg_queue ++ payloads arriving),
      record (handle_all arriving front) { msg_queue = [] },
    )
received_in_order_example = received_in_order arriving front

connected_send_succeeds_example :
    let thread = answers none 7000000 served in
    ((send thread (72 ∷ []) front).0 ≡ Result.done true)
    × ((send_to_leader thread (some 2) (72 ∷ []) front).0 ≡ Result.done true)
    × ((request_vote thread (some 2) request front).0 ≡ some 9)
connected_send_succeeds_example =
    connected_send_succeeds 7000000 2 (72 ∷ []) request served front (20, 5000) refl refl
      (unfold is_leader in refl) refl

abbrev nothing_joined : Coordinator
nothing_joined = record { group_types = codes "Cluster" ∷ []; group_members = []; next = 0 }

abbrev any_name : Text → Bool
any_name name = true

join_group-leave_group_example :
    let (group, c1) = join_group any_name (codes "Cluster") (codes "a") nothing_joined in
    let c2 = record c1 {
      group_members = erase (group_name (codes "Cluster") (codes "a")) c1.group_members;
    } in
    (group ≡ some 0)
    × (get_group (codes "Cluster") (codes "a") c1 ≡ group)
    × (join_group any_name (codes "Cluster") (codes "a") c1 ≡ (group, c1))
    × (leave_group (group_name (codes "Cluster") (codes "a")) c1 ≡ some c2)
    × (get_group (codes "Cluster") (codes "a") c2 ≡ none)
    × ((join_group any_name (codes "Cluster") (codes "a") c2).0 ≡ some (0 + 1))
join_group-leave_group_example =
    join_group-leave_group any_name (codes "Cluster") (codes "a") nothing_joined refl
      (unfold has_text text_eq in refl) (unfold find in refl)
