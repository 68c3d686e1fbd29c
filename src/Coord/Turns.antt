-- ===== src/Coord/Turns.antt =====
-- A proof rule for the loop of GroupThread.run (src/riaps/run/dc.py): what keeps a property over
-- all turns.
use riaps_pycom.Prelude.{ℕ, ◌≡◌, refl, Option, none, some, List, [], ◌∷◌, All, if_either}
use riaps_pycom.Coord.Message.{Cmd, Net, ForLeader, ForMember}
use riaps_pycom.Coord.Thread.{Thread, heartbeat, update_peers}
use riaps_pycom.Coord.Timeout.{handle_timeout}
use riaps_pycom.Coord.Net.{handle_net_message}
use riaps_pycom.Coord.Loop.{
  Turn, on_group, on_sub, on_ans, on_qry, is_timeout, stopped, dispatch, turn, run,
}
use riaps_pycom.Coord.Stable.{
  IsStable, Keeps, bind-Keeps, handle_comp_message-Keeps, handle_message_for_leader-Keeps,
  handle_message_for_member-Keeps,
}

-- What to show of a property `P` and of the turns `Q` that the environment takes.
pub record Rule (P : Thread → Type 0) (Q : Turn → Type 0) : Type 0 where
  pub stable : IsStable P
  pub polled : (now : ℕ) {t : Thread} → P t → P (update_peers now (heartbeat now t))
  pub timeout : (e : Turn) {t : Thread} → Q e → P t → Keeps P (handle_timeout e.now e.draw t)
  pub net :
      (e : Turn) (m : Net) {t : Thread}
      → Q e
      → e.sub ≡ some m
      → P t
      → Keeps P (handle_net_message e.now e.draw m t)

module _ {P : Thread → Type 0} {Q : Turn → Type 0} (rule : Rule P Q) where
  open rule use {stable, polled, timeout, net}

  on_group-Keeps : (e : Turn) (m : Option Cmd) {t : Thread} → P t → Keeps P (on_group e m t)
  on_group-Keeps e none c = record { kept = c }
  on_group-Keeps e (some m) c = handle_comp_message-Keeps stable e.fault e.draw.clock m c

  on_sub-Keeps :
      (e : Turn) (m : Option Net) {t : Thread} → Q e → e.sub ≡ m → P t → Keeps P (on_sub e m t)
  on_sub-Keeps e none q h c = record { kept = c }
  on_sub-Keeps e (some m) q h c = net e m q h c

  on_ans-Keeps :
      (e : Turn) (m : Option (List ℕ × ForLeader)) {t : Thread} → P t → Keeps P (on_ans e m t)
  on_ans-Keeps e none c = record { kept = c }
  on_ans-Keeps e (some (identity, m)) c =
      handle_message_for_leader-Keeps stable e.fault e.draw.clock identity m c

  on_qry-Keeps : (m : Option ForMember) {t : Thread} → P t → Keeps P (on_qry m t)
  on_qry-Keeps none c = record { kept = c }
  on_qry-Keeps (some m) c = record { kept = handle_message_for_member-Keeps stable m c }

  dispatch-Keeps : (e : Turn) {t : Thread} → Q e → P t → Keeps P (dispatch e t)
  unfolding dispatch
  dispatch-Keeps e q c =
      bind-Keeps stable _ _
        (bind-Keeps stable _ _
          (bind-Keeps stable _ _ (on_group-Keeps e e.group c)
            (λ t1 k. on_sub-Keeps e e.sub q refl k))
          (λ t1 k. on_ans-Keeps e e.ans k))
        (λ t1 k. on_qry-Keeps e.qry k)

  pub turn-Keeps : (e : Turn) {t : Thread} → Q e → P t → Keeps P (turn e t)
  unfolding turn
  turn-Keeps e q c =
      let c1 = polled e.now c in
      if_either (Keeps P) (is_timeout e) _ _ (timeout e q c1) (dispatch-Keeps e q c1)

  pub run-Keeps : (turns : List Turn) {t : Thread} → All Q turns → P t → Keeps P (run turns t)
  unfolding run
  run-Keeps [] q c = record { kept = c }
  run-Keeps (e ∷ turns) {t} q c = bind-Keeps stable (turn e t) _ (turn-Keeps e q.0 c) (λ t1 k.
      if_either (Keeps P) (stopped e.group) _ _ (record { kept = k }) (run-Keeps turns q.1 k))
