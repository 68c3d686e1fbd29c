-- ===== src/Samples/Actor/Threads.antt =====
-- The thread of the component of three ports: its poller, its loop and its ports.
use riaps_pycom.Prelude.{
  ℕ, ◌≡◌, inr, lookup, refl, true, false, Option, none, some, List, [], ◌∷◌, if◌then◌else◌, arith,
  has_key, contains, insert,
}
use riaps_pycom.Actor.Port.{Port, sub_port, qry_port, ans_port, Address, connects, has_address}
use riaps_pycom.Actor.Port.Connections.{
  told, was_reset, happens, occurrences, was_told, IsConnected, one_if, happens-IsConnected,
}
use riaps_pycom.Actor.Port.Frames.{
  Codec, object, bytes, Frame, IsLossless, port_send, port_recv, ans_port_send, ans_port_recv, sent,
  received, answer, stamped, answer-reaches-asker,
}
use riaps_pycom.Actor.Thread.{Thread, App, activate, kill, setup_poller, poll_ports, poll_port}
use riaps_pycom.Actor.Thread.Sound.{accepts}
use riaps_pycom.Actor.Thread.Serving.{IsServable}
use riaps_pycom.Actor.Thread.Poller.{are_apart}
use riaps_pycom.Actor.Thread.Changes.{Change, joined, left}
use riaps_pycom.Actor.Scheduler.{Polled}
use riaps_pycom.Actor.Run.{run, default, stopped}
use riaps_pycom.Actor.Run.Batch.{is_killed, until_kill, batch_run}
use riaps_pycom.Samples.Actor.{port, counts, app, app-IsTame, thread}

abbrev fresh : Port
fresh = port 10 sub_port (some 0) (some 2)

abbrev here : Address
here = (192, 5555)

happens-IsConnected_example :
    (q : Port) × (happens (told here ∷ was_reset 9 ∷ told here ∷ []) fresh ≡ some q)
    × IsConnected q
    × ((a : Address)
        → occurrences a q.links
          ≡ one_if (
              if was_told a (told here ∷ was_reset 9 ∷ told here ∷ [])
              then true
              else has_address a fresh.servers))
happens-IsConnected_example =
    happens-IsConnected (told here ∷ was_reset 9 ∷ told here ∷ []) fresh
      (unfold connects occurrences has_address in (refl, λ a. refl, λ a. refl))

-- An object is a frame, and stands for itself; a time is a frame of one number.
abbrev time_of : Frame → Option ℕ
time_of [] = none
time_of (t ∷ l) = some t

abbrev codec : Codec Frame
codec = record { dumps = λ o. o; loads = λ f. some f; pack = λ t. t ∷ []; unpack = time_of }

codec-IsLossless : IsLossless codec
codec-IsLossless = record { loads-dumps = λ o. refl; unpack-pack = λ t. refl }

abbrev asker : Port
asker = record (port 20 qry_port (some 0) (some 6)) { is_timed = true }

abbrev server : Port
server = port 21 ans_port (some 0) (some 7)

answer-reaches-asker_example :
    (queried answered : List Frame) × (port_send codec none 1 (object (7 ∷ [])) asker
      ≡ sent queried)
    × (answer codec
          (ans_port_recv codec 2 true ((5 ∷ []) ∷ queried) server)
          (ans_port_send codec none 3 (bytes (8 ∷ [])))
        ≡ sent ((5 ∷ []) ∷ answered))
    × (port_recv codec 4 false answered asker
        ≡ received (bytes (8 ∷ [])) (stamped codec false 3 4 asker))
answer-reaches-asker_example =
    answer-reaches-asker codec codec-IsLossless (object (7 ∷ [])) (bytes (8 ∷ [])) (5 ∷ []) 1 2 3 4
      asker server

-- The component joins group 30, and leaves it.
abbrev joins_and_leaves : List Change
joins_and_leaves = joined 30 8 2 ∷ left 30 8 ∷ []

-- A subscriber's message, and then the end
abbrev two_polls : List Polled
two_polls =
    record { command = some activate; sockets = 2 ∷ 3 ∷ [] }
    ∷ record { command = some kill; sockets = [] }
    ∷ []

served_by :
    (s n : ℕ)
    → lookup s (setup_poller thread).sock2name ≡ some n
    → has_key n thread.ports ≡ true
    → IsServable (setup_poller thread) s
unfolding setup_poller poll_ports poll_port
served_by s n e h = inr (n, e, h)

batch_run_example :
    (v : Thread ℕ) × (run app 3 default two_polls thread ≡ stopped v) × (v.served ≡ 3 ∷ 2 ∷ [])
batch_run_example =
    unfold is_killed until_kill in
    batch_run app 3 two_polls thread (unfold are_apart contains in refl)
      (app-IsTame (setup_poller thread))
      (
        (
          unfold accepts in refl,
          (
            served_by 2 10 (unfold lookup insert setup_poller poll_ports poll_port in refl)
                (unfold has_key in refl),
            (
              served_by 3 11 (unfold lookup insert setup_poller poll_ports poll_port in refl)
                  (unfold has_key in refl),
              tt,
            ),
          ),
        ),
        ((unfold accepts in refl, tt), tt),
      )
      (omega arith)

-- A component whose handlers of commands raise exceptions
abbrev raising : App ℕ
raising = record app { on_event = λ e c. record (counts c) { returned = false } }
