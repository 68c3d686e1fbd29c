-- ===== src/Coord/Group/Receiving.antt =====
-- The class Group of src/riaps/run/dc.py: its parameters, and the messages that the component
-- receives.
use riaps_pycom.Prelude.{
  append_assoc, append-nil, ℕ, zero, suc, length, map, All, ◌≡◌, refl, ap, ◌∙◌, sym, true, false,
  Option, some, List, [], ◌∷◌, ◌++◌, arith,
}
use riaps_pycom.Coord.Message.{Note, GroupVote}
use riaps_pycom.Coord.Group.{Group, handle_message, await_reply, Result, recv}

-- The payload of a data message; the other notes have none.
unfoldable pub payload_of : Note → List (List ℕ)
payload_of (Note.msg m) = m ∷ []
payload_of (Note.mtl m identity) = m ∷ []
payload_of (Note.mfl m) = m ∷ []
payload_of (Note.rcm (GroupVote.rfv r)) = r.topic ∷ []
payload_of _ = []

unfoldable pub payloads : List Note → List (List ℕ)
unfolding payload_of
payloads [] = []
payloads (note ∷ notes) = payload_of note ++ payloads notes

unfoldable pub handle_all : List Note → Group → Group
handle_all [] g = g
handle_all (note ∷ notes) g = handle_all notes (handle_message note g)

-- So many messages received one after the other.
unfoldable pub receive : ℕ → Group → List (Option (List ℕ)) × Group
receive zero g = ([], g)
receive (suc n) g = let (got, g1) = recv g in let (rest, g2) = receive n g1 in (got ∷ rest, g2)

msg_queue-handle_message :
    (note : Note) (g : Group) → (handle_message note g).msg_queue ≡ g.msg_queue ++ payload_of note
unfolding handle_message payload_of
msg_queue-handle_message (Note.msg m) g = refl
msg_queue-handle_message (Note.mtl m identity) g = refl
msg_queue-handle_message (Note.mfl m) g = refl
msg_queue-handle_message (Note.rcm (GroupVote.rfv r)) g = refl
msg_queue-handle_message (Note.rcm (GroupVote.rtc rfv_id vote)) g = sym (append-nil g.msg_queue)
msg_queue-handle_message (Note.rcm (GroupVote.ann rfv_id vote)) g = sym (append-nil g.msg_queue)
msg_queue-handle_message (Note.ann (GroupVote.ann rfv_id vote)) g = sym (append-nil g.msg_queue)
msg_queue-handle_message (Note.ann (GroupVote.rfv r)) g = sym (append-nil g.msg_queue)
msg_queue-handle_message (Note.ann (GroupVote.rtc rfv_id vote)) g = sym (append-nil g.msg_queue)
msg_queue-handle_message note g = sym (append-nil g.msg_queue)

msg_queue-handle_all :
    (notes : List Note) (g : Group) → (handle_all notes g).msg_queue ≡ g.msg_queue ++ payloads notes
unfolding handle_all payloads
msg_queue-handle_all [] g = sym (append-nil g.msg_queue)
msg_queue-handle_all (note ∷ notes) g =
    msg_queue-handle_all notes (handle_message note g)
    ∙ ap (λ (q : List (List ℕ)). q ++ payloads notes) (msg_queue-handle_message note g)
    ∙ append_assoc g.msg_queue (payload_of note) (payloads notes)

receive_lem :
    (queue : List (List ℕ)) (g : Group)
    → g.msg_queue ≡ queue
    → receive (length queue) g ≡ (map (λ m. some m) queue, record g { msg_queue = [] })
unfolding receive recv
receive_lem [] g h = ground (arith, h)
receive_lem (m ∷ queue) g h = ground (arith, h, receive_lem queue (record g { msg_queue = queue }))

-- The component receives the data messages of the thread in the order in which they came, each
-- once, behind those that were in the queue, whatever other notes come between them; then the
-- queue is empty.
pub received_in_order :
    (notes : List Note) (g : Group)
    → let expected = g.msg_queue ++ payloads notes in
      receive (length expected) (handle_all notes g)
      ≡ (map (λ m. some m) expected, record (handle_all notes g) { msg_queue = [] })
received_in_order notes g =
    receive_lem (g.msg_queue ++ payloads notes) (handle_all notes g) (msg_queue-handle_all notes g)

-- The notes that send_port waits for.
abbrev pub IsMessage : Note → Type 0
IsMessage Note.ack = ⊥
IsMessage Note.nld = ⊥
IsMessage (Note.err errno) = ⊥
IsMessage _ = Unit

-- A call that waits for its reply handles the messages that come first, each once and in order,
-- and then returns true for an acknowledgement and false where there is no leader. Without a
-- reply it does not return.
pub await_reply-handles :
    (notes later : List Note) (g : Group)
    → All IsMessage notes
    → (await_reply (notes ++ Note.ack ∷ later) g ≡ (Result.done true, handle_all notes g))
      × (await_reply (notes ++ Note.nld ∷ later) g ≡ (Result.done false, handle_all notes g))
      × (await_reply notes g ≡ (Result.blocked, handle_all notes g))
unfolding await_reply handle_all
await_reply-handles [] later g h = (refl, refl, refl)
await_reply-handles (Note.ack ∷ notes) later g h = absurd h.0
await_reply-handles (Note.nld ∷ notes) later g h = absurd h.0
await_reply-handles (Note.err errno ∷ notes) later g h = absurd h.0
await_reply-handles (note ∷ notes) later g h =
    await_reply-handles notes later (handle_message note g) h.1
