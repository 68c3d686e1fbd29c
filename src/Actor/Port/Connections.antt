-- ===== src/Actor/Port/Connections.antt =====
-- The connections of the ports of src/riaps/run/port.py against the providers they were told.
use riaps_pycom.Prelude.{
  ℕ, suc, ◌+◌, ◌≡◌, refl, ◌∙◌, Bool, true, false, Option, none, some, List, [], ◌∷◌, inl, inr,
  Bool-cases, if◌then◌else◌, ◌==◌, ◌&&◌, arith,
}
use riaps_pycom.Actor.Port.{
  Address, Port, Called, done, operation_error, connects, has_address, update, connect_all, reset,
}

-- What happens to a port that connects: discovery tells it of a provider, or it is reset and gets
-- a new socket.
pub data Event : Type 0 where
  told : Address → Event
  was_reset : (new_socket : ℕ) → Event

abbrev after_call : Called → Option Port
after_call (done p) = some p
after_call operation_error = none

abbrev happen : Event → Port → Option Port
happen (told a) p = after_call (update a p)
happen (was_reset s) p = some (reset s p)

-- `none` when an event raised an exception
unfoldable pub happens : List Event → Port → Option Port
happens [] p = some p
happens (e ∷ l) p = elim (happen e p) [ none ↦ none | some q ↦ happens l q ]

unfoldable pub was_told : Address → List Event → Bool
was_told a [] = false
was_told a (told b ∷ l) = let rest = was_told a l in if has_address a (b ∷ []) then true else rest
was_told a (was_reset s ∷ l) = was_told a l

-- How often an address stands in a list.
unfoldable pub occurrences : Address → List Address → ℕ
occurrences a [] = 0
occurrences (h, n) ((k, m) ∷ l) =
    let rest = occurrences (h, n) l in if (k == h) && (m == n) then suc rest else rest

abbrev pub one_if : Bool → ℕ
one_if true = 1
one_if false = 0

-- A port that connects, whose socket has each server once.
abbrev pub IsConnected : Port → Type 0
IsConnected p =
    (connects p.kind ≡ true)
    × ((a : Address) → occurrences a p.servers ≡ one_if (has_address a p.servers))
    × ((a : Address) → occurrences a p.links ≡ occurrences a p.servers)

occurrences-connect_all :
    (a : Address) (l m : List Address)
    → occurrences a (connect_all l m) ≡ occurrences a l + occurrences a m
unfolding occurrences connect_all
occurrences-connect_all a [] m = omega arith
occurrences-connect_all (h, n) ((k, j) ∷ l) m =
    ground (arith, occurrences-connect_all (h, n) l ((k, j) ∷ m))

has-update :
    (a b : Address) (l : List Address)
    → has_address a (b ∷ l) ≡ (if has_address a (b ∷ []) then true else has_address a l)
unfolding has_address
has-update (h, n) (k, m) l = ground arith

occurs-cons :
    (a b : Address) (l : List Address)
    → occurrences a (b ∷ l) ≡ one_if (has_address a (b ∷ [])) + occurrences a l
unfolding has_address occurrences
occurs-cons (h, n) (k, m) l = ground arith

absent :
    (a b : Address) (l : List Address)
    → has_address a (b ∷ []) ≡ true
    → has_address b l ≡ false
    → has_address a l ≡ false
unfolding has_address
absent (h, n) (k, m) [] e f = refl
absent (h, n) (k, m) ((i, j) ∷ l) e f = ground (arith, absent (h, n) (k, m) l)

told_IsConnected :
    (b : Address) (p : Port)
    → has_address b p.servers ≡ false
    → IsConnected p
    → IsConnected (record p { servers = b ∷ p.servers; links = b ∷ p.links })
told_IsConnected b p f c = (
  c.0,
  λ a.
      ground
        (arith, c.1 a, occurs-cons a b p.servers, has-update a b p.servers, absent a b p.servers),
  λ a. ground (arith, c.2 a, occurs-cons a b p.servers, occurs-cons a b p.links),
)

reset-IsConnected : (s : ℕ) (p : Port) → IsConnected p → IsConnected (reset s p)
unfolding reset
reset-IsConnected s p c =
    rw c.0 (
      c.0,
      c.1,
      λ a. rw (occurrences-connect_all a p.servers []) (unfold occurrences in omega arith),
    )

reset_servers : (s : ℕ) (p : Port) → (reset s p).servers ≡ p.servers
unfolding reset
reset_servers s p = ground arith

present :
    (a b : Address) (l : List Address)
    → has_address a (b ∷ []) ≡ true
    → has_address b l ≡ true
    → has_address a l ≡ true
unfolding has_address
present (h, n) (k, m) [] e f = cc
present (h, n) (k, m) ((i, j) ∷ l) e f = ground (arith, present (h, n) (k, m) l)

-- The port after an update.
abbrev updated : Address → Port → Port
updated b p =
    if has_address b p.servers then p else record p { servers = b ∷ p.servers; links = b ∷ p.links }

happens-told :
    (b : Address) (l : List Event) (p : Port)
    → connects p.kind ≡ true
    → happens (told b ∷ l) p ≡ happens l (updated b p)
unfolding happens update
happens-told b l p c = ground arith

updated-IsConnected : (b : Address) (p : Port) → IsConnected p → IsConnected (updated b p)
updated-IsConnected b p c = elim (Bool-cases (has_address b p.servers)) [
  | inl e ↦ rw e c
  | inr e ↦ rw e (told_IsConnected b p e c)
]

updated_servers :
    (a b : Address) (p : Port)
    → has_address a (updated b p).servers
      ≡ (if has_address a (b ∷ []) then true else has_address a p.servers)
updated_servers a b p = ground (arith, has-update a b p.servers, present a b p.servers)

abbrev Keeps : List Event → Port → Type 0
Keeps l p =
    (q : Port) × (happens l p ≡ some q)
    × IsConnected q
    × ((a : Address)
        → occurrences a q.links ≡ one_if (if was_told a l then true else has_address a p.servers))

-- Whatever updates and resets come, in whatever order, none raises, and the socket that the port
-- has then is connected once to each provider that the port was told of, and to no other but those
-- it had before.
pub happens-IsConnected :
    (l : List Event) (p : Port)
    → IsConnected p
    → (q : Port) × (happens l p ≡ some q)
      × IsConnected q
      × ((a : Address)
          → occurrences a q.links ≡ one_if (if was_told a l then true else has_address a p.servers))
unfolding happens was_told
happens-IsConnected [] p c = (p, refl, c, λ a. c.2 a ∙ c.1 a)
happens-IsConnected (was_reset s ∷ l) p c =
    let (q, e, k, o) = happens-IsConnected l (reset s p) (reset-IsConnected s p c) in
    (q, e, k, λ a. rw (o a, reset_servers s p) refl)
happens-IsConnected (told b ∷ l) p c =
    let (q, e, k, o) = happens-IsConnected l (updated b p) (updated-IsConnected b p c) in
    (q, happens-told b l p c.0 ∙ e, k, λ a. rw (o a, updated_servers a b p) (ground arith))
