-- ===== src/Actor/Thread/Changes.antt =====
-- What changes the poller of src/riaps/run/comp.py after its set-up: groups that are joined and
-- left, and ports that are reset.
use riaps_pycom.Prelude.{ℕ, ◌≡◌, true, false, Option, none, some, List, [], ◌∷◌, ◌==◌, has_key}
use riaps_pycom.Actor.Port.{Port, in_socket}
use riaps_pycom.Actor.Thread.{Thread, replace_socket, add_group_socket, del_group_socket}

pub data Change : Type 0 where
  joined : (group socket priority : ℕ) → Change
  left : (group socket : ℕ) → Change
  replaced : (name old new : ℕ) → Port → Change

module _ {C : Type 0} where
  abbrev pub change : Change → Thread C → Option (Thread C)
  change (joined g s k) t = some (add_group_socket g s k t)
  change (left g s) t = del_group_socket g s t
  change (replaced name old new p) t = replace_socket name old new p t

  -- A socket that is neither the control socket nor that of a port or a group.
  abbrev pub IsNew : ℕ → Thread C → Type 0
  IsNew s t =
      ((t.control == s) ≡ false)
      × (has_key s t.sock2port ≡ false)
      × (has_key s t.sock2group ≡ false)

  -- New sockets are new, a group that is left has its socket and its name in the maps, and a port
  -- that is reset has its old socket in them.
  abbrev pub IsLegal : Change → Thread C → Type 0
  IsLegal (joined g s k) t = IsNew s t
  IsLegal (left g s) t =
      ((t.control == s) ≡ false) × (has_key s t.sock2group ≡ true) × (has_key g t.name2group ≡ true)
  IsLegal (replaced name old new p) t =
      (has_key old t.sock2port ≡ true) × (in_socket p.kind ≡ has_key old t.sock2name) × IsNew new t

  -- Each change is legal for the thread as the changes before it left it.
  abbrev pub AllLegal : List Change → Thread C → Type 0
  AllLegal [] t = Unit
  AllLegal (c ∷ l) t =
      IsLegal c t × elim (change c t) as (λ o. Type 0) [ none ↦ Unit {0} | some u ↦ AllLegal l u ]

  unfoldable pub changes : List Change → Thread C → Option (Thread C)
  changes [] t = some t
  changes (c ∷ l) t = elim (change c t) [ none ↦ none | some u ↦ changes l u ]
