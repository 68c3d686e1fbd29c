-- ===== src/Coord/Coordinator.antt =====
-- The class Coordinator of src/riaps/run/dc.py: the groups of a component, by their names. A group
-- object is a number, a new one each time that a group is created.
use riaps_pycom.Prelude.{
  ℕ, ◌+◌, ◌≡◌, refl, Bool, true, ◌&&◌, Option, none, some, List, [], ◌∷◌, ◌++◌, Text, text_eq_refl,
  has_text, Lacks, Table, find, assign, erase, find-assign, find-erase, if◌then◌else◌, arith,
}

abbrev dot : ℕ
dot = b'.'

pub record Coordinator : Type 0 where
  pub group_types : List Text
  pub group_members : Table ℕ
  pub next : ℕ

-- Coordinator.groupName, the name that the group object has too
unfoldable pub group_name : (group_type group_instance : Text) → Text
group_name group_type group_instance = group_type ++ dot ∷ group_instance

-- joinGroup. `isidentifier` is Python's method of texts.
abbrev member_or_new : Text → Option ℕ → Coordinator → Option ℕ × Coordinator
member_or_new key (some group) c = (some group, c)
member_or_new key none c =
    (some c.next, record c { group_members = assign key c.next c.group_members; next = c.next + 1 })

unfoldable pub join_group :
    (isidentifier : Text → Bool)
    → (group_type group_instance : Text) → Coordinator
    → Option ℕ × Coordinator
unfolding group_name
join_group isidentifier group_type group_instance c =
    if isidentifier group_instance && has_text group_type c.group_types
    then (let key = group_name group_type group_instance in
        member_or_new key (find key c.group_members) c)
    else (none, c)

-- getGroup
unfoldable pub get_group : (group_type group_instance : Text) → Coordinator → Option ℕ
unfolding group_name
get_group group_type group_instance c = find (group_name group_type group_instance) c.group_members

-- leaveGroup, of a group with this name; `none` is the KeyError of `del`
unfoldable pub leave_group : (name : Text) → Coordinator → Option Coordinator
leave_group name c = elim (find name c.group_members) [
  | none ↦ none
  | some group ↦ some (record c { group_members = erase name c.group_members })
]

Lacks-no_dot : (a b : Text) → Lacks dot (a ++ dot ∷ b) → ⊥
Lacks-no_dot [] b l = ground arith
Lacks-no_dot (x ∷ a) b l = Lacks-no_dot a b l.1

-- Two groups have the same name only if their types and their instances are the same, for
-- instances without a dot, as identifiers are.
pub group_name_injective :
    (t s i j : Text)
    → Lacks dot i
    → Lacks dot j
    → group_name t i ≡ group_name s j
    → (t ≡ s) × (i ≡ j)
unfolding group_name
group_name_injective [] [] i j li lj h = (refl, cc)
group_name_injective [] (y ∷ s) i j li lj h = absurd (Lacks-no_dot s j (ground (arith, li)))
group_name_injective (x ∷ t) [] i j li lj h = absurd (Lacks-no_dot t i (ground (arith, lj)))
group_name_injective (x ∷ t) (y ∷ s) i j li lj h =
    ground (arith, group_name_injective t s i j li lj)

module _ (isidentifier : Text → Bool) (t i : Text) (c : Coordinator) where
  -- A component that joins a group of a known type under a valid name has the group from then
  -- on; joining again returns the same object and changes nothing; leaving removes it, and
  -- joining after that creates another object.
  pub join_group-leave_group :
      isidentifier i ≡ true
      → has_text t c.group_types ≡ true
      → find (group_name t i) c.group_members ≡ none
      → let (group, c1) = join_group isidentifier t i c in
        let c2 = record c1 { group_members = erase (group_name t i) c1.group_members } in
        (group ≡ some c.next)
        × (get_group t i c1 ≡ group)
        × (join_group isidentifier t i c1 ≡ (group, c1))
        × (leave_group (group_name t i) c1 ≡ some c2)
        × (get_group t i c2 ≡ none)
        × ((join_group isidentifier t i c2).0 ≡ some (c.next + 1))
  unfolding join_group get_group leave_group group_name
  join_group-leave_group v k n =
      let key = group_name t i in
      let found = find-assign key key c.next c.group_members in
      let gone = find-erase key key (assign key c.next c.group_members) in
      let same_key = text_eq_refl key in
      (
        ground arith,
        ground (arith, found, same_key),
        ground (arith, found, same_key),
        ground (arith, found, same_key),
        ground (arith, gone, same_key),
        ground (arith, gone, same_key),
      )
