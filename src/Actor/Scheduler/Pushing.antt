-- ===== src/Actor/Scheduler/Pushing.antt =====
-- Sockets that a poll reports can be queued by the priority scheduler of src/riaps/run/comp.py.
use riaps_pycom.Prelude.{
  ℕ, ◌+◌, ◌≡◌, ◌≢◌, refl, true, ◌||◌, Option, none, some, List, [], ◌∷◌, inl, inr, Option-cases,
  if_either, All, has_key, has_key-none, has_key-lookup, arith,
}
use riaps_pycom.Actor.Thread.{Thread, Entry}
use riaps_pycom.Actor.Thread.Serving.{IsServable}
use riaps_pycom.Actor.Thread.Sound.{IsSound}
use riaps_pycom.Actor.Thread.Handling.{alike, IsServable-sound}
use riaps_pycom.Actor.Jobs.{before, push, push_all, tag_of}

module _ {C : Type 0} (t : Thread C) where
  abbrev pub AllServable : List Entry → Type 0
  AllServable q = All (λ (e : Entry). IsServable t e.socket) q

  -- A socket that has a tag of its own, where there is none from before
  abbrev pub IsKnown : Option ℕ → ℕ → Thread C → Type 0
  IsKnown none s u = (has_key s u.sock2port || has_key s u.sock2group) ≡ true
  IsKnown (some k) s u = Unit

  tag_ne_none :
      (s : ℕ) (tag : Option ℕ) (u : Thread C)
      → IsSound t u
      → IsServable u s
      → IsKnown tag s u
      → tag_of s tag u ≢ none
  unfolding tag_of
  tag_ne_none s none u h (inl e) k f =
      ground (arith, h.wired s, has_key-none s u.sock2port, has_key-none s u.sock2prio)
  tag_ne_none s none u h (inr (n, e, g)) k f =
      ground (arith, h.wired s, has_key-lookup s n u.sock2name, has_key-none s u.sock2prio)
  tag_ne_none s (some j) u h (inl e) k f =
      ground (arith, h.wired s, has_key-none s u.sock2port, has_key-none s u.sock2prio)
  tag_ne_none s (some j) u h (inr (n, e, g)) k f =
      ground (arith, h.wired s, has_key-lookup s n u.sock2name, has_key-none s u.sock2prio)

  All-push :
      (e : Entry) (q : List Entry) → IsServable t e.socket → AllServable q → AllServable (push e q)
  unfolding push
  All-push e [] h k = (h, tt)
  All-push e (x ∷ q) h k =
      if_either AllServable (before e x) (e ∷ x ∷ q) (x ∷ push e q) (h, k) (k.0, All-push e q h k.1)

  abbrev pub AllKnown : Option ℕ → List ℕ → Thread C → Type 0
  AllKnown none l u = All (λ (s : ℕ). IsKnown none s u) l
  AllKnown (some k) l u = Unit

  head-IsKnown :
      (tag : Option ℕ) (s : ℕ) (l : List ℕ) (u : Thread C)
      → AllKnown tag (s ∷ l) u
      → IsKnown tag s u
  head-IsKnown none s l u k = k.0
  head-IsKnown (some j) s l u k = tt

  with_entry : (pri s : ℕ) → Thread C → Thread C
  with_entry pri s u = record u {
    pq = push (record { pri = pri; cnt = u.tc; socket = s }) u.pq;
    tc = u.tc + 1;
  }

  pub push_all-Sound :
      (tag : Option ℕ) (l : List ℕ) (u : Thread C)
      → IsSound t u
      → All (IsServable t) l
      → AllKnown tag l u
      → AllServable u.pq
      → (v : Thread C) × (push_all tag l u ≡ some v) × IsSound t v × AllServable v.pq
  unfolding push_all with_entry
  push_all-Sound tag [] u h a k q = (u, refl, h, q)
  push_all-Sound tag (s ∷ l) u h a k q = elim (Option-cases (tag_of s tag u)) [
    | inl e ↦
        absurd (tag_ne_none s tag u h (IsServable-sound t s u h a.0) (head-IsKnown tag s l u k) e)
    | inr (pri, e) ↦
        let w = with_entry pri s u in
        let (v, f, g, r) =
          push_all-Sound (some pri) l w (alike t u w (ground arith) refl h) a.1 tt
            (All-push (record { pri = pri; cnt = u.tc; socket = s }) u.pq a.0 q) in
        (v, rw (e, push_all) f, g, r)
  ]
