-- ===== src/Actor/Scheduler/Arrival.antt =====
-- The queue of the priority scheduler of src/riaps/run/comp.py: its order, and what waits in it.
use riaps_pycom.Prelude.{
  ℕ, ◌+◌, ◌<◌, ltb, ◌&&◌, ◌≡◌, refl, Bool, true, false, Option, none, some, List, [], ◌∷◌, ◌++◌,
  inl, inr, Bool-cases, if_either, if◌then◌else◌, ◌==◌, ◌||◌, sym, All, Dict, lookup, append-nil,
  arith,
}
use riaps_pycom.Actor.Thread.{Entry}
use riaps_pycom.Actor.Jobs.{before, push}

-- An entry precedes another: the pairs of priority and number, compared without the sockets.
abbrev pub precedes : Entry → Entry → Bool
precedes a b = ltb a.pri b.pri || ((a.pri == b.pri) && ltb a.cnt b.cnt)

-- Each entry precedes all behind it, and has a number that was given out.
abbrev pub IsAscending : List Entry → Type 0
IsAscending [] = Unit
IsAscending (e ∷ q) = All (λ (x : Entry). precedes e x ≡ true) q × IsAscending q

abbrev pub IsNumbered : ℕ → List Entry → Type 0
IsNumbered n q = All (λ (x : Entry). x.cnt < n) q

-- The sockets that wait with a priority, in the order of the queue, and the sockets of a list that
-- have the priority.
unfoldable pub waiting_at : ℕ → List Entry → List ℕ
waiting_at k [] = []
waiting_at k (e ∷ q) = let rest = waiting_at k q in if e.pri == k then e.socket ∷ rest else rest

abbrev pub is_some_at : ℕ → Option ℕ → Bool
is_some_at k none = false
is_some_at k (some n) = n == k

unfoldable pub of_priority : ℕ → Dict ℕ → List ℕ → List ℕ
of_priority k priorities [] = []
of_priority k priorities (s ∷ l) =
    let rest = of_priority k priorities l in
    if is_some_at k (lookup s priorities) then s ∷ rest else rest

precedes_trans : (a b c : Entry) → precedes a b ≡ true → precedes b c ≡ true → precedes a c ≡ true
precedes_trans a b c h k = ground arith

All-precedes :
    (a b : Entry) (q : List Entry)
    → precedes a b ≡ true
    → All (λ (x : Entry). precedes b x ≡ true) q
    → All (λ (x : Entry). precedes a x ≡ true) q
All-precedes a b [] h k = tt
All-precedes a b (c ∷ q) h k = (precedes_trans a b c h k.0, All-precedes a b q h k.1)

-- A new entry has a larger number than those of the queue.
precedes-push :
    (a e : Entry) (q : List Entry)
    → precedes a e ≡ true
    → All (λ (x : Entry). precedes a x ≡ true) q
    → All (λ (x : Entry). precedes a x ≡ true) (push e q)
unfolding push
precedes-push a e [] h k = (h, tt)
precedes-push a e (x ∷ q) h k =
    if_either (λ l. All (λ (y : Entry). precedes a y ≡ true) l) (before e x) (e ∷ x ∷ q)
      (x ∷ push e q) (h, k) (k.0, precedes-push a e q h k.1)

before-precedes :
    (e x : Entry)
    → x.cnt < e.cnt
    → (before e x ≡ true → precedes e x ≡ true) × (before e x ≡ false → precedes x e ≡ true)
unfolding before
before-precedes e x h = (λ k. ground arith, λ k. ground arith)

pub push-IsAscending :
    (e : Entry) (q : List Entry) → IsNumbered e.cnt q → IsAscending q → IsAscending (push e q)
unfolding push
push-IsAscending e [] n a = (tt, tt)
push-IsAscending e (x ∷ q) n a = elim (Bool-cases (before e x)) [
  | inl h ↦ let p = (before-precedes e x n.0).0 h in rw h ((p, All-precedes e x q p a.0), a)
  | inr h ↦
      rw h (precedes-push x e q ((before-precedes e x n.0).1 h) a.0, push-IsAscending e q n.1 a.1)
]

none_waiting : (k : ℕ) (q : List Entry) → All (λ (x : Entry). k < x.pri) q → waiting_at k q ≡ []
unfolding waiting_at
none_waiting k [] h = refl
none_waiting k (x ∷ q) h = ground (arith, none_waiting k q h.1)

-- What a new entry goes before is of a larger priority, as is all behind that.
before-lt : (e x : Entry) → x.cnt < e.cnt → before e x ≡ true → e.pri < x.pri
unfolding before
before-lt e x h k = ground arith

All-lt :
    (k : ℕ) (x : Entry) (q : List Entry)
    → k < x.pri
    → All (λ (y : Entry). precedes x y ≡ true) q
    → All (λ (y : Entry). k < y.pri) q
All-lt k x [] h a = tt
All-lt k x (y ∷ q) h a = (ground arith, All-lt k x q h a.1)

placed :
    (b : Bool) (s : ℕ) (w : List ℕ)
    → (b ≡ true → w ≡ [])
    → (if b then s ∷ w else w) ≡ w ++ (if b then s ∷ [] else [])
placed true s w h = rw (h refl) refl
placed false s w h = sym (append-nil w)

-- A new entry comes behind those of its priority.
pub waiting_at-push :
    (k : ℕ) (e : Entry) (q : List Entry)
    → IsNumbered e.cnt q
    → IsAscending q
    → waiting_at k (push e q) ≡ waiting_at k q ++ (if e.pri == k then e.socket ∷ [] else [])
unfolding waiting_at push
waiting_at-push k e [] n a = refl
waiting_at-push k e (x ∷ q) n a = elim (Bool-cases (before e x)) [
  | inl h ↦
      let p = before-lt e x n.0 h in
      rw h (
        placed (e.pri == k) e.socket (waiting_at k (x ∷ q)) (λ m.
          let m1 : k < x.pri = ground arith in none_waiting k (x ∷ q) (m1, All-lt k x q m1 a.0)))
  | inr h ↦ rw h (ground (arith, waiting_at-push k e q n.1 a.1))
]

pub IsNumbered-push :
    (n : ℕ) (e : Entry) (q : List Entry) → e.cnt < n → IsNumbered n q → IsNumbered n (push e q)
unfolding push
IsNumbered-push n e [] h k = (h, tt)
IsNumbered-push n e (x ∷ q) h k =
    if_either (IsNumbered n) (before e x) (e ∷ x ∷ q) (x ∷ push e q) (h, k)
      (k.0, IsNumbered-push n e q h k.1)

pub IsNumbered-suc : (n : ℕ) (q : List Entry) → IsNumbered n q → IsNumbered (n + 1) q
IsNumbered-suc n [] h = tt
IsNumbered-suc n (x ∷ q) h = (omega (arith, h.0), IsNumbered-suc n q h.1)
