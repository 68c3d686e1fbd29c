-- ===== src/Actor/Jobs.antt =====
-- src/riaps/run/comp.py: how the schedulers put sockets in order. The queue of the heapq module is a
-- list in ascending order, and the deque is a list that begins at its right end.
use riaps_pycom.Prelude.{
  ℕ, ◌+◌, ◌-◌, Bool, true, false, Option, none, some, List, [], ◌∷◌, ◌++◌, if◌then◌else◌, ◌==◌, ltb,
  lookup, has_key, length,
}
use riaps_pycom.Actor.Thread.{Thread, Entry, Job}

-- heapq.heappush, on tuples of a priority and a number: ascending.
unfoldable pub before : Entry → Entry → Bool
before a b = if a.pri == b.pri then ltb a.cnt b.cnt else ltb a.pri b.pri

unfoldable pub push : Entry → List Entry → List Entry
unfolding before
push e [] = e ∷ []
push e (x ∷ q) = let rest = push e q in if before e x then e ∷ x ∷ q else x ∷ rest

abbrev pub is_nil {ℓ} : {A : Type ℓ} → List A → Bool
is_nil [] = true
is_nil (x ∷ l) = false

module _ {C : Type 0} where
  -- A socket of a port or of a group has its tag in the map of priorities. For any other socket
  -- the variable keeps the tag of the socket before it, and has none at first.
  unfoldable pub tag_of : (socket : ℕ) → Option ℕ → Thread C → Option ℕ
  tag_of socket tag t =
      if has_key socket t.sock2port
      then lookup socket t.sock2prio
      else if has_key socket t.sock2group
      then lookup socket t.sock2prio
      else tag

  -- The first loop of priorityScheduler
  unfoldable pub push_all : Option ℕ → List ℕ → Thread C → Option (Thread C)
  unfolding tag_of
  push_all tag [] t = some t
  push_all tag (s ∷ l) t = elim (tag_of s tag t) [
    | none ↦ none
    | some pri ↦
        push_all (some pri) l (record t {
          pq = push (record { pri = pri; cnt = t.tc; socket = s }) t.pq;
          tc = t.tc + 1;
        })
  ]

  -- The first loop of rrScheduler
  unfoldable pub jobs_of : Option ℕ → List ℕ → Thread C → Option (List Job)
  unfolding tag_of
  jobs_of tag [] t = some []
  jobs_of tag (s ∷ l) t = elim (tag_of s tag t) [
    | none ↦ none
    | some k ↦ elim (jobs_of (some k) l t) [
      | none ↦ none
      | some js ↦ some (record { tag = k; socket = s } ∷ js)
    ]
  ]

-- `sorted(jobs)`: pairs of a tag and a socket. Two jobs with one tag are compared by their sockets,
-- which have no order: a TypeError, unless it is one socket twice.
unfoldable pub place : Job → List Job → Option (List Job)
place j [] = some (j ∷ [])
place j (x ∷ l) =
    let rest = place j l in
    if j.tag == x.tag
    then if j.socket == x.socket then some (j ∷ x ∷ l) else none
    else if ltb j.tag x.tag
    then some (j ∷ x ∷ l)
    else elim rest [ none ↦ none | some r ↦ some (x ∷ r) ]

unfoldable pub sorted : List Job → Option (List Job)
unfolding place
sorted [] = some []
sorted (j ∷ l) = elim (sorted l) [ none ↦ none | some r ↦ place j r ]

-- The index of the first job whose tag is larger than the last executed one
unfoldable pub first_larger : Option ℕ → List Job → Option ℕ
first_larger last [] = none
first_larger last (j ∷ l) =
    let rest = first_larger last l in
    if elim last [ none ↦ true | some k ↦ ltb k j.tag ]
    then some 0
    else elim rest [ none ↦ none | some i ↦ some (i + 1) ]

unfoldable pub take : ℕ → List Job → List Job
take n [] = []
take n (j ∷ l) = let rest = take (n - 1) l in if n == 0 then [] else j ∷ rest

unfoldable pub drop : ℕ → List Job → List Job
drop n [] = []
drop n (j ∷ l) = let rest = drop (n - 1) l in if n == 0 then j ∷ l else rest

-- jobs[-first:] + jobs[0:first]; `jobs[-0:]` is the whole list.
unfoldable pub rotate : (first : ℕ) → List Job → List Job
unfolding take drop
rotate first jobs =
    (if first == 0 then jobs else drop (length jobs - first) jobs) ++ take first jobs

unfoldable pub last_tag : Option ℕ → List Job → Option ℕ
last_tag tag [] = tag
last_tag tag (j ∷ l) = last_tag (some j.tag) l

module _ {C : Type 0} where
  abbrev in_turn : Thread C → List Job → List Job
  in_turn t jobs = elim (first_larger t.last jobs) [ none ↦ jobs | some i ↦ rotate i jobs ]

  -- The rest of the outer loop of rrScheduler: `len(jobs) != 1`, and the jobs join the deque. The
  -- tag of the last of no jobs is an IndexError.
  unfoldable pub enqueue : List Job → Thread C → Option (Thread C)
  unfolding first_larger rotate last_tag
  enqueue [] t = elim t.dq [ [] ↦ none | j ∷ q ↦ some t ]
  enqueue (j ∷ []) t = some (record t { dq = t.dq ++ j ∷ [] })
  enqueue (j ∷ k ∷ l) t =
      if is_nil t.dq
      then some (record t { last = last_tag none (k ∷ l); dq = j ∷ k ∷ l })
      else some (record t { dq = t.dq ++ in_turn t (j ∷ k ∷ l) })

  unfoldable pub schedule_jobs : Option ℕ → List ℕ → Thread C → Option (Thread C)
  unfolding jobs_of sorted enqueue
  schedule_jobs tag sockets t = elim (jobs_of tag sockets t) [
    | none ↦ none
    | some jobs ↦ elim (sorted jobs) [ none ↦ none | some js ↦ enqueue js t ]
  ]
