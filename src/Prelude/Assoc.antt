-- ===== src/Prelude/Assoc.antt =====
-- Python's `dict` with number keys, in insertion order: a write to a key that is there keeps its
-- place, a new key goes to the end.
use Prim.Native.Nat.{ℕ, ◌≤◌}
use mathlib.Core.Path.{◌≡◌, refl}
use mathlib.Core.List.{List, [], ◌∷◌}
use mathlib.Core.Bool.{Bool, true, false}
use mathlib.Core.Option.{Option, none, some}
use native.Mathlib.Omega.{arith}
use riaps_pycom.Prelude.Tests.{◌==◌, if◌then◌else◌}
use riaps_pycom.Prelude.Lists.{length, contains}

abbrev pub Dict {ℓ} : Type ℓ → Type ℓ
Dict V = List (ℕ × V)

module _ {ℓ} {V : Type ℓ} where
  unfoldable pub lookup : ℕ → Dict V → Option V
  lookup k [] = none
  lookup k ((j, v) ∷ d) = if j == k then some v else lookup k d

  unfoldable pub has_key : ℕ → Dict V → Bool
  has_key k [] = false
  has_key k ((j, v) ∷ d) = if j == k then true else has_key k d

  unfoldable pub insert : ℕ → V → Dict V → Dict V
  insert k v [] = (k, v) ∷ []
  insert k v ((j, w) ∷ d) = if j == k then (j, v) ∷ d else (j, w) ∷ insert k v d

  unfoldable pub delete : ℕ → Dict V → Dict V
  delete k [] = []
  delete k ((j, w) ∷ d) = let rest = delete k d in if j == k then rest else (j, w) ∷ rest

  unfoldable pub delete_all : List ℕ → Dict V → Dict V
  delete_all [] d = d
  delete_all (k ∷ ks) d = delete_all ks (delete k d)

  -- No key of the dictionary is `k`.
  abbrev pub Fresh : ℕ → Dict V → Type 0
  Fresh k [] = Unit
  Fresh k ((j, w) ∷ d) = ((j == k) ≡ false) × Fresh k d

  -- Each key stands once.
  abbrev pub IsUnique : Dict V → Type 0
  IsUnique [] = Unit
  IsUnique ((j, w) ∷ d) = Fresh j d × IsUnique d

  pub lookup-insert :
      (k j : ℕ) (v : V) (d : Dict V)
      → lookup j (insert k v d) ≡ (if k == j then some v else lookup j d)
  unfolding lookup insert
  lookup-insert k j v [] = refl
  lookup-insert k j v ((i, w) ∷ d) = ground (arith, lookup-insert k j v d)

  pub lookup-delete :
      (k j : ℕ) (d : Dict V) → lookup j (delete k d) ≡ (if k == j then none else lookup j d)
  unfolding lookup delete
  lookup-delete k j [] = ground arith
  lookup-delete k j ((i, w) ∷ d) = ground (arith, lookup-delete k j d)

  pub Fresh-insert :
      (k j : ℕ) (v : V) (d : Dict V) → (k == j) ≡ false → Fresh j d → Fresh j (insert k v d)
  unfolding insert
  Fresh-insert k j v [] h f = (h, tt)
  Fresh-insert k j v ((i, w) ∷ d) h f = ground (arith, Fresh-insert k j v d h f.1)

  pub Fresh-delete : (k j : ℕ) (d : Dict V) → Fresh j d → Fresh j (delete k d)
  unfolding delete
  Fresh-delete k j [] f = tt
  Fresh-delete k j ((i, w) ∷ d) f = ground (arith, Fresh-delete k j d f.1)

  pub IsUnique-insert : (k : ℕ) (v : V) (d : Dict V) → IsUnique d → IsUnique (insert k v d)
  unfolding insert
  IsUnique-insert k v [] u = (tt, tt)
  IsUnique-insert k v ((i, w) ∷ d) u =
      ground (arith, IsUnique-insert k v d u.1, Fresh-insert k i v d)

  pub IsUnique-delete : (k : ℕ) (d : Dict V) → IsUnique d → IsUnique (delete k d)
  unfolding delete
  IsUnique-delete k [] u = tt
  IsUnique-delete k ((i, w) ∷ d) u = ground (arith, IsUnique-delete k d u.1, Fresh-delete k i d u.0)

  pub length-delete-le : (k : ℕ) (d : Dict V) → length (delete k d) ≤ length d
  unfolding delete
  length-delete-le k [] = omega arith
  length-delete-le k ((i, w) ∷ d) = ground (arith, length-delete-le k d)

  pub IsUnique-delete_all : (ks : List ℕ) (d : Dict V) → IsUnique d → IsUnique (delete_all ks d)
  unfolding delete_all
  IsUnique-delete_all [] d u = u
  IsUnique-delete_all (k ∷ ks) d u = IsUnique-delete_all ks (delete k d) (IsUnique-delete k d u)

  pub lookup-delete_all :
      (ks : List ℕ) (j : ℕ) (d : Dict V)
      → lookup j (delete_all ks d) ≡ (if contains j ks then none else lookup j d)
  unfolding delete_all contains
  lookup-delete_all [] j d = refl
  lookup-delete_all (k ∷ ks) j d =
      ground (arith, lookup-delete_all ks j (delete k d), lookup-delete k j d)

  pub lookup-Fresh : (k : ℕ) (d : Dict V) → Fresh k d → lookup k d ≡ none
  unfolding lookup
  lookup-Fresh k [] f = refl
  lookup-Fresh k ((i, w) ∷ d) f = ground (arith, lookup-Fresh k d f.1)

  pub has_key-insert :
      (k j : ℕ) (v : V) (d : Dict V)
      → has_key j (insert k v d) ≡ (if k == j then true else has_key j d)
  unfolding has_key insert
  has_key-insert k j v [] = refl
  has_key-insert k j v ((i, w) ∷ d) = ground (arith, has_key-insert k j v d)

  pub has_key-delete :
      (k j : ℕ) (d : Dict V) → has_key j (delete k d) ≡ (if k == j then false else has_key j d)
  unfolding has_key delete
  has_key-delete k j [] = ground arith
  has_key-delete k j ((i, w) ∷ d) = ground (arith, has_key-delete k j d)

  pub has_key-lookup : (k : ℕ) (v : V) (d : Dict V) → lookup k d ≡ some v → has_key k d ≡ true
  unfolding has_key lookup
  has_key-lookup k v [] h = cc
  has_key-lookup k v ((i, w) ∷ d) h = ground (arith, has_key-lookup k v d)

  pub has_key-none : (k : ℕ) (d : Dict V) → lookup k d ≡ none → has_key k d ≡ false
  unfolding has_key lookup
  has_key-none k [] h = refl
  has_key-none k ((i, w) ∷ d) h = ground (arith, has_key-none k d)
