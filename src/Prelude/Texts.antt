-- ===== src/Prelude/Texts.antt =====
-- Texts as lists of bytes: equality, Python's `split` at one character, sets and dictionaries of
-- texts.
use Prim.Native.Nat.{ℕ}
use Prim.Native.Char.{code}
use Prim.Native.String.{String}
use mathlib.Core.Path.{◌≡◌, refl, ap}
use mathlib.Core.Bool.{Bool, true, false}
use mathlib.Core.Option.{Option, none, some}
use mathlib.Core.List.{append-nil}
use mathlib.Core.List.{List, [], ◌∷◌, ◌++◌}
use native.Mathlib.Omega.{arith}
use riaps_pycom.Prelude.Tests.{◌==◌, if◌then◌else◌}

abbrev pub Text : Type 0
Text = List ℕ

abbrev pub codes : String → Text
codes String.[] = []
codes (String.◌∷◌ c s) = code c ∷ codes s

unfoldable pub text_eq : Text → Text → Bool
text_eq [] [] = true
text_eq [] (b ∷ t) = false
text_eq (a ∷ s) [] = false
text_eq (a ∷ s) (b ∷ t) = let rest = text_eq s t in if a == b then rest else false

pub text_eq_refl : (s : Text) → text_eq s s ≡ true
unfolding text_eq
text_eq_refl [] = refl
text_eq_refl (a ∷ s) = ground (arith, text_eq_refl s)

pub text_eq→≡ : (s t : Text) → text_eq s t ≡ true → s ≡ t
unfolding text_eq
text_eq→≡ [] [] h = refl
text_eq→≡ [] (b ∷ t) h = cc
text_eq→≡ (a ∷ s) [] h = cc
text_eq→≡ (a ∷ s) (b ∷ t) h = ground (arith, text_eq→≡ s t)

-- A text with something behind it is another text.
pub text_eq-append : (s t : Text) → text_eq [] t ≡ false → text_eq (s ++ t) s ≡ false
unfolding text_eq
text_eq-append [] (c ∷ t) h = refl
text_eq-append [] [] h = h
text_eq-append (x ∷ s) t h = ground (arith, text_eq-append s t h)

-- The pieces of a text between the separators: never none, and one for a text without separator.
-- `split_from` carries the piece that is being read.
unfoldable pub split_from : ℕ → Text → Text → List Text
split_from sep piece [] = piece ∷ []
split_from sep piece (c ∷ s) =
    let closed = split_from sep [] s in
    let longer = split_from sep (piece ++ c ∷ []) s in if c == sep then piece ∷ closed else longer

abbrev pub split : ℕ → Text → List Text
split sep s = split_from sep [] s

-- No character of the text is the separator.
abbrev pub Lacks : ℕ → Text → Type 0
Lacks sep [] = Unit
Lacks sep (c ∷ s) = ((c == sep) ≡ false) × Lacks sep s

append_snoc : (p s : Text) (c : ℕ) → (p ++ c ∷ []) ++ s ≡ p ++ c ∷ s
append_snoc [] s c = refl
append_snoc (x ∷ p) s c = ap (λ (l : Text). x ∷ l) (append_snoc p s c)

-- A piece without separator is read whole.
pub split_from-piece :
    (sep : ℕ) (piece s rest : Text)
    → Lacks sep s
    → split_from sep piece (s ++ sep ∷ rest) ≡ (piece ++ s) ∷ split sep rest
unfolding split_from
split_from-piece sep piece [] rest h = ground (arith, append-nil piece)
split_from-piece sep piece (c ∷ s) rest h =
    ground (arith, split_from-piece sep (piece ++ c ∷ []) s rest h.1, append_snoc piece s c)

pub split_from-last :
    (sep : ℕ) (piece s : Text) → Lacks sep s → split_from sep piece s ≡ (piece ++ s) ∷ []
unfolding split_from
split_from-last sep piece [] h = ground (arith, append-nil piece)
split_from-last sep piece (c ∷ s) h =
    ground (arith, split_from-last sep (piece ++ c ∷ []) s h.1, append_snoc piece s c)

unfoldable pub has_text : Text → List Text → Bool
has_text s [] = false
has_text s (t ∷ l) = let rest = has_text s l in if text_eq t s then true else rest

-- A set of texts without repetition: `add` and `discard`.
unfoldable pub add_text : Text → List Text → List Text
add_text s l = if has_text s l then l else s ∷ l

unfoldable pub discard_text : Text → List Text → List Text
discard_text s [] = []
discard_text s (t ∷ l) = let rest = discard_text s l in if text_eq t s then rest else t ∷ rest

pub has_text-add_text :
    (u v : Text) (l : List Text)
    → has_text u (add_text v l) ≡ (if text_eq v u then true else has_text u l)
unfolding has_text add_text
has_text-add_text u v l = ground (arith, text_eq→≡ v u)

pub has_text-discard_text :
    (u v : Text) (l : List Text)
    → has_text u (discard_text v l) ≡ (if text_eq v u then false else has_text u l)
unfolding has_text discard_text
has_text-discard_text u v [] = ground arith
has_text-discard_text u v (t ∷ l) = ground (
  arith,
  has_text-discard_text u v l,
  text_eq→≡ t v,
  text_eq→≡ t u,
  text_eq→≡ v u,
  text_eq_refl t,
  text_eq_refl v,
)

abbrev pub Table {ℓ} : Type ℓ → Type ℓ
Table V = List (Text × V)

module _ {ℓ} {V : Type ℓ} where
  unfoldable pub find : Text → Table V → Option V
  find k [] = none
  find k ((j, v) ∷ d) = let rest = find k d in if text_eq j k then some v else rest

  unfoldable pub erase : Text → Table V → Table V
  erase k [] = []
  erase k ((j, v) ∷ d) = let rest = erase k d in if text_eq j k then rest else (j, v) ∷ rest

  -- `d[k] = v`; the order of a table is not looked at
  unfoldable pub assign : Text → V → Table V → Table V
  unfolding erase
  assign k v d = (k, v) ∷ erase k d

  pub find-erase :
      (k j : Text) (d : Table V) → find j (erase k d) ≡ (if text_eq k j then none else find j d)
  unfolding find erase
  find-erase k j [] = ground arith
  find-erase k j ((i, v) ∷ d) = ground (
    arith,
    find-erase k j d,
    text_eq→≡ i k,
    text_eq→≡ i j,
    text_eq→≡ k j,
    text_eq_refl k,
    text_eq_refl j,
    text_eq_refl i,
  )

  pub find-assign :
      (k j : Text) (v : V) (d : Table V)
      → find j (assign k v d) ≡ (if text_eq k j then some v else find j d)
  unfolding assign find
  find-assign k j v d = ground (arith, find-erase k j d)
