-- ===== src/Prelude/Text.antt =====
-- Whole texts: equality as a test, as a decision, and lists of texts used as sets.
use Prim.Native.String
use Prim.Native.String.{String}
use mathlib.Core.Path.{◌≡◌, refl}
use mathlib.Core.Logic.{◌⊎◌, inl, inr}
use mathlib.Core.Bool.{Bool, true, false, ◌||◌}
use mathlib.Core.List.{List, [], ◌∷◌, ◌++◌}
use native.Mathlib.Omega.{arith}
use text.Mathlib.Text
use text.Mathlib.TextEquality
use text.Mathlib.TextPositions
use backup_restore.Prelude.Tests.{Bool-cases}

abbrev pub str_eq : String → String → Bool
str_eq s t = Text.◌==◌ s t

pub str_eq→eq : (s t : String) → (str_eq s t) ≡ true → s ≡ t
str_eq→eq s t h = (TextEquality.eq_iff s t).0 h

pub eq→str_eq : (s t : String) → s ≡ t → (str_eq s t) ≡ true
eq→str_eq s t h = (TextEquality.eq_iff s t).1 h

pub str_eq_refl : (s : String) → (str_eq s s) ≡ true
str_eq_refl s = TextPositions.eq_refl s

-- The test the Go code writes `s == ""`.
abbrev pub is_empty : String → Bool
is_empty s = str_eq s ""

pub String-discrete : Discrete String
String-discrete s t = elim (Bool-cases (str_eq s t)) [
  | inl same ↦ yes (str_eq→eq s t same)
  | inr other ↦ no (λ e. false-ne-true (str_eq s t) other (eq→str_eq s t e))
]
  where
    false-ne-true : (b : Bool) → b ≡ false → b ≡ true → ⊥
    false-ne-true b p q = cc

-- A list of texts as the set that `toSet` and the lookups in a `map[string]struct{}` build.
unfoldable pub contains : List String → String → Bool
contains [] v = false
contains (x ∷ xs) v = str_eq x v || contains xs v

-- The same as a proposition by recursion.
abbrev pub Has : String → List String → Type 0
Has v [] = ⊥
Has v (x ∷ xs) = (x ≡ v) ⊎ Has v xs

pub contains→Has : (xs : List String) (v : String) → contains xs v ≡ true → Has v xs
unfolding contains
contains→Has [] v h = cc
contains→Has (x ∷ xs) v h = elim (Bool-cases (str_eq x v)) [
  | inl same ↦ inl (str_eq→eq x v same)
  | inr other ↦ inr (contains→Has xs v (ground arith))
]

pub Has→contains : (xs : List String) (v : String) → Has v xs → contains xs v ≡ true
unfolding contains
Has→contains [] v h = absurd h
Has→contains (x ∷ xs) v (inl e) = ground (arith, eq→str_eq x v e)
Has→contains (x ∷ xs) v (inr h) = ground (arith, Has→contains xs v h)

pub contains-append :
    (xs ys : List String) (v : String) → contains (xs ++ ys) v ≡ (contains xs v || contains ys v)
unfolding contains
contains-append [] ys v = refl
contains-append (x ∷ xs) ys v = ground (arith, contains-append xs ys v)

abbrev pub str_append : String → String → String
str_append s t = String.◌++◌ s t
