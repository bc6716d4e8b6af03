-- ===== src/Prelude/Sort.antt =====
-- A stable insertion sort, for the sorting that the Go code takes from package sort.
use backup_restore.Prelude.{
  ℕ, ◌≤◌, ◌≡◌, refl, Bool, true, false, List, [], ◌∷◌, arith, if◌then◌else◌, Bool-cases, inl, inr,
  All, length, suc,
}

module _ {A : Type 0} (before : A → A → Bool) where
  -- An earlier element goes behind the later ones that come before it, and behind no other.
  unfoldable pub insert_sorted : A → List A → List A
  insert_sorted x [] = x ∷ []
  insert_sorted x (y ∷ ys) =
      let rest = insert_sorted x ys in if before y x then y ∷ rest else x ∷ y ∷ ys

  unfoldable pub sort_by : List A → List A
  sort_by [] = []
  sort_by (x ∷ xs) = insert_sorted x (sort_by xs)

  abbrev pub FirstNotBefore : A → List A → Type 0
  FirstNotBefore x [] = Unit
  FirstNotBefore x (y ∷ ys) = before y x ≡ false

  -- No element comes before its left neighbour.
  abbrev pub IsSorted : List A → Type 0
  IsSorted [] = Unit
  IsSorted (x ∷ xs) = FirstNotBefore x xs × IsSorted xs

  pub length-insert_sorted : (x : A) (xs : List A) → length (insert_sorted x xs) ≡ suc (length xs)
  unfolding insert_sorted
  length-insert_sorted x [] = refl
  length-insert_sorted x (y ∷ ys) = ground (arith, length-insert_sorted x ys)

  pub length-sort_by : (xs : List A) → length (sort_by xs) ≡ length xs
  unfolding sort_by
  length-sort_by [] = refl
  length-sort_by (x ∷ xs) = ground (arith, length-insert_sorted x (sort_by xs), length-sort_by xs)

  insert_sorted-All :
      (P : A → Type 0) (x : A) (xs : List A) → P x → All P xs → All P (insert_sorted x xs)
  unfolding insert_sorted
  insert_sorted-All P x [] p h = (p, tt)
  insert_sorted-All P x (y ∷ ys) p (q, h) = elim (Bool-cases (before y x)) [
    | inl b ↦ rw b (q, insert_sorted-All P x ys p h)
    | inr b ↦ rw b (p, (q, h))
  ]

  pub sort_by-All : (P : A → Type 0) (xs : List A) → All P xs → All P (sort_by xs)
  unfolding sort_by
  sort_by-All P [] h = tt
  sort_by-All P (x ∷ xs) (p, h) = insert_sorted-All P x (sort_by xs) p (sort_by-All P xs h)

  module _ (asym : (x y : A) → before x y ≡ true → before y x ≡ false) where
    first_insert_sorted :
        (x y : A) (ys : List A)
        → before y x ≡ true
        → FirstNotBefore y ys
        → FirstNotBefore y (insert_sorted x ys)
    unfolding insert_sorted
    first_insert_sorted x y [] b h = asym y x b
    first_insert_sorted x y (z ∷ zs) b h = elim (Bool-cases (before z x)) [
      | inl c ↦ rw c h
      | inr c ↦ rw c (asym y x b)
    ]

    insert_sorted-IsSorted : (x : A) (xs : List A) → IsSorted xs → IsSorted (insert_sorted x xs)
    unfolding insert_sorted
    insert_sorted-IsSorted x [] h = (tt, tt)
    insert_sorted-IsSorted x (y ∷ ys) (f, h) = elim (Bool-cases (before y x)) [
      | inl b ↦ rw b (first_insert_sorted x y ys b f, insert_sorted-IsSorted x ys h)
      | inr b ↦ rw b (b, (f, h))
    ]

    pub sort_by-IsSorted : (xs : List A) → IsSorted (sort_by xs)
    unfolding sort_by
    sort_by-IsSorted [] = tt
    sort_by-IsSorted (x ∷ xs) = insert_sorted-IsSorted x (sort_by xs) (sort_by-IsSorted xs)

-- Where the order looks at a number first, the numbers of the sorted list ascend.
module _ {A : Type 0} (key : A → ℕ) where
  abbrev pub FirstAtLeast : A → List A → Type 0
  FirstAtLeast x [] = Unit
  FirstAtLeast x (y ∷ ys) = key x ≤ key y

  abbrev pub IsAscending : List A → Type 0
  IsAscending [] = Unit
  IsAscending (x ∷ xs) = FirstAtLeast x xs × IsAscending xs

  module _ (before : A → A → Bool) (le : (x y : A) → before x y ≡ true → key x ≤ key y)
      (ge : (x y : A) → before x y ≡ false → key y ≤ key x) where
    first_at_least :
        (x y : A) (ys : List A)
        → before y x ≡ true
        → FirstAtLeast y ys
        → FirstAtLeast y (insert_sorted before x ys)
    unfolding insert_sorted
    first_at_least x y [] b h = le y x b
    first_at_least x y (z ∷ zs) b h = elim (Bool-cases (before z x)) [
      | inl c ↦ rw c h
      | inr c ↦ rw c (le y x b)
    ]

    insert_sorted-IsAscending :
        (x : A) (xs : List A) → IsAscending xs → IsAscending (insert_sorted before x xs)
    unfolding insert_sorted
    insert_sorted-IsAscending x [] h = (tt, tt)
    insert_sorted-IsAscending x (y ∷ ys) (f, h) = elim (Bool-cases (before y x)) [
      | inl b ↦ rw b (first_at_least x y ys b f, insert_sorted-IsAscending x ys h)
      | inr b ↦ rw b (ge y x b, (f, h))
    ]

    pub sort_by-IsAscending : (xs : List A) → IsAscending (sort_by before xs)
    unfolding sort_by
    sort_by-IsAscending [] = tt
    sort_by-IsAscending (x ∷ xs) =
        insert_sorted-IsAscending x (sort_by before xs) (sort_by-IsAscending xs)
