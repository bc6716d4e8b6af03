-- ===== src/Checksum/Names.antt =====
-- Which names sortStrings keeps, and what the entries of a map have for them
-- (internal/checksum/checksum.go).
use backup_restore.Prelude.{
  ◌≡◌, refl, ◌∙◌, ap, subst, inl, inr, Bool, true, false, ◌||◌, List, [], ◌∷◌, ◌++◌, none, some,
  arith, All, Bool-cases, if◌then◌else◌,
}
use mathlib.Core.List.{reverse, reverse-append}
use backup_restore.Checksum.Manifest.{
  Bytes, Entries, same_bytes, find_sum, sink, sort_from, sort_strings, names_of,
}

pub same_bytes_refl : (xs : Bytes) → same_bytes xs xs ≡ true
unfolding same_bytes
same_bytes_refl [] = refl
same_bytes_refl (x ∷ xs) = ground (arith, same_bytes_refl xs)

pub same_bytes→eq : (xs ys : Bytes) → same_bytes xs ys ≡ true → xs ≡ ys
unfolding same_bytes
same_bytes→eq [] [] h = refl
same_bytes→eq [] (y ∷ ys) h = cc
same_bytes→eq (x ∷ xs) [] h = cc
same_bytes→eq (x ∷ xs) (y ∷ ys) h = ground (arith, same_bytes→eq xs ys)

unfoldable pub has_name : Bytes → List Bytes → Bool
has_name k [] = false
has_name k (n ∷ names) = same_bytes n k || has_name k names

has_name-append :
    (k : Bytes) (xs ys : List Bytes) → has_name k (xs ++ ys) ≡ (has_name k xs || has_name k ys)
unfolding has_name
has_name-append k [] ys = refl
has_name-append k (x ∷ xs) ys = ground (arith, has_name-append k xs ys)

has_name-reverse : (k : Bytes) (xs : List Bytes) → has_name k (reverse xs) ≡ has_name k xs
unfolding has_name
has_name-reverse k [] = refl
has_name-reverse k (x ∷ xs) =
    ap (has_name k) (reverse-append (x ∷ []) xs)
    ∙ ground (arith, has_name-append k (reverse xs) (x ∷ []), has_name-reverse k xs)

has_name-sink :
    (k v : Bytes) (ws : List Bytes) → has_name k (sink v ws) ≡ (same_bytes v k || has_name k ws)
unfolding has_name sink
has_name-sink k v [] = refl
has_name-sink k v (w ∷ ws) = ground (arith, has_name-sink k v ws)

has_name-sort_from :
    (k : Bytes) (sorted values : List Bytes)
    → has_name k (sort_from sorted values) ≡ (has_name k sorted || has_name k values)
unfolding has_name sort_from
has_name-sort_from k sorted [] = ground (arith, has_name-reverse k sorted)
has_name-sort_from k sorted (v ∷ values) =
    ground (arith, has_name-sort_from k (sink v sorted) values, has_name-sink k v sorted)

pub has_name-sort :
    (k : Bytes) (names : List Bytes) → has_name k (sort_strings names) ≡ has_name k names
unfolding has_name sort_strings
has_name-sort k names = has_name-sort_from k [] names

-- A list has each of its names.
pub All-has_name :
    (ys xs : List Bytes)
    → ((k : Bytes) → has_name k xs ≡ true → has_name k ys ≡ true)
    → All (λ n. has_name n ys ≡ true) xs
unfolding has_name
All-has_name ys [] h = tt
All-has_name ys (x ∷ xs) h =
    (h x (ground (arith, same_bytes_refl x)), All-has_name ys xs (λ k b. h k (ground arith)))

-- A name has an entry exactly if it is listed, and its entry is one of the map.
pub find_sum-names :
    (k : Bytes) (m : Entries)
    → (has_name k (names_of m) ≡ true → (s : Bytes) × (find_sum k m ≡ some s))
      × (has_name k (names_of m) ≡ false → find_sum k m ≡ none)
unfolding has_name find_sum
find_sum-names k [] = (λ h. absurd (cc), λ h. refl)
find_sum-names k ((n, s) ∷ m) = elim (Bool-cases (same_bytes n k)) [
  | inl b ↦ rw b (λ h. (s, refl), λ h. absurd (cc))
  | inr b ↦ rw b (find_sum-names k m)
]

pub find_sum-All :
    (P : Bytes × Bytes → Type 0) (k : Bytes) (m : Entries) (s : Bytes)
    → All P m
    → find_sum k m ≡ some s
    → P (k, s)
unfolding find_sum
find_sum-All P k [] s h e = absurd (cc)
find_sum-All P k ((n, t) ∷ m) s (p, h) e = elim (Bool-cases (same_bytes n k)) [
  | inl b ↦ subst P (pair (same_bytes→eq n k b) (first b e)) p
  | inr b ↦ find_sum-All P k m s h (later b e)
]
  where
    first :
        same_bytes n k ≡ true → (if same_bytes n k then some t else find_sum k m) ≡ some s → t ≡ s
    first b f = ground arith

    later :
        same_bytes n k ≡ false
        → (if same_bytes n k then some t else find_sum k m) ≡ some s
        → find_sum k m ≡ some s
    later b f = ground arith

    pair : n ≡ k → t ≡ s → ◌≡◌ {A = Bytes × Bytes} (n, t) (k, s)
    pair f g = cc
