-- ===== src/Paths/Clean.antt =====
-- path.Clean, on the parts between slashes. The stack has the last part at its head.
use mathlib.Core.List.{reverse, reverse-cons}
use backup_restore.Prelude.{
  String, ◌≡◌, ◌≢◌, Bool, true, false, ◌||◌, ◌⊎◌, List, [], ◌∷◌, arith, if◌then◌else◌, str_eq,
  is_empty, str_append, All, All-append, str_eq→eq, eq→str_eq,
}
use backup_restore.Paths.Split.{split_slash, join_slash, is_abs, NoSlash, split_slash-NoSlash}

-- A ".." drops the part before it; at the root there is nothing to drop, and a relative path keeps
-- the ".." that it begins with.
pop_part : Bool → List String → List String
pop_part rooted [] = if rooted then [] else ".." ∷ []
pop_part rooted (top ∷ stack) = if str_eq top ".." then ".." ∷ top ∷ stack else stack

clean_step : Bool → List String → String → List String
clean_step rooted stack part =
    if is_empty part || str_eq part "."
    then stack
    else if str_eq part ".."
    then pop_part rooted stack
    else part ∷ stack

clean_from : Bool → List String → List String → List String
clean_from rooted stack [] = stack
clean_from rooted stack (part ∷ parts) = clean_from rooted (clean_step rooted stack part) parts

abbrev pub print_clean : Bool → List String → String
print_clean true parts = str_append "/" (join_slash parts)
print_clean false [] = "."
print_clean false (p ∷ ps) = join_slash (p ∷ ps)

unfoldable pub clean_parts : String → List String
unfolding clean_from clean_step pop_part
clean_parts s = reverse (clean_from (is_abs s) [] (split_slash s))

unfoldable pub clean : String → String
unfolding clean_parts
clean s = print_clean (is_abs s) (clean_parts s)

-- A name of a file or directory proper.
pub record IsPlain (part : String) : Type 0 where
  pub nonempty : part ≢ ""
  pub not_here : part ≢ "."
  pub not_up : part ≢ ".."
  pub no_slash : NoSlash part

-- Where a ".." cannot be kept: in a rooted path, or where there is none.
abbrev pub NoUp : Bool → String → Type 0
NoUp rooted part = (rooted ≡ true) ⊎ (part ≢ "..")

clean_step-IsPlain :
    (rooted : Bool) (stack : List String) (part : String)
    → All IsPlain stack
    → NoSlash part
    → NoUp rooted part
    → All IsPlain (clean_step rooted stack part)
unfolding clean_step pop_part
clean_step-IsPlain rooted [] part h k u = ground (
  arith,
  str_eq→eq part ".",
  eq→str_eq part "",
  eq→str_eq part ".",
  eq→str_eq part "..",
  str_eq→eq part "..",
)
clean_step-IsPlain rooted (top ∷ stack) part h k u = ground (
  arith,
  eq→str_eq part "",
  eq→str_eq part ".",
  eq→str_eq part "..",
  str_eq→eq part "..",
  str_eq→eq top "..",
)

clean_from-IsPlain :
    (rooted : Bool) (stack parts : List String)
    → All IsPlain stack
    → All NoSlash parts
    → All (NoUp rooted) parts
    → All IsPlain (clean_from rooted stack parts)
unfolding clean_from
clean_from-IsPlain rooted stack [] h k u = h
clean_from-IsPlain rooted stack (part ∷ parts) h (k, ks) (u, us) =
    clean_from-IsPlain rooted (clean_step rooted stack part) parts
      (clean_step-IsPlain rooted stack part h k u) ks us

reverse-All : (P : String → Type 0) (xs : List String) → All P xs → All P (reverse xs)
reverse-All P [] h = tt
reverse-All P (x ∷ xs) (p, h) =
    rw reverse-cons (All-append P (reverse xs) (x ∷ []) (reverse-All P xs h) (p, tt))

-- All parts of a cleaned path are plain, if the path is rooted or holds no "..".
pub clean_parts-IsPlain :
    (s : String) → All (NoUp (is_abs s)) (split_slash s) → All IsPlain (clean_parts s)
unfolding clean_parts
clean_parts-IsPlain s u =
    reverse-All IsPlain (clean_from (is_abs s) [] (split_slash s))
      (clean_from-IsPlain (is_abs s) [] (split_slash s) tt (split_slash-NoSlash s) u)
