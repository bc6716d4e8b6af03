-- ===== src/Paths/Split.antt =====
-- strings.Split(s, "/"), and joining with slashes.
use Prim.Native.Char.{Char, code}
use Prim.Native.String.{String}
use backup_restore.Prelude.{
  ℕ, ◌≢◌, Bool, false, List, [], ◌∷◌, arith, ◌==◌, if◌then◌else◌, All, str_append, Bool-cases, inl,
  inr,
}

abbrev pub slash : ℕ
slash = b'/'

-- A character in front of the first part.
abbrev pub push_char : Char → List String → List String
push_char c [] = String.◌∷◌ c String.[] ∷ []
push_char c (p ∷ ps) = String.◌∷◌ c p ∷ ps

unfoldable pub split_slash : String → List String
split_slash String.[] = "" ∷ []
split_slash (String.◌∷◌ c s) =
    let rest = split_slash s in if code c == slash then "" ∷ rest else push_char c rest

unfoldable pub join_slash : List String → String
join_slash [] = ""
join_slash (p ∷ []) = p
join_slash (p ∷ q ∷ ps) = str_append p (str_append "/" (join_slash (q ∷ ps)))

-- path.IsAbs.
unfoldable pub is_abs : String → Bool
is_abs String.[] = false
is_abs (String.◌∷◌ c s) = code c == slash

abbrev pub NoSlash : String → Type 0
NoSlash String.[] = Unit
NoSlash (String.◌∷◌ c s) = (code c ≢ slash) × NoSlash s

push_char-NoSlash :
    (c : Char) (ps : List String) → code c ≢ slash → All NoSlash ps → All NoSlash (push_char c ps)
push_char-NoSlash c [] h k = ((h, tt), tt)
push_char-NoSlash c (p ∷ ps) h (q, k) = ((h, q), k)

pub split_slash-NoSlash : (s : String) → All NoSlash (split_slash s)
unfolding split_slash
split_slash-NoSlash String.[] = (tt, tt)
split_slash-NoSlash (String.◌∷◌ c s) = elim (Bool-cases (code c == slash)) [
  | inl e ↦ rw e (tt, split_slash-NoSlash s)
  | inr e ↦ rw e (push_char-NoSlash c (split_slash s) (ground arith) (split_slash-NoSlash s))
]
