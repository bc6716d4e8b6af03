-- ===== src/Paths/Safety.antt =====
-- The path checks of api/v1alpha1/webhook_validation.go.
use backup_restore.Prelude.{
  String, ◌≡◌, ◌≢◌, sym, ap, ◌∙◌, Bool, true, false, ◌||◌, not, inl, inr, List, [], ◌∷◌, arith,
  if◌then◌else◌, str_eq, is_empty, str_append, All, str_eq→eq, eq→str_eq,
}
use backup_restore.Paths.Split.{split_slash, join_slash, is_abs}
use backup_restore.Paths.Clean.{clean, clean_parts, print_clean, IsPlain, NoUp, clean_parts-IsPlain}

any_up : List String → Bool
any_up [] = false
any_up (part ∷ parts) = str_eq part ".." || any_up parts

unfoldable pub safe_absolute_path : String → Bool
unfolding any_up
safe_absolute_path value =
    if is_empty value || not (is_abs value) || str_eq value "/"
    then false
    else if not (str_eq (clean value) value)
    then false
    else not (any_up (split_slash value))

any_up_or_empty : List String → Bool
any_up_or_empty [] = false
any_up_or_empty (part ∷ parts) = (str_eq part ".." || is_empty part) || any_up_or_empty parts

unfoldable pub safe_relative_path : String → Bool
unfolding any_up_or_empty
safe_relative_path value =
    if is_empty value || is_abs value || not (str_eq (clean value) value)
    then false
    else not (any_up_or_empty (split_slash value))

-- A path below the root: plain names, one at least, with a slash before each.
pub record IsBelowRoot (value : String) : Type 0 where
  pub parts : List String
  pub some_part : parts ≢ []
  pub plain : All IsPlain parts
  pub printed : value ≡ str_append "/" (join_slash parts)

-- The current directory, or plain names with slashes between them.
pub record IsBelowHere (value : String) : Type 0 where
  pub parts : List String
  pub plain : All IsPlain parts
  pub printed : value ≡ print_clean false parts

rooted-NoUp : (rooted : Bool) (parts : List String) → rooted ≡ true → All (NoUp rooted) parts
rooted-NoUp rooted [] e = tt
rooted-NoUp rooted (part ∷ parts) e = (inl e, rooted-NoUp rooted parts e)

cleaned : (value : String) → safe_absolute_path value ≡ true → clean value ≡ value
unfolding safe_absolute_path
cleaned value h = ground (arith, str_eq→eq (clean value) value)

rooted : (value : String) → safe_absolute_path value ≡ true → is_abs value ≡ true
unfolding safe_absolute_path
rooted value h = ground arith

below : (value : String) → safe_absolute_path value ≡ true → value ≢ "/"
unfolding safe_absolute_path
below value h = ground (arith, eq→str_eq value "/")

printed_rooted :
    (value : String)
    → is_abs value ≡ true
    → clean value ≡ value
    → value ≡ str_append "/" (join_slash (clean_parts value))
unfolding clean
printed_rooted value a e = sym e ∙ ap (λ b. print_clean b (clean_parts value)) a

-- An absolute path that passes the check is "/" followed by names, one at least, none of them
-- "", "." or ".." or with a slash: it stays below the root and is not the root.
pub safe_absolute_path-IsBelowRoot :
    (value : String) → safe_absolute_path value ≡ true → IsBelowRoot value
unfolding join_slash
safe_absolute_path-IsBelowRoot value h =
    let printed = printed_rooted value (rooted value h) (cleaned value h) in
    record {
      parts = clean_parts value;
      some_part = λ none_left.
          below value h (printed ∙ ap (λ ps. str_append "/" (join_slash ps)) none_left);
      plain =
          clean_parts-IsPlain value
            (rooted-NoUp (is_abs value) (split_slash value) (rooted value h));
      printed = printed;
    }

relative-NoUp :
    (rooted : Bool) (parts : List String) → any_up_or_empty parts ≡ false → All (NoUp rooted) parts
unfolding any_up_or_empty
relative-NoUp rooted [] e = tt
relative-NoUp rooted (part ∷ parts) e =
    (inr (λ up. ground (arith, eq→str_eq part "..")), relative-NoUp rooted parts (ground arith))

cleaned_relative : (value : String) → safe_relative_path value ≡ true → clean value ≡ value
unfolding safe_relative_path
cleaned_relative value h = ground (arith, str_eq→eq (clean value) value)

unrooted : (value : String) → safe_relative_path value ≡ true → is_abs value ≡ false
unfolding safe_relative_path
unrooted value h = ground arith

no_ups :
    (value : String) → safe_relative_path value ≡ true → any_up_or_empty (split_slash value) ≡ false
unfolding safe_relative_path
no_ups value h = ground arith

printed_relative :
    (value : String)
    → is_abs value ≡ false
    → clean value ≡ value
    → value ≡ print_clean false (clean_parts value)
unfolding clean
printed_relative value a e = sym e ∙ ap (λ b. print_clean b (clean_parts value)) a

-- A relative path that passes the check is "." or names with slashes between them, none of the
-- names "", "." or ".." or with a slash.
safe_relative_path-IsBelowHere :
    (value : String) → safe_relative_path value ≡ true → IsBelowHere value
safe_relative_path-IsBelowHere value h = record {
  parts = clean_parts value;
  plain =
      clean_parts-IsPlain value (relative-NoUp (is_abs value) (split_slash value) (no_ups value h));
  printed = printed_relative value (unrooted value h) (cleaned_relative value h);
}
