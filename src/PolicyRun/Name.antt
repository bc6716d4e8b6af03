-- ===== src/PolicyRun/Name.antt =====
-- DeterministicTaskName of internal/scheduler/scheduler.go. A name is ASCII, as the cluster
-- requires of it, so that a character is a byte.
use Prim.Native.Char.{code}
use Prim.Native.String.append
use native.Mathlib.Nat.{pow-suc}
use backup_restore.Prelude.{
  ℕ, zero, suc, ◌+◌, ◌-◌, ◌/◌, ◌%◌, ◌^◌, ◌≤◌, ◌<◌, ◌≡◌, refl, String, Bool, true, false, ◌&&◌,
  arith, ◌==◌, ltb, is_empty, if◌then◌else◌, str_append, Bool-cases, inl, inr, ap, ◌∙◌, sym, lt→ltb,
}
use backup_restore.Prelude.Int.{ℤ, pos, negsuc}
use backup_restore.Api.{Time}

abbrev pub text_length : String → ℕ
text_length String.[] = 0
text_length (String.◌∷◌ c s) = suc (text_length s)

abbrev pub text_take : ℕ → String → String
text_take zero s = ""
text_take (suc n) String.[] = ""
text_take (suc n) (String.◌∷◌ c s) = String.◌∷◌ c (text_take n s)

abbrev pub dash : ℕ
dash = b'-'

-- strings.TrimLeft(s, "-"), strings.TrimRight(s, "-") and strings.Trim(s, "-").
trim_left : String → String
trim_left String.[] = ""
trim_left (String.◌∷◌ c s) =
    let rest = trim_left s in if code c == dash then rest else String.◌∷◌ c s

unfoldable pub trim_right : String → String
trim_right String.[] = ""
trim_right (String.◌∷◌ c s) =
    let rest = trim_right s in if is_empty rest && (code c == dash) then "" else String.◌∷◌ c rest

unfoldable pub trim : String → String
unfolding trim_left trim_right
trim s = trim_right (trim_left s)

digit : ℕ → String
digit n =
    if n == 0
    then "0"
    else if n == 1
    then "1"
    else if n == 2
    then "2"
    else if n == 3
    then "3"
    else if n == 4
    then "4"
    else if n == 5
    then "5"
    else if n == 6
    then "6"
    else if n == 7
    then "7"
    else if n == 8
    then "8"
    else "9"

-- The decimal digits of a number, k of them at most.
unfoldable pub decimal : ℕ → ℕ → String
unfolding digit
decimal zero n = ""
decimal (suc k) n =
    let rest = decimal k (n / 10) in if ltb n 10 then digit n else str_append rest (digit (n % 10))

-- fmt's %d of an int64, whose absolute value has 19 digits at most.
unfoldable pub signed_decimal : ℤ → String
unfolding decimal
signed_decimal (pos n) = decimal 19 n
signed_decimal (negsuc n) = str_append "-" (decimal 19 (suc n))

-- time.Time.Unix: whole seconds, rounded down.
abbrev pub unix : Time → ℤ
unix (pos n) = pos (n / 1000000000)
unix (negsuc n) = negsuc (n / 1000000000)

abbrev pub suffix_of : Time → String
suffix_of at = str_append "-" (signed_decimal (unix at))

abbrev pub room : Time → ℕ
room at = 63 - text_length (suffix_of at)

-- The policy's name, cut to what the suffix leaves of 63 characters.
prefix_of : String → ℕ → String
unfolding trim trim_right
prefix_of policy_name most =
    if ltb most (text_length (trim policy_name))
    then trim_right (text_take most (trim policy_name))
    else trim policy_name

-- `hash` is the hexadecimal SHA-256 of a text.
unfoldable pub deterministic_task_name : (String → String) → String → Time → String
unfolding prefix_of signed_decimal
deterministic_task_name hash policy_name at =
    let prefix = prefix_of policy_name (room at) in
    str_append
      (if is_empty prefix then str_append "policy-" (text_take 8 (hash policy_name)) else prefix)
      (suffix_of at)

length-append : (s t : String) → text_length (str_append s t) ≡ text_length s + text_length t
length-append String.[] t = ap (λ u. text_length u) (append.nil t) ∙ zero_plus (text_length t)
  where
    zero_plus : (n : ℕ) → n ≡ 0 + n
    zero_plus n = omega arith
length-append (String.◌∷◌ c s) t =
    ap (λ u. text_length u) (append.cons c s t) ∙ omega (arith, length-append s t)

length-take : (n : ℕ) (s : String) → text_length (text_take n s) ≤ n
length-take zero s = omega arith
length-take (suc n) String.[] = omega arith
length-take (suc n) (String.◌∷◌ c s) = omega (arith, length-take n s)

length-trim_right : (s : String) → text_length (trim_right s) ≤ text_length s
unfolding trim_right
length-trim_right String.[] = omega arith
length-trim_right (String.◌∷◌ c s) =
    elim (Bool-cases (is_empty (trim_right s) && (code c == dash))) [
      | inl b ↦ rw b (omega arith)
      | inr b ↦ rw b (omega (arith, length-trim_right s))
    ]

length_if :
    (b : Bool) (s t : String) (n : ℕ)
    → text_length s ≡ n
    → text_length t ≡ n
    → text_length (if b then s else t) ≡ n
length_if true s t n h k = h
length_if false s t n h k = k

length-digit : (n : ℕ) → text_length (digit n) ≡ 1
unfolding digit
length-digit n = length_if (n == 0) _ _ 1 refl (
    length_if (n == 1) _ _ 1 refl (
      length_if (n == 2) _ _ 1 refl (
        length_if (n == 3) _ _ 1 refl (
          length_if (n == 4) _ _ 1 refl (
            length_if (n == 5) _ _ 1 refl (
              length_if (n == 6) _ _ 1 refl
                (length_if (n == 7) _ _ 1 refl (length_if (n == 8) _ _ 1 refl refl))))))))

length-decimal : (k n : ℕ) → text_length (decimal k n) ≤ k
unfolding decimal
length-decimal zero n = omega arith
length-decimal (suc k) n = elim (Bool-cases (ltb n 10)) [
  | inl b ↦ rw b (omega (arith, length-digit n))
  | inr b ↦ rw b (
      omega (
        arith,
        length-append (decimal k (n / 10)) (digit (n % 10)),
        length-digit (n % 10),
        length-decimal k (n / 10),
      ))
]

length-signed_decimal : (n : ℤ) → text_length (signed_decimal n) ≤ 20
unfolding signed_decimal
length-signed_decimal (pos n) = omega (arith, length-decimal 19 n)
length-signed_decimal (negsuc n) =
    omega (arith, length-decimal 19 (suc n), length-append "-" (decimal 19 (suc n)))

-- Further digits make no difference, once there are enough.
decimal_enough : (k n : ℕ) → n < 10 ^ suc k → decimal (suc (suc k)) n ≡ decimal (suc k) n
unfolding decimal
decimal_enough zero n h = elim (Bool-cases (ltb n 10)) [
  | inl b ↦ rw b refl
  | inr b ↦ absurd (ground arith)
]
decimal_enough (suc k) n h = elim (Bool-cases (ltb n 10)) [
  | inl b ↦ rw b refl
  | inr b ↦ rw b (ap (λ u. str_append u (digit (n % 10))) (decimal_enough k (n / 10) (fewer k n h)))
]
  where
    fewer : (k n : ℕ) → n < 10 ^ suc (suc k) → n / 10 < 10 ^ suc k
    fewer k n h = omega (arith, pow-suc 10 (suc k))

length-suffix : (at : Time) → text_length (suffix_of at) ≤ 21
length-suffix at =
    omega (arith, length-append "-" (signed_decimal (unix at)), length-signed_decimal (unix at))

length-prefix : (policy_name : String) (most : ℕ) → text_length (prefix_of policy_name most) ≤ most
unfolding prefix_of
length-prefix policy_name most = elim (Bool-cases (ltb most (text_length (trim policy_name)))) [
  | inl b ↦ rw b (
      omega (
        arith,
        length-trim_right (text_take most (trim policy_name)),
        length-take most (trim policy_name),
      ))
  | inr b ↦ rw b (ground arith)
]

-- The name of a task is never longer than the 63 characters that the cluster allows a label.
length-deterministic_task_name :
    (hash : String → String) (policy_name : String) (at : Time)
    → text_length (deterministic_task_name hash policy_name at) ≤ 63
unfolding deterministic_task_name
length-deterministic_task_name hash policy_name at =
    elim (Bool-cases (is_empty (prefix_of policy_name (room at)))) [
      | inl b ↦ rw b (
          omega (
            arith,
            length-suffix at,
            length-append "policy-" (text_take 8 (hash policy_name)),
            length-take 8 (hash policy_name),
            length-append (str_append "policy-" (text_take 8 (hash policy_name))) (suffix_of at),
          ))
      | inr b ↦ rw b (
          omega (
            arith,
            length-suffix at,
            length-prefix policy_name (room at),
            length-append (prefix_of policy_name (room at)) (suffix_of at),
          ))
    ]

prefix_of_long :
    (policy_name : String) (most : ℕ)
    → most < text_length (trim policy_name)
    → prefix_of policy_name most ≡ trim_right (text_take most (trim policy_name))
unfolding prefix_of
prefix_of_long policy_name most long = rw (lt→ltb most (text_length (trim policy_name)) long) refl

name_of_prefix :
    (hash : String → String) (policy_name : String) (at : Time)
    → is_empty (prefix_of policy_name (room at)) ≡ false
    → deterministic_task_name hash policy_name at
      ≡ str_append (prefix_of policy_name (room at)) (suffix_of at)
unfolding deterministic_task_name
name_of_prefix hash policy_name at e = rw e refl

-- Two policies whose trimmed names are both too long, and agree on the characters that are kept
-- (not all of them dashes), name their tasks of one time alike.
pub deterministic_task_name-collides :
    (hash : String → String) (a b : String) (at : Time)
    → room at < text_length (trim a)
    → room at < text_length (trim b)
    → text_take (room at) (trim a) ≡ text_take (room at) (trim b)
    → is_empty (trim_right (text_take (room at) (trim a))) ≡ false
    → deterministic_task_name hash a at ≡ deterministic_task_name hash b at
deterministic_task_name-collides hash a b at long long' same full =
    let e = prefix_of_long a (room at) long in
    let e' = prefix_of_long b (room at) long' in
    let one : prefix_of a (room at) ≡ prefix_of b (room at) = e ∙ ap trim_right same ∙ sym e' in
    let set : is_empty (prefix_of a (room at)) ≡ false = ap (λ p. is_empty p) e ∙ full in
    name_of_prefix hash a at set
    ∙ ap (λ p. str_append p (suffix_of at)) one
    ∙ sym (name_of_prefix hash b at (ap (λ p. is_empty p) (sym one) ∙ set))
