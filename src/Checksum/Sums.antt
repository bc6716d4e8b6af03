-- ===== src/Checksum/Sums.antt =====
-- Sum and Verify of internal/checksum/checksum.go, of a file that is read to its end. SHA-256 in
-- hexadecimal is a parameter.
use Prim.Native.Char.{code}
use backup_restore.Prelude.{
  ℕ, ◌+◌, String, Bool, true, false, ◌&&◌, List, [], ◌∷◌, leb, ◌==◌, if◌then◌else◌,
}

-- The code points of a text: its bytes, if it is ASCII.
abbrev pub codes : String → List ℕ
codes String.[] = []
codes (String.◌∷◌ c s) = code c ∷ codes s

abbrev pub to_lower : ℕ → ℕ
to_lower c = if leb b'A' c && leb c b'Z' then c + 32 else c

-- strings.EqualFold of texts in ASCII.
unfoldable pub equal_fold : List ℕ → List ℕ → Bool
equal_fold [] [] = true
equal_fold (a ∷ xs) (b ∷ ys) = to_lower a == to_lower b && equal_fold xs ys
equal_fold _ _ = false

unfoldable pub verify_sum : (sum : List ℕ → List ℕ) → List ℕ → List ℕ → Bool
unfolding equal_fold
verify_sum sum bytes expected = equal_fold (sum bytes) expected
