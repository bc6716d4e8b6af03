-- ===== src/Examples/Secured.antt =====
-- The theorems on streams and manifests at work, with a cipher that only adds a tag.
use backup_restore.Prelude.{
  ℕ, ◌*◌, ◌≡◌, ◌≢◌, refl, List, [], ◌∷◌, ◌++◌, none, some, All, arith, length, drop, replicate,
  length-replicate,
}
use backup_restore.Encryption.{Aead, IsGcm, stuck, chunk_size, encrypt, decrypt}
use backup_restore.Encryption.RoundTrip.{whole, decrypt-encrypt, decrypt-cut}
use backup_restore.Encryption.Ends.{decrypt-ne-stuck}
use backup_restore.Checksum.{Bytes, Entries, find_sum, parse_manifest, manifest, all_hex, strip_cr}
use backup_restore.Checksum.RoundTrip.{IsEntry, lower_sum, parse_manifest-manifest}

abbrev tag : List ℕ
tag = replicate 16 0

abbrev tagging : List ℕ → Aead
tagging key = record {
  seal = λ nonce plain bound. tag ++ plain;
  unseal = λ nonce sealed bound. some (drop 16 sealed);
  overhead = 16;
}

abbrev key : List ℕ
key = replicate 32 1

abbrev prefix : List ℕ
prefix = 1 ∷ 2 ∷ 3 ∷ 4 ∷ []

abbrev text : List ℕ
text = 104 ∷ 101 ∷ 108 ∷ 108 ∷ 111 ∷ []

tagging-IsGcm : IsGcm (tagging key)
tagging-IsGcm = record {
  unseal-seal = λ nonce plain bound. refl;
  length-seal = λ nonce plain bound. omega arith;
  tag_length = refl;
}

decrypt-encrypt_example :
    ((encrypt tagging key (some prefix) (whole text)).1 ≡ none)
    × (decrypt tagging key (encrypt tagging key (some prefix) (whole text)).0 ≡ (text, none))
decrypt-encrypt_example = decrypt-encrypt tagging key prefix tagging-IsGcm refl refl text

decrypt-ne-stuck_example : (decrypt tagging key (7 ∷ 7 ∷ [])).1 ≢ some stuck
decrypt-ne-stuck_example = decrypt-ne-stuck tagging key (7 ∷ 7 ∷ [])

chunk : List ℕ
chunk = replicate chunk_size 7

length-chunk : length chunk ≡ 1 * chunk_size
unfolding chunk
length-chunk = let e : length chunk ≡ chunk_size = length-replicate chunk_size 7 in omega arith

-- A text of one chunk and five bytes, whose stream is cut after the chunk.
decrypt-cut_example :
    (cut rest : List ℕ) × ((encrypt tagging key (some prefix) (whole (chunk ++ text))).0
      ≡ cut ++ rest)
    × (decrypt tagging key cut ≡ (chunk, none))
decrypt-cut_example =
    decrypt-cut tagging key prefix tagging-IsGcm refl refl 1 chunk text length-chunk

-- A file "ab" with the sum of 64 letters B, and a file "c" with 64 zeros.
abbrev two_files : Entries
two_files = (97 ∷ 98 ∷ [], replicate 64 66) ∷ (99 ∷ [], replicate 64 48) ∷ []

two_files-IsEntry : All IsEntry two_files
unfolding all_hex strip_cr
two_files-IsEntry = (
  ((omega arith, (λ e. cc, (λ e. cc, tt)), refl, omega arith), (refl, refl)),
  (((omega arith, (λ e. cc, tt), refl, omega arith), (refl, refl)), tt),
)

parse_manifest-manifest_example :
    (read : Entries) × (parse_manifest (manifest two_files) ≡ some read)
    × ((k : Bytes) → find_sum k read ≡ lower_sum (find_sum k two_files))
parse_manifest-manifest_example = parse_manifest-manifest two_files two_files-IsEntry
