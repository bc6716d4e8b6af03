-- ===== src/Encryption/Frames.antt =====
-- One chunk of internal/encryption/aesgcm.go: what is written is read back.
use backup_restore.Prelude.{
  ℕ, zero, suc, ◌+◌, ◌^◌, ◌≤◌, ◌<◌, ◌≡◌, refl, ap, ◌∙◌, true, false, List, [], ◌∷◌, ◌++◌, arith,
  ltb, leb, length, take, drop, length-append,
}
use backup_restore.Encryption.Defs.{
  Aead, IsGcm, chunk_size, put_uint32, uint32, make_nonce, magic, frame, frame_fits, read_full,
  full, opened, read_chunk, read_sized, read_sealed, open_chunk,
}

module _ {ℓ} {A : Type ℓ} where
  pub take-length_append : (xs ys : List A) → take (length xs) (xs ++ ys) ≡ xs
  take-length_append [] ys = refl
  take-length_append (x ∷ xs) ys = ap (λ t. x ∷ t) (take-length_append xs ys)

  pub drop-length_append : (xs ys : List A) → drop (length xs) (xs ++ ys) ≡ ys
  drop-length_append [] ys = refl
  drop-length_append (x ∷ xs) ys = drop-length_append xs ys

pub uint32-put : (v : ℕ) → v < 2 ^ 32 → uint32 (put_uint32 v) ≡ v
unfolding uint32
uint32-put v h = omega arith

-- A read of as many bytes as the first part has gives that part.
pub read_full-append : (xs ys : List ℕ) → read_full (length xs) (xs ++ ys) ≡ full xs ys
unfolding read_full
read_full-append xs ys =
    let fits : leb (length xs) (length (xs ++ ys)) ≡ true = ground (arith, length-append xs ys) in
    rw (fits, take-length_append xs ys, drop-length_append xs ys) refl

pub read_full_at : (n : ℕ) (xs ys : List ℕ) → n ≡ length xs → read_full n (xs ++ ys) ≡ full xs ys
read_full_at n xs ys e = rw e (read_full-append xs ys)

chunk_fits : {m n : ℕ} → m ≤ chunk_size → n ≡ m + 16 → n < 2 ^ 32
unfolding chunk_size
chunk_fits h e = omega arith

module _ (aead : Aead) (laws : IsGcm aead) (prefix : List ℕ) where
  open laws use {unseal-seal, length-seal, tag_length}

  pub frame_fits-chunk :
      (counter : ℕ) (plain : List ℕ)
      → length plain ≤ chunk_size
      → frame_fits aead prefix counter plain ≡ true
  unfolding frame_fits chunk_size
  frame_fits-chunk counter plain h =
      ground (arith, length-seal (make_nonce prefix counter) plain magic, tag_length)

  -- Behind a length in range, the chunk of that length is opened.
  read_sized-full :
      (counter : ℕ) (bytes sealed rest : List ℕ)
      → uint32 bytes ≡ length sealed
      → 16 ≤ length sealed
      → length sealed ≤ chunk_size + 16
      → read_sized aead prefix counter (full bytes (sealed ++ rest))
        ≡ read_sealed aead prefix counter (full sealed rest)
  unfolding read_sized
  read_sized-full counter bytes sealed rest e low high =
      let small : ltb (uint32 bytes) aead.overhead ≡ false = ground (arith, tag_length) in
      let large : ltb (chunk_size + aead.overhead) (uint32 bytes) ≡ false =
        ground (arith, tag_length) in
      rw (small, large, read_full_at (uint32 bytes) sealed rest e) refl

  pub read_chunk-frame :
      (counter : ℕ) (plain rest : List ℕ)
      → length plain ≤ chunk_size
      → read_chunk aead prefix counter (frame aead prefix counter plain ++ rest) ≡ opened plain rest
  unfolding read_chunk frame read_sealed
  read_chunk-frame counter plain rest h =
      let sealed : List ℕ = aead.seal (make_nonce prefix counter) plain magic in
      let size : length sealed ≡ length plain + 16 =
        omega (arith, length-seal (make_nonce prefix counter) plain magic, tag_length) in
      ap (read_sized aead prefix counter)
        (read_full_at 4 (put_uint32 (length sealed)) (sealed ++ rest) refl)
      ∙ read_sized-full counter (put_uint32 (length sealed)) sealed rest
          (uint32-put (length sealed) (chunk_fits h size)) (omega arith) (omega arith)
      ∙ ap (λ o. open_chunk o rest) (unseal-seal (make_nonce prefix counter) plain magic)

pub length-frame :
    (aead : Aead) (prefix : List ℕ) (counter : ℕ) (plain rest : List ℕ)
    → length rest + 4 ≤ length (frame aead prefix counter plain ++ rest)
unfolding frame
length-frame aead prefix counter plain rest =
    let sealed : List ℕ = aead.seal (make_nonce prefix counter) plain magic in
    omega (arith, length-append sealed rest)

module _ {ℓ} {A : Type ℓ} where
  pub take-append_le : (n : ℕ) (xs ys : List A) → n ≤ length xs → take n (xs ++ ys) ≡ take n xs
  take-append_le zero xs ys h = refl
  take-append_le (suc n) [] ys h = absurd (omega arith)
  take-append_le (suc n) (x ∷ xs) ys h = ap (λ t. x ∷ t) (take-append_le n xs ys (omega arith))

  pub drop-append_le :
      (n : ℕ) (xs ys : List A) → n ≤ length xs → drop n (xs ++ ys) ≡ drop n xs ++ ys
  drop-append_le zero xs ys h = refl
  drop-append_le (suc n) [] ys h = absurd (omega arith)
  drop-append_le (suc n) (x ∷ xs) ys h = drop-append_le n xs ys (omega arith)
