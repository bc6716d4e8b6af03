-- ===== src/Encryption/Ends.antt =====
-- The loops of internal/encryption/aesgcm.go end on every input.
use backup_restore.Prelude.{
  ℕ, zero, suc, ◌+◌, ◌≤◌, ◌<◌, ◌≢◌, ◌||◌, inl, inr, List, Option, none, some, arith, ltb, leb, ◌==◌,
  Bool-cases, length, length-drop,
}
use backup_restore.Encryption.Defs.{
  Aead, Written, stuck, ReadFull, full, at_end, cut_short, read_full, Chunk, ended, broken, opened,
  open_chunk, read_sealed, read_sized, read_chunk, after_chunk, decrypt_loop, decrypt_body,
  decrypt_header, decrypt, bytes_eq, chunk_size, make_nonce, uint32, magic,
}

-- A read leaves as many bytes fewer.
abbrev Leaves : ℕ → List ℕ → ReadFull → Type 0
Leaves n bytes (full taken rest) = length rest + n ≤ length bytes
Leaves n bytes at_end = Unit
Leaves n bytes cut_short = Unit

read_full-Leaves : (n : ℕ) (bytes : List ℕ) → Leaves n bytes (read_full n bytes)
unfolding read_full
read_full-Leaves n bytes = elim (Bool-cases (leb n (length bytes))) [
  | inl enough ↦ rw enough (ground (arith, length-drop n bytes))
  | inr short ↦
      rw short (elim (Bool-cases (length bytes == 0)) [ inl e ↦ rw e tt | inr e ↦ rw e tt ])
]

-- A chunk that is opened leaves fewer bytes, and no chunk is `stuck`.
abbrev Shrinks : ℕ → Chunk → Type 0
Shrinks n ended = Unit
Shrinks n (broken e) = e ≢ stuck
Shrinks n (opened plain rest) = length rest < n

open_chunk-Shrinks :
    (n : ℕ) (o : Option (List ℕ)) (rest : List ℕ) → length rest < n → Shrinks n (open_chunk o rest)
open_chunk-Shrinks n none rest h = λ e. cc
open_chunk-Shrinks n (some plain) rest h = h

read_sealed-Shrinks :
    (aead : Aead) (prefix : List ℕ) (counter n size : ℕ) (bytes : List ℕ) (r : ReadFull)
    → length bytes < n
    → Leaves size bytes r
    → Shrinks n (read_sealed aead prefix counter r)
unfolding read_sealed
read_sealed-Shrinks aead prefix counter n size bytes (full sealed rest) h l =
    open_chunk-Shrinks n (aead.unseal (make_nonce prefix counter) sealed magic) rest (omega arith)
read_sealed-Shrinks aead prefix counter n size bytes at_end h l = λ e. cc
read_sealed-Shrinks aead prefix counter n size bytes cut_short h l = λ e. cc

read_sized-Shrinks :
    (aead : Aead) (prefix : List ℕ) (counter n : ℕ) (bytes : List ℕ) (r : ReadFull)
    → length bytes ≤ n
    → Leaves 4 bytes r
    → Shrinks n (read_sized aead prefix counter r)
unfolding read_sized
read_sized-Shrinks aead prefix counter n bytes (full head rest) h l =
    elim (Bool-cases
      (ltb (uint32 head) aead.overhead || ltb (chunk_size + aead.overhead) (uint32 head))) [
        | inl bad ↦ rw bad (λ e. cc)
        | inr good ↦ rw good (
            read_sealed-Shrinks aead prefix counter n (uint32 head) rest _ (omega arith)
              (read_full-Leaves (uint32 head) rest))
      ]
read_sized-Shrinks aead prefix counter n bytes at_end h l = tt
read_sized-Shrinks aead prefix counter n bytes cut_short h l = λ e. cc

read_chunk-Shrinks :
    (aead : Aead) (prefix : List ℕ) (counter : ℕ) (bytes : List ℕ)
    → Shrinks (length bytes) (read_chunk aead prefix counter bytes)
unfolding read_chunk
read_chunk-Shrinks aead prefix counter bytes =
    read_sized-Shrinks aead prefix counter (length bytes) bytes _ (omega arith)
      (read_full-Leaves 4 bytes)

after_chunk-ne-stuck :
    (n : ℕ) (c : Chunk) (continue : List ℕ → Written)
    → Shrinks n c
    → ((rest : List ℕ) → length rest < n → (continue rest).1 ≢ some stuck)
    → (after_chunk c continue).1 ≢ some stuck
after_chunk-ne-stuck n ended continue s h = λ e. cc
after_chunk-ne-stuck n (broken b) continue s h = λ e. s (cc)
after_chunk-ne-stuck n (opened plain rest) continue s h = h rest s

decrypt_loop-ne-stuck :
    (aead : Aead) (prefix : List ℕ) (fuel counter : ℕ) (bytes : List ℕ)
    → length bytes < fuel
    → (decrypt_loop aead prefix fuel counter bytes).1 ≢ some stuck
unfolding decrypt_loop
decrypt_loop-ne-stuck aead prefix zero counter bytes h = absurd (omega arith)
decrypt_loop-ne-stuck aead prefix (suc fuel) counter bytes h =
    after_chunk-ne-stuck (length bytes) (read_chunk aead prefix counter bytes) _
      (read_chunk-Shrinks aead prefix counter bytes)
      (λ rest l. decrypt_loop-ne-stuck aead prefix fuel (counter + 1) rest (omega arith))

decrypt_body-ne-stuck : (aead : Aead) (r : ReadFull) → (decrypt_body aead r).1 ≢ some stuck
unfolding decrypt_body
decrypt_body-ne-stuck aead (full prefix rest) =
    decrypt_loop-ne-stuck aead prefix (suc (length rest)) 0 rest (omega arith)
decrypt_body-ne-stuck aead at_end = λ e. cc
decrypt_body-ne-stuck aead cut_short = λ e. cc

decrypt_header-ne-stuck : (aead : Aead) (r : ReadFull) → (decrypt_header aead r).1 ≢ some stuck
unfolding decrypt_header
decrypt_header-ne-stuck aead (full header rest) = elim (Bool-cases (bytes_eq header magic)) [
  | inl same ↦ rw same (decrypt_body-ne-stuck aead (read_full 4 rest))
  | inr other ↦ rw other (λ e. cc)
]
decrypt_header-ne-stuck aead at_end = λ e. cc
decrypt_header-ne-stuck aead cut_short = λ e. cc

-- Decrypt ends on every key and every stream, well formed or not, whatever the cipher does: the
-- fuel of its loop does not run out.
pub decrypt-ne-stuck :
    (new_gcm : List ℕ → Aead) (key bytes : List ℕ) → (decrypt new_gcm key bytes).1 ≢ some stuck
unfolding decrypt
decrypt-ne-stuck new_gcm key bytes = elim (Bool-cases (length key == 32)) [
  | inl fits ↦ rw fits (decrypt_header-ne-stuck (new_gcm key) (read_full 8 bytes))
  | inr other ↦ rw other (λ e. cc)
]
