-- ===== src/Encryption/Defs.antt =====
-- Encrypt and Decrypt of internal/encryption/aesgcm.go. Bytes are numbers and a stream is a list of
-- them. A function returns what it has written and its error, since the Go code writes as it
-- goes. Writes succeed and the context is not cancelled; AES-GCM is a parameter.
use backup_restore.Prelude.{
  ℕ, zero, suc, ◌+◌, ◌*◌, ◌/◌, ◌%◌, ◌^◌, Bool, true, false, ◌&&◌, ◌||◌, List, [], ◌∷◌, ◌++◌, Option,
  none, some, ◌≡◌, ltb, leb, ◌==◌, if◌then◌else◌, length, take, drop,
}

-- cipher.AEAD for one key: nonce, text and additional data.
pub record Aead : Type 0 where
  pub seal : List ℕ → List ℕ → List ℕ → List ℕ
  pub unseal : List ℕ → List ℕ → List ℕ → Option (List ℕ)
  pub overhead : ℕ

-- What crypto/cipher documents of GCM with its standard tag.
pub record IsGcm (aead : Aead) : Type 0 where
  pub unseal-seal :
      (nonce plain bound : List ℕ)
      → aead.unseal nonce (aead.seal nonce plain bound) bound ≡ some plain
  pub length-seal :
      (nonce plain bound : List ℕ)
      → length (aead.seal nonce plain bound) ≡ length plain + aead.overhead
  pub tag_length : aead.overhead ≡ 16

-- `stuck` is no Go value: the fuel of a loop ran out.
pub data StreamError : Type 0 where
  bad_key no_randomness read_failed chunk_too_large : StreamError
  no_header bad_magic no_prefix no_length bad_size short_chunk not_authentic stuck : StreamError

abbrev pub Written : Type 0
Written = List ℕ × Option StreamError

abbrev pub wrote : List ℕ → Written → Written
wrote before (after, e) = (before ++ after, e)

-- What an io.Reader gives: its bytes, and then io.EOF or, if `breaks`, another error.
pub record Source : Type 0 where
  pub content : List ℕ
  pub breaks : Bool

abbrev pub magic : List ℕ
magic = 66 ∷ 82 ∷ 71 ∷ 67 ∷ 77 ∷ 48 ∷ 48 ∷ 49 ∷ []

unfoldable pub chunk_size : ℕ
chunk_size = 2 ^ 20

-- binary.BigEndian.PutUint32 and Uint32.
abbrev pub put_uint32 : ℕ → List ℕ
put_uint32 v = (v / 2 ^ 24 % 256) ∷ (v / 2 ^ 16 % 256) ∷ (v / 2 ^ 8 % 256) ∷ (v % 256) ∷ []

unfoldable pub uint32 : List ℕ → ℕ
uint32 (a ∷ b ∷ c ∷ d ∷ []) = a * 2 ^ 24 + b * 2 ^ 16 + c * 2 ^ 8 + d
uint32 _ = 0

abbrev pub put_uint64 : ℕ → List ℕ
put_uint64 v = put_uint32 (v / 2 ^ 32) ++ put_uint32 (v % 2 ^ 32)

-- The counter is a uint64.
unfoldable pub make_nonce : List ℕ → ℕ → List ℕ
make_nonce prefix counter = take 4 prefix ++ put_uint64 (counter % 2 ^ 64)

unfoldable pub frame : Aead → List ℕ → ℕ → List ℕ → List ℕ
unfolding make_nonce
frame aead prefix counter plain =
    let sealed = aead.seal (make_nonce prefix counter) plain magic in
    put_uint32 (length sealed) ++ sealed

unfoldable pub frame_fits : Aead → List ℕ → ℕ → List ℕ → Bool
unfolding make_nonce
frame_fits aead prefix counter plain =
    leb (length (aead.seal (make_nonce prefix counter) plain magic)) 4294967295

-- One chunk, and then what `rest` writes.
abbrev pub write_chunk : Aead → List ℕ → ℕ → List ℕ → Written → Written
unfolding frame_fits
write_chunk aead prefix counter plain rest =
    if frame_fits aead prefix counter plain
    then wrote (frame aead prefix counter plain) rest
    else ([], some chunk_too_large)

-- The last read is short: nothing at all, or a part of a chunk.
abbrev pub last_chunk : Aead → List ℕ → ℕ → Source → Written
last_chunk aead prefix counter src =
    if src.breaks
    then ([], some read_failed)
    else if length src.content == 0
    then ([], none)
    else write_chunk aead prefix counter src.content ([], none)

unfoldable pub encrypt_loop : Aead → List ℕ → ℕ → ℕ → Source → Written
unfolding frame_fits
encrypt_loop aead prefix zero counter src = ([], some stuck)
encrypt_loop aead prefix (suc fuel) counter src =
    let rest =
      encrypt_loop aead prefix fuel (counter + 1)
        (record src { content = drop chunk_size src.content }) in
    if leb chunk_size (length src.content)
    then write_chunk aead prefix counter (take chunk_size src.content) rest
    else last_chunk aead prefix counter src

-- io.ReadFull: the bytes and the rest, io.EOF, or io.ErrUnexpectedEOF.
pub data ReadFull : Type 0 where
  full : List ℕ → List ℕ → ReadFull
  at_end cut_short : ReadFull

unfoldable pub read_full : ℕ → List ℕ → ReadFull
read_full n bytes =
    if leb n (length bytes)
    then full (take n bytes) (drop n bytes)
    else if length bytes == 0
    then at_end
    else cut_short

pub data Chunk : Type 0 where
  ended : Chunk
  broken : StreamError → Chunk
  opened : List ℕ → List ℕ → Chunk

abbrev pub open_chunk : Option (List ℕ) → List ℕ → Chunk
open_chunk none rest = broken not_authentic
open_chunk (some plain) rest = opened plain rest

unfoldable pub read_sealed : Aead → List ℕ → ℕ → ReadFull → Chunk
unfolding make_nonce
read_sealed aead prefix counter (full sealed rest) =
    open_chunk (aead.unseal (make_nonce prefix counter) sealed magic) rest
read_sealed aead prefix counter _ = broken short_chunk

unfoldable pub read_sized : Aead → List ℕ → ℕ → ReadFull → Chunk
unfolding read_full uint32 read_sealed
read_sized aead prefix counter (full bytes rest) =
    if ltb (uint32 bytes) aead.overhead || ltb (chunk_size + aead.overhead) (uint32 bytes)
    then broken bad_size
    else read_sealed aead prefix counter (read_full (uint32 bytes) rest)
read_sized aead prefix counter at_end = ended
read_sized aead prefix counter cut_short = broken no_length

unfoldable pub read_chunk : Aead → List ℕ → ℕ → List ℕ → Chunk
unfolding read_full read_sized
read_chunk aead prefix counter bytes = read_sized aead prefix counter (read_full 4 bytes)

abbrev pub after_chunk : Chunk → (List ℕ → Written) → Written
after_chunk ended continue = ([], none)
after_chunk (broken e) continue = ([], some e)
after_chunk (opened plain rest) continue = wrote plain (continue rest)

unfoldable pub decrypt_loop : Aead → List ℕ → ℕ → ℕ → List ℕ → Written
unfolding read_chunk
decrypt_loop aead prefix zero counter bytes = ([], some stuck)
decrypt_loop aead prefix (suc fuel) counter bytes =
    after_chunk (read_chunk aead prefix counter bytes) (decrypt_loop aead prefix fuel (counter + 1))

unfoldable pub bytes_eq : List ℕ → List ℕ → Bool
bytes_eq [] [] = true
bytes_eq (a ∷ xs) (b ∷ ys) = a == b && bytes_eq xs ys
bytes_eq _ _ = false

unfoldable pub decrypt_body : Aead → ReadFull → Written
unfolding decrypt_loop
decrypt_body aead (full prefix rest) = decrypt_loop aead prefix (suc (length rest)) 0 rest
decrypt_body aead _ = ([], some no_prefix)

unfoldable pub decrypt_header : Aead → ReadFull → Written
unfolding decrypt_body read_full bytes_eq
decrypt_header aead (full header rest) =
    if bytes_eq header magic then decrypt_body aead (read_full 4 rest) else ([], some bad_magic)
decrypt_header aead _ = ([], some no_header)

-- aes.NewCipher and cipher.NewGCM for a key of 32 bytes.
module _ (new_gcm : List ℕ → Aead) where
  -- `random` is what rand.Reader gives for the prefix.
  unfoldable pub encrypt : (key : List ℕ) (random : Option (List ℕ)) → Source → Written
  unfolding encrypt_loop
  encrypt key random src =
      if length key == 32
      then elim random [
        | none ↦ ([], some no_randomness)
        | some prefix ↦
            wrote (magic ++ prefix)
              (encrypt_loop (new_gcm key) prefix (suc (length src.content)) 0 src)
      ]
      else ([], some bad_key)

  unfoldable pub decrypt : (key : List ℕ) → List ℕ → Written
  unfolding decrypt_header read_full
  decrypt key bytes =
      if length key == 32
      then decrypt_header (new_gcm key) (read_full 8 bytes)
      else ([], some bad_key)
