-- ===== src/Encryption/RoundTrip.antt =====
-- What Encrypt writes, Decrypt reads; and what it makes of a stream that is cut short.
use backup_restore.Prelude.{
  ℕ, zero, suc, ◌+◌, ◌*◌, ◌≤◌, ◌<◌, ◌≡◌, refl, ap, sym, ◌∙◌, inl, inr, true, false, List, [], ◌∷◌,
  ◌++◌, none, some, arith, leb, ◌==◌, Bool-cases, length, take, drop, length-append, length-take,
  length-drop, take-append-drop, subst,
}
use backup_restore.Encryption.Defs.{
  Aead, IsGcm, Written, wrote, Source, chunk_size, magic, frame, encrypt, encrypt_loop, read_full,
  read_sized, read_chunk, decrypt, decrypt_loop, decrypt_header, decrypt_body, bytes_eq,
}
use mathlib.Core.List.{append-nil, append_assoc}
use backup_restore.Encryption.Frames.{
  frame_fits-chunk, read_chunk-frame, read_full_at, length-frame, take-append_le, drop-append_le,
}

abbrev pub whole : List ℕ → Source
whole bytes = record { content = bytes; breaks = false }

chunk_size_pos : 0 < chunk_size
unfolding chunk_size
chunk_size_pos = omega arith

module _ (aead : Aead) (laws : IsGcm aead) (prefix : List ℕ) where
  -- The loop of Encrypt, one round.
  encrypt_loop_full :
      (fuel counter : ℕ) (bytes : List ℕ)
      → leb chunk_size (length bytes) ≡ true
      → encrypt_loop aead prefix (suc fuel) counter (whole bytes)
        ≡ wrote
            (frame aead prefix counter (take chunk_size bytes))
            (encrypt_loop aead prefix fuel (counter + 1) (whole (drop chunk_size bytes)))
  unfolding encrypt_loop
  encrypt_loop_full fuel counter bytes h =
      let fits =
        frame_fits-chunk aead laws prefix counter (take chunk_size bytes)
          (omega (arith, length-take chunk_size bytes)) in
      rw (h, fits) refl

  encrypt_loop_part :
      (fuel counter : ℕ) (bytes : List ℕ)
      → leb chunk_size (length bytes) ≡ false
      → 0 < length bytes
      → encrypt_loop aead prefix (suc fuel) counter (whole bytes)
        ≡ (frame aead prefix counter bytes ++ [], none)
  unfolding encrypt_loop
  encrypt_loop_part fuel counter bytes h p =
      let fits = frame_fits-chunk aead laws prefix counter bytes (ground arith) in
      let more : (length bytes == 0) ≡ false = ground arith in rw (h, more, fits) refl

  encrypt_loop_end :
      (fuel counter : ℕ) → encrypt_loop aead prefix (suc fuel) counter (whole []) ≡ ([], none)
  unfolding encrypt_loop
  encrypt_loop_end fuel counter =
      let h : leb chunk_size 0 ≡ false = ground (arith, chunk_size_pos) in rw h refl

  -- Reading a chunk that was written.
  decrypt_loop-frame :
      (fuel counter : ℕ) (plain rest : List ℕ)
      → length plain ≤ chunk_size
      → decrypt_loop aead prefix (suc fuel) counter (frame aead prefix counter plain ++ rest)
        ≡ wrote plain (decrypt_loop aead prefix fuel (counter + 1) rest)
  unfolding decrypt_loop
  decrypt_loop-frame fuel counter plain rest h =
      rw (read_chunk-frame aead laws prefix counter plain rest h) refl

  -- What the loop of Encrypt writes, the loop of Decrypt turns back, if it has the fuel.
  abbrev Reads : ℕ → Written → List ℕ → Type 0
  Reads counter (stream, e) bytes =
      (e ≡ none)
      × ((fuel : ℕ)
          → length stream < fuel
          → decrypt_loop aead prefix fuel counter stream ≡ (bytes, none))

  Reads-wrote :
      (counter : ℕ) (plain rest : List ℕ) (w : Written)
      → length plain ≤ chunk_size
      → Reads (counter + 1) w rest
      → Reads counter (wrote (frame aead prefix counter plain) w) (plain ++ rest)
  Reads-wrote counter plain rest (stream, e) h (none_left, reads) = (none_left, go)
    where
      go :
          (fuel : ℕ)
          → length (frame aead prefix counter plain ++ stream) < fuel
          → decrypt_loop aead prefix fuel counter (frame aead prefix counter plain ++ stream)
            ≡ (plain ++ rest, none)
      go zero l = absurd (omega arith)
      go (suc fuel) l =
          decrypt_loop-frame fuel counter plain stream h
          ∙ ap (wrote plain)
              (reads fuel (omega (arith, length-frame aead prefix counter plain stream)))

  Reads-nil : (counter : ℕ) → Reads counter ([], none) []
  unfolding decrypt_loop read_chunk read_full read_sized
  Reads-nil counter = (refl, go)
    where
      go : (fuel : ℕ) → 0 < fuel → decrypt_loop aead prefix fuel counter [] ≡ ([], none)
      go zero l = absurd (omega arith)
      go (suc fuel) l = refl

  Reads-along :
      (counter : ℕ) (v w : Written) (xs ys : List ℕ)
      → v ≡ w
      → xs ≡ ys
      → Reads counter w xs
      → Reads counter v ys
  Reads-along counter v w xs ys e f r =
      subst (λ t. Reads counter t ys) (sym e) (subst (λ t. Reads counter w t) f r)

  encrypt_loop-Reads :
      (fuel counter : ℕ) (bytes : List ℕ)
      → length bytes < fuel
      → Reads counter (encrypt_loop aead prefix fuel counter (whole bytes)) bytes
  encrypt_loop-Reads zero counter bytes l = absurd (omega arith)
  encrypt_loop-Reads (suc fuel) counter [] l =
      Reads-along counter _ _ [] [] (encrypt_loop_end fuel counter) refl (Reads-nil counter)
  encrypt_loop-Reads (suc fuel) counter (b ∷ bs) l =
      elim (Bool-cases (leb chunk_size (length (b ∷ bs)))) [
        | inl large ↦
            Reads-along counter _ _ _ _ (encrypt_loop_full fuel counter (b ∷ bs) large)
              (take-append-drop chunk_size (b ∷ bs))
              (Reads-wrote counter (take chunk_size (b ∷ bs)) (drop chunk_size (b ∷ bs)) _
                (omega (arith, length-take chunk_size (b ∷ bs)))
                (encrypt_loop-Reads fuel (counter + 1) (drop chunk_size (b ∷ bs))
                  (ground (arith, chunk_size_pos, length-drop chunk_size (b ∷ bs)))))
        | inr small ↦
            Reads-along counter _ _ _ _
              (encrypt_loop_part fuel counter (b ∷ bs) small (omega arith)) (append-nil (b ∷ bs))
              (Reads-wrote counter (b ∷ bs) [] ([], none) (ground arith) (Reads-nil (counter + 1)))
      ]

  -- The stream of a text of whole chunks begins the stream of any longer text.
  encrypt_loop-append :
      (chunks fuel fuel' counter : ℕ) (p q : List ℕ)
      → length p ≡ chunks * chunk_size
      → chunks < fuel
      → chunks ≤ fuel'
      → (rest : List ℕ) × ((encrypt_loop aead prefix fuel' counter (whole (p ++ q))).0
          ≡ (encrypt_loop aead prefix fuel counter (whole p)).0 ++ rest)
  encrypt_loop-append chunks zero fuel' counter p q e l l' = absurd (omega arith)
  encrypt_loop-append zero (suc fuel) fuel' counter [] q e l l' =
      let stream = (encrypt_loop aead prefix fuel' counter (whole q)).0 in
      (stream, sym (ap (λ (w : Written). w.0 ++ stream) (encrypt_loop_end fuel counter)))
  encrypt_loop-append zero (suc fuel) fuel' counter (b ∷ p) q e l l' = absurd (omega arith)
  encrypt_loop-append (suc chunks) (suc fuel) zero counter p q e l l' = absurd (omega arith)
  encrypt_loop-append (suc chunks) (suc fuel) (suc fuel') counter p q e l l' =
      let here : chunk_size ≤ length p = grind arith in
      let left : length (drop chunk_size p) ≡ chunks * chunk_size =
        grind (arith, length-drop chunk_size p) in
      let (rest, same) =
        encrypt_loop-append chunks fuel fuel' (counter + 1) (drop chunk_size p) q left (omega arith)
          (omega arith) in
      (
        rest,
        ap (λ (w : Written). w.0)
              (encrypt_loop_full fuel' counter (p ++ q) (ground (arith, length-append p q)))
            ∙ rw (take-append_le chunk_size p q here, drop-append_le chunk_size p q here, same)
                (sym (append_assoc (frame aead prefix counter (take chunk_size p)) _ rest)
                  ∙ sym (
                      ap (λ (w : Written). w.0 ++ rest)
                        (encrypt_loop_full fuel counter p (ground arith)))),
      )

module _ (new_gcm : List ℕ → Aead) (key prefix : List ℕ) (laws : IsGcm (new_gcm key))
    (key_length : length key ≡ 32) (prefix_length : length prefix ≡ 4) where
  -- Behind the magic bytes and the prefix stands what the loop writes.
  encrypt_body :
      (bytes : List ℕ)
      → encrypt new_gcm key (some prefix) (whole bytes)
        ≡ wrote
            (magic ++ prefix)
            (encrypt_loop (new_gcm key) prefix (suc (length bytes)) 0 (whole bytes))
  unfolding encrypt
  encrypt_body bytes = rw key_length refl

  decrypt_body_at :
      (stream : List ℕ)
      → decrypt new_gcm key ((magic ++ prefix) ++ stream)
        ≡ decrypt_loop (new_gcm key) prefix (suc (length stream)) 0 stream
  unfolding decrypt decrypt_header decrypt_body bytes_eq
  decrypt_body_at stream =
      rw (key_length, read_full_at 8 magic (prefix ++ stream) refl)
        (rw (read_full_at 4 prefix stream (sym prefix_length)) refl)

  -- With a key of 32 bytes and a prefix of 4 random bytes, a source that is read to its end is
  -- encrypted without an error, and the stream is decrypted without an error to the bytes of the
  -- source, whatever their number is.
  pub decrypt-encrypt :
      (bytes : List ℕ)
      → ((encrypt new_gcm key (some prefix) (whole bytes)).1 ≡ none)
        × (decrypt new_gcm key (encrypt new_gcm key (some prefix) (whole bytes)).0 ≡ (bytes, none))
  decrypt-encrypt bytes =
      let (fine, reads) =
        encrypt_loop-Reads (new_gcm key) laws prefix (suc (length bytes)) 0 bytes (omega arith) in
      rw (encrypt_body bytes) (fine, decrypt_body_at _ ∙ reads _ (omega arith))

  -- A text of whole chunks can be taken for a longer text: the stream of the longer text begins
  -- with a stream that is decrypted, without an error, to the first part alone. So a stream that is
  -- cut at the end of a chunk passes for a whole one.
  pub decrypt-cut :
      (chunks : ℕ) (p q : List ℕ)
      → length p ≡ chunks * chunk_size
      → (cut rest : List ℕ) × ((encrypt new_gcm key (some prefix) (whole (p ++ q))).0 ≡ cut ++ rest)
        × (decrypt new_gcm key cut ≡ (p, none))
  decrypt-cut chunks p q e =
      let few : chunks ≤ length p = grind (arith, chunk_size_pos) in
      let (rest, same) =
        encrypt_loop-append (new_gcm key) laws prefix chunks (suc (length p))
          (suc (length (p ++ q))) 0 p q e (omega arith) (omega (arith, length-append p q)) in
      let begun : List ℕ = (encrypt new_gcm key (some prefix) (whole p)).0 in
      (
        begun,
        rest,
        rw (encrypt_body (p ++ q), encrypt_body p, same)
            (sym (append_assoc (magic ++ prefix) _ rest)),
        (decrypt-encrypt p).1,
      )
