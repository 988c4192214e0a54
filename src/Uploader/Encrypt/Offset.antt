-- ===== src/Uploader/Encrypt/Offset.antt =====
-- Encrypting at an offset is XOR with the keystream of the whole file at that offset, so chunks can
-- be encrypted apart.
use cloudreve_desktop.Prelude.{
  length, take, drop, replicate, All, ℕ, suc, ◌+◌, ◌<◌, min, bit_xor, ◌≡◌, refl, sym, ap, ◌∙◌, [],
  ◌∷◌, ◌++◌, arith, add-zero, ltb, Bool-cases, all, length-take, drop-append_length,
  take-append_length, length-replicate, ◌-◌, inl, inr, take-append-drop, take_all, true, ◌==◌,
  length-append, ◌/◌, ◌%◌, ◌^◌, ==_iff,
}
use mathlib.Core.List.{append-nil}
use cloudreve_desktop.Uploader.Encrypt.{
  Bytes, Cipher, EncryptionConfig, xor_from, increment_counter, unaligned, encrypt_at_offset,
}
use cloudreve_desktop.Uploader.Encrypt.Counter.{
  big_endian, increment_counter-add, increment_counter-IsBytes,
}

-- Key and IV as `from_metadata` accepts them.
pub record IsValid (config : EncryptionConfig) : Type 0 where
  pub iv_length : length config.iv ≡ 16
  pub iv_bytes : All (λ b. b < 256) config.iv

xor_from-append :
    (stream : ℕ → ℕ) (i : ℕ) (xs ys : Bytes)
    → xor_from stream i (xs ++ ys) ≡ xor_from stream i xs ++ xor_from stream (i + length xs) ys
xor_from-append stream i [] ys = rw add-zero
xor_from-append stream i (x ∷ xs) ys =
    ap (λ r. bit_xor x (stream i) ∷ r)
      (xor_from-append stream (suc i) xs ys
        ∙ ap (λ k. xor_from stream (suc i) xs ++ xor_from stream k ys) (omega arith))

-- Two streams that agree, one shifted, encrypt alike.
xor_from-shift :
    (f g : ℕ → ℕ) (i j : ℕ) (xs : Bytes)
    → ((k : ℕ) → f (i + k) ≡ g (j + k))
    → xor_from f i xs ≡ xor_from g j xs
xor_from-shift f g i j [] h = refl
xor_from-shift f g i j (x ∷ xs) h =
    let first : f i ≡ g j = ap f (sym (add-zero i)) ∙ h 0 ∙ ap g (add-zero j) in
    cc (
      first,
      xor_from-shift f g (suc i) (suc j) xs
          (λ k. ap f (omega arith) ∙ h (suc k) ∙ ap g (omega arith)),
    )

length-xor_from : (f : ℕ → ℕ) (i : ℕ) (xs : Bytes) → length (xor_from f i xs) ≡ length xs
length-xor_from f i [] = refl
length-xor_from f i (x ∷ xs) = ap suc (length-xor_from f (suc i) xs)

-- The padded block gives the head of the data XORed at `offset`.
through_block :
    (f : ℕ → ℕ) (offset n : ℕ) (head pad : Bytes)
    → length head ≡ n
    → take n (drop offset (xor_from f 0 (replicate offset 0 ++ (head ++ pad))))
      ≡ xor_from f offset head
through_block f offset n head pad h = rw (xor_from-append f 0 (replicate offset 0) (head ++ pad)) (
    rw
      (drop-append_length (xor_from f 0 (replicate offset 0))
        (xor_from f (0 + length (replicate {A = ℕ} offset 0)) (head ++ pad)) offset
        (length-xor_from f 0 (replicate offset 0) ∙ length-replicate offset 0))
      (rw (length-replicate {A = ℕ} offset 0) (
        rw (xor_from-append f (0 + offset) head pad) (
          take-append_length _ _ n (length-xor_from f (0 + offset) head ∙ h)
          ∙ ap (λ k. xor_from f k head) (omega arith)))))

-- The head through the padded block and the rest from byte 16 on are one pass from `offset` on.
unaligned_lem :
    (f : ℕ → ℕ) (offset : ℕ) (bytes : Bytes)
    → offset < 16
    → unaligned (record { stream = f; position = 0 }) offset bytes ≡ xor_from f offset bytes
unfolding unaligned
unaligned_lem f offset bytes h =
    let n = min (16 - offset) (length bytes) in
    let len : length (take n bytes) ≡ n = length-take n bytes ∙ omega arith in
    rw (through_block f offset n (take n bytes) (replicate (16 - offset - n) 0) len)
      (elim (Bool-cases (ltb n (length bytes))) [
        | inl more ↦ rw more (
            ap (λ k. xor_from f offset (take n bytes) ++ xor_from f k (drop n bytes))
              (block_end n refl len more)
            ∙ sym (xor_from-append f offset (take n bytes) (drop n bytes))
            ∙ ap (xor_from f offset) (take-append-drop n bytes))
        | inr all ↦ rw all (
            append-nil (xor_from f offset (take n bytes))
            ∙ ap (xor_from f offset) (take_all n bytes (ground arith)))
      ])
  where
    -- Where more data is left, the block ends 16 bytes after its start.
    block_end :
        (n : ℕ)
        → n ≡ min (16 - offset) (length bytes)
        → length (take n bytes) ≡ n
        → ltb n (length bytes) ≡ true
        → 0
            + length (
                replicate {A = ℕ} offset 0
                ++ (take n bytes ++ replicate {A = ℕ} (16 - offset - n) 0))
          ≡ offset + length (take n bytes)
    block_end n e len more =
        let padding = replicate {A = ℕ} (16 - offset - n) 0 in
        let lens : length (replicate {A = ℕ} offset 0 ++ (take n bytes ++ padding))
            ≡ offset + (n + (16 - offset - n)) =
          length-append (replicate offset 0) (take n bytes ++ padding)
          ∙ cc (
            length-append (take n bytes) padding,
            length-replicate {A = ℕ} offset 0,
            len,
            length-replicate {A = ℕ} (16 - offset - n) 0,
          ) in
        ground (arith, lens)

-- What the crates document of CTR mode: byte `i` of a stream is byte `i % 16` of the encryption of
-- the block that is `i / 16` above the initial counter, modulo 2 ^ 128.
pub record IsCtr (keystream : Cipher) : Type 0 where
  pub block : Bytes → ℕ → ℕ → ℕ
  pub agrees :
      (key counter : Bytes) (i : ℕ)
      → length counter ≡ 16
      → All (λ b. b < 256) counter
      → keystream key counter i ≡ block key ((big_endian 16 counter + i / 16) % 2 ^ 128) (i % 16)

module _ (keystream : Cipher) (ctr : IsCtr keystream) (config : EncryptionConfig)
    (v : IsValid config) where
  -- Byte `j` of the keystream of the whole file.
  pub file_keystream : ℕ → ℕ
  file_keystream j = ctr.block config.key ((big_endian 16 config.iv + j / 16) % 2 ^ 128) (j % 16)

  -- The cipher made at an offset yields the keystream of the file from the start of the offset's block.
  stream_at :
      (offset k : ℕ)
      → keystream config.key (increment_counter config.iv (offset / 16)) (offset % 16 + k)
        ≡ file_keystream (offset + k)
  unfolding file_keystream
  stream_at offset k =
      let (len, bytes) = increment_counter-IsBytes config.iv (offset / 16) v.iv_length v.iv_bytes in
      ctr.agrees config.key (increment_counter config.iv (offset / 16)) (offset % 16 + k) len bytes
      ∙ cc (at_block, at_byte)
    where
      at_byte : (offset % 16 + k) % 16 ≡ (offset + k) % 16
      at_byte = omega arith

      at_block :
          (big_endian 16 (increment_counter config.iv (offset / 16)) + (offset % 16 + k) / 16)
            % 2 ^ 128
          ≡ (big_endian 16 config.iv + (offset + k) / 16) % 2 ^ 128
      at_block = omega (arith, increment_counter-add config.iv (offset / 16) v.iv_length v.iv_bytes)

  -- For a cipher in CTR mode and an IV of 16 bytes: data at any offset, aligned to a block or
  -- not, is XORed with the keystream of the file at that offset.
  pub encrypt_at_offset-stream :
      (bytes : Bytes) (offset : ℕ)
      → encrypt_at_offset keystream config bytes offset ≡ xor_from file_keystream offset bytes
  unfolding encrypt_at_offset
  encrypt_at_offset-stream bytes offset = elim (Bool-cases (offset % 16 == 0)) [
    | inl aligned ↦ rw aligned (
        xor_from-shift _ _ 0 offset bytes (λ k.
          ap (keystream config.key (increment_counter config.iv (offset / 16)))
            (start k ((==_iff (offset % 16) 0).0 aligned))
          ∙ stream_at offset k))
    | inr inside ↦ rw inside (
        unaligned_lem (keystream config.key (increment_counter config.iv (offset / 16)))
          (offset % 16) bytes (omega arith)
        ∙ xor_from-shift _ file_keystream (offset % 16) offset bytes (stream_at offset))
  ]
    where
      start : (k : ℕ) → offset % 16 ≡ 0 → 0 + k ≡ offset % 16 + k
      start k h = omega arith

  -- For a cipher in CTR mode and an IV of 16 bytes: encrypting two adjacent pieces apart, each
  -- at its own offset, is encrypting them together.
  pub encrypt_at_offset-append :
      (xs ys : Bytes) (offset : ℕ)
      → encrypt_at_offset keystream config (xs ++ ys) offset
        ≡ encrypt_at_offset keystream config xs offset
          ++ encrypt_at_offset keystream config ys (offset + length xs)
  encrypt_at_offset-append xs ys offset =
      rw
        (
          encrypt_at_offset-stream (xs ++ ys) offset,
          encrypt_at_offset-stream xs offset,
          encrypt_at_offset-stream ys (offset + length xs),
        )
        (xor_from-append file_keystream offset xs ys)
