-- ===== src/Kdbx/Container/Kdf.antt =====
-- aesKdfHalf of web/export.js: CBC over zeros, some blocks at a time, is AES applied again and again.
use maspassword.Base.{
  ℕ, zero, suc, ◌+◌, ◌-◌, ◌*◌, ◌<◌, ◌≤◌, min, ◌≡◌, refl, sym, ap, true, List, length, take, drop,
  replicate, ltb, lt→ltb, arith,
}
use maspassword.Kdbx.Stream.{repeat}
use maspassword.Kdbx.Container.{Browser}
use maspassword.Kdbx.Container.Derive.{chunk_blocks, aes_kdf_half}

repeat-add :
    (m n k : ℕ) (f : List ℕ → List ℕ) (x : List ℕ)
    → k ≡ m + n
    → repeat k f x ≡ repeat n f (repeat m f x)
repeat-add zero n k f x e = let same : k ≡ n = omega arith in ap (λ j. repeat j f x) same
repeat-add (suc m) n zero f x e = absurd (omega arith)
repeat-add (suc m) n (suc k) f x e = repeat-add m n k f (f x) (omega arith)

-- CBC over zeros: a block of 16 bytes of the ciphertext is the encryption of the one before it.
pub record IsCbc (b : Browser) (aes : List ℕ → List ℕ → List ℕ) : Type 0 where
  pub aes_size : (key block : List ℕ) → length (aes key block) ≡ 16
  pub over_zeros :
      (key iv : List ℕ) (blocks i : ℕ)
      → length iv ≡ 16
      → i < blocks
      → take 16 (drop (i * 16) (b.encrypt key iv (replicate (blocks * 16) 0)))
        ≡ repeat (suc i) (aes key) iv

module _ (b : Browser) (aes : List ℕ → List ℕ → List ℕ) (cbc : IsCbc b aes) (key : List ℕ) where
  length-repeat : (n : ℕ) (x : List ℕ) → length x ≡ 16 → length (repeat n (aes key) x) ≡ 16
  length-repeat zero x h = h
  length-repeat (suc n) x h = length-repeat n (aes key x) (cbc.aes_size key x)

  chunk :
      (iv : List ℕ) (blocks : ℕ)
      → length iv ≡ 16
      → 0 < blocks
      → take 16 (drop ((blocks - 1) * 16) (b.encrypt key iv (replicate (blocks * 16) 0)))
        ≡ repeat blocks (aes key) iv
  chunk iv zero h pos = absurd (omega arith)
  chunk iv (suc i) h pos =
      let last : suc i - 1 ≡ i = omega arith in
      rw last (cbc.over_zeros key iv (suc i) i h (omega arith))

  pub aes_kdf_half-repeat :
      (fuel rounds : ℕ) (iv : List ℕ)
      → length iv ≡ 16
      → rounds ≤ fuel
      → aes_kdf_half b fuel key iv rounds ≡ repeat rounds (aes key) iv
  unfolding aes_kdf_half
  aes_kdf_half-repeat zero rounds iv h le =
      let none_left : 0 ≡ rounds = omega arith in ap (λ n. repeat n (aes key) iv) none_left
  aes_kdf_half-repeat (suc fuel) zero iv h le = refl
  aes_kdf_half-repeat (suc fuel) (suc n) iv h le =
      let blocks = min (suc n) chunk_blocks in
      let turn : ltb 0 (suc n) ≡ true = lt→ltb 0 (suc n) (omega arith) in
      rw
        (
          turn,
          chunk iv blocks h (omega arith),
          aes_kdf_half-repeat fuel (suc n - blocks) (repeat blocks (aes key) iv)
              (length-repeat blocks iv h) (omega arith),
        )
        (sym (repeat-add blocks (suc n - blocks) (suc n) (aes key) iv (omega arith)))
