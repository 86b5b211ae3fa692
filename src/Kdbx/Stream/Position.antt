-- ===== src/Kdbx/Stream/Position.antt =====
-- chachaStream and salsaStream: the byte at a position of the key stream is that of the block there.
use Prim.Native.Nat.{bit_xor}
use maspassword.Base.{
  ℕ, ◌+◌, ◌*◌, ◌/◌, ◌%◌, ◌≤◌, ◌≡◌, ◌≢◌, inl, inr, refl, ap, ◌∙◌, Bool-cases, List, [], ◌∷◌, ◌==◌,
  get_or, arith,
}
use maspassword.Kdbx.Stream.{xor, Blocks, fresh, block_byte}

-- Byte `i` with byte `i % 64` of block `i / 64`, from position `i` on.
abbrev pub xor_at : (ℕ → List ℕ) → ℕ → List ℕ → List ℕ
xor_at cipher i [] = []
xor_at cipher i (b ∷ input) =
    bit_xor b (get_or (cipher (i / 64)) (i % 64) 0) ∷ xor_at cipher (i + 1) input

module _ (cipher : ℕ → List ℕ) where
  -- The state after `i` bytes.
  record IsAt (i : ℕ) (s : Blocks) : Type 0 where
    count : s.counter * 64 + s.pos ≡ i + 64
    within : s.pos ≤ 64
    current : s.pos ≢ 64 → s.block ≡ cipher (i / 64)

  Byte : ℕ → ℕ × Blocks → Type 0
  Byte i r = (r.0 ≡ get_or (cipher (i / 64)) (i % 64) 0) × IsAt (i + 1) r.1

  from_block :
      (i j : ℕ) (block : List ℕ) (counter pos : ℕ)
      → block ≡ cipher j
      → j ≡ i / 64
      → pos ≡ i % 64
      → counter * 64 + pos ≡ i + 64
      → Byte i (get_or block pos 0, record { counter = counter; block = block; pos = pos + 1 })
  unfolding Byte
  from_block i j block counter pos b q r c = (
    (λ t. get_or (b t) (r t) 0) ∙ ap (λ k. get_or (cipher k) (i % 64) 0) q,
    record { count = omega arith; within = omega arith; current = λ ne. b ∙ ap cipher (next ne) },
  )
    where
      next : pos + 1 ≢ 64 → j ≡ (i + 1) / 64
      next ne = omega arith

  block_byte_lem : (i : ℕ) (s : Blocks) → IsAt i s → Byte i (block_byte cipher s)
  unfolding block_byte
  block_byte_lem i s at = elim (Bool-cases (s.pos == 64)) [
    | inl full ↦
        let e : s.pos ≡ 64 = ground arith in
        rw full (
          from_block i s.counter (cipher s.counter) (s.counter + 1) 0 refl (omega (arith, at.count))
            (omega (arith, at.count)) (omega (arith, at.count)))
    | inr more ↦
        let ne : s.pos ≢ 64 = ground arith in
        rw more (
          from_block i (i / 64) s.block s.counter s.pos (at.current ne) refl
            (omega (arith, at.count, at.within)) at.count)
  ]

  xor_from :
      (i : ℕ) (s : Blocks) (input : List ℕ)
      → IsAt i s
      → (xor (block_byte cipher) s input).0 ≡ xor_at cipher i input
  unfolding xor Byte
  xor_from i s [] at = refl
  xor_from i s (b ∷ input) at =
      let (byte, later) = block_byte_lem i s at in
      let ih = xor_from (i + 1) (block_byte cipher s).1 input later in
      λ t. bit_xor b (byte t) ∷ ih t

  pub xor-fresh : (input : List ℕ) → (xor (block_byte cipher) fresh input).0 ≡ xor_at cipher 0 input
  xor-fresh input =
      xor_from 0 fresh input
        (record { count = omega arith; within = omega arith; current = λ ne. absurd (ne refl) })
