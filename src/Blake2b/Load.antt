-- ===== src/Blake2b/Load.antt =====
-- The message words of a block: LOAD64 on its bytes, and b2b's filling of an array with them.
use Prim.Native.Nat.{bit_or}
use maspassword.Base.{
  ℕ, zero, suc, ◌+◌, ◌*◌, ◌^◌, ◌<◌, ◌≡◌, refl, ap, ◌∙◌, List, [], ◌∷◌, map, get_or, All, arith,
}
use maspassword.Base.Bits.{bit_or_fields}
use maspassword.Blake2b.Wide.{load64, shift_in}
use maspassword.Blake2b.Context.{message}
use maspassword.Blake2b.Arrays.{words, Small}

abbrev pub Bytes : List ℕ → Type 0
Bytes = All (λ x. x < 0x100)

-- The four bytes from `o` on, the first the lowest; a byte that is missing is 0.
abbrev pub le_word : List ℕ → ℕ → ℕ
le_word b o =
    ((get_or b (o + 3) 0 * 2 ^ 8 + get_or b (o + 2) 0) * 2 ^ 8 + get_or b (o + 1) 0) * 2 ^ 8
    + get_or b o 0

unfoldable pub le_words : ℕ → ℕ → List ℕ → List ℕ
le_words zero o b = []
le_words (suc n) o b = le_word b o ∷ le_words n (o + 4) b

pub get_or-Bytes : (b : List ℕ) (i : ℕ) → Bytes b → get_or b i 0 < 0x100
get_or-Bytes [] i h = omega arith
get_or-Bytes (x ∷ b) zero h = h.0
get_or-Bytes (x ∷ b) (suc i) h = get_or-Bytes b i h.1

shift_in-sum : (acc byte : ℕ) → byte < 0x100 → shift_in acc byte ≡ acc * 2 ^ 8 + byte
shift_in-sum acc byte h = bit_or_fields 8 acc byte h

four_shifts :
    (x y z w : ℕ)
    → x < 0x100
    → y < 0x100
    → z < 0x100
    → w < 0x100
    → shift_in (shift_in (shift_in (shift_in 0 x) y) z) w
      ≡ ((x * 2 ^ 8 + y) * 2 ^ 8 + z) * 2 ^ 8 + w
four_shifts x y z w hx hy hz hw =
    ap (λ t. shift_in (shift_in (shift_in t y) z) w) (shift_in-sum 0 x hx ∙ omega arith)
    ∙ ap (λ t. shift_in (shift_in t z) w) (shift_in-sum x y hy)
    ∙ ap (λ t. shift_in t w) (shift_in-sum (x * 2 ^ 8 + y) z hz)
    ∙ shift_in-sum ((x * 2 ^ 8 + y) * 2 ^ 8 + z) w hw

shifts_at :
    (b : List ℕ) (o : ℕ)
    → Bytes b
    → shift_in
        (shift_in
          (shift_in (shift_in 0 (get_or b (o + 3) 0)) (get_or b (o + 2) 0))
          (get_or b (o + 1) 0))
        (get_or b o 0)
      ≡ le_word b o
shifts_at b o h =
    four_shifts (get_or b (o + 3) 0) (get_or b (o + 2) 0) (get_or b (o + 1) 0) (get_or b o 0)
      (get_or-Bytes b (o + 3) h) (get_or-Bytes b (o + 2) h) (get_or-Bytes b (o + 1) h)
      (get_or-Bytes b o h)

pub le_word-lt : (b : List ℕ) (o : ℕ) → Bytes b → le_word b o < 2 ^ 32
le_word-lt b o h = omega (
  arith,
  get_or-Bytes b (o + 3) h,
  get_or-Bytes b (o + 2) h,
  get_or-Bytes b (o + 1) h,
  get_or-Bytes b o h,
)

load64-le_word :
    (b : List ℕ) (o : ℕ) → Bytes b → load64 b o ≡ le_word b (o + 4) * 2 ^ 32 + le_word b o
unfolding load64
load64-le_word b o h =
    (λ i. bit_or (high i * 2 ^ 32) (shifts_at b o h i))
    ∙ bit_or_fields 32 (le_word b (o + 4)) (le_word b o) (le_word-lt b o h)
  where
    e7 : o + 7 ≡ o + 4 + 3
    e7 = omega arith

    e6 : o + 6 ≡ o + 4 + 2
    e6 = omega arith

    e5 : o + 5 ≡ o + 4 + 1
    e5 = omega arith

    high :
        shift_in
          (shift_in
            (shift_in (shift_in 0 (get_or b (o + 7) 0)) (get_or b (o + 6) 0))
            (get_or b (o + 5) 0))
          (get_or b (o + 4) 0)
        ≡ le_word b (o + 4)
    high = rw (e7, e6, e5) (shifts_at b (o + 4) h)

pub le_words-Small : (n o : ℕ) (b : List ℕ) → Bytes b → Small (le_words n o b)
unfolding le_words
le_words-Small zero o b h = tt
le_words-Small (suc n) o b h = (le_word-lt b o h, le_words-Small n (o + 4) b h)

abbrev steps : ℕ → ℕ → List ℕ
steps zero o = []
steps (suc n) o = o ∷ steps n (o + 8)

map-load64 :
    (n o : ℕ) (b : List ℕ) → Bytes b → map (load64 b) (steps n o) ≡ words (le_words (2 * n) o b)
unfolding words le_words
map-load64 zero o b h = refl
map-load64 (suc n) o b h =
    let two : 2 * suc n ≡ suc (suc (2 * n)) = omega arith in
    let next : o + 4 + 4 ≡ o + 8 = omega arith in
    rw (two, next) λ i. load64-le_word b o h i ∷ map-load64 n (o + 8) b h i

-- LOAD64 at the sixteen offsets reads the pairs of little-endian words.
pub message-le_words : (b : List ℕ) → Bytes b → message b ≡ words (le_words 32 0 b)
message-le_words b h = map-load64 16 0 b h
