-- ===== src/Qr/Bits.antt =====
-- The bit buffer of web/qr.js: numbers and bytes are read back from it.
pub mod Bytes
use maspassword.Base.{
  ℕ, zero, suc, ◌+◌, ◌-◌, ◌*◌, ◌/◌, ◌%◌, ◌^◌, ◌<◌, ◌≤◌, ◌≡◌, refl, sym, ap, ◌∙◌, List, [], ◌∷◌,
  ◌++◌, length, All, get_or, set, take, drop, length-append, replicate, append_assoc, arith,
}
use maspassword.Base.Bits.{bit_or_fields}
use Prim.Native.Nat.{bit_or}
use native.Mathlib.Nat.{
  pow-suc, one-le-pow, mul-add-div_right, div-eq_of_lt, mod-eq_of_lt, mod-lt, div-add-mod',
  div-lt_iff_lt-mul,
}
use maspassword.Qr.{push_bits, or_bits, to_bytes}

abbrev pub BitList : List ℕ → Type 0
BitList = All (λ b. b < 2)

pow_pos : (n : ℕ) → 0 < 2 ^ n
pow_pos n = omega (arith, one-le-pow n 2)

-- The number that bits write, the first the highest.
unfoldable pub number : List ℕ → ℕ
number [] = 0
number (b ∷ bits) = b * 2 ^ length bits + number bits

pub number-lt : (bits : List ℕ) → BitList bits → number bits < 2 ^ length bits
unfolding number
number-lt [] h = omega arith
number-lt (zero ∷ bits) h = omega (arith, number-lt bits h.1, pow-suc 2 (length bits))
number-lt (suc zero ∷ bits) h = omega (arith, number-lt bits h.1, pow-suc 2 (length bits))
number-lt (suc (suc b) ∷ bits) h = absurd (omega (arith, h.0))

pub length-push_bits : (v n : ℕ) → length (push_bits v n) ≡ n
unfolding push_bits
length-push_bits v zero = refl
length-push_bits v (suc n) = ap suc (length-push_bits v n)

pub push_bits-BitList : (v n : ℕ) → BitList (push_bits v n)
unfolding push_bits
push_bits-BitList v zero = tt
push_bits-BitList v (suc n) = (omega arith, push_bits-BitList v n)

-- Higher digits do not count.
low_digits : (q r n : ℕ) → push_bits (q * 2 ^ n + r) n ≡ push_bits r n
unfolding push_bits
low_digits q r zero = refl
low_digits q r (suc n) =
    let whole : q * 2 ^ suc n + r ≡ (2 * q) * 2 ^ n + r = shape in
    let digit : (q * 2 ^ suc n + r) / 2 ^ n % 2 ≡ r / 2 ^ n % 2 =
      ap (λ t. t / 2 ^ n % 2) whole
      ∙ ap (λ t. t % 2) (mul-add-div_right (pow_pos n) (2 * q) r)
      ∙ omega arith in
    λ i. digit i ∷ ((ap (λ t. push_bits t n) whole) ∙ low_digits (2 * q) r n) i
  where
    shape : q * 2 ^ suc n + r ≡ (2 * q) * 2 ^ n + r
    shape = omega (arith, ap (λ (t : ℕ). q * t) (pow-suc 2 n))

pub push_bits-number : (bits : List ℕ) → BitList bits → push_bits (number bits) (length bits) ≡ bits
unfolding push_bits number
push_bits-number [] h = refl
push_bits-number (b ∷ bits) h =
    let lt = number-lt bits h.1 in
    let digit : (b * 2 ^ length bits + number bits) / 2 ^ length bits % 2 ≡ b =
      ap (λ t. t % 2) (mul-add-div_right (pow_pos (length bits)) b (number bits))
      ∙ omega (arith, div-eq_of_lt lt, h.0, mod-eq_of_lt h.0) in
    λ i. digit i ∷ (low_digits b (number bits) (length bits) ∙ push_bits-number bits h.1) i

pub number-push_bits : (v n : ℕ) → v < 2 ^ n → number (push_bits v n) ≡ v
unfolding push_bits number
number-push_bits v zero lt = omega arith
number-push_bits v (suc n) lt =
    let parts : v ≡ v / 2 ^ n * 2 ^ n + v % 2 ^ n = sym (div-add-mod' v (2 ^ n)) in
    let high : v / 2 ^ n % 2 ≡ v / 2 ^ n =
      mod-eq_of_lt ((div-lt_iff_lt-mul (pow_pos n)).1 (omega (arith, pow-suc 2 n))) in
    let low : number (push_bits v n) ≡ v % 2 ^ n =
      ap (λ t. number (push_bits t n)) parts
      ∙ ap number (low_digits (v / 2 ^ n) (v % 2 ^ n) n)
      ∙ number-push_bits (v % 2 ^ n) n (mod-lt v (pow_pos n)) in
    ap (λ t. v / 2 ^ n % 2 * 2 ^ t + number (push_bits v n)) (length-push_bits v n)
    ∙ ap (λ t. t * 2 ^ n + number (push_bits v n)) high
    ∙ ap (λ t. v / 2 ^ n * 2 ^ n + t) low
    ∙ sym parts

-- The bits of one byte fill it from its highest bit down.
set-past : (xs ys : List ℕ) (x v : ℕ) → set (xs ++ x ∷ ys) (length xs) v ≡ xs ++ v ∷ ys
set-past [] ys x v = refl
set-past (y ∷ xs) ys x v = ap (λ t. y ∷ t) (set-past xs ys x v)

get_or-past : (xs ys : List ℕ) (x : ℕ) → get_or (xs ++ x ∷ ys) (length xs) 0 ≡ x
get_or-past [] ys x = refl
get_or-past (y ∷ xs) ys x = get_or-past xs ys x

bit_lt : (b m : ℕ) → b < 2 → b * 2 ^ m < 2 ^ suc m
bit_lt zero m h = omega (arith, pow_pos (suc m))
bit_lt (suc zero) m h = omega (arith, pow-suc 2 m, pow_pos m)
bit_lt (suc (suc b)) m h = absurd (omega arith)

-- `bits` are the last bits of the byte behind `out`, in which `x` was written.
pub fill_byte :
    (bits rest out tail : List ℕ) (x i : ℕ)
    → BitList bits
    → i + length bits ≡ length out * 8 + 8
    → length bits ≤ 8
    → or_bits (bits ++ rest) i (out ++ x * 2 ^ length bits ∷ tail)
      ≡ or_bits rest (length out * 8 + 8) (out ++ (x * 2 ^ length bits + number bits) ∷ tail)
unfolding or_bits number
fill_byte [] rest out tail x i h e k =
    let same : i ≡ length out * 8 + 8 = omega arith in
    let value : x * 2 ^ 0 ≡ x * 2 ^ 0 + 0 = omega arith in
    λ j. or_bits rest (same j) (out ++ value j ∷ tail)
fill_byte (b ∷ bits) rest out tail x i h e k =
    let m = length bits in
    let here : i / 8 ≡ length out = omega (arith, e, k) in
    let shift : 7 - i % 8 ≡ m = omega (arith, e, k) in
    let old : get_or (out ++ x * 2 ^ suc m ∷ tail) (i / 8) 0 ≡ x * 2 ^ suc m =
      ap (λ t. get_or (out ++ x * 2 ^ suc m ∷ tail) t 0) here
      ∙ get_or-past out tail (x * 2 ^ suc m) in
    let twice : x * 2 ^ suc m ≡ (2 * x) * 2 ^ m =
      omega (arith, ap (λ (t : ℕ). x * t) (pow-suc 2 m)) in
    let new : bit_or (x * 2 ^ suc m) (b * 2 ^ m) ≡ (2 * x + b) * 2 ^ m =
      bit_or_fields (suc m) x (b * 2 ^ m) (bit_lt b m h.0) ∙ omega (arith, twice) in
    let written : set (out ++ x * 2 ^ suc m ∷ tail) (i / 8)
          (bit_or (get_or (out ++ x * 2 ^ suc m ∷ tail) (i / 8) 0) (b * 2 ^ (7 - i % 8)))
        ≡ out ++ (2 * x + b) * 2 ^ m ∷ tail =
      (λ j. set (out ++ x * 2 ^ suc m ∷ tail) (here j) (bit_or (old j) (b * 2 ^ shift j)))
      ∙ set-past out tail (x * 2 ^ suc m) _
      ∙ ap (λ t. out ++ t ∷ tail) new in
    let ih =
      fill_byte bits rest out tail (2 * x + b) (suc i) h.1 (omega (arith, e)) (omega arith) in
    ap (or_bits (bits ++ rest) (suc i)) written
    ∙ ih
    ∙ ap (λ t. or_bits rest (length out * 8 + 8) (out ++ t ∷ tail)) (omega (arith, twice))
