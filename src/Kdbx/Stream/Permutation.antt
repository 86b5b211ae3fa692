-- ===== src/Kdbx/Stream/Permutation.antt =====
-- arc4Stream: the table is a permutation of the bytes, from the key schedule on.
use native.Mathlib.Nat.{mod-lt}
use maspassword.Base.{
  ℕ, zero, suc, ◌+◌, ◌%◌, ◌<◌, ◌≤◌, ◌≡◌, refl, ◌∙◌, ap, inl, inr, some, List, [], ◌∷◌, ◌==◌,
  Bool-cases, length, get_elem?, count, arith,
}
use maspassword.Base.Swaps.{IsShuffled, IsShuffled-refl, IsShuffled-trans, exchange-IsShuffled}
use maspassword.Kdbx.Stream.{
  xor, Arc4, word, swap_at, key_index, schedule, count_up, arc4_start, arc4_byte,
}

word_lem : (xs : List ℕ) (i : ℕ) → i < length xs → get_elem? xs i ≡ some (word xs i)
word_lem [] i h = absurd (omega arith)
word_lem (x ∷ xs) zero h = refl
word_lem (x ∷ xs) (suc i) h = word_lem xs i (omega arith)

swap_at-IsShuffled :
    (i j : ℕ) (xs : List ℕ) → i < length xs → j < length xs → IsShuffled xs (swap_at i j xs)
swap_at-IsShuffled i j xs hi hj =
    exchange-IsShuffled xs i j (word xs i) (word xs j) (word_lem xs i hi) (word_lem xs j hj)

length-count_up : (n i : ℕ) → length (count_up n i) ≡ n
length-count_up zero i = refl
length-count_up (suc n) i = ap suc (length-count_up n (i + 1))

count_none : (n i c : ℕ) → c < i → count c (count_up n i) ≡ 0
unfolding count
count_none zero i c h = refl
count_none (suc n) i c h = ground (arith, count_none n (i + 1) c (omega arith))

count_once : (n i c : ℕ) → i ≤ c → c < i + n → count c (count_up n i) ≡ 1
unfolding count
count_once zero i c le lt = absurd (omega arith)
count_once (suc n) i c le lt = elim (Bool-cases (c == i)) [
  | inl here ↦ ground (arith, count_none n (i + 1) c (ground arith))
  | inr later ↦ ground (arith, count_once n (i + 1) c (ground arith) (ground arith))
]

-- A permutation of the bytes, and two indices into it.
pub record IsTable (a : Arc4) : Type 0 where
  pub size : length a.s ≡ 256
  pub once : (c : ℕ) → c < 256 → count c a.s ≡ 1
  pub x_in : a.x < 256
  pub y_in : a.y < 256

key_index-lt : (key : List ℕ) (i j v : ℕ) → key_index key i j v < 256
key_index-lt [] i j v = omega arith
key_index-lt (k ∷ key) i j v = mod-lt _ (omega arith)

schedule-IsShuffled :
    (key : List ℕ) (n i j : ℕ) (s : List ℕ)
    → length s ≡ 256
    → i + n ≤ 256
    → IsShuffled s (schedule key n i j s)
unfolding schedule
schedule-IsShuffled key zero i j s h le = IsShuffled-refl s
schedule-IsShuffled key (suc n) i j s h le =
    let j' = key_index key i j (word s i) in
    let below : j' < 256 = key_index-lt key i j (word s i) in
    let p = swap_at-IsShuffled i j' s (omega arith) (omega arith) in
    IsShuffled-trans p
      (schedule-IsShuffled key n (i + 1) j' (swap_at i j' s) (omega (arith, p.size)) (omega arith))

arc4_start-IsTable : (key : List ℕ) → IsTable (arc4_start key)
unfolding arc4_start
arc4_start-IsTable key =
    let p =
      schedule-IsShuffled key 256 0 0 (count_up 256 0) (length-count_up 256 0) (omega arith) in
    record {
      size = p.size ∙ length-count_up 256 0;
      once = λ c h. p.counts c ∙ count_once 256 0 c (omega arith) (omega arith);
      x_in = omega arith;
      y_in = omega arith;
    }

arc4_byte-IsTable : (a : Arc4) → IsTable a → IsTable (arc4_byte a).1
unfolding arc4_byte
arc4_byte-IsTable a t =
    let x = (a.x + 1) % 256 in
    let y = (a.y + word a.s x) % 256 in
    let p = swap_at-IsShuffled x y a.s (omega (arith, t.size)) (omega (arith, t.size)) in
    record {
      size = p.size ∙ t.size;
      once = λ c h. p.counts c ∙ t.once c h;
      x_in = omega arith;
      y_in = omega arith;
    }

xor-IsTable : (a : Arc4) (input : List ℕ) → IsTable a → IsTable (xor arc4_byte a input).1
unfolding xor
xor-IsTable a [] t = t
xor-IsTable a (b ∷ input) t = xor-IsTable (arc4_byte a).1 input (arc4_byte-IsTable a t)

pub arc4_permutation : (key input : List ℕ) → IsTable (xor arc4_byte (arc4_start key) input).1
arc4_permutation key input = xor-IsTable (arc4_start key) input (arc4_start-IsTable key)
