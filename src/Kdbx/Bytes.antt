-- ===== src/Kdbx/Bytes.antt =====
-- Numbers are read back as they were written, and equal digests have equal hex texts.
use maspassword.Base.{
  ℕ, zero, suc, ◌+◌, ◌*◌, ◌/◌, ◌%◌, ◌^◌, ◌<◌, ◌≤◌, ◌≡◌, ◌↔◌, refl, ap, ◌∙◌, true, List, [], ◌∷◌,
  ◌++◌, length, All, get_or, same_text_iff, same_text_refl, take, drop, arith,
}
use maspassword.Blake2b.Context.{hex_digit}
use maspassword.Kdbx.{ok, u32le, u64le_big, get_u32, get_u64, bytes_hex, same_hex}

abbrev pub Bytes : List ℕ → Type 0
Bytes = All (λ b. b < 256)

pub get_u32-u32le : (n : ℕ) (rest : List ℕ) → n < 2 ^ 32 → get_u32 (u32le n ++ rest) ≡ ok n
unfolding get_u32 u32le
get_u32-u32le n rest lt = ap ok (omega arith)

pub get_u64-u64le_big : (n : ℕ) (rest : List ℕ) → n < 2 ^ 64 → get_u64 (u64le_big n ++ rest) ≡ ok n
unfolding get_u64 u64le_big u32le
get_u64-u64le_big n rest lt = ap ok (omega arith)

pub take-append : (xs ys : List ℕ) → take (length xs) (xs ++ ys) ≡ xs
take-append [] ys = refl
take-append (x ∷ xs) ys = ap (λ t. x ∷ t) (take-append xs ys)

pub drop-append : (xs ys : List ℕ) → drop (length xs) (xs ++ ys) ≡ ys
drop-append [] ys = refl
drop-append (x ∷ xs) ys = drop-append xs ys

hex_digit_injective : (a b : ℕ) → a < 16 → b < 16 → hex_digit a ≡ hex_digit b → a ≡ b
hex_digit_injective a b ha hb e = ground arith

cons-eq : {x y : ℕ} {xs ys : List ℕ} → x ∷ xs ≡ y ∷ ys → (x ≡ y) × (xs ≡ ys)
cons-eq {x} {y} {xs} {ys} e = (ap (λ l. get_or l 0 0) e, ap (λ l. drop 1 l) e)

bytes_hex_injective : (a b : List ℕ) → Bytes a → Bytes b → bytes_hex a ≡ bytes_hex b → a ≡ b
unfolding bytes_hex
bytes_hex_injective [] [] ha hb e = refl
bytes_hex_injective [] (y ∷ b) ha hb e = cc
bytes_hex_injective (x ∷ a) [] ha hb e = cc
bytes_hex_injective (x ∷ a) (y ∷ b) ha hb e =
    let (e1, t1) = cons-eq e in
    let (e2, t2) = cons-eq t1 in
    let high : x / 16 ≡ y / 16 =
      hex_digit_injective (x / 16) (y / 16) (omega (arith, ha.0)) (omega (arith, hb.0)) e1 in
    let low : x % 16 ≡ y % 16 =
      hex_digit_injective (x % 16) (y % 16) (omega arith) (omega arith) e2 in
    let same : x ≡ y = omega (arith, high, low) in
    λ i. same i ∷ bytes_hex_injective a b ha.1 hb.1 t2 i

-- The comparison is that of the bytes.
pub same_hex_iff : (a b : List ℕ) → Bytes a → Bytes b → (same_hex a b ≡ true) ↔ (a ≡ b)
unfolding same_hex
same_hex_iff a b ha hb = (
  λ e. bytes_hex_injective a b ha hb ((same_text_iff (bytes_hex a) (bytes_hex b)).0 e),
  λ e. (same_text_iff (bytes_hex a) (bytes_hex b)).1 (ap bytes_hex e),
)

pub same_hex_refl : (a : List ℕ) → same_hex a a ≡ true
unfolding same_hex
same_hex_refl a = same_text_refl (bytes_hex a)

pub drop-u32le : (n k : ℕ) (xs : List ℕ) → drop (4 + k) (u32le n ++ xs) ≡ drop k xs
unfolding u32le
drop-u32le n k xs =
    let four : 4 + k ≡ suc (suc (suc (suc k))) = omega arith in
    ap (λ j. drop j (u32le n ++ xs)) four

-- Slices of bytes that start behind a first part.
pub drop_past : (m k : ℕ) (xs ys : List ℕ) → m ≡ length xs + k → drop m (xs ++ ys) ≡ drop k ys
drop_past m k [] ys e = let same : m ≡ k = omega arith in ap (λ j. drop j ys) same
drop_past zero k (x ∷ xs) ys e = absurd (omega arith)
drop_past (suc m) k (x ∷ xs) ys e = drop_past m k xs ys (omega arith)

pub take_all : (m : ℕ) (xs ys : List ℕ) → m ≡ length xs → take m (xs ++ ys) ≡ xs
take_all m xs ys e = ap (λ j. take j (xs ++ ys)) e ∙ take-append xs ys

pub drop-drop : (m k n : ℕ) (xs : List ℕ) → n ≡ m + k → drop n xs ≡ drop k (drop m xs)
drop-drop zero k n xs e = let same : n ≡ k = omega arith in ap (λ j. drop j xs) same
drop-drop (suc m) zero n [] e = let same : n ≡ suc m = omega arith in ap (λ j. drop j []) same
drop-drop (suc m) (suc k) zero [] e = refl
drop-drop (suc m) (suc k) (suc n) [] e = refl
drop-drop (suc m) k zero (x ∷ xs) e = absurd (omega arith)
drop-drop (suc m) k (suc n) (x ∷ xs) e = drop-drop m k n xs (omega arith)

pub drop-Bytes : (n : ℕ) (xs : List ℕ) → Bytes xs → Bytes (drop n xs)
drop-Bytes zero xs h = h
drop-Bytes (suc n) [] h = h
drop-Bytes (suc n) (x ∷ xs) h = drop-Bytes n xs h.1

pub take-Bytes : (n : ℕ) (xs : List ℕ) → Bytes xs → Bytes (take n xs)
take-Bytes zero xs h = tt
take-Bytes (suc n) [] h = h
take-Bytes (suc n) (x ∷ xs) h = (h.0, take-Bytes n xs h.1)

-- Four bytes are the number that they are read as.
pub u32le-get_u32 :
    (xs : List ℕ)
    → Bytes xs
    → 4 ≤ length xs
    → (n : ℕ) × (get_u32 xs ≡ ok n) × (xs ≡ u32le n ++ drop 4 xs)
unfolding get_u32 u32le
u32le-get_u32 (a ∷ b ∷ c ∷ d ∷ rest) (ha, (hb, (hc, (hd, h)))) le =
    let n : ℕ = ((d * 256 + c) * 256 + b) * 256 + a in
    let first : a ≡ n % 256 = omega arith in
    let second : b ≡ n / 256 % 256 = omega arith in
    let third : c ≡ n / 65536 % 256 = omega arith in
    let fourth : d ≡ n / 16777216 % 256 = omega arith in
    (n, refl, λ i. first i ∷ second i ∷ third i ∷ fourth i ∷ rest)
u32le-get_u32 xs h le = absurd (omega arith)
