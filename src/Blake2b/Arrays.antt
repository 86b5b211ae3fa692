-- ===== src/Blake2b/Arrays.antt =====
-- An array of pairs as the list of its 64-bit words.
use maspassword.Base.{
  ℕ, zero, suc, ◌+◌, ◌*◌, ◌^◌, ◌<◌, ◌≡◌, refl, ap, ◌∙◌, List, [], ◌∷◌, ◌++◌, get_or, set, length,
  length-set, All, All-append, drop, arith,
}
use maspassword.Blake2b.Pairs.{Pair, read, write}
use maspassword.Blake2b.Words.{value, IsPair}

-- A last half without its other half is a word of its own.
unfoldable pub words : List ℕ → List ℕ
words [] = []
words (lo ∷ []) = lo ∷ []
words (lo ∷ hi ∷ rest) = (hi * 2 ^ 32 + lo) ∷ words rest

abbrev pub Small : List ℕ → Type 0
Small = All (λ x. x < 2 ^ 32)

two_more : (i : ℕ) → 2 * suc i ≡ suc (suc (2 * i))
two_more i = omega arith

two_more_odd : (i : ℕ) → 2 * suc i + 1 ≡ suc (suc (2 * i + 1))
two_more_odd i = omega arith

pub get_or-words : (p : List ℕ) (i : ℕ) → get_or (words p) i 0 ≡ value (read p i)
unfolding words
get_or-words [] i = omega arith
get_or-words (lo ∷ []) zero = omega arith
get_or-words (lo ∷ []) (suc i) = rw (two_more_odd i, two_more i) (omega arith)
get_or-words (lo ∷ hi ∷ p) zero = refl
get_or-words (lo ∷ hi ∷ p) (suc i) = rw (two_more_odd i, two_more i) (get_or-words p i)

pub words-write :
    (p : List ℕ) (i : ℕ) (x : Pair)
    → 2 * i + 1 < length p
    → words (write p i x) ≡ set (words p) i (value x)
unfolding words
words-write [] i x h = absurd (omega arith)
words-write (lo ∷ []) i x h = absurd (omega arith)
words-write (lo ∷ hi ∷ p) zero x h = refl
words-write (lo ∷ hi ∷ p) (suc i) x h =
    rw (two_more_odd i, two_more i)
      (ap (λ ws. (hi * 2 ^ 32 + lo) ∷ ws) (words-write p i x (omega arith)))

pub get_or-Small : (p : List ℕ) (i : ℕ) → Small p → get_or p i 0 < 2 ^ 32
get_or-Small [] i h = omega arith
get_or-Small (x ∷ p) zero h = h.0
get_or-Small (x ∷ p) (suc i) h = get_or-Small p i h.1

pub read-IsPair : (p : List ℕ) (i : ℕ) → Small p → IsPair (read p i)
read-IsPair p i h = record {
  lo_lt = get_or-Small p (2 * i) h;
  hi_lt = get_or-Small p (2 * i + 1) h;
}

pub set-Small : (p : List ℕ) (i x : ℕ) → Small p → x < 2 ^ 32 → Small (set p i x)
set-Small [] i x h k = tt
set-Small (y ∷ p) zero x h k = (k, h.1)
set-Small (y ∷ p) (suc i) x h k = (h.0, set-Small p i x h.1 k)

pub write-Small : (p : List ℕ) (i : ℕ) (x : Pair) → Small p → IsPair x → Small (write p i x)
write-Small p i x h k =
    set-Small (set p (2 * i) x.lo) (2 * i + 1) x.hi (set-Small p (2 * i) x.lo h k.lo_lt) k.hi_lt

pub length-write : (p : List ℕ) (i : ℕ) (x : Pair) → length (write p i x) ≡ length p
length-write p i x = length-set (set p (2 * i) x.lo) (2 * i + 1) x.hi ∙ length-set p (2 * i) x.lo

pub length-words : (p : List ℕ) (n : ℕ) → length p ≡ 2 * n → length (words p) ≡ n
unfolding words
length-words [] zero h = refl
length-words [] (suc n) h = absurd (omega arith)
length-words (lo ∷ []) n h = absurd (omega arith)
length-words (lo ∷ hi ∷ p) zero h = absurd (omega arith)
length-words (lo ∷ hi ∷ p) (suc n) h = ap suc (length-words p n (omega arith))

pub words-append : (n : ℕ) (p q : List ℕ) → length p ≡ 2 * n → words (p ++ q) ≡ words p ++ words q
unfolding words
words-append n [] q h = refl
words-append n (lo ∷ []) q h = absurd (omega arith)
words-append zero (lo ∷ hi ∷ p) q h = absurd (omega arith)
words-append (suc n) (lo ∷ hi ∷ p) q h =
    ap (λ ws. (hi * 2 ^ 32 + lo) ∷ ws) (words-append n p q (omega arith))

pub words-drop : (n : ℕ) (p : List ℕ) → words (drop (2 * n) p) ≡ drop n (words p)
unfolding words
words-drop zero p = refl
words-drop (suc n) [] = rw (two_more n) refl
words-drop (suc n) (lo ∷ []) = rw (two_more n) (nothing n)
  where
    nothing : (n : ℕ) → words (drop (suc (2 * n)) []) ≡ drop n []
    nothing zero = refl
    nothing (suc n) = refl
words-drop (suc n) (lo ∷ hi ∷ p) = rw (two_more n) (words-drop n p)

pub Small-append : (p q : List ℕ) → Small p → Small q → Small (p ++ q)
Small-append p q h k = All-append (λ x. x < 2 ^ 32) p q h k

pub Small-drop : (n : ℕ) (p : List ℕ) → Small p → Small (drop n p)
Small-drop zero p h = h
Small-drop (suc n) [] h = tt
Small-drop (suc n) (x ∷ p) h = Small-drop n p h.1
