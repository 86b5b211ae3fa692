-- ===== src/Blake2b/Registers.antt =====
-- Four places of an array as variables: a write to one of them and a read of it.
use maspassword.Base.{
  ℕ, zero, suc, ◌<◌, ◌≡◌, ◌≢◌, refl, sym, ap, ◌∙◌, List, [], ◌∷◌, get_or, set, length, length-set,
  arith,
}

set_again : (v : List ℕ) (i x y : ℕ) → set (set v i x) i y ≡ set v i y
set_again [] i x y = refl
set_again (z ∷ v) zero x y = refl
set_again (z ∷ v) (suc i) x y = ap (λ v. z ∷ v) (set_again v i x y)

set_comm : (v : List ℕ) (i j x y : ℕ) → i ≢ j → set (set v i x) j y ≡ set (set v j y) i x
set_comm [] i j x y h = refl
set_comm (z ∷ v) zero zero x y h = absurd (h refl)
set_comm (z ∷ v) zero (suc j) x y h = refl
set_comm (z ∷ v) (suc i) zero x y h = refl
set_comm (z ∷ v) (suc i) (suc j) x y h = ap (λ v. z ∷ v) (set_comm v i j x y (λ e. h (ap suc e)))

pub get_or-set_self : (v : List ℕ) (i x : ℕ) → i < length v → get_or (set v i x) i 0 ≡ x
get_or-set_self [] i x h = absurd (omega arith)
get_or-set_self (z ∷ v) zero x h = refl
get_or-set_self (z ∷ v) (suc i) x h = get_or-set_self v i x (omega arith)

pub get_or-set_ne : (v : List ℕ) (i j x : ℕ) → i ≢ j → get_or (set v i x) j 0 ≡ get_or v j 0
get_or-set_ne [] i j x h = refl
get_or-set_ne (z ∷ v) zero zero x h = absurd (h refl)
get_or-set_ne (z ∷ v) zero (suc j) x h = refl
get_or-set_ne (z ∷ v) (suc i) zero x h = refl
get_or-set_ne (z ∷ v) (suc i) (suc j) x h = get_or-set_ne v i j x (λ e. h (ap suc e))

pub set_same : (v : List ℕ) (i : ℕ) → set v i (get_or v i 0) ≡ v
set_same [] i = refl
set_same (z ∷ v) zero = refl
set_same (z ∷ v) (suc i) = ap (λ v. z ∷ v) (set_same v i)

-- Four different places below `n`.
pub record Apart (n a b c d : ℕ) : Type 0 where
  pub a_lt : a < n
  pub b_lt : b < n
  pub c_lt : c < n
  pub d_lt : d < n
  pub ab : a ≢ b
  pub ac : a ≢ c
  pub ad : a ≢ d
  pub bc : b ≢ c
  pub bd : b ≢ d
  pub cd : c ≢ d

abbrev pub put : List ℕ → ℕ → ℕ → ℕ → ℕ → ℕ → ℕ → ℕ → ℕ → List ℕ
put v a b c d x y z w = set (set (set (set v a x) b y) c z) d w

module _ (v : List ℕ) (a b c d : ℕ) (apart : Apart (length v) a b c d) (x y z w : ℕ) where
  pub set_d : (u : ℕ) → set (put v a b c d x y z w) d u ≡ put v a b c d x y z u
  set_d u = set_again (set (set (set v a x) b y) c z) d w u

  set_inner : (u : ℕ) → set (set (set (set v a x) b y) c z) c u ≡ set (set (set v a x) b y) c u
  set_inner u = set_again (set (set v a x) b y) c z u

  pub set_c : (u : ℕ) → set (put v a b c d x y z w) c u ≡ put v a b c d x y u w
  set_c u =
      set_comm (set (set (set v a x) b y) c z) d c w u (λ e. apart.cd (sym e))
      ∙ ap (λ t. set t d w) (set_inner u)

  set_b_under_c : (u : ℕ) → set (set (set (set v a x) b y) c z) b u ≡ set (set (set v a x) b u) c z
  set_b_under_c u =
      set_comm (set (set v a x) b y) c b z u (λ e. apart.bc (sym e))
      ∙ ap (λ t. set t c z) (set_again (set v a x) b y u)

  pub set_b : (u : ℕ) → set (put v a b c d x y z w) b u ≡ put v a b c d x u z w
  set_b u =
      set_comm (set (set (set v a x) b y) c z) d b w u (λ e. apart.bd (sym e))
      ∙ ap (λ t. set t d w) (set_b_under_c u)

  set_a_under_b : (u : ℕ) → set (set (set v a x) b y) a u ≡ set (set v a u) b y
  set_a_under_b u =
      set_comm (set v a x) b a y u (λ e. apart.ab (sym e)) ∙ ap (λ t. set t b y) (set_again v a x u)

  set_a_under_c : (u : ℕ) → set (set (set (set v a x) b y) c z) a u ≡ set (set (set v a u) b y) c z
  set_a_under_c u =
      set_comm (set (set v a x) b y) c a z u (λ e. apart.ac (sym e))
      ∙ ap (λ t. set t c z) (set_a_under_b u)

  pub set_a : (u : ℕ) → set (put v a b c d x y z w) a u ≡ put v a b c d u y z w
  set_a u =
      set_comm (set (set (set v a x) b y) c z) d a w u (λ e. apart.ad (sym e))
      ∙ ap (λ t. set t d w) (set_a_under_c u)

  sizes :
      (length (set v a x) ≡ length v)
      × (length (set (set v a x) b y) ≡ length v)
      × (length (set (set (set v a x) b y) c z) ≡ length v)
  sizes = (
    length-set v a x,
    length-set (set v a x) b y ∙ length-set v a x,
    length-set (set (set v a x) b y) c z ∙ length-set (set v a x) b y ∙ length-set v a x,
  )

  pub length-put : length (put v a b c d x y z w) ≡ length v
  length-put = length-set (set (set (set v a x) b y) c z) d w ∙ sizes.2

  pub get_d : get_or (put v a b c d x y z w) d 0 ≡ w
  get_d = get_or-set_self (set (set (set v a x) b y) c z) d w (omega (arith, apart.d_lt, sizes.2))

  pub get_c : get_or (put v a b c d x y z w) c 0 ≡ z
  get_c =
      get_or-set_ne (set (set (set v a x) b y) c z) d c w (λ e. apart.cd (sym e))
      ∙ get_or-set_self (set (set v a x) b y) c z (omega (arith, apart.c_lt, sizes.1))

  pub get_b : get_or (put v a b c d x y z w) b 0 ≡ y
  get_b =
      get_or-set_ne (set (set (set v a x) b y) c z) d b w (λ e. apart.bd (sym e))
      ∙ get_or-set_ne (set (set v a x) b y) c b z (λ e. apart.bc (sym e))
      ∙ get_or-set_self (set v a x) b y (omega (arith, apart.b_lt, sizes.0))

  pub get_a : get_or (put v a b c d x y z w) a 0 ≡ x
  get_a =
      get_or-set_ne (set (set (set v a x) b y) c z) d a w (λ e. apart.ad (sym e))
      ∙ get_or-set_ne (set (set v a x) b y) c a z (λ e. apart.ac (sym e))
      ∙ get_or-set_ne (set v a x) b a y (λ e. apart.ab (sym e))
      ∙ get_or-set_self v a x apart.a_lt

-- Writing back what stands there changes nothing.
pub put_same :
    (v : List ℕ) (a b c d : ℕ)
    → put v a b c d (get_or v a 0) (get_or v b 0) (get_or v c 0) (get_or v d 0) ≡ v
put_same v a b c d = rw (set_same v a, set_same v b, set_same v c, set_same v d)
