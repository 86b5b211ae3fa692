-- ===== src/Generator/Run.antt =====
-- What a random computation ensures of its results, and when the values at hand are enough for it.
use mathlib.Core.Path.{subst}
use maspassword.Base.{ℕ, ◌+◌, ◌-◌, ◌≤◌, ◌^◌, ◌≡◌, ◌≢◌, refl, List, length, All, arith}
use maspassword.Generator.{Outcome, done, failed, starved, ◌>>=◌}

-- There is no exception, and a normal result is in `P`.
abbrev pub Ensures {ℓ} : {A : Type ℓ} → (A → Type 0) → Outcome A → Type 0
Ensures P (done a rest) = P a
Ensures P failed = ⊥
Ensures P starved = Unit

pub Ensures-bind {ℓ κ} :
    {A : Type ℓ} {B : Type κ} (Q : A → Type 0) (P : B → Type 0) (m : List ℕ → Outcome A)
    (f : A → List ℕ → Outcome B) (draws : List ℕ)
    → Ensures Q (m draws)
    → ((a : A) (rest : List ℕ) → Q a → Ensures P (f a rest))
    → Ensures P ((m >>= f) draws)
Ensures-bind {A} {B} Q P m f draws h k = go (m draws) refl h
  where
    go : (o : Outcome A) → m draws ≡ o → Ensures Q o → Ensures P ((m >>= f) draws)
    go (done a rest) e q = rw e (k a rest q)
    go failed e q = absurd q
    go starved e q = rw e tt

pub Ensures-map {ℓ} :
    {A : Type ℓ} (Q P : A → Type 0) (o : Outcome A)
    → ((a : A) → Q a → P a)
    → Ensures Q o
    → Ensures P o
Ensures-map Q P (done a rest) f h = f a h
Ensures-map Q P failed f h = h
Ensures-map Q P starved f h = tt

pub Ensures-ne-failed {ℓ} : {A : Type ℓ} (P : A → Type 0) (o : Outcome A) → Ensures P o → o ≢ failed
Ensures-ne-failed P (done a rest) h e = cc
Ensures-ne-failed P failed h e = h
Ensures-ne-failed P starved h e = cc

pub Ensures-done {ℓ} :
    {A : Type ℓ} (P : A → Type 0) {o : Outcome A} {a : A} {rest : List ℕ}
    → o ≡ done a rest
    → Ensures P o
    → P a
Ensures-done P e h = subst (Ensures P) e h

-- At least `n` values are at hand, and each leaves room for `k` below 2^32.
pub record Enough (k n : ℕ) (draws : List ℕ) : Type 0 where
  pub many : n ≤ length draws
  pub small : All (λ x. x + k ≤ 2 ^ 32) draws

-- With `n` values more than are needed later, there is a result, it is in `P`, and those are left.
abbrev pub Delivers {ℓ κ} :
    {A : Type ℓ} (k n : ℕ) → (A → Type κ) → (List ℕ → Outcome A) → Type (ℓ ⊔ κ)
Delivers {A} k n P m =
    (later : ℕ) (draws : List ℕ)
    → Enough k (n + later) draws
    → (a : A) × (rest : List ℕ) × (m draws ≡ done a rest) × P a × Enough k later rest

pub Delivers-bind {ℓ κ μ ν} :
    {A : Type ℓ} {B : Type κ} {Q : A → Type μ} {P : B → Type ν} (k n n' : ℕ)
    {m : List ℕ → Outcome A} {f : A → List ℕ → Outcome B}
    → Delivers k n Q m
    → ((a : A) → Q a → Delivers k n' P (f a))
    → Delivers k (n + n') P (m >>= f)
Delivers-bind k n n' first next later draws h =
    let (a, rest, e, q, left) =
      first (n' + later) draws (record { many = omega (arith, h.many); small = h.small }) in
    let (b, rest', e', p, left') = next a q later rest left in (b, rest', rw e e', p, left')

pub Delivers-done {ℓ κ} :
    {A : Type ℓ} {P : A → Type κ} (k : ℕ) {a : A} → P a → Delivers k 0 P (done a)
Delivers-done k {a} p later draws h =
    (a, draws, refl, p, record { many = omega (arith, h.many); small = h.small })

pub Delivers-map {ℓ κ μ} :
    {A : Type ℓ} {Q : A → Type κ} {P : A → Type μ} (k n n' : ℕ) {m : List ℕ → Outcome A}
    → n ≤ n'
    → ((a : A) → Q a → P a)
    → Delivers k n Q m
    → Delivers k n' P m
Delivers-map k n n' le f h later draws e =
    let (a, rest, eq, q, left) =
      h (n' - n + later) draws (record { many = omega (arith, e.many); small = e.small }) in
    (a, rest, eq, f a q, record { many = omega (arith, left.many); small = left.small })
