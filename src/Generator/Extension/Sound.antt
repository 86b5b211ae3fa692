-- ===== src/Generator/Extension/Sound.antt =====
-- What the password of the extension is, and that it is delivered.
use mathlib.Core.Path.{subst}
use maspassword.Base.{
  ℕ, zero, suc, ◌+◌, ◌≤◌, ◌<◌, ◌≡◌, refl, sym, ap, ◌∙◌, Bool, true, false, List, [], ◌∷◌, Text,
  length, length-append, All, has, has_of_get_elem?, arith,
}
use maspassword.Generator.{done, random_int, at}
use maspassword.Generator.Run.{
  Ensures, Ensures-bind, Ensures-map, Ensures-done, Enough, Delivers, Delivers-bind, Delivers-done,
  Delivers-map,
}
use maspassword.Generator.Random.{random_int-Ensures}
use maspassword.Generator.Shuffle.{at-Ensures, at-Delivers, random_int-Delivers}
use maspassword.Generator.Extension.{
  SetOptions, random_index, lower_set, upper_set, digit_set, symbol_set, add_if, or_lower, pool_of,
  clamp, draw, extension_password,
}

random_index-random_int :
    (max : ℕ) (draws : List ℕ) → 0 < max → random_int max draws ≡ random_index max draws
unfolding random_int
random_index-random_int max draws pos = ground arith

-- Each class of characters has at most 26.
or_lower-bounds :
    (pool : Text) → length pool ≤ 87 → (0 < length (or_lower pool)) × (length (or_lower pool) ≤ 87)
or_lower-bounds [] h = omega arith
or_lower-bounds (c ∷ pool) h = omega arith

add_if-length :
    (on : Bool) (set pool : Text) → length (add_if on set pool) ≤ length pool + length set
add_if-length true set pool = omega (arith, length-append pool set)
add_if-length false set pool = omega arith

pool_of-bounds : (opts : SetOptions) → (0 < length (pool_of opts)) × (length (pool_of opts) ≤ 87)
unfolding pool_of
pool_of-bounds opts = or_lower-bounds _ (
    omega (
      arith,
      add_if-length opts.lower lower_set [],
      add_if-length opts.upper upper_set (add_if opts.lower lower_set []),
      add_if-length opts.digits digit_set
          (add_if opts.upper upper_set (add_if opts.lower lower_set [])),
      add_if-length opts.symbols symbol_set (
          add_if opts.digits digit_set
            (add_if opts.upper upper_set (add_if opts.lower lower_set []))),
    ))

-- The characters of `pool`, `n` of them.
abbrev Drawn : Text → ℕ → Text → Type 0
Drawn pool n out = (length out ≡ n) × All (λ c. has c pool ≡ true) out

draw-Ensures :
    (n : ℕ) (pool : Text) (draws : List ℕ)
    → 0 < length pool
    → Ensures (Drawn pool n) (draw n pool draws)
unfolding draw
draw-Ensures zero pool draws pos = (refl, tt)
draw-Ensures (suc n) pool draws pos =
    Ensures-bind (λ i. i < length pool) _ (random_index (length pool)) _ draws
      (subst (Ensures (λ i. i < length pool)) (random_index-random_int (length pool) draws pos)
        (random_int-Ensures (length pool) draws pos))
      λ i r1 lt.
        Ensures-bind (λ c. has c pool ≡ true) _ (at pool i) _ r1
          (Ensures-map _ _ (at pool i r1) (has_of_get_elem? pool i) (at-Ensures pool i r1 lt))
          λ c r2 there.
            Ensures-bind (Drawn pool n) _ (draw n pool) _ r2 (draw-Ensures n pool r2 pos)
              λ out r3 d. (ap suc d.0, (there, d.1))

-- A value that leaves room is taken at once.
random_index-Delivers :
    (k max : ℕ) → 0 < max → max ≤ k → Delivers k 1 (λ j. j < max) (random_index max)
random_index-Delivers k max pos le later draws enough =
    let (j, rest, e, lt, left) = random_int-Delivers k max pos le later draws enough in
    (j, rest, sym (random_index-random_int max draws pos) ∙ e, lt, left)

draw-Delivers :
    (k n : ℕ) (pool : Text)
    → 0 < length pool
    → length pool ≤ k
    → Delivers k n (λ out. length out ≡ n) (draw n pool)
unfolding draw
draw-Delivers k zero pool pos le = Delivers-done k refl
draw-Delivers k (suc n) pool pos le =
    Delivers-map k (1 + (0 + (n + 0))) (suc n) (omega arith) (λ out e. e)
      (Delivers-bind k 1 (0 + (n + 0)) (random_index-Delivers k (length pool) pos le) λ i lt.
        Delivers-bind k 0 (n + 0) (at-Delivers k i pool lt) λ c there.
          Delivers-bind k n 0 (draw-Delivers k n pool pos le) λ out e. Delivers-done k (ap suc e))

-- Whatever values are drawn, the password of the extension has the length asked for, taken into the
-- bounds 1 and 128 (20 for 0), and its characters are of the pool, which is not empty.
pub extension_password_sound :
    (opts : SetOptions) (draws : List ℕ) {pw : Text} {rest : List ℕ}
    → extension_password opts draws ≡ done pw rest
    → (length pw ≡ clamp opts.length)
      × All (λ c. has c (pool_of opts) ≡ true) pw
      × (0 < length (pool_of opts))
      × (1 ≤ length pw)
      × (length pw ≤ 128)
unfolding extension_password
extension_password_sound opts draws e =
    let pos = (pool_of-bounds opts).0 in
    let (size, within) =
      Ensures-done (Drawn (pool_of opts) (clamp opts.length)) e
        (draw-Ensures (clamp opts.length) (pool_of opts) draws pos) in
    (size, within, pos, ground arith, ground arith)

-- The extension's generator returns a password of the length asked for, taken into its bounds, from
-- that many values, if each of them is at most 2^32 - 87.
extension_password_runs :
    (opts : SetOptions) (draws : List ℕ)
    → Enough 87 (clamp opts.length) draws
    → (pw : Text) × (rest : List ℕ) × (extension_password opts draws ≡ done pw rest)
      × (length pw ≡ clamp opts.length)
unfolding extension_password
extension_password_runs opts draws enough =
    let (pos, small) = pool_of-bounds opts in
    let (pw, rest, e, size, left) =
      draw-Delivers 87 (clamp opts.length) (pool_of opts) pos small 0 draws
        (record { many = omega (arith, enough.many); small = enough.small }) in
    (pw, rest, e, size)
