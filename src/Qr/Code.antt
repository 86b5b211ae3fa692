-- ===== src/Qr/Code.antt =====
-- The arithmetic of GF(256) and the Reed-Solomon codewords of web/qr.js.
use maspassword.Base.{
  ℕ, zero, suc, ◌+◌, ◌-◌, ◌*◌, not, ◌||◌, ◌==◌, leb, if◌then◌else◌, List, [], ◌∷◌, ◌++◌, length,
  get_or, set, take, drop, replicate,
}
use Prim.Native.Nat.{bit_xor}

pub record Tables : Type 0 where
  gf_exp : List ℕ
  gf_log : List ℕ

-- The first loop, over the powers of the root from `x` on.
abbrev fill_tables : ℕ → ℕ → ℕ → Tables → Tables
fill_tables zero i x t = t
fill_tables (suc fuel) i x t =
    let y = x * 2 in
    fill_tables fuel (suc i) (if leb 0x100 y then bit_xor y 0x11d else y)
      (record { gf_exp = set t.gf_exp i x; gf_log = set t.gf_log x i })

-- The second loop.
abbrev repeat_powers : ℕ → ℕ → List ℕ → List ℕ
repeat_powers zero i e = e
repeat_powers (suc fuel) i e = repeat_powers fuel (suc i) (set e i (get_or e (i - 255) 0))

abbrev pub tables : Tables
tables =
    let t = fill_tables 255 0 1 (record { gf_exp = replicate 512 0; gf_log = replicate 256 0 }) in
    record { gf_exp = repeat_powers 257 255 t.gf_exp; gf_log = t.gf_log }

unfoldable pub gf_mul : ℕ → ℕ → ℕ
gf_mul a b =
    if a == 0 || b == 0
    then 0
    else get_or tables.gf_exp (get_or tables.gf_log a 0 + get_or tables.gf_log b 0) 0

abbrev pub xor_at : List ℕ → ℕ → ℕ → List ℕ
xor_at xs i v = set xs i (bit_xor (get_or xs i 0) v)

-- The product of the rest of `g`, which starts at `j`, by x + root, added to `next`.
abbrev times_root : ℕ → List ℕ → ℕ → List ℕ → List ℕ
times_root root [] j next = next
times_root root (c ∷ g) j next =
    times_root root g (suc j) (xor_at (xor_at next j c) (suc j) (gf_mul c root))

abbrev generator_loop : ℕ → ℕ → List ℕ → List ℕ
generator_loop zero i g = g
generator_loop (suc fuel) i g =
    generator_loop fuel (suc i)
      (times_root (get_or tables.gf_exp i 0) g 0 (replicate (suc (length g)) 0))

unfoldable pub rs_generator : ℕ → List ℕ
rs_generator degree = generator_loop degree 0 (1 ∷ [])

unfoldable pub add_multiple : ℕ → List ℕ → List ℕ → List ℕ
add_multiple factor (g ∷ gen) (r ∷ rem) = bit_xor r (gf_mul g factor) ∷ add_multiple factor gen rem
add_multiple factor gen rem = rem

-- `rem` moves to the left by one, with a 0 at its end.
unfoldable pub rs_step : List ℕ → ℕ → List ℕ → List ℕ
rs_step gen b rem =
    let factor = bit_xor b (get_or rem 0 0) in
    let moved = drop 1 rem ++ take (length rem) (0 ∷ []) in
    if not (factor == 0) then add_multiple factor (drop 1 gen) moved else moved

unfoldable pub rs_loop : List ℕ → List ℕ → List ℕ → List ℕ
rs_loop gen [] rem = rem
rs_loop gen (b ∷ bytes) rem = rs_loop gen bytes (rs_step gen b rem)

unfoldable pub rs_remainder : List ℕ → ℕ → List ℕ
rs_remainder bytes degree = rs_loop (rs_generator degree) bytes (replicate degree 0)
