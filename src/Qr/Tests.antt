-- ===== src/Qr/Tests.antt =====
-- A short text as a symbol, and the check codewords of a published example.
use maspassword.Base.{ℕ, ◌≡◌, refl, List, [], ◌∷◌, length, some, arith}
use maspassword.Qr.{
  Encoded, encode_text, blocks_in, data_bits, to_bytes, or_bits, push_bits, push_value, push_all,
  push_pads, terminate, to_boundary, data_codewords,
}
use maspassword.Qr.Code.{gf_mul, rs_generator, rs_loop, rs_step, add_multiple, rs_remainder}
use maspassword.Qr.Symbol.{read_symbol, Checked, read_symbol-encode_text}

abbrev greeting : List ℕ
greeting = 72 ∷ 105 ∷ []

read_symbol-encode_text_example :
    (e : Encoded) × (encode_text greeting ≡ some e)
    × (length e.codewords ≡ (blocks_in e.version).total)
    × (read_symbol e ≡ some greeting)
    × Checked e
read_symbol-encode_text_example =
    read_symbol-encode_text greeting (omega arith, (omega arith, tt)) (omega arith)

greeting_codewords :
    to_bytes (data_bits 1 greeting)
    ≡ 0x40 ∷ 0x24 ∷ 0x86 ∷ 0x90 ∷ 0xec ∷ 0x11 ∷ 0xec ∷ 0x11 ∷ 0xec ∷ 0x11 ∷ 0xec ∷ 0x11 ∷ 0xec
      ∷ 0x11 ∷ 0xec ∷ 0x11 ∷ []
unfolding to_bytes or_bits data_bits push_pads push_all push_value push_bits terminate to_boundary
    data_codewords
greeting_codewords = refl

-- The 16 data codewords of `HELLO WORLD` at level M, version 1.
hello_world_checks :
    rs_remainder
      (32 ∷ 91 ∷ 11 ∷ 120 ∷ 209 ∷ 114 ∷ 220 ∷ 77 ∷ 67 ∷ 64 ∷ 236 ∷ 17 ∷ 236 ∷ 17 ∷ 236 ∷ 17 ∷ [])
      10
    ≡ 196 ∷ 35 ∷ 39 ∷ 119 ∷ 235 ∷ 215 ∷ 231 ∷ 226 ∷ 93 ∷ 23 ∷ []
unfolding rs_remainder rs_loop rs_step add_multiple rs_generator gf_mul
hello_world_checks = refl
