-- ===== src/Qr/Symbol.antt =====
-- The codewords that encodeText of web/qr.js returns, as a reader of the symbol takes them.
use maspassword.Base.{ℕ, ◌≤◌, ◌≡◌, sym, ap, ◌∙◌, List, map, length, Option, some}
use maspassword.Kdbx.Bytes.{Bytes}
use maspassword.Qr.{blocks_in, interleave, Encoded, encode_text}
use maspassword.Qr.Code.{rs_remainder}
use maspassword.Qr.Encode.{read_text}
use maspassword.Qr.Interleave.Blocks.{join-block_list}
use maspassword.Qr.Interleave.Checks.{read_blocks, read_blocks-interleave, length-interleave}
use maspassword.Qr.Encode.Text.{encode_text-read_text}
use maspassword.Qr.Interleave.{join}

-- The text of a symbol, by a reader that takes the codewords of no error.
unfoldable pub read_symbol : Encoded → Option (List ℕ)
read_symbol e = read_text e.version (join (read_blocks e.version e.codewords).0)

-- Each block is followed by the remainder of its data.
abbrev pub Checked : Encoded → Type 0
Checked e =
    let r = read_blocks e.version e.codewords in
    r.1 ≡ map (λ block. rs_remainder block (blocks_in e.version).ecc) r.0

-- for a text of at most 412 bytes encodeText returns. It gives a version with its total number of codewords, from which a reader that deals them out to the blocks gets the bytes of the text back, and for each block the Reed-Solomon remainder of its data.
pub read_symbol-encode_text :
    (bytes : List ℕ)
    → Bytes bytes
    → length bytes ≤ 412
    → (e : Encoded) × (encode_text bytes ≡ some e)
      × (length e.codewords ≡ (blocks_in e.version).total)
      × (read_symbol e ≡ some bytes)
      × Checked e
unfolding read_symbol
read_symbol-encode_text bytes h le =
    let (v, codewords, returns, lo, hi, full, text) = encode_text-read_text bytes h le in
    let got = read_blocks-interleave v codewords full lo hi in
    (
      record { version = v; codewords = interleave codewords v },
      returns,
      length-interleave v codewords full lo hi,
      ap (λ r. read_text v (join r.0)) got
          ∙ ap (read_text v) (join-block_list v codewords full)
          ∙ text,
      (λ i. (got i).1) ∙ (λ i. map (λ block. rs_remainder block (blocks_in v).ecc) (sym got i).0),
    )
