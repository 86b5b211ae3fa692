-- ===== src/Kdbx/Container/Derive.antt =====
-- Keys: aesKdfHalf and aesKdf of web/export.js, deriveTransformed of web/kdbx-read.js.
use maspassword.Base.{
  ℕ, zero, suc, ◌-◌, ◌*◌, ◌/◌, ◌^◌, min, true, Option, none, some, List, [], ◌∷◌, ◌++◌, Text, codes,
  take, drop, replicate, ltb, if◌then◌else◌, same_text,
}
use maspassword.Argon2.Fill.{Params, argon2}
use maspassword.Kdbx.{Result, ok, err, ◌>>=◌, bytes_hex}
use maspassword.Kdbx.Error.{unsupported, thrown}
use maspassword.Kdbx.Header.{Value, raw, number, int, bool, str, Dict, get_value}
use maspassword.Kdbx.Container.{Browser}

abbrev pub kdf_aes : List ℕ
kdf_aes =
    0xc9 ∷ 0xd9 ∷ 0xf3 ∷ 0x9a ∷ 0x62 ∷ 0x8a ∷ 0x44 ∷ 0x60 ∷ 0xbf ∷ 0x74 ∷ 0x0d ∷ 0x08 ∷ 0xc1 ∷ 0x8a
    ∷ 0x4f ∷ 0xea ∷ []

abbrev pub kdf_aes_uuid : Text
kdf_aes_uuid = codes "c9d9f39a628a4460bf740d08c18a4fea"

abbrev pub kdf_argon2d_uuid : Text
kdf_argon2d_uuid = codes "ef636ddf8c29444b91f7a9a403e30a0c"

abbrev pub kdf_argon2id_uuid : Text
kdf_argon2id_uuid = codes "9e298b1956db4773b23dfc3ec6f0a1e6"

-- CHUNK_BLOCKS.
abbrev pub chunk_blocks : ℕ
chunk_blocks = 2 ^ 18

-- A number of the dictionary, and the version, which is 0x13 if there is none.
abbrev pub number_in : Option Value → Option ℕ
number_in (some (number n)) = some n
number_in (some (int n)) = if ltb n (2 ^ 31) then some n else none
number_in _ = none

abbrev pub version_in : Option Value → Option ℕ
version_in none = some 0x13
version_in (some v) = number_in (some v)

abbrev pub argon2_params :
    ℕ → List ℕ → Option ℕ → Option Value → Option ℕ → Option ℕ → Option ℕ → Option Params
argon2_params variant composite (some v) (some (raw salt)) (some passes) (some bytes)
      (some (suc n)) =
    some (record {
      variant = variant;
      version = v;
      password = composite;
      salt = salt;
      passes = passes;
      mem_kib = bytes / 1024;
      lanes = suc n;
      tag_len = 32;
    })
argon2_params _ _ _ _ _ _ _ = none

abbrev pub tag_or_unsupported : Option (List ℕ) → Result (List ℕ)
tag_or_unsupported none = err unsupported
tag_or_unsupported (some tag) = ok tag

module _ (b : Browser) where
  -- `remaining` goes down by a block at least, so that many turns are enough.
  unfoldable pub aes_kdf_half : ℕ → List ℕ → List ℕ → ℕ → List ℕ
  aes_kdf_half zero key iv remaining = iv
  aes_kdf_half (suc fuel) key iv remaining =
      let blocks = min remaining chunk_blocks in
      let next =
        take 16 (drop ((blocks - 1) * 16) (b.encrypt key iv (replicate (blocks * 16) 0))) in
      let last = aes_kdf_half fuel key next (remaining - blocks) in
      if ltb 0 remaining then last else iv

  unfoldable pub aes_kdf : List ℕ → List ℕ → ℕ → List ℕ
  aes_kdf composite seed rounds = b.sha256 (
      aes_kdf_half rounds seed (take 16 composite) rounds
      ++ aes_kdf_half rounds seed (take 16 (drop 16 composite)) rounds)

  -- A key that importKey takes.
  abbrev pub aes_key : Option Value → Result (List ℕ)
  aes_key (some (raw key)) = if b.imports key then ok key else err thrown
  aes_key _ = err thrown

  -- The number that the loop takes the rounds for.
  abbrev pub rounds_of : Option Value → ℕ
  rounds_of (some (number n)) = n
  rounds_of (some (int n)) = if ltb n (2 ^ 31) then n else 0
  rounds_of (some (bool true)) = 1
  rounds_of (some (str text)) = b.text_number text
  rounds_of (some (raw (n ∷ []))) = n
  rounds_of _ = 0

  -- bytesHex of the value: what is no list of bytes has no known hex text.
  abbrev pub uuid_hex : Option Value → Result Text
  uuid_hex none = err thrown
  uuid_hex (some (raw uuid)) = ok (bytes_hex uuid)
  uuid_hex (some _) = err unsupported

  -- argon2 with the parameters of the file, where they have the types of the format.
  unfoldable pub derive_argon2 : ℕ → Dict → List ℕ → Result (List ℕ)
  derive_argon2 variant params composite =
      elim (argon2_params variant composite (version_in (get_value (codes "V") params))
        (get_value (codes "S") params) (number_in (get_value (codes "I") params))
        (number_in (get_value (codes "M") params)) (number_in (get_value (codes "P") params))) [
          | none ↦ b.loose_argon2 variant params composite
          | some p ↦ tag_or_unsupported (argon2 p)
        ]

  unfoldable pub derive_by : Dict → List ℕ → Text → Result (List ℕ)
  derive_by params composite uuid =
      if same_text uuid kdf_aes_uuid
      then aes_key (get_value (codes "S") params)
        >>= (λ seed. ok (aes_kdf composite seed (rounds_of (get_value (codes "R") params))))
      else if same_text uuid kdf_argon2d_uuid
      then derive_argon2 0 params composite
      else if same_text uuid kdf_argon2id_uuid
      then derive_argon2 2 params composite
      else err unsupported

  unfoldable pub derive_transformed : Dict → List ℕ → Result (List ℕ)
  derive_transformed params composite =
      uuid_hex (get_value (codes "$UUID") params) >>= λ uuid. derive_by params composite uuid

  unfoldable pub composite_key : Text → List ℕ
  composite_key password = b.sha256 (b.sha256 (b.utf8 password))
