-- ===== src/Qr/Encode/Version.antt =====
-- The version that encodeText of web/qr.js selects.
use maspassword.Base.{
  ℕ, zero, suc, ◌+◌, ◌<◌, ◌≤◌, ◌≡◌, ◌⊎◌, inl, inr, refl, ap, ◌∙◌, Bool, true, ◌&&◌, ◌||◌, ◌==◌, ltb,
  leb, Bool-cases, arith,
}
use mathlib.Core.Path.{subst}
use maspassword.Qr.{max_version, data_codewords, byte_capacity, find_version}

-- The sizes of the versions, tested one by one.
room : ℕ → Bool
room v =
    leb 3 (data_codewords v)
    && leb (data_codewords v) 415
    && (leb (data_codewords v) 182 || ltb 9 v)

-- A test of the versions from 1 to `n`.
unfoldable pub tested : (ℕ → Bool) → ℕ → Bool
tested test zero = true
tested test (suc v) = test (suc v) && tested test v

pub of_tested : (test : ℕ → Bool) (n v : ℕ) → tested test n ≡ true → 0 < v → v ≤ n → test v ≡ true
unfolding tested
of_tested test zero v e lo hi = absurd (omega arith)
of_tested test (suc n) v e lo hi = elim (Bool-cases (v == suc n)) [
  | inl last ↦
      let same : v ≡ suc n = ground arith in ap test same ∙ first (test (suc n)) (tested test n) e
  | inr other ↦ of_tested test n v (second (test (suc n)) (tested test n) e) lo (ground arith)
]
  where
    first : (a b : Bool) → (a && b) ≡ true → a ≡ true
    first a b e = ground arith

    second : (a b : Bool) → (a && b) ≡ true → b ≡ true
    second a b e = ground arith

all_rooms : tested room 15 ≡ true
unfolding tested room data_codewords
all_rooms = refl

pub room_bounds :
    (v : ℕ)
    → 0 < v
    → v ≤ 15
    → (3 ≤ data_codewords v) × (data_codewords v ≤ 415) × ((data_codewords v ≤ 182) ⊎ (9 < v))
unfolding room
room_bounds v lo hi = let e = of_tested room 15 v all_rooms lo hi in ground arith

-- A version that is found is one of those tried, with room; if none is, none has room.
pub find_version_lem :
    (fuel v n : ℕ)
    → 0 < v
    → ((find_version fuel v n ≡ 0) × ((w : ℕ) → v ≤ w → w < v + fuel → byte_capacity w < n))
      ⊎ ((v ≤ find_version fuel v n)
          × (find_version fuel v n < v + fuel)
          × (n ≤ byte_capacity (find_version fuel v n)))
unfolding find_version
find_version_lem zero v n pos = inl (refl, λ w a b. absurd (omega arith))
find_version_lem (suc fuel) v n pos = elim (Bool-cases (leb n (byte_capacity v))) [
  | inl fits ↦ rw fits (inr (omega arith, omega arith, ground arith))
  | inr tight ↦ rw tight (elim (find_version_lem fuel (suc v) n (omega arith)) [
    | inl nowhere ↦ inl (
      nowhere.0,
      λ w a b. elim (Bool-cases (w == v)) [
        | inl here ↦
            let lt : byte_capacity v < n = ground arith in
            let same : v ≡ w = ground arith in subst (λ t. byte_capacity t < n) same lt
        | inr later ↦ nowhere.1 w (ground arith) (omega arith)
      ],
    )
    | inr found ↦ inr (omega (arith, found.0), omega (arith, found.1), found.2)
  ])
]

largest : byte_capacity 15 ≡ 412
unfolding byte_capacity data_codewords
largest = refl

pub find_version-room :
    (n : ℕ)
    → n ≤ 412
    → let v = find_version max_version 1 n in (0 < v) × (v ≤ 15) × (n ≤ byte_capacity v)
find_version-room n le = elim (find_version_lem max_version 1 n (omega arith)) [
  | inl nowhere ↦ absurd (omega (arith, nowhere.1 15 (omega arith) (omega arith), largest))
  | inr found ↦ (omega (arith, found.0), omega (arith, found.1), found.2)
]
