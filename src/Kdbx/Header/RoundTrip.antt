-- ===== src/Kdbx/Header/RoundTrip.antt =====
-- The readers of Kdbx.Header read back what its writers wrote, and fail as they should.
use maspassword.Base.{
  ℕ, zero, suc, ◌+◌, ◌*◌, ◌^◌, ◌<◌, ◌≤◌, ◌≡◌, ◌≢◌, refl, inl, inr, Bool, true, false, List, [], ◌∷◌,
  ◌++◌, append_assoc, append-nil, length, length-append, length-drop, drop, All, ltb, get_or, ◌==◌,
  if◌then◌else◌, Bool-cases, arith,
}
use maspassword.Kdbx.{Result, ok, err, ◌>>=◌, u32le, get_u16, get_u32}
use maspassword.Kdbx.Error.{corrupt}
use maspassword.Kdbx.Bytes.{get_u32-u32le, take-append, drop-append}
use maspassword.Kdbx.Header.{
  Field, header_field, write_fields, prefix_size, field_size, cut_field, take_field, Fields,
  parse_fields, parse_header_fields,
}

-- What the writer asks of a field.
abbrev pub IsField : Field → Type 0
IsField (id, input) = (id ≢ 0) × (length input < 2 ^ 32)

pub header_field_lem :
    (id : ℕ) (input : List ℕ) → header_field id input ≡ id ∷ (u32le (length input) ++ input)
unfolding header_field u32le
header_field_lem id input = rw (append-nil input)

cut_field_lem :
    (id : ℕ) (input rest : List ℕ)
    → cut_field id (length input) (input ++ rest) ≡ ok (id, input, rest)
cut_field_lem id input rest =
    let e : ltb (length (input ++ rest)) (length input) ≡ false =
      ground (arith, length-append input rest) in
    rw (e, take-append input rest, drop-append input rest)

pub take_field-header_field :
    (id : ℕ) (input rest : List ℕ)
    → length input < 2 ^ 32
    → take_field true (header_field id input ++ rest) ≡ ok (id, input, rest)
unfolding take_field
take_field-header_field id input rest lt =
    rw (header_field_lem id input) (ground (arith, five, size, behind, cut_field_lem id input rest))
  where
    bytes : List ℕ
    bytes = id ∷ ((u32le (length input) ++ input) ++ rest)

    five : ltb (length bytes) 5 ≡ false
    five = unfold u32le in ground arith

    size : get_u32 ((u32le (length input) ++ input) ++ rest) ≡ ok (length input)
    size =
        rw (append_assoc (u32le (length input)) input rest)
          (get_u32-u32le (length input) (input ++ rest) lt)

    behind : drop 5 bytes ≡ input ++ rest
    behind = unfold u32le in refl

-- The Map after the settings of the fields.
abbrev pub latest_first : List Field → List Field → List Field
latest_first [] map = map
latest_first (f ∷ fields) map = latest_first fields (f ∷ map)

parse_fields-write_fields :
    (fuel : ℕ) (fields map : List Field) (last rest : List ℕ)
    → All IsField fields
    → length last < 2 ^ 32
    → length fields < fuel
    → parse_fields fuel true map (write_fields fields ++ (header_field 0 last ++ rest))
      ≡ ok (latest_first fields map, rest)
unfolding parse_fields write_fields
parse_fields-write_fields zero fields map last rest h k lt = absurd (omega arith)
parse_fields-write_fields (suc fuel) [] map last rest h k lt =
    rw (take_field-header_field 0 last rest k)
parse_fields-write_fields (suc fuel) ((id, input) ∷ fields) map last rest ((nonzero, short), h) k
      lt =
    let other : (id == 0) ≡ false = ground arith in
    rw
      (
        append_assoc (header_field id input) (write_fields fields) (header_field 0 last ++ rest),
        take_field-header_field id input (write_fields fields ++ (header_field 0 last ++ rest))
            short,
        other,
      )
      (parse_fields-write_fields fuel fields ((id, input) ∷ map) last rest h k (omega arith))

length-write_fields : (fields : List Field) → length fields ≤ length (write_fields fields)
unfolding write_fields
length-write_fields [] = omega arith
length-write_fields ((id, input) ∷ fields) = rw (header_field_lem id input) (
    omega (
      arith,
      length-append (u32le (length input) ++ input) (write_fields fields),
      length-write_fields fields,
    ))

pub parse_header_fields-write_fields :
    (fields : List Field) (last rest : List ℕ)
    → All IsField fields
    → length last < 2 ^ 32
    → parse_header_fields true (write_fields fields ++ (header_field 0 last ++ rest))
      ≡ ok (latest_first fields [], rest)
unfolding parse_header_fields
parse_header_fields-write_fields fields last rest h k =
    parse_fields-write_fields (suc (length (write_fields fields ++ (header_field 0 last ++ rest))))
      fields [] last rest h k
      (omega (
        arith,
        length-append (write_fields fields) (header_field 0 last ++ rest),
        length-write_fields fields,
      ))

-- Either width: a field that is read lies in the bytes, and a failure is `corrupt`.
abbrev pub Cuts : List ℕ → Result (ℕ × List ℕ × List ℕ) → Type 0
Cuts bytes (ok f) = length f.2 + 3 ≤ length bytes
Cuts bytes (err e) = e ≡ corrupt

cut_field-Cuts :
    (id size : ℕ) (rest bytes : List ℕ)
    → length rest + 3 ≤ length bytes
    → Cuts bytes (cut_field id size rest)
cut_field-Cuts id size rest bytes h = elim (Bool-cases (ltb (length rest) size)) [
  | inl e ↦ rw e refl
  | inr e ↦ rw e (omega (arith, length-drop size rest))
]

take_field-Cuts : (wide : Bool) (bytes : List ℕ) → Cuts bytes (take_field wide bytes)
unfolding take_field
take_field-Cuts wide bytes = elim (Bool-cases (ltb (length bytes) (prefix_size wide))) [
  | inl e ↦ rw e refl
  | inr e ↦ rw e (sized wide bytes e)
]
  where
    sized :
        (wide : Bool) (bytes : List ℕ)
        → ltb (length bytes) (prefix_size wide) ≡ false
        → Cuts bytes (
            field_size wide (drop 1 bytes) >>= λ size.
            cut_field (get_or bytes 0 0) size (drop (prefix_size wide) bytes))
    sized true (a ∷ b ∷ c ∷ d ∷ e ∷ bytes) h =
        unfold get_u32 in
        cut_field-Cuts a (((e * 256 + d) * 256 + c) * 256 + b) bytes (a ∷ b ∷ c ∷ d ∷ e ∷ bytes)
          (omega arith)
    sized false (a ∷ b ∷ c ∷ bytes) h =
        unfold get_u16 in cut_field-Cuts a (c * 256 + b) bytes (a ∷ b ∷ c ∷ bytes) (omega arith)
    sized wide bytes h = absurd (ground arith)

-- Some bytes are read, or the file is damaged.
abbrev pub Ends : List ℕ → Result Fields → Type 0
Ends bytes (ok f) = length f.1 + 3 ≤ length bytes
Ends bytes (err e) = e ≡ corrupt

parse_fields-Ends :
    (fuel : ℕ) (wide : Bool) (map : List Field) (bytes all : List ℕ)
    → length bytes < fuel
    → length bytes ≤ length all
    → Ends all (parse_fields fuel wide map bytes)
unfolding parse_fields
parse_fields-Ends zero wide map bytes all lt le = absurd (omega arith)
parse_fields-Ends (suc fuel) wide map bytes all lt le =
    go (take_field wide bytes) (take_field-Cuts wide bytes)
      (λ f h. parse_fields-Ends fuel wide ((f.0, f.1) ∷ map) f.2 all (omega arith) (omega arith))
  where
    go :
        (r : Result (ℕ × List ℕ × List ℕ))
        → Cuts bytes r
        → ((f : ℕ × List ℕ × List ℕ)
            → length f.2 + 3 ≤ length bytes
            → Ends all (parse_fields fuel wide ((f.0, f.1) ∷ map) f.2))
        → Ends all (
            r >>= λ f.
            let more = parse_fields fuel wide ((f.0, f.1) ∷ map) f.2 in
            if f.0 == 0 then ok (map, f.2) else more)
    go (err e) h more = h
    go (ok f) h more = elim (Bool-cases (f.0 == 0)) [
      | inl e ↦ rw e (omega arith)
      | inr e ↦ rw e (more f h)
    ]

pub parse_header_fields-Ends :
    (wide : Bool) (bytes : List ℕ) → Ends bytes (parse_header_fields wide bytes)
unfolding parse_header_fields
parse_header_fields-Ends wide bytes =
    parse_fields-Ends (suc (length bytes)) wide [] bytes bytes (omega arith) (omega arith)
