-- ===== src/Csv/Total.antt =====
-- The loops of parseCSV end: every field, row and outer round takes some of the text.
use mathlib.Core.Path.{subst}
use maspassword.Base.{
  sym, ℕ, zero, suc, ◌≤◌, ◌<◌, true, false, ◌≡◌, ◌≢◌, refl, ◌⊎◌, inl, inr, Option, some, List, [],
  ◌∷◌, Text, length, ◌==◌, arith, Bool-cases,
}
use maspassword.Csv.{
  after_row, comma, parse_quoted, ends_plain, parse_plain, parse_field, after_field, after_row,
  parse_row, skip_line_end, parse_rows, parse_csv,
}

parse_quoted-le : (t : Text) → length (parse_quoted t).1 ≤ length t
unfolding parse_quoted
parse_quoted-le [] = omega arith
parse_quoted-le (c ∷ []) = ground arith
parse_quoted-le (c ∷ d ∷ t) = ground (arith, parse_quoted-le t, parse_quoted-le (d ∷ t))

parse_plain-le : (t : Text) → length (parse_plain t).1 ≤ length t
unfolding parse_plain
parse_plain-le [] = omega arith
parse_plain-le (c ∷ t) = ground (arith, parse_plain-le t)

parse_field-le : (t : Text) → length (parse_field t).1 ≤ length t
unfolding parse_field
parse_field-le [] = omega arith
parse_field-le (c ∷ t) = ground (arith, parse_quoted-le t, parse_plain-le (c ∷ t))

-- A field takes a character, unless it stops at a separator at once.
parse_field_progress :
    (c : ℕ) (t : Text)
    → (length (parse_field (c ∷ t)).1 ≤ length t)
      ⊎ ((parse_field (c ∷ t)).1 ≡ c ∷ t) × (ends_plain c ≡ true)
unfolding parse_field parse_plain
parse_field_progress c t = ground (arith, parse_quoted-le t, parse_plain-le t)

skip_line_end-le : (t : Text) → length (skip_line_end t) ≤ length t
skip_line_end-le [] = omega arith
skip_line_end-le (c ∷ []) = ground arith
skip_line_end-le (c ∷ d ∷ t) = ground arith

-- A row was read, and behind its line end at most `n` characters are left.
record IsRow (n : ℕ) (result : Option (List Text × Text)) : Type 0 where
  row : List Text
  rest : Text
  reads : result ≡ some (row, rest)
  has_field : row ≢ []
  bound : length (skip_line_end rest) ≤ n

after_field-IsRow :
    (loop : Text → Option (List Text × Text)) (n : ℕ) (field t : Text)
    → length t ≤ n
    → ((u : Text) → length u < n → IsRow (length u) (loop u))
    → IsRow n (after_field loop (field, t))
after_field-IsRow loop n field [] le next = record {
  row = field ∷ [];
  rest = [];
  reads = refl;
  has_field = ground arith;
  bound = omega arith;
}
after_field-IsRow loop n field (c ∷ t) le next = elim (Bool-cases (c == comma)) [
  | inl e ↦
      let r = next t (omega arith) in
      record {
        row = field ∷ r.row;
        rest = r.rest;
        reads = rw (e, r.reads);
        has_field = ground arith;
        bound = omega (arith, r.bound);
      }
  | inr e ↦ record {
    row = field ∷ [];
    rest = c ∷ t;
    reads = rw e;
    has_field = ground arith;
    bound = omega (arith, skip_line_end-le (c ∷ t));
  }
]

parse_row-IsRow : (fuel : ℕ) (t : Text) → length t < fuel → IsRow (length t) (parse_row fuel t)
unfolding parse_row
parse_row-IsRow zero t h = absurd (omega arith)
parse_row-IsRow (suc fuel) t h =
    after_field-IsRow (parse_row fuel) (length t) (parse_field t).0 (parse_field t).1
      (parse_field-le t) (λ u lt. parse_row-IsRow fuel u (omega arith))

-- A separator at the front of the rest is a comma, or a line end that is skipped.
after_separator-IsRow :
    (loop : Text → Option (List Text × Text)) (field : Text) (c : ℕ) (t : Text)
    → ends_plain c ≡ true
    → IsRow (length t) (loop t)
    → IsRow (length t) (after_field loop (field, c ∷ t))
after_separator-IsRow loop field c t ends r = elim (Bool-cases (c == comma)) [
  | inl e ↦ record {
    row = field ∷ r.row;
    rest = r.rest;
    reads = rw (e, r.reads);
    has_field = ground arith;
    bound = r.bound;
  }
  | inr e ↦ record {
    row = field ∷ [];
    rest = c ∷ t;
    reads = rw e;
    has_field = ground arith;
    bound = ends_bound c t e ends;
  }
]
  where
    ends_bound :
        (c : ℕ) (t : Text)
        → (c == comma) ≡ false
        → ends_plain c ≡ true
        → length (skip_line_end (c ∷ t)) ≤ length t
    ends_bound c [] e ends = ground arith
    ends_bound c (d ∷ t) e ends = ground arith

-- A row takes at least one character of a text that has one.
parse_row_progress :
    (fuel c : ℕ) (t : Text) → length (c ∷ t) < fuel → IsRow (length t) (parse_row fuel (c ∷ t))
unfolding parse_row
parse_row_progress zero c t h = absurd (omega arith)
parse_row_progress (suc fuel) c t h = elim (parse_field_progress c t) [
  | inl le ↦
      after_field-IsRow (parse_row fuel) (length t) (parse_field (c ∷ t)).0 (parse_field (c ∷ t)).1
        le (λ u lt. parse_row-IsRow fuel u (omega arith))
  | inr (e, ends) ↦
      subst (λ u. IsRow (length t) (after_field (parse_row fuel) ((parse_field (c ∷ t)).0, u)))
        (sym e)
        (after_separator-IsRow (parse_row fuel) (parse_field (c ∷ t)).0 c t ends
          (parse_row-IsRow fuel t (omega arith)))
]

-- Every row of the table has a field.
abbrev pub AllRows : List (List Text) → Type 0
AllRows [] = Unit
AllRows (row ∷ rows) = (row ≢ []) × AllRows rows

record IsTable (t : Text) (result : Option (List (List Text))) : Type 0 where
  rows : List (List Text)
  reads : result ≡ some rows
  has_fields : AllRows rows
  bound : length rows ≤ length t

after_row-IsTable :
    (loop : Text → Option (List (List Text))) (c : ℕ) (t : Text)
    {result : Option (List Text × Text)}
    → IsRow (length t) result
    → ((u : Text) → length u ≤ length t → IsTable u (loop u))
    → IsTable (c ∷ t) (after_row loop result)
after_row-IsTable loop c t r next =
    let rest = next (skip_line_end r.rest) r.bound in
    record {
      rows = r.row ∷ rest.rows;
      reads = rw (r.reads, rest.reads);
      has_fields = (r.has_field, rest.has_fields);
      bound = omega (arith, rest.bound, r.bound);
    }

parse_rows-IsTable : (fuel : ℕ) (t : Text) → length t ≤ fuel → IsTable t (parse_rows fuel t)
unfolding parse_rows
parse_rows-IsTable fuel [] h = record {
  rows = [];
  reads = refl;
  has_fields = tt;
  bound = omega arith;
}
parse_rows-IsTable zero (c ∷ t) h = absurd (omega arith)
parse_rows-IsTable (suc fuel) (c ∷ t) h =
    after_row-IsTable (parse_rows fuel) c t (parse_row_progress _ c t (omega arith))
      (λ u le. parse_rows-IsTable fuel u (omega arith))

-- parseCSV returns on every text: it gives rows, each of at least one field, and at most as many
-- rows as the text has code units.
pub parse_csv_total :
    (text : Text)
    → (rows : List (List Text)) × (parse_csv text ≡ some rows)
      × AllRows rows
      × (length rows ≤ length text)
unfolding parse_csv
parse_csv_total text =
    let t = parse_rows-IsTable (length text) text (omega arith) in
    (t.rows, t.reads, t.has_fields, t.bound)
