-- ===== src/Share/Link.antt =====
-- A share link is read back from its fragment.
use maspassword.Base.{
  ℕ, true, false, ◌≡◌, ◌≢◌, refl, sym, ap, ◌∙◌, some, [], ◌∷◌, ◌++◌, Text, codes, length, drop,
  ◌==◌, split, has, arith, append_assoc,
}
use maspassword.Share.{two_parts, build_share_url, parse_share_hash}

split-no_sep : (sep : ℕ) (s : Text) → has sep s ≡ false → split sep s ≡ s ∷ []
unfolding split
split-no_sep sep [] h = refl
split-no_sep sep (c ∷ s) h =
    let other : (c == sep) ≡ false = ground arith in
    let rest : has sep s ≡ false = ground arith in rw (other, split-no_sep sep s rest) refl

split-sep : (sep : ℕ) (a b : Text) → has sep a ≡ false → split sep (a ++ sep ∷ b) ≡ a ∷ split sep b
unfolding split
split-sep sep [] b h = let same : (sep == sep) ≡ true = ground arith in rw same refl
split-sep sep (c ∷ a) b h =
    let other : (c == sep) ≡ false = ground arith in
    let rest : has sep a ≡ false = ground arith in rw (other, split-sep sep a b rest) refl

drop-append : (xs ys : Text) → drop (length xs) (xs ++ ys) ≡ ys
drop-append [] ys = refl
drop-append (x ∷ xs) ys = drop-append xs ys

two_parts-some : (id key : Text) → id ≢ [] → key ≢ [] → two_parts (id ∷ key ∷ []) ≡ some (id, key)
two_parts-some [] key h k = absurd (h refl)
two_parts-some (a ∷ id) [] h k = absurd (k refl)
two_parts-some (a ∷ id) (b ∷ key) h k = refl

-- parseShareHash reads the id and the key back from the fragment of buildShareUrl, the part behind the
-- origin and its slash, if neither is empty or has a slash.
pub parse_share_hash-build_share_url :
    (origin id key : Text)
    → id ≢ []
    → key ≢ []
    → has b'/' id ≡ false
    → has b'/' key ≡ false
    → parse_share_hash (drop (length (origin ++ codes "/")) (build_share_url origin id key))
      ≡ some (id, key)
unfolding parse_share_hash build_share_url
parse_share_hash-build_share_url origin id key h k no_slash no_slash' =
    ap parse_share_hash fragment
    ∙ ap two_parts (
        split-sep b'/' id key no_slash ∙ ap (λ parts. id ∷ parts) (split-no_sep b'/' key no_slash'))
    ∙ two_parts-some id key h k
  where
    tail : Text
    tail = codes "#/share/" ++ (id ++ (codes "/" ++ key))

    fragment : drop (length (origin ++ codes "/")) (origin ++ (codes "/" ++ tail)) ≡ tail
    fragment =
        ap (drop (length (origin ++ codes "/"))) (sym (append_assoc origin (codes "/") tail))
        ∙ drop-append (origin ++ codes "/") tail
