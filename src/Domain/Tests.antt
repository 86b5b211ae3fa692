-- ===== src/Domain/Tests.antt =====
-- Runs of domainsMatch, and instances of its theorems. The lower case map acts on the ASCII letters,
-- and the parser takes a URL for its host.
use maspassword.Base.{
  count, ◌≢◌, arith, ℕ, ◌+◌, true, false, ◌&&◌, ◌≡◌, refl, Option, none, some, [], ◌∷◌, Text, codes,
  map, leb, if◌then◌else◌, split, join, trim,
}
use maspassword.Domain.{
  normal_host, hostname_of, multi_part_suffixes, registrable_domain, domains_match,
}
use maspassword.Domain.Match.{SameSite, SameSite-eq, domains_match_sound}

abbrev lower_letter : ℕ → ℕ
lower_letter c = if leb b'A' c && leb c b'Z' then c + 32 else c

abbrev lower : Text → Text
lower s = map lower_letter s

abbrev host_of : Text → Option Text
host_of [] = none
host_of (c ∷ url) = some (c ∷ url)

british : registrable_domain lower (codes "www.Shop.Example.co.uk.") ≡ codes "example.co.uk"
unfolding registrable_domain multi_part_suffixes split join trim
british = refl

same_shop :
    domains_match lower host_of (codes "login.example.co.uk") (codes "www.shop.example.co.uk")
    ≡ true
unfolding domains_match registrable_domain multi_part_suffixes split join trim
same_shop = refl

shop_again :
    domains_match lower host_of (codes "www.shop.example.co.uk") (codes "example.co.uk") ≡ true
unfolding domains_match registrable_domain multi_part_suffixes split join trim
shop_again = refl

attacker :
    domains_match lower host_of (codes "paypal.com.attacker.com") (codes "paypal.com") ≡ false
unfolding domains_match registrable_domain multi_part_suffixes split join trim
attacker = refl

-- A domain that only ends like another is another site.
lookalike : (domain : Text) → SameSite domain (codes "evil-google.com") (codes "google.com") → ⊥
unfolding count
lookalike domain s =
    not_same (SameSite-eq domain (codes "evil-google.com") (codes "google.com") s refl refl)
  where
    not_same : codes "evil-google.com" ≢ codes "google.com"
    not_same = ground arith

domains_match_sound_example :
    (domain : Text) × SameSite domain
      (normal_host lower (hostname_of lower host_of (codes "login.example.co.uk")))
      (normal_host lower (hostname_of lower host_of (codes "www.shop.example.co.uk")))
domains_match_sound_example =
    domains_match_sound lower host_of (codes "login.example.co.uk") (codes "www.shop.example.co.uk")
      same_shop
