-- ===== src/Domain.antt =====
-- extension/domain.js: saved logins are matched to a page by the registrable domain.
-- `toLowerCase` and the URL parser of the browser are parameters.
pub mod Label
pub mod Shape
pub mod Match
mod Tests
use Prim.Native.String.{String}
use maspassword.Base.{
  ℕ, suc, ◌-◌, ◌+◌, Bool, true, false, ◌&&◌, ◌||◌, not, Option, none, some, List, [], ◌∷◌, ◌++◌,
  map, Text, codes, length, leb, ◌==◌, if◌then◌else◌, has, same_text, includes, starts_with, split,
  join, trim, drop,
}

abbrev pub dot : ℕ
dot = 0x2e

unfoldable pub multi_part_suffixes : List Text
multi_part_suffixes = map codes (
    "co.uk" ∷ "org.uk" ∷ "gov.uk" ∷ "ac.uk" ∷ "co.jp" ∷ "co.kr" ∷ "com.au" ∷ "net.au" ∷ "org.au"
    ∷ "com.br" ∷ "com.mx" ∷ "co.nz" ∷ "co.za" ∷ "com.sg" ∷ "com.tr" ∷ [])

abbrev pub is_digit : ℕ → Bool
is_digit c = leb b'0' c && leb c b'9'

abbrev pub all_digits : Text → Bool
all_digits [] = true
all_digits (c ∷ s) = is_digit c && all_digits s

-- One to three digits.
abbrev pub is_octet : Text → Bool
is_octet s = all_digits s && (leb 1 (length s) && leb (length s) 3)

-- /^\d{1,3}(\.\d{1,3}){3}$/ : four parts between the dots.
abbrev pub four_octets : List Text → Bool
four_octets (a ∷ b ∷ c ∷ d ∷ []) = is_octet a && (is_octet b && (is_octet c && is_octet d))
four_octets _ = false

abbrev pub ends_with : ℕ → Text → Bool
ends_with c [] = false
ends_with c (d ∷ []) = c == d
ends_with c (d ∷ e ∷ s) = ends_with c (e ∷ s)

unfoldable pub is_ip_address : Text → Bool
is_ip_address host =
    if four_octets (split dot host)
    then true
    else if starts_with (codes "[") host && ends_with b']' host
    then true
    else has b':' host

-- `host.replace(/\.$/, '')`
abbrev pub strip_trailing_dot : Text → Text
strip_trailing_dot [] = []
strip_trailing_dot (c ∷ []) = if c == dot then [] else c ∷ []
strip_trailing_dot (c ∷ d ∷ s) = c ∷ strip_trailing_dot (d ∷ s)

-- `host.replace(/^www\./, '')`
unfoldable pub strip_www : Text → Text
strip_www host = if starts_with (codes "www.") host then drop 4 host else host

-- `labels.slice(-n).join('.')`, where there are at least `n` labels.
abbrev pub last_labels : ℕ → List Text → Text
last_labels n labels = join (dot ∷ []) (drop (length labels - n) labels)

-- From the host in its normal form on.
unfoldable pub from_labels : List Text → Text → Text
from_labels labels host =
    if leb (length labels) 2
    then host
    else if includes (last_labels 2 labels) multi_part_suffixes
    then last_labels 3 labels
    else last_labels 2 labels

unfoldable pub registrable_of : Text → Text
unfolding from_labels is_ip_address
registrable_of [] = []
registrable_of (c ∷ host) =
    if same_text (c ∷ host) (codes "localhost")
    then c ∷ host
    else if is_ip_address (c ∷ host)
    then c ∷ host
    else from_labels (split dot (c ∷ host)) (c ∷ host)

module _ (lower : Text → Text) where
  -- The host in lower case, with no space around it, no final dot and no `www.` before it.
  unfoldable pub normal_host : Text → Text
  unfolding strip_www
  normal_host host = strip_www (strip_trailing_dot (lower (trim host)))

  unfoldable pub registrable_domain : Text → Text
  unfolding registrable_of normal_host
  registrable_domain [] = []
  registrable_domain (c ∷ host) = registrable_of (normal_host (c ∷ host))

-- `host_of url` is `new URL(url).hostname`, and `none` an exception, which reads as ''.
module _ (lower : Text → Text) (host_of : Text → Option Text) where
  abbrev pub or_empty : Option Text → Text
  or_empty none = []
  or_empty (some host) = host

  unfoldable pub hostname_of : Text → Text
  hostname_of url = or_empty (host_of url)

  -- Both are non-empty and the same.
  abbrev pub same_domain : Text → Text → Bool
  same_domain [] b = false
  same_domain (x ∷ a) [] = false
  same_domain (x ∷ a) (y ∷ b) = same_text (x ∷ a) (y ∷ b)

  abbrev pub hosts_match : Text → Text → Bool
  hosts_match [] b = false
  hosts_match (x ∷ a) [] = false
  hosts_match (x ∷ a) (y ∷ b) =
      same_domain (registrable_domain lower (x ∷ a)) (registrable_domain lower (y ∷ b))

  unfoldable pub domains_match : Text → Text → Bool
  unfolding hostname_of
  domains_match a b = hosts_match (hostname_of a) (hostname_of b)
