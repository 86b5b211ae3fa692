-- ===== src/Domain/Match.antt =====
-- What a match of two URLs means.
use maspassword.Base.{
  suc, ◌≤◌, ap, inl, inr, count, count-append, Bool, true, false, ◌≡◌, ◌≢◌, refl, sym, ◌∙◌, ◌⊎◌,
  Option, [], ◌∷◌, Text, same_text_iff, includes, arith,
}
use maspassword.Domain.{
  dot, multi_part_suffixes, normal_host, registrable_domain, hostname_of, same_domain, hosts_match,
  domains_match,
}
use maspassword.Domain.Label.{Under, registrable_of_bounds}
use maspassword.Domain.Shape.{Registrable, whole, two_labels, on_suffix, registrable_of-Registrable}

Bool-eq : {x y : Bool} → (x ≡ true → y ≡ true) → (y ≡ true → x ≡ true) → x ≡ y
Bool-eq {x = true} f g = sym (f refl)
Bool-eq {x = false} {y = true} f g = g refl
Bool-eq {x = false} {y = false} f g = refl

-- What two URLs have in common: one domain that is not empty, that is the whole of each host in its
-- normal form or stands behind a dot in it, that is a registrable domain of either, and that is a
-- two-label public suffix only if it is both hosts.
pub record SameSite (domain hosta hostb : Text) : Type 0 where
  pub not_empty : domain ≢ []
  pub under_a : Under domain hosta
  pub under_b : Under domain hostb
  pub shape_a : Registrable domain hosta
  pub shape_b : Registrable domain hostb
  pub registrable :
      (includes domain multi_part_suffixes ≡ false) ⊎ (domain ≡ hosta) × (domain ≡ hostb)

Under-count :
    (domain host : Text) → Under domain host → count dot host ≤ count dot domain → host ≡ domain
Under-count domain host (inl e) le = e
Under-count domain host (inr (labels, e)) le =
    absurd (omega (arith, ap (count dot) e, count-append dot labels (dot ∷ domain), step, le))
  where
    step : count dot (dot ∷ domain) ≡ suc (count dot domain)
    step = unfold count in omega arith

-- A host of two labels is the whole of its domain.
is_domain :
    (domain host : Text)
    → Under domain host
    → Registrable domain host
    → count dot host ≡ 1
    → host ≡ domain
is_domain domain host under (whole e kind) one = e
is_domain domain host under (two_labels e listed) one =
    Under-count domain host under (omega (arith, one, e))
is_domain domain host under (on_suffix label suffix e plain dots listed) one =
    Under-count domain host under
      (omega (arith, one, ap (count dot) e, count-append dot label (dot ∷ suffix), step, dots))
  where
    step : count dot (dot ∷ suffix) ≡ suc (count dot suffix)
    step = unfold count in omega arith

-- Two hosts of two labels each that have a domain in common are the same.
pub SameSite-eq :
    (domain a b : Text) → SameSite domain a b → count dot a ≡ 1 → count dot b ≡ 1 → a ≡ b
SameSite-eq domain a b s one_a one_b =
    is_domain domain a s.under_a s.shape_a one_a
    ∙ sym (is_domain domain b s.under_b s.shape_b one_b)

module _ (lower : Text → Text) (host_of : Text → Option Text) where
  -- Both hosts are there, and have one registrable domain, which is not empty.
  record Shares (hosta hostb : Text) : Type 0 where
    some_a : hosta ≢ []
    some_b : hostb ≢ []
    some_domain : registrable_domain lower hosta ≢ []
    same : registrable_domain lower hosta ≡ registrable_domain lower hostb

  same_domain-eq : (a b : Text) → same_domain lower host_of a b ≡ true → (a ≢ []) × (a ≡ b)
  same_domain-eq [] b h = absurd (ground arith)
  same_domain-eq (x ∷ a) [] h = absurd (ground arith)
  same_domain-eq (x ∷ a) (y ∷ b) h = (λ e. ground arith, (same_text_iff (x ∷ a) (y ∷ b)).0 h)

  same_domain_refl : (a : Text) → a ≢ [] → same_domain lower host_of a a ≡ true
  same_domain_refl [] h = absurd (h refl)
  same_domain_refl (x ∷ a) h = (same_text_iff (x ∷ a) (x ∷ a)).1 refl

  of_hosts_match : (a b : Text) → hosts_match lower host_of a b ≡ true → Shares a b
  of_hosts_match [] b h = absurd (ground arith)
  of_hosts_match (x ∷ a) [] h = absurd (ground arith)
  of_hosts_match (x ∷ a) (y ∷ b) h =
      let (ne, e) = same_domain-eq _ _ h in
      record { some_a = λ e. ground arith; some_b = λ e. ground arith; some_domain = ne; same = e }

  hosts_match_of : (a b : Text) → Shares a b → hosts_match lower host_of a b ≡ true
  hosts_match_of [] b s = absurd (s.some_a refl)
  hosts_match_of (x ∷ a) [] s = absurd (s.some_b refl)
  hosts_match_of (x ∷ a) (y ∷ b) s = rw (← s.same) (same_domain_refl _ s.some_domain)

  domain_bounds :
      (host : Text)
      → host ≢ []
      → Under (registrable_domain lower host) (normal_host lower host)
        × ((includes (registrable_domain lower host) multi_part_suffixes ≡ false)
            ⊎ (registrable_domain lower host ≡ normal_host lower host))
  domain_bounds [] h = absurd (h refl)
  domain_bounds (c ∷ host) h =
      unfold registrable_domain in registrable_of_bounds (normal_host lower (c ∷ host))

  domain_shape :
      (host : Text)
      → host ≢ []
      → Registrable (registrable_domain lower host) (normal_host lower host)
  domain_shape [] h = absurd (h refl)
  domain_shape (c ∷ host) h =
      unfold registrable_domain in registrable_of-Registrable (normal_host lower (c ∷ host))

  -- If domainsMatch accepts two URLs, both hosts (in lower case, without a final dot and a leading
  -- `www.`) lie in one domain, which is not empty: it is the whole host or the tail of it behind a
  -- dot. For either host it is all of a host that is `localhost`, an IP address or has at most one
  -- dot, or it has one dot and is no listed suffix, or it is one label before a listed suffix. It is a
  -- listed suffix itself only if it is both hosts.
  pub domains_match_sound :
      (a b : Text)
      → domains_match lower host_of a b ≡ true
      → (domain : Text) × SameSite domain
          (normal_host lower (hostname_of lower host_of a))
          (normal_host lower (hostname_of lower host_of b))
  unfolding domains_match
  domains_match_sound a b h =
      let s = of_hosts_match (hostname_of lower host_of a) (hostname_of lower host_of b) h in
      let (under_a, reg_a) = domain_bounds (hostname_of lower host_of a) s.some_a in
      let (under_b, reg_b) = domain_bounds (hostname_of lower host_of b) s.some_b in
      (
        registrable_domain lower (hostname_of lower host_of a),
        record {
          not_empty = s.some_domain;
          under_a = under_a;
          under_b = rw s.same under_b;
          shape_a = domain_shape (hostname_of lower host_of a) s.some_a;
          shape_b = rw s.same (domain_shape (hostname_of lower host_of b) s.some_b);
          registrable = ground (arith, reg_a, reg_b, s.same);
        },
      )

  -- domainsMatch is symmetric.
  pub domains_match_comm :
      (a b : Text) → domains_match lower host_of a b ≡ domains_match lower host_of b a
  unfolding domains_match
  domains_match_comm a b =
      Bool-eq (flip (hostname_of lower host_of a) (hostname_of lower host_of b))
        (flip (hostname_of lower host_of b) (hostname_of lower host_of a))
    where
      flip :
          (x y : Text) → hosts_match lower host_of x y ≡ true → hosts_match lower host_of y x ≡ true
      flip x y h =
          let s = of_hosts_match x y h in
          hosts_match_of y x (record {
            some_a = s.some_b;
            some_b = s.some_a;
            some_domain = λ e. s.some_domain (s.same ∙ e);
            same = sym s.same;
          })

  -- domainsMatch is transitive, so the sites form classes: a login that matches a page matches
  -- all that the page matches.
  domains_match_trans :
      (a b c : Text)
      → domains_match lower host_of a b ≡ true
      → domains_match lower host_of b c ≡ true
      → domains_match lower host_of a c ≡ true
  unfolding domains_match
  domains_match_trans a b c h k =
      let s = of_hosts_match (hostname_of lower host_of a) (hostname_of lower host_of b) h in
      let t = of_hosts_match (hostname_of lower host_of b) (hostname_of lower host_of c) k in
      hosts_match_of (hostname_of lower host_of a) (hostname_of lower host_of c) (record {
        some_a = s.some_a;
        some_b = t.some_b;
        some_domain = s.some_domain;
        same = s.same ∙ t.same;
      })
