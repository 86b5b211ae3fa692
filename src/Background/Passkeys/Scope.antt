-- ===== src/Background/Passkeys/Scope.antt =====
-- Which passkeys of extension/background.js a page may see: those of an RP ID that is valid for the
-- host of the origin that the browser reports.
use mathlib.Core.Path.{subst}
use mathlib.Core.Option.{some-injective}
use maspassword.Base.{
  ◌⊎◌, inl, inr, ℕ, zero, suc, ◌≡◌, refl, sym, ap, ◌∙◌, Bool, true, false, ◌&&◌, if◌then◌else◌,
  Option, none, some, List, [], ◌∷◌, map, Text, All, get_elem?, same_text_iff, includes, arith,
}
use maspassword.Background.{Passkey, Item, World, Env}
use maspassword.Background.Monad.{ok, continue-ok}
use maspassword.Background.Items.{filter_items}
use maspassword.Background.Pending.{Sender}
use maspassword.Background.Passkeys.Origin.{Granted, enter-Granted}
use maspassword.Background.Passkeys.{
  Candidate, Gate, bad_origin, locked, security_error, open_for, candidates, passkey_of,
  usable_passkey, allowed_credential, candidate_of, enter, passkey_items_for, restricted,
  list_candidates, passkey_candidates,
}

-- The item and the passkey behind a candidate.
abbrev pub Held : List Text → Text → List Item → Candidate → Type 0
Held allow rp items c =
    (n : ℕ) × (i : Item) × (pk : Passkey) × (get_elem? items n ≡ some i)
    × (passkey_of i ≡ some pk)
    × (pk.rp_id ≡ rp)
    × (c.credential_id ≡ pk.credential_id)
    × (c.item_id ≡ i.item_id)
    × ((allow ≡ []) ⊎ (includes pk.credential_id allow ≡ true))

candidates_injective :
    (r s : Text) (k l : List Candidate)
    → ok (candidates r k) ≡ ok (candidates s l)
    → (r ≡ s) × (k ≡ l)
candidates_injective r s k l e = (cc, cc)

module _ {N : Type 0} (env : Env N) where
  filter_step :
      (test : Item → Bool) (x : Item) (items rest : List Item) (b : Bool)
      → test x ≡ b
      → ((n : ℕ) (i : Item)
          → get_elem? rest n ≡ some i
          → (test i ≡ true) × (m : ℕ) × (get_elem? items m ≡ some i))
      → (n : ℕ) (i : Item) → get_elem? (if b then x ∷ rest else rest) n ≡ some i
      → (test i ≡ true) × (m : ℕ) × (get_elem? (x ∷ items) m ≡ some i)
  filter_step test x items rest true t ih zero i e =
      (ap test (sym (some-injective _ _ e)) ∙ t, 0, e)
  filter_step test x items rest true t ih (suc n) i e =
      let (holds, m, from) = ih n i e in (holds, suc m, from)
  filter_step test x items rest false t ih n i e =
      let (holds, m, from) = ih n i e in (holds, suc m, from)

  get_elem?-filter_items :
      (test : Item → Bool) (items : List Item) (n : ℕ) (i : Item)
      → get_elem? (filter_items env test items) n ≡ some i
      → (test i ≡ true) × (m : ℕ) × (get_elem? items m ≡ some i)
  unfolding filter_items
  get_elem?-filter_items test [] n i e = cc
  get_elem?-filter_items test (x ∷ items) n i e =
      filter_step test x items (filter_items env test items) (test x) refl
        (λ n i e. get_elem?-filter_items test items n i e) n i e

  map-All :
      (P : Candidate → Type 0) (f : Item → Candidate) (items : List Item)
      → ((n : ℕ) (i : Item) → get_elem? items n ≡ some i → P (f i))
      → All P (map f items)
  map-All P f [] h = tt
  map-All P f (i ∷ items) h = (h 0 i refl, map-All P f items (λ n. h (suc n)))

  -- A passkey that is listed, and the candidate that the page sees of it.
  usable_passkey-rp_id :
      (rp : Text) (o : Option Passkey)
      → usable_passkey rp o ≡ true
      → (pk : Passkey) × (o ≡ some pk) × (pk.rp_id ≡ rp)
  usable_passkey-rp_id rp none e = cc
  usable_passkey-rp_id rp (some pk) e = (pk, refl, (same_text_iff pk.rp_id rp).0 (left _ _ e))
    where
      left : (a b : Bool) → (a && b) ≡ true → a ≡ true
      left a b e = ground arith

  get_elem?-restricted :
      (allow : List Text) (items : List Item) (n : ℕ) (i : Item)
      → get_elem? (restricted env allow items) n ≡ some i
      → ((allow ≡ []) ⊎ (allowed_credential allow (passkey_of i) ≡ true))
        × (m : ℕ) × (get_elem? items m ≡ some i)
  get_elem?-restricted [] items n i e = (inl refl, n, e)
  get_elem?-restricted (a ∷ allow) items n i e =
      let (allowed, m, from) =
        get_elem?-filter_items (λ i. allowed_credential (a ∷ allow) (passkey_of i)) items n i e in
      (inr allowed, m, from)

  allowed_credential-includes :
      (allow : List Text) (o : Option Passkey) (pk : Passkey)
      → o ≡ some pk
      → (allow ≡ []) ⊎ (allowed_credential allow o ≡ true)
      → (allow ≡ []) ⊎ (includes pk.credential_id allow ≡ true)
  allowed_credential-includes allow o pk s (inl none_asked) = inl none_asked
  allowed_credential-includes allow o pk s (inr allowed) =
      inr (ap (allowed_credential allow) (sym s) ∙ allowed)

  restricted-Held :
      (allow : List Text) (rp : Text) (items : List Item) (n : ℕ) (i : Item)
      → get_elem? (restricted env allow (passkey_items_for env rp items)) n ≡ some i
      → Held allow rp items (candidate_of rp i (passkey_of i))
  unfolding passkey_items_for
  restricted-Held allow rp items n i e =
      let (allowed, k, kept) = get_elem?-restricted allow (passkey_items_for env rp items) n i e in
      let (usable, m, from) =
        get_elem?-filter_items (λ i. usable_passkey rp (passkey_of i)) items k i kept in
      let (pk, found, same) = usable_passkey-rp_id rp (passkey_of i) usable in
      (
        m,
        i,
        pk,
        from,
        found,
        same,
        ap (λ o. (candidate_of rp i o).credential_id) found,
        ap (λ o. (candidate_of rp i o).item_id) found,
        allowed_credential-includes allow (passkey_of i) pk found allowed,
      )

  list_candidates-Held :
      (allow : List Text) (gate : Gate) (u v : World N) (rp : Text) (list : List Candidate)
      → list_candidates env allow gate u ≡ (ok (candidates rp list), v)
      → (origin : Text) × (gate ≡ open_for origin rp) × All (Held allow rp v.memory.items) list
  unfolding list_candidates
  list_candidates-Held allow bad_origin u v rp list e = cc
  list_candidates-Held allow locked u v rp list e = cc
  list_candidates-Held allow security_error u v rp list e = cc
  list_candidates-Held allow (open_for origin r) u v rp list e =
      let (same, l) = candidates_injective _ _ _ _ (ap (λ p. p.0) e) in
      let here =
        map-All (Held allow r u.memory.items) (λ i. candidate_of r i (passkey_of i))
          (restricted env allow (passkey_items_for env r u.memory.items))
          (λ n i from. restricted-Held allow r u.memory.items n i from) in
      (
        origin,
        ap (open_for origin) same,
        subst (λ w. All (Held allow rp w.memory.items) list) (ap (λ p. p.1) e)
            (subst (λ l. All (Held allow rp u.memory.items) l) l
              (subst
                (λ t. All (Held allow t u.memory.items) (
                  map (λ i. candidate_of r i (passkey_of i))
                    (restricted env allow (passkey_items_for env r u.memory.items))))
                same here)),
      )

  -- if passkeyCandidates lists passkeys for an RP ID then the worker is unlocked, the RP ID is valid for the host of the origin that the browser reports for the sender, and each of the passkeys is held by a cached item for that RP ID, among the credentials that were asked for if any were.
  pub passkey_candidates_scoped :
      (requested : Option Text) (allow : List Text) (sender : Sender) (w v : World N) (rp : Text)
      (list : List Candidate)
      → passkey_candidates env requested allow sender w ≡ (ok (candidates rp list), v)
      → ((origin : Text) × Granted env sender w origin rp) × All (Held allow rp v.memory.items) list
  unfolding passkey_candidates
  passkey_candidates_scoped requested allow sender w v rp list e =
      let (gate, u, first, after) = continue-ok (enter env sender requested w) _ _ _ e in
      let (origin, passed, held) = list_candidates-Held allow gate u v rp list after in
      (
        (
          origin,
          enter-Granted env sender requested origin rp w u (first ∙ ap (λ g. (ok g, u)) passed),
        ),
        held,
      )
