-- ===== src/Kdbx/Entries/Restored.antt =====
-- itemsToKdbxEntries, then kdbxEntriesToItems: what comes back of an item.
use mathlib.Core.Path.{subst}
use maspassword.Base.{
  ◌≡◌, refl, ◌∙◌, ◌⊎◌, inl, inr, Bool-cases, ap, Bool, true, false, not, ◌&&◌, Option, none, some,
  List, [], ◌∷◌, Text, codes, All, trim,
}
use maspassword.Item.{ItemData, or_else, or_blank, truthy}
use maspassword.Import.{if_truthy}
use maspassword.Kdbx.{Result, ok, err, ◌>>=◌}
use maspassword.Kdbx.Entries.{
  Entry, entry_fields, entry_field, otpauth_uri, item_to_entry, items_to_kdbx_entries,
}
use maspassword.Kdbx.Entries.Reader.{
  by_key, val, non_empty, item_of, is_blank, with_groups, kdbx_entries_to_items,
}
use maspassword.Kdbx.Entries.Fields.{by_key-entry_fields}

-- The title of an item that comes back.
abbrev pub restored_title : ItemData → Text
restored_title d =
    or_else (some (trim (or_blank d.title)))
      (or_else (some (or_blank d.username)) (or_else (some (or_blank d.url)) (codes "KeePass")))

pub record IsRestored (d item : ItemData) : Type 0 where
  pub title : item.title ≡ some (restored_title d)
  pub username : item.username ≡ if_truthy d.username
  pub password : item.password ≡ if_truthy d.password
  pub url : item.url ≡ if_truthy d.url
  pub notes : item.notes ≡ if_truthy d.notes
  pub tags : item.tags ≡ d.tags

-- An item that the reader leaves out.
abbrev pub is_bare : ItemData → Bool
is_bare d =
    not (truthy (some (trim (or_blank d.title))))
    && (not (truthy (some (or_blank d.username)))
        && (not (truthy (some (or_blank d.password))) && not (truthy (some (or_blank d.url)))))

module _ (d : ItemData) (otp : Text) where
  val_lem :
      (key : Text) (v : Option Text) (p : Bool)
      → by_key key (entry_fields d otp) ≡ some (entry_field key v p)
      → val key (entry_fields d otp) ≡ or_blank v
  val_lem key none p e = rw (e, val) refl
  val_lem key (some []) p e = rw (e, val) refl
  val_lem key (some (c ∷ v)) p e = rw (e, val) refl

  each_read : All (λ f. by_key f.key (entry_fields d otp) ≡ some f) (entry_fields d otp)
  each_read = by_key-entry_fields d otp

  title_val : val (codes "Title") (entry_fields d otp) ≡ or_blank d.title
  title_val = val_lem (codes "Title") d.title false (unfold entry_fields in each_read.0)

  username_val : val (codes "UserName") (entry_fields d otp) ≡ or_blank d.username
  username_val = val_lem (codes "UserName") d.username false (unfold entry_fields in each_read.1.0)

  password_val : val (codes "Password") (entry_fields d otp) ≡ or_blank d.password
  password_val = val_lem (codes "Password") d.password true (unfold entry_fields in each_read.1.1.0)

  url_val : val (codes "URL") (entry_fields d otp) ≡ or_blank d.url
  url_val = val_lem (codes "URL") d.url false (unfold entry_fields in each_read.1.1.1.0)

  notes_val : val (codes "Notes") (entry_fields d otp) ≡ or_blank d.notes
  notes_val = val_lem (codes "Notes") d.notes false (unfold entry_fields in each_read.1.1.1.1.0)

  abbrev entry : Entry
  entry = record {
    title = or_blank d.title;
    fields = entry_fields d otp;
    tags = d.tags;
    group = [];
  }

  blank_lem : is_blank (entry_fields d otp) ≡ is_bare d
  blank_lem = λ i.
      not (truthy (some (trim (title_val i))))
      && (not (truthy (some (username_val i)))
          && (not (truthy (some (password_val i))) && not (truthy (some (url_val i)))))

non_empty-or_blank : (v : Option Text) → non_empty (or_blank v) ≡ if_truthy v
non_empty-or_blank none = refl
non_empty-or_blank (some []) = refl
non_empty-or_blank (some (c ∷ s)) = refl

module _ (url_secret : Text → Option Text) where
  item_of-IsRestored : (d : ItemData) (otp : Text) → IsRestored d (item_of url_secret (entry d otp))
  unfolding item_of with_groups
  item_of-IsRestored d otp = record {
    title = λ i. some (
        or_else (some (trim (title_val d otp i))) (
          or_else (some (username_val d otp i))
            (or_else (some (url_val d otp i)) (codes "KeePass"))));
    username = ap non_empty (username_val d otp) ∙ non_empty-or_blank d.username;
    password = ap non_empty (password_val d otp) ∙ non_empty-or_blank d.password;
    url = ap non_empty (url_val d otp) ∙ non_empty-or_blank d.url;
    notes = ap non_empty (notes_val d otp) ∙ non_empty-or_blank d.notes;
    tags = refl;
  }

  -- The items that come back, one for each that is not bare, in their order.
  abbrev pub AreRestored : List ItemData → List ItemData → Type 0
  AreRestored [] items = items ≡ []
  AreRestored (d ∷ ds) items =
      ((is_bare d ≡ true) × AreRestored ds items)
      ⊎ ((item : ItemData) × (rest : List ItemData) × (is_bare d ≡ false)
          × (items ≡ item ∷ rest)
          × IsRestored d item
          × AreRestored ds rest)

  Returns : List ItemData → Result (List Entry) → Type 0
  Returns ds (ok entries) = AreRestored ds (kdbx_entries_to_items url_secret entries)
  Returns ds (err e) = Unit

  Returns-cons :
      (d : ItemData) (ds : List ItemData) (otp : Result Text) (later : Result (List Entry))
      → Returns ds later
      → Returns
          (d ∷ ds)
          ((otp >>= λ otp. ok (entry d otp)) >>= λ e. later >>= λ entries. ok (e ∷ entries))
  unfolding Returns
  Returns-cons d ds (err e) later h = tt
  Returns-cons d ds (ok otp) (err e) h = tt
  Returns-cons d ds (ok otp) (ok entries) h = elim (Bool-cases (is_bare d)) [
    | inl bare ↦
        let blank : is_blank (entry d otp).fields ≡ true = blank_lem d otp ∙ bare in
        inl (bare, unfold kdbx_entries_to_items in rw blank h)
    | inr full ↦
        let filled : is_blank (entry d otp).fields ≡ false = blank_lem d otp ∙ full in
        inr (
          item_of url_secret (entry d otp),
          kdbx_entries_to_items url_secret entries,
          full,
          unfold kdbx_entries_to_items in rw filled refl,
          item_of-IsRestored d otp,
          h,
        )
  ]

  module _ (encode : Text → Result Text) where
    all_return : (ds : List ItemData) → Returns ds (items_to_kdbx_entries encode ds)
    unfolding items_to_kdbx_entries item_to_entry Returns kdbx_entries_to_items
    all_return [] = refl
    all_return (d ∷ ds) =
        Returns-cons d ds (otpauth_uri encode d) (items_to_kdbx_entries encode ds) (all_return ds)

    pub kdbx_entries_to_items-items_to_kdbx_entries :
        (ds : List ItemData) (entries : List Entry)
        → items_to_kdbx_entries encode ds ≡ ok entries
        → AreRestored ds (kdbx_entries_to_items url_secret entries)
    kdbx_entries_to_items-items_to_kdbx_entries ds entries e =
        unfold Returns in subst (Returns ds) e (all_return ds)
