-- ===== src/Background/Monad.antt =====
-- The handlers of extension/background.js as actions: state, and exceptions that leave it as it is.
use maspassword.Base.{◌≡◌, refl, Bool, Option, none, some, Text, if◌then◌else◌}
use maspassword.Background.{World, Memory, Storage}

pub data Result (A : Type 0) : Type 0 where
  ok : A → Result A
  thrown : Text → Result A

abbrev pub Action : Type 0 → Type 0 → Type 0
Action N A = World N → Result A × World N

module _ {N A : Type 0} where
  abbrev pub pure : A → Action N A
  pure a w = (ok a, w)

  abbrev pub throw : Text → Action N A
  throw message w = (thrown message, w)

  abbrev pub gets : (World N → A) → Action N A
  gets f w = (ok (f w), w)

  abbrev pub or_throw : Option A → Text → Action N A
  or_throw none message = throw message
  or_throw (some a) message = pure a

infixl 5 ◌>>=◌ ◌>>◌
-- What follows, on a result.
unfoldable pub continue :
    {N A B : Type 0} → Result A × World N → (A → Action N B) → Result B × World N
continue (ok a, w) f = f a w
continue (thrown m, w) f = (thrown m, w)

abbrev pub ◌>>=◌ : {N A B : Type 0} → Action N A → (A → Action N B) → Action N B
◌>>=◌ m f w = continue (m w) f

abbrev pub ◌>>◌ : {N A B : Type 0} → Action N A → Action N B → Action N B
m >> k = m >>= λ _. k

-- `try { … } catch { … }`.
unfoldable pub recover : {N A : Type 0} → Result A × World N → Action N A → Result A × World N
recover (ok a, w) k = (ok a, w)
recover (thrown m, w) k = k w

abbrev pub try : {N A : Type 0} → Action N A → Action N A → Action N A
try m k w = recover (m w) k

module _ {N : Type 0} where
  abbrev pub modify_memory : (Memory → Memory) → Action N (Unit {0})
  modify_memory f w = (ok tt, record w { memory = f w.memory })

  abbrev pub modify_session : (Storage → Storage) → Action N (Unit {0})
  modify_session f w = (ok tt, record w { session = f w.session })

  abbrev pub throw_if : Bool → Text → Action N (Unit {0})
  throw_if c message w = (if c then thrown message else ok tt, w)

pub ok_injective : {A : Type 0} {a b : A} → ok a ≡ ok b → a ≡ b
ok_injective {a = a} e = cc

-- What came before an action that ends without an exception.
pub continue-ok :
    {N A B : Type 0} (r : Result A × World N) (f : A → Action N B) (b : B) (v : World N)
    → continue r f ≡ (ok b, v)
    → (a : A) × (u : World N) × (r ≡ (ok a, u)) × (f a u ≡ (ok b, v))
unfolding continue
continue-ok (ok a, w) f b v e = (a, w, refl, e)
continue-ok (thrown m, w) f b v e = cc
