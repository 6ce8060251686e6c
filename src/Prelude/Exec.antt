-- ===== src/Prelude/Exec.antt =====
-- Calls that change a state and may fail. What was changed before a failure stays changed, so the
-- state comes back beside the error as well.

use mathlib.Core.Bool.{Bool, true, false}
use mathlib.Core.Path.{◌≡◌, refl}

pub data Result {ℓ κ} (E : Type κ) (A : Type ℓ) : Type (ℓ ⊔ κ) where
  ok : A → Result E A
  err : E → Result E A

-- Calls that may fail and change nothing.
abbrev pub bind {ℓ κ} :
    {E : Type 0} {A : Type ℓ} {B : Type κ} → Result E A → (A → Result E B) → Result E B
bind (ok a) f = f a
bind (err e) f = err e

abbrev pub check {ℓ} : {E : Type ℓ} → E → Bool → Result E (Unit {0})
check e true = ok tt
check e false = err e

pub check_ok : {E : Type 0} (e : E) (b : Bool) → check e b ≡ ok tt → b ≡ true
check_ok e true h = refl
check_ok e false h = cc

pub bind_ok :
    {E A B : Type 0} (r : Result E A) (f : A → Result E B) (b : B)
    → bind r f ≡ ok b
    → (a : A) × ((r ≡ ok a) × (f a ≡ ok b))
bind_ok (ok a) f b h = (a, (refl, h))
bind_ok (err e) f b h = cc

abbrev pub Exec : Type 0 → Type 0 → Type 0 → Type 0
Exec S E A = S → Result E A × S

module _ {S E A : Type 0} where
  abbrev pub pure : A → Exec S E A
  pure a s = (ok a, s)

  abbrev pub fail : E → Exec S E A
  fail e s = (err e, s)

  -- A call that only looks at the state.
  abbrev pub asks : (S → Result E A) → Exec S E A
  asks f s = (f s, s)

module _ {S E A B : Type 0} where
  abbrev pub continue : Result E A → (A → Exec S E B) → Exec S E B
  continue (ok a) f s = f a s
  continue (err e) f s = (err e, s)

  infixl 5 ◌>>=◌ ◌>>◌
  abbrev pub ◌>>=◌ : Exec S E A → (A → Exec S E B) → Exec S E B
  ◌>>=◌ m f s = continue (m s).0 f (m s).1

  abbrev pub ◌>>◌ : Exec S E A → Exec S E B → Exec S E B
  m >> k = m >>= λ _. k

-- Rules that show a predicate on the outcome of a sequence from the outcomes of its parts.
module _ {S E A B : Type 0} (P : Result E B × S → Type 0) where
  outcome_rule :
      (k : A → Exec S E B) (o : Result E A × S)
      → ((e : E) (s : S) → o ≡ (err e, s) → P (err e, s))
      → ((a : A) (s : S) → o ≡ (ok a, s) → P (k a s))
      → P (continue o.0 k o.1)
  outcome_rule k (ok a, s) h g = g a s refl
  outcome_rule k (err e, s) h g = h e s refl

  pub call_rule :
      (m : Exec S E A) (k : A → Exec S E B) (s : S)
      → ((e : E) (s' : S) → m s ≡ (err e, s') → P (err e, s'))
      → ((a : A) (s' : S) → m s ≡ (ok a, s') → P (k a s'))
      → P ((m >>= k) s)
  call_rule m k s = outcome_rule k (m s)

  asked_rule :
      (k : A → Exec S E B) (r : Result E A) (s : S)
      → ((e : E) → r ≡ err e → P (err e, s))
      → ((a : A) → r ≡ ok a → P (k a s))
      → P (continue r k s)
  asked_rule k (ok a) s h g = g a refl
  asked_rule k (err e) s h g = h e refl

  pub asks_rule :
      (f : S → Result E A) (k : A → Exec S E B) (s : S)
      → ((e : E) → f s ≡ err e → P (err e, s))
      → ((a : A) → f s ≡ ok a → P (k a s))
      → P ((asks f >>= k) s)
  asks_rule f k s = asked_rule k (f s) s
