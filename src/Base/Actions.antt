-- ===== src/Base/Actions.antt =====
-- A call that may write the database and fail: what was written stays written after an error.
use mathlib.Core.Path.{◌≡◌, refl}
use mathlib.Core.Bool.{Bool, true, false}
use shadraw.Base.Results.{Result, ok, err}

abbrev pub Action : Type 0 → Type 0 → Type 0 → Type 0
Action D E A = D → Result E A × D

module _ {D E A : Type 0} where
  abbrev pub pure : A → Action D E A
  pure a d = (ok a, d)

  abbrev pub raise : E → Action D E A
  raise e d = (err e, d)

  -- A query, which does not write.
  abbrev pub query : (D → Result E A) → Action D E A
  query q d = (q d, d)

  -- A value or an error of a call that does not touch the database.
  abbrev pub from_result : Result E A → Action D E A
  from_result r d = (r, d)

-- `if c { return err }`
abbrev pub raise_if : {D E : Type 0} → Bool → E → Action D E Unit
raise_if true e d = (err e, d)
raise_if false e d = (ok tt, d)

abbrev pub and_then : {D E A B : Type 0} → Result E A × D → (A → Action D E B) → Result E B × D
and_then (ok a, d) f = f a d
and_then (err e, d) f = (err e, d)

infixl 5 ◌>>=◌ ◌>>◌
unfoldable pub ◌>>=◌ : {D E A B : Type 0} → Action D E A → (A → Action D E B) → Action D E B
◌>>=◌ m f d = and_then (m d) f

abbrev pub ◌>>◌ : {D E B : Type 0} → Action D E Unit → Action D E B → Action D E B
m >> k = m >>= λ _. k

and_then-ok :
    {D E A B : Type 0} (m : Result E A × D) (f : A → Action D E B) {b : B} {d' : D}
    → and_then m f ≡ (ok b, d')
    → (a : A) × (m.0 ≡ ok a) × (f a m.1 ≡ (ok b, d'))
and_then-ok (ok a, d) f h = (a, refl, h)
and_then-ok (err e, d) f h = cc

-- A sequence that succeeds, taken apart.
pub >>=-ok :
    {D E A B : Type 0} (m : Action D E A) (f : A → Action D E B) (d : D) {b : B} {d' : D}
    → (m >>= f) d ≡ (ok b, d')
    → (a : A) × ((m d).0 ≡ ok a) × (f a (m d).1 ≡ (ok b, d'))
unfolding ◌>>=◌
>>=-ok m f d h = and_then-ok (m d) f h

pub raise_if-ok :
    {D E : Type 0} (c : Bool) (e : E) (d : D) {a : Unit} → (raise_if c e d).0 ≡ ok a → c ≡ false
raise_if-ok true e d h = cc
raise_if-ok false e d h = refl

pub pure-ok :
    {D E A : Type 0} {a b : A} {d d' : D}
    → ◌≡◌ {A = Result E A × D} (ok a, d) (ok b, d')
    → (a ≡ b) × (d ≡ d')
pure-ok h = (cc, cc)

-- The same with what follows from the parts, one rule for each kind of step.
module _ {D E B C : Type 0} {b : B} {d' : D} where
  pub step_then :
      {A : Type 0} (m : Action D E A) (f : A → Action D E B) (d : D)
      → (m >>= f) d ≡ (ok b, d')
      → ((a : A) → (m d).0 ≡ ok a → f a (m d).1 ≡ (ok b, d') → C)
      → C
  step_then m f d h k = let (a, e, rest) = >>=-ok m f d h in k a e rest

  pub query_then :
      {A : Type 0} (q : D → Result E A) (f : A → Action D E B) (d : D)
      → (query q >>= f) d ≡ (ok b, d')
      → ((a : A) → q d ≡ ok a → f a d ≡ (ok b, d') → C)
      → C
  query_then q f d h k = let (a, e, rest) = >>=-ok (query q) f d h in k a e rest

  pub value_then :
      {A : Type 0} (r : Result E A) (f : A → Action D E B) (d : D)
      → (from_result r >>= f) d ≡ (ok b, d')
      → ((a : A) → r ≡ ok a → f a d ≡ (ok b, d') → C)
      → C
  value_then r f d h k = let (a, e, rest) = >>=-ok (from_result r) f d h in k a e rest

  pub guard_then :
      (c : Bool) (x : E) (k : Action D E B) (d : D)
      → (raise_if c x >> k) d ≡ (ok b, d')
      → (c ≡ false → k d ≡ (ok b, d') → C)
      → C
  unfolding ◌>>=◌
  guard_then true x k d h then_do = cc
  guard_then false x k d h then_do = then_do refl h

pub whole :
    {D E A : Type 0} (m : Result E A × D) {a : A} {d' : D} → m.0 ≡ ok a → m.1 ≡ d' → m ≡ (ok a, d')
whole m h k = λ i. (h i, k i)
