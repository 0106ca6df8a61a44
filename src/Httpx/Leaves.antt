-- ===== src/Httpx/Leaves.antt =====
-- What a handler leaves alone, part by part.
use shadraw.Base.{
  ◌≡◌, refl, ap, ◌∙◌, Bool, true, false, Option, none, some, Result, ok, err, Action, pure, query,
  from_result, raise_if, ◌>>=◌, and_then,
}
use shadraw.Httpx.Reply.{Failure, failing, answering, when_given}

pub failing_state :
    {E A D : Type 0} (answer : E → Failure) (out : Result E A × D) → (failing answer out).1 ≡ out.1
failing_state answer (ok b, d) = refl
failing_state answer (err e, d) = refl

-- A part of a handler leaves a view of the database as it is.
pub record Leaves {D V E A : Type 0} (view : D → V) (d : D) (m : Action D E A) : Type 0 where
  pub same : view (m d).1 ≡ view d

module _ {D V : Type 0} (view : D → V) where
  and_then-view :
      {E A B : Type 0} (out : Result E A × D) (k : A → Action D E B)
      → ((a : A) → out.0 ≡ ok a → Leaves view out.1 (k a))
      → view (and_then out k).1 ≡ view out.1
  and_then-view (ok a, d) k rest = (rest a refl).same
  and_then-view (err e, d) k rest = refl

  pub Leaves-then :
      {E A B : Type 0} (m : Action D E A) (k : A → Action D E B) (d : D)
      → Leaves view d m
      → ((a : A) → (m d).0 ≡ ok a → Leaves view (m d).1 (k a))
      → Leaves view d (m >>= k)
  unfolding ◌>>=◌
  Leaves-then m k d first rest = record { same = and_then-view (m d) k rest ∙ first.same }

  -- A value that is computed without the database, and a query.
  pub Leaves-value :
      {E A B : Type 0} (r : Result E A) (k : A → Action D E B) (d : D)
      → ((a : A) → r ≡ ok a → Leaves view d (k a))
      → Leaves view d (from_result r >>= k)
  Leaves-value r k d rest = Leaves-then (from_result r) k d (record { same = refl }) rest

  pub Leaves-pure : {E A : Type 0} (a : A) (d : D) → Leaves view d (pure {E = E} a)
  Leaves-pure a d = record { same = refl }

  pub Leaves-raise_if : {E : Type 0} (c : Bool) (e : E) (d : D) → Leaves view d (raise_if c e)
  Leaves-raise_if true e d = record { same = refl }
  Leaves-raise_if false e d = record { same = refl }

  pub Leaves-when_given :
      {A : Type 0} (o : Option A) (k : A → Action D Failure Unit) (d : D)
      → ((a : A) → Leaves view d (k a))
      → Leaves view d (when_given o k)
  Leaves-when_given none k d h = record { same = refl }
  Leaves-when_given (some a) k d h = h a

  pub Leaves-answering :
      {E A : Type 0} (answer : E → Failure) (m : Action D E A) (d : D)
      → Leaves view d m
      → Leaves view d (answering answer m)
  Leaves-answering answer m d h = record { same = ap view (failing_state answer (m d)) ∙ h.same }

  pub Leaves-query : {E A : Type 0} (q : D → Result E A) (d : D) → Leaves view d (query q)
  Leaves-query q d = record { same = refl }
