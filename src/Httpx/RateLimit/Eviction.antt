-- ===== src/Httpx/RateLimit/Eviction.antt =====
-- Evicting windows is not observed: a limiter that never evicts gives the same answers.
use shadraw.Base.{
  ℕ, suc, ◌+◌, ◌≤◌, String, ◌≡◌, refl, sym, ◌∙◌, inl, inr, Option, none, some, List, [], ◌∷◌, ltb,
  leb, str_eq, eq_iff, if◌then◌else◌, arith, Bool-cases,
}
use shadraw.Httpx.RateLimit
use shadraw.Httpx.RateLimit.{Window, Hits, Limiter, lookup, set, is_expired, is_over, decide}
use shadraw.Httpx.RateLimit.Keys.{lookup-remove_other, Evicted, Evicted-then, gc-Evicted}
use shadraw.Httpx.RateLimit.Limit.{Request}

-- The limiter as a function from keys to windows.
abbrev pub State : Type 0
State = String → Option Window

abbrev put : String → Window → State → State
put k w s j = if str_eq k j then some w else s j

module _ (limit window : ℕ) where
  abbrev fresh : String → ℕ → State → Option ℕ × State
  fresh k now s = (none, put k (record { reset_at = now + window; count = 1 }) s)

  abbrev next : String → ℕ → State → Option Window → Option ℕ × State
  next k now s none = fresh k now s
  next k now s (some w) =
      if ltb w.reset_at now
      then fresh k now s
      else (if leb limit w.count
          then (some w.reset_at, s)
          else (none, put k (record w { count = suc w.count }) s))

  unfoldable pub allow : String → ℕ → State → Option ℕ × State
  allow k now s = next k now s (s k)

  abbrev pub answers : List Request → State → List (Option ℕ)
  answers [] s = []
  answers ((k, now) ∷ rest) s = (allow k now s).0 ∷ answers rest (allow k now s).1

-- The answers of the limiter itself.
abbrev pub answered : List Request → Limiter → List (Option ℕ)
answered [] l = []
answered ((k, now) ∷ rest) l =
    (RateLimit.allow k now l).0 ∷ answered rest (RateLimit.allow k now l).1

-- The times of the requests, from `now` on, do not go back.
abbrev pub IsInOrder : ℕ → List Request → Type 0
IsInOrder now [] = Unit
IsInOrder now ((k, t) ∷ rest) = (now ≤ t) × IsInOrder t rest

-- The map holds what the function does, but for windows that are over.
Simulates : ℕ → Limiter → (String → Option Window) → Type 0
Simulates now l s = (j : String) → Evicted now (s j) (lookup j l.hits)

Evicted-later : (now t : ℕ) (a b : Option Window) → now ≤ t → Evicted now a b → Evicted t a b
Evicted-later now t a b le (inl e) = inl e
Evicted-later now t none b le (inr e) = cc
Evicted-later now t (some w) b le (inr (e, f)) = inr (e, ground arith)

put-Evicted :
    (now : ℕ) (k j : String) (w : Window) (hits : Hits) (s : String → Option Window)
    → ((i : String) → Evicted now (s i) (lookup i hits))
    → Evicted now (put k w s j) (lookup j (set k w hits))
put-Evicted now k j w hits s sim = elim (Bool-cases (str_eq k j)) [
  | inl e ↦ rw e (inl refl)
  | inr e ↦ rw (e, lookup-remove_other j k hits (λ f. cc (e, (eq_iff k j).1 (sym f)))) (sim j)
]

Agrees : ℕ → Option ℕ × Limiter → Option ℕ × (String → Option Window) → Type 0
Agrees now (a, l) (b, s) = (a ≡ b) × Simulates now l s

module _ (limit win now : ℕ) (k : String) where
  fresh-Agrees :
      (l : Limiter) (s : String → Option Window)
      → l.window ≡ win
      → Simulates now l s
      → Agrees now (RateLimit.open_window l k now) (fresh limit win k now s)
  unfolding Agrees Simulates
  fresh-Agrees l s e sim =
      rw e (
        refl,
        λ j. Evicted-then now _ _ _ (put-Evicted now k j _ l.hits s sim) (gc-Evicted now j _),
      )

  decide-Agrees :
      (l : Limiter) (s : String → Option Window) (a b : Option Window)
      → l.limit ≡ limit
      → l.window ≡ win
      → Simulates now l s
      → Evicted now a b
      → Agrees now (decide l k now b) (next limit win k now s a)
  unfolding Agrees Simulates
  decide-Agrees l s none none e f sim ev = fresh-Agrees l s f sim
  decide-Agrees l s none (some v) e f sim (inl h) = cc
  decide-Agrees l s none (some v) e f sim (inr (h, expired)) = cc
  decide-Agrees l s (some w) none e f sim (inl h) = cc
  decide-Agrees l s (some w) none e f sim (inr (h, over)) = rw over (fresh-Agrees l s f sim)
  decide-Agrees l s (some w) (some v) e f sim (inr (h, expired)) = cc
  decide-Agrees l s (some w) (some v) e f sim (inl h) =
      let same : v ≡ w = cc in
      elim (Bool-cases (ltb w.reset_at now)) [
        | inl over ↦ rw (same, over) (fresh-Agrees l s f sim)
        | inr early ↦ elim (Bool-cases (leb limit w.count)) [
          | inl full ↦ rw (same, early, e, full) (refl, sim)
          | inr room ↦ rw (same, early, e, room) (refl, λ j. put-Evicted now k j _ l.hits s sim)
        ]
      ]

  allow-Agrees :
      (l : Limiter) (s : String → Option Window)
      → l.limit ≡ limit
      → l.window ≡ win
      → Simulates now l s
      → Agrees now (RateLimit.allow k now l) (allow limit win k now s)
  unfolding RateLimit.allow allow Simulates
  allow-Agrees l s e f sim = decide-Agrees l s (s k) (lookup k l.hits) e f sim (sim k)

allow-settings :
    (k : String) (now : ℕ) (l : Limiter)
    → ((RateLimit.allow k now l).1.limit ≡ l.limit)
      × ((RateLimit.allow k now l).1.window ≡ l.window)
unfolding RateLimit.allow
allow-settings k now l = go (lookup k l.hits)
  where
    go :
        (found : Option Window)
        → ((decide l k now found).1.limit ≡ l.limit) × ((decide l k now found).1.window ≡ l.window)
    go none = (refl, refl)
    go (some w) = elim (Bool-cases (ltb w.reset_at now)) [
      | inl over ↦ rw over (refl, refl)
      | inr early ↦ elim (Bool-cases (leb l.limit w.count)) [
        | inl full ↦ rw (early, full) (refl, refl)
        | inr room ↦ rw (early, room) (refl, refl)
      ]
    ]

Simulates-later :
    (now t : ℕ) (l : Limiter) (s : String → Option Window)
    → now ≤ t
    → Simulates now l s
    → Simulates t l s
unfolding Simulates
Simulates-later now t l s le sim j = Evicted-later now t _ _ le (sim j)

answers_agree :
    (limit win now : ℕ) (calls : List Request) (l : Limiter) (s : String → Option Window)
    → l.limit ≡ limit
    → l.window ≡ win
    → IsInOrder now calls
    → Simulates now l s
    → answered calls l ≡ answers limit win calls s
unfolding Agrees
answers_agree limit win now [] l s e f order sim = refl
answers_agree limit win now ((k, t) ∷ rest) l s e f (le, order) sim =
    let (same, next_sim) = allow-Agrees limit win t k l s e f (Simulates-later now t l s le sim) in
    let (e', f') = allow-settings k t l in
    rw (same, answers_agree limit win t rest _ _ (e' ∙ e) (f' ∙ f) order next_sim) refl

-- For requests in the order of time, evicting windows changes no answer.
pub eviction_unseen :
    (limit win : ℕ) (calls : List Request)
    → IsInOrder 0 calls
    → answered calls (RateLimit.new_limiter limit win) ≡ answers limit win calls (λ _. none)
unfolding RateLimit.new_limiter Simulates
eviction_unseen limit win calls order =
    answers_agree limit win 0 calls (record { limit = limit; window = win; hits = [] }) (λ _. none)
      refl refl order (λ j. inl refl)
