-- ===== src/Httpx/RateLimit/Limit.antt =====
-- How many requests of one key a window lets through.
use shadraw.Base.{
  ℕ, suc, ◌+◌, ◌-◌, ◌≤◌, ◌<◌, String, ◌≡◌, refl, sym, ap, ◌∙◌, ◌≢◌, Bool, true, false, ◌&&◌, inl,
  inr, Option, none, some, List, [], ◌∷◌, ltb, leb, str_eq, eq_iff, if◌then◌else◌, arith,
  Bool-cases, count, All,
}
use shadraw.Httpx.RateLimit
use shadraw.Httpx.RateLimit.{Window, Limiter, lookup, set, is_over, open_window, decide, admit}
use shadraw.Httpx.RateLimit.Keys.{same_key, lookup-set, lookup-set_other, Evicted, gc-Evicted}

-- A request: its key and the time at which it is handled.
abbrev pub Request : Type 0
Request = String × ℕ

abbrev pub passed : Option ℕ → Bool
passed none = true
passed (some _) = false

-- The requests of a key that a run lets through.
abbrev pub served : String → List Request → Limiter → ℕ
served k [] l = 0
served k ((j, now) ∷ rest) l =
    (if str_eq j k && passed (RateLimit.allow j now l).0 then 1 else 0)
    + served k rest (RateLimit.allow j now l).1

abbrev pub requests : String → List Request → ℕ
requests k calls = count (λ c. str_eq c.0 k) calls

abbrev pub smaller : ℕ → ℕ → ℕ
smaller a b = if leb a b then a else b

-- The window of `k` after a request, and the limit that stays.
abbrev Keeps : String → Window → Limiter → Limiter → Type 0
Keeps k w l l' = (lookup k l'.hits ≡ some w) × (l'.limit ≡ l.limit)

kept_open :
    (now : ℕ) (w : Window) (before after : Option Window)
    → now ≤ w.reset_at
    → before ≡ some w
    → Evicted now before after
    → after ≡ some w
kept_open now w before after early e (inl f) = f ∙ e
kept_open now w before after early e (inr f) = absurd (ground (arith, (rw e at f.1)))

other_open :
    (k j : String) (now : ℕ) (w : Window) (l : Limiter)
    → j ≢ k
    → now ≤ w.reset_at
    → lookup k l.hits ≡ some w
    → Keeps k w l (open_window l j now).1
other_open k j now w l other early e = (
  kept_open now w _ _ early (lookup-set_other k j _ l.hits (λ f. other (sym f)) ∙ e)
      (gc-Evicted now k _),
  refl,
)

other_decide :
    (k j : String) (now : ℕ) (w : Window) (l : Limiter) (found : Option Window)
    → j ≢ k
    → now ≤ w.reset_at
    → lookup k l.hits ≡ some w
    → Keeps k w l (decide l j now found).1
other_decide k j now w l none other early e = other_open k j now w l other early e
other_decide k j now w l (some v) other early e = elim (Bool-cases (ltb v.reset_at now)) [
  | inl f ↦ rw f (other_open k j now w l other early e)
  | inr f ↦ elim (Bool-cases (leb l.limit v.count)) [
    | inl g ↦ rw (f, g) (e, refl)
    | inr g ↦ rw (f, g) (lookup-set_other k j _ l.hits (λ h. other (sym h)) ∙ e, refl)
  ]
]

-- A request of another key leaves the window.
allow_other :
    (k j : String) (now : ℕ) (w : Window) (l : Limiter)
    → j ≢ k
    → now ≤ w.reset_at
    → lookup k l.hits ≡ some w
    → Keeps k w l (RateLimit.allow j now l).1
unfolding RateLimit.allow
allow_other k j now w l other early e = other_decide k j now w l _ other early e

-- Until the window is over it decides by its count.
allow_in_window :
    (k : String) (now : ℕ) (w : Window) (l : Limiter)
    → now ≤ w.reset_at
    → lookup k l.hits ≡ some w
    → RateLimit.allow k now l ≡ admit l k now w
unfolding RateLimit.allow
allow_in_window k now w l early e =
    let no : ltb w.reset_at now ≡ false = ground arith in rw (e, no) refl

allow_over :
    (k : String) (now : ℕ) (l : Limiter)
    → is_over now (lookup k l.hits) ≡ true
    → RateLimit.allow k now l ≡ open_window l k now
unfolding RateLimit.allow
allow_over k now l e = go (lookup k l.hits) e
  where
    go :
        (found : Option Window)
        → is_over now found ≡ true
        → decide l k now found ≡ open_window l k now
    go none h = refl
    go (some v) h = rw h refl

smaller_room :
    (n r limit c : ℕ)
    → c < limit
    → n ≡ smaller r (limit - suc c)
    → 1 + n ≡ smaller (1 + r) (limit - c)
smaller_room n r limit c low e = ground arith

smaller_same : (n r b : ℕ) → n ≡ smaller r b → 0 + n ≡ smaller (0 + r) b
smaller_same n r b e = ground arith

module _ (k : String) where
  admitted :
      (now : ℕ) (w : Window) (l : Limiter)
      → w.count < l.limit
      → ((admit l k now w).0 ≡ none)
        × Keeps k (record w { count = suc w.count }) l (admit l k now w).1
  admitted now w l low =
      let no : leb l.limit w.count ≡ false = ground arith in
      rw no (refl, (lookup-set k _ l.hits, refl))

  refused :
      (now : ℕ) (w : Window) (l : Limiter)
      → l.limit ≤ w.count
      → admit l k now w ≡ (some w.reset_at, l)
  refused now w l full = let yes : leb l.limit w.count ≡ true = ground arith in rw yes refl

  -- One request in an open window, and the rest of the run.
  served_next :
      (j : String) (now limit : ℕ) (rest : List Request) (w : Window) (l : Limiter)
      → lookup k l.hits ≡ some w
      → l.limit ≡ limit
      → now ≤ w.reset_at
      → ((v : Window) (m : Limiter)
          → v.reset_at ≡ w.reset_at
          → lookup k m.hits ≡ some v
          → m.limit ≡ limit
          → served k rest m ≡ smaller (requests k rest) (limit - v.count))
      → served k ((j, now) ∷ rest) l ≡ smaller (requests k ((j, now) ∷ rest)) (limit - w.count)
  served_next j now limit rest w l e same early ih = elim (Bool-cases (str_eq j k)) [
    | inl f ↦
        let this : RateLimit.allow j now l ≡ admit l k now w =
          rw ((eq_iff j k).0 f) (allow_in_window k now w l early e) in
        elim (Bool-cases (leb l.limit w.count)) [
          | inl g ↦
              let full = refused now w l (ground arith) in
              let tail = ih w l refl e same in rw (f, this, full) (ground arith)
          | inr g ↦
              let (pass, (kept, limit_kept)) = admitted now w l (ground arith) in
              let v : Window = record w { count = suc w.count } in
              let tail = ih v (admit l k now w).1 refl kept (limit_kept ∙ same) in
              rw (f, this, pass) (smaller_room _ _ limit w.count (ground arith) tail)
        ]
    | inr f ↦
        let (kept, limit_kept) = allow_other k j now w l (λ s. cc (f, (eq_iff j k).1 s)) early e in
        let tail = ih w (RateLimit.allow j now l).1 refl kept (limit_kept ∙ same) in
        rw f (smaller_same _ (requests k rest) (limit - w.count) tail)
  ]

  -- The rest of a run in an open window.
  served_in_window :
      (limit : ℕ) (calls : List Request) (w : Window) (l : Limiter)
      → lookup k l.hits ≡ some w
      → l.limit ≡ limit
      → All (λ c. c.1 ≤ w.reset_at) calls
      → served k calls l ≡ smaller (requests k calls) (limit - w.count)
  served_in_window limit [] w l e same early = ground arith
  served_in_window limit ((j, now) ∷ rest) w l e same (early, h) =
      served_next j now limit rest w l e same early
        (λ v m r f g. served_in_window limit rest v m f g (rw r h))

  -- A request that opens a window is let through, and of the requests of its key until the end of
  -- the window exactly the first `limit - 1` others.
  pub window_serves :
      (now : ℕ) (calls : List Request) (l : Limiter)
      → is_over now (lookup k l.hits) ≡ true
      → All (λ c. c.1 ≤ now + l.window) calls
      → served k ((k, now) ∷ calls) l ≡ 1 + smaller (requests k calls) (l.limit - 1)
  window_serves now calls l over early =
      let w : Window = record { reset_at = now + l.window; count = 1 } in
      let kept = kept_open now w _ _ (omega arith) (lookup-set k w l.hits) (gc-Evicted now k _) in
      let tail = served_in_window l.limit calls w (open_window l k now).1 kept refl early in
      rw (same_key k, allow_over k now l over) (ap (λ n. 1 + n) tail)
