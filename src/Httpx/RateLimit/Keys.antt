-- ===== src/Httpx/RateLimit/Keys.antt =====
-- What setting, removing and evicting keys of the map leave to be looked up.
use shadraw.Base.{
  ℕ, String, ◌≡◌, refl, sym, ◌∙◌, ◌≢◌, true, ◌⊎◌, inl, inr, Option, none, some, List, [], ◌∷◌, map,
  length, ltb, str_eq, eq_iff, if◌then◌else◌, Bool-cases,
}
use shadraw.Httpx.RateLimit
use shadraw.Httpx.RateLimit.{Window, Hits, lookup, remove, set, is_expired, evict}

pub same_key : (k : String) → str_eq k k ≡ true
same_key k = (eq_iff k k).1 refl

pub lookup-remove : (k : String) (hits : Hits) → lookup k (remove k hits) ≡ none
lookup-remove k [] = refl
lookup-remove k ((h, w) ∷ rest) = elim (Bool-cases (str_eq h k)) [
  | inl e ↦ rw (e, lookup-remove k rest) refl
  | inr e ↦ rw (e, e, lookup-remove k rest) refl
]

pub lookup-remove_other :
    (j k : String) (hits : Hits) → j ≢ k → lookup j (remove k hits) ≡ lookup j hits
lookup-remove_other j k [] other = refl
lookup-remove_other j k ((h, w) ∷ rest) other =
    let ih = lookup-remove_other j k rest other in
    elim (Bool-cases (str_eq h k)) [
      | inl e ↦ elim (Bool-cases (str_eq h j)) [
        | inl f ↦ absurd (other (sym ((eq_iff h j).0 f) ∙ (eq_iff h k).0 e))
        | inr f ↦ rw (e, f) ih
      ]
      | inr e ↦ elim (Bool-cases (str_eq h j)) [ inl f ↦ rw (e, f) refl | inr f ↦ rw (e, f) ih ]
    ]

pub lookup-set : (k : String) (w : Window) (hits : Hits) → lookup k (set k w hits) ≡ some w
lookup-set k w hits = rw (same_key k) refl

pub lookup-set_other :
    (j k : String) (w : Window) (hits : Hits) → j ≢ k → lookup j (set k w hits) ≡ lookup j hits
lookup-set_other j k w hits other = elim (Bool-cases (str_eq k j)) [
  | inl e ↦ absurd (other (sym ((eq_iff k j).0 e)))
  | inr e ↦ rw e (lookup-remove_other j k hits other)
]

-- A key is evicted only when its window is over.
abbrev pub Evicted : ℕ → Option Window → Option Window → Type 0
Evicted now before after = (after ≡ before) ⊎ ((after ≡ none) × (is_expired now before ≡ true))

evict_one :
    (now : ℕ) (j k : String) (hits : Hits)
    → Evicted now
        (lookup j hits)
        (lookup j (if is_expired now (lookup k hits) then remove k hits else hits))
evict_one now j k hits = elim (Bool-cases (is_expired now (lookup k hits))) [
  | inl e ↦ elim (Bool-cases (str_eq j k)) [
    | inl f ↦ let same : j ≡ k = (eq_iff j k).0 f in rw (e, same) (inr (lookup-remove k hits, e))
    | inr f ↦ rw e (inl (lookup-remove_other j k hits (λ same. cc (f, (eq_iff j k).1 same))))
  ]
  | inr e ↦ rw e (inl refl)
]

pub Evicted-then :
    (now : ℕ) (a b c : Option Window) → Evicted now a b → Evicted now b c → Evicted now a c
Evicted-then now a b c (inl e) (inl f) = inl (f ∙ e)
Evicted-then now a b c (inl e) (inr f) = inr (f.0, rw (← e) f.1)
Evicted-then now a b c (inr e) (inl f) = inr (f ∙ e.0, e.1)
Evicted-then now a b c (inr e) (inr f) = inr (f.0, e.1)

evict-Evicted :
    (now : ℕ) (j : String) (ks : List String) (hits : Hits)
    → Evicted now (lookup j hits) (lookup j (evict now ks hits))
evict-Evicted now j [] hits = inl refl
evict-Evicted now j (k ∷ ks) hits =
    Evicted-then now _ _ _ (evict_one now j k hits) (evict-Evicted now j ks _)

pub gc-Evicted :
    (now : ℕ) (j : String) (hits : Hits)
    → Evicted now (lookup j hits) (lookup j (RateLimit.gc now hits))
unfolding RateLimit.gc
gc-Evicted now j hits = elim (Bool-cases (ltb (length hits) 1024)) [
  | inl e ↦ rw e (inl refl)
  | inr e ↦ rw e (evict-Evicted now j (map (λ e. e.0) hits) hits)
]
