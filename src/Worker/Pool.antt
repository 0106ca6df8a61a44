-- ===== src/Worker/Pool.antt =====
-- internal/worker/pool.go: the number of workers. A worker that sees more workers than are wanted
-- gives up the mutex before it takes itself off the count, so looking and leaving are two steps.
use shadraw.Base.{
  ℕ, zero, suc, ◌+◌, ◌-◌, ◌≤◌, ◌<◌, ◌≡◌, refl, sym, Bool, true, false, ℤ, pos, negsuc, ltb,
  if◌then◌else◌, arith,
}

-- The fields that the mutex guards.
pub record Pool : Type 0 where
  pub desired : ℕ
  pub current : ℕ
  pub closed : Bool

abbrev pub most : ℕ
most = 16

-- The bounds that `Resize` puts on its argument.
unfoldable pub clamp : ℤ → ℕ
clamp (negsuc n) = 0
clamp (pos n) = if ltb most n then most else n

-- The pool after `Resize`, and how many workers it starts.
unfoldable pub resize : ℤ → Pool → Pool × ℕ
unfolding clamp
resize target p =
    let delta = clamp target - p.current in
    (record p { desired = clamp target; current = p.current + delta }, delta)

-- Workers that are in their loop, and workers that have left it and not yet counted themselves
-- out.
pub record Workers : Type 0 where
  pub pool : Pool
  pub looping : ℕ
  pub leaving : ℕ

abbrev pub started : ℕ → Pool × ℕ → Workers → Workers
started leaving (p, n) w = record { pool = p; looping = w.looping + n; leaving = leaving }

abbrev pub leave : Workers → Workers
leave w = record w { looping = w.looping - 1; leaving = suc w.leaving }

abbrev pub count_out : Workers → Workers
count_out w = record w {
  pool = record w.pool { current = w.pool.current - 1 };
  leaving = w.leaving - 1;
}

-- A worker that stays in its loop changes nothing, so it has no step.
pub data Step (w v : Workers) : Type 0 where
  resizes : (target : ℤ) → v ≡ started w.leaving (resize target w.pool) w → Step w v
  sees_excess : 0 < w.looping → w.pool.desired < w.pool.current → v ≡ leave w → Step w v
  sees_stop : 0 < w.looping → w.pool.closed ≡ true → v ≡ leave w → Step w v
  counts_out : 0 < w.leaving → v ≡ count_out w → Step w v
  stops : v ≡ record w { pool = record w.pool { closed = true } } → Step w v

pub data Reach (w : Workers) : Workers → Type 0 where
  here : Reach w w
  next : {v u : Workers} → Reach w v → Step v u → Reach w u

-- The count is that of the workers, and it is bounded.
pub record IsCounted (w : Workers) : Type 0 where
  pub counted : w.pool.current ≡ w.looping + w.leaving
  pub bounded : w.pool.current ≤ most

clamp-le : (target : ℤ) → clamp target ≤ most
unfolding clamp
clamp-le (negsuc n) = omega arith
clamp-le (pos n) = ground arith

-- `New` and any run after it: the pool never counts a worker that is not there, and never has more
-- than sixteen.
pub Step-IsCounted : (w v : Workers) → Step w v → IsCounted w → IsCounted v
unfolding resize
Step-IsCounted w v (Step.resizes target e) h =
    let low = clamp-le target in
    rw e (record { counted = omega (arith, h.counted); bounded = omega (arith, h.bounded, low) })
Step-IsCounted w v (Step.sees_excess some_looping more e) h =
    rw e (record { counted = omega (arith, h.counted); bounded = h.bounded })
Step-IsCounted w v (Step.sees_stop some_looping closed e) h =
    rw e (record { counted = omega (arith, h.counted); bounded = h.bounded })
Step-IsCounted w v (Step.counts_out some_leaving e) h =
    rw e (record { counted = omega (arith, h.counted); bounded = omega (arith, h.bounded) })
Step-IsCounted w v (Step.stops e) h = rw e (record { counted = h.counted; bounded = h.bounded })

-- In every run the count is that of the workers that loop or leave, and at most sixteen.
pub Reach-IsCounted : {w v : Workers} → Reach w v → IsCounted w → IsCounted v
Reach-IsCounted Reach.here h = h
Reach-IsCounted (Reach.next r s) h = Step-IsCounted _ _ s (Reach-IsCounted r h)

Reach-trans : {w v u : Workers} → Reach w v → Reach v u → Reach w u
Reach-trans r Reach.here = r
Reach-trans r (Reach.next q s) = Reach.next (Reach-trans r q) s

-- A pool that nobody stops.
abbrev pub running_pool : ℕ → ℕ → ℕ → ℕ → Workers
running_pool desired current looping leaving = record {
  pool = record { desired = desired; current = current; closed = false };
  looping = looping;
  leaving = leaving;
}

all_leave :
    (t c k l m : ℕ) → t < c → m ≡ k + l → Reach (running_pool t c k l) (running_pool t c 0 m)
all_leave t c zero l m more e = let same : l ≡ m = omega arith in rw same Reach.here
all_leave t c (suc k) l m more e =
    let left : suc k - 1 ≡ k = omega arith in
    let first : Step (running_pool t c (suc k) l) (running_pool t c k (suc l)) =
      Step.sees_excess (omega arith) more (cc left) in
    Reach-trans (Reach.next Reach.here first) (all_leave t c k (suc l) m more (omega arith))

all_count_out : (t c k : ℕ) → c ≡ k → Reach (running_pool t c 0 k) (running_pool t 0 0 0)
all_count_out t c zero e = rw e Reach.here
all_count_out t c (suc k) e =
    let left : suc k - 1 ≡ k = omega arith in
    let counted : c - 1 ≡ k = omega arith in
    let first : Step (running_pool t c 0 (suc k)) (running_pool t k 0 k) =
      Step.counts_out (omega arith) (cc (left, counted)) in
    Reach-trans (Reach.next Reach.here first) (all_count_out t k k refl)

-- A running pool of n workers, at most sixteen, that is resized to t < n can be left with none: all
-- of them see the excess before the first one counts itself out.
pub resize_can_drain :
    (n t : ℕ) → t < n → n ≤ most → Reach (running_pool n n n 0) (running_pool t 0 0 0)
unfolding resize clamp
resize_can_drain n t less bound =
    let low : ltb most t ≡ false = ground arith in
    let delta : t - n ≡ 0 = omega arith in
    let plain : n + 0 ≡ n = omega arith in
    let first : Step (running_pool n n n 0) (running_pool t n n 0) =
      Step.resizes (pos t) (rw (low, delta) (cc plain)) in
    Reach-trans (Reach.next Reach.here first)
      (Reach-trans (all_leave t n n 0 n less (sym plain)) (all_count_out t n n refl))
