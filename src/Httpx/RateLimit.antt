-- ===== src/Httpx/RateLimit.antt =====
-- internal/httpx/ratelimit.go: the limiter of requests by key. A map is a list of keys with
-- values; times are nanoseconds, and the mutex makes each call of `allow` one step.
mod Keys
pub mod Limit
pub mod Eviction
mod Tests
use Prim.Native.String.{◌++◌ as append}
use shadraw.Base.{
  ℕ, suc, ◌+◌, ◌-◌, ◌/◌, ℤ, pos, negsuc, String, Bool, true, false, not, ◌||◌, Option, none, some,
  List, [], ◌∷◌, map, length, ltb, leb, str_eq, if◌then◌else◌,
}

pub record Window : Type 0 where
  pub reset_at : ℕ
  pub count : ℕ

abbrev pub Hits : Type 0
Hits = List (String × Window)

abbrev pub lookup : String → Hits → Option Window
lookup k [] = none
lookup k ((h, w) ∷ rest) = if str_eq h k then some w else lookup k rest

abbrev pub remove : String → Hits → Hits
remove k [] = []
remove k ((h, w) ∷ rest) = if str_eq h k then remove k rest else (h, w) ∷ remove k rest

abbrev pub set : String → Window → Hits → Hits
set k w hits = (k, w) ∷ remove k hits

pub record Limiter : Type 0 where
  pub limit : ℕ
  pub window : ℕ
  pub hits : Hits

unfoldable pub new_limiter : ℕ → ℕ → Limiter
new_limiter limit win = record { limit = limit; window = win; hits = [] }

-- `!ok || now.After(w.resetAt)`
abbrev pub is_over : ℕ → Option Window → Bool
is_over now none = true
is_over now (some w) = ltb w.reset_at now

-- `now.After(v.resetAt)`, for an entry that is there.
abbrev pub is_expired : ℕ → Option Window → Bool
is_expired now none = false
is_expired now (some w) = ltb w.reset_at now

-- The loop of `gc`, over the keys that the map had at its start.
abbrev pub evict : ℕ → List String → Hits → Hits
evict now [] hits = hits
evict now (k ∷ ks) hits =
    evict now ks (if is_expired now (lookup k hits) then remove k hits else hits)

unfoldable pub gc : ℕ → Hits → Hits
gc now hits = if ltb (length hits) 1024 then hits else evict now (map (λ e. e.0) hits) hits

-- An answer is none when the request is let through, or the time at which the window ends.
abbrev pub admit : Limiter → String → ℕ → Window → Option ℕ × Limiter
admit l key now w =
    if leb l.limit w.count
    then (some w.reset_at, l)
    else (none, record l { hits = set key (record w { count = suc w.count }) l.hits })

abbrev pub open_window : Limiter → String → ℕ → Option ℕ × Limiter
open_window l key now = (
  none,
  record l { hits = gc now (set key (record { reset_at = now + l.window; count = 1 }) l.hits) },
)

abbrev pub decide : Limiter → String → ℕ → Option Window → Option ℕ × Limiter
decide l key now none = open_window l key now
decide l key now (some w) = if ltb w.reset_at now then open_window l key now else admit l key now w

unfoldable pub allow : String → ℕ → Limiter → Option ℕ × Limiter
allow key now l = decide l key now (lookup key l.hits)

-- `time.Until`, by a later reading of the clock; it may be negative.
abbrev pub until : ℕ → ℕ → ℤ
until reset_at now = if leb now reset_at then pos (reset_at - now) else negsuc (now - reset_at - 1)

abbrev pub key_by_ip : String → String
key_by_ip ip = append "ip:" ip

-- The user's id is empty for a visitor.
unfoldable pub key_by_user : String → String → String
key_by_user user_id ip = if str_eq user_id "" then key_by_ip ip else append "user:" user_id

-- What the middleware does: the next handler runs, or the reply 429 with the seconds after which to
-- try again, rounded towards zero.
pub data Verdict : Type 0 where
  next : Verdict
  too_many_requests : ℤ → Verdict

abbrev pub seconds : ℤ → ℤ
seconds (pos n) = pos (n / 1000000000)
seconds (negsuc n) = if ltb (suc n) 1000000000 then pos 0 else negsuc (suc n / 1000000000 - 1)

abbrev pub answer : ℕ → Option ℕ → Verdict
answer later none = next
answer later (some reset_at) = too_many_requests (seconds (until reset_at later))

-- `later` is the reading of the clock for the header.
unfoldable pub rate_limit : String → ℕ → ℕ → Limiter → Verdict × Limiter
unfolding allow
rate_limit key now later l = let out = allow key now l in (answer later out.0, out.1)
