-- ===== src/Httpx/RateLimit/Tests.antt =====
-- Runs of a limiter of two requests in ten nanoseconds.
use shadraw.Base.{◌+◌, ◌≡◌, refl, none, List, [], ◌∷◌, arith}
use shadraw.Httpx.RateLimit.{Limiter, new_limiter}
use shadraw.Httpx.RateLimit.Limit.{Request, served, requests, smaller, window_serves}
use shadraw.Httpx.RateLimit.Eviction.{answered, answers, IsInOrder, eviction_unseen}

abbrev limiter : Limiter
limiter = record { limit = 2; window = 10; hits = [] }

abbrev burst : List Request
burst = ("a", 101) ∷ ("b", 102) ∷ ("a", 103) ∷ []

window_serves_example : served "a" (("a", 100) ∷ burst) limiter ≡ 1 + smaller (requests "a" burst) 1
window_serves_example =
    window_serves "a" 100 burst limiter refl (omega arith, (omega arith, (omega arith, tt)))

in_order : IsInOrder 0 burst
in_order = (omega arith, (omega arith, (omega arith, tt)))

eviction_unseen_example : answered burst (new_limiter 1 10) ≡ answers 1 10 burst (λ _. none)
eviction_unseen_example = eviction_unseen 1 10 burst in_order
