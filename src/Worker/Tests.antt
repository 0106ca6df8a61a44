-- ===== src/Worker/Tests.antt =====
-- Rounds of a worker on the database in memory, and runs of the pool.
use shadraw.Base.{String, ◌≡◌, ◌≢◌, refl, inl, [], ◌∷◌, Result, ok, arith, eq_iff}
use shadraw.Imagegen
use shadraw.Record.Repo
use shadraw.Record.Queue.{Reach}
use shadraw.Record.Tests.{records, favorites, two_waiting, after_claim, first_started, first_claim}
use shadraw.Upstream
use shadraw.Upstream.{Transport, GenerateResult}
use shadraw.Worker
use shadraw.Worker.{Services}
use shadraw.Worker.Protocol.{tick_once-Reach, Runs, released}
use shadraw.Worker.Outcomes.{Answers, IsSettled, settle-IsSettled}
use shadraw.Worker.Pool.{
  Workers, Reach as PoolReach, IsCounted, Reach-IsCounted, resize_can_drain, running_pool,
}

-- An API that draws one byte, and a store that puts every image at one path.
abbrev transport : Transport
transport = record { call_images = λ cfg p. ok (137 ∷ []); call_responses = λ cfg p. ok (137 ∷ []) }

abbrev services : Services
services = record {
  transport = transport;
  config = record { base_url = "https://api"; api_key = "sk" };
  put = λ user_id uuid extension image. ok "images/u.png";
  text = λ e. e.message;
  to_lower = λ s. s;
}

abbrev drawn : GenerateResult
drawn = record { image = 137 ∷ []; mime = "image/png"; extension = "png" }

generated : Upstream.generate transport services.config (Worker.request_of first_started) ≡ ok drawn
unfolding Upstream.generate Imagegen.normalize Imagegen.default_params Imagegen.mime
    Imagegen.extension Imagegen.or_default
generated = refl

path_ne : ◌≢◌ {A = String} "images/u.png" ""
path_ne = ground (arith, eq_iff "images/u.png" "")

answers : Answers records
answers p f d = (_, refl)

named : (path : String) → ◌≡◌ {A = Result String String} (ok "images/u.png") (ok path) → path ≢ ""
named path e = let same : "images/u.png" ≡ path = cc in rw (← same) path_ne

settle-IsSettled_example :
    IsSettled 1 (Worker.settle records services 300 first_started after_claim).records
settle-IsSettled_example =
    settle-IsSettled records services answers (λ user_id uuid extension image path e. named path e)
      300 first_started after_claim

claimed-Runs :
    Runs records favorites services
      (λ d. d)
      []
      (Repo.claim_waiting records 100 two_waiting)
      (1 ∷ [])
claimed-Runs = rw first_claim (Reach.here, inl refl)

tick_once-Reach_example :
    Reach records favorites
      (record { db = two_waiting; jobs = [] })
      (record {
        db = (Worker.tick_once records services 100 300 (λ d. d) two_waiting).1;
        jobs = released (Repo.claim_waiting records 100 two_waiting).0 (1 ∷ []);
      })
tick_once-Reach_example =
    tick_once-Reach records favorites services 100 300 (λ d. d) two_waiting [] (1 ∷ []) claimed-Runs

abbrev two_workers : Workers
two_workers = running_pool 2 2 2 0

two_workers-IsCounted : IsCounted two_workers
two_workers-IsCounted = record { counted = refl; bounded = omega arith }

resize_can_drain_example : PoolReach two_workers (running_pool 1 0 0 0)
resize_can_drain_example = resize_can_drain 2 1 (omega arith) (omega arith)

Reach-IsCounted_example : IsCounted (running_pool 1 0 0 0)
Reach-IsCounted_example = Reach-IsCounted resize_can_drain_example two_workers-IsCounted
