-- ===== src/Record/Tests.antt =====
-- Runs on a database in memory with three records and a favorite.
use shadraw.Base.{
  ℕ, ◌≡◌, ◌≢◌, refl, Bool, true, false, inl, inr, ap, sym, arith, Bool-cases, count, ◌==◌, none,
  some, List, [], ◌∷◌, ok, All,
}
use shadraw.Table.{Table, Separate}
use shadraw.Table.Memory.{memory}
use shadraw.Imagegen
use shadraw.Record.{
  Status, waiting, running, completed, failed, Record, key, Fills, RecordFavorite, favorite_key,
  FillsFavorite,
}
use shadraw.Record.Repo
use shadraw.Record.Claim.{Claimed, claim_waiting-Claimed}
use shadraw.Record.Consistent.{IsConsistent}
use shadraw.Record.Queue.{System, IsSound, Reach, Step}
use shadraw.Record.Queue.Sound.{claim_exclusive, Reach-IsSound}

pub record Db : Type 0 where
  pub records : List Record
  pub favorites : List RecordFavorite

abbrev put_records : List Record → Db → Db
put_records rows d = record d { records = rows }

abbrev pub stamp : ℕ → Record → Record
stamp n r = record r {
  id = n;
  is_public = false;
  prompt_public = true;
  image_path = none;
  error = none;
  upstream_error = none;
  started_at = none;
  completed_at = none;
  published_at = none;
}

abbrev pub records : Table Db Record key Fills
records =
    memory key Fills (λ d. d.records) put_records (λ rows d. refl) stamp (λ n r. refl) (λ n r. refl)

abbrev pub favorites : Table Db RecordFavorite favorite_key FillsFavorite
favorites =
    memory favorite_key FillsFavorite (λ d. d.favorites) (λ rows d. record d { favorites = rows })
      (λ rows d. refl) (λ n f. record f { id = n }) (λ n f. refl) (λ n f. refl)

pub unless_apart :
    (p : RecordFavorite → Bool) (given : RecordFavorite) (d : Db)
    → records.rows (favorites.create_unless p given d).1 ≡ records.rows d
unless_apart p given d = elim (Bool-cases (count p d.favorites == 0)) [
  | inl e ↦ rw e refl
  | inr e ↦ rw e refl
]

abbrev pub favorites_apart : Separate favorites records.rows
favorites_apart = record {
  update_apart = λ p f d. refl;
  create_apart = λ given d. refl;
  create_unless_apart = unless_apart;
  delete_apart = λ p d. refl;
}

abbrev pub sample : ℕ → ℕ → Status → Record
sample id user_id status = record {
  id = id;
  uuid = "u";
  user_id = user_id;
  project_id = none;
  prompt = "a cat";
  model = "gpt-image-2";
  image_params = Imagegen.default_params;
  status = status;
  favorite = false;
  is_public = false;
  prompt_public = true;
  image_path = none;
  error = none;
  upstream_error = none;
  reference_images = none;
  started_at = none;
  completed_at = none;
  published_at = none;
  created_at = 0;
}

abbrev pub two_waiting : Db
two_waiting = record { records = sample 1 7 waiting ∷ sample 2 8 waiting ∷ []; favorites = [] }

sample-IsConsistent : (id user_id : ℕ) → IsConsistent (sample id user_id waiting)
unfolding Imagegen.default_params
sample-IsConsistent id user_id = ground arith

abbrev pub idle : System Db
idle = record { db = two_waiting; jobs = [] }

idle-IsSound : IsSound records idle
idle-IsSound = record {
  inv = ((sample-IsConsistent 1 7, (sample-IsConsistent 2 8, tt)), ground arith);
  once = tt;
  busy = tt;
}

-- The record that a claim at the time 100 returns.
abbrev pub first_started : Record
first_started = record (sample 1 7 waiting) { status = running; started_at = some 100 }

abbrev pub after_claim : Db
after_claim = record two_waiting { records = first_started ∷ sample 2 8 waiting ∷ [] }

pub first_claim : Repo.claim_waiting records 100 two_waiting ≡ (ok first_started, after_claim)
unfolding Repo.claim_waiting Repo.claim_body Repo.claim_selected Repo.claim_marked Repo.reread
    Repo.find_by_id Imagegen.default_params
first_claim = refl

abbrev second_started : Record
second_started = record (sample 2 8 waiting) { status = running; started_at = some 200 }

second_claim : (Repo.claim_waiting records 200 after_claim).0 ≡ ok second_started
unfolding Repo.claim_waiting Repo.claim_body Repo.claim_selected Repo.claim_marked Repo.reread
    Repo.find_by_id Imagegen.default_params
second_claim = refl

abbrev pub busy : System Db
busy = record { db = after_claim; jobs = 1 ∷ [] }

claimed-Reach : Reach records favorites idle busy
claimed-Reach = Reach.next Reach.here (
    Step.claim 100 first_started (ap (λ r. r.0) first_claim)
      (ap (λ r. record { db = r.1; jobs = 1 ∷ [] }) (sym first_claim)))

claim_exclusive_example :
    All {A = ℕ} (λ j. j ≢ 2) (1 ∷ [])
    × (second_started.status ≡ running)
    × (second_started.started_at ≡ some 200)
claim_exclusive_example =
    claim_exclusive records favorites favorites_apart 200 second_started idle-IsSound claimed-Reach
      second_claim

Reach-IsSound_example : IsSound records busy
Reach-IsSound_example = Reach-IsSound records favorites favorites_apart idle-IsSound claimed-Reach

claim_waiting-Claimed_example :
    Claimed records 100 two_waiting first_started (Repo.claim_waiting records 100 two_waiting).1
claim_waiting-Claimed_example =
    claim_waiting-Claimed records 100 two_waiting first_started (ground arith)
      (ap (λ r. r.0) first_claim)

found_first : Repo.find_by_id records 1 7 two_waiting ≡ ok (sample 1 7 waiting)
unfolding Repo.find_by_id Imagegen.default_params
found_first = refl

-- A public picture of the user 7, and a failed record of the user 8.
abbrev pub picture : Record
picture = record (sample 1 7 completed) {
  image_path = some "images/user-7/u.png";
  is_public = true;
  completed_at = some 50;
  published_at = some 60;
}

abbrev pub gallery : Db
gallery = record { records = picture ∷ sample 2 8 failed ∷ []; favorites = [] }

found_picture : Repo.find_visible_image_by_id records 1 0 gallery ≡ ok picture
unfolding Repo.find_visible_image_by_id Imagegen.default_params
found_picture = refl
