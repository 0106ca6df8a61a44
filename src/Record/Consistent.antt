-- ===== src/Record/Consistent.antt =====
-- What holds of each row of the table of records, and the assignments of the statements.
use shadraw.Base.{ℕ, String, ◌≡◌, ◌≢◌, ◌⊎◌, Bool, true, false, Option, none, arith, str_eq}
use shadraw.Record.{
  waiting, running, completed, failed, Record, Fills, has_image, publishable, retryable, is_running,
  set_favorite, set_project, set_public, reset, start, complete, fail, unstart,
}

-- A row fits its status: an image where it is completed and nowhere else, an error text where it
-- failed and nowhere else, the times of its stages, and only a completed row is public.
pub record IsConsistent (r : Record) : Type 0 where
  pub imaged : r.status ≡ completed → has_image r.image_path ≡ true
  pub unimaged : r.status ≢ completed → r.image_path ≡ none
  pub private : r.status ≢ completed → r.is_public ≡ false
  pub published : r.is_public ≡ true → r.published_at ≢ none
  pub unpublished : r.is_public ≡ false → (r.published_at ≡ none) × (r.prompt_public ≡ true)
  pub blamed : r.status ≡ failed → r.error ≢ none
  pub clean : r.status ≢ failed → (r.error ≡ none) × (r.upstream_error ≡ none)
  pub unstarted : r.status ≡ waiting → r.started_at ≡ none
  pub started : r.status ≡ running → r.started_at ≢ none
  pub pending : (r.status ≡ waiting) ⊎ (r.status ≡ running) → r.completed_at ≡ none
  pub ended : (r.status ≡ completed) ⊎ (r.status ≡ failed) → r.completed_at ≢ none

pub set_favorite-IsConsistent :
    (b : Bool) (r : Record) → IsConsistent r → IsConsistent (set_favorite b r)
set_favorite-IsConsistent b r h = ground arith

pub set_project-IsConsistent :
    (p : Option ℕ) (r : Record) → IsConsistent r → IsConsistent (set_project p r)
set_project-IsConsistent p r h = ground arith

pub set_public-IsConsistent :
    (now id user_id : ℕ) (is_public prompt_public : Bool) (r : Record)
    → publishable id user_id r ≡ true
    → IsConsistent r
    → IsConsistent (set_public now is_public prompt_public r)
set_public-IsConsistent now id user_id is_public prompt_public r e h = ground arith

pub reset-IsConsistent :
    (id user_id : ℕ) (r : Record)
    → retryable id user_id r ≡ true
    → IsConsistent r
    → IsConsistent (reset r)
reset-IsConsistent id user_id r e h = ground arith

pub start-IsConsistent :
    (now : ℕ) (r : Record) → r.status ≡ waiting → IsConsistent r → IsConsistent (start now r)
start-IsConsistent now r e h = ground arith

pub complete-IsConsistent :
    (now : ℕ) (path : String) (r : Record)
    → str_eq path "" ≡ false
    → r.status ≡ running
    → IsConsistent r
    → IsConsistent (complete now path r)
complete-IsConsistent now path r ne e h = ground arith

pub fail-IsConsistent :
    (now : ℕ) (msg upstream_error : String) (r : Record)
    → r.status ≡ running
    → IsConsistent r
    → IsConsistent (fail now msg upstream_error r)
fail-IsConsistent now msg upstream_error r e h = ground arith

pub unstart-IsConsistent :
    (r : Record) → is_running r ≡ true → IsConsistent r → IsConsistent (unstart r)
unstart-IsConsistent r e h = ground arith

-- A stored row is consistent if it was given as waiting.
pub Fills-IsConsistent :
    (given r : Record) → given.status ≡ waiting → Fills given r → IsConsistent r
Fills-IsConsistent given r e h = rw h (ground arith)
