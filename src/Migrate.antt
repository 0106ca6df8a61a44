-- ===== src/Migrate.antt =====
-- cmd/migrate-blobs/main.go: the copy of the local images into the object store. `filepath.WalkDir` calls
-- its function for the entries of a directory in turn; `Entry` is what it finds. Paths, `strings`
-- and the store are parameters. The files that the program prints about are left out; so are flags.
pub mod Counts
pub mod Uploads
pub mod Dotenv
mod Tests
use text.Mathlib.Text.{starts_with}
use shadraw.Base.{
  ℕ, ◌+◌, String, ◌≡◌, ◌≢◌, Bool, true, false, not, ◌&&◌, ◌||◌, Option, none, some, List, [], ◌∷◌,
  ◌++◌, Result, ok, err, ltb, ◌==◌, str_eq, if◌then◌else◌, length,
}

pub record Options : Type 0 where
  pub data_dir : String
  pub endpoint : String
  pub region : String
  pub bucket : String
  pub access_key : String
  pub secret_key : String
  pub dry_run : Bool
  pub verify_only : Bool

pub record Stats : Type 0 where
  pub scanned : ℕ
  pub uploaded : ℕ
  pub verified : ℕ
  pub skipped : ℕ
  pub failed : ℕ
  pub bytes : ℕ

abbrev pub no_stats : Stats
no_stats = record { scanned = 0; uploaded = 0; verified = 0; skipped = 0; failed = 0; bytes = 0 }

-- A file: its key, which is its path from the data directory with slashes, its size by `Info`, and
-- its bytes by `ReadFile`.
pub record File : Type 0 where
  pub name : String
  pub key : String
  pub info : Result String ℕ
  pub read : Result String (List ℕ)

-- What a directory holds. A directory has a mark if reading it fails: then the entries that were read
-- are walked after a call with the error.
mutual
  pub data Entry : Type 0 where
    file : File → Entry
    directory : String → Bool → Entries → Entry
    -- A path that `WalkDir` cannot look at.
    unreadable : Entry

  pub data Entries : Type 0 where
    no_entries : Entries
    entry : Entry → Entries → Entries

-- The store: `Stat`, and `Put` of the bytes under a bucket, a user and a file.
pub record Store (S : Type 0) : Type 0 where
  pub stat : String → S → Result String ℕ
  pub put : String → String → String → List ℕ → S → Result String String × S

-- `strings.Split(s, "/")`, `path.Join`
pub record Paths : Type 0 where
  pub split : String → List String
  pub join : List String → String

abbrev pub is_hidden : String → Bool
is_hidden name = starts_with name "."

abbrev pub as_key : String → String → String → Result String (String × String × String)
as_key images user file_key =
    if not (str_eq images "images") || str_eq user ""
    then err "expected images/<user>/<file>"
    else if str_eq file_key "." || str_eq file_key ""
    then err "missing file name"
    else ok (images, user, file_key)

abbrev pub of_parts : Paths → List String → Result String (String × String × String)
of_parts paths (images ∷ user ∷ first ∷ rest) = as_key images user (paths.join (first ∷ rest))
of_parts paths _ = err "expected images/<user>/<file>"

unfoldable pub split_object_key : Paths → String → Result String (String × String × String)
split_object_key paths key = of_parts paths (paths.split key)

-- What the function is called with and counts: a file, a hidden directory, which is not entered, or an
-- error. The directory of the images itself may be hidden.
pub data Call : Type 0 where
  of_file : File → Call
  of_hidden : Call
  of_error : Call

unfoldable mutual
  pub calls : Entry → List Call
  calls (file f) = of_file f ∷ []
  calls (directory name broken inside) =
      let below = calls_of inside in
      if is_hidden name then of_hidden ∷ [] else if broken then of_error ∷ below else below
  calls unreadable = of_error ∷ []

  pub calls_of : Entries → List Call
  calls_of no_entries = []
  calls_of (entry e rest) = calls e ++ calls_of rest

abbrev pub add_failed : Stats → Stats
add_failed st = record st { failed = st.failed + 1 }

abbrev pub add_uploaded : Stats → Stats
add_uploaded st = record st { uploaded = st.uploaded + 1 }

abbrev pub add_verified : Stats → Stats
add_verified st = record st { verified = st.verified + 1 }

abbrev pub add_skipped : Stats → Stats
add_skipped st = record st { skipped = st.skipped + 1 }

module _ {S : Type 0} (store : Store S) (paths : Paths) (opts : Options) where
  abbrev pub verified_file : ℕ → Result String ℕ → Stats → Stats
  verified_file local (err text) st = add_failed st
  verified_file local (ok size) st = if not (size == local) then add_failed st else add_verified st

  abbrev pub put_done : Stats → Result String String × S → Stats × S
  put_done st (ok path, s) = (add_uploaded st, s)
  put_done st (err text, s) = (add_failed st, s)

  abbrev pub upload : String × String × String → Result String (List ℕ) → Stats → S → Stats × S
  upload key (err text) st s = (add_failed st, s)
  upload (bucket, user, file_key) (ok bytes) st s =
      put_done st (store.put bucket user file_key bytes s)

  -- A file with a good key and its size.
  unfoldable pub sized_file : File → String × String × String → ℕ → Stats → S → Stats × S
  sized_file f key size before s =
      let st = record before { bytes = before.bytes + size } in
      if opts.dry_run
      then (add_uploaded st, s)
      else if opts.verify_only
      then (verified_file size (store.stat f.key s) st, s)
      else upload key f.read st s

  abbrev pub stat_file : File → String × String × String → Result String ℕ → Stats → S → Stats × S
  stat_file f key (err text) st s = (add_failed st, s)
  stat_file f key (ok size) st s = sized_file f key size st s

  abbrev pub keyed_file : File → Result String (String × String × String) → Stats → S → Stats × S
  keyed_file f (err text) st s = (add_failed st, s)
  keyed_file f (ok key) st s = stat_file f key f.info st s

  unfoldable pub visit_file : File → Stats → S → Stats × S
  unfolding sized_file
  visit_file f before s =
      let st = record before { scanned = before.scanned + 1 } in
      if is_hidden f.name
      then (add_skipped st, s)
      else keyed_file f (split_object_key paths f.key) st s

  abbrev pub visit : Call → Stats × S → Stats × S
  visit (of_file f) (st, s) = visit_file f st s
  visit of_hidden (st, s) = (add_skipped st, s)
  visit of_error (st, s) = (add_failed st, s)

  unfoldable pub walk : List Call → Stats × S → Stats × S
  unfolding visit_file
  walk [] out = out
  walk (c ∷ rest) out = walk rest (visit c out)

  -- The error of `os.Stat` of the directory `images`, or what it holds.
  unfoldable pub migrate : Result String Entries → S → Result String Stats × S
  unfolding walk
  migrate (err text) s = (err text, s)
  migrate (ok inside) s = let out = walk (calls_of inside) (no_stats, s) in (ok out.0, out.1)

-- `validate`: the names of the missing settings, in the order of the source; Go takes any order.
abbrev pub missing_one : (String → String) → String → String → List String
missing_one trim key value = if str_eq (trim value) "" then key ∷ [] else []

abbrev pub missing_error : List String → Result (List String) Unit
missing_error [] = ok tt
missing_error (key ∷ keys) = err (key ∷ keys)

unfoldable pub validate : (String → String) → Options → Result (List String) Unit
validate trim opts =
    if str_eq opts.data_dir ""
    then err ("DATA_DIR" ∷ [])
    else if opts.dry_run
    then ok tt
    else missing_error (
        missing_one trim "S3_ENDPOINT" opts.endpoint
        ++ missing_one trim "S3_BUCKET" opts.bucket
        ++ missing_one trim "S3_ACCESS_KEY_ID" opts.access_key
        ++ missing_one trim "S3_SECRET_ACCESS_KEY" opts.secret_key)

-- The exit of `run` after the migration: an error if a file failed.
abbrev pub is_success : Stats → Bool
is_success st = not (ltb 0 st.failed)

abbrev pub first_non_empty : List String → String
first_non_empty [] = ""
first_non_empty (v ∷ rest) = if str_eq v "" then first_non_empty rest else v
