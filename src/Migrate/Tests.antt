-- ===== src/Migrate/Tests.antt =====
-- A directory with two images, a hidden file and a hidden directory, and a store in memory.
use shadraw.Base.{
  ℕ, ◌≡◌, ◌≢◌, refl, sym, ap, ◌∙◌, inl, inr, String, false, Option, none, some, List, [], ◌∷◌,
  Result, ok, err, str_eq, eq_iff, if◌then◌else◌, length, count, Bool-cases,
}
use shadraw.Migrate.{
  Options, Stats, File, Entries, file, directory, no_entries, entry, Store, Paths, calls_of,
  migrate, split_object_key,
}
use shadraw.Migrate.Counts.{outcomes, is_file, migrate-counts}
use shadraw.Migrate.Uploads.{Puts, Keeps, At, Apart, Stored, migrate-Stored}
use shadraw.Migrate.Dotenv.{Env, Texts, lookup}

-- The key of a file is its name here.
abbrev paths : Paths
paths = record {
  split = λ key. "images" ∷ "user-7" ∷ key ∷ [];
  join = λ parts. elim parts [ images ∷ user ∷ last ∷ _ ↦ last | last ∷ [] ↦ last | _ ↦ "" ];
}

abbrev Memory : Type 0
Memory = String → Option (List ℕ)

abbrev put_at : String → List ℕ → Memory → Memory
put_at path bytes s = λ other. if str_eq other path then some bytes else s other

abbrev size_at : Option (List ℕ) → Result String ℕ
size_at none = err "not found"
size_at (some bytes) = ok (length bytes)

abbrev store : Store Memory
store = record {
  stat = λ key s. size_at (s key);
  put = λ bucket user file_key bytes s. (ok file_key, put_at file_key bytes s);
}

put_at-Puts :
    (path : String) (bytes : List ℕ) (s : Memory)
    → Puts (λ m k. m k) bytes s (ok path, put_at path bytes s)
put_at-Puts path bytes s = (
  rw ((eq_iff path path).1 refl) refl,
  (λ other ne. elim (Bool-cases (str_eq other path)) [
    | inl e ↦ absurd (ne ((eq_iff other path).0 e))
    | inr e ↦ rw e refl
  ]),
)

ok_path : {a b : String} → ◌≡◌ {A = Result String String} (ok a) (ok b) → b ≡ a
ok_path e = cc

abbrev keeps : Keeps store paths
keeps = record {
  content = λ m k. m k;
  put_law = λ bucket user file_key bytes s. put_at-Puts file_key bytes s;
  put_path = λ bucket user file_key bytes s e. ok_path e;
}

abbrev image : String → File
image name = record { name = name; key = name; info = ok 1; read = ok (137 ∷ []) }

abbrev found : Entries
found =
    entry
      (directory "user-7" false
        (entry (file (image "a.png")) (entry (file (image ".tmp")) no_entries)))
      (entry (directory ".trash" false (entry (file (image "b.png")) no_entries))
        (entry (file (image "c.png")) no_entries))

abbrev options : Options
options = record {
  data_dir = "./data";
  endpoint = "http://localhost:9000";
  region = "us-east-1";
  bucket = "shadraw";
  access_key = "a";
  secret_key = "s";
  dry_run = false;
  verify_only = false;
}

abbrev empty_store : Memory
empty_store = λ key. none

abbrev filled : Memory
filled = put_at "c.png" (137 ∷ []) (put_at "a.png" (137 ∷ []) empty_store)

abbrev counted : Stats
counted = record { scanned = 3; uploaded = 2; verified = 0; skipped = 2; failed = 0; bytes = 2 }

migrates : migrate store paths options (ok found) empty_store ≡ (ok counted, filled)
unfolding migrate calls_of split_object_key
migrates = refl

migrate-counts_example :
    (outcomes counted ≡ length (calls_of found))
    × (counted.scanned ≡ count is_file (calls_of found))
migrate-counts_example =
    migrate-counts store paths options found empty_store filled counted migrates

abbrev texts : Texts
texts = record { trim_space = λ s. s; trim_quotes = λ s. s; refuses = λ k v. none }

abbrev env : Env
env = ("S3_BUCKET", "mine") ∷ []

was_set : lookup "S3_BUCKET" env ≡ some "mine"
unfolding lookup
was_set = refl

abbrev AtStore : String → String → Type 0
AtStore name path = At store paths options keeps refl refl (image name) path

-- The keys of the four files.
splits_a : split_object_key paths "a.png" ≡ ok ("images", "user-7", "a.png")
unfolding split_object_key
splits_a = refl

splits_tmp : split_object_key paths ".tmp" ≡ ok ("images", "user-7", ".tmp")
unfolding split_object_key
splits_tmp = refl

splits_c : split_object_key paths "c.png" ≡ ok ("images", "user-7", "c.png")
unfolding split_object_key
splits_c = refl

At-path :
    (name path : String)
    → split_object_key paths name ≡ ok ("images", "user-7", name)
    → AtStore name path
    → path ≡ name
At-path name path splits (key, k, at_path) =
    let same : key ≡ ("images", "user-7", name) = cc in
    at_path ∙ ap (λ x. paths.join (x.0 ∷ x.1 ∷ x.2 ∷ [])) same

unlike : (a b : String) → str_eq a b ≡ false → a ≢ b
unlike a b e same = absurd (cc (e, (eq_iff a b).1 same))

apart : Apart store paths options keeps refl refl (calls_of found)
unfolding calls_of
apart = (
  (λ path a. (
    (λ b.
        unlike "a.png" ".tmp" refl
          (sym (At-path "a.png" path splits_a a) ∙ At-path ".tmp" path splits_tmp b)),
    (
      (λ b.
          unlike "a.png" "c.png" refl
            (sym (At-path "a.png" path splits_a a) ∙ At-path "c.png" path splits_c b)),
      tt,
    ),
  )),
  (
    (λ path a. (
      (λ b.
          unlike ".tmp" "c.png" refl
            (sym (At-path ".tmp" path splits_tmp a) ∙ At-path "c.png" path splits_c b)),
      tt,
    )),
    ((λ path a. tt), tt),
  ),
)

migrate-Stored_example : Stored store paths options keeps refl refl filled (calls_of found)
migrate-Stored_example =
    migrate-Stored store paths options keeps refl refl found empty_store filled counted apart
      migrates refl
