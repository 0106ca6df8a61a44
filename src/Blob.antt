-- ===== src/Blob.antt =====
-- internal/blob/blob.go: the store of blobs in the file system, and the errors of the one in S3. The disk is
-- what its files hold; the paths of directories are left out. What the system calls fail with is
-- given to each operation, and `filepath.Join` is a parameter.
pub mod Atomic
mod Tests
use Prim.Native.String.{◌++◌ as append}
use shadraw.Base.{
  ℕ, String, Bool, true, false, ◌||◌, Option, none, some, List, [], ◌∷◌, Result, ok, err, str_eq,
  if◌then◌else◌, length,
}

abbrev pub Disk : Type 0
Disk = String → Option (List ℕ)

abbrev pub write_file : String → Option (List ℕ) → Disk → Disk
write_file path content disk = λ other. if str_eq other path then content else disk other

-- What the calls of a `Put` return: their errors, the name of the temporary file, what a write that
-- fails has left in it, and whether the removal at the end removes.
pub record Outcomes : Type 0 where
  pub mkdir_all : Option String
  pub create_temp : Result String String
  pub write : Option String
  pub partial : List ℕ
  pub sync : Option String
  pub close : Option String
  pub rename : Option String
  pub removed : Bool

-- `ErrNotFound`, or an error of the system.
pub data Error : Type 0 where
  not_found : Error
  system : String → Error

-- A call of the system: its error with the name of the step, or what follows.
abbrev pub step :
    String → Option String → Disk → Result String String × Disk → Result String String × Disk
step name (some text) disk next = (err (append name (append ": " text)), disk)
step name none disk next = next

-- The deferred `os.Remove`.
abbrev pub cleaned : Bool → String → Result String String × Disk → Result String String × Disk
cleaned removed tmp (r, disk) = (r, if removed then write_file tmp none disk else disk)

module _ (join : List String → String) (root : String) where
  abbrev pub rel : String → String → String → String
  rel bucket user_key file_key = join (bucket ∷ user_key ∷ file_key ∷ [])

  abbrev pub abs : String → String
  abs rel_path = join (root ∷ rel_path ∷ [])

  -- From the temporary file on.
  unfoldable pub fill_temp :
      Outcomes → String → String → List ℕ → Disk → Result String String × Disk
  fill_temp o tmp rel_path bytes disk =
      let full = write_file tmp (some bytes) disk in
      step "write" o.write (write_file tmp (some o.partial) disk) (
        step "sync" o.sync full (
          step "close" o.close full (
            step "rename" o.rename full
              ((ok rel_path, write_file (abs rel_path) (some bytes) (write_file tmp none disk))))))

  abbrev pub with_temp :
      Outcomes → Result String String → String → List ℕ → Disk → Result String String × Disk
  with_temp o (err text) rel_path bytes disk = (err (append "temp: " text), disk)
  with_temp o (ok tmp) rel_path bytes disk =
      cleaned o.removed tmp (fill_temp o tmp rel_path bytes disk)

  unfoldable pub put :
      Outcomes → String → String → String → List ℕ → Disk → Result String String × Disk
  unfolding fill_temp
  put o bucket user_key file_key bytes disk =
      step "mkdir" o.mkdir_all disk
        (with_temp o o.create_temp (rel bucket user_key file_key) bytes disk)

  abbrev pub found : {A : Type 0} → (List ℕ → A) → Option String → Option (List ℕ) → Result Error A
  found f (some text) content = err (system text)
  found f none none = err not_found
  found f none (some bytes) = ok (f bytes)

  -- With an error of the system, if it has another than that the file is missing.
  unfoldable pub get : Option String → String → Disk → Result Error (List ℕ)
  get failure rel_path disk = found (λ bytes. bytes) failure (disk (abs rel_path))

  unfoldable pub stat : Option String → String → Disk → Result Error ℕ
  stat failure rel_path disk = found (λ bytes. length bytes) failure (disk (abs rel_path))

  -- A missing file is no error.
  unfoldable pub delete : Option String → String → Disk → Result Error Unit × Disk
  delete (some text) rel_path disk = (err (system text), disk)
  delete none rel_path disk = (ok tt, write_file (abs rel_path) none disk)

-- `mapS3Error` of internal/blob/s3.go: the library's error is one of its two types for a missing
-- object, or has a code, or neither.
pub data S3Error : Type 0 where
  no_such_key : S3Error
  no_such_object : S3Error
  with_code : String → String → S3Error
  plain : String → S3Error

unfoldable pub map_s3_error : S3Error → Error
map_s3_error no_such_key = not_found
map_s3_error no_such_object = not_found
map_s3_error (with_code code text) =
    if str_eq code "NoSuchKey" || str_eq code "NotFound" || str_eq code "404"
    then not_found
    else system text
map_s3_error (plain text) = system text
