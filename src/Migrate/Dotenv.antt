-- ===== src/Migrate/Dotenv.antt =====
-- cmd/migrate-blobs/main.go: `loadDotenv`. The environment is a list of names with their values;
-- `strings.TrimSpace`, `strings.Trim` of quotes and the refusals of `os.Setenv` are parameters.
use Prim.Native.String.{slice, len}
use text.Mathlib.Text.{find?, starts_with}
use shadraw.Base.{
  ℕ, suc, ◌+◌, String, ◌≡◌, inl, inr, ◌||◌, Option, none, some, List, [], ◌∷◌, ◌++◌, Result, ok,
  err, str_eq, if◌then◌else◌, Bool-cases,
}

abbrev pub Env : Type 0
Env = List (String × String)

unfoldable pub lookup : String → Env → Option String
lookup key [] = none
lookup key ((k, v) ∷ env) = let rest = lookup key env in if str_eq k key then some v else rest

pub record Texts : Type 0 where
  pub trim_space : String → String
  pub trim_quotes : String → String
  pub refuses : String → String → Option String

-- The number of the line; and an error of the reader.
pub data Error : Type 0 where
  expected_pair : ℕ → Error
  empty_key : ℕ → Error
  not_set : String → Error
  not_read : String → Error

-- `strings.Cut(line, "=")`
abbrev pub cut_at : String → Option ℕ → Option (String × String)
cut_at line none = none
cut_at line (some i) = some (slice line 0 i, slice line (suc i) (len line))

module _ (texts : Texts) where
  -- `os.Setenv` of a name that is not there.
  abbrev pub set_value : String → String → Option String → Env → Result Error Unit × Env
  set_value key value (some text) env = (err (not_set text), env)
  set_value key value none env = (ok tt, env ++ (key, value) ∷ [])

  abbrev pub unless_set : String → String → Option String → Env → Result Error Unit × Env
  unless_set key value (some _) env = (ok tt, env)
  unless_set key value none env =
      let v = texts.trim_quotes (texts.trim_space value) in
      set_value key v (texts.refuses key v) env

  abbrev pub set_pair : ℕ → Option (String × String) → Env → Result Error Unit × Env
  set_pair n none env = (err (expected_pair n), env)
  set_pair n (some (given, value)) env =
      let key = texts.trim_space given in
      if str_eq key "" then (err (empty_key n), env) else unless_set key value (lookup key env) env

  unfoldable pub load_line : ℕ → String → Env → Result Error Unit × Env
  load_line n text env =
      let line = texts.trim_space text in
      if str_eq line "" || starts_with line "#"
      then (ok tt, env)
      else set_pair n (cut_at line (find? line "=")) env

  abbrev pub scanned : Option String → Env → Result Error Unit × Env
  scanned none env = (ok tt, env)
  scanned (some text) env = (err (not_read text), env)

  abbrev pub then_rest :
      (Env → Result Error Unit × Env) → Result Error Unit × Env → Result Error Unit × Env
  then_rest rest (ok _, env) = rest env
  then_rest rest (err e, env) = (err e, env)

  -- The lines from a number on; then the error of the scanner, if it has one.
  unfoldable pub load_lines : ℕ → List String → Option String → Env → Result Error Unit × Env
  unfolding load_line
  load_lines n [] broken env = scanned broken env
  load_lines n (text ∷ rest) broken env =
      then_rest (λ env'. load_lines (n + 1) rest broken env') (load_line n text env)

  unfoldable pub load_dotenv : List String → Option String → Env → Result Error Unit × Env
  unfolding load_lines
  load_dotenv lines broken env = load_lines 1 lines broken env

  -- What is set stays set.
  record Extends (env env' : Env) : Type 0 where
    stays : (key v : String) → lookup key env ≡ some v → lookup key env' ≡ some v

  lookup-append :
      (key v : String) (env more : Env)
      → lookup key env ≡ some v
      → lookup key (env ++ more) ≡ some v
  unfolding lookup
  lookup-append key v [] more = λ h. cc
  lookup-append key v ((k, w) ∷ env) more = elim (Bool-cases (str_eq k key)) [
    | inl e ↦ rw e (λ h. h)
    | inr e ↦ rw e (λ h. lookup-append key v env more h)
  ]

  Extends-refl : (env : Env) → Extends env env
  Extends-refl env = record { stays = λ key v h. h }

  set_value-Extends :
      (key value : String) (refused : Option String) (env : Env)
      → Extends env (set_value key value refused env).1
  set_value-Extends key value (some text) env = Extends-refl env
  set_value-Extends key value none env = record {
    stays = λ k v h. lookup-append k v env ((key, value) ∷ []) h;
  }

  unless_set-Extends :
      (key value : String) (found : Option String) (env : Env)
      → Extends env (unless_set key value found env).1
  unless_set-Extends key value (some _) env = Extends-refl env
  unless_set-Extends key value none env =
      let v = texts.trim_quotes (texts.trim_space value) in
      set_value-Extends key v (texts.refuses key v) env

  set_pair-Extends :
      (n : ℕ) (pair : Option (String × String)) (env : Env) → Extends env (set_pair n pair env).1
  set_pair-Extends n none env = Extends-refl env
  set_pair-Extends n (some (given, value)) env =
      let key = texts.trim_space given in
      elim (Bool-cases (str_eq key "")) [
        | inl e ↦ rw e (Extends-refl env)
        | inr e ↦ rw e (unless_set-Extends key value (lookup key env) env)
      ]

  load_line-Extends : (n : ℕ) (text : String) (env : Env) → Extends env (load_line n text env).1
  unfolding load_line
  load_line-Extends n text env =
      let line = texts.trim_space text in
      elim (Bool-cases (str_eq line "" || starts_with line "#")) [
        | inl e ↦ rw e (Extends-refl env)
        | inr e ↦ rw e (set_pair-Extends n (cut_at line (find? line "=")) env)
      ]

  then_rest-Extends :
      (rest : Env → Result Error Unit × Env) (env : Env) (out : Result Error Unit × Env)
      → Extends env out.1
      → ((env' : Env) → Extends env' (rest env').1)
      → Extends env (then_rest rest out).1
  then_rest-Extends rest env (ok _, env') first later = record {
    stays = λ key v h. (later env').stays key v (first.stays key v h);
  }
  then_rest-Extends rest env (err e, env') first later = first

  scanned-Extends : (broken : Option String) (env : Env) → Extends env (scanned broken env).1
  scanned-Extends none env = Extends-refl env
  scanned-Extends (some text) env = Extends-refl env

  load_lines-Extends :
      (n : ℕ) (lines : List String) (broken : Option String) (env : Env)
      → Extends env (load_lines n lines broken env).1
  unfolding load_lines
  load_lines-Extends n [] broken env = scanned-Extends broken env
  load_lines-Extends n (text ∷ rest) broken env =
      then_rest-Extends (λ env'. load_lines (n + 1) rest broken env') env (load_line n text env)
        (load_line-Extends n text env) (λ env'. load_lines-Extends (n + 1) rest broken env')

  -- Whatever the file holds, and also when it is refused at some line, a variable of the environment
  -- that was set keeps its value.
  pub load_dotenv-lookup :
      (lines : List String) (broken : Option String) (env : Env) (key v : String)
      → lookup key env ≡ some v
      → lookup key (load_dotenv lines broken env).1 ≡ some v
  unfolding load_dotenv
  load_dotenv-lookup lines broken env key v h =
      (load_lines-Extends 1 lines broken env).stays key v h
