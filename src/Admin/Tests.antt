-- ===== src/Admin/Tests.antt =====
-- The configuration in memory, with one row and the cipher that hides nothing.
use Prim.Native.Nat.{compare, Ordering}
use Prim.Native.Char.{Char, char, code, nul, IsLt, IsScalar}
use text.Mathlib.TextEquality.{Char-path}
use text.Mathlib.TextBridge.{to_list, of_list, of_list-to_list, to_list-of_list}
use shadraw.Base.{true, false, pos}
use shadraw.Base.{ap, ◌∙◌, map, ℕ, ◌≡◌, refl, some, List, [], ◌∷◌, ok, arith}
use shadraw.Table.{Table}
use shadraw.Table.Memory.{memory}
use shadraw.Crypto.Tests.{plain_aead}
use shadraw.User
use shadraw.User.{User, Role}
use shadraw.Record.Dto.{Format}
use shadraw.Admin.Handler.{UpdateUserReq, update_user}
use shadraw.Admin.Handler.Accounts.{untouched, update_user-untouched}
use shadraw.Admin
use shadraw.Admin.{UpstreamConfig, key, Fills, Cache, Text, UpdateUpstreamArgs}
use shadraw.Admin.Coherence.{IsCoherent}
use shadraw.Base.{◌≢◌, eq_iff, ◌++◌, String}
use shadraw.Admin.Reach.{Change, title, write, publish, System, settled, Step, Reach, load-Reach}

abbrev Db : Type 0
Db = List UpstreamConfig

abbrev configs : Table Db UpstreamConfig key Fills
configs =
    memory key Fills (λ d. d) (λ rows d. rows) (λ rows d. refl) (λ n c. record c { id = n })
      (λ n c. refl) (λ n c. refl)

-- Texts as lists of numbers. `Scalar` has the clauses under `IsScalar`.
abbrev Both : Ordering → Ordering → Type 0
Both Ordering.lt o = IsLt o
Both Ordering.eq _ = ⊥
Both Ordering.gt _ = ⊥

abbrev Scalar : Ordering → Ordering → Ordering → Type 0
Scalar Ordering.lt _ _ = Unit
Scalar Ordering.eq o p = Both o p
Scalar Ordering.gt o p = Both o p

abbrev lt_dec : (o : Ordering) → Dec (IsLt o)
lt_dec Ordering.lt = yes tt
lt_dec Ordering.eq = no (λ x. x)
lt_dec Ordering.gt = no (λ x. x)

abbrev both_dec : (o p : Ordering) → Dec (Both o p)
both_dec Ordering.lt p = lt_dec p
both_dec Ordering.eq p = no (λ x. x)
both_dec Ordering.gt p = no (λ x. x)

abbrev scalar_dec : (a o p : Ordering) → Dec (Scalar a o p)
scalar_dec Ordering.lt o p = yes tt
scalar_dec Ordering.eq o p = both_dec o p
scalar_dec Ordering.gt o p = both_dec o p

abbrev char_or_nul : (n : ℕ) → Dec (IsScalar n) → Char
char_or_nul n (yes p) = char n p
char_or_nul n (no h) = nul

abbrev is_scalar_dec : (n : ℕ) → Dec (IsScalar n)
is_scalar_dec n = scalar_dec (compare n 55296) (compare 57343 n) (compare n 1114112)

char_or_nul-code : (c : Char) (q : Dec (IsScalar (code c))) → char_or_nul (code c) q ≡ c
char_or_nul-code (char n m) (yes p) = Char-path (char n p) (char n m) refl
char_or_nul-code (char n p) (no h) = absurd (h p)

chars-codes : (l : List Char) → map (λ n. char_or_nul n (is_scalar_dec n)) (map (λ c. code c) l) ≡ l
chars-codes [] = refl
chars-codes (c ∷ l) = rw (char_or_nul-code c (is_scalar_dec (code c)), chars-codes l) refl

abbrev go_text : Text
go_text = record {
  to_bytes = λ s. map (λ c. code c) (to_list s);
  to_text = λ l. of_list (map (λ n. char_or_nul n (is_scalar_dec n)) l);
  trim = λ s. s;
  to_text-to_bytes = λ s. ap (λ l. of_list l) (chars-codes (to_list s)) ∙ of_list-to_list s;
}

abbrev stored : UpstreamConfig
stored = record Admin.seed_row { base_url = "https://api" }

abbrev cache : Cache
cache = record { cached = stored; api_key = "" }

coherent : IsCoherent go_text plain_aead (stored ∷ []) cache
coherent = record {
  agrees = (λ found. record { base = refl; cipher = refl; models = refl }, tt);
  hides = refl;
}

loads :
    Admin.load go_text configs plain_aead (stored ∷ [])
    ≡ (ok (record cache { cached = Admin.with_title go_text stored }), stored ∷ [])
unfolding Admin.load Admin.load_taken Admin.load_row
loads = refl

-- A new key.
abbrev args : UpdateUpstreamArgs
args = record {
  base_url = "https://other";
  api_key = some "sk";
  enabled_models = "gpt-image-2" ∷ [];
  actor_id = 1;
}

abbrev keyed : Cache
keyed = record { cached = stored; api_key = "sk-1234567890abcd" }

keyed_ne : ◌≢◌ {A = String} "sk-1234567890abcd" ""
keyed_ne = ground (arith, eq_iff "sk-1234567890abcd" "")

abbrev letters : List Char
letters =
    char 115 tt
    ∷ char 107 tt
    ∷ char 45 tt
    ∷ char 49 tt
    ∷ char 50 tt
    ∷ char 51 tt
    ∷ char 52 tt
    ∷ char 53 tt
    ∷ char 54 tt
    ∷ char 55 tt
    ∷ char 56 tt
    ∷ char 57 tt
    ∷ char 48 tt
    ∷ char 97 tt
    ∷ char 98 tt
    ∷ char 99 tt
    ∷ char 100 tt
    ∷ []

split_key :
    go_text.to_bytes keyed.api_key
    ≡ (115 ∷ 107 ∷ 45 ∷ 49 ∷ [])
      ++ ((50 ∷ 51 ∷ 52 ∷ 53 ∷ 54 ∷ 55 ∷ 56 ∷ 57 ∷ 48 ∷ []) ++ (97 ∷ 98 ∷ 99 ∷ 100 ∷ []))
split_key = ap (λ l. map (λ c. code c) l) (to_list-of_list letters)

abbrev loaded : System Db
loaded = record {
  cache = record cache { cached = Admin.with_title go_text stored };
  db = stored ∷ [];
  pending = [];
}

-- A new key is stored, and then the title changes.
abbrev with_new_key : System Db
with_new_key =
    settled go_text configs plain_aead loaded (
      Admin.update_upstream go_text configs plain_aead (ok (7 ∷ 8 ∷ [])) args loaded.cache
        loaded.db)

abbrev art : Change
art = title "Art" 1

abbrev written : System Db
written = record with_new_key {
  db = (write go_text configs plain_aead art with_new_key.db).1;
  pending = art ∷ [];
}

abbrev with_new_title : System Db
with_new_title = record written {
  cache = publish go_text configs plain_aead art written.cache;
  pending = [];
}

art_written : Step go_text configs plain_aead with_new_key written
unfolding Admin.write_title
art_written = Step.writing art refl refl

load-Reach_example : IsCoherent go_text plain_aead with_new_title.db with_new_title.cache
load-Reach_example =
    load-Reach go_text configs plain_aead (omega arith) (stored ∷ []) (stored ∷ []) loaded.cache
      with_new_title (ground arith) loads
      (Reach.next
        (Reach.next (Reach.next Reach.here (Step.upstream (7 ∷ 8 ∷ []) args refl refl)) art_written)
        (Step.publishing [] art [] refl refl))

abbrev users : Table (List User) User User.key User.Fills
users =
    memory User.key User.Fills (λ d. d) (λ rows d. rows) (λ rows d. refl)
      (λ n u. record u { id = n }) (λ n u. refl) (λ n u. refl)

abbrev account : ℕ → User
account id = record {
  id = id;
  email = "ann@x";
  password_hash = "hash";
  display_name = "Ann";
  role = Role.user;
  disabled = false;
  must_change_password = false;
  created_at = 0;
}

abbrev promotion : UpdateUserReq
promotion = record { disabled = some true; role = some Role.admin }

abbrev format : Format
format = record { decimal = λ n. "1"; time = λ t. "1970-01-01T00:00:00Z" }

abbrev accounts : List User
accounts = account 1 ∷ account 2 ∷ []

update_user-untouched_example :
    untouched 1 (update_user users format (some (pos 1)) (ok promotion) accounts).1
    ≡ untouched 1 accounts
update_user-untouched_example =
    update_user-untouched users format (some (pos 1)) (ok promotion) 1 accounts refl
