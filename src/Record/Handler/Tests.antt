-- ===== src/Record/Handler/Tests.antt =====
-- Requests of the user 7, and of the user 8, to a database in memory.
use shadraw.Base.{
  ℕ, ℤ, pos, String, ◌≡◌, ◌≢◌, ◌⊎◌, ◌≤◌, refl, Bool, true, false, inl, inr, arith, Bool-cases,
  count, ◌==◌, str_eq, Option, none, some, List, [], ◌∷◌, keep, take, drop, ok, err, All, Elem,
  length, if◌then◌else◌,
}
use shadraw.Table.{Table, Separate}
use shadraw.Table.Memory.{memory}
use shadraw.Imagegen
use shadraw.Httpx.Reply.{Reply, reply_ok, internal_error}
use shadraw.Project
use shadraw.Project.{Project}
use shadraw.Record.{Record, waiting, key, Fills, RecordFavorite, favorite_key, FillsFavorite}
use shadraw.Record.Repo
use shadraw.Record.Access.{rows_of_others}
use shadraw.Record.Tests.{stamp, sample, picture}
use shadraw.Record.Listing.{Finder, Meta, list_public, page_size_of, page_of, paging_meta}
use shadraw.Record.Listing.Tests.{All-take, All-drop, length-take, All-found, searching}
use shadraw.Record.Gallery.{Selector, apply_favorite_flags, list_public_for}
use shadraw.Record.Dto.{RecordDto, Format, to_dto, to_public_dto, UpdateRecordReq}
use shadraw.Record.Handler
use shadraw.Record.Handler.{
  Blobs, Services, ListQuery, must_user_id, parse_id_param, as_user, image_of, list_records,
}
use shadraw.Record.Handler.Views.{Shows, stream_image-Shows}
use shadraw.Record.Handler.Owners.{handlers-others}
use shadraw.Record.Handler.Foreign.{favorite_only, update-foreign}
use shadraw.Record.Handler.Lists.{OfGallery, OfOwner, list_records-Shown}

record World : Type 0 where
  records : List Record
  favorites : List RecordFavorite
  projects : List Project

abbrev records : Table World Record key Fills
records =
    memory key Fills (λ w. w.records) (λ rows w. record w { records = rows }) (λ rows w. refl) stamp
      (λ n r. refl) (λ n r. refl)

abbrev favorites : Table World RecordFavorite favorite_key FillsFavorite
favorites =
    memory favorite_key FillsFavorite (λ w. w.favorites) (λ rows w. record w { favorites = rows })
      (λ rows w. refl) (λ n f. record f { id = n }) (λ n f. refl) (λ n f. refl)

abbrev projects : Table World Project Project.key Project.Fills
projects =
    memory Project.key Project.Fills (λ w. w.projects) (λ rows w. record w { projects = rows })
      (λ rows w. refl) (λ n p. record p { id = n }) (λ n p. refl) (λ n p. refl)

unless_apart :
    (p : RecordFavorite → Bool) (given : RecordFavorite) (w : World)
    → records.rows (favorites.create_unless p given w).1 ≡ records.rows w
unless_apart p given w = elim (Bool-cases (count p w.favorites == 0)) [
  | inl e ↦ rw e refl
  | inr e ↦ rw e refl
]

abbrev apart : Separate favorites records.rows
apart = record {
  update_apart = λ p f w. refl;
  create_apart = λ given w. refl;
  create_unless_apart = unless_apart;
  delete_apart = λ p w. refl;
}

-- The store of blobs holds one image.
abbrev blobs : Blobs records.rows
blobs = record {
  get = λ path w. if str_eq path "images/user-7/u.png" then ok (137 ∷ []) else err "blob not found";
  delete = λ path w. w;
  delete_apart = λ path w. refl;
}

-- The number of a text with one digit.
abbrev digit : String → Option ℤ
digit s =
    if str_eq s "1"
    then some (pos 1)
    else if str_eq s "7"
    then some (pos 7)
    else if str_eq s "8"
    then some (pos 8)
    else none

abbrev format : Format
format = record { decimal = λ n. if n == 1 then "1" else "2"; time = λ t. "1970-01-01T00:00:00Z" }

abbrev services : Services
services = record {
  parse_int = digit;
  atoi = λ s. pos 1;
  format = format;
  searching = searching;
  enabled_models = [];
}

abbrev world : World
world = record { records = picture ∷ sample 2 8 waiting ∷ []; favorites = []; projects = [] }

abbrev shown : Reply RecordDto
shown = reply_ok (to_dto format picture)

gets : Handler.get records projects favorites services "7" "1" world ≡ (ok shown, world)
unfolding Handler.get Repo.find_by_id must_user_id parse_id_param Imagegen.default_params
gets = refl

abbrev drawn : Reply (String × List ℕ)
drawn = reply_ok ("image/png", 137 ∷ [])

streams :
    Handler.stream_image records projects favorites services blobs "8" "1" world ≡ (ok drawn, world)
unfolding Handler.stream_image image_of Repo.find_visible_image_by_id must_user_id parse_id_param
    Imagegen.default_params Imagegen.normalize Imagegen.or_default Imagegen.mime
streams = refl

stream_image-Shows_example :
    (user_id : ℕ) × (r : Record) × (must_user_id services "8" ≡ ok user_id)
    × Elem r world.records
    × ((r.is_public ≡ true) ⊎ (r.user_id ≡ user_id))
    × Shows records projects favorites services blobs r world drawn
stream_image-Shows_example =
    stream_image-Shows records projects favorites services blobs "8" "1" world streams

is_seven : must_user_id services "7" ≡ ok 7
unfolding must_user_id
is_seven = refl

is_eight : must_user_id services "8" ≡ ok 8
unfolding must_user_id
is_eight = refl

is_one : parse_id_param services "1" ≡ ok 1
unfolding parse_id_param
is_one = refl

abbrev nothing : UpdateRecordReq
nothing = record {
  favorite = some true;
  is_public = some false;
  prompt_public = none;
  project_id = some "";
}

handlers-others_example :
    (rows_of_others 7
        (Handler.create records projects favorites services "7"
          (err internal_error)
          world).1.records
      ≡ rows_of_others 7 world.records)
    × (rows_of_others 7
          (Handler.update records projects favorites services 9 "7" "1"
            (ok nothing)
            world).1.records
        ≡ rows_of_others 7 world.records)
    × (rows_of_others 7 (Handler.retry records projects favorites services "7" "1" world).1.records
        ≡ rows_of_others 7 world.records)
    × (rows_of_others 7
          (Handler.delete records projects favorites services blobs "7" "1" world).1.records
        ≡ rows_of_others 7 world.records)
handlers-others_example =
    handlers-others records projects favorites services apart blobs 9 "7" "1" (err internal_error)
      (ok nothing) 7 world (ground arith) is_seven

abbrev liked : World
liked = record world { favorites = record { id = 1; user_id = 8; record_id = 1 } ∷ [] }

likes : Repo.update_favorite records favorites 1 8 true world ≡ (ok tt, liked)
unfolding Repo.update_favorite Repo.favorite_found Repo.favorite_other Imagegen.default_params
likes = refl

update-foreign_example :
    Handler.update records projects favorites services 9 "8" "1" (ok (favorite_only true)) world
    ≡ (err internal_error, liked)
update-foreign_example =
    update-foreign records projects favorites services apart 9 1 8 "8" "1" true picture world liked
      is_eight is_one (ground arith) (inl refl) refl (λ e. omega (arith, e)) likes

abbrev finder : Finder records.rows
finder = record {
  find = λ p order offset limit w. ok (take limit (drop offset (keep p w.records)));
  find_law = λ p order offset limit w. (
    All-take _ limit _ (All-drop _ offset _ (All-found p w.records)),
    length-take limit (drop offset (keep p w.records)),
  );
}

Elem-keep :
    {A : Type 0} (p : A → Bool) (a : A) (xs : List A) → Elem a xs → p a ≡ true → Elem a (keep p xs)
Elem-keep p a [] m h = absurd m
Elem-keep p a (x ∷ xs) (inl e) h = let passes : p x ≡ true = rw e h in rw passes (inl e)
Elem-keep p a (x ∷ xs) (inr m) h = elim (Bool-cases (p x)) [
  | inl e ↦ rw e (inr (Elem-keep p a xs m h))
  | inr e ↦ rw e (Elem-keep p a xs m h)
]

All-of : {A : Type 0} (P : A → Type 0) (xs : List A) → ((a : A) → Elem a xs → P a) → All P xs
All-of P [] h = tt
All-of P (x ∷ xs) h = (h x (inl refl), All-of P xs (λ a m. h a (inr m)))

abbrev selector : Selector favorites.rows
selector = record {
  select = λ p order w. ok (keep p w.favorites);
  select_law = λ p order w.
      (All-found p w.favorites, All-of _ w.favorites (λ f m h. Elem-keep p f w.favorites m h));
}

abbrev everyone : ListQuery
everyone = record {
  page = none;
  page_size = some "20";
  q = "";
  scope = "public";
  status = none;
  project_id = "";
  favorite = "";
}

abbrev page : Reply (List RecordDto × Meta)
page = reply_ok (
  to_public_dto format (record picture { favorite = true }) ∷ [],
  record { page = pos 1; page_size = 1; total = 1; total_pages = 1 },
)

lists : list_records records finder selector services "8" everyone liked liked liked ≡ ok page
unfolding list_records must_user_id list_public_for list_public page_size_of page_of paging_meta
lists = refl

list_records-Shown_example :
    (user_id : ℕ) × (must_user_id services "8" ≡ ok user_id)
    × (length page.body.0 ≤ 100)
    × (((everyone.scope ≡ "public") × All (OfGallery format liked.records) page.body.0)
        ⊎ ((everyone.scope ≢ "public") × All (OfOwner format liked.records user_id) page.body.0))
list_records-Shown_example =
    list_records-Shown records finder selector services "8" everyone liked liked liked lists

flags :
    apply_favorite_flags selector 8 (picture ∷ []) liked
    ≡ ok (record picture { favorite = true } ∷ [])
unfolding apply_favorite_flags Imagegen.default_params
flags = refl
