-- ===== src/Record/Listing.antt =====
-- internal/record/repo.go: the lists of records, page by page, with their totals. `ILIKE` is a
-- parameter, and `strings.TrimSpace` as the test whether a search is blank. The favorite flags that
-- `ListPublic` adds for a user are left out.
pub mod Pages
pub mod Tests
use shadraw.Base.{
  ℕ, zero, suc, ◌+◌, ◌-◌, ◌*◌, ◌/◌, ◌≤◌, String, ◌≡◌, Bool, true, false, ◌&&◌, ◌||◌, Option, none,
  some, List, Result, ok, err, ltb, ◌==◌, str_eq, ℤ, pos, negsuc, if◌then◌else◌, length, Elem, All,
}
use shadraw.Table.{DbError, Table}
use shadraw.Record.{Status, completed, status_eq, Record, key, Fills, Error, database, has_image}

-- SELECT … WHERE … ORDER BY … OFFSET … LIMIT: rows that pass the test, at most the limit.
abbrev pub Finds :
    {Db : Type 0}
    → (Db → List Record)
    → (Record → Bool)
    → ℕ
    → Db
    → Result DbError (List Record)
    → Type 0
Finds rows p limit d (ok l) = All (λ r. Elem r (rows d) × (p r ≡ true)) l × (length l ≤ limit)
Finds rows p limit d (err _) = Unit

pub record Finder {Db : Type 0} (rows : Db → List Record) : Type 0 where
  pub find : (Record → Bool) → String → ℕ → ℕ → Db → Result DbError (List Record)
  pub find_law :
      (p : Record → Bool) (order : String) (offset limit : ℕ) (d : Db)
      → Finds rows p limit d (find p order offset limit d)

pub record Search : Type 0 where
  pub is_blank : String → Bool
  pub like : String → String → Bool

-- `UserID` and the optional filters; `Status` is none for the empty string.
pub record ListParams : Type 0 where
  pub user_id : ℕ
  pub status : Option Status
  pub project_id : Option ℕ
  pub project_unclassified : Bool
  pub favorite : Option Bool
  pub query : String
  pub page : ℤ
  pub page_size : ℤ

pub record PublicListParams : Type 0 where
  pub query : String
  pub page : ℤ
  pub page_size : ℤ

pub record AdminListParams : Type 0 where
  pub status : Option Status
  pub user_id : Option ℕ
  pub page : ℤ
  pub page_size : ℤ

-- `if p.Page < 1 { p.Page = 1 }`
unfoldable pub page_of : ℤ → ℕ
page_of (negsuc n) = 1
page_of (pos zero) = 1
page_of (pos (suc n)) = suc n

-- `if p.PageSize <= 0 || p.PageSize > 100 { p.PageSize = 20 }`
unfoldable pub page_size_of : ℤ → ℕ
page_size_of (negsuc n) = 20
page_size_of (pos zero) = 20
page_size_of (pos (suc n)) = if ltb 100 (suc n) then 20 else suc n

abbrev pub has_status : Option Status → Record → Bool
has_status none r = true
has_status (some s) r = status_eq r.status s

abbrev pub is_in : Option ℕ → ℕ → Bool
is_in none id = false
is_in (some p) id = p == id

abbrev pub is_unclassified : Option ℕ → Bool
is_unclassified none = true
is_unclassified (some p) = false

abbrev pub has_project : Option ℕ → Bool → Record → Bool
has_project (some id) unclassified r = is_in r.project_id id
has_project none true r = is_unclassified r.project_id
has_project none false r = true

abbrev pub same_bool : Bool → Bool → Bool
same_bool true b = b
same_bool false true = false
same_bool false false = true

abbrev pub has_favorite : Option Bool → Record → Bool
has_favorite none r = true
has_favorite (some b) r = same_bool b r.favorite

abbrev pub has_user : Option ℕ → Record → Bool
has_user none r = true
has_user (some id) r = r.user_id == id

abbrev pub matches_query : Search → String → Record → Bool
matches_query searching query r =
    if searching.is_blank query then true else searching.like r.prompt query

abbrev pub listed : Search → ListParams → Record → Bool
listed searching p r =
    r.user_id == p.user_id
    && has_status p.status r
    && matches_query searching p.query r
    && has_project p.project_id p.project_unclassified r
    && has_favorite p.favorite r

abbrev pub listed_public : Search → PublicListParams → Record → Bool
listed_public searching p r =
    r.is_public
    && status_eq r.status completed
    && has_image r.image_path
    && (if searching.is_blank p.query
        then true
        else (r.prompt_public && searching.like r.prompt p.query))

abbrev pub listed_admin : AdminListParams → Record → Bool
listed_admin p r = has_status p.status r && has_user p.user_id r

abbrev pub paired : {A B : Type 0} → B → Result DbError A → Result Error (A × B)
paired b (ok a) = ok (a, b)
paired b (err e) = err (database e)

module _ {Db : Type 0} (records : Table Db Record key Fills) (finder : Finder records.rows) where
  -- The count and the page are two statements; `later` is the database at the second.
  unfoldable pub with_total :
      (Record → Bool) → String → ℤ → ℤ → Db → Result DbError ℕ → Result Error (List Record × ℕ)
  with_total p order page page_size later (err e) = err (database e)
  with_total p order page page_size later (ok total) = paired total (
      finder.find p order ((page_of page - 1) * page_size_of page_size) (page_size_of page_size)
        later)

  unfoldable pub list : Search → ListParams → Db → Db → Result Error (List Record × ℕ)
  unfolding with_total
  list searching p d later =
      with_total (listed searching p) "id DESC" p.page p.page_size later
        (records.tally (listed searching p) d)

  unfoldable pub list_public : Search → PublicListParams → Db → Db → Result Error (List Record × ℕ)
  unfolding with_total
  list_public searching p d later =
      with_total (listed_public searching p) "published_at DESC NULLS LAST, id DESC" p.page
        p.page_size later (records.tally (listed_public searching p) d)

  unfoldable pub admin_list : AdminListParams → Db → Db → Result Error (List Record × ℕ)
  unfolding with_total
  admin_list p d later =
      with_total (listed_admin p) "id DESC" p.page p.page_size later
        (records.tally (listed_admin p) d)

-- `pagingMeta` of internal/record/handler.go and `Meta` of internal/httpx/response.go.
pub record Meta : Type 0 where
  pub page : ℤ
  pub page_size : ℕ
  pub total : ℕ
  pub total_pages : ℕ

abbrev pub positive_size : ℤ → ℕ
positive_size (negsuc n) = 20
positive_size (pos zero) = 20
positive_size (pos (suc n)) = suc n

unfoldable pub paging_meta : ℤ → ℤ → ℕ → Meta
paging_meta page page_size total =
    let size = positive_size page_size in
    let pages = (total + size - 1) / size in
    record {
      page = page;
      page_size = size;
      total = total;
      total_pages = if ltb pages 1 then 1 else pages;
    }
