-- ===== src/Record/Listing/Pages.antt =====
-- What a page of a list holds.
use shadraw.Base.{
  ℕ, zero, suc, ◌≤◌, String, ◌≡◌, Bool, true, false, List, Result, ok, err, ℤ, pos, negsuc, arith,
  length, Elem, All, count,
}
use shadraw.Table.{DbError, Table, Counts}
use shadraw.Table.Rows.{All-mono}
use shadraw.Record.{Record, completed, key, Fills, has_image}
use shadraw.Record.Listing
use shadraw.Record.Listing.{
  Finder, Finds, Search, ListParams, PublicListParams, page_size_of, listed, listed_public, paired,
}

page_size_of-le : (n : ℤ) → page_size_of n ≤ 100
unfolding page_size_of
page_size_of-le (negsuc n) = omega arith
page_size_of-le (pos zero) = omega arith
page_size_of-le (pos (suc n)) = ground arith

module _ {Db : Type 0} (records : Table Db Record key Fills) (finder : Finder records.rows) where
  open records use {rows}

  -- Rows that pass the test, at most a hundred, and their number when it was taken.
  abbrev pub IsPage : (Record → Bool) → Db → Db → List Record → ℕ → Type 0
  IsPage p d later l total =
      All (λ r. Elem r (rows later) × (p r ≡ true)) l
      × (length l ≤ 100)
      × (total ≡ count p (rows d))

  paired-IsPage :
      (p : Record → Bool) (limit total : ℕ) (d later : Db) (out : Result DbError (List Record))
      {l : List Record} {n : ℕ}
      → limit ≤ 100
      → total ≡ count p (rows d)
      → Finds rows p limit later out
      → paired total out ≡ ok (l, n)
      → IsPage p d later l n
  paired-IsPage p limit total d later (err e) small t f h = cc
  paired-IsPage p limit total d later (ok found) {l} {n} small t (all, short) h =
      let same : found ≡ l = cc in
      let number : total ≡ n = cc in rw (← same, ← number) (all, omega arith, t)

  total-IsPage :
      (p : Record → Bool) (order : String) (page page_size : ℤ) (d later : Db)
      (counted : Result DbError ℕ) {l : List Record} {n : ℕ}
      → Counts rows p d counted
      → Listing.with_total records finder p order page page_size later counted ≡ ok (l, n)
      → IsPage p d later l n
  unfolding Listing.with_total
  total-IsPage p order page page_size d later (err e) c h = cc
  total-IsPage p order page page_size d later (ok total) c h =
      paired-IsPage p (page_size_of page_size) total d later _ (page_size_of-le page_size) c
        (finder.find_law p order _ (page_size_of page_size) later) h

  -- A page of a user's list holds at most a hundred rows, all of this user and of the status that
  -- was asked for, and comes with the number of rows that matched.
  pub list-own :
      (searching : Search) (p : ListParams) (d later : Db) {l : List Record} {n : ℕ}
      → Listing.list records finder searching p d later ≡ ok (l, n)
      → All (λ r. Elem r (rows later) × (r.user_id ≡ p.user_id)) l
        × (length l ≤ 100)
        × (n ≡ count (listed searching p) (rows d))
  unfolding Listing.list
  list-own searching p d later {l} e =
      let (all, short, total) =
        total-IsPage (listed searching p) "id DESC" p.page p.page_size d later _
          (records.tally_law _ d) e in
      (All-mono _ _ l all (λ r m. (m.0, ground arith)), short, total)

  -- A page of the gallery holds at most a hundred rows of the table, all public and completed with an image; a
  -- searching finds only those whose prompt is public.
  pub list_public-shown :
      (searching : Search) (p : PublicListParams) (d later : Db) {l : List Record} {n : ℕ}
      → Listing.list_public records finder searching p d later ≡ ok (l, n)
      → All
          (λ r.
            Elem r (rows later)
            × (r.is_public ≡ true)
            × (r.status ≡ completed)
            × (has_image r.image_path ≡ true)
            × (searching.is_blank p.query ≡ false → r.prompt_public ≡ true))
          l
        × (length l ≤ 100)
  unfolding Listing.list_public
  list_public-shown searching p d later {l} e =
      let (all, short, total) =
        total-IsPage (listed_public searching p) "published_at DESC NULLS LAST, id DESC" p.page
          p.page_size d later _ (records.tally_law _ d) e in
      (
        All-mono _ _ l all
            (λ r m. (m.0, ground arith, ground arith, ground arith, λ b. ground arith)),
        short,
      )
