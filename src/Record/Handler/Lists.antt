-- ===== src/Record/Handler/Lists.antt =====
-- What the pages of `List` show.
use shadraw.Base.{
  ℕ, suc, ℤ, ◌≡◌, ◌≢◌, refl, ap, ◌⊎◌, inl, inr, String, Bool, true, Elem, if◌then◌else◌, List, [],
  ◌∷◌, map, Result, ok, err, str_eq, eq_iff, ltb, Bool-cases, Result-cases, All, length, ◌≤◌,
}
use shadraw.Table.{DbError, Table}
use shadraw.Table.Rows.{All-mono}
use shadraw.Httpx.Reply.{Reply}
use shadraw.Record.{completed, Record, key, Fills, Error, has_image, RecordFavorite}
use shadraw.Record.Listing.{Finder, Meta}
use shadraw.Record.Listing.Pages.{list-own, list_public-shown}
use shadraw.Record.Gallery.{
  Selector, with_flag, with_count, flag_found, apply_favorite_flags, flagged, list_public_for,
}
use shadraw.Record.Dto.{RecordDto, Format, to_dto, to_public_dto}
use shadraw.Record.Handler.{
  Services, ListQuery, must_user_id, page_reply, own_params, list_for, list_records,
}

-- A row of another user in the gallery: nothing of its project or of the error of the API, and its
-- prompt only if the owner published it.
abbrev pub Hides : Format → Record → RecordDto → Type 0
Hides format r dto =
    (dto.id ≡ format.decimal r.id)
    × (dto.uuid ≡ r.uuid)
    × (dto.project_id ≡ "")
    × (dto.upstream_error ≡ "")
    × (dto.prompt ≡ (if r.prompt_public then r.prompt else ""))

to_public_dto-Hides :
    (format : Format) (r : Record) (flag : Bool)
    → Hides format r (to_public_dto format (record r { favorite = flag }))
unfolding to_public_dto to_dto
to_public_dto-Hides format r flag = (refl, refl, refl, refl, refl)

abbrev pub IsShared : Record → Type 0
IsShared r = (r.is_public ≡ true) × (r.status ≡ completed) × (has_image r.image_path ≡ true)

-- What a page shows of a stored record: to everyone, or to its owner.
abbrev pub OfGallery : Format → List Record → RecordDto → Type 0
OfGallery format stored dto = (r : Record) × Elem r stored × IsShared r × Hides format r dto

abbrev pub OfOwner : Format → List Record → ℕ → RecordDto → Type 0
OfOwner format stored user_id dto =
    (r : Record) × Elem r stored × (r.user_id ≡ user_id) × (dto ≡ to_dto format r)

-- A shared record as it is stored, but for its flag.
abbrev pub Stored : List Record → Record → Type 0
Stored stored x =
    (r : Record) × Elem r stored × IsShared r × (x ≡ record r { favorite = x.favorite })

All-map :
    {A : Type 0} (P : Record → Type 0) (Q : A → Type 0) (f : Record → A) (l : List Record)
    → All P l
    → ((r : Record) → P r → Q (f r))
    → All Q (map f l)
All-map P Q f [] h k = tt
All-map P Q f (r ∷ l) h k = (k r h.0, All-map P Q f l h.1 k)

length-map : {A : Type 0} (f : Record → A) (l : List Record) → length (map f l) ≡ length l
length-map f [] = refl
length-map f (r ∷ l) = ap suc (length-map f l)

-- A page of records that pass a test.
abbrev Page : (Record → Type 0) → List Record → Type 0
Page P l = All P l × (length l ≤ 100)

page_reply-All :
    (P : Record → Type 0) (Q : RecordDto → Type 0) (dto : Record → RecordDto) (page page_size : ℤ)
    (listed : Result Error (List Record × ℕ)) {reply : Reply (List RecordDto × Meta)}
    → ((l : List Record) (n : ℕ) → listed ≡ ok (l, n) → Page P l)
    → ((r : Record) → P r → Q (dto r))
    → page_reply dto page page_size listed ≡ ok reply
    → All Q reply.body.0 × (length reply.body.0 ≤ 100)
page_reply-All P Q dto page page_size (err e) all k h = cc
page_reply-All P Q dto page page_size (ok (l, n)) {reply} all k h =
    let same : map dto l ≡ reply.body.0 =
      ap (λ r. elim r [ ok x ↦ x.body.0 | err _ ↦ map dto l ]) h in
    let (good, short) = all l n refl in
    rw (← same, length-map dto l) (All-map P Q dto l good k, short)

with_count-Page :
    (total : ℕ) (flags : Result Error (List Record)) {l : List Record} {n : ℕ}
    → with_count total flags ≡ ok (l, n)
    → flags ≡ ok l
with_count-Page total (ok rows) h = cc
with_count-Page total (err e) h = cc

module _ {Db : Type 0} (records : Table Db Record key Fills) (finder : Finder records.rows)
    {favorites : Db → List RecordFavorite} (selector : Selector favorites)
    (services : Services) where
  flags-Page :
      (stored : List Record) (user_id : ℕ) (out : List Record)
      (found : Result DbError (List RecordFavorite)) {l : List Record}
      → Page (Stored stored) out
      → flag_found user_id out found ≡ ok l
      → Page (Stored stored) l
  flags-Page stored user_id out (ok found) {l} (good, short) h =
      let same : map (with_flag user_id found) out ≡ l = cc in
      rw (← same, length-map (with_flag user_id found) out)
        (
          All-map (Stored stored) (Stored stored) (with_flag user_id found) out good
              (λ x (r, m, s, same). (
                r,
                m,
                s,
                ap {A = Record} {B = Record}
                    (λ y. record y { favorite = (with_flag user_id found x).favorite }) same,
              )),
          short,
        )
  flags-Page stored user_id out (err e) shared h = cc

  flagged-Page :
      (stored : List Record) (user_id : ℕ) (d : Db) (page : Result Error (List Record × ℕ))
      {l : List Record} {n : ℕ}
      → ((k : List Record) (m : ℕ) → page ≡ ok (k, m) → Page (Stored stored) k)
      → flagged selector user_id d page ≡ ok (l, n)
      → Page (Stored stored) l
  unfolding flagged apply_favorite_flags
  flagged-Page stored user_id d (err e) shared = λ h. cc
  flagged-Page stored user_id d (ok ([], total)) {l} shared =
      λ h. let same : [] ≡ l = cc in rw (← same) (shared [] total refl)
  flagged-Page stored user_id d (ok (r ∷ rest, total)) {l} shared =
      elim (Bool-cases (ltb 0 user_id)) [
        | inl e ↦ rw e (λ h.
            flags-Page stored user_id (r ∷ rest) _ (shared (r ∷ rest) total refl)
              (with_count-Page total _ h))
        | inr e ↦
            rw e (λ h. let same : r ∷ rest ≡ l = cc in rw (← same) (shared (r ∷ rest) total refl))
      ]

  -- A page of `List` holds at most a hundred records. In the public scope each of them is a
  -- stored record, shared and completed with an image, of which a reader sees neither the project nor
  -- the error of the API, and the prompt only if it is public; in the other scope each is a stored
  -- record of the caller.
  pub list_records-Shown :
      (subject : String) (v : ListQuery) (d later last : Db) {reply : Reply (List RecordDto × Meta)}
      → list_records records finder selector services subject v d later last ≡ ok reply
      → (user_id : ℕ) × (must_user_id services subject ≡ ok user_id)
        × (length reply.body.0 ≤ 100)
        × (((v.scope ≡ "public")
              × All (OfGallery services.format (records.rows later)) reply.body.0)
            ⊎ ((v.scope ≢ "public")
                × All (OfOwner services.format (records.rows later) user_id) reply.body.0))
  unfolding list_records list_for list_public_for
  list_records-Shown subject v d later last = elim (Result-cases (must_user_id services subject)) [
    | inr (failure, e) ↦ rw e (λ h. cc)
    | inl (user_id, u) ↦ elim (Bool-cases (str_eq v.scope "public")) [
      | inl e ↦
          rw (u, e)
            (λ h.
              let (all, short) =
                page_reply-All (Stored (records.rows later))
                  (OfGallery services.format (records.rows later)) (to_public_dto services.format) _
                  _ _
                  (λ l n found.
                    flagged-Page (records.rows later) user_id last _
                      (λ k m listed.
                        let (shown, small) =
                          list_public-shown records finder services.searching _ d later listed in
                        (
                          All-mono _ (Stored (records.rows later)) k shown
                              (λ r s. (r, s.0, (s.1, s.2, s.3), refl)),
                          small,
                        ))
                      found)
                  (λ x (r, m, s, same).
                    (r, m, s, rw same (to_public_dto-Hides services.format r x.favorite)))
                  h in
              (user_id, refl, short, inl ((eq_iff v.scope "public").0 e, all)))
      | inr e ↦
          rw (u, e)
            (λ h.
              let (all, short) =
                page_reply-All (λ r. Elem r (records.rows later) × (r.user_id ≡ user_id))
                  (OfOwner services.format (records.rows later) user_id) (to_dto services.format) _
                  _ _
                  (λ l n found.
                    let (own, small, _) =
                      list-own records finder services.searching
                        (own_params records finder selector services user_id v) d later found in
                    (own, small))
                  (λ r mine. (r, mine.0, mine.1, refl)) h in
              (user_id, refl, short, inr ((λ same. cc (e, (eq_iff v.scope "public").1 same)), all)))
    ]
  ]
