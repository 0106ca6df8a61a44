-- ===== src/Record/Handler/Foreign.antt =====
-- A favorite of another user's record: it is stored, and the reply is an internal error, since the
-- handler looks the record up among the caller's own.
use shadraw.Base.{
  ℕ, ◌<◌, String, ◌≡◌, ◌≢◌, refl, sym, ap, ◌∙◌, inl, inr, Bool, false, none, some, List, [], ◌∷◌,
  Result, ok, err, Bool-cases, Result-cases, Elem, All, arith, update_where, ◌>>=◌,
}
use shadraw.Table.{DbError, Table, Separate, Updates}
use shadraw.Table.Keys.{Distinct, same_row}
use shadraw.Httpx.Reply.{internal_error}
use shadraw.Project
use shadraw.Project.{Project}
use shadraw.Record.{
  Record, key, Fills, Error, RecordFavorite, favorite_key, FillsFavorite, owned, set_favorite,
}
use shadraw.Record.Repo
use shadraw.Record.Access.{all_of, find_by_id-owned}
use shadraw.Record.Favorites.{update_favorite-Favors}
use shadraw.Record.Dto.{UpdateRecordReq}
use shadraw.Record.Handler.{Services, must_user_id, parse_id_param, update, update_parts}
use shadraw.Record.Handler.Views.{must_user_id-pos}

-- A request for a favorite, and for nothing else.
abbrev pub favorite_only : Bool → UpdateRecordReq
favorite_only b = record {
  favorite = some b;
  is_public = none;
  prompt_public = none;
  project_id = none;
}

update_where-none :
    (p : Record → Bool) (f : Record → Record) (rows : List Record)
    → All (λ r. p r ≡ false) rows
    → update_where p f rows ≡ rows
update_where-none p f [] h = refl
update_where-none p f (r ∷ rest) (e, h) = rw (e, update_where-none p f rest h) refl

module _ {Db : Type 0} (records : Table Db Record key Fills)
    (projects : Table Db Project Project.key Project.Fills)
    (favorites : Table Db RecordFavorite favorite_key FillsFavorite) (services : Services)
    (apart : Separate favorites records.rows) where
  open records use {rows}

  -- No row of the caller has the id of another user's record.
  none-owned :
      (id user_id : ℕ) (rec : Record) (d : Db)
      → Distinct key (rows d)
      → Elem rec (rows d)
      → rec.id ≡ id
      → rec.user_id ≢ user_id
      → All (λ r. owned id user_id r ≡ false) (rows d)
  none-owned id user_id rec d distinct m same foreign = all_of (rows d) (λ r listed.
      elim (Bool-cases (owned id user_id r)) [
        | inl e ↦
            let one : r ≡ rec = same_row key r rec (rows d) distinct listed m (ground arith) in
            let mine : r.user_id ≡ user_id = ground arith in
            absurd (foreign (ap (λ x. x.user_id) (sym one) ∙ mine))
        | inr e ↦ e
      ])

  updated-same :
      (p : Record → Bool) (f : Record → Record) (d : Db) (out : Result DbError ℕ × Db)
      → All (λ r. p r ≡ false) (rows d)
      → Updates rows p f d out
      → rows out.1 ≡ rows d
  updated-same p f d (ok n, d') h (u, _) = u ∙ update_where-none p f (rows d) h
  updated-same p f d (err e, d') h u = u

  favorite-rows :
      (id user_id : ℕ) (b : Bool) (d : Db)
      → All (λ r. owned id user_id r ≡ false) (rows d)
      → rows (Repo.update_favorite records favorites id user_id b d).1 ≡ rows d
  favorite-rows id user_id b d h =
      elim (update_favorite-Favors records favorites apart id user_id b d) [
        | inl same ↦ same
        | inr own ↦
            ap rows own
            ∙ updated-same (owned id user_id) (set_favorite b) d _ h
                (records.update_law (owned id user_id) (set_favorite b) d)
      ]

  find_by_id-none :
      (id user_id : ℕ) (rec : Record) (d d' : Db)
      → 0 < user_id
      → rows d' ≡ rows d
      → Distinct key (rows d)
      → Elem rec (rows d)
      → rec.id ≡ id
      → rec.user_id ≢ user_id
      → (e : Error) × (Repo.find_by_id records id user_id d' ≡ err e)
  find_by_id-none id user_id rec d d' positive same distinct m at_id foreign =
      elim (Result-cases (Repo.find_by_id records id user_id d')) [
        | inr found ↦ found
        | inl (r, f) ↦
            let (listed, r_id, mine) = find_by_id-owned records id user_id d' positive f in
            let here : Elem r (rows d) = rw (← same) listed in
            let one : r ≡ rec = same_row key r rec (rows d) distinct here m (r_id ∙ sym at_id) in
            absurd (foreign (ap (λ x. x.user_id) (sym one) ∙ mine))
      ]

  -- Where the repository stores a favorite of a record of another user, the request that asked for
  -- it is answered with an internal error, and the favorite stays. The ids of the table are distinct.
  pub update-foreign :
      (now id user_id : ℕ) (subject id_param : String) (b : Bool) (rec : Record) (d d' : Db)
      → must_user_id services subject ≡ ok user_id
      → parse_id_param services id_param ≡ ok id
      → Distinct key (rows d)
      → Elem rec (rows d)
      → rec.id ≡ id
      → rec.user_id ≢ user_id
      → Repo.update_favorite records favorites id user_id b d ≡ (ok tt, d')
      → update records projects favorites services now subject id_param (ok (favorite_only b)) d
        ≡ (err internal_error, d')
  unfolding update update_parts ◌>>=◌
  update-foreign now id user_id subject id_param b rec d d' u p distinct m at_id foreign stored =
      let unchanged : rows d' ≡ rows d =
        ap (λ out. rows out.1) (sym stored)
        ∙ favorite-rows id user_id b d (none-owned id user_id rec d distinct m at_id foreign) in
      let (e, absent) =
        find_by_id-none id user_id rec d d' (must_user_id-pos services subject u) unchanged distinct
          m at_id foreign in
      rw (u, p, stored, absent) refl
