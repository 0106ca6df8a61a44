-- ===== src/Record/Handler/Views.antt =====
-- What the replies show, and to whom.
use shadraw.Base.{
  ℕ, zero, suc, ℤ, pos, negsuc, ◌<◌, String, ◌≡◌, ◌≢◌, refl, sym, ap, ◌∙◌, ◌⊎◌, inl, inr, true,
  Option, none, some, List, Result, ok, err, str_eq, eq_iff, Bool-cases, Elem, arith, query,
  value_then, step_then, pure-ok,
}
use shadraw.Table.{Table}
use shadraw.Httpx.Reply.{Failure, Reply, reply_ok}
use shadraw.Httpx.Leaves.{failing_state}
use shadraw.Imagegen
use shadraw.Project
use shadraw.Project.{Project}
use shadraw.Record.{Record, key, Fills, Error, RecordFavorite, favorite_key, FillsFavorite}
use shadraw.Record.Repo
use shadraw.Record.Access.{find_by_id-owned, find_visible_image-allowed}
use shadraw.Record.Dto.{RecordDto, to_dto}
use shadraw.Record.Handler.{
  Blobs, Services, as_user, must_user_id, parse_id_param, record_missing, failing, answering, get,
  blob_found, image_at, image_of, stream_image,
}

pub failing-ok :
    {A D : Type 0} (answer : Error → Failure) (out : Result Error A × D) {a : A}
    → (failing answer out).0 ≡ ok a
    → out.0 ≡ ok a
failing-ok answer (ok b, d) h = cc
failing-ok answer (err e, d) h = cc

-- The id of a user who is let in is positive: none is the administrator of the repository.
as_user-pos : (n : Option ℤ) {user_id : ℕ} → as_user n ≡ ok user_id → 0 < user_id
as_user-pos none h = cc
as_user-pos (some (negsuc n)) h = cc
as_user-pos (some (pos zero)) h = cc
as_user-pos (some (pos (suc n))) {user_id} h =
    let same : suc n ≡ user_id = cc in omega (arith, same)

pub must_user_id-pos :
    (services : Services) (subject : String) {user_id : ℕ}
    → must_user_id services subject ≡ ok user_id
    → 0 < user_id
unfolding must_user_id
must_user_id-pos services subject h = as_user-pos (services.parse_int subject) h

module _ {Db : Type 0} (records : Table Db Record key Fills)
    (projects : Table Db Project Project.key Project.Fills)
    (favorites : Table Db RecordFavorite favorite_key FillsFavorite) (services : Services) where
  open records use {rows}

  -- A record that `Get` shows is one of the caller's own, and nothing is written.
  pub get-own :
      (subject id_param : String) (d : Db) {reply : Reply RecordDto} {d' : Db}
      → get records projects favorites services subject id_param d ≡ (ok reply, d')
      → (user_id : ℕ) × (r : Record) × (must_user_id services subject ≡ ok user_id)
        × Elem r (rows d)
        × (r.user_id ≡ user_id)
        × (reply ≡ reply_ok (to_dto services.format r))
        × (d' ≡ d)
  unfolding get
  get-own subject id_param d {reply} {d'} h =
      value_then (parse_id_param services id_param) _ d h (λ id _ h₁.
        value_then (must_user_id services subject) _ d h₁ (λ user_id u h₂.
          let find = query (Repo.find_by_id records id user_id) in
          step_then (answering record_missing find) _ d h₂ (λ rec e h₃.
            let (m, _, mine) =
              find_by_id-owned records id user_id d (must_user_id-pos services subject u)
                (failing-ok record_missing (find d) e) in
            let (shown, same) = pure-ok h₃ in
            (
              user_id,
              rec,
              u,
              m,
              mine,
              sym shown,
              sym same ∙ failing_state record_missing (find d),
            ))))

  module _ (blobs : Blobs rows) where
    -- The image of a record: the bytes at its path, with the type of its format.
    abbrev pub Shows : Record → Db → Reply (String × List ℕ) → Type 0
    Shows rec d reply =
        (path : String) × (rec.image_path ≡ some path)
        × (path ≢ "")
        × (blobs.get path d ≡ ok reply.body.1)
        × (reply.status ≡ 200)
        × (reply.body.0 ≡ Imagegen.mime (Imagegen.normalize (some rec.image_params)).output_format)

    blob_found-Shows :
        (rec : Record) (d : Db) (path : String) (got : Result String (List ℕ))
        {reply : Reply (String × List ℕ)}
        → rec.image_path ≡ some path
        → path ≢ ""
        → blobs.get path d ≡ got
        → blob_found records projects favorites services blobs rec got ≡ ok reply
        → Shows rec d reply
    blob_found-Shows rec d path (ok bytes) {reply} at_path ne e h =
        let same : reply_ok
              (Imagegen.mime (Imagegen.normalize (some rec.image_params)).output_format, bytes)
            ≡ reply =
          cc in
        rw (← same) (path, at_path, ne, e, refl, refl)
    blob_found-Shows rec d path (err text) at_path ne e h = cc

    image_at-Shows :
        (rec : Record) (d : Db) (path : Option String) {reply : Reply (String × List ℕ)}
        → rec.image_path ≡ path
        → image_at records projects favorites services blobs rec path d ≡ ok reply
        → Shows rec d reply
    image_at-Shows rec d none at_path = λ h. cc
    image_at-Shows rec d (some path) at_path = elim (Bool-cases (str_eq path "")) [
      | inl e ↦ rw e (λ h. cc)
      | inr e ↦ rw e (λ h.
          blob_found-Shows rec d path _ at_path (λ none. cc (e, (eq_iff path "").1 none)) refl h)
    ]

    -- The image that a user is given is the blob of a stored record that is public or the user's
    -- own, as it is stored at the path of the record, with the type of its format.
    pub stream_image-Shows :
        (subject id_param : String) (d : Db) {reply : Reply (String × List ℕ)} {d' : Db}
        → stream_image records projects favorites services blobs subject id_param d ≡ (ok reply, d')
        → (user_id : ℕ) × (r : Record) × (must_user_id services subject ≡ ok user_id)
          × Elem r (rows d)
          × ((r.is_public ≡ true) ⊎ (r.user_id ≡ user_id))
          × Shows r d reply
    unfolding stream_image image_of
    stream_image-Shows subject id_param d {reply} h =
        value_then (parse_id_param services id_param) _ d h (λ id _ h₁.
          value_then (must_user_id services subject) _ d h₁ (λ user_id u h₂.
            let find = query (Repo.find_visible_image_by_id records id user_id) in
            step_then (answering record_missing find) _ d h₂ (λ rec e h₃.
              let (m, _, allowed) =
                find_visible_image-allowed records id user_id d
                  (failing-ok record_missing (find d) e) in
              let own : (rec.is_public ≡ true) ⊎ (rec.user_id ≡ user_id) = elim allowed [
                | inl shared ↦ inl shared
                | inr (_, mine) ↦ inr mine
              ] in
              let image = image_of records projects favorites services blobs rec in
              (
                user_id,
                rec,
                u,
                m,
                own,
                image_at-Shows rec d rec.image_path refl
                    (ap image (sym (failing_state record_missing (find d))) ∙ ap (λ r. r.0) h₃),
              ))))
