-- ===== src/Record/Handler/Owners.antt =====
-- What the handlers write: rows of the caller only.
use shadraw.Base.{
  ℕ, String, ◌≡◌, refl, ap, ◌∙◌, inl, inr, Bool, true, Option, none, some, List, [], ◌∷◌, ◌++◌,
  Result, ok, err, ◌==◌, str_eq, Bool-cases, arith, Action, query, from_result, raise_if, ◌>>=◌,
}
use shadraw.Table.{DbError, Table, Separate, Creates}
use shadraw.Table.Keys.{Distinct}
use shadraw.Httpx.Reply.{Failure}
use shadraw.Project
use shadraw.Project.{Project}
use shadraw.Record.{
  Record, key, Fills, RecordFavorite, favorite_key, FillsFavorite, lift, owned, set_favorite,
}
use shadraw.Record.Repo
use shadraw.Record.Access.{rows_of_others, update-others, requests-others, delete-others}
use shadraw.Record.Favorites.{update_favorite-Favors}
use shadraw.Record.Dto.{CreateRecordReq, UpdateRecordReq}
use shadraw.Record.Handler
use shadraw.Record.Handler.{
  Blobs, Services, must_user_id, parse_id_param, record_missing, failing, answering, when_given,
  or_internal, or_false, own_project, update_parts, new_record, internal, is_disabled,
  given_project, delete_blob,
}
use shadraw.Record.Handler.Views.{must_user_id-pos}
use shadraw.Httpx.Leaves.{
  Leaves, Leaves-then, Leaves-value, Leaves-pure, Leaves-raise_if, Leaves-when_given,
  Leaves-answering, Leaves-query,
}

keep-snoc :
    (user_id : ℕ) (rows : List Record) (r : Record)
    → r.user_id ≡ user_id
    → rows_of_others user_id (rows ++ r ∷ []) ≡ rows_of_others user_id rows
keep-snoc user_id [] r mine =
    let yes : (r.user_id == user_id) ≡ true = ground (arith, mine) in rw yes refl
keep-snoc user_id (x ∷ rows) r mine = elim (Bool-cases (x.user_id == user_id)) [
  | inl e ↦ rw e (keep-snoc user_id rows r mine)
  | inr e ↦ rw e (ap (λ l. x ∷ l) (keep-snoc user_id rows r mine))
]

module _ {Db : Type 0} (records : Table Db Record key Fills)
    (projects : Table Db Project Project.key Project.Fills)
    (favorites : Table Db RecordFavorite favorite_key FillsFavorite) (services : Services)
    (apart : Separate favorites records.rows) where
  open records use {rows}

  abbrev others : ℕ → Db → List Record
  others user_id d = rows_of_others user_id (rows d)

  created-others :
      (user_id : ℕ) (given : Record) (d : Db) (out : Result DbError Record × Db)
      → given.user_id ≡ user_id
      → Creates rows key Fills given d out
      → others user_id (lift out).1 ≡ others user_id d
  created-others user_id given d (ok r, d') mine (stored, fills, _, _) =
      rw stored (keep-snoc user_id (rows d) r (ap (λ x. x.user_id) fills ∙ mine))
  created-others user_id given d (err e, d') mine same = ap (rows_of_others user_id) same

  create-Leaves :
      (user_id : ℕ) (given : Record) (d : Db)
      → given.user_id ≡ user_id
      → Leaves (others user_id) d (Repo.create records given)
  unfolding Repo.create
  create-Leaves user_id given d mine = record {
    same =
        created-others user_id given d (records.create given d) mine (records.create_law given d);
  }

  update_favorite-Leaves :
      (id user_id : ℕ) (b : Bool) (d : Db)
      → Leaves (others user_id) d (Repo.update_favorite records favorites id user_id b)
  update_favorite-Leaves id user_id b d = record {
    same = elim (update_favorite-Favors records favorites apart id user_id b d) [
      | inl same ↦ ap (rows_of_others user_id) same
      | inr own ↦
          ap (others user_id) own
          ∙ update-others records user_id (owned id user_id) (set_favorite b) d
              (λ r e. ground arith) (λ r. refl)
    ];
  }

  update_public-Leaves :
      (now id user_id : ℕ) (b prompt_public : Bool) (d : Db)
      → Leaves (others user_id) d (Repo.update_public records now id user_id b prompt_public)
  update_public-Leaves now id user_id b prompt_public d = record {
    same = (requests-others records now id user_id b prompt_public none d).0;
  }

  update_project-Leaves :
      (id user_id : ℕ) (project_id : Option ℕ) (d : Db)
      → Leaves (others user_id) d (Repo.update_project records id user_id project_id)
  update_project-Leaves id user_id project_id d = record {
    same = (requests-others records 0 id user_id true true project_id d).1;
  }

  retry_failed-Leaves :
      (id user_id : ℕ) (d : Db) → Leaves (others user_id) d (Repo.retry_failed records id user_id)
  retry_failed-Leaves id user_id d = record {
    same = (requests-others records 0 id user_id true true none d).2;
  }

  update_parts-Leaves :
      (now id user_id : ℕ) (req : UpdateRecordReq) (d : Db)
      → Leaves
          (others user_id)
          d
          (update_parts records projects favorites services now id user_id req)
  unfolding update_parts
  update_parts-Leaves now id user_id req d =
      let view = others user_id in
      let move : Option ℕ → Action Db Failure Unit = λ project_id.
        answering record_missing (Repo.update_project records id user_id project_id) in
      let find : String → Db → Result Failure (Option ℕ) =
        λ text. own_project records projects favorites services user_id text in
      Leaves-then view _ _ d
        (Leaves-when_given view req.favorite _ d
          (λ b. Leaves-answering view record_missing _ d (update_favorite-Leaves id user_id b d)))
        (λ _ _.
          Leaves-then view _ _ _
            (Leaves-when_given view req.is_public _ _ (λ b.
              Leaves-answering view _ _ _
                (update_public-Leaves now id user_id b (or_false req.prompt_public) _)))
            (λ _ _. Leaves-when_given view req.project_id _ _ (λ text.
              Leaves-then view (query (find text)) move _ (Leaves-query view (find text) _)
                (λ project_id _.
                  Leaves-answering view record_missing
                    (Repo.update_project records id user_id project_id) _
                    (update_project-Leaves id user_id project_id _)))))

  -- Who calls is the user of the theorem.
  as_caller :
      {A : Type 0} (subject : String) (user_id : ℕ) (k : ℕ → Action Db Failure A) (d : Db)
      → must_user_id services subject ≡ ok user_id
      → Leaves (others user_id) d (k user_id)
      → Leaves (others user_id) d (from_result (must_user_id services subject) >>= k)
  as_caller subject user_id k d u h =
      Leaves-value (others user_id) (must_user_id services subject) k d
        (λ a e. let same : user_id ≡ a = cc in rw (← same) h)

  update-Leaves :
      (now : ℕ) (subject id_param : String) (body : Result Failure UpdateRecordReq) (user_id : ℕ)
      (d : Db)
      → must_user_id services subject ≡ ok user_id
      → Leaves
          (others user_id)
          d
          (Handler.update records projects favorites services now subject id_param body)
  unfolding Handler.update
  update-Leaves now subject id_param body user_id d u =
      let view = others user_id in
      Leaves-value view (parse_id_param services id_param) _ d (λ id _.
        Leaves-value view body _ d (λ req _. as_caller subject user_id _ d u (
          Leaves-then view (update_parts records projects favorites services now id user_id req) _ d
            (update_parts-Leaves now id user_id req d)
            (λ _ _.
              Leaves-then view _ _ _
                (Leaves-answering view internal _ _
                  (Leaves-query view (Repo.find_by_id records id user_id) _))
                (λ rec _. Leaves-pure view _ _)))))

  retry-Leaves :
      (subject id_param : String) (user_id : ℕ) (d : Db)
      → must_user_id services subject ≡ ok user_id
      → Leaves
          (others user_id)
          d
          (Handler.retry records projects favorites services subject id_param)
  unfolding Handler.retry
  retry-Leaves subject id_param user_id d u =
      let view = others user_id in
      Leaves-value view (parse_id_param services id_param) _ d (λ id _.
        as_caller subject user_id _ d u (
          Leaves-then view _ _ _
            (Leaves-answering view _ (Repo.retry_failed records id user_id) d
              (retry_failed-Leaves id user_id d))
            (λ rec _. Leaves-pure view _ _)))

  create_handler-Leaves :
      (subject : String) (body : Result Failure CreateRecordReq) (user_id : ℕ) (d : Db)
      → must_user_id services subject ≡ ok user_id
      → Leaves (others user_id) d (Handler.create records projects favorites services subject body)
  unfolding Handler.create
  create_handler-Leaves subject body user_id d u =
      let view = others user_id in
      let find : CreateRecordReq → Db → Result Failure (Option ℕ) =
        λ req. given_project records projects favorites services user_id req.project_id in
      Leaves-value view body _ d (λ req _. as_caller subject user_id _ d u (
        Leaves-then view (raise_if (is_disabled services.enabled_models req.model) _) _ d
          (Leaves-raise_if view _ _ d)
          (λ _ _.
            Leaves-then view (query (find req)) _ _ (Leaves-query view (find req) _)
              (λ project_id _.
                Leaves-then view _ _ _
                  (Leaves-answering view internal
                    (Repo.create records (new_record user_id project_id req)) _
                    (create-Leaves user_id (new_record user_id project_id req) _ refl))
                  (λ rec _.
                    Leaves-then view _ _ _
                      (Leaves-answering view internal _ _
                        (Leaves-query view (Repo.find_by_id records rec.id user_id) _))
                      (λ fresh _. Leaves-pure view _ _))))))

  module _ (blobs : Blobs rows) where
    delete_blob-Leaves :
        (user_id : ℕ) (path : Option String) (d : Db)
        → others user_id (delete_blob records projects favorites services blobs path d)
          ≡ others user_id d
    delete_blob-Leaves user_id none d = refl
    delete_blob-Leaves user_id (some path) d = elim (Bool-cases (str_eq path "")) [
      | inl e ↦ rw e refl
      | inr e ↦ rw e (ap (rows_of_others user_id) (blobs.delete_apart path d))
    ]

    delete-Leaves :
        (subject id_param : String) (user_id : ℕ) (d : Db)
        → Distinct key (rows d)
        → must_user_id services subject ≡ ok user_id
        → Leaves
            (others user_id)
            d
            (Handler.delete records projects favorites services blobs subject id_param)
    unfolding Handler.delete
    delete-Leaves subject id_param user_id d distinct u =
        let view = others user_id in
        Leaves-value view (parse_id_param services id_param) _ d (λ id _.
          as_caller subject user_id _ d u (
            Leaves-then view _ _ _
              (Leaves-answering view record_missing (Repo.delete records id user_id) d (record {
                same =
                    delete-others records id user_id d (must_user_id-pos services subject u)
                      distinct;
              }))
              (λ rec _. record { same = delete_blob-Leaves user_id rec.image_path _ })))

    -- Whatever a request to create, change, retry or delete a record asks for, and however it ends,
    -- the rows of all users but the caller stay as they are. The ids of the table are distinct.
    pub handlers-others :
        (now : ℕ) (subject id_param : String) (given : Result Failure CreateRecordReq)
        (body : Result Failure UpdateRecordReq) (user_id : ℕ) (d : Db)
        → Distinct key (rows d)
        → must_user_id services subject ≡ ok user_id
        → (others user_id (Handler.create records projects favorites services subject given d).1
            ≡ others user_id d)
          × (others user_id
                (Handler.update records projects favorites services now subject id_param body d).1
              ≡ others user_id d)
          × (others user_id (Handler.retry records projects favorites services subject id_param d).1
              ≡ others user_id d)
          × (others user_id
                (Handler.delete records projects favorites services blobs subject id_param d).1
              ≡ others user_id d)
    handlers-others now subject id_param given body user_id d distinct u = (
      (create_handler-Leaves subject given user_id d u).same,
      (update-Leaves now subject id_param body user_id d u).same,
      (retry-Leaves subject id_param user_id d u).same,
      (delete-Leaves subject id_param user_id d distinct u).same,
    )
