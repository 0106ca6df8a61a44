-- ===== src/Admin/Handler/Accounts.antt =====
-- What an administrator's change of an account touches.
use shadraw.Base.{
  ℕ, zero, suc, ℤ, ◌≡◌, refl, ap, ◌∙◌, inl, inr, Bool, true, false, not, Option, List, [], ◌∷◌, map,
  Result, ok, err, ◌==◌, Bool-cases, keep, update_where, arith,
}
use shadraw.Table.{DbError, Table, Updates}
use shadraw.Httpx.Reply.{Failure}
use shadraw.Httpx.Leaves.{
  Leaves, Leaves-then, Leaves-value, Leaves-pure, Leaves-when_given, Leaves-answering, Leaves-query,
}
use shadraw.User
use shadraw.User.{User, Role, by_id, affected, no_error}
use shadraw.Record.Dto.{Format}
use shadraw.Record.Handler.{as_id}
use shadraw.Admin.Handler.{UpdateUserReq, user_failure, update_user}

-- An account without its role and whether it is disabled.
abbrev pub identity : User → User
identity u = record u { role = Role.user; disabled = false }

-- The accounts: the others as they are, and all of them without role and mark.
abbrev pub untouched : ℕ → List User → List User × List User
untouched id rows = (keep (λ u. not (u.id == id)) rows, map identity rows)

update_where-others :
    (id : ℕ) (f : User → User) (rows : List User)
    → ((u : User) → (f u).id ≡ u.id)
    → keep (λ u. not (u.id == id)) (update_where (by_id id) f rows)
      ≡ keep (λ u. not (u.id == id)) rows
update_where-others id f [] same = refl
update_where-others id f (u ∷ rows) same = elim (Bool-cases (u.id == id)) [
  | inl e ↦
      let moved : ((f u).id == id) ≡ true = ground (arith, same u) in
      rw (e, moved) (update_where-others id f rows same)
  | inr e ↦ rw (e, e) (ap (λ l. u ∷ l) (update_where-others id f rows same))
]

update_where-identity :
    (p : User → Bool) (f : User → User) (rows : List User)
    → ((u : User) → identity (f u) ≡ identity u)
    → map identity (update_where p f rows) ≡ map identity rows
update_where-identity p f [] same = refl
update_where-identity p f (u ∷ rows) same = elim (Bool-cases (p u)) [
  | inl e ↦ rw (e, same u) (ap (λ l. identity u ∷ l) (update_where-identity p f rows same))
  | inr e ↦ rw e (ap (λ l. identity u ∷ l) (update_where-identity p f rows same))
]

module _ {Db : Type 0} (users : Table Db User User.key User.Fills) (format : Format) where
  open users use {rows}

  abbrev view : ℕ → Db → List User × List User
  view id d = untouched id (rows d)

  updated-view :
      (id : ℕ) (f : User → User) (d : Db) (out : Result DbError ℕ × Db)
      → ((u : User) → (f u).id ≡ u.id)
      → ((u : User) → identity (f u) ≡ identity u)
      → Updates rows (by_id id) f d out
      → view id out.1 ≡ view id d
  updated-view id f d (ok n, d') key same (u, _) =
      rw
        (u, update_where-others id f (rows d) key, update_where-identity (by_id id) f (rows d) same)
        refl
  updated-view id f d (err e, d') key same u = ap (untouched id) u

  affected_state : (out : Result DbError ℕ × Db) → (affected out).1 ≡ out.1
  affected_state (ok zero, d) = refl
  affected_state (ok (suc n), d) = refl
  affected_state (err e, d) = refl

  no_error_state : (out : Result DbError ℕ × Db) → (no_error out).1 ≡ out.1
  no_error_state (ok n, d) = refl
  no_error_state (err e, d) = refl

  set_disabled-Leaves :
      (id : ℕ) (b : Bool) (d : Db) → Leaves (view id) d (User.set_disabled users id b)
  unfolding User.set_disabled
  set_disabled-Leaves id b d = record {
    same =
        ap (view id) (affected_state (users.update (by_id id) (λ u. record u { disabled = b }) d))
        ∙ updated-view id (λ u. record u { disabled = b }) d _ (λ u. refl) (λ u. refl)
            (users.update_law (by_id id) (λ u. record u { disabled = b }) d);
  }

  set_role-Leaves :
      (id : ℕ) (role : Role) (d : Db) → Leaves (view id) d (User.set_role users id role)
  unfolding User.set_role
  set_role-Leaves id role d = record {
    same =
        ap (view id) (no_error_state (users.update (by_id id) (λ u. record u { role = role }) d))
        ∙ updated-view id (λ u. record u { role = role }) d _ (λ u. refl) (λ u. refl)
            (users.update_law (by_id id) (λ u. record u { role = role }) d);
  }

  update_user-Leaves :
      (id_param : Option ℤ) (body : Result Failure UpdateUserReq) (id : ℕ) (d : Db)
      → as_id id_param ≡ ok id
      → Leaves (view id) d (update_user users format id_param body)
  unfolding update_user
  update_user-Leaves id_param body id d named =
      Leaves-value (view id) (as_id id_param) _ d (λ given e.
        let same : given ≡ id = cc in
        rw same (
          Leaves-value (view id) body _ d (λ req _.
            Leaves-then (view id) _ _ d
              (Leaves-when_given (view id) req.disabled _ d
                (λ b. Leaves-answering (view id) user_failure _ d (set_disabled-Leaves id b d)))
              (λ _ _.
                Leaves-then (view id) _ _ _
                  (Leaves-when_given (view id) req.role _ _ (λ role.
                    Leaves-answering (view id) user_failure _ _ (set_role-Leaves id role _)))
                  (λ _ _.
                    Leaves-then (view id) _ _ _
                      (Leaves-answering (view id) user_failure _ _
                        (Leaves-query (view id) (User.find_by_id users id) _))
                      (λ u _. Leaves-pure (view id) _ _))))))

  -- A change of an account by an administrator leaves all other accounts as they are, and of the
  -- account everything but its role and whether it is disabled: its password and its email stay.
  pub update_user-untouched :
      (id_param : Option ℤ) (body : Result Failure UpdateUserReq) (id : ℕ) (d : Db)
      → as_id id_param ≡ ok id
      → untouched id (rows (update_user users format id_param body d).1) ≡ untouched id (rows d)
  update_user-untouched id_param body id d named =
      (update_user-Leaves id_param body id d named).same
