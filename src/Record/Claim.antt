-- ===== src/Record/Claim.antt =====
-- What a successful `ClaimWaiting` has done.
use shadraw.Base.{
  ℕ, ◌⊎◌, ◌<◌, ◌≡◌, refl, ◌∙◌, Bool, true, false, Option, none, some, arith, Result, ok, err, Elem,
  All, ==_refl, update_where, inl, inr,
}
use shadraw.Table.{DbError, record_not_found, fault, Table, Takes, Updates, Locks, Transacts}
use shadraw.Table.Rows.{Elem-update_where}
use shadraw.Table.Keys.{Distinct, Distinct-update_where, same_row}
use shadraw.Record.{Record, waiting, key, Fills, by_id, scoped, is_waiting, start, from_take}
use shadraw.Record.Repo

module _ {Db : Type 0} (records : Table Db Record key Fills) where
  open records use {rows, locked}

  -- A waiting row was picked that no other transaction had locked, the first such row; it alone was started,
  -- and it is the record that the worker gets.
  pub record Claimed (now : ℕ) (d : Db) (r : Record) (d' : Db) : Type 0 where
    pub picked : Record
    pub listed : Elem picked (rows d)
    pub was_waiting : picked.status ≡ waiting
    pub was_free : locked d picked.id ≡ false
    pub first : All (λ x. is_waiting x ≡ true → x.id < picked.id → locked d x.id ≡ true) (rows d)
    pub marked : rows d' ≡ update_where (by_id picked.id) (start now) (rows d)
    pub returned : r ≡ start now picked

  -- What the body of the transaction has done if it returned a row.
  abbrev pub Picks : Db → ℕ → Record → Db → Type 0
  Picks d now picked d' =
      Elem picked (rows d)
      × (is_waiting picked ≡ true)
      × (locked d picked.id ≡ false)
      × All (λ x. is_waiting x ≡ true → x.id < picked.id → locked d x.id ≡ true) (rows d)
      × (rows d' ≡ update_where (by_id picked.id) (start now) (rows d))

  claim_marked-rows :
      (now : ℕ) (d : Db) (picked r : Record) (out : Result DbError ℕ × Db)
      → Updates rows (by_id picked.id) (start now) d out
      → (Repo.claim_marked records picked out).0 ≡ ok r
      → (picked ≡ r)
        × (rows (Repo.claim_marked records picked out).1
            ≡ update_where (by_id picked.id) (start now) (rows d))
  unfolding Repo.claim_marked
  claim_marked-rows now d picked r (ok n, d') u e = (cc, u.0)
  claim_marked-rows now d picked r (err x, d') u e = cc

  claim_selected-Picks :
      (now : ℕ) (d : Db) (r : Record) (sel : Result DbError (Option Record))
      → Locks rows key locked is_waiting d sel
      → (Repo.claim_selected records now d sel).0 ≡ ok r
      → Picks d now r (Repo.claim_selected records now d sel).1
  unfolding Repo.claim_selected
  claim_selected-Picks now d r (err x) l e = cc
  claim_selected-Picks now d r (ok none) l e = cc
  claim_selected-Picks now d r (ok (some picked)) l e =
      let (same, m) =
        claim_marked-rows now d picked r _ (records.update_law (by_id picked.id) (start now) d) e in
      rw (← same) (l.0, l.1, l.2, l.3, m)

  pub from_take-found :
      (p : Record → Bool) (d : Db) (r : Record) (out : Result DbError Record)
      → Takes rows p d out
      → from_take out ≡ ok r
      → Elem r (rows d) × (p r ≡ true)
  from_take-found p d r (ok x) t e = let same : x ≡ r = cc in rw (← same) t
  from_take-found p d r (err record_not_found) t e = cc
  from_take-found p d r (err (fault text)) t e = cc

  pub find_by_id-found :
      (id user_id : ℕ) (d : Db) (r : Record)
      → Repo.find_by_id records id user_id d ≡ ok r
      → Elem r (rows d) × (scoped id user_id r ≡ true)
  unfolding Repo.find_by_id
  find_by_id-found id user_id d r e =
      from_take-found (scoped id user_id) d r _ (records.take_law (scoped id user_id) d) e

  -- The row that the last query finds is the one that was started.
  reread-same :
      (now : ℕ) (d d' : Db) (picked r : Record)
      → Distinct key (rows d)
      → Picks d now picked d'
      → Elem r (rows d')
      → r.id ≡ picked.id
      → r ≡ start now picked
  reread-same now d d' picked r h (listed, w, free, first, marked) m e =
      same_row key r (start now picked) (update_where (by_id picked.id) (start now) (rows d))
        (Distinct-update_where key _ _ (rows d) (λ x. refl) h) (rw marked at m)
        (rw (==_refl picked.id) at
          (Elem-update_where (by_id picked.id) (start now) picked (rows d) listed))
        e

  reread-Claimed :
      (now : ℕ) (d : Db) (r : Record) (out : Result DbError Record × Db)
      → Distinct key (rows d)
      → Transacts rows (Repo.claim_body records now d) d out
      → (Repo.reread records out).0 ≡ ok r
      → Claimed now d r (Repo.reread records out).1
  unfolding Repo.reread Repo.claim_body
  reread-Claimed now d r (err record_not_found, d') h t e = cc
  reread-Claimed now d r (err (fault text), d') h t e = cc
  reread-Claimed now d r (ok picked, d') h t e =
      let sel = records.lock_first is_waiting d in
      let p = claim_selected-Picks now d picked sel (records.lock_first_law is_waiting d) t.0 in
      let (m, found) = find_by_id-found picked.id 0 d' r e in
      record {
        picked = picked;
        listed = p.0;
        was_waiting = ground arith;
        was_free = p.2;
        first = p.3;
        marked = t.1 ∙ p.4;
        returned = reread-same now d d' picked r h (p.0, p.1, p.2, p.3, t.1 ∙ p.4) m (ground arith);
      }

  -- In a table with distinct ids, a claim that succeeds starts the first waiting row that is not
  -- locked, and returns it.
  pub claim_waiting-Claimed :
      (now : ℕ) (d : Db) (r : Record)
      → Distinct key (rows d)
      → (Repo.claim_waiting records now d).0 ≡ ok r
      → Claimed now d r (Repo.claim_waiting records now d).1
  unfolding Repo.claim_waiting
  claim_waiting-Claimed now d r h e =
      reread-Claimed now d r (records.transaction (Repo.claim_body records now) d) h
        (records.transaction_law (Repo.claim_body records now) d) e

  transacted :
      (now : ℕ) (d : Db) (out : Result DbError Record × Db)
      → Transacts rows (Repo.claim_body records now d) d out
      → let d' = (Repo.reread records out).1 in
        (rows d' ≡ rows d) ⊎ ((picked : Record) × Picks d now picked d')
  unfolding Repo.reread Repo.claim_body
  transacted now d (err record_not_found, d') t = inl t
  transacted now d (err (fault text), d') t = inl t
  transacted now d (ok picked, d') t =
      let sel = records.lock_first is_waiting d in
      let p = claim_selected-Picks now d picked sel (records.lock_first_law is_waiting d) t.0 in
      inr (picked, (p.0, p.1, p.2, p.3, t.1 ∙ p.4))

  -- Whatever a claim returns, it has changed nothing or has started one waiting row.
  pub claim_waiting-Picks :
      (now : ℕ) (d : Db)
      → let d' = (Repo.claim_waiting records now d).1 in
        (rows d' ≡ rows d) ⊎ ((picked : Record) × Picks d now picked d')
  unfolding Repo.claim_waiting
  claim_waiting-Picks now d =
      transacted now d (records.transaction (Repo.claim_body records now) d)
        (records.transaction_law (Repo.claim_body records now) d)
