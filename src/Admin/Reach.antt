-- ===== src/Admin/Reach.antt =====
-- The configuration from the start of the server on: `Load`, then the updates, their halves in any
-- order.
use shadraw.Base.{ℕ, ℤ, String, ◌≡◌, ◌<◌, refl, List, [], ◌∷◌, ◌++◌, Result, ok, err, length}
use shadraw.Table.{DbError, Table}
use shadraw.Table.Rows.{All-mono}
use shadraw.Table.Keys.{Distinct}
use shadraw.Crypto.{Bytes, Aead}
use shadraw.Admin
use shadraw.Admin.{UpstreamConfig, key, Fills, Error, Cache, Text, UpdateUpstreamArgs}
use shadraw.Admin.Coherence.{IsCoherent, current, update_upstream-IsCoherent, written-IsCoherent}
use shadraw.Admin.Loading.{load-IsCoherent}

-- The updates that write before they take the mutex, with the administrator's id.
pub data Change : Type 0 where
  concurrency : ℤ → ℕ → Change
  title : String → ℕ → Change

-- The copy in memory, the database, and the updates that were written and not yet published.
pub record System (Db : Type 0) : Type 0 where
  pub cache : Cache
  pub db : Db
  pub pending : List Change

module _ (text : Text) {Db : Type 0} (configs : Table Db UpstreamConfig key Fills)
    (aead : Aead) where
  open configs use {rows}

  abbrev pub write : Change → Db → Result DbError ℕ × Db
  write (concurrency n actor_id) d = Admin.write_concurrency text configs aead n actor_id d
  write (title given actor_id) d = Admin.write_title text configs aead given actor_id d

  abbrev pub publish : Change → Cache → Cache
  publish (concurrency n actor_id) c = Admin.publish_concurrency text n c
  publish (title given actor_id) c = Admin.publish_title text given actor_id c

  -- After an error the copy is the old one.
  abbrev pub settled : System Db → Result Error Cache × Db → System Db
  settled s out = record s { cache = current s.cache out.0; db = out.1 }

  -- What a request of an administrator does under the mutex, or before it takes it. The random
  -- source gives a nonce. A statement that fails ends its request.
  pub data Step (s t : System Db) : Type 0 where
    upstream :
        (fresh : Bytes) (a : UpdateUpstreamArgs)
        → length fresh ≡ aead.nonce_size
        → t ≡ settled s (Admin.update_upstream text configs aead (ok fresh) a s.cache s.db)
        → Step s t
    writing :
        (c : Change) {n : ℕ}
        → (write c s.db).0 ≡ ok n
        → t ≡ record s { db = (write c s.db).1; pending = c ∷ s.pending }
        → Step s t
    failing :
        (c : Change) {e : DbError}
        → (write c s.db).0 ≡ err e
        → t ≡ record s { db = (write c s.db).1 }
        → Step s t
    publishing :
        (before : List Change) (c : Change) (after : List Change)
        → s.pending ≡ before ++ c ∷ after
        → t ≡ record s { cache = publish c s.cache; pending = before ++ after }
        → Step s t

  pub data Reach (s : System Db) : System Db → Type 0 where
    here : Reach s s
    next : {t u : System Db} → Reach s t → Step t u → Reach s u

  abbrev pub Coherent : System Db → Type 0
  Coherent s = IsCoherent text aead (rows s.db) s.cache

  write-IsCoherent :
      (ch : Change) (c : Cache) (d : Db)
      → IsCoherent text aead (rows d) c
      → IsCoherent text aead (rows (write ch d).1) c
  unfolding Admin.write_concurrency Admin.write_title
  write-IsCoherent (concurrency n actor_id) c d h =
      let f = Admin.set_concurrency (Admin.clamp n) actor_id in
      written-IsCoherent text configs aead f c d _ (configs.update_law Admin.is_row f d)
        (λ row a. record { base = a.base; cipher = a.cipher; models = a.models }) (λ row. refl) h
  write-IsCoherent (title given actor_id) c d h =
      let f = Admin.set_title (Admin.site_title_or_default text given) actor_id in
      written-IsCoherent text configs aead f c d _ (configs.update_law Admin.is_row f d)
        (λ row a. record { base = a.base; cipher = a.cipher; models = a.models }) (λ row. refl) h

  publish-IsCoherent :
      (ch : Change) (c : Cache) (l : List UpstreamConfig)
      → IsCoherent text aead l c
      → IsCoherent text aead l (publish ch c)
  publish-IsCoherent (concurrency n actor_id) c l h = record {
    agrees = All-mono _ _ l h.agrees (λ row k same. record {
      base = (k same).base;
      cipher = (k same).cipher;
      models = (k same).models;
    });
    hides = h.hides;
  }
  publish-IsCoherent (title given actor_id) c l h = record {
    agrees = All-mono _ _ l h.agrees (λ row k same. record {
      base = (k same).base;
      cipher = (k same).cipher;
      models = (k same).models;
    });
    hides = h.hides;
  }

  module _ (sized : 0 < aead.nonce_size) where
    Step-Coherent : (s t : System Db) → Coherent s → Step s t → Coherent t
    Step-Coherent s t h (Step.upstream fresh a size e) =
        rw e (update_upstream-IsCoherent text configs aead fresh a s.cache s.db sized size h)
    Step-Coherent s t h (Step.writing c done e) = rw e (write-IsCoherent c s.cache s.db h)
    Step-Coherent s t h (Step.failing c failed e) = rw e (write-IsCoherent c s.cache s.db h)
    Step-Coherent s t h (Step.publishing before c after listed e) =
        rw e (publish-IsCoherent c s.cache (rows s.db) h)

    Reach-Coherent : (s t : System Db) → Coherent s → Reach s t → Coherent t
    Reach-Coherent s t h Reach.here = h
    Reach-Coherent s t h (Reach.next {t = u} run step) =
        Step-Coherent u t (Reach-Coherent s u h run) step

    -- From loading the configuration on, the address of the API, its enabled models and its
    -- encrypted key in memory are those of the stored row, and the key in memory is the one that
    -- the cipher hides: after any changes of the upstream, of the concurrency and of the title, failed ones
    -- included, the halves of the latter two in any order. The ids of the table are
    -- distinct, and the cipher has a nonce, which the random source gives.
    pub load-Reach :
        (d₀ d : Db) (c : Cache) (t : System Db)
        → Distinct key (rows d₀)
        → Admin.load text configs aead d₀ ≡ (ok c, d)
        → Reach (record { cache = c; db = d; pending = [] }) t
        → Coherent t
    load-Reach d₀ d c t distinct loads run =
        Reach-Coherent _ t (load-IsCoherent text configs aead d₀ distinct loads) run
