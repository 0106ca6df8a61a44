-- ===== src/Migrate/Uploads.antt =====
-- What a migration without a failure has stored.
use shadraw.Base.{
  ℕ, ◌+◌, ◌≤◌, String, ◌≡◌, ◌≢◌, refl, sym, ap, ◌∙◌, inl, inr, false, Option, some, List, [], ◌∷◌,
  Result, ok, err, Bool-cases, arith,
}
use shadraw.Migrate.{
  Options, Stats, no_stats, File, Entries, Store, Paths, is_hidden, split_object_key, Call, of_file,
  of_hidden, of_error, calls_of, put_done, upload, sized_file, stat_file, keyed_file, visit_file,
  walk, migrate, add_failed,
}

-- What `Put` promises: the bytes are found at the path that it returns, and at every other path what was
-- there before, also where it fails.
abbrev pub Puts :
    {S : Type 0} → (S → String → Option (List ℕ)) → List ℕ → S → Result String String × S → Type 0
Puts content bytes s (ok path, s') =
    (content s' path ≡ some bytes)
    × ((other : String) → other ≢ path → content s' other ≡ content s other)
Puts content bytes s (err text, s') = Unit

pub record Keeps {S : Type 0} (store : Store S) (paths : Paths) : Type 0 where
  pub content : S → String → Option (List ℕ)
  pub put_law :
      (bucket user file_key : String) (bytes : List ℕ) (s : S)
      → Puts content bytes s (store.put bucket user file_key bytes s)
  -- The path is the joined key.
  pub put_path :
      (bucket user file_key : String) (bytes : List ℕ) (s : S) {path : String}
      → (store.put bucket user file_key bytes s).0 ≡ ok path
      → path ≡ paths.join (bucket ∷ user ∷ file_key ∷ [])

module _ {S : Type 0} (store : Store S) (paths : Paths) (opts : Options) (keeps : Keeps store paths)
    (dry : opts.dry_run ≡ false) (no_verify : opts.verify_only ≡ false) where
  open keeps use {content}

  -- The path of a file in the store.
  abbrev pub At : File → String → Type 0
  At f path =
      (key : String × String × String) × (split_object_key paths f.key ≡ ok key)
      × (path ≡ paths.join (key.0 ∷ key.1 ∷ key.2 ∷ []))

  -- The key of the file is a path, the file could be read, and the store has its bytes there.
  abbrev pub Holds : S → File → Type 0
  Holds s f =
      (path : String) × (bytes : List ℕ) × At f path
      × (f.read ≡ ok bytes)
      × (content s path ≡ some bytes)

  -- One call: the failures do not shrink; and if none is added, a file is stored, and the paths of
  -- other files keep what they hold.
  record Uploaded (f : File) (st : Stats) (s : S) (out : Stats × S) : Type 0 where
    more : st.failed ≤ out.0.failed
    holds : out.0.failed ≡ st.failed → is_hidden f.name ≡ false → Holds out.1 f
    stays :
        (path : String)
        → (At f path → ⊥)
        → out.0.failed ≡ st.failed
        → content out.1 path ≡ content s path

  failed-Uploaded : (f : File) (st : Stats) (s : S) → Uploaded f st s (add_failed st, s)
  failed-Uploaded f st s = record {
    more = omega arith;
    holds = λ e h. absurd (omega (arith, e));
    stays = λ path h e. refl;
  }

  put_done-Uploaded :
      (f : File) (key : String × String × String) (bytes : List ℕ) (st : Stats) (s : S)
      (out : Result String String × S)
      → split_object_key paths f.key ≡ ok key
      → f.read ≡ ok bytes
      → Puts content bytes s out
      → ((path : String) → out.0 ≡ ok path → path ≡ paths.join (key.0 ∷ key.1 ∷ key.2 ∷ []))
      → Uploaded f st s (put_done store paths opts st out)
  put_done-Uploaded f key bytes st s (err text, s') k r u at_path = record {
    more = omega arith;
    holds = λ e h. absurd (omega (arith, e));
    stays = λ path h e. absurd (omega (arith, e));
  }
  put_done-Uploaded f key bytes st s (ok path, s') k r (stored, apart) at_path =
      let here : path ≡ paths.join (key.0 ∷ key.1 ∷ key.2 ∷ []) = at_path path refl in
      record {
        more = omega arith;
        holds = λ e h. (path, bytes, (key, k, here), r, stored);
        stays = λ other h e. apart other (λ same. h (key, k, same ∙ here));
      }

  upload-Uploaded :
      (f : File) (key : String × String × String) (read : Result String (List ℕ)) (st : Stats)
      (s : S)
      → split_object_key paths f.key ≡ ok key
      → f.read ≡ read
      → Uploaded f st s (upload store paths opts key read st s)
  upload-Uploaded f key (err text) st s k r = failed-Uploaded f st s
  upload-Uploaded f (bucket, user, file_key) (ok bytes) st s k r =
      put_done-Uploaded f (bucket, user, file_key) bytes st s _ k r
        (keeps.put_law bucket user file_key bytes s)
        (λ path e. keeps.put_path bucket user file_key bytes s e)

  -- The count of the bytes and of the scanned files does not matter.
  counted-Uploaded :
      (f : File) (st st' : Stats) (s : S) (out : Stats × S)
      → st'.failed ≡ st.failed
      → Uploaded f st' s out
      → Uploaded f st s out
  counted-Uploaded f st st' s out same u = record {
    more = omega (arith, u.more, same);
    holds = λ e. u.holds (e ∙ sym same);
    stays = λ path h e. u.stays path h (e ∙ sym same);
  }

  sized_file-upload :
      (f : File) (key : String × String × String) (size : ℕ) (st : Stats) (s : S)
      → sized_file store paths opts f key size st s
        ≡ upload store paths opts key f.read (record st { bytes = st.bytes + size }) s
  unfolding sized_file
  sized_file-upload f key size st s = simp (dry, no_verify) refl

  stat_file-Uploaded :
      (f : File) (key : String × String × String) (info : Result String ℕ) (st : Stats) (s : S)
      → split_object_key paths f.key ≡ ok key
      → Uploaded f st s (stat_file store paths opts f key info st s)
  stat_file-Uploaded f key (err text) st s k = failed-Uploaded f st s
  stat_file-Uploaded f key (ok size) st s k = rw (sized_file-upload f key size st s) (
      counted-Uploaded f st (record st { bytes = st.bytes + size }) s _ refl
        (upload-Uploaded f key f.read (record st { bytes = st.bytes + size }) s k refl))

  keyed_file-Uploaded :
      (f : File) (key : Result String (String × String × String)) (st : Stats) (s : S)
      → split_object_key paths f.key ≡ key
      → Uploaded f st s (keyed_file store paths opts f key st s)
  keyed_file-Uploaded f (err text) st s k = failed-Uploaded f st s
  keyed_file-Uploaded f (ok key) st s k = stat_file-Uploaded f key f.info st s k

  visit_file-Uploaded :
      (f : File) (st : Stats) (s : S) → Uploaded f st s (visit_file store paths opts f st s)
  unfolding visit_file
  visit_file-Uploaded f st s =
      let seen = record st { scanned = st.scanned + 1 } in
      elim (Bool-cases (is_hidden f.name)) [
        | inl e ↦ rw e (record {
          more = omega arith;
          holds = λ same shown. absurd (cc (e, shown));
          stays = λ path h same. refl;
        })
        | inr e ↦ rw e (
            counted-Uploaded f st seen s _ refl
              (keyed_file-Uploaded f (split_object_key paths f.key) seen s refl))
      ]

  -- No file has this path.
  abbrev pub Elsewhere : String → List Call → Type 0
  Elsewhere path [] = Unit
  Elsewhere path (of_hidden ∷ l) = Elsewhere path l
  Elsewhere path (of_error ∷ l) = Elsewhere path l
  Elsewhere path (of_file f ∷ l) = (At f path → ⊥) × Elsewhere path l

  -- No file has the path of a later one.
  abbrev pub Apart : List Call → Type 0
  Apart [] = Unit
  Apart (of_hidden ∷ l) = Apart l
  Apart (of_error ∷ l) = Apart l
  Apart (of_file f ∷ l) = ((path : String) → At f path → Elsewhere path l) × Apart l

  -- Every file that is not hidden is stored.
  abbrev pub Stored : S → List Call → Type 0
  Stored s [] = Unit
  Stored s (of_hidden ∷ l) = Stored s l
  Stored s (of_error ∷ l) = Stored s l
  Stored s (of_file f ∷ l) = (is_hidden f.name ≡ false → Holds s f) × Stored s l

  walk-more :
      (l : List Call) (st : Stats) (s : S) → st.failed ≤ (walk store paths opts l (st, s)).0.failed
  unfolding walk
  walk-more [] st s = omega arith
  walk-more (of_hidden ∷ l) st s = walk-more l (record st { skipped = st.skipped + 1 }) s
  walk-more (of_error ∷ l) st s = omega (arith, walk-more l (add_failed st) s)
  walk-more (of_file f ∷ l) st s =
      let out = visit_file store paths opts f st s in
      omega (arith, walk-more l out.0 out.1, (visit_file-Uploaded f st s).more)

  walk-stays :
      (l : List Call) (st : Stats) (s : S) (path : String)
      → Elsewhere path l
      → (walk store paths opts l (st, s)).0.failed ≡ st.failed
      → content (walk store paths opts l (st, s)).1 path ≡ content s path
  unfolding walk
  walk-stays [] st s path h e = refl
  walk-stays (of_hidden ∷ l) st s path h e =
      walk-stays l (record st { skipped = st.skipped + 1 }) s path h e
  walk-stays (of_error ∷ l) st s path h e = absurd (omega (arith, walk-more l (add_failed st) s, e))
  walk-stays (of_file f ∷ l) st s path h e =
      let out = visit_file store paths opts f st s in
      let u = visit_file-Uploaded f st s in
      let none_here : out.0.failed ≡ st.failed =
        omega (arith, walk-more l out.0 out.1, u.more, e) in
      walk-stays l out.0 out.1 path h.1 (e ∙ sym none_here) ∙ u.stays path h.0 none_here

  walk-Stored :
      (l : List Call) (st : Stats) (s : S)
      → Apart l
      → (walk store paths opts l (st, s)).0.failed ≡ st.failed
      → Stored (walk store paths opts l (st, s)).1 l
  unfolding walk
  walk-Stored [] st s h e = tt
  walk-Stored (of_hidden ∷ l) st s h e =
      walk-Stored l (record st { skipped = st.skipped + 1 }) s h e
  walk-Stored (of_error ∷ l) st s h e = absurd (omega (arith, walk-more l (add_failed st) s, e))
  walk-Stored (of_file f ∷ l) st s h e =
      let out = visit_file store paths opts f st s in
      let u = visit_file-Uploaded f st s in
      let none_here : out.0.failed ≡ st.failed =
        omega (arith, walk-more l out.0 out.1, u.more, e) in
      let none_later = e ∙ sym none_here in
      (
        (λ shown.
            let (path, bytes, at_path, read, stored) = u.holds none_here shown in
            (
              path,
              bytes,
              at_path,
              read,
              walk-stays l out.0 out.1 path (h.0 path at_path) none_later ∙ stored,
            )),
        walk-Stored l out.0 out.1 h.1 none_later,
      )

  -- If an upload ends without a failure, every file that is not hidden, nor below a hidden directory,
  -- has a key of the right form and could be read, and is in the store with its bytes, at the path
  -- that its key names. The store keeps what it took,
  -- and no two files have the same path.
  pub migrate-Stored :
      (inside : Entries) (s s' : S) (st : Stats)
      → Apart (calls_of inside)
      → migrate store paths opts (ok inside) s ≡ (ok st, s')
      → st.failed ≡ 0
      → Stored s' (calls_of inside)
  unfolding migrate
  migrate-Stored inside s s' st apart h none_failed =
      let same : (walk store paths opts (calls_of inside) (no_stats, s)).0 ≡ st = cc in
      let store_same : (walk store paths opts (calls_of inside) (no_stats, s)).1 ≡ s' =
        ap (λ r. r.1) h in
      rw (← store_same)
        (walk-Stored (calls_of inside) no_stats s apart (ap (λ x. x.failed) same ∙ none_failed))
