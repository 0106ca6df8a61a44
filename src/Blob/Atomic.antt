-- ===== src/Blob/Atomic.antt =====
-- A `Put` replaces a blob as a whole, or leaves it.
use shadraw.Base.{
  ℕ, String, ◌≡◌, ◌≢◌, refl, sym, ap, ◌∙◌, inl, inr, Bool, true, false, Option, none, some, List,
  Result, ok, err, str_eq, eq_iff, Bool-cases,
}
use shadraw.Blob.{
  Disk, write_file, Outcomes, step, cleaned, rel, abs, fill_temp, with_temp, put, found, get,
}

write_file-same :
    (path : String) (content : Option (List ℕ)) (disk : Disk)
    → write_file path content disk path ≡ content
write_file-same path content disk = rw ((eq_iff path path).1 refl) refl

write_file-other :
    (path other : String) (content : Option (List ℕ)) (disk : Disk)
    → other ≢ path
    → write_file path content disk other ≡ disk other
write_file-other path other content disk ne = elim (Bool-cases (str_eq other path)) [
  | inl e ↦ absurd (ne ((eq_iff other path).0 e))
  | inr e ↦ rw e refl
]

-- The files after a call: the target has the bytes where it succeeds, and else what it had; every
-- other file but the temporary one is as it was.
abbrev pub Replaces : String → String → List ℕ → Disk → Result String String × Disk → Type 0
Replaces tmp target bytes disk (ok _, disk') =
    (disk' target ≡ some bytes)
    × ((other : String) → other ≢ tmp → other ≢ target → disk' other ≡ disk other)
Replaces tmp target bytes disk (err _, disk') =
    (other : String) → other ≢ tmp → disk' other ≡ disk other

module _ (tmp target : String) (bytes : List ℕ) (disk : Disk) (apart : target ≢ tmp) where
  step-Replaces :
      (name : String) (failure : Option String) (here : Disk) (next : Result String String × Disk)
      → ((other : String) → other ≢ tmp → here other ≡ disk other)
      → Replaces tmp target bytes disk next
      → Replaces tmp target bytes disk (step name failure here next)
  step-Replaces name none here next same r = r
  step-Replaces name (some text) here next same r = same

  cleaned-Replaces :
      (removed : Bool) (out : Result String String × Disk)
      → Replaces tmp target bytes disk out
      → Replaces tmp target bytes disk (cleaned removed tmp out)
  cleaned-Replaces false (ok path, disk') r = r
  cleaned-Replaces false (err text, disk') r = r
  cleaned-Replaces true (ok path, disk') (stored, same) = (
    write_file-other tmp target none disk' apart ∙ stored,
    (λ other ne away. write_file-other tmp other none disk' ne ∙ same other ne away),
  )
  cleaned-Replaces true (err text, disk') same =
      λ other ne. write_file-other tmp other none disk' ne ∙ same other ne

module _ (join : List String → String) (root : String) where
  fill_temp-Replaces :
      (o : Outcomes) (tmp rel_path : String) (bytes : List ℕ) (disk : Disk)
      → abs join root rel_path ≢ tmp
      → Replaces tmp
          (abs join root rel_path)
          bytes
          disk
          (fill_temp join root o tmp rel_path bytes disk)
  unfolding fill_temp
  fill_temp-Replaces o tmp rel_path bytes disk apart =
      let target = abs join root rel_path in
      let full = write_file tmp (some bytes) disk in
      let in_temp : (content : Option (List ℕ)) (other : String)
          → other ≢ tmp
          → write_file tmp content disk other ≡ disk other =
        λ content other ne. write_file-other tmp other content disk ne in
      step-Replaces tmp target bytes disk apart "write" o.write _ _ (in_temp (some o.partial)) (
        step-Replaces tmp target bytes disk apart "sync" o.sync full _ (in_temp (some bytes)) (
          step-Replaces tmp target bytes disk apart "close" o.close full _ (in_temp (some bytes)) (
            step-Replaces tmp target bytes disk apart "rename" o.rename full _
              (in_temp (some bytes))
              (
                write_file-same target (some bytes) (write_file tmp none disk),
                (λ other ne away.
                    write_file-other target other (some bytes) (write_file tmp none disk) away
                    ∙ write_file-other tmp other none disk ne),
              ))))

  -- With a temporary file that is not the blob's: however the other calls of the system end, a `Put`
  -- that succeeds leaves the bytes in the blob's file, and one that fails leaves there what it held
  -- before; no other file changes but the temporary one.
  pub put-Replaces :
      (o : Outcomes) (bucket user_key file_key tmp : String) (bytes : List ℕ) (disk : Disk)
      → o.create_temp ≡ ok tmp
      → abs join root (rel join root bucket user_key file_key) ≢ tmp
      → Replaces tmp
          (abs join root (rel join root bucket user_key file_key))
          bytes
          disk
          (put join root o bucket user_key file_key bytes disk)
  unfolding put
  put-Replaces o bucket user_key file_key tmp bytes disk made apart =
      let rel_path = rel join root bucket user_key file_key in
      let target = abs join root rel_path in
      step-Replaces tmp target bytes disk apart "mkdir" o.mkdir_all disk _ (λ other ne. refl)
        (rw made (
          cleaned-Replaces tmp target bytes disk apart o.removed _
            (fill_temp-Replaces o tmp rel_path bytes disk apart)))

  step-ok :
      (name : String) (failure : Option String) (here : Disk) (next : Result String String × Disk)
      {path : String}
      → (step name failure here next).0 ≡ ok path
      → next.0 ≡ ok path
  step-ok name none here next h = h
  step-ok name (some text) here next h = cc

  cleaned-ok :
      (removed : Bool) (tmp : String) (out : Result String String × Disk) {path : String}
      → (cleaned removed tmp out).0 ≡ ok path
      → out.0 ≡ ok path
  cleaned-ok removed tmp (r, disk) h = h

  fill_temp-path :
      (o : Outcomes) (tmp rel_path : String) (bytes : List ℕ) (disk : Disk) (path : String)
      → (fill_temp join root o tmp rel_path bytes disk).0 ≡ ok path
      → path ≡ rel_path
  unfolding fill_temp
  fill_temp-path o tmp rel_path bytes disk path h =
      let done : ◌≡◌ {A = Result String String} (ok rel_path) (ok path) =
        step-ok "rename" o.rename _ _ (
          step-ok "close" o.close _ _
            (step-ok "sync" o.sync _ _ (step-ok "write" o.write _ _ h))) in
      cc

  Replaces-stored :
      (tmp target path : String) (bytes : List ℕ) (disk : Disk) (out : Result String String × Disk)
      → Replaces tmp target bytes disk out
      → out.0 ≡ ok path
      → out.1 target ≡ some bytes
  Replaces-stored tmp target path bytes disk (ok other, disk') (stored, _) h = stored
  Replaces-stored tmp target path bytes disk (err text, disk') r h = cc

  found-stored :
      (bytes : List ℕ) (content : Option (List ℕ))
      → content ≡ some bytes
      → found join root (λ b. b) none content ≡ ok bytes
  found-stored bytes content e = rw e refl

  -- What a `Put` with a temporary file that is not the blob's has stored is found at the path that
  -- it returned.
  pub put-get :
      (o : Outcomes) (bucket user_key file_key tmp path : String) (bytes : List ℕ)
      (disk disk' : Disk)
      → o.create_temp ≡ ok tmp
      → abs join root (rel join root bucket user_key file_key) ≢ tmp
      → put join root o bucket user_key file_key bytes disk ≡ (ok path, disk')
      → get join root none path disk' ≡ ok bytes
  unfolding put get
  put-get o bucket user_key file_key tmp path bytes disk disk' made apart h =
      let rel_path = rel join root bucket user_key file_key in
      let out = put join root o bucket user_key file_key bytes disk in
      let stored : out.1 (abs join root rel_path) ≡ some bytes =
        Replaces-stored tmp (abs join root rel_path) path bytes disk out
          (put-Replaces o bucket user_key file_key tmp bytes disk made apart) (ap (λ r. r.0) h) in
      let after_mkdir =
        step-ok "mkdir" o.mkdir_all disk (with_temp join root o o.create_temp rel_path bytes disk)
          (ap (λ r. r.0) h) in
      let here : path ≡ rel_path = fill_temp-path o tmp rel_path bytes disk path (
        cleaned-ok o.removed tmp (fill_temp join root o tmp rel_path bytes disk)
          (rw made at after_mkdir)) in
      found-stored bytes (disk' (abs join root path)) (
        ap (λ p. disk' (abs join root p)) here
        ∙ ap (λ r. r.1 (abs join root rel_path)) (sym h)
        ∙ stored)
