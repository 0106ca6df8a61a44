-- ===== src/Blob/Tests.antt =====
-- A disk in memory, with files under data.
use shadraw.Base.{
  ◌≡◌, ◌≢◌, refl, String, true, false, none, some, List, [], ◌∷◌, ok, err, str_eq, eq_iff,
}
use shadraw.Blob.{
  Disk, write_file, Outcomes, fill_temp, not_found, rel, abs, put, get, stat, map_s3_error,
  with_code, system,
}
use shadraw.Blob.Atomic.{Replaces, put-Replaces, put-get}

-- Two or three parts.
abbrev join : List String → String
join (root ∷ last ∷ []) = last
join (bucket ∷ user ∷ last ∷ []) = last
join _ = ""

abbrev before : Disk
before =
    write_file "old.png" (some (9 ∷ [])) (write_file "other.png" (some (5 ∷ [])) (λ path. none))

-- Every call succeeds, but the removal, since the temporary file was renamed.
abbrev fine : Outcomes
fine = record {
  mkdir_all = none;
  create_temp = ok ".put-1.tmp";
  write = none;
  partial = [];
  sync = none;
  close = none;
  rename = none;
  removed = false;
}

abbrev full : Outcomes
full = record {
  mkdir_all = none;
  create_temp = ok ".put-1.tmp";
  write = some "no space left on device";
  partial = 1 ∷ [];
  sync = none;
  close = none;
  rename = none;
  removed = true;
}

abbrev after : Disk
after = (put join "data" fine "images" "user-7" "old.png" (1 ∷ 2 ∷ []) before).1

test_replaced :
    get join "data" none "old.png" after ≡ ok (1 ∷ 2 ∷ [])
    × stat join "data" none "old.png" after ≡ ok 2
    × get join "data" none "new.png" after ≡ err not_found
    × after ".put-1.tmp" ≡ none
unfolding put fill_temp get stat
test_replaced = (refl, refl, refl, refl)

test_full :
    (put join "data" full "images" "user-7" "old.png" (1 ∷ 2 ∷ []) before).0
    ≡ err "write: no space left on device"
unfolding put fill_temp
test_full = refl

test_codes :
    map_s3_error (with_code "404" "no such file") ≡ not_found
    × map_s3_error (with_code "AccessDenied" "denied") ≡ system "denied"
unfolding map_s3_error
test_codes = (refl, refl)

different : str_eq "old.png" ".put-1.tmp" ≡ false
different = refl

old_apart : abs join "data" (rel join "data" "images" "user-7" "old.png") ≢ ".put-1.tmp"
old_apart e = absurd (cc (different, (eq_iff "old.png" ".put-1.tmp").1 e))

put-Replaces_example :
    Replaces ".put-1.tmp" "old.png"
      (1 ∷ 2 ∷ [])
      before
      (put join "data" full "images" "user-7" "old.png" (1 ∷ 2 ∷ []) before)
put-Replaces_example =
    put-Replaces join "data" full "images" "user-7" "old.png" ".put-1.tmp" (1 ∷ 2 ∷ []) before refl
      old_apart

put_old :
    put join "data" fine "images" "user-7" "old.png" (1 ∷ 2 ∷ []) before ≡ (ok "old.png", after)
unfolding put fill_temp
put_old = refl

put-get_example : get join "data" none "old.png" after ≡ ok (1 ∷ 2 ∷ [])
put-get_example =
    put-get join "data" fine "images" "user-7" "old.png" ".put-1.tmp" "old.png" (1 ∷ 2 ∷ []) before
      after refl old_apart put_old
