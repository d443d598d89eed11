-- ===== src/Build/Checked.antt =====
-- What a build leaves on the disk, and what its check mode finds there.
use corporate_actions.Prelude.{
  ◌≡◌, refl, ◌∙◌, ◌↔◌, String, Bool, true, false, some, List, [], ◌∷◌, All, ◌==◌, eq_iff, arith,
  Option-cases, inl, inr, Bool-cases, any, ap, ◌||◌,
}
use corporate_actions.Build.{Top, BuildError, validate_actions_data, get, put, has_key}
use corporate_actions.Build.Run.{
  Disk, Run, Built, Output, drift, exit_of_drift, write_all, with_sidecar, run_rendered,
  make_directories, if_made, if_valid, main,
}

-- the disk holds a text under its path
abbrev pub IsOnDisk : Disk → String × String → Type 0
IsOnDisk disk p = get p.0 disk ≡ some p.1

exit_of_drift-zero_iff :
    (payloads : List (String × String)) (disk : Disk)
    → (exit_of_drift (drift payloads disk) ≡ 0) ↔ All (IsOnDisk disk) payloads
unfolding drift
exit_of_drift-zero_iff [] disk = ground arith
exit_of_drift-zero_iff ((path, expected) ∷ rest) disk = elim (Option-cases (get path disk)) [
  | inl e ↦ rw e (ground (arith, e))
  | inr (found, e) ↦ rw e (ground (arith, exit_of_drift-zero_iff rest disk, eq_iff found expected))
]

get-put_same : (key v : String) (d : Disk) → get key (put key v d) ≡ some v
get-put_same key v [] = ground (arith, eq_iff key key)
get-put_same key v ((k, w) ∷ rest) = ground (arith, get-put_same key v rest, eq_iff k key)

get-put_other : (key j v : String) (d : Disk) → (j == key) ≡ false → get key (put j v d) ≡ get key d
get-put_other key j v [] h = ground (arith, h)
get-put_other key j v ((k, w) ∷ rest) h =
    ground (arith, h, get-put_other key j v rest, eq_iff k j, eq_iff k key, eq_iff j key)

-- no path stands twice
abbrev pub DistinctPaths : List (String × String) → Type 0
DistinctPaths [] = Unit
DistinctPaths (p ∷ rest) = (has_key p.0 rest ≡ false) × DistinctPaths rest

write_all-get :
    (flags : List Bool) (path : String) (payloads : List (String × String)) (disk : Disk)
    → has_key path payloads ≡ false
    → get path (write_all flags payloads disk).disk ≡ get path disk
unfolding write_all
write_all-get flags path [] disk h = refl
write_all-get [] path ((j, v) ∷ rest) disk h =
    write_all-get [] path rest (put j v disk) (ground (arith, h))
    ∙ get-put_other path j v disk (ground (arith, h))
write_all-get (true ∷ flags) path ((j, v) ∷ rest) disk h =
    write_all-get flags path rest (put j v disk) (ground (arith, h))
    ∙ get-put_other path j v disk (ground (arith, h))
write_all-get (false ∷ flags) path ((j, v) ∷ rest) disk h = refl

write_all-IsOnDisk :
    (flags : List Bool) (payloads : List (String × String)) (disk : Disk)
    → DistinctPaths payloads
    → (write_all flags payloads disk).code ≡ 0
    → All (IsOnDisk (write_all flags payloads disk).disk) payloads
unfolding write_all
write_all-IsOnDisk flags [] disk d h = tt
write_all-IsOnDisk [] ((path, v) ∷ rest) disk d h = (
  write_all-get [] path rest (put path v disk) d.0 ∙ get-put_same path v disk,
  write_all-IsOnDisk [] rest (put path v disk) d.1 h,
)
write_all-IsOnDisk (true ∷ flags) ((path, v) ∷ rest) disk d h = (
  write_all-get flags path rest (put path v disk) d.0 ∙ get-put_same path v disk,
  write_all-IsOnDisk flags rest (put path v disk) d.1 h,
)
write_all-IsOnDisk (false ∷ flags) (p ∷ rest) disk d h = absurd (ground (arith, h))

with_sidecar-All :
    (P : String × String → Type 0) (payloads : List (String × String)) (sidecar : String × String)
    → All P (with_sidecar payloads sidecar)
    → All P payloads
with_sidecar-All P [] sidecar h = tt
with_sidecar-All P (p ∷ rest) sidecar h = (h.0, with_sidecar-All P rest sidecar h.1)

if_valid-zero :
    (errors : List BuildError) (disk : Disk) (dirs : List String) (run : Built)
    → (if_valid errors disk dirs run).code ≡ 0
    → errors ≡ []
if_valid-zero [] disk dirs run h = refl
if_valid-zero (e ∷ errors) disk dirs run h = absurd (ground (arith, h))

if_made-zero :
    (made : List String × Bool) (disk : Disk) (run : Run)
    → (if_made made disk run).code ≡ 0
    → (made.1 ≡ true)
      × (if_made made disk run ≡ record { code = run.code; disk = run.disk; directories = made.0 })
if_made-zero (dirs, true) disk run h = (refl, refl)
if_made-zero (dirs, false) disk run h = absurd (ground (arith, h))

if_made-true :
    (made : List String × Bool) (disk : Disk) (run : Run)
    → made.1 ≡ true
    → if_made made disk run ≡ record { code = run.code; disk = run.disk; directories = made.0 }
if_made-true (dirs, true) disk run h = refl
if_made-true (dirs, false) disk run h = absurd (ground (arith, h))

-- the list holds the directory
abbrev pub has_directory : String → List String → Bool
has_directory d dirs = any (λ x. x == d) dirs

-- What is made is what was missing of the path.
make_directories-has :
    (can_make : String → Bool) (path dirs : List String) (d : String)
    → (make_directories can_make path dirs).1 ≡ true
    → has_directory d (make_directories can_make path dirs).0
      ≡ (has_directory d dirs || has_directory d path)
unfolding make_directories
make_directories-has can_make [] dirs d h = ground arith
make_directories-has can_make (p ∷ rest) dirs d h = elim (Bool-cases (has_directory p dirs)) [
  | inl e ↦ ground (arith, e, eq_iff p d, make_directories-has can_make rest dirs d)
  | inr e ↦ elim (Bool-cases (can_make p)) [
    | inl c ↦ ground (arith, e, c, make_directories-has can_make rest (p ∷ dirs) d)
    | inr c ↦ ground (arith, e, c)
  ]
]

-- Where all directories of the path are there, none is made.
make_directories-there :
    (can_make : String → Bool) (path dirs : List String)
    → ((d : String) → has_directory d path ≡ true → has_directory d dirs ≡ true)
    → make_directories can_make path dirs ≡ (dirs, true)
unfolding make_directories
make_directories-there can_make [] dirs h = refl
make_directories-there can_make (p ∷ rest) dirs h =
    let there : has_directory p dirs ≡ true = h p (ground (arith, eq_iff p p)) in
    let others : make_directories can_make rest dirs ≡ (dirs, true) =
      make_directories-there can_make rest dirs (λ d k. h d (ground (arith, k))) in
    ground (arith, there, others)

make_directories-again :
    (can_make can_make' : String → Bool) (path dirs : List String)
    → (make_directories can_make path dirs).1 ≡ true
    → make_directories can_make' path (make_directories can_make path dirs).0
      ≡ ((make_directories can_make path dirs).0, true)
make_directories-again can_make can_make' path dirs h =
    make_directories-there can_make' path (make_directories can_make path dirs).0
      (λ d k. ground (arith, k, make_directories-has can_make path dirs d h))

module _ {N : Type 0} where
  -- Data that passes the structural check, whose directories can be made.
  main-checked :
      (check : Bool) (output : Output) (loaded : Top N) (payloads : List (String × String))
      (disk : Disk) (dirs : List String)
      → validate_actions_data loaded ≡ []
      → (make_directories output.can_make output.out_dir dirs).1 ≡ true
      → main check output loaded (some payloads) disk dirs ≡ record {
        code = (run_rendered check output.flags (some payloads) output.sidecar disk).code;
        disk = (run_rendered check output.flags (some payloads) output.sidecar disk).disk;
        directories = (make_directories output.can_make output.out_dir dirs).0;
      }
  unfolding main
  main-checked check output loaded payloads disk dirs h m =
      rw (h, main)
        (if_made-true (make_directories output.can_make output.out_dir dirs) disk
          (run_rendered check output.flags (some payloads) output.sidecar disk) m)

  -- The check mode, on data that passes the structural check and renders, and where the output
  -- directory is there or can be made: it exits with 0 exactly when the disk holds every rendered
  -- text; it leaves every file as it is; and the directories after it are those before it and those
  -- of the path of the output directory, which it makes where they are missing.
  pub check-zero_iff :
      (output : Output) (loaded : Top N) (payloads : List (String × String)) (disk : Disk)
      (dirs : List String)
      → validate_actions_data loaded ≡ []
      → (make_directories output.can_make output.out_dir dirs).1 ≡ true
      → (((main true output loaded (some payloads) disk dirs).code ≡ 0)
          ↔ All (IsOnDisk disk) payloads)
        × ((main true output loaded (some payloads) disk dirs).disk ≡ disk)
        × ((d : String)
            → has_directory d (main true output loaded (some payloads) disk dirs).directories
              ≡ (has_directory d dirs || has_directory d output.out_dir))
  unfolding run_rendered
  check-zero_iff output loaded payloads disk dirs h m =
      rw (main-checked true output loaded payloads disk dirs h m) (
        exit_of_drift-zero_iff payloads disk,
        refl,
        λ d. make_directories-has output.can_make output.out_dir dirs d m,
      )

  main-made :
      (check : Bool) (output : Output) (loaded : Top N) (payloads : List (String × String))
      (disk : Disk) (dirs : List String)
      → (main check output loaded (some payloads) disk dirs).code ≡ 0
      → (validate_actions_data loaded ≡ [])
        × ((make_directories output.can_make output.out_dir dirs).1 ≡ true)
  unfolding main
  main-made check output loaded payloads disk dirs h =
      let made = make_directories output.can_make output.out_dir dirs in
      let run = run_rendered check output.flags (some payloads) output.sidecar disk in
      let valid =
        if_valid-zero (validate_actions_data loaded) disk dirs (if_made made disk run) h in
      (valid, (if_made-zero made disk run (rw (valid, main) at h)).0)

  -- After a build that exits with 0, whose paths are distinct, the check mode exits with 0 on the
  -- same data and output directory, whatever the disk was before and whatever a later run may make
  -- and write.
  pub build-check :
      (output output' : Output) (loaded : Top N) (payloads : List (String × String)) (disk : Disk)
      (dirs : List String)
      → output'.out_dir ≡ output.out_dir
      → DistinctPaths (with_sidecar payloads output.sidecar)
      → (main false output loaded (some payloads) disk dirs).code ≡ 0
      → (main true output' loaded
          (some payloads)
          (main false output loaded (some payloads) disk dirs).disk
          (main false output loaded (some payloads) disk dirs).directories).code
        ≡ 0
  unfolding run_rendered
  build-check output output' loaded payloads disk dirs o d h =
      let files = with_sidecar payloads output.sidecar in
      let (valid, made) = main-made false output loaded payloads disk dirs h in
      let ran = main-checked false output loaded payloads disk dirs valid made in
      let done : (write_all output.flags files disk).code ≡ 0 = rw ran at h in
      let after = (make_directories output.can_make output.out_dir dirs).0 in
      let again : (make_directories output'.can_make output'.out_dir after).1 ≡ true = rw o (
        ap (λ (r : List String × Bool). r.1)
          (make_directories-again output.can_make output'.can_make output.out_dir dirs made)) in
      let there =
        with_sidecar-All (IsOnDisk (write_all output.flags files disk).disk) payloads output.sidecar
          (write_all-IsOnDisk output.flags files disk d done) in
      rw ran (
        ap (λ (b : Built). b.code)
          (main-checked true output' loaded payloads (write_all output.flags files disk).disk after
            valid again)
        ∙ (exit_of_drift-zero_iff payloads (write_all output.flags files disk).disk).1 there)
