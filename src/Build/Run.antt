-- ===== src/Build/Run.antt =====
-- `main` of tools/build.py, once the data is loaded: the disk is a dictionary from paths to texts,
-- and a list of directories.
use corporate_actions.Prelude.{
  ℕ, String, Bool, true, false, Option, none, some, List, [], ◌∷◌, ◌==◌, if◌then◌else◌, any,
}
use corporate_actions.Build.{Top, BuildError, validate_actions_data, get, put}

abbrev pub Disk : Type 0
Disk = List (String × String)

-- the entries of the list `drift`
pub data Drift : Type 0 where
  missing stale : String → Drift

-- what the phases do: the exit code, and the disk after them
pub record Run : Type 0 where
  pub code : ℕ
  pub disk : Disk

-- the comparison of the rendered texts with the disk
unfoldable pub drift : List (String × String) → Disk → List Drift
drift [] disk = []
drift ((path, expected) ∷ rest) disk =
    let others = drift rest disk in
    elim (get path disk) [
      | none ↦ missing path ∷ others
      | some found ↦ if found == expected then others else stale path ∷ others
    ]

abbrev pub exit_of_drift : List Drift → ℕ
exit_of_drift [] = 0
exit_of_drift (d ∷ ds) = 1

-- The writes, one after the other; a write whose flag is false raises OSError and leaves its file
-- as it is. The writes that no flag is left for succeed.
unfoldable pub write_all : List Bool → List (String × String) → Disk → Run
write_all flags [] disk = record { code = 0; disk = disk }
write_all [] ((path, payload) ∷ rest) disk = write_all [] rest (put path payload disk)
write_all (true ∷ flags) ((path, payload) ∷ rest) disk =
    write_all flags rest (put path payload disk)
write_all (false ∷ flags) (p ∷ rest) disk = record { code = 2; disk = disk }

abbrev pub with_sidecar : List (String × String) → String × String → List (String × String)
with_sidecar [] sidecar = sidecar ∷ []
with_sidecar (p ∷ rest) sidecar = p ∷ with_sidecar rest sidecar

-- the four texts with their paths (`none` where a rendering raised), and the file with the time of
-- the build
unfoldable pub run_rendered :
    Bool → List Bool → Option (List (String × String)) → String × String → Disk → Run
unfolding drift write_all
run_rendered check flags none sidecar disk = record { code = 2; disk = disk }
run_rendered true flags (some payloads) sidecar disk = record {
  code = exit_of_drift (drift payloads disk);
  disk = disk;
}
run_rendered false flags (some payloads) sidecar disk =
    write_all flags (with_sidecar payloads sidecar) disk

-- what a run does: its exit code (1 for a traceback), and the files and directories after it
pub record Built : Type 0 where
  pub code : ℕ
  pub disk : Disk
  pub directories : List String

-- `out_dir.mkdir(parents=True, exist_ok=True)`: the directories of the path, the outermost first,
-- are made where they are missing; `can_make` tells that making one raises no OSError, and the flag
-- of the result that none did.
unfoldable pub make_directories : (String → Bool) → List String → List String → List String × Bool
make_directories can_make [] dirs = (dirs, true)
make_directories can_make (d ∷ rest) dirs = elim (any (λ x. x == d) dirs) [
  | true ↦ make_directories can_make rest dirs
  | false ↦ elim (can_make d) [
    | true ↦ make_directories can_make rest (d ∷ dirs)
    | false ↦ (dirs, false)
  ]
]

-- an OSError of the directories is not caught
abbrev pub if_made : List String × Bool → Disk → Run → Built
if_made (dirs, true) disk run = record { code = run.code; disk = run.disk; directories = dirs }
if_made (dirs, false) disk run = record { code = 1; disk = disk; directories = dirs }

-- an error of the structural check ends the run
abbrev pub if_valid : List BuildError → Disk → List String → Built → Built
if_valid [] disk dirs run = run
if_valid (e ∷ errors) disk dirs run = record { code = 1; disk = disk; directories = dirs }

-- the output directory, what the system lets a run make and write, and where it writes
pub record Output : Type 0 where
  pub out_dir : List String
  pub can_make : String → Bool
  pub flags : List Bool
  pub sidecar : String × String

module _ {N : Type 0} where
  unfoldable pub main :
      Bool → Output → Top N → Option (List (String × String)) → Disk → List String → Built
  unfolding validate_actions_data make_directories run_rendered
  main check output loaded payloads disk dirs = if_valid (validate_actions_data loaded) disk dirs (
      if_made (make_directories output.can_make output.out_dir dirs) disk
        (run_rendered check output.flags payloads output.sidecar disk))
