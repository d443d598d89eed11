-- ===== src/Tests/Building.antt =====
-- Witnesses and tests of the build of the artifacts.
use corporate_actions.Prelude.{
  ◌≡◌, refl, ◌↔◌, ◌⊎◌, String, true, false, Option, none, some, List, [], ◌∷◌, All, ◌||◌,
}
use corporate_actions.Prelude.Int.{ℤ}
use corporate_actions.Prelude.Text.{codes}
use corporate_actions.Model.{Value, text, Action}
use corporate_actions.Build.{
  Object, scalar, object, plain, Top, actions, validate_actions_data, flatten_action, get,
  missing_field, dates_not_object, action_not_object,
}
use corporate_actions.Build.Flat.{is_flat, pairs, last_of, flatten_action-get}
use corporate_actions.Build.Sql.{Printer, columns, insert_line}
use corporate_actions.Build.Sql.Read.{read_insert, cells_of, insert_line-read}
use corporate_actions.Build.Run.{Disk, Output, make_directories, with_sidecar, main}
use corporate_actions.Build.Checked.{
  has_directory, IsOnDisk, DistinctPaths, check-zero_iff, build-check,
}
use corporate_actions.Tests.Sample.{dividend_action}

abbrev printer : Printer ℤ
printer = record { of_number = λ x. "0.25"; of_other = λ b. "[]" }

-- a status with a quote and a closing row in it
abbrev quoted_action : Action ℤ
quoted_action = record dividend_action { status = some "it's', 1); --" }

insert_line-read_example :
    read_insert (codes (insert_line printer quoted_action))
    ≡ some (cells_of printer (columns printer quoted_action))
insert_line-read_example = insert_line-read printer (λ x. refl) quoted_action

abbrev flat_fields : Object ℤ
flat_fields =
    ("isin", scalar (some (text "US0378331005")))
    ∷ ("dates", object (("ex_date", plain (some (text "2020-08-31"))) ∷ []))
    ∷ ("dates_ex_date", scalar none)
    ∷ []

flatten_action-get_example :
    ((is_flat flat_fields ≡ false) × (flatten_action flat_fields ≡ none))
    ⊎ ((is_flat flat_fields ≡ true)
        × (flat : List (String × Option (Value ℤ))) × (flatten_action flat_fields ≡ some flat)
        × ((key : String) → get key flat ≡ last_of key (pairs flat_fields)))
flatten_action-get_example = flatten_action-get flat_fields

-- a joined key is overwritten by a field of its name
flat_collision :
    flatten_action flat_fields
    ≡ some (("isin", some (text "US0378331005")) ∷ ("dates_ex_date", none) ∷ [])
unfolding flatten_action
flat_collision = refl

abbrev well_formed : Top ℤ
well_formed = actions (
    some (
      ("isin", scalar (some (text "US0378331005")))
      ∷ ("action_id", scalar (some (text "US0378331005-DELISTING-2020-01-02-DELISTED")))
      ∷ ("action_type", scalar (some (text "DELISTING")))
      ∷ (
        "dates",
        object (
            ("announcement", plain (some (text "2020-01-02")))
            ∷ ("effective_date", plain (some (text "2020-01-02")))
            ∷ []),
      )
      ∷ [])
    ∷ [])

well_formed_valid : validate_actions_data well_formed ≡ []
unfolding validate_actions_data
well_formed_valid = refl

abbrev rendered : List (String × String)
rendered = ("actions.dist.json", "{}\n") ∷ ("actions.csv", "isin\n") ∷ []

abbrev old_disk : Disk
old_disk = ("actions.csv", "old") ∷ []

abbrev sidecar : String × String
sidecar = ("actions.meta.json", "2020-01-02T00:00:00Z")

-- a directory that is missing, with its parent there, and writes that succeed
abbrev output : Output
output = record { out_dir = "/" ∷ "/out" ∷ []; can_make = λ d. true; flags = []; sidecar = sidecar }

output_made : (make_directories output.can_make output.out_dir ("/" ∷ [])).1 ≡ true
unfolding make_directories
output_made = refl

check-zero_iff_example :
    (((main true output well_formed (some rendered) old_disk ("/" ∷ [])).code ≡ 0)
      ↔ All (IsOnDisk old_disk) rendered)
    × ((main true output well_formed (some rendered) old_disk ("/" ∷ [])).disk ≡ old_disk)
    × ((d : String)
        → has_directory d
            (main true output well_formed (some rendered) old_disk ("/" ∷ [])).directories
          ≡ (has_directory d ("/" ∷ []) || has_directory d output.out_dir))
check-zero_iff_example =
    check-zero_iff output well_formed rendered old_disk ("/" ∷ []) well_formed_valid output_made

-- the check mode makes the directory
check_makes_directory :
    (main true output well_formed (some rendered) [] ("/" ∷ [])).directories ≡ "/out" ∷ "/" ∷ []
unfolding main
check_makes_directory = refl

rendered_distinct : DistinctPaths (with_sidecar rendered sidecar)
rendered_distinct = (refl, (refl, (refl, tt)))

built_once : (main false output well_formed (some rendered) old_disk ("/" ∷ [])).code ≡ 0
unfolding main
built_once = refl

build-check_example :
    (main true output well_formed
      (some rendered)
      (main false output well_formed (some rendered) old_disk ("/" ∷ [])).disk
      (main false output well_formed (some rendered) old_disk ("/" ∷ [])).directories).code
    ≡ 0
build-check_example =
    build-check output output well_formed rendered old_disk ("/" ∷ []) refl rendered_distinct
      built_once

-- the second write fails: one file is new and the other one is old
half_built :
    main false
      (record output { flags = true ∷ false ∷ [] })
      well_formed
      (some rendered)
      old_disk
      ("/" ∷ [])
    ≡ record {
      code = 2;
      disk = ("actions.csv", "old") ∷ ("actions.dist.json", "{}\n") ∷ [];
      directories = "/out" ∷ "/" ∷ [];
    }
unfolding main
half_built = refl

-- what the structural check says of an object without dates and of an element that is no object
broken_items :
    validate_actions_data {N = ℤ} (actions (some (("isin", scalar none) ∷ []) ∷ none ∷ []))
    ≡ missing_field 0 "action_id"
      ∷ missing_field 0 "action_type"
      ∷ missing_field 0 "dates"
      ∷ dates_not_object 0
      ∷ action_not_object 1
      ∷ []
unfolding validate_actions_data
broken_items = refl
