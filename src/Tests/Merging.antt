-- ===== src/Tests/Merging.antt =====
-- The merge on sample data.
use corporate_actions.Prelude.{
  ◌≡◌, refl, ap, true, false, ◌||◌, none, some, List, [], ◌∷◌, ◌++◌, All,
}
use corporate_actions.Prelude.Int.{ℤ, pos}
use corporate_actions.Model.{number, Action}
use corporate_actions.Tests.Sample.{
  fixed_point, split_action, dividend_action, twin_action, actions,
}
use corporate_actions.Validate.Semantic.Groups.{no_twins}
use corporate_actions.Merge.{rounded_amount, Merge, RejectKey, is_empty, merge}
use corporate_actions.Merge.Sound.{
  all_new, IsAdmitted, merge-adds_new, merge-no_twins, merge-blocked_by_twins,
}
use corporate_actions.Merge.Again.{merge_again}
use corporate_actions.Merge.Run.{
  Settings, RejectFile, removed_list, no_file, holding, Run, load_reject_set, main,
}
use corporate_actions.Merge.Run.Written.{main_written}

abbrev fetched : List (Action ℤ)
fetched = split_action ∷ dividend_action ∷ twin_action ∷ []

-- the split is known, the dividend is added, and its twin is refused
abbrev merged : Merge fixed_point
merged = record {
  existing =
      record {
        isin = "US0378331005";
        kind = "DIVIDEND";
        date = "2021-02-05";
        ratio = "";
        amount = pos 2500;
      }
      ∷ record {
        isin = "US0378331005";
        kind = "SPLIT";
        date = "2020-08-31";
        ratio = "4:1";
        amount = pos 0;
      }
      ∷ [];
  working = actions;
  added = dividend_action ∷ [];
  rejected_removed = [];
  rejected_semantic = twin_action ∷ [];
}

merge-sample : merge fixed_point true (split_action ∷ []) fetched [] ≡ some merged
unfolding merge
merge-sample = refl

merge-adds_new_example :
    (actions ≡ split_action ∷ [] ++ dividend_action ∷ [])
    × (all_new fixed_point (split_action ∷ []) (dividend_action ∷ []) ≡ true)
    × All (IsAdmitted fixed_point []) (dividend_action ∷ [])
merge-adds_new_example =
    merge-adds_new fixed_point true [] (split_action ∷ []) fetched merged merge-sample

merge-no_twins_example : no_twins fixed_point (split_action ∷ [] ++ dividend_action ∷ []) ≡ true
unfolding merge
merge-no_twins_example =
    merge-no_twins fixed_point [] (split_action ∷ []) fetched merged merge-sample refl

abbrev twins : List (Action ℤ)
twins = dividend_action ∷ twin_action ∷ []

abbrev stuck : Merge fixed_point
stuck = record {
  existing =
      record {
        isin = "US0378331005";
        kind = "DIVIDEND";
        date = "2021-02-05";
        ratio = "";
        amount = pos 2500;
      }
      ∷ record {
        isin = "US0378331005";
        kind = "DIVIDEND";
        date = "2021-02-06";
        ratio = "";
        amount = pos 2500;
      }
      ∷ [];
  working = twins;
  added = [];
  rejected_removed = [];
  rejected_semantic = split_action ∷ [];
}

-- the split is unrelated to the twins, and is refused
merge-stuck : merge fixed_point true twins (split_action ∷ []) [] ≡ some stuck
unfolding merge
merge-stuck = refl

merge-blocked_by_twins_example : ◌≡◌ {A = List (Action ℤ)} [] []
unfolding merge
merge-blocked_by_twins_example =
    merge-blocked_by_twins fixed_point [] twins (split_action ∷ []) stuck merge-stuck refl

merge_again_example :
    (m' : Merge fixed_point) × (merge fixed_point true
        (split_action ∷ [] ++ dividend_action ∷ [])
        fetched
        []
      ≡ some m')
    × (m'.added ≡ [])
unfolding rounded_amount
merge_again_example =
    merge_again fixed_point true [] (split_action ∷ []) fetched merged (refl, (refl, (refl, tt)))
      merge-sample

abbrev settings : Settings
settings = record { strict = true; dry_run = false; have_semantic = true; can_write = true }

abbrev reject_file : RejectFile ℤ
reject_file = removed_list (
    none
    ∷ some (record {
      isin = some "US0378331005";
      action_type = some "SPECIAL_DIVIDEND";
      ex_date = some "2021-02-05";
      effective_date = none;
      amount = some (number (pos 2500));
    })
    ∷ [])

main_adds :
    main fixed_point settings (holding (split_action ∷ [])) (holding fetched) no_file
    ≡ record { code = 1; written = some (split_action ∷ dividend_action ∷ []) }
unfolding main
main_adds = refl

-- the removed event is not added again, under whatever type of its family
main_rejects :
    main fixed_point settings
      (holding (split_action ∷ []))
      (holding (dividend_action ∷ []))
      reject_file
    ≡ record { code = 1; written = none }
unfolding main
main_rejects = refl

main_written_example :
    (rejects : List (RejectKey fixed_point)) × (added : List (Action ℤ)) × (load_reject_set
        fixed_point no_file
      ≡ some rejects)
    × (split_action ∷ dividend_action ∷ [] ≡ split_action ∷ [] ++ added)
    × ((settings.dry_run || is_empty fixed_point added) ≡ false)
    × (all_new fixed_point (split_action ∷ []) added ≡ true)
    × All (IsAdmitted fixed_point rejects) added
main_written_example =
    main_written fixed_point settings (split_action ∷ []) fetched
      (split_action ∷ dividend_action ∷ []) no_file (ap (λ (r : Run ℤ). r.written) main_adds)
