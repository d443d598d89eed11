-- ===== src/Merge/Run/Written.antt =====
-- What a run of the merge writes.
use corporate_actions.Prelude.{
  ◌≡◌, sym, true, false, ◌||◌, some, List, ◌++◌, All, Bool-cases, Option-cases, inl, inr, some_inj,
  none≢some,
}
use corporate_actions.Floats.{Floats}
use corporate_actions.Model.{Action}
use corporate_actions.Merge.{RejectKey, Merge, is_empty, merge}
use corporate_actions.Merge.Sound.{all_new, IsAdmitted, merge-adds_new}
use corporate_actions.Merge.Run.{
  RejectFile, holding, Settings, load_reject_set, finish, run_loaded, main,
}

module _ (F : Floats) where
  open F use {Num}

  finish-written :
      (s : Settings) (current out : List (Action Num)) (m : Merge F)
      → (finish F s current m).written ≡ some out
      → (out ≡ current ++ m.added) × ((s.dry_run || is_empty F m.added) ≡ false)
  unfolding finish
  finish-written s current out m h = elim (Bool-cases (s.dry_run || is_empty F m.added)) [
    | inl e ↦ absurd (none≢some (rw (e, finish) at h))
    | inr e ↦ elim (Bool-cases s.can_write) [
      | inl w ↦ (sym (some_inj (rw w at (rw (e, finish) at h))), e)
      | inr w ↦ absurd (none≢some (rw w at (rw (e, finish) at h)))
    ]
  ]

  run_loaded-written :
      (s : Settings) (current fetched out : List (Action Num)) (removed : RejectFile Num)
      → (run_loaded F s current fetched removed).written ≡ some out
      → (rejects : List (RejectKey F)) × (added : List (Action Num)) × (load_reject_set F removed
          ≡ some rejects)
        × (out ≡ current ++ added)
        × ((s.dry_run || is_empty F added) ≡ false)
        × (all_new F current added ≡ true)
        × All (IsAdmitted F rejects) added
  unfolding run_loaded
  run_loaded-written s current fetched out removed h =
      elim (Option-cases (load_reject_set F removed)) [
        | inl e ↦ absurd (none≢some (rw (e, run_loaded) at h))
        | inr (rejects, e) ↦ elim (Option-cases (merge F s.have_semantic current fetched rejects)) [
          | inl k ↦ absurd (none≢some (rw (k, run_loaded) at (rw (e, run_loaded) at h)))
          | inr (m, k) ↦
              let (same, wrote) =
                finish-written s current out m (rw (k, run_loaded) at (rw (e, run_loaded) at h)) in
              let (grows, fresh, admitted) =
                merge-adds_new F s.have_semantic rejects current fetched m k in
              (rejects, m.added, e, same, wrote, fresh, admitted)
        ]
      ]

  -- Whatever a run on two lists writes is the current list with some actions behind it. The run is
  -- no dry run, the reject list was read, and each added action differs in its key from the current
  -- ones and from those added before it, and is no event of the reject list.
  pub main_written :
      (s : Settings) (current fetched out : List (Action Num)) (removed : RejectFile Num)
      → (main F s (holding current) (holding fetched) removed).written ≡ some out
      → (rejects : List (RejectKey F)) × (added : List (Action Num)) × (load_reject_set F removed
          ≡ some rejects)
        × (out ≡ current ++ added)
        × ((s.dry_run || is_empty F added) ≡ false)
        × (all_new F current added ≡ true)
        × All (IsAdmitted F rejects) added
  unfolding main
  main_written = run_loaded-written
