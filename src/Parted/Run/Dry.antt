-- ===== src/Parted/Run/Dry.antt =====
-- The commands of a run that may change the disk.
use freeipa_cloud_prov.Prelude.{
  ◌≡◌, ◌⊎◌, refl, sym, subst, true, List, [], ◌∷◌, ◌++◌, arith, inl, inr,
}
use freeipa_cloud_prov.Prelude.Texts.{Text}
use freeipa_cloud_prov.Exec.Preserves.{
  Preserves, Preserves-same, Preserves-lift, Preserves-pure, Preserves-if, Preserves-bind,
}
use freeipa_cloud_prov.Parted.Info.{DeviceInfo, Partition}
use freeipa_cloud_prov.Parted.Machine.{
  Step, Command, version, print_label, print_unit, script, System, run_command, parted_version,
  check_parted_label, get_unlabeled_device_info, info_of, get_device_info, parted,
}
use freeipa_cloud_prov.Parted.Run.{
  Wanted, present, absent, info, Params, run_first, flags_there, steps_of_partition, present_branch,
  absent_branch, branch, check_params, main,
}

-- The commands that run a script; all others print.
abbrev pub scripts : List Command → List Command
scripts [] = []
scripts (version ∷ cs) = scripts cs
scripts (print_label device ∷ cs) = scripts cs
scripts (print_unit device unit ∷ cs) = scripts cs
scripts (script align device steps ∷ cs) = script align device steps ∷ scripts cs

abbrev pub NoScript : List Command → Type 0
NoScript commands = scripts commands ≡ []

scripts-append : (cs ds : List Command) → scripts (cs ++ ds) ≡ scripts cs ++ scripts ds
scripts-append [] ds = refl
scripts-append (version ∷ cs) ds = scripts-append cs ds
scripts-append (print_label device ∷ cs) ds = scripts-append cs ds
scripts-append (print_unit device unit ∷ cs) ds = scripts-append cs ds
scripts-append (script align device steps ∷ cs) ds = ground (arith, scripts-append cs ds)

module _ (sys : System) where
  run_command-Preserves : (c : Command) → NoScript (c ∷ []) → Preserves NoScript (run_command sys c)
  unfolding run_command
  run_command-Preserves c quiet = record {
    after = λ commands h. ground (arith, scripts-append commands (c ∷ []));
  }

  parted_version-Preserves : Preserves NoScript (parted_version sys)
  unfolding parted_version
  parted_version-Preserves =
      Preserves-bind (run_command-Preserves version refl)
        (λ output. Preserves-if output.succeeds (Preserves-same _) (Preserves-same _))

  check_parted_label-Preserves :
      (device : Text) → Preserves NoScript (check_parted_label sys device)
  unfolding check_parted_label
  check_parted_label-Preserves device = Preserves-bind parted_version-Preserves (λ v.
      Preserves-if _ (Preserves-pure _) (
        Preserves-bind (run_command-Preserves (print_label device) refl)
          (λ output. Preserves-pure _)))

  get_unlabeled_device_info_same :
      (device unit : Text) (commands : List Command)
      → (get_unlabeled_device_info sys device unit commands).1 ≡ commands
  unfolding get_unlabeled_device_info
  get_unlabeled_device_info_same device unit commands = ground arith

  get_unlabeled_device_info-Preserves :
      (device unit : Text) → Preserves NoScript (get_unlabeled_device_info sys device unit)
  get_unlabeled_device_info-Preserves device unit = record {
    after = λ commands h. rw (get_unlabeled_device_info_same device unit commands) h;
  }

  get_device_info-Preserves :
      (device unit : Text) → Preserves NoScript (get_device_info sys device unit)
  unfolding get_device_info
  get_device_info-Preserves device unit =
      Preserves-bind (check_parted_label-Preserves device) (λ needed.
        Preserves-if needed (get_unlabeled_device_info-Preserves device unit) (
          Preserves-bind (run_command-Preserves (print_unit device unit) refl)
            (λ output. Preserves-lift (info_of sys output unit))))

  parted-Preserves :
      (steps : List Step) (device align : Text)
      → Preserves NoScript (parted sys true steps device align)
  unfolding parted
  parted-Preserves [] device align = Preserves-pure tt
  parted-Preserves (s ∷ steps) device align = Preserves-pure tt

module _ (sys : System) (p : Params) (dry : p.check_mode ≡ true) where
  parted_dry :
      (steps : List Step) → Preserves NoScript (parted sys p.check_mode steps p.device p.align)
  parted_dry steps = rw dry (parted-Preserves sys steps p.device p.align)

  run_first-Preserves :
      (steps : List Step) (parts : List Partition)
      → Preserves NoScript (run_first sys p steps parts)
  unfolding run_first
  run_first-Preserves steps parts = Preserves-if _ (Preserves-pure parts) (
      Preserves-bind (parted_dry steps) (λ _.
        Preserves-bind (get_device_info-Preserves sys p.device p.unit_)
          (λ device. Preserves-pure device.partitions)))

  steps_of_partition-Preserves :
      (parts : List Partition) → Preserves NoScript (steps_of_partition sys p parts)
  unfolding steps_of_partition flags_there
  steps_of_partition-Preserves parts = record { after = λ commands h. ground arith }

  branch-Preserves : (w : Wanted) (device : DeviceInfo) → Preserves NoScript (branch sys p w device)
  unfolding present_branch absent_branch
  branch-Preserves present device =
      Preserves-bind (run_first-Preserves _ device.partitions) (λ parts.
        Preserves-bind (steps_of_partition-Preserves parts)
          (λ second. Preserves-bind (parted_dry second) (λ _. Preserves-pure _)))
  branch-Preserves absent device =
      Preserves-if _ (Preserves-bind (parted_dry _) (λ _. Preserves-pure _)) (Preserves-pure _)
  branch-Preserves info device = Preserves-pure _

module _ (sys : System) (p : Params) where
  check_params-Preserves : Preserves NoScript (check_params sys p)
  unfolding check_params
  check_params-Preserves = record { after = λ commands h. ground arith }

  main-Preserves :
      ((device : DeviceInfo) → Preserves NoScript (branch sys p p.state device))
      → NoScript ((main sys p []).1)
  unfolding main
  main-Preserves quiet =
      (Preserves-bind check_params-Preserves (λ _.
          Preserves-bind (get_device_info-Preserves sys p.device p.unit_) (λ device.
            Preserves-bind (quiet device) (λ done.
              Preserves-bind (get_device_info-Preserves sys p.device p.unit_)
                (λ final. Preserves-pure _))))).after
        [] refl

  -- In check mode, and for the state `info`, no script is run, whether the run succeeds or not.
  pub main_quiet : (p.check_mode ≡ true) ⊎ (p.state ≡ info) → NoScript ((main sys p []).1)
  main_quiet (inl dry) = main-Preserves (branch-Preserves sys p dry p.state)
  main_quiet (inr asks) = main-Preserves (λ device.
      subst (λ w. Preserves NoScript (branch sys p w device)) (sym asks) (Preserves-pure _))
