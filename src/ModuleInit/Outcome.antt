-- ===== src/ModuleInit/Outcome.antt =====
-- `mtcaDummy_init_module` and `mtcaDummy_cleanup_module` as a whole.
use pciedummy_driver.Common.{
  Bool, ℕ, ◌≡◌, refl, ◌∙◌, inl, inr, true, false, Option, none, some, arith, ◌==◌, Bool-cases,
}
use pciedummy_driver.Kernel.{Ssize, size, error, eperm, Version}
use pciedummy_driver.ModuleInit.{
  Answers, Boot, zeroed, no_resources, setup_devices, remove_devices, mtca_dummy_init_module,
  mtca_dummy_cleanup_module, mtcadummy_create_proc, mtcadummy_remove_proc, class_destroy,
  unregister_chrdev_region, is_err, pure, ◌>>◌, finish_init,
}
use pciedummy_driver.ModuleInit.Balance.{
  Done, Done-bind, SetUp, SetUpTo, setup_devices_lem, remove_devices_lem,
}

-- The module has nothing.
pub record HasNothing (b : Boot) : Type 0 where
  pub chrdev_region : b.chrdev_region ≡ false
  pub dummy_class : b.dummy_class ≡ false
  pub proc_entry : b.proc_entry ≡ false
  pub resources : (k : ℕ) → b.resources k ≡ no_resources

-- The module has its resources and those of the seven devices, whether or not it has its proc file.
pub record HasAll (b : Boot) : Type 0 where
  pub chrdev_region : b.chrdev_region ≡ true
  pub dummy_class : b.dummy_class ≡ true
  pub resources : (k : ℕ) → SetUp 0 7 b k

-- By the result of the initialisation, and whether Linux created the proc file.
abbrev pub Balanced : Bool → Ssize → Boot → Type 0
Balanced proc_created (size n) b = (n ≡ 0) × HasAll b × (b.proc_entry ≡ proc_created)
Balanced proc_created (error e) b = (e ≡ eperm) × HasNothing b

-- The last two steps of a failed initialisation and of the clean-up.
give_back_module :
    (b : Boot)
    → b.chrdev_region ≡ true
    → b.dummy_class ≡ true
    → b.proc_entry ≡ false
    → ((k : ℕ) → b.resources k ≡ no_resources)
    → Done (λ _ c. HasNothing c) ((class_destroy >> unregister_chrdev_region) b)
unfolding class_destroy unregister_chrdev_region
give_back_module b region class proc rest = rw class (
    rw region
      (record { chrdev_region = refl; dummy_class = refl; proc_entry = proc; resources = rest }))

give_back_all :
    (proc_created : Bool) (b : Boot)
    → b.chrdev_region ≡ true
    → b.dummy_class ≡ true
    → b.proc_entry ≡ false
    → ((k : ℕ) → b.resources k ≡ no_resources)
    → Done
        (Balanced proc_created)
        ((do class_destroy; unregister_chrdev_region; pure (error eperm)) b)
unfolding class_destroy unregister_chrdev_region
give_back_all proc_created b region class proc rest = rw class (
    rw region (
      refl,
      record { chrdev_region = refl; dummy_class = refl; proc_entry = proc; resources = rest },
    ))

-- Unloading the module, from a state in which it has the region, the class and the resources of the
-- devices 0 to 6, with or without the proc file, gives back each of them once and leaves none.
pub mtca_dummy_cleanup_module-HasNothing :
    (b : Boot) → HasAll b → Done (λ _ c. HasNothing c) (mtca_dummy_cleanup_module b)
unfolding mtca_dummy_cleanup_module mtcadummy_remove_proc
mtca_dummy_cleanup_module-HasNothing b all =
    Done-bind (λ _ c. HasNothing c) (remove_devices 7 0 (record b { proc_entry = false }))
      (λ _. class_destroy >> unregister_chrdev_region)
      (remove_devices_lem 7 0 7 (record b { proc_entry = false }) refl all.resources)
      λ _ c (gone, same).
        give_back_module c (same.0 ∙ all.chrdev_region) (same.1 ∙ all.dummy_class) same.2 gone

module _ (v : Version) (answers : Answers) where
  -- The state in which the loop over the devices starts.
  abbrev started : Boot → Boot
  started b = record b { chrdev_region = true; dummy_class = true; devices = λ i. zeroed }

  finish_init-Balanced :
      (b : Boot)
      → HasNothing b
      → (stopped : Option ℕ) (c : Boot) → SetUpTo v answers 7 (started b) stopped c
      → Done (Balanced answers.proc_created) (finish_init v answers stopped c)
  unfolding finish_init mtcadummy_create_proc
  finish_init-Balanced b empty none c (up, same) =
      (refl, record { chrdev_region = same.0; dummy_class = same.1; resources = up }, refl)
  finish_init-Balanced b empty (some i) c (up, same) =
      Done-bind (Balanced answers.proc_created) (remove_devices i 0 c) _
        (remove_devices_lem i 0 i c (omega arith) up)
        λ _ d (gone, same').
          give_back_all answers.proc_created d (same'.0 ∙ same.0) (same'.1 ∙ same.1)
            (same'.2 ∙ same.2 ∙ empty.proc_entry) gone

  -- Whatever Linux answers, loading the module from a state in which it has nothing never gives
  -- back a resource that it does not have; it returns 0 with the region, the class and the memory,
  -- mutex and character device of exactly the devices 0 to 6, and with the proc file just if Linux
  -- created it, or -1 with no resource left.
  pub mtca_dummy_init_module-Balanced :
      (b : Boot)
      → HasNothing b
      → Done (Balanced answers.proc_created) (mtca_dummy_init_module v answers b)
  unfolding mtca_dummy_init_module unregister_chrdev_region
  mtca_dummy_init_module-Balanced b empty = elim (Bool-cases (answers.region_status == 0)) [
    | inr refused ↦ rw refused (refl, empty)
    | inl granted ↦ rw granted (elim (Bool-cases (is_err answers.class_ptr)) [
      | inl refused ↦ rw refused (
        refl,
        record {
          chrdev_region = refl;
          dummy_class = empty.dummy_class;
          proc_entry = empty.proc_entry;
          resources = empty.resources;
        },
      )
      | inr granted' ↦ rw granted' (
          Done-bind (Balanced answers.proc_created) (setup_devices v answers 7 0 (started b)) _
            (setup_devices_lem v answers 7 0 7 (started b) (omega arith)
              (λ k. ground (arith, empty.resources k)))
            (finish_init-Balanced b empty))
    ])
  ]
