-- ===== src/Examples/Startup.antt =====
-- Loading and unloading the module where every call into Linux succeeds.
use pciedummy_driver.Common.{◌≡◌, refl, true, false, arith, ltb, if◌then◌else◌}
use pciedummy_driver.Kernel.{size}
use pciedummy_driver.ModuleInit.Start.{IsGranted, Fresh, mtca_dummy_init_module-Fresh}
use pciedummy_driver.ModuleInit.{
  Answers, Boot, valid, no_resources, zeroed, mtca_dummy_init_module, mtca_dummy_cleanup_module,
}
use pciedummy_driver.ModuleInit.Balance.{Done}
use pciedummy_driver.ModuleInit.Outcome.{
  HasNothing, HasAll, Balanced, mtca_dummy_init_module-Balanced,
  mtca_dummy_cleanup_module-HasNothing,
}
use pciedummy_driver.Examples.{machine}

abbrev willing : Answers
willing = record {
  region_status = 0;
  region_major = 240;
  class_ptr = valid;
  system_ptr = λ i. valid;
  dma_ptr = λ i. valid;
  cdev_status = λ i. 0;
  node_ptr = λ i. valid;
  proc_created = false;
}

abbrev unloaded : Boot
unloaded = record {
  chrdev_region = false;
  dummy_class = false;
  proc_entry = false;
  resources = λ i. no_resources;
  devices = λ i. zeroed;
}

abbrev loaded : Boot
loaded = record {
  chrdev_region = true;
  dummy_class = true;
  proc_entry = true;
  resources = λ i.
      if ltb i 7
      then record { system_mem = true; dma_mem = true; mutex = true; cdev = true; node = true }
      else no_resources;
  devices = λ i. zeroed;
}

loaded-HasAll : HasAll loaded
loaded-HasAll = record { chrdev_region = refl; dummy_class = refl; resources = λ k. ground arith }

unloaded-HasNothing : HasNothing unloaded
unloaded-HasNothing = record {
  chrdev_region = refl;
  dummy_class = refl;
  proc_entry = refl;
  resources = λ k. refl;
}

mtca_dummy_init_module-Balanced_example :
    Done (Balanced false) (mtca_dummy_init_module machine.version willing unloaded)
mtca_dummy_init_module-Balanced_example =
    mtca_dummy_init_module-Balanced machine.version willing unloaded unloaded-HasNothing

mtca_dummy_cleanup_module-HasNothing_example :
    Done (λ _ c. HasNothing c) (mtca_dummy_cleanup_module loaded)
mtca_dummy_cleanup_module-HasNothing_example =
    mtca_dummy_cleanup_module-HasNothing loaded loaded-HasAll

willing-IsGranted : IsGranted machine.version willing
willing-IsGranted = record {
  region = refl;
  class = refl;
  system = λ i. refl;
  dma = λ i. refl;
  cdev = λ i. refl;
  node = λ i. refl;
}

mtca_dummy_init_module-Fresh_example :
    Done
      (λ r c. (r ≡ size 0) × Fresh machine.version willing 5 (c.devices 5))
      (mtca_dummy_init_module machine.version willing unloaded)
mtca_dummy_init_module-Fresh_example =
    mtca_dummy_init_module-Fresh machine.version willing willing-IsGranted unloaded 5 (omega arith)
