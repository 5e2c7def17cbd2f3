-- ===== src/Examples/Worlds.antt =====
-- A loaded driver on the machine of the examples, and processes that open devices 5 and 2.
use pciedummy_driver.Common.{ℕ, refl, true, some, [], update, arith}
use pciedummy_driver.State.{MtcaDummyData}
use pciedummy_driver.Kernel.{size, control_flag, get_device, put_device}
use pciedummy_driver.Files.{mtca_dummy_open, count_up, file_ops_of}
use pciedummy_driver.ModuleInit.{Answers, Boot, valid, no_resources, zeroed, initialise_device}
use pciedummy_driver.ModuleInit.Start.{initialise_device-Fresh}
use pciedummy_driver.Driver.{World, opens, opens_alone, Reach, here, next}
use pciedummy_driver.Driver.Invariants.{IsConsistent, loaded_world, Reach-loaded}
use pciedummy_driver.Examples.{Memory, machine}

abbrev granting : Answers
granting = record {
  region_status = 0;
  region_major = 240;
  class_ptr = valid;
  system_ptr = λ i. valid;
  dma_ptr = λ i. valid;
  cdev_status = λ i. 0;
  node_ptr = λ i. valid;
  proc_created = true;
}

abbrev initial_devices : ℕ → MtcaDummyData
initial_devices k = initialise_device machine.version granting k zeroed

abbrev initial_boot : Boot
initial_boot = record {
  chrdev_region = true;
  dummy_class = true;
  proc_entry = true;
  resources = λ i. no_resources;
  devices = initial_devices;
}

abbrev before : World Memory
before = loaded_world initial_boot (λ k. 0) []

-- Device 5 is open, without the driver's doing.
abbrev with_fifth : World Memory
with_fifth = record { sys = before.sys; open_files = update (λ i. 0) 5 1 }

abbrev after : World Memory
after = record {
  sys = record before.sys { devices = update initial_devices 2 (count_up (initial_devices 2)) };
  open_files = update (update (λ i. 0) 5 1) 2 1;
}

before-after : Reach before after
unfolding mtca_dummy_open control_flag get_device put_device file_ops_of
before-after =
    next (next here (opens_alone before 5 (omega arith) refl))
      (opens with_fifth 2 (size 0) (some 2) after.sys (omega arith) refl refl)

Reach-loaded_example : IsConsistent (initial_devices 5) after
Reach-loaded_example =
    Reach-loaded machine.version granting initial_boot (λ k. 0) []
      (λ k h. initialise_device-Fresh machine.version granting k zeroed) before-after
