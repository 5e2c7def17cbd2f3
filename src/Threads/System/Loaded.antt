-- ===== src/Threads/System/Loaded.antt =====
-- The machine of a loaded driver, where threads may begin.
use pciedummy_driver.Common.{ℕ, ◌<◌, refl, false, []}
use pciedummy_driver.State.{mtcadummy_nr_devs}
use pciedummy_driver.Kernel.{Host, size}
use pciedummy_driver.ModuleInit.{Answers, Boot}
use pciedummy_driver.ModuleInit.Start.{Fresh, Fresh-HasWords}
use pciedummy_driver.Threads.{done}
use pciedummy_driver.Threads.System.{Machine}
use pciedummy_driver.Threads.System.Invariant.{IsIdle}

module _ {M : Type 0} where
  -- The driver when its module has been loaded, and no thread has begun.
  abbrev loaded_machine : Boot → M → Machine M
  loaded_machine b x = record {
    control = record {
      open_error = false;
      read_error = false;
      write_error = false;
      spi_error = false;
    };
    devices = b.devices;
    threads = λ t. record { steps = done (size 0); held = []; signals = []; user = x };
  }

module _ {M : Type 0} ⦃host : Host M⦄ (answers : Answers) (b : Boot) (x : M)
    (fresh : (k : ℕ) → k < mtcadummy_nr_devs → Fresh host.version answers k (b.devices k)) where
  -- It is as the theorems on threads ask of the machine in which they begin.
  loaded_machine-IsIdle : (n : ℕ) → IsIdle n (loaded_machine b x)
  loaded_machine-IsIdle n = record {
    idle = λ t ht. (size 0, refl);
    released = λ t ht. refl;
    slots = λ j hj. (fresh j hj).slot_nr;
    words = λ j hj.
        Fresh-HasWords host.version answers j (b.devices j) host.version_is_words (fresh j hj);
  }
