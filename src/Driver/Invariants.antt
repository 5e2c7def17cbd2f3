-- ===== src/Driver/Invariants.antt =====
-- Worlds that the loaded driver reaches.
use mathlib.Core.Path.{subst}
use pciedummy_driver.Common.{
  update, ℕ, ◌-◌, ◌≤◌, ◌<◌, ◌≡◌, refl, ◌∙◌, Bool, false, some, List, [], arith, ◌==◌,
}
use pciedummy_driver.Common.Bytes.{u32}
use pciedummy_driver.State.{mtcadummy_nr_devs, MtcaDummyData}
use pciedummy_driver.Kernel.{Version, Host, Sys, Run, ok, control_flag, get_device, put_device}
use pciedummy_driver.Kernel.Laws.{IsReady}
use pciedummy_driver.Files.{file_ops_of, mtca_dummy_open, mtca_dummy_release, count_up, count_down}
use pciedummy_driver.ModuleInit.{Answers, Boot}
use pciedummy_driver.ModuleInit.Start.{Fresh}
use pciedummy_driver.Driver.{
  World, opened, Step, opens, closes, opens_alone, closes_alone, calls, runs, Reach, here, next,
}
use pciedummy_driver.Driver.Effects.{IfReturns, Keeps, HandlerKeeps, handler_of-Keeps}

not_fifth : (i : ℕ) → (file_ops_of i).opens ≡ some tt → (i == 5) ≡ false
unfolding file_ops_of
not_fifth i h = ground arith

module _ {M : Type 0} where
  -- No mutex is held, each device has its number, the count of each device whose table has `open`
  -- and `release` is that of its open files, and device 5 is as in `d`.
  pub record IsConsistent (d : MtcaDummyData) (w : World M) : Type 0 where
    pub ready : IsReady w.sys
    pub counts :
        (j : ℕ)
        → j < mtcadummy_nr_devs
        → (file_ops_of j).opens ≡ some tt
        → (w.sys.devices j).in_use ≡ u32 (w.open_files j)
    pub fifth : w.sys.devices 5 ≡ d

  Keeps-IsConsistent :
      (d : MtcaDummyData) (w : World M) (t : Sys M)
      → Keeps w.sys t
      → IsConsistent d w
      → IsConsistent d (record { sys = t; open_files = w.open_files })
  Keeps-IsConsistent d w t k c = record {
    ready = record { free = k.free; slots = λ j h. k.slots j ∙ c.ready.slots j h };
    counts = λ j h has. k.counts j ∙ c.counts j h has;
    fifth = k.fifth ∙ c.fifth;
  }

  mtca_dummy_open-IsConsistent :
      (d : MtcaDummyData) (w : World M) (i : ℕ)
      → i < 7
      → (i == 5) ≡ false
      → IsConsistent d w
      → IfReturns
          (λ r t. IsConsistent d (record { sys = t; open_files = opened r.1 w.open_files }))
          (mtca_dummy_open i w.sys)
  unfolding mtca_dummy_open control_flag get_device put_device count_up
  mtca_dummy_open-IsConsistent d w i hi other c = grind (arith, c.ready.slots, c.counts)

  mtca_dummy_release-IsConsistent :
      (d : MtcaDummyData) (w : World M) (i : ℕ)
      → i < 7
      → (i == 5) ≡ false
      → 1 ≤ w.open_files i
      → IsConsistent d w
      → IfReturns
          (λ r t.
            IsConsistent d
              (record { sys = t; open_files = update w.open_files i (w.open_files i - 1) }))
          (mtca_dummy_release i w.sys)
  unfolding mtca_dummy_release get_device put_device count_down
  mtca_dummy_release-IsConsistent d w i hi other some_open c =
      grind (arith, c.ready.slots, c.counts)

  pub at_return :
      {A : Type 0} (P : A → Sys M → Type 0) (r : Run M A) (a : A) (t : Sys M)
      → r ≡ ok a t
      → IfReturns P r
      → P a t
  at_return P r a t e h = subst (IfReturns P) e h

module _ {M : Type 0} ⦃host : Host M⦄ where
  Step-IsConsistent :
      (d : MtcaDummyData) {v w : World M} → Step v w → IsConsistent d v → IsConsistent d w
  Step-IsConsistent d (opens w i r file t hi has e) c =
      at_return (λ r t. IsConsistent d (record { sys = t; open_files = opened r.1 w.open_files }))
        (mtca_dummy_open i w.sys) (r, file) t e
        (mtca_dummy_open-IsConsistent d w i hi (not_fifth i has) c)
  Step-IsConsistent d (closes w i r t hi has some_open e) c =
      at_return
        (λ r t.
          IsConsistent d
            (record { sys = t; open_files = update w.open_files i (w.open_files i - 1) }))
        (mtca_dummy_release i w.sys) r t e
        (mtca_dummy_release-IsConsistent d w i hi (not_fifth i has) some_open c)
  Step-IsConsistent d (opens_alone w i hi has) c = record {
    ready = c.ready;
    counts = λ j h has'. ground (arith, c.counts j h has');
    fifth = c.fifth;
  }
  Step-IsConsistent d (closes_alone w i hi has some_open) c = record {
    ready = c.ready;
    counts = λ j h has'. ground (arith, c.counts j h has');
    fifth = c.fifth;
  }
  Step-IsConsistent d (calls w call h r t valid e e') c =
      Keeps-IsConsistent d w t
        (at_return (λ _ t. Keeps w.sys t) (h w.sys) r t e'
          (subst (HandlerKeeps w.sys) e (handler_of-Keeps call w.sys valid c.ready)))
        c
  Step-IsConsistent d (runs w m arriving) c = record {
    ready = record { free = c.ready.free; slots = c.ready.slots };
    counts = c.counts;
    fifth = c.fifth;
  }

  -- A world that is consistent, with no mutex held, the slot numbers right, the counts those of the
  -- open files modulo 2 ^ 32, and device 5 closed with the given data, leads by any number of steps
  -- to worlds that are consistent with the same data of device 5.
  pub Reach-IsConsistent :
      (d : MtcaDummyData) {v w : World M} → IsConsistent d v → Reach v w → IsConsistent d w
  Reach-IsConsistent d c here = c
  Reach-IsConsistent d c (next r s) = Step-IsConsistent d s (Reach-IsConsistent d c r)

  -- The driver when its module has been loaded.
  abbrev pub loaded_world : Boot → M → List Bool → World M
  loaded_world b m arriving = record {
    sys = record {
      control = record {
        open_error = false;
        read_error = false;
        write_error = false;
        spi_error = false;
      };
      devices = b.devices;
      held = [];
      signals = arriving;
      user = m;
    };
    open_files = λ i. 0;
  }

  -- In every world that a driver with freshly initialised devices and no open file reaches by
  -- opening, closing, calls on device files and the proc file that return, with counts below 2 ^ 63
  -- and positions below 2 ^ 64, and changes of the processes' memory, no mutex is held, each device
  -- has its slot number, the count of each device whose table has open and release is the number of
  -- its open files modulo 2 ^ 32, and device 5, whose table has no entries and whose files Linux
  -- opens and closes alone, is as it was initialised.
  pub Reach-loaded :
      (v : Version) (answers : Answers) (b : Boot) (m : M) (arriving : List Bool) {w : World M}
      → ((k : ℕ) → k < 7 → Fresh v answers k (b.devices k))
      → Reach (loaded_world b m arriving) w
      → IsConsistent (b.devices 5) w
  Reach-loaded v answers b m arriving fresh reach =
      Reach-IsConsistent (b.devices 5)
        (record {
          ready = record { free = refl; slots = λ k h. (fresh k h).slot_nr };
          counts = λ k h has. (fresh k h).in_use;
          fifth = refl;
        })
        reach
