-- ===== src/ModuleInit/Start.antt =====
-- The data of the devices after a successful initialisation.
use pciedummy_driver.Common.{
  ◌^◌, ℕ, zero, suc, ◌+◌, ◌<◌, ◌≡◌, ◌≢◌, refl, true, false, none, arith, ◌==◌, if◌then◌else◌,
}
use pciedummy_driver.State.{HasWords, MtcaDummyData}
use pciedummy_driver.Kernel.{size, Version}
use pciedummy_driver.Firmware.{mtcadummy_initialise_system_bar}
use pciedummy_driver.ModuleInit.{
  Answers, Boot, is_null, is_err, register_device, setup_device, setup_devices, finish_init,
  mtcadummy_create_proc, initialise_device, mtca_dummy_init_module,
}
use pciedummy_driver.ModuleInit.Balance.{Done, Done-bind, Done-mono}
use native.Mathlib.Decide.{ℕ_discrete}

-- The initial content of the system bar, word by word.
pub initial_word : Version → ℕ → ℕ
initial_word v k =
    if k == 0
    then v.maj
    else if k == 1
    then v.min
    else if k == 15
    then 0x444D4D59
    else if k == 16
    then 1
    else if k == 19
    then 0x4C
    else 0

module _ (v : Version) (answers : Answers) where
  -- The device is as the loop's body leaves it.
  pub record Fresh (k : ℕ) (d : MtcaDummyData) : Type 0 where
    pub slot_nr : d.slot_nr ≡ k
    pub in_use : d.in_use ≡ 0
    pub minor : d.minor ≡ k
    pub major : d.major ≡ answers.region_major
    pub system_bar : (w : ℕ) → d.system_bar w ≡ initial_word v w
    pub dma_bar : (w : ℕ) → d.dma_bar w ≡ 0

  pub initialise_device-Fresh :
      (k : ℕ) (d : MtcaDummyData) → Fresh k (initialise_device v answers k d)
  unfolding initialise_device mtcadummy_initialise_system_bar initial_word
  initialise_device-Fresh k d = ground arith

  pub Fresh-HasWords :
      (k : ℕ) (d : MtcaDummyData) → (v.maj < 2 ^ 32) × (v.min < 2 ^ 32) → Fresh k d → HasWords d
  unfolding initial_word
  Fresh-HasWords k d small fresh = record {
    system_words = λ w hw. ground (arith, fresh.system_bar w);
    dma_words = λ w hw. ground (arith, fresh.dma_bar w);
  }

  -- Linux gives the module all that it asks for.
  pub record IsGranted : Type 0 where
    pub region : answers.region_status ≡ 0
    pub class : is_err answers.class_ptr ≡ false
    pub system : (i : ℕ) → is_null (answers.system_ptr i) ≡ false
    pub dma : (i : ℕ) → is_null (answers.dma_ptr i) ≡ false
    pub cdev : (i : ℕ) → answers.cdev_status i ≡ 0
    pub node : (i : ℕ) → is_null (answers.node_ptr i) ≡ false

  module _ (granted : IsGranted) where
    setup_device-Fresh :
        (i : ℕ) (b : Boot)
        → Done
            (λ done c.
              (done ≡ true) × Fresh i (c.devices i) × ((k : ℕ) → k ≢ i → c.devices k ≡ b.devices k))
            (setup_device v answers i b)
    unfolding setup_device register_device
    setup_device-Fresh i b = ground (
      arith,
      granted.system i,
      granted.dma i,
      granted.cdev i,
      granted.node i,
      initialise_device-Fresh i (b.devices i),
    )

    Fresh-below :
        (i : ℕ) (b c : Boot)
        → ((k : ℕ) → k < i → Fresh k (b.devices k))
        → Fresh i (c.devices i)
        → ((k : ℕ) → k ≢ i → c.devices k ≡ b.devices k)
        → (k : ℕ) → k < i + 1
        → Fresh k (c.devices k)
    Fresh-below i b c before here rest k h = elim (ℕ_discrete k i) [
      | yes p ↦ rw p here
      | no ne ↦ rw (rest k ne) (before k (omega arith))
    ]

    setup_devices-Fresh :
        (n i : ℕ) (b : Boot)
        → ((k : ℕ) → k < i → Fresh k (b.devices k))
        → Done
            (λ stopped c. (stopped ≡ none) × ((k : ℕ) → k < i + n → Fresh k (c.devices k)))
            (setup_devices v answers n i b)
    unfolding setup_devices
    setup_devices-Fresh zero i b before = (refl, λ k h. before k (omega arith))
    setup_devices-Fresh (suc n) i b before =
        Done-bind _ (setup_device v answers i b) _ (setup_device-Fresh i b)
          λ done c (all, here, rest). rw all (
            Done-mono (setup_devices v answers n (i + 1) c)
              (λ stopped d r. (r.0, λ k h. r.1 k (omega arith)))
              (setup_devices-Fresh n (i + 1) c (Fresh-below i b c before here rest)))

    -- If Linux grants the module all that it asks for, loading it returns 0, and each device k
    -- below 7 has the slot and minor number k, the major number of the region, a count of 0, a
    -- system bar with the initial contents of the register map and a DMA bar of zeros.
    pub mtca_dummy_init_module-Fresh :
        (b : Boot) (k : ℕ)
        → k < 7
        → Done (λ r c. (r ≡ size 0) × Fresh k (c.devices k)) (mtca_dummy_init_module v answers b)
    unfolding mtca_dummy_init_module finish_init mtcadummy_create_proc
    mtca_dummy_init_module-Fresh b k h =
        simp (granted.region, granted.class)
          (Done-bind (λ r c. (r ≡ size 0) × Fresh k (c.devices k)) (setup_devices v answers 7 0 _)
            (finish_init v answers) (setup_devices-Fresh 7 0 _ λ j p. ground (arith, p))
            λ stopped c (all, fresh). rw all (refl, fresh k h))
