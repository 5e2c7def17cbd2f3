-- ===== src/ModuleInit.antt =====
-- `mtcaDummy_init_module` and `mtcaDummy_cleanup_module` of mtcadummy_drv.c. The state says which
-- resources of the kernel the module has, beside the data of the devices. A step is `none` where
-- the C code would give back a resource that it does not have, such as memory freed twice.
-- What the calls into Linux answer is a parameter, `Answers`. `device_destroy` of a node that does
-- not exist does nothing, as in Linux.
pub mod Balance
pub mod Outcome
pub mod Start
use pciedummy_driver.Common.{
  ℕ, zero, suc, ◌+◌, Bool, true, false, not, Option, none, some, ◌==◌, if◌then◌else◌, update,
}
use pciedummy_driver.State.{MtcaDummyData, mtcadummy_nr_devs}
use pciedummy_driver.Kernel.{Ssize, size, error, eperm, Version}
use pciedummy_driver.Firmware.{mtcadummy_initialise_system_bar}

pub data Pointer : Type 0 where
  valid null_ptr err_ptr : Pointer

pub record Answers : Type 0 where
  pub region_status : ℕ
  pub region_major : ℕ
  pub class_ptr : Pointer
  pub system_ptr : ℕ → Pointer
  pub dma_ptr : ℕ → Pointer
  pub cdev_status : ℕ → ℕ
  pub node_ptr : ℕ → Pointer
  pub proc_created : Bool

-- What the module has for one device.
pub record Resources : Type 0 where
  pub system_mem : Bool
  pub dma_mem : Bool
  pub mutex : Bool
  pub cdev : Bool
  pub node : Bool

pub record Boot : Type 0 where
  pub chrdev_region : Bool
  pub dummy_class : Bool
  pub proc_entry : Bool
  pub resources : ℕ → Resources
  pub devices : ℕ → MtcaDummyData

abbrev pub no_resources : Resources
no_resources = record {
  system_mem = false;
  dma_mem = false;
  mutex = false;
  cdev = false;
  node = false;
}

abbrev pub zeroed : MtcaDummyData
zeroed = record {
  in_use = 0;
  slot_nr = 0;
  minor = 0;
  major = 0;
  system_bar = λ k. 0;
  dma_bar = λ k. 0;
}

abbrev pub Step : Type 0 → Type 0
Step A = Boot → Option (A × Boot)

abbrev pub pure : {A : Type 0} → A → Step A
pure a b = some (a, b)

infixl 5 ◌>>=◌ ◌>>◌
abbrev pub ◌>>=◌ : {A B : Type 0} → Step A → (A → Step B) → Step B
◌>>=◌ m f b = elim (m b) [ none ↦ none | some (a, b') ↦ f a b' ]

abbrev pub ◌>>◌ : {B : Type 0} → Step (Unit {0}) → Step B → Step B
m >> k = m >>= λ _. k

abbrev pub is_null : Pointer → Bool
is_null null_ptr = true
is_null valid = false
is_null err_ptr = false

-- `IS_ERR`.
abbrev pub is_err : Pointer → Bool
is_err err_ptr = true
is_err valid = false
is_err null_ptr = false

abbrev pub is_valid : Pointer → Bool
is_valid valid = true
is_valid null_ptr = false
is_valid err_ptr = false

abbrev pub modify : (Boot → Boot) → Step (Unit {0})
modify f b = some (tt, f b)

abbrev pub change : ℕ → (Resources → Resources) → Boot → Boot
change i f b = record b { resources = update b.resources i (f (b.resources i)) }

-- Gives a resource of device `i` back.
abbrev pub give_back : ℕ → (Resources → Bool) → (Resources → Resources) → Step (Unit {0})
give_back i has f b = if has (b.resources i) then some (tt, change i f b) else none

unfoldable pub kfree_system : ℕ → Step (Unit {0})
kfree_system i = give_back i (λ r. r.system_mem) (λ r. record r { system_mem = false })

unfoldable pub kfree_dma : ℕ → Step (Unit {0})
kfree_dma i = give_back i (λ r. r.dma_mem) (λ r. record r { dma_mem = false })

unfoldable pub mutex_destroy : ℕ → Step (Unit {0})
mutex_destroy i = give_back i (λ r. r.mutex) (λ r. record r { mutex = false })

unfoldable pub cdev_del : ℕ → Step (Unit {0})
cdev_del i = give_back i (λ r. r.cdev) (λ r. record r { cdev = false })

unfoldable pub device_destroy : ℕ → Step (Unit {0})
device_destroy i = modify (change i (λ r. record r { node = false }))

unfoldable pub class_destroy : Step (Unit {0})
class_destroy b = if b.dummy_class then some (tt, record b { dummy_class = false }) else none

unfoldable pub unregister_chrdev_region : Step (Unit {0})
unregister_chrdev_region b =
    if b.chrdev_region then some (tt, record b { chrdev_region = false }) else none

-- The body of the loops that take the devices down.
unfoldable pub remove_device : ℕ → Step (Unit {0})
unfolding kfree_system kfree_dma mutex_destroy cdev_del device_destroy
remove_device j = do device_destroy j; cdev_del j; mutex_destroy j; kfree_system j; kfree_dma j

unfoldable pub remove_devices : ℕ → ℕ → Step (Unit {0})
remove_devices zero j = pure tt
remove_devices (suc n) j = remove_device j >> remove_devices n (j + 1)

module _ (v : Version) (answers : Answers) where
  open answers use {
    region_status, region_major, class_ptr, system_ptr, dma_ptr, cdev_status, node_ptr,
    proc_created,
  }

  -- What `proc_create_data` returns is not looked at.
  unfoldable pub mtcadummy_create_proc : Step (Unit {0})
  mtcadummy_create_proc = modify (λ b. record b { proc_entry = proc_created })

  -- What follows the loop over the devices: the proc file, or the labels that give all back.
  unfoldable pub finish_init : Option ℕ → Step Ssize
  finish_init none = do mtcadummy_create_proc; pure (size 0)
  finish_init (some i) = do
    remove_devices i 0
    class_destroy
    unregister_chrdev_region
    pure (error eperm)

  -- The data of device `i` when its character device is added.
  unfoldable pub initialise_device : ℕ → MtcaDummyData → MtcaDummyData
  initialise_device i d =
      record (mtcadummy_initialise_system_bar v
        (record d { system_bar = λ k. 0; dma_bar = λ k. 0 })) {
          in_use = 0;
          slot_nr = i;
          minor = i;
          major = region_major;
        }

  -- `cdev_add` and `device_create` in the body of the loop, with the labels that they jump to; true
  -- if both are done.
  unfoldable pub register_device : ℕ → Step Bool
  unfolding kfree_system kfree_dma mutex_destroy cdev_del
  register_device i =
      if not (cdev_status i == 0)
      then (do mutex_destroy i; kfree_dma i; kfree_system i; pure false)
      else do
        modify (change i (λ r. record r { cdev = true }))
        if is_null (node_ptr i)
            then (do cdev_del i; mutex_destroy i; kfree_dma i; kfree_system i; pure false)
            else do modify (change i (λ r. record r { node = is_valid (node_ptr i) })); pure true

  -- The body of the loop over the devices.
  unfoldable pub setup_device : ℕ → Step Bool
  unfolding kfree_system
  setup_device i = if is_null (system_ptr i) then pure false else do
    modify (change i (λ r. record r { system_mem = true }))
    if is_null (dma_ptr i) then (do kfree_system i; pure false) else do
      modify (change i (λ r. record r { dma_mem = true; mutex = true }))
      modify (λ b. record b { devices = update b.devices i (initialise_device i (b.devices i)) })
      register_device i

  -- The loop from device `i` on; the result is the device at which it stopped, if it did.
  unfoldable pub setup_devices : ℕ → ℕ → Step (Option ℕ)
  setup_devices zero i = pure none
  setup_devices (suc n) i = do
    done ← setup_device i
    if done then setup_devices n (i + 1) else pure (some i)

  unfoldable pub mtca_dummy_init_module : Step Ssize
  mtca_dummy_init_module = if not (region_status == 0) then pure (error eperm) else do
    modify (λ b. record b { chrdev_region = true })
    if is_err class_ptr then (do unregister_chrdev_region; pure (error eperm)) else do
      modify (λ b. record b { dummy_class = true; devices = λ i. zeroed })
      stopped ← setup_devices mtcadummy_nr_devs 0
      finish_init stopped

-- `remove_proc_entry` of a file that does not exist does no harm.
unfoldable pub mtcadummy_remove_proc : Step (Unit {0})
mtcadummy_remove_proc = modify (λ b. record b { proc_entry = false })

unfoldable pub mtca_dummy_cleanup_module : Step (Unit {0})
mtca_dummy_cleanup_module = do
  mtcadummy_remove_proc
  remove_devices mtcadummy_nr_devs 0
  class_destroy
  unregister_chrdev_region
