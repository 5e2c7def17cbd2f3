-- ===== src/Files/Counting.antt =====
-- Opening and releasing a device file: the outcome by the injected failure and the signals, and
-- the count of open files.
use pciedummy_driver.Common.{ℕ, ◌+◌, ◌-◌, ◌^◌, ◌<◌, ◌≡◌, some, none, arith, ◌==◌, if◌then◌else◌}
use pciedummy_driver.Common.Bytes.{u32}
use pciedummy_driver.Kernel.{
  size, error, einval, erestartsys, Sys, control_flag, get_device, put_device, next_signal,
}
use pciedummy_driver.Kernel.Laws.{Ends, IsReady}
use pciedummy_driver.Files.{count_up, count_down, mtca_dummy_open, mtca_dummy_release}

module _ {M : Type 0} where
  -- Between `s` and `t` the count of device `i` has become `n` and all other data has stayed.
  pub record Counted (i n : ℕ) (s t : Sys M) : Type 0 where
    pub held : t.held ≡ s.held
    pub control : t.control ≡ s.control
    pub user : t.user ≡ s.user
    pub counts : (j : ℕ) → (t.devices j).in_use ≡ (if j == i then n else (s.devices j).in_use)
    pub slots : (j : ℕ) → (t.devices j).slot_nr ≡ (s.devices j).slot_nr
    pub minors : (j : ℕ) → (t.devices j).minor ≡ (s.devices j).minor
    pub majors : (j : ℕ) → (t.devices j).major ≡ (s.devices j).major
    pub system_bars : (j : ℕ) → (t.devices j).system_bar ≡ (s.devices j).system_bar
    pub dma_bars : (j : ℕ) → (t.devices j).dma_bar ≡ (s.devices j).dma_bar

  -- Opening device i below 7 in a ready state (IsReady) returns -ERESTARTSYS on a signal, -EINVAL
  -- on an injected failure, and else 0 with private_data set to the device; only in the last case
  -- the count of the device goes up by one, modulo 2 ^ 32, and nothing else but the pending signals
  -- changes.
  pub mtca_dummy_open-Counted :
      (i : ℕ) (s : Sys M)
      → i < 7
      → IsReady s
      → let c = (s.devices i).in_use in
        Ends
          (λ r t.
            (r ≡ (
              if next_signal s.signals
              then (error erestartsys, none)
              else if s.control.open_error
              then (error einval, none)
              else (size 0, some i)))
            × Counted i
                (if next_signal s.signals
                  then c
                  else if s.control.open_error
                  then c
                  else u32 (c + 1))
                s
                t)
          (mtca_dummy_open i s)
  unfolding mtca_dummy_open control_flag get_device put_device count_up
  mtca_dummy_open-Counted i s hi ready = ground arith

  -- Releasing device i below 7 returns 0 and takes one from its count, modulo 2 ^ 32; the control
  -- data, the mutexes held, the process's memory and all other data of the devices stay.
  pub mtca_dummy_release-Counted :
      (i : ℕ) (s : Sys M)
      → i < 7
      → Ends
          (λ r t. (r ≡ size 0) × Counted i (u32 ((s.devices i).in_use + 2 ^ 32 - 1)) s t)
          (mtca_dummy_release i s)
  unfolding mtca_dummy_release get_device put_device count_down
  mtca_dummy_release-Counted i s hi = ground arith
