-- ===== src/Ioctl/Commands.antt =====
-- Which commands the ioctl handlers serve, and what they answer.
use pciedummy_driver.Common.{
  ℕ, ◌<◌, ◌≡◌, true, Option, none, some, List, [], ◌∷◌, arith, ◌==◌, if◌then◌else◌,
}
use pciedummy_driver.Files.{IoctlSet, mtca_ioctl, llrf_ioctl, pcieuni_ioctl}
use pciedummy_driver.Kernel.{
  Host, Sys, Cmd, Ssize, error, enotty, ok, unlock_and_fail, mutex_lock_interruptible,
}
use pciedummy_driver.Kernel.Laws.{IsReady, locked}
use pciedummy_driver.Ioctl.{
  physical_slot, driver_version, ioctl_read_dma, with_command, mtca_switch, llrf_switch,
  pcieuni_switch, mtca_dummy_ioctl, llrf_dummy_ioctl, pcieuni_dummy_ioctl, run_ioctl,
  is_pciedev_number, is_llrfdrv_number,
}

-- What a device answers to a command.
pub data Request : Type 0 where
  slot version dma : Request

abbrev pub magic : IoctlSet → ℕ
magic mtca_ioctl = 0x30
magic llrf_ioctl = 0x30
magic pcieuni_ioctl = 0x55

-- The commands of the headers by their numbers.
abbrev pub commands : IoctlSet → List (ℕ × Request)
commands mtca_ioctl = (60, slot) ∷ (61, version) ∷ (62, version) ∷ (72, dma) ∷ []
commands llrf_ioctl = (20, slot) ∷ (21, version) ∷ (22, version) ∷ []
commands pcieuni_ioctl = (60, slot) ∷ (61, version) ∷ (62, version) ∷ (72, dma) ∷ []

-- The two fields of a command that the handlers test.
fields :
    {M : Type 0} (host : Host M) (t n : ℕ)
    → t < 256
    → n < 256
    → (host.ioc_type (host.iowr_int t n) ≡ t) × (host.ioc_nr (host.iowr_int t n) ≡ n)
fields host t n ht hn = (host.ioc_type-iowr_int t n ht hn, host.ioc_nr-iowr_int t n ht hn)

-- The first entry of the table whose command, `_IOWR(type, number, int)`, is `cmd`.
abbrev pub look_up : (ℕ → ℕ) → ℕ → List (ℕ × Request) → Option Request
look_up iowr cmd [] = none
look_up iowr cmd ((n, r) ∷ rest) = if cmd == iowr n then some r else look_up iowr cmd rest

module _ {M : Type 0} ⦃host : Host M⦄ where
  -- What each request runs, once the mutex of the device is held.
  abbrev pub serve : Request → ℕ → ℕ → Cmd M Ssize
  serve slot i arg = physical_slot i arg
  serve version i arg = driver_version i arg
  serve dma i arg = ioctl_read_dma i arg

  -- The state is left as it was, and the command refused, if the table does not have it.
  abbrev pub serve_known : Option Request → ℕ → ℕ → Cmd M Ssize
  serve_known none i arg s = ok (error enotty) s
  serve_known (some r) i arg s = serve r i arg (locked i s)

  -- For each of the three ioctl handlers, on a device below 7, in a ready state (IsReady), with no
  -- signal and an accessible argument, any command that is _IOWR(type, number, int), with the
  -- handler's magic number as the type and a number of its table (commands), is served under the
  -- device's mutex as the table says (slot, version or DMA), and every other command returns
  -- -ENOTTY and leaves the state as it was.
  pub run_ioctl_lem :
      (set : IoctlSet) (i cmd arg : ℕ) (s : Sys M)
      → i < 7
      → IsReady s
      → s.signals ≡ []
      → host.access_ok s.user arg (host.ioc_size cmd) ≡ true
      → run_ioctl set i cmd arg s
        ≡ serve_known (look_up (host.iowr_int (magic set)) cmd (commands set)) i arg s
  unfolding run_ioctl mtca_dummy_ioctl llrf_dummy_ioctl pcieuni_dummy_ioctl mtca_switch llrf_switch
      pcieuni_switch with_command unlock_and_fail mutex_lock_interruptible is_pciedev_number
      is_llrfdrv_number
  run_ioctl_lem mtca_ioctl i cmd arg s hi ready quiet accessible = ground (
    arith,
    ready.free,
    fields host 0x30 60,
    fields host 0x30 61,
    fields host 0x30 62,
    fields host 0x30 72,
  )
  run_ioctl_lem llrf_ioctl i cmd arg s hi ready quiet accessible =
      ground (arith, ready.free, fields host 0x30 20, fields host 0x30 21, fields host 0x30 22)
  run_ioctl_lem pcieuni_ioctl i cmd arg s hi ready quiet accessible = ground (
    arith,
    ready.free,
    fields host 0x55 60,
    fields host 0x55 61,
    fields host 0x55 62,
    fields host 0x55 72,
  )
