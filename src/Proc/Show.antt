-- ===== src/Proc/Show.antt =====
-- The dump of a device as a list of lines.
use pciedummy_driver.Common.{
  ℕ, zero, suc, ◌+◌, ◌*◌, ◌≤◌, ◌<◌, ◌≡◌, refl, List, [], ◌∷◌, ◌++◌, arith, ◌==◌, if◌then◌else◌,
}
use pciedummy_driver.State.{MtcaDummyData}
use pciedummy_driver.Kernel.{
  Sys, ok, size, error, erestartsys, next_signal, get_device, load_word, mutex_lock_interruptible,
  mutex_unlock,
}
use pciedummy_driver.Kernel.Laws.{Ends, IsReady, ReadsOnly, locked}
use pciedummy_driver.Proc.{
  Line, not_in_use, system_bar_header, register_line, dma_bar_header, dma_line, blank,
  show_registers, show_dma, mtcadummy_seq_show,
}

-- The lines of `n` registers from `reg` on.
pub register_lines : ℕ → ℕ → (ℕ → ℕ) → List Line
register_lines zero reg bar = []
register_lines (suc n) reg bar = register_line reg (bar reg) ∷ register_lines n (reg + 1) bar

-- The lines of `n` rows of four words from word `index` on.
pub dma_lines : ℕ → ℕ → (ℕ → ℕ) → List Line
dma_lines zero index bar = []
dma_lines (suc n) index bar =
    dma_line (index * 4) (bar index) (bar (index + 1)) (bar (index + 2)) (bar (index + 3))
    ∷ dma_lines n (index + 4) bar

-- The dump of a device that is in use.
pub dump : MtcaDummyData → List Line
dump d =
    system_bar_header d.slot_nr ∷ register_lines 32 0 d.system_bar
    ++ (blank ∷ dma_bar_header d.slot_nr ∷ dma_lines 256 0 d.dma_bar ++ (blank ∷ []))

module _ {M : Type 0} (i : ℕ) (s : Sys M) (hi : i < 7) where
  show_registers_lem :
      (n reg : ℕ)
      → reg + n ≤ 32
      → show_registers n reg i s ≡ ok (register_lines n reg (s.devices i).system_bar) s
  unfolding show_registers load_word register_lines
  show_registers_lem zero reg h = refl
  show_registers_lem (suc n) reg h = ground (arith, show_registers_lem n (reg + 1))

  show_dma_lem :
      (n index : ℕ)
      → index + n * 4 ≤ 1024
      → show_dma n index i s ≡ ok (dma_lines n index (s.devices i).dma_bar) s
  unfolding show_dma load_word dma_lines
  show_dma_lem zero index h = refl
  show_dma_lem (suc n) index h = ground (arith, show_dma_lem n (index + 4))

module _ {M : Type 0} (i : ℕ) (s : Sys M) (hi : i < 7) where
  -- In a ready state (IsReady), the dump of device i below 7 is one line if the device is not open,
  -- nothing with -ERESTARTSYS if a signal comes, and else the lines of all 32 registers and all 256
  -- rows of the DMA bar with their contents; the driver's state stays and no mutex is held at the
  -- end.
  pub mtcadummy_seq_show-dump :
      IsReady s
      → Ends
          (λ r t.
            ReadsOnly s t
            × (t.user ≡ s.user)
            × (r ≡ (
                if (s.devices i).in_use == 0
                then (size 0, not_in_use i ∷ [])
                else if next_signal s.signals
                then (error erestartsys, [])
                else (size 0, dump (s.devices i)))))
          (mtcadummy_seq_show i s)
  unfolding mtcadummy_seq_show dump get_device mutex_lock_interruptible mutex_unlock
  mtcadummy_seq_show-dump ready = ground (
    arith,
    ready.slots i,
    show_registers_lem i (locked i s) hi 32 0,
    show_dma_lem i (locked i s) hi 256 0,
  )
