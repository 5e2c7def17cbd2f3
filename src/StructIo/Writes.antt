-- ===== src/StructIo/Writes.antt =====
-- `mtcaDummy_write` against the register map.
use pciedummy_driver.Common.{
  ℕ, ◌/◌, ◌%◌, ◌≤◌, ◌<◌, ◌≡◌, false, true, some, [], ◌∷◌, arith, if◌then◌else◌,
}
use pciedummy_driver.State.{Bar, bar_words, system_area, set_bar_word}
use pciedummy_driver.Kernel.{
  size, error, eio, Host, Sys, control_flag, store_word, copy_from_user, unlock_and_fail,
  unlock_and_return,
}
use pciedummy_driver.Kernel.Laws.{Ends, IsReady}
use pciedummy_driver.Firmware.{mtcadummy_perform_action_on_write}
use pciedummy_driver.Firmware.Table.{
  system_word_after, dma_word_after, is_broken, switch_on_write-system_bar, switch_on_write-dma_bar,
  switch_on_write-result, keeps_value, system_word_kept,
}
use pciedummy_driver.StructIo.{
  DeviceRw, rw_of_bytes, select_bar, bad_offset, write_register, write_request, with_request,
  mtca_dummy_write, rw_d32,
}

module _ {M : Type 0} ⦃host : Host M⦄ where
  -- The structure `r` stands at `buf`, and the count covers it.
  pub record IsRequest (s : Sys M) (buf count : ℕ) (r : DeviceRw) : Type 0 where
    pub covered : 24 ≤ count
    pub readable : (host.copy_from_user s.user buf 24).1 ≡ 0
    pub stands : rw_of_bytes (host.copy_from_user s.user buf 24).0 ≡ r

  -- On a device below 7, in a ready state (IsReady), with no signal, no injected write failure and
  -- a readable 32-bit request whose offset in bar 0 is aligned and below 128, mtcaDummy_write
  -- returns -EIO for BROKEN_REGISTER and BROKEN_WRITE and 24 otherwise, and every word of both bars
  -- is afterwards what the register table of system_word_after and dma_word_after says.
  pub mtca_dummy_write-table :
      (i buf count k : ℕ) (s : Sys M) (r : DeviceRw)
      → i < 7
      → IsReady s
      → s.signals ≡ []
      → s.control.write_error ≡ false
      → IsRequest s buf count r
      → r.mode_rw ≡ rw_d32
      → r.barx_rw ≡ 0
      → r.offset_rw % 4 ≡ 0
      → r.offset_rw < 128
      → let d = s.devices i in
        Ends
          (λ a t.
            (a ≡ (if is_broken r.offset_rw then error eio else size 24))
            × ((t.devices i).system_bar k
                ≡ system_word_after host.version s.control.spi_error r.offset_rw r.data_rw
                    d.system_bar k)
            × ((t.devices i).dma_bar k ≡ dma_word_after r.offset_rw r.data_rw d.dma_bar k))
          (mtca_dummy_write i buf count s)
  unfolding mtca_dummy_write with_request control_flag copy_from_user write_request write_register
      store_word mtcadummy_perform_action_on_write select_bar bad_offset unlock_and_fail
      unlock_and_return
  mtca_dummy_write-table i buf count k s r hi ready sig werr req mode bar al below = ground (
    arith,
    ready.slots i,
    switch_on_write-result host.version s.control.spi_error r.offset_rw
        (set_bar_word system_area (r.offset_rw / 4) r.data_rw (s.devices i)),
    switch_on_write-system_bar host.version s.control.spi_error r.data_rw (s.devices i) k
        r.offset_rw,
    switch_on_write-dma_bar host.version s.control.spi_error r.offset_rw r.data_rw (s.devices i) k,
  )

  module _ (i buf count : ℕ) (s : Sys M) (r : DeviceRw) (hi : i < 7) (ready : IsReady s)
      (no_failure : s.control.write_error ≡ false) (request : IsRequest s buf count r)
      (mode : r.mode_rw ≡ rw_d32) where
    -- A readable 32-bit request to write, on a device below 7, to an aligned offset inside bar 0 or
    -- 2 that is neither a read-only nor a broken register, in a ready state (IsReady), with no
    -- signal and no injected write failure, returns 24, and the word holds the written value.
    pub mtca_dummy_write_stores :
        (b : Bar)
        → s.signals ≡ []
        → select_bar r.barx_rw ≡ some b
        → bad_offset r.offset_rw b ≡ false
        → keeps_value r.barx_rw r.offset_rw ≡ true
        → Ends
            (λ a t.
              (a ≡ size 24)
              × (t.signals ≡ [])
              × (bar_words b (t.devices i) (r.offset_rw / 4) ≡ r.data_rw))
            (mtca_dummy_write i buf count s)
    unfolding mtca_dummy_write with_request control_flag copy_from_user write_request write_register
        store_word mtcadummy_perform_action_on_write unlock_and_return select_bar bad_offset
        is_broken
    mtca_dummy_write_stores b no_signal bar good keeps = ground (
      arith,
      ready.slots i,
      switch_on_write-result host.version s.control.spi_error r.offset_rw
          (set_bar_word system_area (r.offset_rw / 4) r.data_rw (s.devices i)),
      switch_on_write-system_bar host.version s.control.spi_error r.data_rw (s.devices i)
          (r.offset_rw / 4) r.offset_rw,
      system_word_kept host.version s.control.spi_error r.offset_rw r.data_rw
          (s.devices i).system_bar,
    )

    -- If a signal comes just when the firmware takes the mutex of the control data, a readable
    -- 32-bit request to write, on a device below 7, in a ready state (IsReady), with no injected
    -- write failure, to an aligned offset below 128 of bar 0 returns -EIO and leaves the written
    -- value in the word, also in a read-only register.
    pub mtca_dummy_write_interrupted :
        s.signals ≡ false ∷ false ∷ true ∷ []
        → r.barx_rw ≡ 0
        → r.offset_rw % 4 ≡ 0
        → r.offset_rw < 128
        → Ends
            (λ a t. (a ≡ error eio) × ((t.devices i).system_bar (r.offset_rw / 4) ≡ r.data_rw))
            (mtca_dummy_write i buf count s)
    unfolding mtca_dummy_write with_request control_flag copy_from_user write_request write_register
        store_word mtcadummy_perform_action_on_write unlock_and_fail select_bar bad_offset
    mtca_dummy_write_interrupted sig bar al below = ground (arith, ready.slots i)
