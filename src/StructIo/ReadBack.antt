-- ===== src/StructIo/ReadBack.antt =====
-- A write and a read of the same word, through the handlers and the memory of the process.
use pciedummy_driver.Common.{ℕ, ◌<◌, ◌≡◌, refl, ◌∙◌, ap, false, true, some, none, [], arith}
use pciedummy_driver.State.{Bar}
use pciedummy_driver.Kernel.{Host, Sys, size, ◌>>=◌, ◌>>◌}
use pciedummy_driver.Kernel.Laws.{
  Ends, Ends-both, Ends-mono, Ends-bind, IsReady, ChangesBars-IsReady, process_writes,
}
use pciedummy_driver.Firmware.{mtcadummy_perform_pre_read_action}
use pciedummy_driver.Firmware.Table.{keeps_value}
use pciedummy_driver.StructIo.{
  DeviceRw, bytes_of_rw, select_bar, bad_offset, mtca_dummy_read, mtca_dummy_write, rw_d32,
}
use pciedummy_driver.StructIo.Writes.{IsRequest, mtca_dummy_write_stores}
use pciedummy_driver.StructIo.Safety.{mtca_dummy_write-ChangesBars}
use pciedummy_driver.StructIo.Reads.{IsWords, mtca_dummy_read_value}

keeps_value_readable :
    (barx offset slot : ℕ)
    → keeps_value barx offset ≡ true
    → mtcadummy_perform_pre_read_action offset barx slot ≡ none
unfolding mtcadummy_perform_pre_read_action
keeps_value_readable barx offset slot h = ground arith

module _ {M : Type 0} ⦃host : Host M⦄ where
  IsRequest-of_user :
      (s t : Sys M) (buf count : ℕ) (r : DeviceRw)
      → IsRequest s buf count r
      → t.user ≡ s.user
      → IsRequest t buf count r
  IsRequest-of_user s t buf count r q e = record {
    covered = q.covered;
    readable = rw e q.readable;
    stands = rw e q.stands;
  }

  -- On a device below 7, in a ready state (IsReady): after a 32-bit write to an aligned offset
  -- inside bar 0 or 2 that is neither a read-only nor a broken register, a read of the same bar and
  -- offset by another request succeeds and leaves that request in the process's memory with the
  -- written value in data_rw, if no failure is injected, no signal is pending, both requests are
  -- readable, the fields of the second fit 32 bits and the copy to the process succeeds.
  pub mtca_dummy_read-write :
      (i buf count buf' count' : ℕ) (s : Sys M) (m : M) (r r' : DeviceRw) (b : Bar)
      → i < 7
      → IsReady s
      → s.signals ≡ []
      → s.control.write_error ≡ false
      → s.control.read_error ≡ false
      → IsRequest s buf count r
      → r.mode_rw ≡ rw_d32
      → select_bar r.barx_rw ≡ some b
      → bad_offset r.offset_rw b ≡ false
      → keeps_value r.barx_rw r.offset_rw ≡ true
      → IsRequest (record s { user = m }) buf' count' r'
      → r'.mode_rw ≡ rw_d32
      → r'.barx_rw ≡ r.barx_rw
      → r'.offset_rw ≡ r.offset_rw
      → IsWords (record r' { data_rw = r.data_rw })
      → (host.copy_to_user m buf' (bytes_of_rw (record r' { data_rw = r.data_rw }))).1 ≡ 0
      → Ends
          (λ a t. (a ≡ size 24) × IsRequest t buf' count' (record r' { data_rw = r.data_rw }))
          ((do
            written ← mtca_dummy_write i buf count
            process_writes m
            mtca_dummy_read i buf' count')
            s)
  mtca_dummy_read-write i buf count buf' count' s m r r' b hi ready sig we re req mode bar good
        keeps req' mode' bar' off' words done =
      Ends-bind (λ a t. (a ≡ size 24) × IsRequest t buf' count' (record r' { data_rw = r.data_rw }))
        (mtca_dummy_write i buf count s) _
        (Ends-both _ _ (mtca_dummy_write i buf count s)
          (mtca_dummy_write_stores i buf count s r hi ready we req mode b sig bar good keeps)
          (mtca_dummy_write-ChangesBars i buf count s hi ready))
        λ a t h.
          let changes = h.1.0 in
          let now = ChangesBars-IsReady i s t changes ready in
          Ends-mono (mtca_dummy_read i buf' count' (record t { user = m }))
            (mtca_dummy_read_value i buf' count' r.data_rw (record t { user = m }) r' b hi
              (record { free = now.free; slots = now.slots }) h.0.1
              (ap (λ c. c.read_error) changes.control ∙ re)
              (IsRequest-of_user (record s { user = m }) (record t { user = m }) buf' count' r' req'
                refl)
              mode' (rw bar' bar) (rw off' h.0.2) (rw off' good)
              (rw (bar', off') (keeps_value_readable r.barx_rw r.offset_rw i keeps)) words done)
            λ a' t' k. (k.0, k.2)
