-- ===== src/NoStruct/Reads.antt =====
-- `mtcaDummy_read_no_struct`, from its loop and its checks.
use pciedummy_driver.Common.{
  ℕ, ◌+◌, ◌*◌, ◌/◌, ◌%◌, ◌^◌, ◌≤◌, ◌<◌, ◌≡◌, ap, Bool, true, false, [], ◌∷◌, arith,
}
use pciedummy_driver.State.{bar_size, MtcaDummyControl}
use pciedummy_driver.Kernel.{Ssize, Host, Sys, Cmd, dev_mutex, control_flag}
use pciedummy_driver.Kernel.Laws.{Ends, Ends-mono, IsReady, ReadsOnly, entered}
use pciedummy_driver.NoStruct.{
  TransferInformation, with_transfer, read_words, mtca_dummy_read_no_struct,
}
use pciedummy_driver.NoStruct.Check.{
  is_addressable, transfer_at, check_and_calculate_transfer_information_lem,
}
use pciedummy_driver.NoStruct.ReadOutcome.{Transferred, read_words-Transferred}

-- A transfer that was accepted lies in its bar, and the position does not wrap.
pub transfer_at_fits :
    (count pos : ℕ)
    → is_addressable pos ≡ true
    → pos < 2 ^ 64
    → let info = transfer_at count pos in
      ((info.offset / 4 + info.n_bytes_to_transfer / 4) * 4 ≤ bar_size info.bar_start)
      × (pos + info.n_bytes_to_transfer / 4 * 4 < 2 ^ 64)
transfer_at_fits count pos h small = ground arith

module _ {M : Type 0} ⦃host : Host M⦄ where
  pub with_transfer_enters :
      (flag : MtcaDummyControl → Bool) (i count pos : ℕ)
      (rest : TransferInformation → Cmd M (Ssize × ℕ)) (s : Sys M)
      → s.held ≡ []
      → s.signals ≡ []
      → flag s.control ≡ false
      → count < 2 ^ 63
      → count % 4 ≡ 0
      → is_addressable pos ≡ true
      → with_transfer flag i count pos rest s ≡ rest (transfer_at count pos) (entered i s)
  unfolding with_transfer control_flag
  with_transfer_enters flag i count pos rest s held sig fine small al ad =
      ground (arith, check_and_calculate_transfer_information_lem count pos small)

  read_words-entered :
      (i buf count pos : ℕ) (s : Sys M)
      → i < 7
      → s.held ≡ []
      → pos < 2 ^ 64
      → is_addressable pos ≡ true
      → let info = transfer_at count pos in
        Ends
          (Transferred i buf (info.n_bytes_to_transfer / 4) pos info s)
          (read_words (info.n_bytes_to_transfer / 4) 0 info i buf pos (entered i s))
  read_words-entered i buf count pos s hi held range ad =
      let info : TransferInformation = transfer_at count pos in
      let n : ℕ = info.n_bytes_to_transfer / 4 in
      let fits = transfer_at_fits count pos ad range in
      read_words-Transferred i buf pos info hi s (entered i s).held (entered i s).signals
        (ap (λ ls. dev_mutex i ∷ ls) held) n 0 n pos (omega arith) fits.0 (omega arith) fits.1
        (λ j h. ground (arith, h)) tt

  -- On a device below 7, in a ready state (IsReady), with no signal and no injected read failure, a
  -- count below 2 ^ 63 that is a multiple of 4 and an addressable position,
  -- mtcaDummy_read_no_struct ends as Transferred says: a number of words from the offset on, none
  -- of which the firmware refuses and the copy of each of which succeeds, is in the process's
  -- memory in order, and the position moved by as many; the result is the size if these are all
  -- words of the transfer, else -EIO if the firmware refuses the next word, and -EFAULT if it does
  -- not and the copy of that word fails; the process's memory is changed by these copies alone, and
  -- the driver's state stayed.
  pub mtca_dummy_read_no_struct-Transferred :
      (i buf count pos : ℕ) (s : Sys M)
      → i < 7
      → IsReady s
      → s.signals ≡ []
      → s.control.read_error ≡ false
      → count < 2 ^ 63
      → pos < 2 ^ 64
      → count % 4 ≡ 0
      → is_addressable pos ≡ true
      → let info = transfer_at count pos in
        Ends
          (Transferred i buf (info.n_bytes_to_transfer / 4) pos info s)
          (mtca_dummy_read_no_struct i buf count pos s)
  unfolding mtca_dummy_read_no_struct
  mtca_dummy_read_no_struct-Transferred i buf count pos s hi ready sig fine small range al ad =
      rw (with_transfer_enters (λ c. c.read_error) i count pos _ s ready.free sig fine small al ad)
        (read_words-entered i buf count pos s hi ready.free range ad)

  read_words-entered-ReadsOnly :
      (i buf count pos : ℕ) (s : Sys M)
      → i < 7
      → s.held ≡ []
      → pos < 2 ^ 64
      → is_addressable pos ≡ true
      → let info = transfer_at count pos in
        Ends
          (λ r t. ReadsOnly s t)
          (read_words (info.n_bytes_to_transfer / 4) 0 info i buf pos (entered i s))
  read_words-entered-ReadsOnly i buf count pos s hi held range ad =
      let info : TransferInformation = transfer_at count pos in
      Ends-mono {Q = λ r t. ReadsOnly s t}
        (read_words (info.n_bytes_to_transfer / 4) 0 info i buf pos (entered i s))
        (read_words-entered i buf count pos s hi held range ad) λ r t h. h.unchanged

  -- For a count below 2 ^ 63 and a position below 2 ^ 64, mtcaDummy_read_no_struct on a device
  -- below 7, called in a ready state (IsReady), ends on every path without a fault and with no
  -- mutex held, and leaves the control data and all devices as they were.
  pub mtca_dummy_read_no_struct-ReadsOnly :
      (i buf count pos : ℕ) (s : Sys M)
      → i < 7
      → IsReady s
      → count < 2 ^ 63
      → pos < 2 ^ 64
      → Ends (λ r t. ReadsOnly s t) (mtca_dummy_read_no_struct i buf count pos s)
  unfolding mtca_dummy_read_no_struct with_transfer control_flag
  mtca_dummy_read_no_struct-ReadsOnly i buf count pos s hi ready small range = ground (
    arith,
    check_and_calculate_transfer_information_lem count pos small,
    read_words-entered-ReadsOnly i buf count pos s hi ready.free range,
  )
