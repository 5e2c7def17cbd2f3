-- ===== src/StructIo/Reads.antt =====
-- What a read of a register returns to the process, and reading back what was written.
use pciedummy_driver.Common.{ℕ, ◌/◌, ◌^◌, ◌≤◌, ◌<◌, ◌≡◌, refl, false, [], some, none, arith}
use pciedummy_driver.Common.Bytes.{AreBytes, word_at-bytes_of_word}
use pciedummy_driver.State.{Bar, bar_words}
use pciedummy_driver.Kernel.{
  size, Host, Sys, control_flag, load_word, copy_from_user, copy_to_user, unlock_and_return,
}
use pciedummy_driver.Kernel.Laws.{Ends, Ends-mono, IsReady, ReadsOnly}
use pciedummy_driver.Firmware.{mtcadummy_perform_pre_read_action}
use pciedummy_driver.StructIo.{
  DeviceRw, rw_of_bytes, bytes_of_rw, select_bar, bad_offset, return_rw, read_register,
  read_request, with_request, mtca_dummy_read, rw_d32,
}
use pciedummy_driver.StructIo.Writes.{IsRequest}

-- Each field fits its 32 bits.
pub record IsWords (r : DeviceRw) : Type 0 where
  pub offset_rw : r.offset_rw < 2 ^ 32
  pub data_rw : r.data_rw < 2 ^ 32
  pub mode_rw : r.mode_rw < 2 ^ 32
  pub barx_rw : r.barx_rw < 2 ^ 32
  pub size_rw : r.size_rw < 2 ^ 32
  pub rsrvd_rw : r.rsrvd_rw < 2 ^ 32

-- A device_rw structure whose fields fit 32 bits is read back from its bytes as it was.
pub rw_of_bytes-bytes_of_rw : (r : DeviceRw) → IsWords r → rw_of_bytes (bytes_of_rw r) ≡ r
unfolding rw_of_bytes bytes_of_rw
rw_of_bytes-bytes_of_rw r h = λ i. record {
  offset_rw = word_at-bytes_of_word r.offset_rw h.offset_rw i;
  data_rw = word_at-bytes_of_word r.data_rw h.data_rw i;
  mode_rw = word_at-bytes_of_word r.mode_rw h.mode_rw i;
  barx_rw = word_at-bytes_of_word r.barx_rw h.barx_rw i;
  size_rw = word_at-bytes_of_word r.size_rw h.size_rw i;
  rsrvd_rw = word_at-bytes_of_word r.rsrvd_rw h.rsrvd_rw i;
}

pub bytes_of_rw-AreBytes : (r : DeviceRw) → AreBytes (bytes_of_rw r)
unfolding bytes_of_rw
bytes_of_rw-AreBytes r = ground arith

module _ {M : Type 0} ⦃host : Host M⦄ where
  -- The reply stands in the process's memory after it was copied.
  pub reply-IsRequest :
      (s : Sys M) (buf count : ℕ) (r : DeviceRw)
      → IsWords r
      → 24 ≤ count
      → (host.copy_to_user s.user buf (bytes_of_rw r)).1 ≡ 0
      → (t : Sys M) → t.user ≡ (host.copy_to_user s.user buf (bytes_of_rw r)).0
      → IsRequest t buf count r
  unfolding bytes_of_rw
  reply-IsRequest s buf count r words covered done t e =
      let back = host.copied s.user buf (bytes_of_rw r) (bytes_of_rw-AreBytes r) done in
      record {
        covered = covered;
        readable = rw (e, back) refl;
        stands = rw (e, back) (rw_of_bytes-bytes_of_rw r words);
      }

  module _ (i buf count w : ℕ) (s : Sys M) (r : DeviceRw) (b : Bar) (hi : i < 7) (ready : IsReady s)
      (no_signal : s.signals ≡ []) (no_failure : s.control.read_error ≡ false)
      (request : IsRequest s buf count r) (mode : r.mode_rw ≡ rw_d32)
      (bar : select_bar r.barx_rw ≡ some b)
      (word : bar_words b (s.devices i) (r.offset_rw / 4) ≡ w) where
    abbrev reply : DeviceRw
    reply = record r { data_rw = w }

    read_copies :
        bad_offset r.offset_rw b ≡ false
        → mtcadummy_perform_pre_read_action r.offset_rw r.barx_rw i ≡ none
        → (host.copy_to_user s.user buf (bytes_of_rw reply)).1 ≡ 0
        → Ends
            (λ a t.
              (a ≡ size 24)
              × ReadsOnly s t
              × (t.user ≡ (host.copy_to_user s.user buf (bytes_of_rw reply)).0))
            (mtca_dummy_read i buf count s)
    unfolding mtca_dummy_read with_request control_flag copy_from_user read_request read_register
        load_word return_rw copy_to_user unlock_and_return bad_offset
    read_copies good fine done = ground (arith, ready.slots i)

    -- A readable 32-bit request to read, on a device below 7, in a ready state (IsReady), with no
    -- signal and no injected read failure, of an aligned offset inside bar 0 or 2 that is not
    -- BROKEN_REGISTER returns 24, changes no device, and leaves the request in the process's memory
    -- with data_rw set to the word of that bar, if its fields fit 32 bits and the copy succeeds.
    pub mtca_dummy_read_value :
        bad_offset r.offset_rw b ≡ false
        → mtcadummy_perform_pre_read_action r.offset_rw r.barx_rw i ≡ none
        → IsWords reply
        → (host.copy_to_user s.user buf (bytes_of_rw reply)).1 ≡ 0
        → Ends
            (λ a t. (a ≡ size 24) × ReadsOnly s t × IsRequest t buf count reply)
            (mtca_dummy_read i buf count s)
    mtca_dummy_read_value good fine words done =
        Ends-mono (mtca_dummy_read i buf count s) (read_copies good fine done)
          λ a t h. (h.0, h.1, reply-IsRequest s buf count reply words request.covered done t h.2)
