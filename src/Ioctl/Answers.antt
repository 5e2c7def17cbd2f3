-- ===== src/Ioctl/Answers.antt =====
-- What the process finds at the address of the argument after a successful ioctl.
use pciedummy_driver.Common.{ℕ, ◌+◌, ◌%◌, ◌^◌, ◌≤◌, ◌<◌, ◌≡◌, List, [], ◌∷◌, arith}
use pciedummy_driver.Common.Bytes.{
  AreBytes, bytes_from-AreBytes, bytes_from, length-bytes_from, word_at-bytes_of_word,
}
use pciedummy_driver.Kernel.{
  Host, Sys, size, dev_mutex, get_device, in_bounds, unlock_and_return, copy_from_user,
  copy_to_user,
}
use pciedummy_driver.Kernel.Laws.{Ends}
use pciedummy_driver.Ioctl.{
  DeviceIoctrlData, bytes_of_ioctrl_data, ioctrl_data_of_bytes, answer, copy_dma, ioctl_read_dma,
}
use pciedummy_driver.Ioctl.Safety.{dma_request}

-- Each field fits its 32 bits.
pub record AreWords (r : DeviceIoctrlData) : Type 0 where
  pub offset : r.offset < 2 ^ 32
  pub payload : r.payload < 2 ^ 32
  pub cmd : r.cmd < 2 ^ 32
  pub reserved : r.reserved < 2 ^ 32

ioctrl_data_of_bytes-bytes_of_ioctrl_data :
    (r : DeviceIoctrlData) → AreWords r → ioctrl_data_of_bytes (bytes_of_ioctrl_data r) ≡ r
unfolding ioctrl_data_of_bytes bytes_of_ioctrl_data
ioctrl_data_of_bytes-bytes_of_ioctrl_data r h = λ i. record {
  offset = word_at-bytes_of_word r.offset h.offset i;
  payload = word_at-bytes_of_word r.payload h.payload i;
  cmd = word_at-bytes_of_word r.cmd h.cmd i;
  reserved = word_at-bytes_of_word r.reserved h.reserved i;
}

bytes_of_ioctrl_data-AreBytes : (r : DeviceIoctrlData) → AreBytes (bytes_of_ioctrl_data r)
unfolding bytes_of_ioctrl_data
bytes_of_ioctrl_data-AreBytes r = ground arith

module _ {M : Type 0} ⦃host : Host M⦄ (i arg : ℕ) (s : Sys M) (hi : i < 7)
    (held : s.held ≡ dev_mutex i ∷ []) where
  module _ (readable : (host.copy_from_user s.user arg 16).1 ≡ 0) where
    answer_lem :
        (change : DeviceIoctrlData → DeviceIoctrlData)
        → let r = change (ioctrl_data_of_bytes (host.copy_from_user s.user arg 16).0) in
          AreWords r
          → (host.copy_to_user s.user arg (bytes_of_ioctrl_data r)).1 ≡ 0
          → Ends
              (λ a t.
                (a ≡ size 0)
                × (t.held ≡ [])
                × (ioctrl_data_of_bytes (host.copy_from_user t.user arg 16).0 ≡ r))
              (answer i arg change s)
    unfolding answer unlock_and_return copy_from_user copy_to_user bytes_of_ioctrl_data
    answer_lem change words done =
        let r : DeviceIoctrlData =
          change (ioctrl_data_of_bytes (host.copy_from_user s.user arg 16).0) in
        ground (
          arith,
          host.copied s.user arg (bytes_of_ioctrl_data r) (bytes_of_ioctrl_data-AreBytes r) done,
          ioctrl_data_of_bytes-bytes_of_ioctrl_data r words,
        )

  -- The bytes of the DMA bar that the request names.
  abbrev requested_bytes : List ℕ
  requested_bytes =
      let r = dma_request s arg in bytes_from (s.devices i).dma_bar r.dma_offset r.dma_size

  -- On a device below 7, with its mutex held and a readable request, a DMA ioctl whose offset is a
  -- multiple of 4 and whose range ends within the DMA bar returns 0, and the process finds the
  -- bytes of that range at the address of the argument, if the copy succeeds.
  pub ioctl_read_dma_copies :
      (host.copy_from_user s.user arg 24).1 ≡ 0
      → (dma_request s arg).dma_offset % 4 ≡ 0
      → (dma_request s arg).dma_offset + (dma_request s arg).dma_size ≤ 4096
      → (host.copy_to_user s.user arg requested_bytes).1 ≡ 0
      → Ends
          (λ a t.
            (a ≡ size 0)
            × (host.copy_from_user t.user arg (dma_request s arg).dma_size ≡ (requested_bytes, 0)))
          (ioctl_read_dma i arg s)
  unfolding ioctl_read_dma copy_dma copy_from_user copy_to_user in_bounds unlock_and_return
      get_device
  ioctl_read_dma_copies readable al small done =
      let r = dma_request s arg in
      ground (
        arith,
        host.copied s.user arg (bytes_from (s.devices i).dma_bar r.dma_offset r.dma_size)
            (bytes_from-AreBytes (s.devices i).dma_bar r.dma_offset r.dma_size) done,
        length-bytes_from (s.devices i).dma_bar r.dma_offset r.dma_size,
      )
