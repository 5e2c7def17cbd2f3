-- ===== src/AutomaticTest/StructRefines.antt =====
-- StructReaderWriter.cc against the board.
use pciedummy_driver.Common.{
  ℕ, ◌^◌, ◌<◌, ◌≡◌, refl, ◌∙◌, ap, Bool, Option, none, some, arith, if◌then◌else◌, length,
}
use pciedummy_driver.Common.Bytes.{u32}
use pciedummy_driver.Kernel.{Ssize, Host, Sys}
use pciedummy_driver.Kernel.Laws.{Ends, Ends-mono, Ends-bind, IsCalm, count_of}
use pciedummy_driver.Files.{ReadWrite, file_ops_of, with_struct}
use pciedummy_driver.Driver.{read_file, write_file, handler_of, read_with, write_with}
use pciedummy_driver.Board.{Board, board_of, board_read, board_write}
use pciedummy_driver.StructIo.{
  DeviceRw, bytes_of_rw, rw_of_bytes, mtca_dummy_read, mtca_dummy_write,
}
use pciedummy_driver.StructIo.Reads.{IsWords, reply-IsRequest, bytes_of_rw-AreBytes}
use pciedummy_driver.StructIo.Writes.{IsRequest}
use pciedummy_driver.StructIo.Refines.{
  TakesReply, replied, reply_count, mtca_dummy_read-board_read, mtca_dummy_write-board_write,
}
use pciedummy_driver.AutomaticTest.{
  SystemCalls, IsObject, Follows, ChangesAt, Apart, Called, Ends-if, is_count, store, load,
  pread_ends, pwrite_ends,
}
use pciedummy_driver.AutomaticTest.Contract.{
  word_of, ReadsOnly-Follows, ChangesBars-Follows, Follows-from, IsCalm-user,
}
use pciedummy_driver.AutomaticTest.StructReaderWriter.{instruction_for, read_single, write_single}

instruction_for-IsWords :
    (offset bar value : ℕ)
    → offset < 2 ^ 32
    → bar < 2 ^ 32
    → value < 2 ^ 32
    → IsWords (instruction_for offset bar value)
instruction_for-IsWords offset bar value ho hb hv = record {
  offset_rw = ho;
  data_rw = hv;
  mode_rw = omega arith;
  barx_rw = hb;
  size_rw = omega arith;
  rsrvd_rw = omega arith;
}

length-bytes_of_rw : (r : DeviceRw) → length (bytes_of_rw r) ≡ 24
unfolding bytes_of_rw
length-bytes_of_rw r = refl

data_of_reply :
    (r : DeviceRw) (w : ℕ) → (rw_of_bytes (bytes_of_rw (record r { data_rw = w }))).data_rw ≡ u32 w
unfolding rw_of_bytes bytes_of_rw
data_of_reply r w = omega arith

module _ {M : Type 0} ⦃host : Host M⦄ ⦃calls : SystemCalls M⦄ (i a : ℕ) (hi : i < 7)
    (reads : (file_ops_of i).read ≡ some with_struct)
    (writes : (file_ops_of i).write ≡ some with_struct) (object : IsObject host a 24) where
  object-TakesReply : (m : M) → TakesReply m a
  object-TakesReply m r =
      object.writable m a (bytes_of_rw r) (omega arith) (rw (length-bytes_of_rw r) (omega arith))

  copied_back :
      (m : M) (r : DeviceRw)
      → host.copy_from_user (host.copy_to_user m a (bytes_of_rw r)).0 a 24 ≡ (bytes_of_rw r, 0)
  unfolding bytes_of_rw
  copied_back m r = host.copied m a (bytes_of_rw r) (bytes_of_rw-AreBytes r) (object-TakesReply m r)

  module _ (offset bar value : ℕ) (s : Sys M) (calm : IsCalm s) (ho : offset < 2 ^ 32)
      (hb : bar < 2 ^ 32) (hv : value < 2 ^ 32) where
    abbrev r : DeviceRw
    r = instruction_for offset bar value

    -- The state when the system call starts.
    abbrev asked : Sys M
    asked = record s { user = (host.copy_to_user s.user a (bytes_of_rw r)).0 }

    asked-IsRequest : IsRequest asked a 24 r
    asked-IsRequest =
        reply-IsRequest s a 24 r (instruction_for-IsWords offset bar value ho hb hv) (omega arith)
          (object-TakesReply s.user r) asked refl

    stored_outside :
        (m : M) (r' : DeviceRw) (b k : ℕ)
        → Apart a 24 b k
        → host.copy_from_user (host.copy_to_user m a (bytes_of_rw r')).0 b k
          ≡ host.copy_from_user m b k
    stored_outside m r' b k apart =
        host.outside m a b k (bytes_of_rw r') (rw (length-bytes_of_rw r') apart)

    read_handler : handler_of {M = M} (read_file i a 24 0) ≡ some (mtca_dummy_read i a 24)
    unfolding handler_of read_with
    read_handler =
        ap
          (λ (o : Option ReadWrite). elim o [
            | none ↦ none
            | some k ↦ some (read_with {M = M} k i a 24 0)
          ])
          reads

    write_handler : handler_of {M = M} (write_file i a 24 0) ≡ some (mtca_dummy_write i a 24)
    unfolding handler_of write_with
    write_handler =
        ap
          (λ (o : Option ReadWrite). elim o [
            | none ↦ none
            | some k ↦ some (write_with {M = M} k i a 24 0)
          ])
          writes

    abbrev found : Option ℕ
    found = board_read (board_of (s.devices i)) bar offset

    abbrev Replies : Ssize → Sys M → Type 0
    Replies n t =
        (count_of n ≡ reply_count found)
        × Follows i (board_of (s.devices i)) s t
        × (t.user ≡ replied asked.user a r found)

    read_ends : Ends (Called Replies) (calls.pread i a 24 0 asked)
    read_ends =
        pread_ends i a 24 0 (mtca_dummy_read i a 24) asked (omega arith) (omega arith)
          (object.accessible asked.user a 24 (omega arith) (omega arith)) Replies read_handler
          (Ends-mono (mtca_dummy_read i a 24 asked)
            (mtca_dummy_read-board_read i a 24 asked r hi (IsCalm-user s asked.user calm)
              asked-IsRequest refl (object-TakesReply asked.user))
            λ n t h. (
              (
                h.0,
                Follows-from i _ s asked.user t
                    (ReadsOnly-Follows i asked t (IsCalm-user s asked.user calm) h.2 h.3),
                h.4,
              ),
              h.1,
            ))

    abbrev ReadsWord : Option ℕ → Sys M → Type 0
    ReadsWord w t =
        (w ≡ word_of found) × Follows i (board_of (s.devices i)) s t × ChangesAt a 24 s t

    -- What the process makes of the result and of its structure.
    abbrev outcome : Option ℕ → Sys M → Option ℕ
    outcome n t =
        if is_count n 24
        then some (rw_of_bytes (host.copy_from_user t.user a 24).0).data_rw
        else none

    outcome_found :
        (q : Option ℕ) (n : Option ℕ) (t : Sys M)
        → n ≡ reply_count q
        → t.user ≡ replied asked.user a r q
        → (outcome n t ≡ word_of q) × ChangesAt a 24 s t
    outcome_found none n t e m = (rw e refl, λ b k apart. rw m (stored_outside s.user r b k apart))
    outcome_found (some w) n t e m = (
      rw (e, m, copied_back asked.user (record r { data_rw = w })) (ap some (data_of_reply r w)),
      λ b k apart. rw m (
          stored_outside asked.user (record r { data_rw = w }) b k apart
          ∙ stored_outside s.user r b k apart),
    )

    abbrev written : Bool × Board
    written = board_write host.version s.control.spi_error bar offset value (board_of (s.devices i))

    abbrev Stores : Ssize → Sys M → Type 0
    Stores n t =
        (count_of n ≡ (if written.0 then some 24 else none))
        × Follows i written.1 s t
        × (t.user ≡ asked.user)

    write_ends : Ends (Called Stores) (calls.pwrite i a 24 0 asked)
    write_ends =
        pwrite_ends i a 24 0 (mtca_dummy_write i a 24) asked (omega arith) (omega arith)
          (object.accessible asked.user a 24 (omega arith) (omega arith)) Stores write_handler
          (Ends-mono (mtca_dummy_write i a 24 asked)
            (mtca_dummy_write-board_write i a 24 asked r hi (IsCalm-user s asked.user calm)
              asked-IsRequest refl)
            λ n t h. (
              (
                h.0,
                Follows-from i written.1 s asked.user t (
                    ChangesBars-Follows i written.1 asked t (IsCalm-user s asked.user calm) h.2 h.3
                      h.5),
                h.4,
              ),
              h.1,
            ))

    is_count_if : (b : Bool) → is_count (if b then some 24 else none) 24 ≡ b
    is_count_if b = ground arith

    pub write_single_ends :
        Ends
          (λ good t. (good ≡ written.0) × Follows i written.1 s t × ChangesAt a 24 s t)
          (write_single i a offset bar value s)
    unfolding write_single store
    write_single_ends = Ends-bind _ (calls.pwrite i a 24 0 asked) _ write_ends λ n t (c, h, q). (
      rw (q, h.0) (is_count_if written.0),
      h.1,
      λ b k apart. rw h.2 (stored_outside s.user r b k apart),
    )

  pub read_single_ends :
      (offset bar : ℕ) (s : Sys M) (calm : IsCalm s) (ho : offset < 2 ^ 32) (hb : bar < 2 ^ 32)
      → Ends (ReadsWord offset bar 0 s calm ho hb (omega arith)) (read_single i a offset bar s)
  unfolding read_single store load
  read_single_ends offset bar s calm ho hb =
      let small : 0 < 2 ^ 32 = omega arith in
      let start : Sys M = asked offset bar 0 s calm ho hb small in
      Ends-bind (ReadsWord offset bar 0 s calm ho hb small) (calls.pread i a 24 0 start) _
        (read_ends offset bar 0 s calm ho hb small)
        λ n t (c, h, q).
          let seen =
            outcome_found offset bar 0 s calm ho hb small (found offset bar 0 s calm ho hb small) n
              t (q ∙ h.0) h.2 in
          Ends-if (ReadsWord offset bar 0 s calm ho hb small) (is_count n 24)
            (some (rw_of_bytes (host.copy_from_user t.user a 24).0).data_rw) none t
            (seen.0, h.1, seen.1)
