-- ===== src/NoStruct/WriteSafety.antt =====
-- The accesses, the mutexes and the state on every path through `mtcaDummy_write_no_struct`.
use pciedummy_driver.Common.{
  ℕ, zero, suc, ◌+◌, ◌*◌, ◌/◌, ◌^◌, ◌≤◌, ◌<◌, ◌≡◌, ◌∙◌, ap, true, some, none, Option, [], ◌∷◌,
  arith,
}
use pciedummy_driver.State.{bar_size}
use pciedummy_driver.Kernel.{
  Errno, Ssize, Cmd, Host, Sys, dev_mutex, control_flag, store_word, copy_from_user,
  unlock_and_fail, unlock_and_return,
}
use pciedummy_driver.Kernel.Laws.{
  Ends, Ends-mono, Ends-bind, IsReady, BarsOnly, BarsOnly-trans, ChangesBars, entered,
}
use pciedummy_driver.Firmware.{mtcadummy_perform_action_on_write}
use pciedummy_driver.Firmware.Frame.{switch_on_write-Frame}
use pciedummy_driver.NoStruct.{
  TransferInformation, add64, fail_at, write_word, write_words, with_transfer,
  mtca_dummy_write_no_struct,
}
use pciedummy_driver.NoStruct.Check.{
  is_addressable, transfer_at, check_and_calculate_transfer_information_lem,
}
use pciedummy_driver.NoStruct.Reads.{transfer_at_fits}

module _ {M : Type 0} ⦃host : Host M⦄ (i buf : ℕ) (info : TransferInformation) (hi : i < 7) where
  pub write_word-BarsOnly :
      (k : ℕ) (s : Sys M)
      → (s.devices i).slot_nr ≡ i
      → s.held ≡ dev_mutex i ∷ []
      → (info.offset / 4 + k) * 4 < bar_size info.bar_start
      → Ends
          (λ e t. BarsOnly i s t × (t.held ≡ s.held) × (t.user ≡ s.user))
          (write_word k info i buf s)
  unfolding write_word copy_from_user store_word mtcadummy_perform_action_on_write control_flag
  write_word-BarsOnly k s slot held inside = grind (arith, switch_on_write-Frame)

  -- What the write of a word left is a state in which the rest of the loop can run.
  after_failure :
      (e : Errno) (pos : ℕ) (s t : Sys M)
      → BarsOnly i s t
      → t.held ≡ dev_mutex i ∷ []
      → t.user ≡ s.user
      → Ends (λ r u. ChangesBars i s u × (u.user ≡ s.user)) (fail_at pos i e t)
  unfolding fail_at unlock_and_fail
  after_failure e pos s t bars held user = ground arith

  pub write_words-ChangesBars :
      (n k pos : ℕ) (s : Sys M)
      → (s.devices i).slot_nr ≡ i
      → s.held ≡ dev_mutex i ∷ []
      → (info.offset / 4 + k + n) * 4 ≤ bar_size info.bar_start
      → Ends (λ r t. ChangesBars i s t × (t.user ≡ s.user)) (write_words n k info i buf pos s)
  unfolding write_words unlock_and_return
  write_words-ChangesBars zero k pos s slot held fits = ground arith
  write_words-ChangesBars (suc n) k pos s slot held fits =
      Ends-bind (λ r t. ChangesBars i s t × (t.user ≡ s.user)) (write_word k info i buf s) _
        (write_word-BarsOnly k s slot held (omega arith))
        (go λ t slot' held'.
          write_words-ChangesBars n (k + 1) (add64 pos 4) t slot' held' (omega arith))
    where
      go :
          ((t : Sys M)
            → (t.devices i).slot_nr ≡ i
            → t.held ≡ dev_mutex i ∷ []
            → Ends
                (λ r u. ChangesBars i t u × (u.user ≡ t.user))
                (write_words n (k + 1) info i buf (add64 pos 4) t))
          → (failure : Option Errno) (t : Sys M)
          → BarsOnly i s t × (t.held ≡ s.held) × (t.user ≡ s.user)
          → let rest : Cmd M (Ssize × ℕ) = elim failure [
            | some e ↦ fail_at pos i e
            | none ↦ write_words n (k + 1) info i buf (add64 pos 4)
          ] in
            Ends (λ r u. ChangesBars i s u × (u.user ≡ s.user)) (rest t)
      go later (some e) t (bars, same, user) = after_failure e pos s t bars (same ∙ held) user
      go later none t (bars, same, user) =
          Ends-mono {Q = λ r u. ChangesBars i s u × (u.user ≡ s.user)}
            (write_words n (k + 1) info i buf (add64 pos 4) t)
            (later t (bars.slot_nr ∙ slot) (same ∙ held))
            λ r u (done, user'). (
              record { free = done.free; bars = BarsOnly-trans i s t u bars done.bars },
              user' ∙ user,
            )

module _ {M : Type 0} ⦃host : Host M⦄ where
  write_words-entered-ChangesBars :
      (i buf count pos : ℕ) (s : Sys M)
      → i < 7
      → IsReady s
      → pos < 2 ^ 64
      → is_addressable pos ≡ true
      → let info = transfer_at count pos in
        Ends
          (λ r t. ChangesBars i s t × (t.user ≡ s.user))
          (write_words (info.n_bytes_to_transfer / 4) 0 info i buf pos (entered i s))
  write_words-entered-ChangesBars i buf count pos s hi ready range ad =
      let info : TransferInformation = transfer_at count pos in
      let n : ℕ = info.n_bytes_to_transfer / 4 in
      let fits = transfer_at_fits count pos ad range in
      Ends-mono {Q = λ r t. ChangesBars i s t × (t.user ≡ s.user)}
        (write_words n 0 info i buf pos (entered i s))
        (write_words-ChangesBars i buf info hi n 0 pos (entered i s) (ready.slots i hi)
          (ap (λ ls. dev_mutex i ∷ ls) ready.free) (omega (arith, fits.0)))
        λ r t h. ground arith

  -- For a count below 2 ^ 63 and a position below 2 ^ 64, mtcaDummy_write_no_struct on a device
  -- below 7, called in a ready state (IsReady), ends on every path without a fault and with no
  -- mutex held; at most words inside the two bars of its device and the pending signals have
  -- changed.
  pub mtca_dummy_write_no_struct-ChangesBars :
      (i buf count pos : ℕ) (s : Sys M)
      → i < 7
      → IsReady s
      → count < 2 ^ 63
      → pos < 2 ^ 64
      → Ends
          (λ r t. ChangesBars i s t × (t.user ≡ s.user))
          (mtca_dummy_write_no_struct i buf count pos s)
  unfolding mtca_dummy_write_no_struct with_transfer control_flag
  mtca_dummy_write_no_struct-ChangesBars i buf count pos s hi ready small range = ground (
    arith,
    check_and_calculate_transfer_information_lem count pos small,
    write_words-entered-ChangesBars i buf count pos s hi ready range,
  )
