-- ===== src/Proc/Flags.antt =====
-- What a write to the proc file does to the control data.
use Prim.Native.Nat.{min}
use pciedummy_driver.Common.{
  Bool, ℕ, ◌^◌, ◌<◌, ◌≡◌, not, some, List, [], ◌∷◌, ◌++◌, arith, ◌==◌, if◌then◌else◌, ◌&&◌,
}
use pciedummy_driver.Kernel.{
  Host, Sys, size, error, efault, ewouldblock, next_signal, mutex_lock_interruptible, mutex_unlock,
  copy_from_user,
}
use pciedummy_driver.Kernel.Laws.{Ends, Ends-mono, IsReady}
use pciedummy_driver.Proc.{
  no_options, assign_options, c_string, tokens, scan_tokens, options_of, set_control,
  mtcadummy_proc_write,
}
use pciedummy_driver.Proc.Parsing.{
  prefix_of, flag_of, assign_options-flag_of, no_option_assigned, last_given, injected, NoneScans,
  EarlierFail, option_kept, option_last, assign_options-injected, Failure,
}

module _ {M : Type 0} ⦃host : Host M⦄ (ubuf count : ℕ) (s : Sys M) where
  -- The tokens of the text that the process writes.
  abbrev pub written_tokens : List (List ℕ)
  written_tokens = tokens (c_string (host.copy_from_user s.user ubuf (min count 254)).0)

  -- All outcomes of a write, with the control data as the options in the text assign it.
  mtcadummy_proc_write_ends :
      IsReady s
      → Ends
          (λ a t.
            (t.held ≡ [])
            × (t.devices ≡ s.devices)
            × (t.user ≡ s.user)
            × (a ≡ (
                if not ((host.copy_from_user s.user ubuf (min count 254)).1 == 0)
                then error efault
                else if next_signal s.signals
                then error ewouldblock
                else size count))
            × (t.control ≡ (
                if ((host.copy_from_user s.user ubuf (min count 254)).1 == 0)
                  && not (next_signal s.signals)
                then assign_options
                    (scan_tokens host.sscanf_int written_tokens no_options)
                    s.control
                else s.control)))
          (mtcadummy_proc_write ubuf count s)
  unfolding mtcadummy_proc_write copy_from_user mutex_lock_interruptible mutex_unlock set_control
      options_of
  mtcadummy_proc_write_ends ready = ground arith

  -- The text reached the driver, and no signal came.
  abbrev pub is_taken : Bool
  is_taken =
      ((host.copy_from_user s.user ubuf (min count 254)).1 == 0) && not (next_signal s.signals)

  -- Called in a ready state (IsReady), mtcadummy_proc_write returns -EFAULT if the first 254 bytes
  -- or fewer cannot be read, -EWOULDBLOCK if a signal comes, and else the whole count. Only in the
  -- last case flags change: each of the four is set, if the last token that gives its option (the
  -- first of the four prefixes with which the token scans) has a value below 2 ^ 31, to whether
  -- that value is not 0, and stays otherwise. No mutex is held at the end, and the devices and the
  -- process's memory stay.
  pub mtcadummy_proc_write_lem :
      IsReady s
      → Ends
          (λ a t.
            (t.held ≡ [])
            × (t.devices ≡ s.devices)
            × (t.user ≡ s.user)
            × (a ≡ (
                if not ((host.copy_from_user s.user ubuf (min count 254)).1 == 0)
                then error efault
                else if next_signal s.signals
                then error ewouldblock
                else size count))
            × ((f : Failure)
                → flag_of f t.control ≡ (
                    if is_taken
                    then injected
                        (last_given host.sscanf_int f written_tokens)
                        (flag_of f s.control)
                    else flag_of f s.control)))
          (mtcadummy_proc_write ubuf count s)
  mtcadummy_proc_write_lem ready =
      Ends-mono (mtcadummy_proc_write ubuf count s) (mtcadummy_proc_write_ends ready)
        λ a t (held, devices, user, result, control). (
          held,
          devices,
          user,
          result,
          λ f.
              rw control (
                ground (arith, assign_options-injected host.sscanf_int f written_tokens s.control)),
        )

  module _ (ready : IsReady s) (no_signal : s.signals ≡ [])
      (readable : (host.copy_from_user s.user ubuf (min count 254)).1 ≡ 0) where
    -- The control data that the options in the text assign.
    mtcadummy_proc_write_assigns :
        Ends
          (λ a t.
            (a ≡ size count)
            × (t.control
                ≡ assign_options (scan_tokens host.sscanf_int written_tokens no_options) s.control))
          (mtcadummy_proc_write ubuf count s)
    mtcadummy_proc_write_assigns =
        Ends-mono (mtcadummy_proc_write ubuf count s) (mtcadummy_proc_write_ends ready)
          λ a t h. ground (arith, h)

    -- For each of the four injected failures: in a ready state (IsReady), with no signal and
    -- readable text, if a token is not taken for an option that is tried earlier and gives this
    -- failure's option the value v below 2 ^ 31, and no later token gives that option, the write
    -- returns the count and the failure is injected from then on exactly if v is not 0.
    pub mtcadummy_proc_write-last :
        (f : Failure) (ts us : List (List ℕ)) (t : List ℕ) (v : ℕ)
        → written_tokens ≡ ts ++ (t ∷ us)
        → EarlierFail host.sscanf_int f t
        → host.sscanf_int (prefix_of f) t ≡ some v
        → v < 2 ^ 31
        → NoneScans host.sscanf_int (prefix_of f) us
        → Ends
            (λ a u. (a ≡ size count) × (flag_of f u.control ≡ not (v == 0)))
            (mtcadummy_proc_write ubuf count s)
    mtcadummy_proc_write-last f ts us t v split earlier found positive rest =
        Ends-mono (mtcadummy_proc_write ubuf count s) mtcadummy_proc_write_assigns λ a u h. (
          h.0,
          rw
              (
                h.1,
                split,
                assign_options-flag_of f (scan_tokens host.sscanf_int (ts ++ (t ∷ us)) no_options)
                    s.control,
                option_last host.sscanf_int f ts us t v no_options earlier found rest,
              )
              (ground arith),
        )

    -- For each of the four injected failures: in a ready state (IsReady), with no signal and
    -- readable text, if no token gives its option, the write returns the count and the flag of that
    -- failure stays as it was.
    pub mtcadummy_proc_write_keeps :
        (f : Failure)
        → NoneScans host.sscanf_int (prefix_of f) written_tokens
        → Ends
            (λ a u. (a ≡ size count) × (flag_of f u.control ≡ flag_of f s.control))
            (mtcadummy_proc_write ubuf count s)
    mtcadummy_proc_write_keeps f rest =
        Ends-mono (mtcadummy_proc_write ubuf count s) mtcadummy_proc_write_assigns λ a u h. (
          h.0,
          rw
              (
                h.1,
                assign_options-flag_of f (scan_tokens host.sscanf_int written_tokens no_options)
                    s.control,
                option_kept host.sscanf_int f written_tokens no_options rest,
              )
              (no_option_assigned f (flag_of f s.control)),
        )
