-- ===== src/Threads/Guarded/Action.antt =====
-- The firmware's action on a write keeps to the locking discipline.
use pciedummy_driver.Common.{ℕ, ◌<◌, ◌≡◌, Option, none, some, List, [], ◌∷◌}
use pciedummy_driver.Firmware.Words.{HasWords-switch_on_write}
use pciedummy_driver.Kernel.{Errno, Lock, dev_mutex, Host}
use pciedummy_driver.Threads.{Steps, ◌>>=◌}
use pciedummy_driver.Threads.Pieces.{action_on_write_steps}
use pciedummy_driver.Threads.Discipline.{Guards, Guards-then}
use pciedummy_driver.Threads.Guarded.{guard_rules}

module _ (M : Type 0) ⦃host : Host M⦄ where
  action_on_write-Guards :
      (offset bar_number i : ℕ)
      → i < 7
      → Guards
          (λ a h. h ≡ dev_mutex i ∷ [])
          (dev_mutex i ∷ [])
          (action_on_write_steps {M = M} offset bar_number i)
  unfolding action_on_write_steps
  action_on_write-Guards offset bar_number i hi =
      search (guard_rules, HasWords-switch_on_write host.version host.version_is_words) depth 20

module _ {M A : Type 0} ⦃host : Host M⦄ (Q : A → List Lock → Type 0) where
  pub Guards-action :
      (offset bar_number i : ℕ) (f : Option Errno → Steps M A)
      → i < 7
      → Guards Q (dev_mutex i ∷ []) (f none)
      → ((e : Errno) → Guards Q (dev_mutex i ∷ []) (f (some e)))
      → Guards Q (dev_mutex i ∷ []) (action_on_write_steps offset bar_number i >>= f)
  Guards-action offset bar_number i f hi p q =
      Guards-then Q (dev_mutex i ∷ []) (action_on_write_steps offset bar_number i) f
        (action_on_write-Guards M offset bar_number i hi) both
    where
      both : (result : Option Errno) → Guards Q (dev_mutex i ∷ []) (f result)
      both none = p
      both (some e) = q e
