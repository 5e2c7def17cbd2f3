-- ===== src/ModuleInit/Balance.antt =====
-- The resources of the module between the steps of loading and unloading it.
use pciedummy_driver.Common.{
  ℕ, zero, suc, ◌+◌, ◌<◌, ◌≡◌, ◌∙◌, refl, Bool, true, false, Option, none, some, arith, ◌==◌, ◌&&◌,
  if◌then◌else◌, ltb, leb,
}
use pciedummy_driver.Kernel.{Version}
use pciedummy_driver.ModuleInit.{
  Answers, Resources, Boot, no_resources, Step, pure, is_valid, remove_device, remove_devices,
  register_device, setup_device, setup_devices,
}

-- The step is done, and its result and final state are as `P` says.
abbrev pub Done : {A : Type 0} → (A → Boot → Type 0) → Option (A × Boot) → Type 0
Done P none = ⊥
Done P (some (a, b)) = P a b

-- Device `k` has all its resources; its node may be missing.
abbrev pub is_set_up : Resources → Bool
is_set_up r = r.system_mem && r.dma_mem && r.mutex && r.cdev

-- The devices from `lo` to below `hi` are set up, and no other has anything.
abbrev pub SetUp : ℕ → ℕ → Boot → ℕ → Type 0
SetUp lo hi b k =
    (is_set_up (b.resources k) ≡ (leb lo k && ltb k hi))
    × ((if leb lo k && ltb k hi then no_resources else b.resources k) ≡ no_resources)

-- Between `b` and `c` the three resources of the module as a whole stay.
abbrev pub SameModule : Boot → Boot → Type 0
SameModule b c =
    (c.chrdev_region ≡ b.chrdev_region)
    × (c.dummy_class ≡ b.dummy_class)
    × (c.proc_entry ≡ b.proc_entry)

SameModule-trans : (b c d : Boot) → SameModule b c → SameModule c d → SameModule b d
SameModule-trans b c d p q = (q.0 ∙ p.0, q.1 ∙ p.1, q.2 ∙ p.2)

remove_device_lem :
    (j hi : ℕ) (b : Boot)
    → j < hi
    → ((k : ℕ) → SetUp j hi b k)
    → Done (λ _ c. ((k : ℕ) → SetUp (j + 1) hi c k) × SameModule b c) (remove_device j b)
unfolding remove_device
remove_device_lem j hi b h up = ground (arith, up j)

pub Done-bind :
    {A B : Type 0} {P : A → Boot → Type 0} (Q : B → Boot → Type 0) (r : Option (A × Boot))
    (f : A → Step B)
    → Done P r
    → ((a : A) (c : Boot) → P a c → Done Q (f a c))
    → Done Q (elim r [ none ↦ none | some (a, c) ↦ f a c ])
Done-bind Q none f p k = p
Done-bind Q (some (a, c)) f p k = k a c p

pub Done-mono :
    {A : Type 0} {P Q : A → Boot → Type 0} (r : Option (A × Boot))
    → ((a : A) (c : Boot) → P a c → Q a c)
    → Done P r
    → Done Q r
Done-mono none f p = p
Done-mono (some (a, c)) f p = f a c p

pub remove_devices_lem :
    (n j hi : ℕ) (b : Boot)
    → j + n ≡ hi
    → ((k : ℕ) → SetUp j hi b k)
    → Done (λ _ c. ((k : ℕ) → c.resources k ≡ no_resources) × SameModule b c) (remove_devices n j b)
unfolding remove_devices
remove_devices_lem zero j hi b e up = (λ k. ground (arith, up k), (refl, refl, refl))
remove_devices_lem (suc n) j hi b e up =
    Done-bind (λ _ c. ((k : ℕ) → c.resources k ≡ no_resources) × SameModule b c) (remove_device j b)
      (λ _. remove_devices n (j + 1)) (remove_device_lem j hi b (omega arith) up)
      λ _ c (up', same). done c same (remove_devices_lem n (j + 1) hi c (omega arith) up')
  where
    done :
        (c : Boot)
        → SameModule b c
        → Done
            (λ _ d. ((k : ℕ) → d.resources k ≡ no_resources) × SameModule c d)
            (remove_devices n (j + 1) c)
        → Done
            (λ _ d. ((k : ℕ) → d.resources k ≡ no_resources) × SameModule b d)
            (remove_devices n (j + 1) c)
    done c same =
        Done-mono (remove_devices n (j + 1) c)
          λ _ d (gone, same'). (gone, SameModule-trans b c d same same')

module _ (v : Version) (answers : Answers) where
  -- What the module has for device `i` after the body of the loop.
  abbrev pub set_up : ℕ → Resources
  set_up i = record {
    system_mem = true;
    dma_mem = true;
    mutex = true;
    cdev = true;
    node = is_valid (answers.node_ptr i);
  }

  -- Device `i` is as `r`, and all else is as in `b`.
  abbrev Only : ℕ → Resources → Boot → Boot → Type 0
  Only i r b c =
      (c.resources i ≡ r)
      × ((k : ℕ) → c.resources k ≡ (if k == i then c.resources i else b.resources k))
      × SameModule b c

  register_device_resources :
      (i : ℕ) (b : Boot)
      → b.resources i ≡ record no_resources { system_mem = true; dma_mem = true; mutex = true }
      → Done
          (λ done c. Only i (if done then set_up i else no_resources) b c)
          (register_device v answers i b)
  unfolding register_device
  register_device_resources i b e = ground arith

  setup_device_resources :
      (i : ℕ) (b : Boot)
      → b.resources i ≡ no_resources
      → Done
          (λ done c. Only i (if done then set_up i else no_resources) b c)
          (setup_device v answers i b)
  unfolding setup_device
  setup_device_resources i b e = grind (arith, register_device_resources)

  setup_device-SetUp :
      (i : ℕ) (b c : Boot) (done : Bool)
      → ((k : ℕ) → SetUp 0 i b k)
      → Only i (if done then set_up i else no_resources) b c
      → (k : ℕ) → SetUp 0 (if done then i + 1 else i) c k
  setup_device-SetUp i b c true up (here, rest, _) k = ground (arith, up k, rest k)
  setup_device-SetUp i b c false up (here, rest, _) k = ground (arith, up k, rest k)

  -- The devices from 0 to below the one at which the loop stopped are set up; all `total` of them,
  -- if it did not stop.
  abbrev pub stopped_at : ℕ → Option ℕ → ℕ
  stopped_at total none = total
  stopped_at total (some j) = j

  abbrev pub SetUpTo : ℕ → Boot → Option ℕ → Boot → Type 0
  SetUpTo total b stopped c = ((k : ℕ) → SetUp 0 (stopped_at total stopped) c k) × SameModule b c

  pub setup_devices_lem :
      (n i total : ℕ) (b : Boot)
      → i + n ≡ total
      → ((k : ℕ) → SetUp 0 i b k)
      → Done (SetUpTo total b) (setup_devices v answers n i b)
  unfolding setup_devices
  setup_devices_lem zero i total b e up = (λ k. ground (arith, up k), (refl, refl, refl))
  setup_devices_lem (suc n) i total b e up =
      Done-bind (SetUpTo total b) (setup_device v answers i b) _
        (setup_device_resources i b (ground (arith, up i)))
        (go λ c up'. setup_devices_lem n (i + 1) total c (omega arith) up')
    where
      go :
          ((c : Boot)
            → ((k : ℕ) → SetUp 0 (i + 1) c k)
            → Done (SetUpTo total c) (setup_devices v answers n (i + 1) c))
          → (done : Bool) (c : Boot) → Only i (if done then set_up i else no_resources) b c
          → Done
              (SetUpTo total b)
              ((if done then setup_devices v answers n (i + 1) else pure (some i)) c)
      go later true c only =
          Done-mono (setup_devices v answers n (i + 1) c)
            (λ stopped d (up', same'). (up', SameModule-trans b c d only.2 same'))
            (later c (setup_device-SetUp i b c true up only))
      go later false c only = (setup_device-SetUp i b c false up only, only.2)
