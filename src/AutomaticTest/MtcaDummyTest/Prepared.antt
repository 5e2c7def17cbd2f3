-- ===== src/AutomaticTest/MtcaDummyTest/Prepared.antt =====
-- The constructor of `MtcaDummyTest` and the tests that read.
use pciedummy_driver.Common.{
  ℕ, ◌+◌, ◌*◌, ◌^◌, ◌≤◌, ◌<◌, ◌≡◌, refl, ◌∙◌, ap, true, some, arith, ◌==◌, if◌then◌else◌, ltb, inl,
  inr, Bool-cases,
}
use native.Mathlib.Nat.{mul-le-mul}
use pciedummy_driver.Common.Bytes.{u32, bytes_of_word}
use pciedummy_driver.State.{mtcadummy_dmmy_as_ascii}
use pciedummy_driver.Kernel.{Host, Sys}
use pciedummy_driver.Kernel.Laws.{Ends, Ends-mono, IsCalm}
use pciedummy_driver.Board.{Board, board_of, board_read}
use pciedummy_driver.AutomaticTest.{ReaderWriter, IsObject, Apart}
use pciedummy_driver.AutomaticTest.Contract.{Serves, word_of, IsCalm-user}
use pciedummy_driver.AutomaticTest.MtcaDummyTest.{mtca_dummy_test, test_read_single}
use pciedummy_driver.AutomaticTest.MtcaDummyTest.Areas.{Apart-within, element_word, write_area_ends}
use pciedummy_driver.AutomaticTest.MtcaDummyTest.Words.{dma_read}
use pciedummy_driver.AutomaticTest.MtcaDummyTest.Registers.{Passes, Keeps, Keeps-read, attempt_ends}
use pciedummy_driver.AutomaticTest.MtcaDummyTest.Vectors.{
  element, stored, stored-element, store_words_lem,
}

-- The vectors are objects of the process of 1024 words each; neither they nor the `n` bytes of local
-- objects from `a` on have a byte in common.
pub record Layout {M : Type 0} (host : Host M) (a n helix expected buf : ℕ) : Type 0 where
  pub helix_object : IsObject host helix (1024 * 4)
  pub expected_object : IsObject host expected (1024 * 4)
  pub buf_object : IsObject host buf (1024 * 4)
  pub helix_local : Apart a n helix (1024 * 4)
  pub expected_local : Apart a n expected (1024 * 4)
  pub buf_local : Apart a n buf (1024 * 4)
  pub helix_expected : Apart helix (1024 * 4) expected (1024 * 4)
  pub helix_buf : Apart helix (1024 * 4) buf (1024 * 4)
  pub expected_buf : Apart expected (1024 * 4) buf (1024 * 4)

-- `bufferHelix`.
abbrev pub helix_word : ℕ → ℕ
helix_word j = if ltb j 25 then j * j else 0

pub helix_word_small : (j : ℕ) → helix_word j < 2 ^ 32
helix_word_small j = elim (Bool-cases (ltb j 25)) [
  | inl low ↦
      let few : j ≤ 24 = ground arith in
      let square : j * j ≤ 24 * 24 = mul-le-mul few few in rw low (omega (arith, square))
  | inr high ↦ rw high (omega arith)
]

dummy_read : (c : Board) → word_of (board_read c 0 0x3C) ≡ some (u32 (c.system 15))
unfolding board_read
dummy_read c = refl

module _ {M : Type 0} ⦃host : Host M⦄ (i a n helix expected buf : ℕ) (client : ReaderWriter M)
    (serves : Serves i a n client) (layout : Layout host a n helix expected buf) where
  -- The constructor has run. The tests change word 8 of bar 2.
  pub record Prepared (s : Sys M) : Type 0 where
    pub calm : IsCalm s
    pub dummy : (s.devices i).system_bar 15 ≡ mtcadummy_dmmy_as_ascii
    pub dma :
        (q : ℕ)
        → q < 1024
        → (s.devices i).dma_bar q ≡ (if q == 8 then (s.devices i).dma_bar q else helix_word q)
    pub elements : (j : ℕ) → j < 1024 → element s.user helix j ≡ (bytes_of_word (helix_word j), 0)

  pub Keeps-Prepared : (s t : Sys M) → Keeps i a n s t → Prepared s → Prepared t
  Keeps-Prepared s t k p = record {
    calm = k.calm;
    dummy = k.dummy ∙ p.dummy;
    dma = λ q below. ground (arith, k.dma q, p.dma q below);
    elements = λ j below.
        k.memory (helix + j * 4) 4 (
          Apart-within a n helix (1024 * 4) (helix + j * 4) 4 layout.helix_local (omega arith)
            (omega (arith, below)))
        ∙ p.elements j below;
  }

  module _ (s : Sys M) (calm : IsCalm s)
      (dummy : (s.devices i).system_bar 15 ≡ mtcadummy_dmmy_as_ascii) where
    abbrev zeros : M
    zeros = stored 1024 0 helix (λ k. 0) s.user

    abbrev filled : Sys M
    filled = record s { user = stored 25 0 helix (λ k. k * k) zeros }

    filled_elements :
        (j : ℕ) → j < 1024 → element filled.user helix j ≡ (bytes_of_word (helix_word j), 0)
    filled_elements j below =
        let later =
          stored-element helix 1024 layout.helix_object 25 0 (λ k. k * k) zeros j (omega arith) in
        let earlier =
          stored-element helix 1024 layout.helix_object 1024 0 (λ k. 0) s.user j (omega arith) in
        later ∙ elim (Bool-cases (ltb j 25)) [
          | inl low ↦ ground (arith, low)
          | inr high ↦ ground (arith, high, earlier)
        ]

    pub mtca_dummy_test_ends :
        Ends
          (λ ready t. (ready ≡ true) × Prepared t × ((t.devices i).dma_bar 8 ≡ 64))
          (mtca_dummy_test client helix s)
    unfolding mtca_dummy_test
    mtca_dummy_test_ends =
        rw
          (
            store_words_lem 1024 0 helix (λ k. 0) s,
            store_words_lem 25 0 helix (λ k. k * k) (record s { user = zeros }),
          )
          (Ends-mono (client.write_area 0 2 1024 helix filled)
            (write_area_ends i a n client serves 0 1024 helix filled
              (IsCalm-user s filled.user calm) refl (omega arith) (omega arith) layout.helix_object
              layout.helix_local helix_word
              λ j below.
                element_word filled.user helix j (helix_word j) (helix_word_small j)
                  (filled_elements j below))
            λ good t (e, w). (
              e,
              record {
                calm = w.calm;
                dummy = w.dummy ∙ dummy;
                dma = λ q below. ground (arith, w.dma q);
                elements = λ j below.
                    w.memory (helix + j * 4) 4 (
                      Apart-within a n helix (1024 * 4) (helix + j * 4) 4 layout.helix_local
                        (omega arith) (omega (arith, below)))
                    ∙ filled_elements j below;
              },
              w.dma 8,
            ))

  pub test_read_single-Passes :
      (s : Sys M)
      → Prepared s
      → (s.devices i).dma_bar 8 ≡ 64
      → Ends (Passes i a n s) (test_read_single client s)
  unfolding test_read_single
  test_read_single-Passes s p word =
      attempt_ends i a n client serves 0x3C 0 mtcadummy_dmmy_as_ascii s _ p.calm (omega arith)
        (omega arith) (dummy_read (board_of (s.devices i)) ∙ rw p.dummy refl)
        λ t f.
          attempt_ends i a n client serves (8 * 4) 2 64 t _ f.calm (omega arith) (omega arith)
            (dma_read (board_of (t.devices i))
              ∙ rw (ap (λ (b : Board). b.dma 8) f.board ∙ word) refl)
            λ u g. (
              refl,
              Keeps-read i a n u u (record { calm = g.calm; control = refl; board = refl })
                  (λ c l p. refl),
            )
