-- ===== src/AutomaticTest/MtcaDummyTest/WriteArea.antt =====
-- The test that writes an area.
use pciedummy_driver.Common.{
  ℕ, ◌+◌, ◌-◌, ◌*◌, ◌/◌, ◌^◌, ◌≤◌, ◌<◌, ◌≡◌, refl, sym, ◌∙◌, ap, Bool, true, ◌&&◌, List, arith,
  if◌then◌else◌, ltb, leb, inl, inr, Bool-cases,
}
use native.Mathlib.Nat.{mul-le-mul}
use pciedummy_driver.Common.Bytes.{word_at, bytes_of_word}
use pciedummy_driver.Kernel.{Version, Host, Sys}
use pciedummy_driver.Kernel.Laws.{Ends, Ends-mono, Ends-bind, IsCalm}
use pciedummy_driver.Firmware.Table.{dma_word_after, is_broken}
use pciedummy_driver.Board.{Board, board_of, board_write}
use pciedummy_driver.AutomaticTest.{ReaderWriter, Apart}
use pciedummy_driver.AutomaticTest.Contract.{Serves, IsCalm-user}
use pciedummy_driver.AutomaticTest.MtcaDummyTest.{test_write_area}
use pciedummy_driver.AutomaticTest.MtcaDummyTest.Areas.{
  Apart-within, IsObject-within, element_word, write_area_ends, read_area_ends,
}
use pciedummy_driver.AutomaticTest.MtcaDummyTest.Prepared.{
  Layout, helix_word, helix_word_small, Prepared,
}
use pciedummy_driver.AutomaticTest.MtcaDummyTest.Vectors.{
  element, stored, stored-element, stored-outside, store_words_lem, copied_words,
  copied_words-stored, copy_words_lem, agree, agree-true, same_words_lem,
}

module _ (v : Version) (spi : Bool) (c : Board) where
  adc_written : (board_write v spi 0 0x44 1 c).0 ≡ true
  unfolding board_write is_broken
  adc_written = refl

  adc_dma : (q : ℕ) → (board_write v spi 0 0x44 1 c).1.dma q ≡ (if ltb q 25 then q * q else c.dma q)
  unfolding board_write dma_word_after
  adc_dma q = ground arith

-- `expectedBuffer`.
abbrev expected_word : ℕ → ℕ
expected_word j = if leb 100 j && ltb j 108 then j * j else helix_word j

expected_word_small : (j : ℕ) → expected_word j < 2 ^ 32
expected_word_small j = elim (Bool-cases (leb 100 j && ltb j 108)) [
  | inl inside ↦
      let few : j ≤ 107 = ground arith in
      let square : j * j ≤ 107 * 107 = mul-le-mul few few in rw inside (omega (arith, square))
  | inr outside ↦ rw outside (helix_word_small j)
]

Apart-sym : (a n b k : ℕ) → Apart a n b k → Apart b k a n
Apart-sym a n b k h = elim h [ inl under ↦ inr under | inr over ↦ inl over ]

-- Elements of two vectors that are apart.
Apart-elements :
    (a b : ℕ)
    → Apart a (1024 * 4) b (1024 * 4)
    → (j k : ℕ) → j < 1024
    → k < 1024
    → Apart (a + j * 4) 4 (b + k * 4) 4
Apart-elements a b h j k p q = elim h [
  | inl under ↦ inl (omega (arith, under, p, q))
  | inr over ↦ inr (omega (arith, over, p, q))
]

module _ {M : Type 0} ⦃host : Host M⦄ (i a n helix expected buf : ℕ) (client : ReaderWriter M)
    (serves : Serves i a n client) (layout : Layout host a n helix expected buf) where
  expected_element_local : (j : ℕ) → j < 1024 → Apart a n (expected + j * 4) 4
  expected_element_local j below =
      Apart-within a n expected (1024 * 4) (expected + j * 4) 4 layout.expected_local (omega arith)
        (omega (arith, below))

  expected_element_buf : (j : ℕ) → j < 1024 → Apart buf (1024 * 4) (expected + j * 4) 4
  expected_element_buf j below =
      Apart-within buf (1024 * 4) expected (1024 * 4) (expected + j * 4) 4
        (Apart-sym expected (1024 * 4) buf (1024 * 4) layout.expected_buf) (omega arith)
        (omega (arith, below))

  -- After the sampling was started: bar 2 and `bufferHelix` are as the constructor made them.
  record Sampled (t : Sys M) : Type 0 where
    calm : IsCalm t
    dma : (q : ℕ) → q < 1024 → (t.devices i).dma_bar q ≡ helix_word q
    elements : (j : ℕ) → j < 1024 → element t.user helix j ≡ (bytes_of_word (helix_word j), 0)

  sampled :
      (s : Sys M)
      → Prepared i a n helix expected buf client serves layout s
      → Ends (λ good t. (good ≡ true) × Sampled t) (client.write_single 0x44 0 1 s)
  sampled s p =
      Ends-mono (client.write_single 0x44 0 1 s)
        (serves.writes_single 0x44 0 1 s p.calm (omega arith) (omega arith) (omega arith))
        λ good t (e, f, ch). (
          e ∙ adc_written host.version s.control.spi_error (board_of (s.devices i)),
          record {
            calm = f.calm;
            dma = λ q below.
                let same =
                  ap (λ (b : Board). b.dma q) f.board
                  ∙ adc_dma host.version s.control.spi_error (board_of (s.devices i)) q in
                let before = p.dma q below in ground (arith, same, before);
            elements = λ j below.
                ch (helix + j * 4) 4 (
                  Apart-within a n helix (1024 * 4) (helix + j * 4) 4 layout.helix_local
                    (omega arith) (omega (arith, below)))
                ∙ p.elements j below;
          },
        )

  module _ (t : Sys M) (h : Sampled t) where
    -- The memory with `expectedBuffer`.
    abbrev copied : M
    copied = copied_words 1024 0 helix expected t.user

    abbrev expecting : Sys M
    expecting = record t { user = stored 8 100 expected (λ k. k * k) copied }

    expected_elements :
        (j : ℕ)
        → j < 1024
        → element expecting.user expected j ≡ (bytes_of_word (expected_word j), 0)
    expected_elements j below =
        let copy =
          copied_words-stored 1024 0 helix expected helix_word t.user (λ k lo hi. h.elements k hi)
            (λ k l p q.
              Apart-elements expected helix
                (Apart-sym helix (1024 * 4) expected (1024 * 4) layout.helix_expected) l k q p) in
        let first =
          ap (λ m. element m expected j) copy
          ∙ stored-element expected 1024 layout.expected_object 1024 0 helix_word t.user j
              (omega arith) in
        let second =
          stored-element expected 1024 layout.expected_object 8 100 (λ k. k * k) copied j
            (omega arith) in
        second ∙ elim (Bool-cases (leb 100 j && ltb j (100 + 8))) [
          | inl inside ↦ ground (arith, inside)
          | inr outside ↦ ground (arith, outside, first)
        ]

    -- After the modified part was written: bar 2 is as `expectedBuffer`.
    record Modified (u : Sys M) : Type 0 where
      calm : IsCalm u
      dma : (q : ℕ) → q < 1024 → (u.devices i).dma_bar q ≡ expected_word q
      elements :
          (j : ℕ) → j < 1024 → element u.user expected j ≡ (bytes_of_word (expected_word j), 0)

    modified :
        Ends
          (λ good u. (good ≡ true) × Modified u)
          (client.write_area (100 * 4) 2 8 (expected + 100 * 4) expecting)
    modified =
        Ends-mono (client.write_area (100 * 4) 2 8 (expected + 100 * 4) expecting)
          (write_area_ends i a n client serves (100 * 4) 8 (expected + 100 * 4) expecting
            (IsCalm-user t expecting.user h.calm) refl (omega arith) (omega arith)
            (IsObject-within expected (1024 * 4) (expected + 100 * 4) (8 * 4) layout.expected_object
              (omega arith) (omega arith))
            (Apart-within a n expected (1024 * 4) (expected + 100 * 4) (8 * 4) layout.expected_local
              (omega arith) (omega arith))
            (λ j. expected_word (100 + j))
            λ j below.
              element_word expecting.user (expected + 100 * 4) j (expected_word (100 + j))
                (expected_word_small (100 + j))
                (let place : expected + 100 * 4 + j * 4 ≡ expected + (100 + j) * 4 = omega arith in
                  ap (λ x. host.copy_from_user expecting.user x 4) place
                  ∙ expected_elements (100 + j) (omega (arith, below))))
          λ good u (e, w). (
            e,
            record {
              calm = w.calm;
              dma = λ q below. w.dma q ∙ in_place q (h.dma q below);
              elements = λ j below.
                  w.memory (expected + j * 4) 4 (expected_element_local j below)
                  ∙ expected_elements j below;
            },
          )
      where
        in_place :
            (q : ℕ)
            → (t.devices i).dma_bar q ≡ helix_word q
            → (if leb 100 q && ltb q (100 + 8)
                then expected_word (100 + (0 + (q - 100)))
                else (t.devices i).dma_bar q)
              ≡ expected_word q
        in_place q e = elim (Bool-cases (leb 100 q && ltb q (100 + 8))) [
          | inl inside ↦
              let lo : 100 ≤ q = ground arith in
              let same : 100 + (0 + (q - 100)) ≡ q = omega (arith, lo) in
              rw inside (ap expected_word same ∙ rw inside refl)
          | inr outside ↦ rw outside e
        ]

    module _ (u : Sys M) (g : Modified u) where
      -- The state with `readBuffer` made.
      abbrev reading : Sys M
      reading = record u { user = stored 1024 0 buf (λ k. 0) u.user }

      read_agrees :
          Ends
            (λ good w. (good ≡ true) × (agree 1024 0 buf expected w.user ≡ true))
            (client.read_area 0 2 1024 buf reading)
      read_agrees =
          Ends-mono (client.read_area 0 2 1024 buf reading)
            (read_area_ends i a n client serves 0 1024 buf reading
              (IsCalm-user u reading.user g.calm) refl (omega arith) (omega arith) layout.buf_object
              layout.buf_local)
            λ good w (e, f, inside, outside). (
              e,
              agree-true 1024 0 buf expected w.user λ j lo hi.
                  let place : 0 / 4 + j ≡ j = omega arith in
                  let left =
                    inside j hi
                    ∙ ap (λ q. (bytes_of_word ((u.devices i).dma_bar q), 0)) place
                    ∙ ap (λ x. (bytes_of_word x, 0)) (g.dma j hi) in
                  let right =
                    outside (expected + j * 4) 4 (expected_element_local j hi)
                      (expected_element_buf j hi)
                    ∙ stored-outside buf 1024 layout.buf_object 1024 0 (λ k. 0) u.user
                        (expected + j * 4) 4 (omega arith) (expected_element_buf j hi)
                    ∙ g.elements j hi in
                  ap (λ (r : List ℕ × ℕ). word_at r.0 0) (left ∙ sym right),
            )

  pub test_write_area_passes :
      (s : Sys M)
      → Prepared i a n helix expected buf client serves layout s
      → Ends (λ passed t. passed ≡ true) (test_write_area client helix expected buf s)
  unfolding test_write_area
  test_write_area_passes s p =
      Ends-bind Passed (client.write_single 0x44 0 1 s) _ (sampled s p) λ good t (e, h).
        rw
          (
            e,
            copy_words_lem 1024 0 helix expected t,
            store_words_lem 8 100 expected (λ k. k * k) (record t { user = copied t h }),
          )
          (Ends-bind Passed (client.write_area (100 * 4) 2 8 (expected + 100 * 4) (expecting t h)) _
            (modified t h)
            λ good u (e', g).
              rw (e', store_words_lem 1024 0 buf (λ k. 0) u)
                (Ends-bind Passed (client.read_area 0 2 1024 buf (reading t h u g)) _
                  (read_agrees t h u g)
                  λ good w (e'', q). rw (e'', same_words_lem 1024 0 buf expected w) q))
    where
      Passed : Bool → Sys M → Type 0
      Passed passed t = passed ≡ true
