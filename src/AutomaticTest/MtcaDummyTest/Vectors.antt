-- ===== src/AutomaticTest/MtcaDummyTest/Vectors.antt =====
-- The vectors of the tests: what the loops over their elements do.
use pciedummy_driver.Common.{
  ℕ, zero, suc, ◌+◌, ◌*◌, ◌≤◌, ◌<◌, ◌≡◌, refl, sym, ◌∙◌, ap, Bool, true, ◌&&◌, List, arith, ◌==◌,
  if◌then◌else◌, ltb, leb, inl, inr, eqb_of_eq, eqb_of_ne,
}
use native.Mathlib.Decide.{ℕ_discrete}
use pciedummy_driver.Common.Bytes.{word_at, bytes_of_word}
use pciedummy_driver.Kernel.{Host, Sys, ok}
use pciedummy_driver.NoStruct.ReadLoop.{WordsAt}
use pciedummy_driver.AutomaticTest.{IsObject, Apart, store, load}
use pciedummy_driver.AutomaticTest.MtcaDummyTest.{store_words, check_words, copy_words, same_words}

module _ {M : Type 0} ⦃host : Host M⦄ where
  abbrev pub element : M → ℕ → ℕ → List ℕ × ℕ
  element m buf j = host.copy_from_user m (buf + j * 4) 4

  -- The memory after the loop.
  unfoldable pub stored : ℕ → ℕ → ℕ → (ℕ → ℕ) → M → M
  stored zero k buf f m = m
  stored (suc n) k buf f m =
      stored n (k + 1) buf f (host.copy_to_user m (buf + k * 4) (bytes_of_word (f k))).0

  pub store_words_lem :
      (n k buf : ℕ) (f : ℕ → ℕ) (s : Sys M)
      → store_words n k buf f s ≡ ok tt (record s { user = stored n k buf f s.user })
  unfolding store_words store stored
  store_words_lem zero k buf f s = refl
  store_words_lem (suc n) k buf f s =
      store_words_lem n (k + 1) buf f
        (record s { user = (host.copy_to_user s.user (buf + k * 4) (bytes_of_word (f k))).0 })

  module _ (buf total : ℕ) (object : IsObject host buf (total * 4)) where
    pub stored-outside :
        (n k : ℕ) (f : ℕ → ℕ) (m : M) (c l : ℕ)
        → k + n ≤ total
        → Apart buf (total * 4) c l
        → host.copy_from_user (stored n k buf f m) c l ≡ host.copy_from_user m c l
    unfolding stored
    stored-outside zero k f m c l h apart = refl
    stored-outside (suc n) k f m c l h apart =
        stored-outside n (k + 1) f (host.copy_to_user m (buf + k * 4) (bytes_of_word (f k))).0 c l
          (omega (arith, h)) apart
        ∙ host.outside m (buf + k * 4) c l (bytes_of_word (f k))
            (elim apart [ inl below ↦ inl (omega arith) | inr above ↦ inr (omega (arith, h)) ])

    -- The store of one element.
    store_element :
        (k x : ℕ) (m : M) (j : ℕ)
        → k < total
        → element (host.copy_to_user m (buf + k * 4) (bytes_of_word x)).0 buf j
          ≡ (if j == k then (bytes_of_word x, 0) else element m buf j)
    store_element k x m j h = elim (ℕ_discrete j k) [
      | yes e ↦
          rw (e, eqb_of_eq k k refl)
            (host.copied m (buf + k * 4) (bytes_of_word x) (ground arith)
              (object.writable m (buf + k * 4) (bytes_of_word x) (omega arith) (omega (arith, h))))
      | no ne ↦
          rw (eqb_of_ne j k ne)
            (host.outside m (buf + k * 4) (buf + j * 4) 4 (bytes_of_word x) (ground (arith, ne)))
    ]

    one_element :
        (k n : ℕ) (f : ℕ → ℕ) (m : M) (j : ℕ)
        → element (host.copy_to_user m (buf + k * 4) (bytes_of_word (f k))).0 buf j
          ≡ (if j == k then (bytes_of_word (f k), 0) else element m buf j)
        → (if leb (k + 1) j && ltb j (k + 1 + n)
            then (bytes_of_word (f j), 0)
            else element (host.copy_to_user m (buf + k * 4) (bytes_of_word (f k))).0 buf j)
          ≡ (if leb k j && ltb j (k + suc n) then (bytes_of_word (f j), 0) else element m buf j)
    one_element k n f m j e = elim (ℕ_discrete j k) [
      | yes q ↦
          let after : element (host.copy_to_user m (buf + k * 4) (bytes_of_word (f k))).0 buf j
              ≡ (bytes_of_word (f j), 0) =
            e ∙ rw (eqb_of_eq j k q) (ap (λ x. (bytes_of_word (f x), 0)) (sym q)) in
          ground (arith, after, q)
      | no ne ↦ ground (arith, e, ne)
    ]

    pub stored-element :
        (n k : ℕ) (f : ℕ → ℕ) (m : M) (j : ℕ)
        → k + n ≤ total
        → element (stored n k buf f m) buf j
          ≡ (if leb k j && ltb j (k + n) then (bytes_of_word (f j), 0) else element m buf j)
    unfolding stored
    stored-element zero k f m j h = ground arith
    stored-element (suc n) k f m j h =
        stored-element n (k + 1) f (host.copy_to_user m (buf + k * 4) (bytes_of_word (f k))).0 j
          (omega (arith, h))
        ∙ one_element k n f m j (store_element k (f k) m j (omega (arith, h)))

  unfoldable pub checked : ℕ → ℕ → ℕ → (ℕ → ℕ) → M → Bool
  checked zero k buf f m = true
  checked (suc n) k buf f m = (word_at (element m buf k).0 0 == f k) && checked n (k + 1) buf f m

  pub check_words_lem :
      (n k buf : ℕ) (f : ℕ → ℕ) (s : Sys M)
      → check_words n k buf f s ≡ ok (checked n k buf f s.user) s
  unfolding check_words load checked
  check_words_lem zero k buf f s = refl
  check_words_lem (suc n) k buf f s = rw (check_words_lem n (k + 1) buf f s) refl

  pub checked-true :
      (n k buf : ℕ) (f : ℕ → ℕ) (m : M)
      → ((j : ℕ) → k ≤ j → j < k + n → word_at (element m buf j).0 0 ≡ f j)
      → checked n k buf f m ≡ true
  unfolding checked
  checked-true zero k buf f m h = refl
  checked-true (suc n) k buf f m h =
      rw
        (
          eqb_of_eq (word_at (element m buf k).0 0) (f k) (h k (omega arith) (omega arith)),
          checked-true n (k + 1) buf f m (λ j p q. h j (omega arith) (omega arith)),
        )
        refl

  -- The memory after a copy of `n` elements.
  unfoldable pub copied_words : ℕ → ℕ → ℕ → ℕ → M → M
  copied_words zero k from to m = m
  copied_words (suc n) k from to m =
      copied_words n (k + 1) from to (host.copy_to_user m (to + k * 4) (element m from k).0).0

  pub copy_words_lem :
      (n k from to : ℕ) (s : Sys M)
      → copy_words n k from to s ≡ ok tt (record s { user = copied_words n k from to s.user })
  unfolding copy_words store load copied_words
  copy_words_lem zero k from to s = refl
  copy_words_lem (suc n) k from to s =
      copy_words_lem n (k + 1) from to
        (record s { user = (host.copy_to_user s.user (to + k * 4) (element s.user from k).0).0 })

  -- If the elements to copy are those of `f`, it stores those.
  pub copied_words-stored :
      (n k from to : ℕ) (f : ℕ → ℕ) (m : M)
      → ((j : ℕ) → k ≤ j → j < k + n → element m from j ≡ (bytes_of_word (f j), 0))
      → ((j i : ℕ) → j < k + n → i < k + n → Apart (to + i * 4) 4 (from + j * 4) 4)
      → copied_words n k from to m ≡ stored n k to f m
  unfolding copied_words stored
  copied_words-stored zero k from to f m h apart = refl
  copied_words-stored (suc n) k from to f m h apart = rw (h k (omega arith) (omega arith)) (
      copied_words-stored n (k + 1) from to f
        (host.copy_to_user m (to + k * 4) (bytes_of_word (f k))).0
        (λ j p q.
          host.outside m (to + k * 4) (from + j * 4) 4 (bytes_of_word (f k))
            (apart j k (omega arith) (omega arith))
          ∙ h j (omega arith) (omega arith))
        (λ j i p q. apart j i (omega arith) (omega arith)))

  unfoldable pub agree : ℕ → ℕ → ℕ → ℕ → M → Bool
  agree zero k left right m = true
  agree (suc n) k left right m =
      (word_at (element m left k).0 0 == word_at (element m right k).0 0)
      && agree n (k + 1) left right m

  pub same_words_lem :
      (n k left right : ℕ) (s : Sys M)
      → same_words n k left right s ≡ ok (agree n k left right s.user) s
  unfolding same_words load agree
  same_words_lem zero k left right s = refl
  same_words_lem (suc n) k left right s = rw (same_words_lem n (k + 1) left right s) refl

  pub agree-true :
      (n k left right : ℕ) (m : M)
      → ((j : ℕ)
          → k ≤ j
          → j < k + n
          → word_at (element m left j).0 0 ≡ word_at (element m right j).0 0)
      → agree n k left right m ≡ true
  unfolding agree
  agree-true zero k left right m h = refl
  agree-true (suc n) k left right m h =
      rw
        (
          eqb_of_eq (word_at (element m left k).0 0) (word_at (element m right k).0 0)
              (h k (omega arith) (omega arith)),
          agree-true n (k + 1) left right m (λ j p q. h j (omega arith) (omega arith)),
        )
        refl

  -- What a read of an area leaves.
  pub WordsAt-element :
      (m : M) (buf : ℕ) (f : ℕ → ℕ) (n j : ℕ)
      → WordsAt m buf f n
      → j < n
      → element m buf j ≡ (bytes_of_word (f j), 0)
  WordsAt-element m buf f zero j h l = ground arith
  WordsAt-element m buf f (suc n) j h l = elim (ℕ_discrete j n) [
    | yes e ↦ rw e h.1
    | no ne ↦ WordsAt-element m buf f n j h.0 (omega (arith, l, ne))
  ]
