-- ===== src/OrderBook/Stream.antt =====
-- src/state/order_book.rs: the gap count over a whole stream of updates.
use signalguard_rs.Common.{
  ℕ, ◌+◌, ◌%◌, ◌≤◌, ◌<◌, some, Option-cases, inl, inr, false, List, [], ◌∷◌, ◌≡◌, arith, ltb,
  u64_max, u64_mod, get_or, if◌then◌else◌,
}
use signalguard_rs.External.{Externals}
use signalguard_rs.Domain.Depth.{DepthUpdate}
use signalguard_rs.OrderBook.{
  OrderBook, stale_ids, is_stale_or_duplicate, at_least, gap_ids, has_sequence_gap, apply,
  apply_all,
}
use signalguard_rs.OrderBook.Sequence.{accept-gap_count, accept-last_final, next_final}

module _ ⦃x : Externals⦄ where
  -- Updates whose 64-bit final ids grow from `last`.
  abbrev pub IsAscending : ℕ → List DepthUpdate → Type 0
  IsAscending last [] = Unit
  IsAscending last (u ∷ us) =
      (f l : ℕ) × (u.first_update_id ≡ some f)
      × (u.final_update_id ≡ some l)
      × (last < l)
      × (f ≤ l)
      × (l ≤ u64_max)
      × IsAscending l us

  -- How many updates begin behind an id that no update covered.
  pub gaps : ℕ → List DepthUpdate → ℕ
  gaps last [] = 0
  gaps last (u ∷ us) =
      (if ltb (last + 1) (get_or u.first_update_id 0) then 1 else 0)
      + gaps (get_or u.final_update_id 0) us

  step_ids :
      (book : OrderBook) (u : DepthUpdate) (last f l : ℕ)
      → book.last_final_update_id ≡ some last
      → u.first_update_id ≡ some f
      → u.final_update_id ≡ some l
      → last < l
      → f ≤ l
      → l ≤ u64_max
      → ((apply book u).0.last_final_update_id ≡ some l)
        × ((apply book u).0.depth_sequence_gap_count ≡ (
            if ltb (last + 1) f
            then (book.depth_sequence_gap_count + 1) % u64_mod
            else book.depth_sequence_gap_count))
  unfolding apply is_stale_or_duplicate stale_ids has_sequence_gap gap_ids next_final
  step_ids book u last f l h hf hl a b c =
      ground (arith, accept-gap_count book u, accept-last_final book u)

  -- Over a stream of updates with 64-bit ids whose final ids grow past the last one that the book
  -- has seen, the gap count of the book, which fits 64 bits, grows by the number of updates that
  -- skip an id (modulo 2^64).
  pub apply_all-gap_count :
      (book : OrderBook) (us : List DepthUpdate) (last : ℕ)
      → book.last_final_update_id ≡ some last
      → book.depth_sequence_gap_count < u64_mod
      → IsAscending last us
      → (apply_all book us).depth_sequence_gap_count
        ≡ (book.depth_sequence_gap_count + gaps last us) % u64_mod
  unfolding apply_all gaps
  apply_all-gap_count book [] last h b a = omega arith
  apply_all-gap_count book (u ∷ us) last h b (f, l, hf, hl, up, order, fits, rest) =
      let step = step_ids book u last f l h hf hl up order fits in
      rw (hf, hl)
        (ground (
          arith,
          apply_all-gap_count (apply book u).0 us l step.0 (ground (arith, step.1)) rest,
          step.1,
        ))

  -- The book has seen the id `l` or a later one.
  abbrev pub HasSeen : OrderBook → ℕ → Type 0
  HasSeen book l = (p : ℕ) × (book.last_final_update_id ≡ some p) × (l ≤ p)

  apply-HasSeen :
      (book : OrderBook) (u : DepthUpdate) (l : ℕ) → HasSeen book l → HasSeen (apply book u).0 l
  unfolding apply is_stale_or_duplicate stale_ids next_final at_least
  apply-HasSeen book u l (p, seen, below) =
      elim (Option-cases (apply book u).0.last_final_update_id) [
        | inl unseen ↦ ground (arith, accept-last_final book u)
        | inr (q, now) ↦ (q, now, ground (arith, accept-last_final book u))
      ]

  apply_all-HasSeen :
      (book : OrderBook) (us : List DepthUpdate) (l : ℕ)
      → HasSeen book l
      → HasSeen (apply_all book us) l
  unfolding apply_all
  apply_all-HasSeen book [] l seen = seen
  apply_all-HasSeen book (u ∷ us) l seen =
      apply_all-HasSeen (apply book u).0 us l (apply-HasSeen book u l seen)

  apply_seen :
      (book : OrderBook) (u : DepthUpdate) (f l : ℕ)
      → u.first_update_id ≡ some f
      → u.final_update_id ≡ some l
      → HasSeen (apply book u).0 l
  unfolding apply is_stale_or_duplicate stale_ids next_final at_least
  apply_seen book u f l hf hl = elim (Option-cases (apply book u).0.last_final_update_id) [
    | inl unseen ↦ ground (arith, accept-last_final book u)
    | inr (q, now) ↦ (q, now, ground (arith, accept-last_final book u))
  ]

  apply-refused :
      (book : OrderBook) (v : DepthUpdate) (l g m : ℕ)
      → HasSeen book l
      → v.first_update_id ≡ some g
      → v.final_update_id ≡ some m
      → m ≤ l
      → apply book v ≡ (book, false)
  unfolding apply is_stale_or_duplicate stale_ids
  apply-refused book v l g m (p, seen, above) hg hm below = ground arith

  -- Once an update with both ids has been given to a book, then, after any further updates at all (with
  -- or without ids, in order or not), an update with both ids whose final id is at most that of the
  -- first one is refused and leaves the book as it is. In particular no update with both ids is ever
  -- accepted twice.
  pub apply-apply_all :
      (book : OrderBook) (us : List DepthUpdate) (u v : DepthUpdate) (f l g m : ℕ)
      → u.first_update_id ≡ some f
      → u.final_update_id ≡ some l
      → v.first_update_id ≡ some g
      → v.final_update_id ≡ some m
      → m ≤ l
      → apply (apply_all book (u ∷ us)) v ≡ (apply_all book (u ∷ us), false)
  unfolding apply_all
  apply-apply_all book us u v f l g m hf hl hg hm below =
      apply-refused (apply_all (apply book u).0 us) v l g m
        (apply_all-HasSeen (apply book u).0 us l (apply_seen book u f l hf hl)) hg hm below
