-- ===== src/OrderBook/Sequence.antt =====
-- src/state/order_book.rs: update ids. Which updates are dropped, which count as a gap, and what is
-- remembered of the ids.
use signalguard_rs.Common.{
  ℕ, ◌+◌, ◌≤◌, ◌<◌, Bool, true, false, Option, none, some, ◌≡◌, refl, ◌↔◌, arith, leb, u64_max,
  u64_mod, incr_u64, if◌then◌else◌, Bool-cases, inl, inr, leb→le,
}
use signalguard_rs.External.{Externals}
use signalguard_rs.Domain.Depth.{DepthUpdate}
use signalguard_rs.OrderBook.{
  OrderBook, stale_ids, is_stale_or_duplicate, gap_ids, has_sequence_gap, at_least,
  record_update_ids, trim_bids, trim_asks, accept, apply,
}

-- The ids skip some that were never seen.
abbrev pub SkipsIds : Option ℕ → Option ℕ → Option ℕ → Type 0
SkipsIds last first final =
    (p f l : ℕ) × (last ≡ some p) × (first ≡ some f) × (final ≡ some l) × (p + 1 < f)

gap_ids_iff :
    (last first final : Option ℕ)
    → ((f : ℕ) → first ≡ some f → f ≤ u64_max)
    → (gap_ids last first final ≡ true) ↔ SkipsIds last first final
unfolding gap_ids
gap_ids_iff none first final b = (λ h. cc, λ r. cc (r.3))
gap_ids_iff (some p) none final b = (λ h. cc, λ r. cc (r.4))
gap_ids_iff (some p) (some f) none b = (λ h. cc, λ r. cc (r.5))
gap_ids_iff (some p) (some f) (some l) b =
    (λ h. (p, f, l, refl, refl, refl, ground arith), λ r. ground (arith, r.3, r.4, r.6, b f refl))

-- No id, or one that is not above the other.
abbrev pub IdLe : Option ℕ → Option ℕ → Type 0
IdLe none b = Unit
IdLe (some p) none = ⊥
IdLe (some p) (some q) = p ≤ q

IdLe-refl : (a : Option ℕ) → IdLe a a
IdLe-refl none = tt
IdLe-refl (some p) = omega arith

IdLe-trans : (a b c : Option ℕ) → IdLe a b → IdLe b c → IdLe a c
IdLe-trans none b c h k = tt
IdLe-trans (some p) none c h k = absurd h
IdLe-trans (some p) (some q) none h k = absurd k
IdLe-trans (some p) (some q) (some r) h k = omega arith

-- the final id that an accepted update leaves behind
unfoldable pub next_final : Option ℕ → Option ℕ → Option ℕ → Option ℕ
next_final last first none = last
next_final last (some f) (some l) = some l
next_final last none (some l) = if at_least last l then some l else last

next_final-IdLe :
    (last first final : Option ℕ)
    → stale_ids last first final ≡ false
    → IdLe last (next_final last first final)
unfolding next_final stale_ids at_least
next_final-IdLe none first final h = tt
next_final-IdLe (some p) first none h = omega arith
next_final-IdLe (some p) (some f) (some l) h = ground arith
next_final-IdLe (some p) none (some l) h = elim (Bool-cases (leb p l)) [
  | inl up ↦ rw up (leb→le p l up)
  | inr down ↦ rw down (omega arith)
]

module _ ⦃x : Externals⦄ where
  -- The gap count of the book after an update that is accepted.
  pub accept-gap_count :
      (book : OrderBook) (u : DepthUpdate)
      → (accept book u).depth_sequence_gap_count ≡ (
          if has_sequence_gap book u
          then incr_u64 book.depth_sequence_gap_count
          else book.depth_sequence_gap_count)
  unfolding accept record_update_ids trim_bids trim_asks
  accept-gap_count book u = ground arith

  -- With 64-bit ids and a 64-bit gap count, the count goes up by one (modulo 2^64) exactly when the
  -- update is accepted and skips an id; otherwise it stays.
  pub apply-gap_count :
      (book : OrderBook) (u : DepthUpdate)
      → ((f : ℕ) → u.first_update_id ≡ some f → f ≤ u64_max)
      → book.depth_sequence_gap_count < u64_mod
      → let skips = SkipsIds book.last_final_update_id u.first_update_id u.final_update_id in
        let after = (apply book u).0.depth_sequence_gap_count in
        let before = book.depth_sequence_gap_count in
        ((after ≡ incr_u64 before) ↔ (((apply book u).1 ≡ true) × skips))
        × ((after ≡ before) ↔ ¬ (((apply book u).1 ≡ true) × skips))
  unfolding apply has_sequence_gap
  apply-gap_count book u bound fits = elim (Bool-cases gap) [
    | inl g ↦ (
      (
        λ e. (ground (arith, accept-gap_count book u), r.0 g),
        λ h. ground (arith, accept-gap_count book u),
      ),
      (
        λ e h. ground (arith, accept-gap_count book u),
        λ n. ground (arith, accept-gap_count book u, λ (h : (apply book u).1 ≡ true). n (h, r.0 g)),
      ),
    )
    | inr g ↦ (
      (λ e. ground (arith, accept-gap_count book u), λ h. ground (arith, r.1 h.1)),
      (λ e h. ground (arith, r.1 h.1), λ n. ground (arith, accept-gap_count book u)),
    )
  ]
    where
      gap : Bool
      gap = gap_ids book.last_final_update_id u.first_update_id u.final_update_id

      r : (gap ≡ true) ↔ SkipsIds book.last_final_update_id u.first_update_id u.final_update_id
      r = gap_ids_iff book.last_final_update_id u.first_update_id u.final_update_id bound

  pub accept-last_final :
      (book : OrderBook) (u : DepthUpdate)
      → (accept book u).last_final_update_id
        ≡ next_final book.last_final_update_id u.first_update_id u.final_update_id
  unfolding accept record_update_ids trim_bids trim_asks next_final
  accept-last_final book u = ground arith

  -- The last final id that the book remembers is never lost and never goes back, whatever update
  -- is applied.
  last_final_update_id_mono :
      (book : OrderBook) (u : DepthUpdate)
      → IdLe book.last_final_update_id (apply book u).0.last_final_update_id
  unfolding apply is_stale_or_duplicate
  last_final_update_id_mono book u = elim (Bool-cases (is_stale_or_duplicate book u)) [
    | inl stale ↦ rw stale (IdLe-refl book.last_final_update_id)
    | inr fresh ↦
        rw (fresh, accept-last_final book u)
          (next_final-IdLe book.last_final_update_id u.first_update_id u.final_update_id fresh)
  ]
