-- ===== src/Ledger/Plain.antt =====
-- A ledger whose sells are all covered when they come is replayed event by event.
use portfolio_dashboard.Prelude.{
  ◌≡◌, true, false, not, Bool, ◌&&◌, List, [], ◌∷◌, arith, Option, none, some, refl, ap,
}
use portfolio_dashboard.Clock.{Time}
use portfolio_dashboard.Double.{Double}
use portfolio_dashboard.Domain.{TxnType, Transaction, is_sell}
use portfolio_dashboard.Ledger.{
  Replay, start, settle, apply_type, apply_event, close_day, replay_event, replay_from, replay,
  replay_order, position_of, recompute_position,
}

module _ {F : Type 0} ⦃d : Double F⦄ where
  open d use {lt}

  -- The events in their order, with no queue.
  abbrev pub plain_replay : List (Transaction F) → Replay F → Replay F
  plain_replay [] s = s
  plain_replay (t ∷ ts) s = plain_replay ts (apply_event t s)

  -- No sell of the ordered ledger exceeds the shares held when it comes.
  abbrev pub is_covered : List (Transaction F) → Replay F → Bool
  is_covered [] s = true
  is_covered (t ∷ ts) s =
      not (is_sell t.type && lt s.total_qty t.quantity) && is_covered ts (apply_event t s)

  close_day-nil :
      (last : Option Time) (date : Time) (s : Replay F) → close_day last date (s, []) ≡ (s, [])
  unfolding close_day settle
  close_day-nil none date s = refl
  close_day-nil (some last) date s = ground arith

  replay_from-eq-plain_replay :
      (last : Option Time) (ts : List (Transaction F)) (s : Replay F)
      → is_covered ts s ≡ true
      → replay_from last ts (s, []) ≡ (plain_replay ts s, [])
  unfolding replay_from replay_event settle
  replay_from-eq-plain_replay last [] s h = refl
  replay_from-eq-plain_replay last (t ∷ ts) s h =
      rw close_day-nil
        (ground (arith, replay_from-eq-plain_replay (some t.date) ts (apply_event t s)))

  oversold-apply_type :
      (k : TxnType) (t : Transaction F) (s : Replay F)
      → (is_sell k && lt s.total_qty t.quantity) ≡ false
      → (apply_type k t s).oversold ≡ s.oversold
  unfolding apply_type is_sell
  oversold-apply_type TxnType.sell t s h = ground arith
  oversold-apply_type _ t s h = ground arith

  oversold-apply_event :
      (t : Transaction F) (s : Replay F)
      → (is_sell t.type && lt s.total_qty t.quantity) ≡ false
      → (apply_event t s).oversold ≡ s.oversold
  unfolding apply_event
  oversold-apply_event t s h = oversold-apply_type t.type t s h

  oversold-plain_replay :
      (ts : List (Transaction F)) (s : Replay F)
      → is_covered ts s ≡ true
      → (plain_replay ts s).oversold ≡ s.oversold
  oversold-plain_replay [] s h = refl
  oversold-plain_replay (t ∷ ts) s h =
      ground (arith, oversold-plain_replay ts (apply_event t s), oversold-apply_event t s)

  replay-eq-plain_replay :
      (ts : List (Transaction F)) → is_covered ts start ≡ true → replay ts ≡ plain_replay ts start
  unfolding replay settle
  replay-eq-plain_replay ts h =
      ap (λ st. (settle true st.1 st.0).0) (replay_from-eq-plain_replay none ts start h)

  -- If in replay order no sell ever exceeds the shares held, the queue of waiting sells makes no
  -- difference: the position is that of the events applied one after the other, with no error.
  pub recompute_position-covered :
      (txns : List (Transaction F))
      → is_covered (replay_order txns) start ≡ true
      → recompute_position txns ≡ (position_of (plain_replay (replay_order txns) start), none)
  unfolding recompute_position
  recompute_position-covered txns h =
      rw (replay-eq-plain_replay (replay_order txns) h)
        (rw (oversold-plain_replay (replay_order txns) start h) refl)
