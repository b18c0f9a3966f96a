-- ===== src/Session/Lifecycle.antt =====
-- Closing, going offline, expiring, and the claims of prefetching.
use rclaude.Prelude.{
  ℕ, ◌≡◌, refl, true, false, not, ◌&&◌, Option, some, [], Text, ltb, ◌==◌, text_eq, nat_eq,
  text_beq_iff, if◌then◌else◌, arith, Bool-cases, Option-cases, inl, inr,
}
use rclaude.Prelude.Assoc
use rclaude.Pending
use rclaude.Session.{
  Session, SessionError, close_with_error, close_err_value, or_closed, retain_offline, is_replaced,
  is_offline_readonly, is_expired, or_now, try_start_prefetch, finish_prefetch,
}

closed_first :
    (e : Option SessionError) (s : Session)
    → s.closed ≡ false
    → close_with_error e s ≡ record s {
      close_err = some (or_closed e);
      closed = true;
      hub = Pending.close_pending s.hub;
    }
unfolding close_with_error
closed_first e s h = simp h

-- The first error that closes an open session is the one that it answers, whatever closes it
-- after; a later close changes nothing, and no request is pending.
pub first_close_wins :
    (e f : Option SessionError) (s : Session)
    → s.closed ≡ false
    → (close_with_error f (close_with_error e s) ≡ close_with_error e s)
      × (close_err_value (close_with_error f (close_with_error e s)) ≡ or_closed e)
      × ((close_with_error f (close_with_error e s)).hub.pending ≡ [])
unfolding close_with_error close_err_value
first_close_wins e f s h =
    rw (closed_first e s h) (refl, refl, unfold Pending.close_pending in refl)

-- A session is retained exactly if the time is not zero and no newer session replaced it; it then
-- is readable until that time, and expired from that time on. One that is not retained is as before.
pub retain_offline_lem :
    (until clock now : ℕ) (s : Session)
    → ((retain_offline until s).1 ≡ not (until == 0) && not (is_replaced s.close_err))
      × ((retain_offline until s).1 ≡ false → (retain_offline until s).0 ≡ s)
      × ((retain_offline until s).1 ≡ true
          → (is_offline_readonly clock now (retain_offline until s).0
              ≡ ltb (or_now clock now) until)
            × (is_expired clock now (retain_offline until s).0
                ≡ not (is_offline_readonly clock now (retain_offline until s).0)))
unfolding retain_offline is_offline_readonly is_expired
retain_offline_lem until clock now s = elim (Bool-cases (until == 0)) [
  | inl zero_time ↦ rw zero_time (refl, λ _. refl, λ h. absurd (ground arith))
  | inr set ↦ elim (Bool-cases (is_replaced s.close_err)) [
    | inl gone ↦ rw set (simp gone (refl, λ _. refl, λ h. absurd (ground arith)))
    | inr kept ↦ rw set (simp kept (refl, λ h. absurd (ground arith), λ _. ground arith))
  ]
]

-- One prefetch of a path at a time: after a start that succeeds the same path is refused and every
-- other one is answered as before; once it is finished every path is answered as before the start.
pub prefetch_lem :
    (p q : Text) (s : Session)
    → (try_start_prefetch p s).1 ≡ true
    → ((try_start_prefetch q (try_start_prefetch p s).0).1
        ≡ (if p == q then false else (try_start_prefetch q s).1))
      × ((try_start_prefetch q (finish_prefetch p (try_start_prefetch p s).0)).1
          ≡ (try_start_prefetch q s).1)
unfolding try_start_prefetch finish_prefetch
prefetch_lem p q s h = elim (Option-cases (Assoc.lookup p s.prefetching)) [
  | inr (u, e) ↦ absurd (ground arith)
  | inl free ↦ elim (Bool-cases (p == [])) [
    | inl nothing ↦ absurd (ground arith)
    | inr named ↦ rw named (
        rw (free, try_start_prefetch)
          (
            ground (
              arith,
              Assoc.lookup-insert p q tt s.prefetching,
              text_beq_iff p q,
              text_beq_iff q [],
            ),
            ground (
              arith,
              Assoc.lookup-remove p q (Assoc.insert p tt s.prefetching),
              Assoc.lookup-insert p q tt s.prefetching,
              text_beq_iff p q,
              text_beq_iff q [],
            ),
          ))
  ]
]
