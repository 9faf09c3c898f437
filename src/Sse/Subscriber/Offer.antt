-- ===== src/Sse/Subscriber/Offer.antt =====
-- What a frame that is offered to an open subscriber does.
use erikslund_http_embedded.Prelude.{
  ℕ, ◌+◌, ◌≤◌, ◌<◌, ◌≡◌, refl, sym, subst, ◌≢◌, ◌⊎◌, inl, inr, Bool, true, false, List, [], ◌∷◌,
  ◌++◌, arith, ltb, leb, Bool-cases, Bytes, length,
}
use erikslund_http_embedded.Sse.Subscriber.Room.{HadToGo, MakesRoom, make_room-MakesRoom, total}
use erikslund_http_embedded.Sse.Subscriber.{
  SseOptions, SseSubscriber, close_locked, enqueue_behind, make_room, overflows_before_disconnect,
  push_back_locked, enqueue,
}
use erikslund_http_embedded.Sse.Subscriber.Limit.{enqueue_live, enqueue_too_long}
use erikslund_http_embedded.Sse.Subscriber.Within.{IsWithin}

-- What an open subscriber becomes when a frame is offered to it. A frame over the limit closes it;
-- for any other the fewest of the oldest frames are lost that make room for it, and it waits behind
-- the rest, unless the subscriber lost frames and it was the fourth time in a row: that closes it.
abbrev pub IsOffered : ℕ → Bytes → SseSubscriber → SseSubscriber → Type 0
IsOffered limit frame s s' =
    ((limit < length frame) × (s'.closed ≡ true) × (s'.queue ≡ []))
    ⊎ ((lost : List Bytes) × (left : List Bytes) × (s.queue ≡ lost ++ left)
        × (total left + length frame ≤ limit)
        × HadToGo (length frame) limit lost left
        × (((s'.queue ≡ left ++ (frame ∷ []))
              × (s'.closed ≡ false)
              × (((lost ≡ []) × (s'.consecutive_overflows ≡ s.consecutive_overflows))
                  ⊎ ((lost ≢ [])
                      × (s.consecutive_overflows < 3)
                      × (s'.consecutive_overflows ≡ s.consecutive_overflows + 1))))
            ⊎ ((lost ≢ []) × (s.consecutive_overflows ≡ 3) × (s'.closed ≡ true) × (s'.queue ≡ []))))

enqueue_behind-IsOffered :
    (limit : ℕ) (s : SseSubscriber) (frame : Bytes) (lost : List Bytes)
    (left : List Bytes × ℕ × Bool)
    → s.closed ≡ false
    → s.consecutive_overflows ≤ 3
    → MakesRoom (length frame) limit s.queue lost false left
    → IsOffered limit frame s (enqueue_behind s frame left)
unfolding enqueue_behind push_back_locked close_locked
enqueue_behind-IsOffered limit s frame [] (queue, bytes, dropped) open_now few m =
    let kept : dropped ≡ false = m.told in
    rw kept (inr ([], queue, m.parts, m.fits, m.had_to_go, inl (refl, open_now, inl (refl, refl))))
enqueue_behind-IsOffered limit s frame (f ∷ lost) (queue, bytes, dropped) open_now few m =
    let gone : dropped ≡ true = m.told in
    elim (Bool-cases (leb overflows_before_disconnect (s.consecutive_overflows + 1))) [
      | inl e ↦ rw gone (
          rw e (
            inr (
              f ∷ lost,
              queue,
              m.parts,
              m.fits,
              m.had_to_go,
              inr ((λ k. cc), ground arith, refl, refl),
            )))
      | inr e ↦ rw gone (
          rw e (
            inr (
              f ∷ lost,
              queue,
              m.parts,
              m.fits,
              m.had_to_go,
              inl (refl, open_now, inr ((λ k. cc), ground arith, refl)),
            )))
    ]

pub enqueue-IsOffered :
    (options : SseOptions) (s : SseSubscriber) (frame : Bytes)
    → IsWithin options s
    → s.closed ≡ false
    → IsOffered options.max_queued_bytes_per_subscriber frame s (enqueue s frame).0
enqueue-IsOffered options s frame w e =
    let limit = options.max_queued_bytes_per_subscriber in
    subst (λ n. IsOffered n frame s (enqueue s frame).0) w.limit
      (elim (Bool-cases (ltb s.max_queued_bytes (length frame))) [
        | inl f ↦
            subst (IsOffered s.max_queued_bytes frame s) (sym (enqueue_too_long s frame e f))
              (unfold close_locked in inl (ground arith, refl, refl))
        | inr f ↦
            let (lost, m) =
              make_room-MakesRoom (length frame) s.max_queued_bytes s.queue s.queued_bytes false
                (ground arith) w.counted (omega (arith, w.within, w.counted, w.limit)) in
            subst (IsOffered s.max_queued_bytes frame s) (sym (enqueue_live s frame e f)) (
              enqueue_behind-IsOffered s.max_queued_bytes s frame lost
                (make_room (length frame) s.max_queued_bytes s.queue s.queued_bytes false) e
                (w.patient e) m)
      ])
