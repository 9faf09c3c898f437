-- ===== src/Sse/Subscriber/Room.antt =====
-- The loop of `enqueue` that makes room drops as little as it can.
use erikslund_http_embedded.Prelude.{
  ℕ, ◌+◌, ◌-◌, ◌≤◌, ◌<◌, ◌≡◌, refl, ap, ◌∙◌, inl, inr, Bool, true, not, ◌||◌, List, [], ◌∷◌, ◌++◌,
  arith, ltb, Bool-cases, Bytes, is_empty, length,
}
use erikslund_http_embedded.Sse.Subscriber.{make_room}

unfoldable pub total : List Bytes → ℕ
total [] = 0
total (frame ∷ frames) = length frame + total frames

pub total-append : (xs ys : List Bytes) → total (xs ++ ys) ≡ total xs + total ys
unfolding total
total-append [] ys = omega arith
total-append (x ∷ xs) ys = omega (arith, total-append xs ys)

-- Each frame that is dropped had to go: with it there was no room.
abbrev pub HadToGo : ℕ → ℕ → List Bytes → List Bytes → Type 0
HadToGo size maximum [] left = Unit
HadToGo size maximum (frame ∷ lost) left =
    (maximum < total ((frame ∷ lost) ++ left) + size) × HadToGo size maximum lost left

-- What the loop leaves: the later part of the queue, with room for the frame, and the shortest loss
-- that makes it; the flag is set where there is a loss.
pub record MakesRoom (size maximum : ℕ) (queue lost : List Bytes) (dropped : Bool)
    (left : List Bytes × ℕ × Bool) : Type 0 where
  pub parts : queue ≡ lost ++ left.0
  pub counts : left.1 ≡ total left.0
  pub fits : total left.0 + size ≤ maximum
  pub had_to_go : HadToGo size maximum lost left.0
  pub told : left.2 ≡ (dropped || not (is_empty lost))

pub make_room-MakesRoom :
    (size maximum : ℕ) (queue : List Bytes) (bytes : ℕ) (dropped : Bool)
    → size ≤ maximum
    → bytes ≡ total queue
    → bytes ≤ maximum
    → (lost : List Bytes) × MakesRoom size maximum queue lost dropped
        (make_room size maximum queue bytes dropped)
unfolding make_room total
make_room-MakesRoom size maximum [] bytes dropped h e l = (
  [],
  record { parts = refl; counts = e; fits = omega arith; had_to_go = tt; told = ground arith },
)
make_room-MakesRoom size maximum (frame ∷ queue) bytes dropped h e l =
    elim (Bool-cases (ltb (maximum - bytes) size)) [
      | inl full ↦
          let (lost, v) =
            make_room-MakesRoom size maximum queue (bytes - length frame) true h (omega (arith, e))
              (omega (arith, l)) in
          (
            frame ∷ lost,
            rw full (record {
              parts = ap (λ z. frame ∷ z) v.parts;
              counts = v.counts;
              fits = v.fits;
              had_to_go = (ground (arith, e, ap total v.parts), v.had_to_go);
              told = v.told ∙ ground arith;
            }),
          )
      | inr room ↦ (
        [],
        rw room (record {
          parts = refl;
          counts = e;
          fits = ground (arith, e);
          had_to_go = tt;
          told = ground arith;
        }),
      )
    ]
