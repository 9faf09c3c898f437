-- ===== src/Buffer/Runs.antt =====
-- Sequences of the buffer's operations, against a queue of bytes that has no cursors and no capacity.
use erikslund_http_embedded.Prelude.{
  ℕ, ◌≤◌, ◌≡◌, ◌++◌, arith, Bytes, length, drop, refl, sym, ap, List, subst, ◌∙◌, [], ◌∷◌,
}
use erikslund_http_embedded.Buffer.{
  Buffer, readable, append, consume, compact, compact_and_reclaim, clear,
}
use erikslund_http_embedded.Buffer.Queue.{
  IsValid, append_refines, consume_refines, compact_refines, reclaim_refines, length-readable,
}

pub data Operation : Type 0 where
  put : Bytes → Operation
  discard : ℕ → Operation
  move_front : Operation
  reclaim : ℕ → Operation
  reset : Operation

unfoldable pub apply : Buffer → Operation → Buffer
apply b (put bytes) = append b bytes
apply b (discard count) = consume b count
apply b move_front = compact b
apply b (reclaim retained) = compact_and_reclaim b retained
apply b reset = clear b

unfoldable pub apply_all : Buffer → List Operation → Buffer
unfolding apply
apply_all b [] = b
apply_all b (o ∷ rest) = apply_all (apply b o) rest

unfoldable pub queue : Bytes → Operation → Bytes
queue q (put bytes) = q ++ bytes
queue q (discard count) = drop count q
queue q move_front = q
queue q (reclaim retained) = q
queue q reset = []

unfoldable pub queue_all : Bytes → List Operation → Bytes
unfolding queue
queue_all q [] = q
queue_all q (o ∷ rest) = queue_all (queue q o) rest

-- The contract: nothing is consumed that is not there.
unfoldable pub Allows : Bytes → Operation → Type 0
Allows q (discard count) = count ≤ length q
Allows q o = 0 ≤ 0

unfoldable pub AllowsAll : Bytes → List Operation → Type 0
unfolding Allows queue
AllowsAll q [] = 0 ≤ 0
AllowsAll q (o ∷ rest) = Allows q o × AllowsAll (queue q o) rest

apply_refines :
    (b : Buffer) (o : Operation)
    → IsValid b
    → Allows (readable b) o
    → IsValid (apply b o) × (readable (apply b o) ≡ queue (readable b) o)
unfolding apply queue Allows clear readable
apply_refines b (put bytes) v a = append_refines b bytes v
apply_refines b (discard count) v a =
    consume_refines b count v (omega (arith, a, length-readable b v))
apply_refines b move_front v a = let (w, same, _) = compact_refines b v in (w, same)
apply_refines b (reclaim retained) v a =
    let (w, same, _) = reclaim_refines b retained v in (w, same)
apply_refines b reset v a = (record { ordered = omega arith; inside = omega arith }, refl)

-- From a buffer whose cursors are in order and inside its storage, a sequence of operations that never
-- consumes more than is readable leaves such a buffer, and what can then be read is what the plain
-- queue holds after the same sequence: growth, compaction and reclaiming lose and reorder nothing.
pub apply_all_refines :
    (b : Buffer) (os : List Operation)
    → IsValid b
    → AllowsAll (readable b) os
    → IsValid (apply_all b os) × (readable (apply_all b os) ≡ queue_all (readable b) os)
unfolding apply_all queue_all AllowsAll
apply_all_refines b [] v a = (v, refl)
apply_all_refines b (o ∷ rest) v (a, more) =
    let (w, same) = apply_refines b o v a in
    let (x, all_same) =
      apply_all_refines (apply b o) rest w (subst (λ q. AllowsAll q rest) (sym same) more) in
    (x, all_same ∙ ap (λ q. queue_all q rest) same)
