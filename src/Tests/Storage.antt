-- ===== src/Tests/Storage.antt =====
-- Runs of the buffer: src/internal/buffer.hpp.
use erikslund_http_embedded.Tests.{program}
use erikslund_http_embedded.Prelude.{codes, ◌≡◌, refl, List, [], ◌∷◌, arith}
use erikslund_http_embedded.Buffer.{Buffer, readable, append, consume}
use erikslund_http_embedded.Buffer.Queue.{IsValid}
use erikslund_http_embedded.Buffer.Runs.{
  Operation, put, discard, move_front, reclaim, apply_all, apply_all_refines, queue_all, AllowsAll,
}

abbrev half_read : Buffer
half_read = record { storage = codes "abcdef"; read_cursor = 2; write_cursor = 5 }

abbrev history : List Operation
history = put (codes "xyz") ∷ discard 2 ∷ move_front ∷ reclaim 0 ∷ []

half_read-IsValid : IsValid half_read
half_read-IsValid = record { ordered = omega arith; inside = omega arith }

history-AllowsAll : AllowsAll (codes "cde") history
unfolding AllowsAll
history-AllowsAll = (omega arith, (omega arith, (omega arith, (omega arith, omega arith))))

apply_all_example :
    IsValid (apply_all half_read history)
    × (readable (apply_all half_read history) ≡ queue_all (readable half_read) history)
unfolding program
apply_all_example = apply_all_refines half_read history half_read-IsValid history-AllowsAll

history_test : readable (consume (append half_read (codes "xyz")) 2) ≡ codes "exyz"
unfolding program
history_test = refl
