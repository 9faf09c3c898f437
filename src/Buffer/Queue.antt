-- ===== src/Buffer/Queue.antt =====
-- A buffer is a queue of bytes: what its operations do to the bytes that can be read.
use erikslund_http_embedded.Prelude.{
  ℕ, ◌+◌, ◌-◌, ◌≤◌, ◌≡◌, ◌++◌, arith, Bytes, length, take, drop, replicate, length-append,
  length-take, length-drop, length-replicate, take-append, drop-append, take_all, ◌*◌, max, refl,
  sym, ap, ◌∙◌, ◌≡⟨◌⟩◌, ◌∎, inl, inr, append_assoc, ltb, Bool-cases, drop-take, take-append_eq, ap₂,
  ◌==◌, drop-drop, leb, leb→le,
}
use erikslund_http_embedded.Buffer.{
  Buffer, readable, writable_tail, overwrite, resize, grow_to, writable_capacity, commit, consume,
  compact, append, compact_and_reclaim, initial_buffer_bytes, size, capacity,
}

-- The cursors are in order and inside the storage.
pub record IsValid (b : Buffer) : Type 0 where
  pub ordered : b.read_cursor ≤ b.write_cursor
  pub inside : b.write_cursor ≤ length b.storage

abbrev window : Bytes → ℕ → ℕ → Bytes
window s from count = take count (drop from s)

length-resize : (n : ℕ) (s : Bytes) → length (resize n s) ≡ n
unfolding resize
length-resize n s = omega (
  arith,
  length-append (take n s) (replicate (n - length s) 0),
  length-take n s,
  length-replicate {A = ℕ} (n - length s) 0,
)

length-overwrite :
    (s : Bytes) (offset : ℕ) (bytes : Bytes)
    → offset + length bytes ≤ length s
    → length (overwrite s offset bytes) ≡ length s
unfolding overwrite
length-overwrite s offset bytes h = omega (
  arith,
  length-append (take offset s) (bytes ++ drop (offset + length bytes) s),
  length-append bytes (drop (offset + length bytes) s),
  length-take offset s,
  length-drop (offset + length bytes) s,
)

-- A resize upwards keeps what is there.
window-resize :
    (n : ℕ) (s : Bytes) (from count : ℕ)
    → from + count ≤ length s
    → length s ≤ n
    → window (resize n s) from count ≡ window s from count
unfolding resize
window-resize n s from count h l =
    rw (take_all n s l, drop-append from s (replicate (n - length s) 0) (omega arith))
      (take-append count (drop from s) _ (omega (arith, length-drop from s)))

pub writable_tail_keeps :
    (b : Buffer) (minimum : ℕ)
    → IsValid b
    → IsValid (writable_tail b minimum)
      × (readable (writable_tail b minimum) ≡ readable b)
      × (minimum ≤ writable_capacity (writable_tail b minimum))
      × ((writable_tail b minimum).write_cursor ≡ b.write_cursor)
      × ((writable_tail b minimum).read_cursor ≡ b.read_cursor)
unfolding writable_tail grow_to readable
writable_tail_keeps b minimum v = elim (Bool-cases (ltb (writable_capacity b) minimum)) [
  | inl e ↦
      let target = max (max (b.write_cursor + minimum) (length b.storage * 2)) 4096 in
      rw e (
        record {
          ordered = v.ordered;
          inside = omega (arith, v.inside, length-resize target b.storage);
        },
        window-resize target b.storage b.read_cursor (b.write_cursor - b.read_cursor)
            (omega (arith, v.inside, v.ordered)) (omega arith),
        omega (arith, length-resize target b.storage),
        refl,
        refl,
      )
  | inr e ↦ rw e (v, refl, ground arith, refl, refl)
]

window-overwrite :
    (s bytes : Bytes) (from to : ℕ)
    → from ≤ to
    → to + length bytes ≤ length s
    → window (overwrite s to bytes) from (to + length bytes - from)
      ≡ window s from (to - from) ++ bytes
unfolding overwrite
window-overwrite s bytes from to h l =
    window (take to s ++ (bytes ++ rest)) from count
    ≡⟨ ap (take count)
        (drop-append from (take to s) (bytes ++ rest) (omega (arith, length-take to s))) ⟩
      take count (drop from (take to s) ++ (bytes ++ rest))
    ≡⟨ ap (take count) (sym (append_assoc (drop from (take to s)) bytes rest)) ⟩
      take count ((drop from (take to s) ++ bytes) ++ rest)
    ≡⟨ take-append_eq count (drop from (take to s) ++ bytes) rest filled ⟩
      drop from (take to s) ++ bytes
    ≡⟨ ap (λ x. x ++ bytes) (drop-take from to s) ⟩ window s from (to - from) ++ bytes ∎
  where
    rest : Bytes
    rest = drop (to + length bytes) s

    count : ℕ
    count = to + length bytes - from

    filled : length (drop from (take to s) ++ bytes) ≡ to + length bytes - from
    filled = omega (
      arith,
      length-append (drop from (take to s)) bytes,
      length-drop from (take to s),
      length-take to s,
    )

pub append_refines :
    (b : Buffer) (bytes : Bytes)
    → IsValid b
    → IsValid (append b bytes) × (readable (append b bytes) ≡ readable b ++ bytes)
unfolding append commit readable
append_refines b bytes v =
    let t = writable_tail b (length bytes) in
    let (w, same, room, wc, rc) = writable_tail_keeps b (length bytes) v in
    let fits : t.write_cursor + length bytes ≤ length t.storage = omega (arith, w.inside) in
    (
      record {
        ordered = omega (arith, w.ordered);
        inside = omega (arith, length-overwrite t.storage t.write_cursor bytes fits);
      },
      window-overwrite t.storage bytes t.read_cursor t.write_cursor w.ordered fits
          ∙ ap (λ x. x ++ bytes) same,
    )

pub consume_refines :
    (b : Buffer) (count : ℕ)
    → IsValid b
    → count ≤ size b
    → IsValid (consume b count) × (readable (consume b count) ≡ drop count (readable b))
unfolding consume readable
consume_refines b count v h = elim (Bool-cases (b.read_cursor + count == b.write_cursor)) [
  | inl e ↦
      let none_left : b.write_cursor - b.read_cursor - count ≡ 0 = ground arith in
      rw e (
        record { ordered = omega arith; inside = omega arith },
        sym (
            drop-take count (b.write_cursor - b.read_cursor) (drop b.read_cursor b.storage)
            ∙ ap (λ n. take n (drop count (drop b.read_cursor b.storage))) none_left),
      )
  | inr e ↦ rw e (
    record { ordered = omega arith; inside = omega arith },
    sym (
        drop-take count (b.write_cursor - b.read_cursor) (drop b.read_cursor b.storage)
        ∙ ap₂ take (omega arith) (drop-drop count b.read_cursor b.storage)),
  )
]

pub length-readable : (b : Buffer) → IsValid b → length (readable b) ≡ size b
unfolding readable
length-readable b v = omega (
  arith,
  v.inside,
  length-take (b.write_cursor - b.read_cursor) (drop b.read_cursor b.storage),
  length-drop b.read_cursor b.storage,
)

-- A copy of the readable bytes to the start of a storage that is long enough.
window-front :
    (s bytes : Bytes) (count : ℕ)
    → count ≡ length bytes
    → length bytes ≤ length s
    → window (overwrite s 0 bytes) 0 (count - 0) ≡ bytes
window-front s bytes count e h =
    ap (λ n. window (overwrite s 0 bytes) 0 n) (omega (arith, e))
    ∙ window-overwrite s bytes 0 0 (omega arith) (omega (arith, h))

pub compact_refines :
    (b : Buffer)
    → IsValid b
    → IsValid (compact b) × (readable (compact b) ≡ readable b) × ((compact b).read_cursor ≡ 0)
unfolding compact
compact_refines b v = elim (Bool-cases (b.read_cursor == 0)) [
  | inl e ↦ rw e (v, refl, ground arith)
  | inr e ↦
      let live = length-readable b v in
      let fits : length (readable b) ≤ length b.storage = omega (arith, live, v.inside) in
      rw e (
        record {
          ordered = omega arith;
          inside =
              omega
                (arith, v.inside, length-overwrite b.storage 0 (readable b) (omega (arith, fits)));
        },
        unfold readable in window-front b.storage (readable b) (size b) (sym live) fits,
        refl,
      )
]

readable_at_start : (b : Buffer) → b.read_cursor ≡ 0 → take (size b) b.storage ≡ readable b
unfolding readable
readable_at_start b e = rw e refl

reclaimed_readable :
    (c : Buffer) (target : ℕ)
    → c.read_cursor ≡ 0
    → length (readable c) ≡ size c
    → 0 + length (take (size c) c.storage) ≤ length (replicate {A = ℕ} target 0)
    → readable (record c { storage = overwrite (replicate target 0) 0 (take (size c) c.storage) })
      ≡ take (size c) c.storage
unfolding readable
reclaimed_readable c target at_start live fits =
    ap
      (λ r.
        window (overwrite (replicate target 0) 0 (take (size c) c.storage)) r (c.write_cursor - r))
      at_start
    ∙ window-front (replicate target 0) (take (size c) c.storage) c.write_cursor
        (omega (arith, at_start, live, ap (length {A = ℕ}) (readable_at_start c at_start)))
        (omega (arith, fits))

pub reclaim_refines :
    (b : Buffer) (retained : ℕ)
    → IsValid b
    → IsValid (compact_and_reclaim b retained)
      × (readable (compact_and_reclaim b retained) ≡ readable b)
      × (capacity (compact_and_reclaim b retained)
          ≤ max (length (readable b)) (max retained initial_buffer_bytes))
unfolding compact_and_reclaim
reclaim_refines b retained v =
    let c = compact b in
    let (w, same, at_start) = compact_refines b v in
    let target = max (size c) (max retained initial_buffer_bytes) in
    let live = length-readable c w in
    let same_length = ap (length {A = ℕ}) same in
    elim (Bool-cases (leb (length c.storage) target)) [
      | inl e ↦ rw e (w, same, omega (arith, live, same_length, leb→le (length c.storage) target e))
      | inr e ↦
          let front : take (size c) c.storage ≡ readable c = readable_at_start c at_start in
          let zeros = length-replicate {A = ℕ} target 0 in
          let fits : 0 + length (take (size c) c.storage) ≤ length (replicate {A = ℕ} target 0) =
            omega (arith, length-take (size c) c.storage, zeros) in
          let same_size = length-overwrite (replicate target 0) 0 (take (size c) c.storage) fits in
          rw e (
            record { ordered = w.ordered; inside = omega (arith, same_size, zeros, at_start) },
            reclaimed_readable c target at_start live fits ∙ (front ∙ same),
            omega (arith, same_size, zeros, live, same_length),
          )
    ]
