-- ===== src/Connection/Wire.antt =====
-- What reaches the transport of a response: its bytes, in order, whatever part each call takes.
use native.Mathlib.Nat.{zero-add, suc-add, sub-zero, suc-sub-suc}
use erikslund_http_embedded.Prelude.{
  ℕ, zero, suc, ◌+◌, ◌-◌, ◌≤◌, ◌<◌, ◌≡◌, refl, sym, ap, ◌∙◌, inl, inr, true, none, List, [], ◌∷◌,
  ◌++◌, arith, ltb, leb, leb→le, Bool-cases, Option-cases, if_false, Bytes, is_empty, length, take,
  drop, length-append, length-drop, drop-append, take_all, take-nil, drop-nil_eq, All, ◌==◌,
}
use erikslund_http_embedded.Connection.{
  write_loop, TransportResult, WriteEnd, all_written, pending_bytes, transport_ok, batch, flatten,
  stops,
}

take-add : (k n : ℕ) (xs : Bytes) → take (k + n) xs ≡ take k xs ++ take n (drop k xs)
take-add zero n xs = rw zero-add refl
take-add (suc k) n [] = rw suc-add (sym (take-nil n))
take-add (suc k) n (x ∷ xs) = rw suc-add (ap (λ z. x ∷ z) (take-add k n xs))

length-flatten : (vectors : List Bytes) → length (flatten vectors) ≡ pending_bytes vectors
unfolding flatten pending_bytes
length-flatten [] = refl
length-flatten (entry ∷ entries) =
    omega (arith, length-append entry (flatten entries), length-flatten entries)

drop-append_long :
    (k : ℕ) (xs ys : Bytes) → length xs ≤ k → drop k (xs ++ ys) ≡ drop (k - length xs) ys
drop-append_long k [] ys h = rw sub-zero refl
drop-append_long zero (x ∷ xs) ys h = absurd (omega arith)
drop-append_long (suc k) (x ∷ xs) ys h = rw suc-sub-suc (drop-append_long k xs ys (omega arith))

-- A batch is what is behind the offset.
flatten-batch :
    (skipped : ℕ) (vectors : List Bytes)
    → flatten (batch skipped vectors) ≡ drop skipped (flatten vectors)
unfolding flatten batch
flatten-batch skipped [] = drop-nil_eq skipped
flatten-batch skipped (entry ∷ entries) = elim (Bool-cases (leb (length entry) skipped)) [
  | inl e ↦ rw e (
      flatten-batch (skipped - length entry) entries
      ∙ sym (drop-append_long skipped entry (flatten entries) (leb→le (length entry) skipped e)))
  | inr e ↦ rw e (
      ap (λ z. drop skipped entry ++ z) (flatten-batch 0 entries)
      ∙ sym (drop-append skipped entry (flatten entries) (ground arith)))
]

-- A transport takes no more of a batch than it is handed.
abbrev pub IsHonest : List TransportResult → ℕ → ℕ → Type 0
IsHonest [] write_offset pending = Unit
IsHonest (result ∷ results) write_offset pending =
    (write_offset + result.bytes ≤ pending) × IsHonest results (write_offset + result.bytes) pending

-- The wire has the bytes up to the offset.
pub record IsWritten (vectors : List Bytes) (end : WriteEnd) (write_offset : ℕ) (wire : Bytes)
    : Type 0 where
  pub within : write_offset ≤ pending_bytes vectors
  pub sent : wire ≡ take write_offset (flatten vectors)
  pub whole : end ≡ all_written → wire ≡ flatten vectors

take_whole :
    (vectors : List Bytes) (write_offset : ℕ) (wire : Bytes)
    → wire ≡ take write_offset (flatten vectors)
    → pending_bytes vectors ≤ write_offset
    → wire ≡ flatten vectors
take_whole vectors write_offset wire h l =
    h ∙ take_all write_offset (flatten vectors) (omega (arith, length-flatten vectors))

batch-is_empty :
    (vectors : List Bytes) (write_offset : ℕ)
    → is_empty (batch write_offset vectors) ≡ true
    → pending_bytes vectors ≤ write_offset
unfolding flatten
batch-is_empty vectors write_offset e =
    let none_left : batch write_offset vectors ≡ [] = ground arith in
    let gone : [] ≡ drop write_offset (flatten vectors) =
      ap flatten (sym none_left) ∙ flatten-batch write_offset vectors in
    omega
      (arith, ap length gone, length-drop write_offset (flatten vectors), length-flatten vectors)

-- However the transport answers, what reaches it is the bytes of the vectors up to the offset, each once
-- and in order, and all of them where the loop says so; the loop may start behind any such offset, as
-- it does when the connection is driven again. No call takes more than it is handed.
pub write_loop-IsWritten :
    (results : List TransportResult) (vectors : List Bytes) (write_offset : ℕ) (wire : Bytes)
    → IsHonest results write_offset (pending_bytes vectors)
    → write_offset ≤ pending_bytes vectors
    → wire ≡ take write_offset (flatten vectors)
    → let (end, offset, sent) = write_loop results vectors write_offset wire in
      IsWritten vectors end offset sent
unfolding write_loop
write_loop-IsWritten [] vectors write_offset wire honest l h = record {
  within = l;
  sent = h;
  whole = λ e. take_whole vectors write_offset wire h (ground arith);
}
write_loop-IsWritten (result ∷ results) vectors write_offset wire (now, honest) l h =
    elim (Bool-cases (ltb write_offset (pending_bytes vectors))) [
      | inr e ↦ rw e (record {
        within = l;
        sent = h;
        whole = λ _. take_whole vectors write_offset wire h (ground arith);
      })
      | inl e ↦ elim (Bool-cases (is_empty (batch write_offset vectors))) [
        | inl f ↦
            rw (e, f)
              (record {
                within = l;
                sent = h;
                whole = λ _.
                    take_whole vectors write_offset wire h (batch-is_empty vectors write_offset f);
              })
        | inr f ↦ elim (Option-cases (stops result)) [
          | inr (interest, g) ↦
              rw (e, f, g) (record { within = l; sent = h; whole = λ k. absurd (ground arith) })
          | inl g ↦
              rw (e, f, g)
                (write_loop-IsWritten results vectors (write_offset + result.bytes)
                  (wire ++ take result.bytes (flatten (batch write_offset vectors))) honest now
                  (ap (λ z. z ++ take result.bytes (flatten (batch write_offset vectors))) h
                    ∙ (ap (λ z. take write_offset (flatten vectors) ++ take result.bytes z)
                          (flatten-batch write_offset vectors)
                        ∙ sym (take-add write_offset result.bytes (flatten vectors)))))
        ]
      ]
    ]

-- The answers of a transport that takes something at every call.
abbrev pub Takes : List TransportResult → Type 0
Takes = All (λ (r : TransportResult). (r.status ≡ transport_ok) × (0 < r.bytes))

-- A transport that takes something at every call is called at most once for each byte, and then all is
-- written: the loop ends.
pub write_loop-ends :
    (results : List TransportResult) (vectors : List Bytes) (write_offset : ℕ) (wire : Bytes)
    → Takes results
    → pending_bytes vectors ≤ write_offset + length results
    → (write_loop results vectors write_offset wire).0 ≡ all_written
unfolding write_loop
write_loop-ends [] vectors write_offset wire v h =
    if_false {b = ltb write_offset (pending_bytes vectors)} _ _ (ground arith)
write_loop-ends (result ∷ results) vectors write_offset wire ((s, b), v) h =
    elim (Bool-cases (ltb write_offset (pending_bytes vectors))) [
      | inr e ↦ rw e refl
      | inl e ↦ elim (Bool-cases (is_empty (batch write_offset vectors))) [
        | inl f ↦ rw (e, f) refl
        | inr f ↦
            rw (e, f)
              (rw (goes_on result s b) (
                write_loop-ends results vectors (write_offset + result.bytes)
                  (wire ++ take result.bytes (flatten (batch write_offset vectors))) v
                  (omega arith)))
      ]
    ]
  where
    goes_on :
        (result : TransportResult)
        → result.status ≡ transport_ok
        → 0 < result.bytes
        → stops result ≡ none
    goes_on result s b = unfold stops in rw s (if_false {b = result.bytes == 0} _ _ (ground arith))
