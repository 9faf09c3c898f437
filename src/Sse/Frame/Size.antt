-- ===== src/Sse/Frame/Size.antt =====
-- The size that is computed before a frame is built is the frame's.
use erikslund_http_embedded.Prelude.{
  ℕ, Bytes, length, zero, suc, ◌+◌, ◌≤◌, ◌<◌, ◌≡◌, refl, ap, ◌↔◌, Option, none, some, [], ◌∷◌, ◌++◌,
  map, arith, length-append, sym, subst, inl, inr, if◌then◌else◌, Option-cases, is_empty,
}
use erikslund_http_embedded.Sse.Frame.{
  cut_line, add_frame_bytes, add_three, lines_size_from, append_lines_from, data_field_prefix, lf,
  append_data_lines, append_event_name, build_event_frame, event_field_prefix, event_frame_size,
  name_byte,
}
use erikslund_http_embedded.Sse.Frame.Text.{after_cut, line_cut}

length-map : (f : ℕ → ℕ) (s : Bytes) → length (map f s) ≡ length s
length-map f [] = refl
length-map f (c ∷ s) = ap suc (length-map f s)

add_frame_bytes_iff :
    (size bytes limit n : ℕ)
    → size ≤ limit
    → (add_frame_bytes size bytes limit ≡ some n) ↔ ((n ≡ size + bytes) × (n ≤ limit))
unfolding add_frame_bytes
add_frame_bytes_iff size bytes limit n h = ground arith

add_three_iff :
    (size a b c limit n : ℕ)
    → size ≤ limit
    → (add_three size a b c limit ≡ some n) ↔ ((n ≡ size + a + b + c) × (n ≤ limit))
unfolding add_three add_frame_bytes
add_three_iff size a b c limit n h = ground arith

add_three-none :
    (size a b c limit : ℕ)
    → size ≤ limit
    → add_three size a b c limit ≡ none
    → limit < size + a + b + c
unfolding add_three add_frame_bytes
add_three-none size a b c limit h e = ground arith

-- One round, by the line that it takes off.
size_after_cut : ℕ → ℕ → ℕ → Bytes × Option Bytes → Option ℕ
size_after_cut fuel size limit (line, after) =
    elim (add_three size (length data_field_prefix) (length line) 1 limit) [
      | none ↦ none
      | some larger ↦ elim after [
        | none ↦ some larger
        | some rest ↦ lines_size_from fuel larger rest limit
      ]
    ]

-- A size that is computed is that of the text, and is refused where the text is over the limit.
abbrev IsSizeOf : ℕ → ℕ → Option ℕ → Bytes → Type 0
IsSizeOf limit n computed text = (computed ≡ some n) ↔ ((n ≡ length text) × (n ≤ limit))

longer_line :
    (frame line : Bytes)
    → length (frame ++ (data_field_prefix ++ (line ++ (lf ∷ []))))
      ≡ length frame + length data_field_prefix + length line + 1
longer_line frame line = omega (
  arith,
  length-append frame (data_field_prefix ++ (line ++ (lf ∷ []))),
  length-append data_field_prefix (line ++ (lf ∷ [])),
  length-append line (lf ∷ []),
)

abbrev Grows : ℕ → Type 0
Grows fuel = (frame payload : Bytes) → length frame ≤ length (append_lines_from fuel frame payload)

after_cut-Grows :
    (fuel : ℕ) (frame : Bytes) (taken : Bytes × Option Bytes)
    → Grows fuel
    → length frame ≤ length (after_cut fuel frame taken)
unfolding after_cut
after_cut-Grows fuel frame (line, none) g = omega (arith, longer_line frame line)
after_cut-Grows fuel frame (line, some rest) g =
    omega
      (arith, longer_line frame line, g (frame ++ (data_field_prefix ++ (line ++ (lf ∷ [])))) rest)

append_lines_from-Grows : (fuel : ℕ) → Grows fuel
unfolding append_lines_from after_cut
append_lines_from-Grows zero frame payload = omega arith
append_lines_from-Grows (suc fuel) frame payload =
    after_cut-Grows fuel frame (cut_line payload) (append_lines_from-Grows fuel)

last_line :
    (fuel size limit n : ℕ) (frame line : Bytes)
    → size ≡ length frame
    → size ≤ limit
    → IsSizeOf limit n
        (size_after_cut fuel size limit (line, none))
        (after_cut fuel frame (line, none))
unfolding size_after_cut after_cut
last_line fuel size limit n frame line e h =
    let (there, back) = add_three_iff size (length data_field_prefix) (length line) 1 limit n h in
    (
      λ k. ground (arith, there, longer_line frame line),
      λ k. ground (arith, back, longer_line frame line),
    )

middle_line :
    (fuel size limit n : ℕ) (frame line rest : Bytes)
    → size ≡ length frame
    → size ≤ limit
    → ((larger : ℕ)
        → larger ≡ size + length data_field_prefix + length line + 1
        → larger ≤ limit
        → IsSizeOf limit n
            (lines_size_from fuel larger rest limit)
            (append_lines_from fuel (frame ++ (data_field_prefix ++ (line ++ (lf ∷ [])))) rest))
    → IsSizeOf limit n
        (size_after_cut fuel size limit (line, some rest))
        (after_cut fuel frame (line, some rest))
unfolding size_after_cut after_cut
middle_line fuel size limit n frame line rest e h ih =
    elim (Option-cases (add_three size (length data_field_prefix) (length line) 1 limit)) [
      | inl f ↦
          let over = add_three-none size (length data_field_prefix) (length line) 1 limit h f in
          let grown =
            append_lines_from-Grows fuel (frame ++ (data_field_prefix ++ (line ++ (lf ∷ []))))
              rest in
          rw (size_after_cut, f)
            (λ k. cc, λ k. absurd (omega (arith, k, over, grown, longer_line frame line)))
      | inr (larger, f) ↦
          let (there, _) =
            add_three_iff size (length data_field_prefix) (length line) 1 limit larger h in
          let (sum, fits) = there f in rw (size_after_cut, f) (ih larger sum fits)
    ]

lines_size_from-IsSizeOf :
    (fuel size limit n : ℕ) (frame payload : Bytes)
    → length payload < fuel
    → size ≡ length frame
    → size ≤ limit
    → IsSizeOf limit n
        (lines_size_from fuel size payload limit)
        (append_lines_from fuel frame payload)
unfolding lines_size_from append_lines_from size_after_cut after_cut
lines_size_from-IsSizeOf zero size limit n frame payload l e h = absurd (omega arith)
lines_size_from-IsSizeOf (suc fuel) size limit n frame payload l e h = elim (line_cut payload) [
  | inl (c, _, _) ↦
      subst (λ z. IsSizeOf limit n (size_after_cut fuel size limit z) (after_cut fuel frame z))
        (sym c) (last_line fuel size limit n frame payload e h)
  | inr (line, rest, c, _, _, shorter) ↦
      subst (λ z. IsSizeOf limit n (size_after_cut fuel size limit z) (after_cut fuel frame z))
        (sym c)
        (middle_line fuel size limit n frame line rest e h (λ larger sum fits.
          lines_size_from-IsSizeOf fuel larger limit n
            (frame ++ (data_field_prefix ++ (line ++ (lf ∷ [])))) rest (omega arith)
            (omega (arith, sum, e, longer_line frame line)) fits))
]

-- The text of the name.
named : Bytes → Bytes
named event = if is_empty event then [] else append_event_name [] event

named_size :
    (event : Bytes) (limit n : ℕ)
    → IsSizeOf limit n
        (if is_empty event
          then some 0
          else add_three 0 (length event_field_prefix) (length event) 1 limit)
        (named event)
unfolding named append_event_name
named_size [] limit n = (λ k. ground arith, λ k. ground arith)
named_size (c ∷ event) limit n =
    let (there, back) =
      add_three_iff 0 (length event_field_prefix) (length (c ∷ event)) 1 limit n (omega arith) in
    let size = named_length (c ∷ event) in
    (
      λ k. let (sum, fits) = there k in (omega (arith, sum, size), fits),
      λ k. back (omega (arith, k.0, size), k.1),
    )
  where
    named_length :
        (e : Bytes)
        → length (event_field_prefix ++ (map name_byte e ++ (lf ∷ [])))
          ≡ length event_field_prefix + length e + 1
    named_length e = omega (
      arith,
      length-append event_field_prefix (map name_byte e ++ (lf ∷ [])),
      length-append (map name_byte e) (lf ∷ []),
      length-map name_byte e,
    )

-- A size, and then the size of a text that begins with the first.
then_size :
    (limit : ℕ) (c : Option ℕ) (t u : Bytes) (next : ℕ → Option ℕ)
    → ((n : ℕ) → IsSizeOf limit n c t)
    → length t ≤ length u
    → ((k : ℕ) → k ≡ length t → k ≤ limit → (n : ℕ) → IsSizeOf limit n (next k) u)
    → (n : ℕ) → IsSizeOf limit n (elim c [ none ↦ none | some k ↦ next k ]) u
then_size limit none t u next base l step n =
    (λ h. cc, λ h. absurd (cc ((base (length t)).1 (refl, omega (arith, h.0, h.1)))))
then_size limit (some k) t u next base l step n = let (e, fits) = (base k).0 refl in step k e fits n

-- The size that is computed for an event before its frame is built is exactly the size of the frame,
-- so that what is reserved is enough, and none is computed exactly when the frame is over the limit.
pub event_frame_size_iff :
    (event payload : Bytes) (limit n : ℕ)
    → (event_frame_size event payload limit ≡ some n)
      ↔ ((n ≡ length (build_event_frame event payload)) × (n ≤ limit))
unfolding event_frame_size build_event_frame append_data_lines named
event_frame_size_iff event payload limit =
    let fuel = length payload + 1 in
    let text = append_lines_from fuel (named event) payload in
    let ended = length-append text (lf ∷ []) in
    then_size limit
      (if is_empty event
        then some 0
        else add_three 0 (length event_field_prefix) (length event) 1 limit)
      (named event) (text ++ (lf ∷ [])) _ (named_size event limit)
      (omega (arith, ended, append_lines_from-Grows fuel (named event) payload))
      (λ k e fits.
        then_size limit (lines_size_from fuel k payload limit) text (text ++ (lf ∷ [])) _
          (λ n. lines_size_from-IsSizeOf fuel k limit n (named event) payload (omega arith) e fits)
          (omega (arith, ended))
          (λ m f within n.
            let (there, back) = add_frame_bytes_iff m 1 limit n within in
            (
              λ h. let (sum, all) = there h in (omega (arith, sum, f, ended), all),
              λ h. back (omega (arith, h.0, f, ended), h.1),
            )))
