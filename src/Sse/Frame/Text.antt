-- ===== src/Sse/Frame/Text.antt =====
-- What a client reads from the frame of an event.
use erikslund_http_embedded.Prelude.{
  ℕ, Bytes, length, split-append, zero, suc, ◌≤◌, ◌<◌, ◌≡◌, refl, sym, ap, ◌∙◌, ◌⊎◌, inl, inr, Bool,
  true, false, none, some, List, [], ◌∷◌, ◌++◌, append_assoc, append-nil, arith, ◌==◌,
  if◌then◌else◌, Bool-cases, Lacks, split, split_of_Lacks, ◌+◌, ◌≢◌, map, is_empty, All, All-append,
  split-All, split-Lacks, Option,
}
use erikslund_http_embedded.Sse.Frame.{
  cr, lf, skip_lf, cut_line, append_lines_from, data_field_prefix, append_data_lines,
  append_event_name, build_event_frame, event_field_prefix, name_byte,
}

-- Each CR LF pair, each other CR and each other LF as one LF; the flag is set behind a CR.
unfoldable pub normalize : Bool → Bytes → Bytes
normalize after_cr [] = []
normalize after_cr (c ∷ s) =
    let broken = normalize true s in
    let plain = normalize false s in
    if c == cr
    then lf ∷ broken
    else if c == lf
    then if after_cr then plain else lf ∷ plain
    else c ∷ plain

normalize-skip_lf : (s : Bytes) → normalize true s ≡ normalize false (skip_lf s)
unfolding normalize skip_lf
normalize-skip_lf [] = refl
normalize-skip_lf (c ∷ s) = ground arith

normalize-Lacks : (after_cr : Bool) (s : Bytes) → Lacks cr (normalize after_cr s)
unfolding normalize
normalize-Lacks after_cr [] = tt
normalize-Lacks after_cr (c ∷ s) = ground (arith, normalize-Lacks true s, normalize-Lacks false s)

length-skip_lf : (s : Bytes) → length (skip_lf s) ≤ length s
unfolding skip_lf
length-skip_lf [] = omega arith
length-skip_lf (c ∷ s) = ground arith

-- The lines of a payload.
abbrev pub lines_of : Bytes → List Bytes
lines_of payload = split lf (normalize false payload)

-- One line cut off: it is the first of the lines, and the lines of what is behind are the others.
abbrev pub LineCut : Bytes → Type 0
LineCut payload =
    ((cut_line payload ≡ (payload, none)) × (normalize false payload ≡ payload) × Lacks lf payload)
    ⊎ ((line : Bytes) × (rest : Bytes) × (cut_line payload ≡ (line, some rest))
        × (normalize false payload ≡ line ++ (lf ∷ normalize false rest))
        × Lacks lf line
        × (length rest < length payload))

pub line_cut : (payload : Bytes) → LineCut payload
unfolding cut_line normalize
line_cut [] = inl (refl, refl, tt)
line_cut (c ∷ s) = elim (Bool-cases (c == cr)) [
  | inl e ↦ inr (
    [],
    skip_lf s,
    ground arith,
    rw e (ap (λ z. lf ∷ z) (normalize-skip_lf s)),
    tt,
    omega (arith, length-skip_lf s),
  )
  | inr e ↦ elim (Bool-cases (c == lf)) [
    | inl f ↦ inr ([], s, ground arith, ground arith, tt, omega arith)
    | inr f ↦ elim (line_cut s) [
      | inl (g, n, free) ↦ inl (rw (e, f, g), rw (e, f, n), (ground arith, free))
      | inr (line, rest, g, n, free, l) ↦
          inr (c ∷ line, rest, rw (e, f, g), rw (e, f, n), (ground arith, free), omega arith)
    ]
  ]
]

data_lines : List Bytes → Bytes
data_lines [] = []
data_lines (line ∷ lines) = (data_field_prefix ++ (line ++ (lf ∷ []))) ++ data_lines lines

-- One round, by what is cut off.
unfoldable pub after_cut : ℕ → Bytes → Bytes × Option Bytes → Bytes
after_cut fuel frame (line, after) =
    let longer = frame ++ (data_field_prefix ++ (line ++ (lf ∷ []))) in
    elim after [ none ↦ longer | some rest ↦ append_lines_from fuel longer rest ]

append_lines_from_lem :
    (fuel : ℕ) (frame payload : Bytes)
    → length payload < fuel
    → append_lines_from fuel frame payload ≡ frame ++ data_lines (lines_of payload)
unfolding append_lines_from data_lines after_cut
append_lines_from_lem zero frame payload h = absurd (omega arith)
append_lines_from_lem (suc fuel) frame payload h = elim (line_cut payload) [
  | inl (e, n, free) ↦
      let lines : lines_of payload ≡ payload ∷ [] =
        ap (split lf) n ∙ split_of_Lacks lf payload free in
      ap (after_cut fuel frame) e
      ∙ (ap (λ z. frame ++ z) (sym (append-nil (data_field_prefix ++ (payload ++ (lf ∷ [])))))
          ∙ ap (λ ls. frame ++ data_lines ls) (sym lines))
  | inr (line, rest, e, n, free, l) ↦
      let lines : lines_of payload ≡ line ∷ lines_of rest =
        ap (split lf) n ∙ split-append lf line (normalize false rest) free in
      ap (after_cut fuel frame) e
      ∙ (append_lines_from_lem fuel (frame ++ (data_field_prefix ++ (line ++ (lf ∷ [])))) rest
            (omega arith)
          ∙ (append_assoc frame (data_field_prefix ++ (line ++ (lf ∷ [])))
                (data_lines (lines_of rest))
              ∙ ap (λ ls. frame ++ data_lines ls) (sym lines)))
]

data_line-Lacks :
    (b : ℕ) (line : Bytes)
    → Lacks b data_field_prefix
    → Lacks b line
    → Lacks b (data_field_prefix ++ line)
data_line-Lacks b line p h = All-append (λ c. c ≢ b) data_field_prefix line p h

prefix-Lacks : (b : ℕ) → b < 32 → Lacks b data_field_prefix × Lacks b event_field_prefix
prefix-Lacks b h = ground arith

one_line : (p line more : Bytes) → (p ++ (line ++ (lf ∷ []))) ++ more ≡ (p ++ line) ++ (lf ∷ more)
one_line p line more =
    append_assoc p (line ++ (lf ∷ [])) more
    ∙ (ap (λ z. p ++ z) (append_assoc line (lf ∷ []) more) ∙ sym (append_assoc p line (lf ∷ more)))

-- Behind the lines of a payload, one after the other, comes what follows them.
split-data_lines :
    (lines : List Bytes) (more : Bytes)
    → All (Lacks lf) lines
    → split lf (data_lines lines ++ more)
      ≡ map (λ line. data_field_prefix ++ line) lines ++ split lf more
unfolding data_lines
split-data_lines [] more h = refl
split-data_lines (line ∷ lines) more (p, h) =
    ap (split lf) (
      append_assoc (data_field_prefix ++ (line ++ (lf ∷ []))) (data_lines lines) more
      ∙ one_line data_field_prefix line (data_lines lines ++ more))
    ∙ (split-append lf (data_field_prefix ++ line) (data_lines lines ++ more)
          (data_line-Lacks lf line ((prefix-Lacks lf (omega arith)).0) p)
        ∙ ap (λ z. (data_field_prefix ++ line) ∷ z) (split-data_lines lines more h))

name_bytes-Lacks : (b : ℕ) (event : Bytes) → (b ≡ cr) ⊎ (b ≡ lf) → Lacks b (map name_byte event)
unfolding name_byte
name_bytes-Lacks b [] h = tt
name_bytes-Lacks b (c ∷ event) h = (ground arith, name_bytes-Lacks b event h)

data_lines-Lacks : (lines : List Bytes) → All (Lacks cr) lines → Lacks cr (data_lines lines)
unfolding data_lines
data_lines-Lacks [] h = tt
data_lines-Lacks (line ∷ lines) (p, h) =
    All-append (λ c. c ≢ cr) (data_field_prefix ++ (line ++ (lf ∷ []))) (data_lines lines)
      (data_line-Lacks cr (line ++ (lf ∷ [])) (prefix-Lacks cr (omega arith)).0
        (All-append (λ c. c ≢ cr) line (lf ∷ []) p (ground arith)))
      (data_lines-Lacks lines h)

-- The line of the name, if there is one.
pub name_lines : Bytes → List Bytes
name_lines [] = []
name_lines (c ∷ event) = (event_field_prefix ++ map name_byte (c ∷ event)) ∷ []

frame_of_parts :
    (event payload : Bytes)
    → build_event_frame event payload
      ≡ (if is_empty event then [] else append_event_name [] event)
        ++ (data_lines (lines_of payload) ++ (lf ∷ []))
unfolding build_event_frame append_data_lines
frame_of_parts event payload =
    let named = if is_empty event then [] else append_event_name [] event in
    ap (λ z. z ++ (lf ∷ []))
      (append_lines_from_lem (length payload + 1) named payload (omega arith))
    ∙ append_assoc named (data_lines (lines_of payload)) (lf ∷ [])

lines-Lacks : (payload : Bytes) → All (Lacks cr) (lines_of payload)
lines-Lacks payload =
    split-All (λ c. c ≢ cr) lf (normalize false payload) (normalize-Lacks false payload)

data_part : Bytes → Bytes
data_part payload = data_lines (lines_of payload) ++ (lf ∷ [])

split-data_part :
    (payload : Bytes)
    → split lf (data_part payload)
      ≡ map (λ line. data_field_prefix ++ line) (lines_of payload) ++ ([] ∷ [] ∷ [])
unfolding data_part split
split-data_part payload =
    split-data_lines (lines_of payload) (lf ∷ []) (split-Lacks lf (normalize false payload))

data_part-Lacks : (payload : Bytes) → Lacks cr (data_part payload)
unfolding data_part
data_part-Lacks payload =
    All-append (λ c. c ≢ cr) (data_lines (lines_of payload)) (lf ∷ [])
      (data_lines-Lacks (lines_of payload) (lines-Lacks payload)) (ground arith)

-- The lines of an event's frame, which no CR breaks, are: one for the name if it is not empty, with its
-- breaks as spaces; one for each line of the payload, where CR, LF and the two together each end a
-- line; and the empty line that ends the event, with nothing behind it.
pub build_event_frame_lem :
    (event payload : Bytes)
    → (split lf (build_event_frame event payload)
        ≡ name_lines event
          ++ (map (λ line. data_field_prefix ++ line) (lines_of payload) ++ ([] ∷ [] ∷ [])))
      × Lacks cr (build_event_frame event payload)
build_event_frame_lem [] payload =
    rw (frame_of_parts [] payload)
      (unfold name_lines data_part in (split-data_part payload, data_part-Lacks payload))
build_event_frame_lem (c ∷ event) payload = rw (frame_of_parts (c ∷ event) payload) (
    unfold name_lines append_event_name data_part in
    (
      ap (split lf) (one_line event_field_prefix (map name_byte (c ∷ event)) (data_part payload))
          ∙ (split-append lf (event_field_prefix ++ map name_byte (c ∷ event)) (data_part payload) (
                All-append (λ b. b ≢ lf) event_field_prefix (map name_byte (c ∷ event))
                  (prefix-Lacks lf (omega arith)).1 (name_bytes-Lacks lf (c ∷ event) (inr refl)))
              ∙ ap (λ z. (event_field_prefix ++ map name_byte (c ∷ event)) ∷ z)
                  (split-data_part payload)),
      All-append (λ b. b ≢ cr) (event_field_prefix ++ (map name_byte (c ∷ event) ++ (lf ∷ [])))
          (data_part payload)
          (All-append (λ b. b ≢ cr) event_field_prefix (map name_byte (c ∷ event) ++ (lf ∷ []))
            (prefix-Lacks cr (omega arith)).1
            (All-append (λ b. b ≢ cr) (map name_byte (c ∷ event)) (lf ∷ [])
              (name_bytes-Lacks cr (c ∷ event) (inl refl)) (ground arith)))
          (data_part-Lacks payload),
    ))
