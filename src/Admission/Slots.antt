-- ===== src/Admission/Slots.antt =====
-- The counts of the admission control are those of the slots that are held.
use erikslund_http_embedded.Prelude.{
  ◌==◌, ℕ, Bytes, List, Bool-cases, ◌≡◌, ◌≤◌, ◌+◌, refl, subst, ◌∙◌, inl, inr, false, ◌&&◌, Option,
  none, some, [], ◌∷◌, arith, if◌then◌else◌, bytes_eq, bytes_eq_iff, bytes_eq_refl, length,
}
use erikslund_http_embedded.Admission.{find, erase, Counts, ServerState, Slot, insert_or_assign}

-- How many of the slots count for a source.
unfoldable pub held : Bytes → List Slot → ℕ
held key [] = 0
held key (slot ∷ slots) =
    let later = held key slots in
    if slot.source_counted && bytes_eq slot.source key then later + 1 else later

-- The entry that the map has for a count: none for zero.
unfoldable pub entry : ℕ → Option ℕ
entry n = if n == 0 then none else some n

abbrev pub Distinct : Counts → Type 0
Distinct [] = Unit
Distinct ((k, n) ∷ counts) = (find k counts ≡ none) × Distinct counts

pub record IsAccounted (s : ServerState) (slots : List Slot) : Type 0 where
  pub counted : s.active_connections ≡ length slots
  pub entries : (key : Bytes) → find key s.source_connections ≡ entry (held key slots)
  pub distinct : Distinct s.source_connections
  pub bounded : length slots ≤ s.max_connections
  pub source_bounded : (key : Bytes) → held key slots ≤ s.max_connections_per_source

pub find-insert :
    (key : Bytes) (v : ℕ) (counts : Counts) → find key (insert_or_assign key v counts) ≡ some v
unfolding find insert_or_assign
find-insert key v [] = rw bytes_eq_refl refl
find-insert key v ((k, n) ∷ counts) = elim (Bool-cases (bytes_eq k key)) [
  | inl e ↦ rw (e, find) (rw e refl)
  | inr e ↦ rw (e, find) (rw e (find-insert key v counts))
]

pub find-insert_other :
    (key other : Bytes) (v : ℕ) (counts : Counts)
    → bytes_eq key other ≡ false
    → find other (insert_or_assign key v counts) ≡ find other counts
unfolding find insert_or_assign
find-insert_other key other v [] h = rw h refl
find-insert_other key other v ((k, n) ∷ counts) h = elim (Bool-cases (bytes_eq k key)) [
  | inl e ↦
      let apart : bytes_eq k other ≡ false = rw ((bytes_eq_iff k key).0 e) h in rw e (rw apart refl)
  | inr e ↦ rw e (ground (arith, find-insert_other key other v counts h))
]

pub find-erase_other :
    (key other : Bytes) (counts : Counts)
    → bytes_eq key other ≡ false
    → find other (erase key counts) ≡ find other counts
unfolding find erase
find-erase_other key other [] h = refl
find-erase_other key other ((k, n) ∷ counts) h = elim (Bool-cases (bytes_eq k key)) [
  | inl e ↦
      let apart : bytes_eq k other ≡ false = rw ((bytes_eq_iff k key).0 e) h in rw e (rw apart refl)
  | inr e ↦ rw e (ground (arith, find-erase_other key other counts h))
]

pub find-erase :
    (key : Bytes) (counts : Counts) → Distinct counts → find key (erase key counts) ≡ none
unfolding find erase
find-erase key [] d = refl
find-erase key ((k, n) ∷ counts) (d, ds) = elim (Bool-cases (bytes_eq k key)) [
  | inl e ↦ rw e (subst (λ z. find z counts ≡ none) ((bytes_eq_iff k key).0 e) d)
  | inr e ↦ rw e (ground (arith, find-erase key counts ds))
]

apart-sym : (k key : Bytes) → bytes_eq k key ≡ false → bytes_eq key k ≡ false
apart-sym k key e = ground (arith, bytes_eq_iff k key, bytes_eq_iff key k, bytes_eq_refl k)

pub insert-Distinct :
    (key : Bytes) (v : ℕ) (counts : Counts)
    → Distinct counts
    → Distinct (insert_or_assign key v counts)
unfolding insert_or_assign
insert-Distinct key v [] d = (unfold find in refl, tt)
insert-Distinct key v ((k, n) ∷ counts) (d, ds) = elim (Bool-cases (bytes_eq k key)) [
  | inl e ↦ rw e (d, ds)
  | inr e ↦
      rw e
        (find-insert_other key k v counts (apart-sym k key e) ∙ d, insert-Distinct key v counts ds)
]

pub erase-Distinct : (key : Bytes) (counts : Counts) → Distinct counts → Distinct (erase key counts)
unfolding erase
erase-Distinct key [] d = tt
erase-Distinct key ((k, n) ∷ counts) (d, ds) = elim (Bool-cases (bytes_eq k key)) [
  | inl e ↦ rw e ds
  | inr e ↦
      rw e (find-erase_other key k counts (apart-sym k key e) ∙ d, erase-Distinct key counts ds)
]
