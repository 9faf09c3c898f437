-- ===== src/Request/Path.antt =====
-- `path_is_canonical` of src/request.cpp, and the paths that it accepts.
use erikslund_http_embedded.Prelude.{
  ℕ, zero, suc, ◌+◌, ◌<◌, ◌≡◌, refl, ◌≢◌, ◌↔◌, ◌⊎◌, inl, inr, Bool, true, false, not, ◌||◌, none,
  some, List, [], ◌∷◌, arith, ◌==◌, if◌then◌else◌, Bytes, codes, is_empty, bytes_eq, contains_byte,
  cut, Lacks, split, cut_cases, length, bytes_eq_iff, contains_byte-Lacks, subst,
}

-- The test on one segment of the loop.
unfoldable pub segment_is_refused : Bytes → Bool
segment_is_refused segment =
    is_empty segment
    || bytes_eq segment (codes ".")
    || bytes_eq segment (codes "..")
    || contains_byte segment b'%'

-- The loop over `rest`; each round takes at least a separator off, so the fuel below is enough.
unfoldable pub segments_are_canonical : ℕ → Bytes → Bool
segments_are_canonical zero rest = false
segments_are_canonical (suc fuel) rest = elim (is_empty rest) [
  | true ↦ true
  | false ↦
      let (segment, more) = cut b'/' rest in
      elim (segment_is_refused segment) [
        | true ↦ false
        | false ↦ elim more [ none ↦ true | some next ↦ segments_are_canonical fuel next ]
      ]
]

unfoldable pub path_is_canonical : Bytes → Bool
unfolding segments_are_canonical
path_is_canonical [] = false
path_is_canonical (c ∷ rest) =
    if not (c == b'/') || contains_byte (c ∷ rest) b'\\'
    then false
    else segments_are_canonical (length rest + 1) rest

-- A segment that names a child: not empty, not "." or "..", and with nothing left to decode.
pub record IsPlainSegment (s : Bytes) : Type 0 where
  pub not_empty : s ≢ []
  pub not_current : s ≢ codes "."
  pub not_parent : s ≢ codes ".."
  pub no_percent : Lacks b'%' s

-- All segments are plain, but that a trailing "/" leaves an empty last one.
abbrev pub ArePlain : List Bytes → Type 0
ArePlain [] = Unit
ArePlain (s ∷ []) = (s ≡ []) ⊎ IsPlainSegment s
ArePlain (s ∷ t ∷ more) = IsPlainSegment s × ArePlain (t ∷ more)

abbrev pub IsCanonical : Bytes → Type 0
IsCanonical path =
    (rest : Bytes) × (path ≡ b'/' ∷ rest) × Lacks b'\\' path × ArePlain (split b'/' rest)

segment_is_refused-IsPlainSegment : (s : Bytes) → (segment_is_refused s ≡ false) ↔ IsPlainSegment s
unfolding segment_is_refused
segment_is_refused-IsPlainSegment s = (there, back)
  where
    dot : (bytes_eq s (codes ".") ≡ true) ↔ (s ≡ codes ".")
    dot = bytes_eq_iff s (codes ".")

    dots : (bytes_eq s (codes "..") ≡ true) ↔ (s ≡ codes "..")
    dots = bytes_eq_iff s (codes "..")

    percent : (contains_byte s b'%' ≡ false) ↔ Lacks b'%' s
    percent = contains_byte-Lacks s b'%'

    there : segment_is_refused s ≡ false → IsPlainSegment s
    there h = record {
      not_empty = ground arith;
      not_current = λ e. ground (arith, dot.1 e);
      not_parent = λ e. ground (arith, dots.1 e);
      no_percent = percent.0 (ground arith);
    }

    back : IsPlainSegment s → segment_is_refused s ≡ false
    back v =
        ground
          (arith, dot.0, dots.0, percent.1 v.no_percent, v.not_empty, v.not_current, v.not_parent)

ArePlain-cons :
    (p r : Bytes) → ArePlain (p ∷ split b'/' r) ↔ (IsPlainSegment p × ArePlain (split b'/' r))
ArePlain-cons p r = elim (cut_cases b'/' r) [
  | inl (_, e, _) ↦ rw e (λ h. h, λ h. h)
  | inr (q, t, _, e, _, _, _) ↦ rw e (λ h. h, λ h. h)
]

segments-ArePlain :
    (fuel : ℕ) (rest : Bytes)
    → length rest < fuel
    → (segments_are_canonical fuel rest ≡ true) ↔ ArePlain (split b'/' rest)
unfolding segments_are_canonical
segments-ArePlain zero rest h = absurd (omega arith)
segments-ArePlain (suc fuel) [] h = (λ _. unfold split in inl refl, λ _. refl)
segments-ArePlain (suc fuel) (c ∷ rest) h = elim (cut_cases b'/' (c ∷ rest)) [
  | inl (e, f, _) ↦
      let plain = segment_is_refused-IsPlainSegment (c ∷ rest) in
      rw f (λ h. inr (plain.0 (ground arith)), λ v. ground (arith, last plain v))
  | inr (p, r, e, f, _, _, l) ↦
      let plain = segment_is_refused-IsPlainSegment p in
      let ih = segments-ArePlain fuel r (omega arith) in
      rw f (
        λ h. (ArePlain-cons p r).1 (plain.0 (ground arith), ih.0 (ground arith)),
        λ v. let w = (ArePlain-cons p r).0 v in ground (arith, plain.1 w.0, ih.1 w.1),
      )
]
  where
    last :
        (segment_is_refused (c ∷ rest) ≡ false) ↔ IsPlainSegment (c ∷ rest)
        → (◌≡◌ {A = Bytes} (c ∷ rest) []) ⊎ IsPlainSegment (c ∷ rest)
        → segment_is_refused (c ∷ rest) ≡ false
    last plain (inl e) = cc
    last plain (inr v) = plain.1 v

-- A path is accepted exactly when it starts with "/", has no backslash, and no segment of it is "."
-- or "..", has a percent sign or is empty, but that a last one may be empty.
pub path_is_canonical-IsCanonical :
    (path : Bytes) → (path_is_canonical path ≡ true) ↔ IsCanonical path
unfolding path_is_canonical
path_is_canonical-IsCanonical [] = (λ h. cc, λ v. cc (v.1))
path_is_canonical-IsCanonical (c ∷ rest) = (there, back)
  where
    loop : (segments_are_canonical (length rest + 1) rest ≡ true) ↔ ArePlain (split b'/' rest)
    loop = segments-ArePlain (length rest + 1) rest (omega arith)

    slash : (contains_byte (c ∷ rest) b'\\' ≡ false) ↔ Lacks b'\\' (c ∷ rest)
    slash = contains_byte-Lacks (c ∷ rest) b'\\'

    there : path_is_canonical (c ∷ rest) ≡ true → IsCanonical (c ∷ rest)
    there h = (rest, ground arith, slash.0 (ground arith), loop.0 (ground arith))

    back : IsCanonical (c ∷ rest) → path_is_canonical (c ∷ rest) ≡ true
    back (r, e, free, plain) =
        let same : r ≡ rest = cc in
        ground (arith, slash.1 free, loop.1 (subst (λ t. ArePlain (split b'/' t)) same plain))
