-- ===== src/Encoder/Blocks.antt =====
-- The parts of a head as the fields that they write.
use erikslund_http_embedded.Prelude.{
  ◌≡◌, refl, sym, ap, ◌∙◌, inl, inr, false, List, [], ◌∷◌, ◌++◌, append_assoc, append-nil, arith,
  if◌then◌else◌, Bool-cases, if_false, Bytes, codes, All, All-append,
}
use erikslund_http_embedded.Encoder.{append_field, is_framing_field}
use erikslund_http_embedded.Response.Clean.{IsClean}
use erikslund_http_embedded.Request.Types.{HeaderView}
use erikslund_http_embedded.Request.Fields.{crlf}
use erikslund_http_embedded.Text.Ascii.{equals_ignore_case}

-- The lines of some fields.
unfoldable pub lines_of_fields : List HeaderView → Bytes
lines_of_fields [] = []
lines_of_fields (field ∷ fields) =
    field.name ++ (codes ": " ++ (field.value ++ (crlf ++ lines_of_fields fields)))

-- The values of the fields with a name, in any case.
unfoldable pub values_of : Bytes → List HeaderView → List Bytes
unfolding equals_ignore_case
values_of name [] = []
values_of name (field ∷ fields) =
    let rest = values_of name fields in
    if equals_ignore_case field.name name then field.value ∷ rest else rest

pub lines_of_fields-append :
    (xs ys : List HeaderView)
    → lines_of_fields (xs ++ ys) ≡ lines_of_fields xs ++ lines_of_fields ys
unfolding lines_of_fields
lines_of_fields-append [] ys = refl
lines_of_fields-append (field ∷ xs) ys =
    let name = field.name in
    let value = field.value in
    let rest = lines_of_fields xs in
    ap (λ z. name ++ (codes ": " ++ (value ++ (crlf ++ z)))) (lines_of_fields-append xs ys)
    ∙ sym (
        append_assoc name (codes ": " ++ (value ++ (crlf ++ rest))) (lines_of_fields ys)
        ∙ ap (λ z. name ++ (codes ": " ++ z))
            (append_assoc value (crlf ++ rest) (lines_of_fields ys)))

values_of-append :
    (name : Bytes) (xs ys : List HeaderView)
    → values_of name (xs ++ ys) ≡ values_of name xs ++ values_of name ys
unfolding values_of
values_of-append name [] ys = refl
values_of-append name (field ∷ xs) ys = elim (Bool-cases (equals_ignore_case field.name name)) [
  | inl e ↦ rw e (ap (λ z. field.value ∷ z) (values_of-append name xs ys))
  | inr e ↦ rw e (values_of-append name xs ys)
]

-- What is appended is the lines of clean fields, with these values of the fields that delimit a message.
pub record Emits (step : Bytes → Bytes) (sizes connections transfers : List Bytes) : Type 0 where
  pub fields : List HeaderView
  pub lines : (out : Bytes) → step out ≡ out ++ lines_of_fields fields
  pub clean : All IsClean fields
  pub sized : values_of (codes "Content-Length") fields ≡ sizes
  pub connected : values_of (codes "Connection") fields ≡ connections
  pub transferred : values_of (codes "Transfer-Encoding") fields ≡ transfers

pub Emits-nothing : Emits (λ out. out) [] [] []
unfolding lines_of_fields values_of
Emits-nothing = record {
  fields = [];
  lines = λ out. sym (append-nil out);
  clean = tt;
  sized = refl;
  connected = refl;
  transferred = refl;
}

pub Emits-then :
    {f g : Bytes → Bytes} {a b c a' b' c' : List Bytes}
    → Emits f a b c
    → Emits g a' b' c'
    → Emits (λ out. g (f out)) (a ++ a') (b ++ b') (c ++ c')
Emits-then {f} {g} {a} {b} {c} {a'} {b'} {c'} v w =
    let joins : (name : Bytes) (x x' : List Bytes)
        → values_of name v.fields ≡ x
        → values_of name w.fields ≡ x'
        → values_of name (v.fields ++ w.fields) ≡ x ++ x' =
      λ name x x' p q.
        values_of-append name v.fields w.fields
        ∙ (ap (λ z. z ++ values_of name w.fields) p ∙ ap (λ z. x ++ z) q) in
    record {
      fields = v.fields ++ w.fields;
      lines = λ out.
          w.lines (f out)
          ∙ (ap (λ z. z ++ lines_of_fields w.fields) (v.lines out)
              ∙ (append_assoc out (lines_of_fields v.fields) (lines_of_fields w.fields)
                  ∙ ap (λ z. out ++ z) (sym (lines_of_fields-append v.fields w.fields))));
      clean = All-append IsClean v.fields w.fields v.clean w.clean;
      sized = joins (codes "Content-Length") a a' v.sized w.sized;
      connected = joins (codes "Connection") b b' v.connected w.connected;
      transferred = joins (codes "Transfer-Encoding") c c' v.transferred w.transferred;
    }

-- One field.
abbrev pub one_field : Bytes → Bytes → HeaderView
one_field name value = record { name = name; value = value }

pub Emits-field :
    (name value : Bytes)
    → IsClean (one_field name value)
    → Emits
        (λ out. append_field out name value)
        (values_of (codes "Content-Length") (one_field name value ∷ []))
        (values_of (codes "Connection") (one_field name value ∷ []))
        (values_of (codes "Transfer-Encoding") (one_field name value ∷ []))
unfolding append_field lines_of_fields
Emits-field name value v = record {
  fields = one_field name value ∷ [];
  lines = λ out. ap (λ z. out ++ (name ++ (codes ": " ++ (value ++ z)))) (sym (append-nil crlf));
  clean = (v, tt);
  sized = refl;
  connected = refl;
  transferred = refl;
}

-- One field that delimits nothing.
pub Emits-other :
    (name value : Bytes)
    → IsClean (one_field name value)
    → is_framing_field name ≡ false
    → Emits (λ out. append_field out name value) [] [] []
unfolding is_framing_field values_of
Emits-other name value v e =
    let w = Emits-field name value v in
    record {
      fields = w.fields;
      lines = w.lines;
      clean = w.clean;
      sized =
          w.sized
          ∙ if_false {b = equals_ignore_case name (codes "Content-Length")} _ _ (ground arith);
      connected =
          w.connected
          ∙ if_false {b = equals_ignore_case name (codes "Connection")} _ _ (ground arith);
      transferred =
          w.transferred
          ∙ if_false {b = equals_ignore_case name (codes "Transfer-Encoding")} _ _ (ground arith);
    }

pub Emits-same :
    {f g : Bytes → Bytes} {a b c : List Bytes}
    → ((out : Bytes) → g out ≡ f out)
    → Emits f a b c
    → Emits g a b c
Emits-same e v = record {
  fields = v.fields;
  lines = λ out. e out ∙ v.lines out;
  clean = v.clean;
  sized = v.sized;
  connected = v.connected;
  transferred = v.transferred;
}
