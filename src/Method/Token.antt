-- ===== src/Method/Token.antt =====
-- A token names a method exactly when it is that method's name.
use erikslund_http_embedded.Prelude.{
  ◌≡◌, refl, ◌↔◌, ◌⊎◌, inl, inr, some, arith, Bytes, codes, bytes_eq, bytes_eq_iff,
}
use erikslund_http_embedded.Method.{Method, first_named, method_name, method_from_token}
use erikslund_http_embedded.Method

abbrev pub IsEnumerator : Method → Type 0
IsEnumerator m =
    (m ≡ Method.get)
    ⊎ (m ≡ Method.head)
    ⊎ (m ≡ Method.post)
    ⊎ (m ≡ Method.put)
    ⊎ (m ≡ Method.patch)
    ⊎ (m ≡ Method.delete)
    ⊎ (m ≡ Method.options)

module _ (token : Bytes) {m : Method} where
  method_from_token_sound :
      method_from_token token ≡ some m → IsEnumerator m × (method_name m ≡ token)
  unfolding method_from_token first_named method_name
  method_from_token_sound h = ground (
    arith,
    (bytes_eq_iff (codes "GET") token).0,
    (bytes_eq_iff (codes "HEAD") token).0,
    (bytes_eq_iff (codes "POST") token).0,
    (bytes_eq_iff (codes "PUT") token).0,
    (bytes_eq_iff (codes "PATCH") token).0,
    (bytes_eq_iff (codes "DELETE") token).0,
    (bytes_eq_iff (codes "OPTIONS") token).0,
  )

  method_from_token_complete :
      IsEnumerator m → method_name m ≡ token → method_from_token token ≡ some m
  unfolding method_from_token bytes_eq
  method_from_token_complete (inl e) h = rw (← h, e) refl
  method_from_token_complete (inr (inl e)) h = rw (← h, e) refl
  method_from_token_complete (inr (inr (inl e))) h = rw (← h, e) refl
  method_from_token_complete (inr (inr (inr (inl e)))) h = rw (← h, e) refl
  method_from_token_complete (inr (inr (inr (inr (inl e))))) h = rw (← h, e) refl
  method_from_token_complete (inr (inr (inr (inr (inr (inl e)))))) h = rw (← h, e) refl
  method_from_token_complete (inr (inr (inr (inr (inr (inr e)))))) h = rw (← h, e) refl

-- A token stands for a method exactly when it is, byte for byte, the name of one of the seven.
pub method_from_token_iff :
    (token : Bytes) (m : Method)
    → (method_from_token token ≡ some m) ↔ (IsEnumerator m × (method_name m ≡ token))
method_from_token_iff token m =
    (method_from_token_sound token, λ h. method_from_token_complete token h.0 h.1)
