-- ===== src/Router/Order.antt =====
-- What the tables of a router hold of its registered routes, in their order.
use erikslund_http_embedded.Router.Table.{
  indices_of, Handler, Route, Router, routes_at, add_index, route, use_middleware, set_fallback,
  mount,
}
use erikslund_http_embedded.Prelude.{
  ◌≡◌, refl, ◌⊎◌, inl, inr, Bool, true, false, List, arith, Bool-cases, Bytes, length, ◌+◌, sym, ap,
  ap₂, subst, ◌∙◌, [], ◌∷◌, ◌++◌, append-nil, if◌then◌else◌, if_true, if_false, bytes_eq,
  length-append, ok, Option, Option-cases,
}
use erikslund_http_embedded.Router.Indices.{
  Below, under, Below-last, Below-more, kept-append, routes_at-append, routes_at-last,
  routes_at-more, under-add_index,
}
use erikslund_http_embedded.Method.{Method}
use erikslund_http_embedded.Router.Registration.{
  is_exact_for, is_variable, registered, kept, unregistered, routed, mounted, used, fell_back,
  Registers,
}
use erikslund_http_embedded.Router.Kinds.{is_dynamic_pattern, registered-is_variable}

-- The tables of a router for the routes that were registered.
pub record IsTableOf {R Asset : Type 0} (rs : List (Route R)) (r : Router R Asset) : Type 0 where
  pub same : r.routes ≡ rs
  pub exact : (path : Bytes) → routes_at rs (under path r.exact_index) ≡ kept (is_exact_for path) rs
  pub dynamic : routes_at rs r.dynamic_routes ≡ kept is_variable rs
  pub exact_below : (path : Bytes) → Below (length rs) (under path r.exact_index)
  pub dynamic_below : Below (length rs) r.dynamic_routes

route_cases :
    {R Asset : Type 0} (r r' : Router R Asset) (methods : Method) (pattern : Bytes)
    (handler : Handler R)
    → route r methods pattern handler ≡ ok r'
    → ((is_dynamic_pattern pattern ≡ true)
        × (record r {
          routes = r.routes ++ (registered methods pattern handler ∷ []);
          dynamic_routes = r.dynamic_routes ++ (length r.routes ∷ []);
        }
            ≡ r'))
      ⊎ ((is_dynamic_pattern pattern ≡ false)
          × (record r {
            routes = r.routes ++ (registered methods pattern handler ∷ []);
            exact_index = add_index pattern (length r.routes) r.exact_index;
          }
              ≡ r'))
unfolding route
route_cases r r' methods pattern handler h = elim (Bool-cases (is_dynamic_pattern pattern)) [
  | inl e ↦ inl (e, ground arith)
  | inr e ↦ inr (e, ground arith)
]

module _ {R Asset : Type 0} (r : Router R Asset) (added : Route R) where
  kept_more :
      (test : Route R → Bool) (rs : List (Route R))
      → kept test (rs ++ (added ∷ [])) ≡ kept test rs ++ (if test added then added ∷ [] else [])
  unfolding kept
  kept_more test rs = kept-append test rs (added ∷ [])

  dynamic-IsTableOf :
      is_variable added ≡ true
      → IsTableOf r.routes r
      → IsTableOf (r.routes ++ (added ∷ [])) (record r {
        routes = r.routes ++ (added ∷ []);
        dynamic_routes = r.dynamic_routes ++ (length r.routes ∷ []);
      })
  dynamic-IsTableOf e v = record {
    same = refl;
    exact = λ path.
        routes_at-more r.routes (added ∷ []) (under path r.exact_index) (v.exact_below path)
        ∙ (v.exact path
            ∙ sym (
                kept_more (is_exact_for path) r.routes
                ∙ (ap (λ l. kept (is_exact_for path) r.routes ++ l)
                      (if_false {b = is_exact_for path added} _ _ (ground (arith, e)))
                    ∙ append-nil (kept (is_exact_for path) r.routes))));
    dynamic =
        routes_at-append (r.routes ++ (added ∷ [])) r.dynamic_routes (length r.routes ∷ [])
        ∙ (ap₂ (λ xs ys. xs ++ ys)
              (routes_at-more r.routes (added ∷ []) r.dynamic_routes v.dynamic_below ∙ v.dynamic)
              (routes_at-last r.routes added)
            ∙ sym (
                kept_more is_variable r.routes
                ∙ ap (λ l. kept is_variable r.routes ++ l) (if_true _ _ e)));
    exact_below = λ path.
        subst (λ n. Below n (under path r.exact_index)) (sym (length-append r.routes (added ∷ [])))
          (Below-more (length r.routes) (under path r.exact_index) (v.exact_below path));
    dynamic_below =
        subst (λ n. Below n (r.dynamic_routes ++ (length r.routes ∷ [])))
          (sym (length-append r.routes (added ∷ [])))
          (Below-last (length r.routes) r.dynamic_routes v.dynamic_below);
  }

  -- The indices of one path, when the new route is exact.
  exact_at :
      (path : Bytes)
      → is_variable added ≡ false
      → IsTableOf r.routes r
      → (routes_at
            (r.routes ++ (added ∷ []))
            (under path (add_index added.pattern (length r.routes) r.exact_index))
          ≡ kept (is_exact_for path) (r.routes ++ (added ∷ [])))
        × Below
            (length r.routes + 1)
            (under path (add_index added.pattern (length r.routes) r.exact_index))
  exact_at path e v =
      let old = under path r.exact_index in
      let moved = under-add_index added.pattern path (length r.routes) r.exact_index in
      let front = routes_at-more r.routes (added ∷ []) old (v.exact_below path) ∙ v.exact path in
      elim (Bool-cases (bytes_eq added.pattern path)) [
        | inl f ↦
            let now = moved ∙ if_true _ _ f in
            (
              ap (routes_at (r.routes ++ (added ∷ []))) now
                  ∙ (routes_at-append (r.routes ++ (added ∷ [])) old (length r.routes ∷ [])
                      ∙ (ap₂ (λ xs ys. xs ++ ys) front (routes_at-last r.routes added)
                          ∙ sym (
                              kept_more (is_exact_for path) r.routes
                              ∙ ap (λ l. kept (is_exact_for path) r.routes ++ l)
                                  (if_true {b = is_exact_for path added} _ _
                                    (ground (arith, e, f)))))),
              subst (Below (length r.routes + 1)) (sym now)
                  (Below-last (length r.routes) old (v.exact_below path)),
            )
        | inr f ↦
            let now = moved ∙ if_false _ _ f in
            (
              ap (routes_at (r.routes ++ (added ∷ []))) now
                  ∙ (front
                      ∙ sym (
                          kept_more (is_exact_for path) r.routes
                          ∙ (ap (λ l. kept (is_exact_for path) r.routes ++ l)
                                (if_false {b = is_exact_for path added} _ _ (ground (arith, f)))
                              ∙ append-nil (kept (is_exact_for path) r.routes)))),
              subst (Below (length r.routes + 1)) (sym now)
                  (Below-more (length r.routes) old (v.exact_below path)),
            )
      ]

  exact-IsTableOf :
      is_variable added ≡ false
      → IsTableOf r.routes r
      → IsTableOf (r.routes ++ (added ∷ [])) (record r {
        routes = r.routes ++ (added ∷ []);
        exact_index = add_index added.pattern (length r.routes) r.exact_index;
      })
  exact-IsTableOf e v =
      let size = sym (length-append r.routes (added ∷ [])) in
      record {
        same = refl;
        exact = λ path. (exact_at path e v).0;
        dynamic =
            routes_at-more r.routes (added ∷ []) r.dynamic_routes v.dynamic_below
            ∙ (v.dynamic
                ∙ sym (
                    kept_more is_variable r.routes
                    ∙ (ap (λ l. kept is_variable r.routes ++ l) (if_false _ _ e)
                        ∙ append-nil (kept is_variable r.routes))));
        exact_below = λ path.
            subst
              (λ n. Below n (under path (add_index added.pattern (length r.routes) r.exact_index)))
              size (exact_at path e v).1;
        dynamic_below =
            subst (λ n. Below n r.dynamic_routes) size
              (Below-more (length r.routes) r.dynamic_routes v.dynamic_below);
      }

mount_routes :
    {R Asset : Type 0} (r r' : Router R Asset) (prefix : Bytes) (bundle : Bytes → Option Asset)
    → mount r prefix bundle ≡ ok r'
    → (r.routes ≡ r'.routes)
      × (r.exact_index ≡ r'.exact_index)
      × (r.dynamic_routes ≡ r'.dynamic_routes)
unfolding mount
mount_routes r r' prefix bundle h = (ground arith, ground arith, ground arith)

fallback_routes :
    {R Asset : Type 0} (r r' : Router R Asset) (handler : Handler R)
    → set_fallback r handler ≡ ok r'
    → (r.routes ≡ r'.routes)
      × (r.exact_index ≡ r'.exact_index)
      × (r.dynamic_routes ≡ r'.dynamic_routes)
fallback_routes r r' handler h = elim (Option-cases r.fallback) [
  | inl e ↦ (ground (arith, e), ground (arith, e), ground (arith, e))
  | inr (f, e) ↦ absurd (ground (arith, e))
]

-- What the tables say is a matter of the routes and the indices alone.
IsTableOf-same :
    {R Asset : Type 0} (rs : List (Route R)) (r r' : Router R Asset)
    → (r.routes ≡ r'.routes)
      × (r.exact_index ≡ r'.exact_index)
      × (r.dynamic_routes ≡ r'.dynamic_routes)
    → IsTableOf rs r
    → IsTableOf rs r'
IsTableOf-same rs r r' (a, b, c) v = record {
  same = sym a ∙ v.same;
  exact = λ path.
      subst (λ i. routes_at rs (under path i) ≡ kept (is_exact_for path) rs) b (v.exact path);
  dynamic = subst (λ d. routes_at rs d ≡ kept is_variable rs) c v.dynamic;
  exact_below = λ path. subst (λ i. Below (length rs) (under path i)) b (v.exact_below path);
  dynamic_below = subst (Below (length rs)) c v.dynamic_below;
}

route-IsTableOf :
    {R Asset : Type 0} (rs : List (Route R)) (r r' : Router R Asset) (methods : Method)
    (pattern : Bytes) (handler : Handler R)
    → route r methods pattern handler ≡ ok r'
    → r.routes ≡ rs
    → IsTableOf r.routes r
    → IsTableOf (rs ++ (registered methods pattern handler ∷ [])) r'
route-IsTableOf rs r r' methods pattern handler h same v =
    let added = registered methods pattern handler in
    let kind = registered-is_variable methods pattern handler in
    subst (λ z. IsTableOf (z ++ (added ∷ [])) r') same
      (elim (route_cases r r' methods pattern handler h) [
        | inl (d, e) ↦
            subst (IsTableOf (r.routes ++ (added ∷ []))) e (dynamic-IsTableOf r added (kind ∙ d) v)
        | inr (d, e) ↦
            subst (IsTableOf (r.routes ++ (added ∷ []))) e (exact-IsTableOf r added (kind ∙ d) v)
      ])

-- Registration keeps the tables.
pub Registers-IsTableOf :
    {R Asset : Type 0} (rs : List (Route R)) (r : Router R Asset)
    → Registers R Asset rs r
    → IsTableOf rs r
unfolding indices_of
Registers-IsTableOf _ _ unregistered = record {
  same = refl;
  exact = λ path. unfold routes_at kept in refl;
  dynamic = unfold routes_at kept in refl;
  exact_below = λ path. tt;
  dynamic_below = tt;
}
Registers-IsTableOf _ _ (routed rs r r' methods pattern handler v h) =
    let w = Registers-IsTableOf rs r v in
    route-IsTableOf rs r r' methods pattern handler h w.same
      (subst (λ z. IsTableOf z r) (sym w.same) w)
Registers-IsTableOf _ _ (mounted rs r r' prefix bundle v h) =
    IsTableOf-same rs r r' (mount_routes r r' prefix bundle h) (Registers-IsTableOf rs r v)
Registers-IsTableOf _ _ (used rs r added v) =
    IsTableOf-same rs r (use_middleware r added) (refl, refl, refl) (Registers-IsTableOf rs r v)
Registers-IsTableOf _ _ (fell_back rs r r' handler v h) =
    IsTableOf-same rs r r' (fallback_routes r r' handler h) (Registers-IsTableOf rs r v)
