-- ===== src/Server/Session/Origins.antt =====
-- `CheckOrigin` of the WebSocket server.
use evm_rpc.Prelude.{
  ◌≡◌, ◌≢◌, refl, length, ◌⊎◌, ◌↔◌, inl, inr, true, Text, text, text_eq, text_eq_iff, List, [], ◌∷◌,
  arith, Bool-cases,
}
use evm_rpc.Server.Subscription.Filter.{In}
use evm_rpc.Server.Session.{check_origin}
use evm_rpc.Middleware.Cors.{new_cors}

-- An origin may connect exactly if it is listed, or `*` is; with an empty list none may.
pub check_origin_iff :
    (allowed : List Text) (origin : Text)
    → (check_origin allowed origin ≡ true) ↔ (In (text "*") allowed ⊎ In origin allowed)
unfolding check_origin
check_origin_iff [] origin = (λ h. cc, λ h. elim h [ inl m ↦ elim m [ ] | inr m ↦ elim m [ ] ])
check_origin_iff (a ∷ rest) origin = (
  λ h. elim (Bool-cases (text_eq a (text "*"))) [
    | inl e ↦ ground (arith, text_eq_iff a (text "*"))
    | inr e ↦ elim (Bool-cases (text_eq a origin)) [
      | inl e' ↦ ground (arith, text_eq_iff a origin)
      | inr e' ↦ elim ((check_origin_iff rest origin).0 (ground arith)) [
        | inl m ↦ inl (inr m)
        | inr m ↦ inr (inr m)
      ]
    ]
  ],
  λ h.
      ground
        (arith, text_eq_iff a (text "*"), text_eq_iff a origin, (check_origin_iff rest origin).1),
)

-- The two servers of one configuration: with origins listed, a client may open a WebSocket from an
-- origin exactly if CORS lists it, or `*`; without any, from no origin, where CORS lists `*`.
pub new_cors-check_origin :
    (allowed : List Text) (origin : Text)
    → ((check_origin allowed origin ≡ true) ↔ (
        (length allowed ≢ 0)
        × (In (text "*") (new_cors allowed).allowed_origins
            ⊎ In origin (new_cors allowed).allowed_origins)))
      × (length allowed ≡ 0 → In (text "*") (new_cors allowed).allowed_origins)
unfolding new_cors
new_cors-check_origin [] origin = (
  (
    λ h. absurd (elim ((check_origin_iff [] origin).0 h) [ inl m ↦ m | inr m ↦ m ]),
    λ h. absurd (h.0 refl),
  ),
  λ h. inl refl,
)
new_cors-check_origin (a ∷ rest) origin = (
  (
    λ h. (λ q. omega (arith, q), (check_origin_iff (a ∷ rest) origin).0 h),
    λ h. (check_origin_iff (a ∷ rest) origin).1 h.1,
  ),
  λ h. absurd (omega (arith, h)),
)
