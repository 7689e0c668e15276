-- ===== src/Auth/Hooks/Denied.antt =====
-- services/api-gateway/src/app.ts: the security events of requests that are refused.
use airport_inspection_platf.Prelude.{
  Bool, Bool-cases, List, Option, String, [], arith, false, if◌then◌else◌, inl, inr, is_some,
  length, length-append, not, refl, suc, true, ℕ, ◌&&◌, ◌+◌, ◌==◌, ◌||◌, ◌∙◌, ◌∷◌, ◌≡◌,
}
use airport_inspection_platf.Prelude.Slices.{after_prefix}
use airport_inspection_platf.Auth.Jwt.{Jose, JwtSigner}
use airport_inspection_platf.Auth.SecurityEvents.{
  SecurityEvent, SecurityEventPublisher, channel_for, emit,
}
use airport_inspection_platf.Auth.Hooks.{
  GatewayRequest, GatewayRoute, blocked_event, denied_event, on_exceeded, on_response, route_status,
  serve_gateway, verify_jwt_hook,
}
use airport_inspection_platf.Auth.{Auth}

pub record Arrival : Type 0 where
  pub exceeded : Bool
  pub route : GatewayRoute
  pub request : GatewayRequest

-- The events that were published, and those that Redis did not take.
abbrev pub accounted : SecurityEventPublisher → ℕ
accounted p = length p.published + p.failures

emit-accounted :
    (up : Bool) (event : SecurityEvent) (p : SecurityEventPublisher)
    → accounted (emit up event p) ≡ suc (accounted p)
unfolding emit
emit-accounted true event p =
    omega (arith, length-append p.published ((channel_for event.event_type, event) ∷ []))
emit-accounted false event p = omega arith

module _ (lower : String → String) (decimal : ℕ → String) (jose : Jose) (signer : JwtSigner) where
  abbrev serve : Arrival → SecurityEventPublisher → ℕ × SecurityEventPublisher
  serve a events = serve_gateway lower decimal jose signer a.exceeded a.route a.request events

  unfoldable pub serve_all : List Arrival → SecurityEventPublisher → SecurityEventPublisher
  serve_all [] events = events
  serve_all (a ∷ rest) events = serve_all rest (serve a events).1

  -- The status by which a request is refused.
  abbrev pub status_of : Arrival → ℕ
  status_of a =
      if a.exceeded
      then 429
      else route_status a.route (verify_jwt_hook jose signer a.request.now a.request.authorization)

  abbrev is_auth_route : Arrival → Bool
  is_auth_route a = is_some (after_prefix "/api/v1/auth/" a.request.url)

  -- A request over the limit, or one that is refused with 401 or 403 outside the routes of auth.
  abbrev pub is_refused : Arrival → Bool
  is_refused a =
      a.exceeded || (((status_of a == 401) || (status_of a == 403)) && not (is_auth_route a))

  unfoldable pub refusals : List Arrival → ℕ
  refusals [] = 0
  refusals (a ∷ rest) = let more = refusals rest in if is_refused a then suc more else more

  on_response-accounted :
      (req : GatewayRequest) (auth : Option Auth) (status : ℕ) (events : SecurityEventPublisher)
      → accounted (on_response lower decimal req auth status events) ≡ (
          if ((status == 401) || (status == 403))
            && not (is_some (after_prefix "/api/v1/auth/" req.url))
          then suc (accounted events)
          else accounted events)
  unfolding on_response
  on_response-accounted req auth status events = elim (Bool-cases (status == 401)) [
    | inl e ↦ elim (Bool-cases (is_some (after_prefix "/api/v1/auth/" req.url))) [
      | inl k ↦ rw (e, k) refl
      | inr k ↦
          rw (e, k) (emit-accounted req.up (denied_event lower decimal req auth status) events)
    ]
    | inr e ↦ elim (Bool-cases (status == 403)) [
      | inl f ↦ elim (Bool-cases (is_some (after_prefix "/api/v1/auth/" req.url))) [
        | inl k ↦ rw (e, f, k) refl
        | inr k ↦
            rw (e, f, k) (emit-accounted req.up (denied_event lower decimal req auth status) events)
      ]
      | inr f ↦ rw (e, f) refl
    ]
  ]

  exceeded-accounted :
      (req : GatewayRequest) (auth : Option Auth) (events : SecurityEventPublisher)
      → accounted (on_exceeded lower decimal req auth events) ≡ suc (accounted events)
  unfolding on_exceeded
  exceeded-accounted req auth events =
      emit-accounted req.up (blocked_event lower decimal req auth) events

  serve-accounted :
      (a : Arrival) (events : SecurityEventPublisher)
      → accounted (serve a events).1
        ≡ (if is_refused a then suc (accounted events) else accounted events)
  unfolding serve_gateway
  serve-accounted a events =
      let auth = verify_jwt_hook jose signer a.request.now a.request.authorization in
      elim (Bool-cases a.exceeded) [
        | inl e ↦ rw e (
            on_response-accounted a.request auth 429
              (on_exceeded lower decimal a.request auth events)
            ∙ exceeded-accounted a.request auth events)
        | inr e ↦ rw e (on_response-accounted a.request auth (route_status a.route auth) events)
      ]

  -- Over any requests, as many events are published or counted as failed as there were requests over the limit and requests answered by 401 or 403 whose URL is not under /api/v1/auth/: the hooks miss no such refusal, count none twice and report nothing else.
  pub serve_all-accounted :
      (arrivals : List Arrival) (events : SecurityEventPublisher)
      → accounted (serve_all arrivals events) ≡ accounted events + refusals arrivals
  unfolding serve_all refusals
  serve_all-accounted [] events = omega arith
  serve_all-accounted (a ∷ rest) events =
      ground (arith, serve-accounted a events, serve_all-accounted rest (serve a events).1)
