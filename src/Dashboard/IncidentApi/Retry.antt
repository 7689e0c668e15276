-- ===== src/Dashboard/IncidentApi/Retry.antt =====
-- apps/web/utils/incident-api.ts: what a 401 sets off, and the session store behind it.
use airport_inspection_platf.Prelude.{
  Bool, Bool-cases, List, Option, Option-cases, Result, String, [], ap, arith, err, false, inl, inr,
  none, ok, refl, some, str_eq, subst, sym, truthy, truthy-some, ℕ, ◌++◌, ◌==◌, ◌∙◌, ◌∷◌, ◌≡◌, ◌≢◌,
}
use airport_inspection_platf.Prelude.Json.{Json}
use airport_inspection_platf.Dashboard.AuthStore.Mirror.{read-write_none}
use airport_inspection_platf.Dashboard.IncidentApi.{
  IncidentApiOptions, Method, Reply, Request, SendError, Wired, after_first, failed, finish,
  refresh, request_of, response, retry, send, wired_options,
}
use airport_inspection_platf.Dashboard.AuthStore.{
  RefreshResponse, Session, is_authenticated, logout, read_stored, refresh_begin, refresh_settle,
  write_stored,
}

-- A client that also keeps the requests it has sent, the oldest first.
unfoldable pub recorded :
    {W : Type 0} → IncidentApiOptions W → IncidentApiOptions (W × List Request)
recorded opts = record {
  fetch_fn = λ req s. let (reply, w) = opts.fetch_fn req s.0 in (reply, (w, s.1 ++ (req ∷ [])));
  base_url = opts.base_url;
  token_provider = λ s. opts.token_provider s.0;
  on_unauthorized = elim opts.on_unauthorized [
    | none ↦ none
    | some f ↦ some (λ s. let (fresh, w) = f s.0 in (fresh, (w, s.1)))
  ];
}

module _ (type_error : String) (decimal : ℕ → String) where
  module _ {W : Type 0} (opts : IncidentApiOptions W) (path : String) (method : Method)
      (body : Option Json) where
    abbrev request : Option String → Request
    request = request_of opts.base_url path method body

    -- The requests of one call: one alone, or after a 401 a second with the token that the renewal gave.
    pub data Sent (w : W) (log : List Request) : Type 0 where
      once : log ≡ request (opts.token_provider w) ∷ [] → Sent w log
      twice :
          (json : Result String Json) (f : W → Option String × W) (token : String)
          → opts.on_unauthorized ≡ some f
          → (opts.fetch_fn (request (opts.token_provider w)) w).0 ≡ response 401 json
          → (f (opts.fetch_fn (request (opts.token_provider w)) w).1).0 ≡ some token
          → token ≢ ""
          → log ≡ request (opts.token_provider w) ∷ request (some token) ∷ []
          → Sent w log

    abbrev logged : W → Reply → List Request
    logged w res =
        let (_, w') = opts.fetch_fn (request (opts.token_provider w)) w in
        (after_first type_error decimal (recorded opts) path method body res
          (w', request (opts.token_provider w) ∷ [])).1.1

    renewed-Sent :
        (w : W) (json : Result String Json) (f : W → Option String × W)
        → (opts.fetch_fn (request (opts.token_provider w)) w).0 ≡ response 401 json
        → opts.on_unauthorized ≡ some f
        → Sent w (logged w (response 401 json))
    unfolding after_first recorded retry
    renewed-Sent w json f e u =
        let w' = (opts.fetch_fn (request (opts.token_provider w)) w).1 in
        elim (Option-cases (truthy (f w').0)) [
          | inl n ↦ once (rw (u) (rw n refl))
          | inr (token, t) ↦
              let (given, nonempty) = truthy-some _ t in
              twice json f token u e given nonempty (rw (u) (rw t refl))
        ]

    -- A call sends one request, or two: a second only where the first came back with 401 and the renewal gave a token that is not empty, which the second then carries. It never sends a third.
    pub send-Sent :
        (w : W) → Sent w (send type_error decimal (recorded opts) path method body (w, [])).1.1
    unfolding send recorded after_first
    send-Sent w = of_reply (opts.fetch_fn (request (opts.token_provider w)) w).0 refl
      where
        of_reply :
            (res : Reply)
            → (opts.fetch_fn (request (opts.token_provider w)) w).0 ≡ res
            → Sent w (logged w res)
        of_reply (failed message) e = once refl
        of_reply (response status json) e = elim (Bool-cases (status == 401)) [
          | inl same ↦ elim (Option-cases opts.on_unauthorized) [
            | inl n ↦ once (ground arith)
            | inr (f, u) ↦
                let is_401 : status ≡ 401 = ground arith in
                subst (λ x. Sent w (logged w (response x json))) (sym is_401)
                  (renewed-Sent w json f (e ∙ ap (λ x. response x json) is_401) u)
          ]
          | inr other ↦ once (ground arith)
        ]

-- The client of the page, over its session store.
module _ {T S : Type 0} (type_error : String) (decimal : ℕ → String) (stringify : Json → T)
    (parse : T → Option Json) (is_empty : T → Bool) (fetch : Request → S → Reply × S)
    (post_refresh : String → S → Result String RefreshResponse × S) (base_url : String) where
  abbrev pub call : String → Method → Option Json → Wired T S → Result SendError Json × Wired T S
  call = send type_error decimal (wired_options stringify fetch post_refresh base_url)

  refresh_lem :
      (session : Session T) {servers servers' : S} {refresh_token : String}
      {outcome : Result String RefreshResponse}
      → truthy session.auth.refresh_token ≡ some refresh_token
      → post_refresh refresh_token servers ≡ (outcome, servers')
      → refresh stringify fetch post_refresh (record { session = session; servers = servers })
        ≡ let (fresh, session') = refresh_settle stringify outcome session in
          (fresh, record { session = session'; servers = servers' })
  unfolding refresh refresh_begin
  refresh_lem session has e = rw (has, refresh) (rw e refl)

  -- Where the first request comes back with 401 and the refresh with a new token, the request goes out again with that token, the call ends as the second reply says, and the store holds the new token.
  call_renewed :
      (path : String) (method : Method) (body : Option Json) (session : Session T)
      {servers servers₁ servers₂ servers₃ : S} {json : Result String Json} {reply : Reply}
      {refresh_token : String} {res : RefreshResponse}
      → truthy session.auth.refresh_token ≡ some refresh_token
      → str_eq res.access_token "" ≡ false
      → fetch (request_of base_url path method body session.auth.access_token) servers
        ≡ (response 401 json, servers₁)
      → post_refresh refresh_token servers₁ ≡ (ok res, servers₂)
      → fetch (request_of base_url path method body (some res.access_token)) servers₂
        ≡ (reply, servers₃)
      → let (outcome, w) =
          call path method body (record { session = session; servers = servers }) in
        (outcome ≡ finish type_error decimal reply)
        × (w.session.auth.access_token ≡ some res.access_token)
        × (w.servers ≡ servers₃)
  unfolding send after_first retry wired_options refresh_settle
  call_renewed path method body session has fresh e₁ e₂ e₃ =
      rw e₁ (rw (refresh_lem session has e₂) (rw fresh (rw e₃ (refl, refl, refl))))

  -- Where the first request comes back with 401 and the refresh is refused, nothing is sent again: the call throws the error of the 401, nobody is signed in any more, and a reload of the page finds nobody.
  pub call_signed_out :
      (path : String) (method : Method) (body : Option Json) (session : Session T)
      {servers servers₁ servers₂ : S} {json : Result String Json} {refresh_token message : String}
      → truthy session.auth.refresh_token ≡ some refresh_token
      → fetch (request_of base_url path method body session.auth.access_token) servers
        ≡ (response 401 json, servers₁)
      → post_refresh refresh_token servers₁ ≡ (err message, servers₂)
      → let (outcome, w) =
          call path method body (record { session = session; servers = servers }) in
        (outcome ≡ finish type_error decimal (response 401 json))
        × (w.servers ≡ servers₂)
        × (is_authenticated w.session.auth ≡ false)
        × (read_stored parse is_empty w.session.storage ≡ none)
  unfolding send after_first retry wired_options refresh_settle logout is_authenticated write_stored
      read_stored
  call_signed_out path method body session has e₁ e₂ = rw e₁ (
      rw (refresh_lem session has e₂)
        (refl, refl, refl, read-write_none stringify parse is_empty session.storage))
