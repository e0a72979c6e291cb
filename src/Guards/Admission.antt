-- ===== src/Guards/Admission.antt =====
-- What lets a request or a socket in.
use nestjs_learn.Prelude.{
  ◌≡◌, refl, ◌↔◌, ap, sym, ◌∙◌, subst, true, false, Option, none, some, List, ◌∷◌, String, any,
  ◌==◌, eq_iff, arith, Option-cases, inl, inr,
}
use nestjs_learn.Text.{trim, is_empty}
use nestjs_learn.World.{Result, ok, err}
use nestjs_learn.World.Laws.{outcome_cases}
use nestjs_learn.Auth.{TokenPayload, SessionUser}
use nestjs_learn.Guards.{
  Headers, extract_token_from_request, session_of, session_of_token, auth_guard, roles_guard,
  guarded, is_socket, extract_socket_auth_user,
}

module _ (decode : String → Option String) (verify : String → Option TokenPayload) where
  token_of_session :
      (headers : Headers) (user : SessionUser)
      → auth_guard decode verify headers ≡ ok user
      → (token : String) × (payload : TokenPayload) × (extract_token_from_request decode headers
          ≡ ok (some token))
        × (verify token ≡ some payload)
        × (user ≡ session_of decode verify payload)
  unfolding auth_guard
  token_of_session headers user e = go (extract_token_from_request decode headers) refl e
    where
      go :
          (r : Result (Option String))
          → extract_token_from_request decode headers ≡ r
          → elim r as (λ _. Result SessionUser) [
            | err x ↦ err x
            | ok t ↦ session_of_token decode verify t
          ]
            ≡ ok user
          → (token : String) × (payload : TokenPayload) × (extract_token_from_request decode headers
              ≡ ok (some token))
            × (verify token ≡ some payload)
            × (user ≡ session_of decode verify payload)
      go (err x) h e = absurd (ground arith)
      go (ok none) h e = absurd (ground arith)
      go (ok (some token)) h e = elim (Option-cases (verify token)) [
        | inl failed ↦ absurd (ground arith)
        | inr (payload, passed) ↦ (token, payload, h, passed, ground arith)
      ]

  -- A request reaches a handler that asks for roles only with a token, in its header or its cookie,
  -- that the check accepts; the user of the request is the one of the token, and the role in the
  -- token is one of those asked for.
  pub guarded_request :
      (role : String) (roles : List String) (headers : Headers) (user : SessionUser)
      → guarded decode verify (role ∷ roles) headers ≡ ok user
      → (token : String) × (payload : TokenPayload) × (extract_token_from_request decode headers
          ≡ ok (some token))
        × (verify token ≡ some payload)
        × (user ≡ session_of decode verify payload)
        × (any (λ x. x == payload.role) (role ∷ roles) ≡ true)
  unfolding roles_guard
  guarded_request role roles headers user e =
      elim (outcome_cases (auth_guard decode verify headers)) [
        | inl (session, passed) ↦
            let same : session ≡ user = ground arith in
            let (token, payload, extracted, checked, made) =
              token_of_session headers session passed in
            let allowed : any (λ x. x == session.role) (role ∷ roles) ≡ true = ground arith in
            (
              token,
              payload,
              extracted,
              checked,
              sym same ∙ made,
              subst (λ (u : SessionUser). any (λ x. x == u.role) (role ∷ roles) ≡ true) made
                  allowed,
            )
        | inr (x, refused) ↦ absurd (ground arith)
      ]

  socket_typed : (t : Option String) → is_socket t ≡ true → t ≡ some "socket"
  socket_typed none h = absurd (ground arith)
  socket_typed (some t) h = ap some ((eq_iff t "socket").0 h)

  -- A socket is let in exactly for a token that the check accepts, that names a user and that was
  -- made for sockets; a session token is not.
  pub extract_socket_auth_user_iff :
      (token user : String)
      → (extract_socket_auth_user decode verify (some token) ≡ ok user) ↔ (
          (is_empty (trim token) ≡ false)
          × (payload : TokenPayload) × (verify token ≡ some payload)
          × (payload.token_type ≡ some "socket")
          × (payload.sub ≡ user)
          × (is_empty user ≡ false))
  unfolding extract_socket_auth_user
  extract_socket_auth_user_iff token user = (
    (λ e. elim (Option-cases (verify token)) [
      | inl failed ↦ absurd (ground arith)
      | inr (payload, checked) ↦
          let typed : is_socket payload.token_type ≡ true = ground arith in
          let same : payload.sub ≡ user = ground arith in
          let full : is_empty payload.sub ≡ false = ground arith in
          (
            ground arith,
            payload,
            checked,
            socket_typed payload.token_type typed,
            same,
            rw same at full,
          )
    ]),
    (λ (present, payload, checked, typed, same, full).
        rw (present, checked, typed, same, full) refl),
  )
