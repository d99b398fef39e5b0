-- ===== src/Internal/Connect/Intercept.antt =====
-- The task of `process_connect`, in src/proxy/internal.rs: which connections are intercepted, and
-- that no byte is lost on the way.
use hudsucker.Prelude.{
  ◌≤◌, ◌≡◌, ap, ◌∙◌, sym, ◌↔◌, ◌⊎◌, inl, inr, Bool, true, ◌&&◌, [], ◌∷◌, Bytes, codes, ◌==◌, take,
  length, ok, arith, Bool-cases, or-true, and-left, and-right,
}
use hudsucker.Platform.{Platform, BodyRequest}
use hudsucker.Handler.{HttpHandler, WebSocketHandler}
use hudsucker.Rewind.{Buffers, new}
use hudsucker.Internal.Runtime.{Runtime, InternalProxy, context}
use hudsucker.Internal.Connect.{fill, tls_record, connected, connect_task}
use hudsucker.Internal.Connect.Laws.{
  is_known, intercepted, Handles, tunnel-Handles, intercept-Handles,
}

-- The first bytes of a TLS handshake.
abbrev pub IsTls : Bytes → Type 0
IsTls bytes = (rest : Bytes) × (bytes ≡ 0x16 ∷ 3 ∷ rest)

-- The first four bytes of a GET request.
abbrev pub IsGet : Bytes → Type 0
IsGet bytes = bytes ≡ codes "GET "

pub fill-IsGet :
    (bytes : Bytes) → length bytes ≤ 4 → ((fill bytes == codes "GET ") ≡ true) ↔ IsGet bytes
unfolding ◌==◌
fill-IsGet [] h = ((λ e. cc), λ e. cc)
fill-IsGet (a ∷ []) h = ((λ e. ground arith), λ e. cc)
fill-IsGet (a ∷ b ∷ []) h = ((λ e. ground arith), λ e. cc)
fill-IsGet (a ∷ b ∷ c ∷ []) h = ((λ e. ground arith), λ e. cc)
fill-IsGet (a ∷ b ∷ c ∷ d ∷ []) h = ((λ e. ground arith), λ e. ground arith)
fill-IsGet (a ∷ b ∷ c ∷ d ∷ x ∷ bytes) h = absurd (omega arith)

pub fill-IsTls : (bytes : Bytes) → ((take 2 (fill bytes) == tls_record) ≡ true) ↔ IsTls bytes
unfolding ◌==◌
fill-IsTls [] = ((λ e. ground arith), λ e. ground (arith, e.1))
fill-IsTls (a ∷ []) = ((λ e. ground arith), λ e. ground (arith, e.1))
fill-IsTls (a ∷ b ∷ bytes) = ((λ e. (bytes, ground arith)), λ e. ground (arith, e.1))

is_known_iff :
    (bytes : Bytes) → length bytes ≤ 4 → (is_known bytes ≡ true) ↔ (IsGet bytes ⊎ IsTls bytes)
is_known_iff bytes h = (there, back)
  where
    there : is_known bytes ≡ true → IsGet bytes ⊎ IsTls bytes
    there e = elim (Bool-cases (fill bytes == codes "GET ")) [
      | inl get ↦ inl ((fill-IsGet bytes h).0 get)
      | inr other ↦ inr ((fill-IsTls bytes).0 (rw other at e))
    ]

    back : IsGet bytes ⊎ IsTls bytes → is_known bytes ≡ true
    back (inl get) = rw ((fill-IsGet bytes h).1 get)
    back (inr hello) = rw ((fill-IsTls bytes).1 hello) (or-true (fill bytes == codes "GET "))

module _ {p : Platform} {k : Buffers} (r : Runtime p k) (h : HttpHandler p) (w : WebSocketHandler p)
    (self : InternalProxy r h w) (req : BodyRequest p) where
  -- What the handler says of the request.
  abbrev pub wanted : Bool
  wanted = (h.should_intercept self.http_handler (context self) req).1

  connected-Handles :
      (authority : p.http.Authority) (bytes : Bytes) (io : r.upgraded.Io)
      → Handles r h w self.ca authority
          (new io bytes)
          (wanted && is_known bytes)
          (connected r h w self req authority bytes io)
  unfolding connected
  connected-Handles authority bytes io = elim (Bool-cases wanted) [
    | inl yes_wanted ↦
        let handler' = (h.should_intercept self.http_handler (context self) req).0 in
        let self' : InternalProxy r h w = record self { http_handler = handler' } in
        rw yes_wanted (intercept-Handles r h w self' authority (new io bytes) bytes)
    | inr not_wanted ↦ rw not_wanted (tunnel-Handles r h w self authority (new io bytes))
  ]

module _ {p : Platform} {k : Buffers} (r : Runtime p k) (h : HttpHandler p) (w : WebSocketHandler p)
    (self : InternalProxy r h w) (req req' : BodyRequest p) (authority : p.http.Authority)
    (io io' : r.upgraded.Io) (bytes : Bytes) (up : r.upgrade_on req ≡ (ok io, req'))
    (first : r.read 4 io ≡ (ok bytes, io')) where
  -- Once the connection is upgraded and its first bytes were read, all that the task does concerns
  -- that connection with these bytes put back in front, and the authority of the request; the proxy
  -- takes a hand in it exactly if the handler wants it and the bytes are known; and its bytes are
  -- copied once if not and the server can be reached, and else never.
  pub connect_task-Handles :
      Handles r h w self.ca authority
        (new io' bytes)
        (wanted r h w self req' && is_known bytes)
        (connect_task r h w self req authority)
  unfolding connect_task
  connect_task-Handles = rw (up, first) (connected-Handles r h w self req' authority bytes io')

  -- Once the connection is upgraded and its first bytes were read, it is intercepted (served over
  -- HTTP, or a TLS handshake is made on it, or the task panics because the authority can make no
  -- configuration for one) exactly when the handler wants it and the bytes that
  -- the one read returned are "GET " or begin with 0x16 0x03, those of a TLS handshake.
  pub connect_task-intercepts :
      (intercepted r h w (connect_task r h w self req authority) ≡ true)
      ↔ ((wanted r h w self req' ≡ true) × (IsGet bytes ⊎ IsTls bytes))
  connect_task-intercepts = (there, back)
    where
      hit :
          intercepted r h w (connect_task r h w self req authority)
          ≡ (wanted r h w self req' && is_known bytes)
      hit = connect_task-Handles.interception

      short : length bytes ≤ 4
      short = r.read-le 4 io bytes (ap (λ x. x.0) first)

      there :
          intercepted r h w (connect_task r h w self req authority) ≡ true
          → (wanted r h w self req' ≡ true) × (IsGet bytes ⊎ IsTls bytes)
      there e =
          let both : (wanted r h w self req' && is_known bytes) ≡ true = sym hit ∙ e in
          let known : is_known bytes ≡ true =
            and-right (wanted r h w self req') (is_known bytes) both in
          (
            and-left (wanted r h w self req') (is_known bytes) both,
            (is_known_iff bytes short).0 known,
          )

      back :
          (wanted r h w self req' ≡ true) × (IsGet bytes ⊎ IsTls bytes)
          → intercepted r h w (connect_task r h w self req authority) ≡ true
      back (yes_wanted, known) = hit ∙ rw (yes_wanted, (is_known_iff bytes short).1 known)
