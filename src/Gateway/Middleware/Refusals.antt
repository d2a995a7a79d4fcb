-- ===== src/Gateway/Middleware/Refusals.antt =====
-- What the middleware keeps from the handlers.
use doc_lens.Base.{
  ℕ, String, Bool, true, false, ◌≡◌, refl, ◌∙◌, ◌⊎◌, inl, inr, Option, err, Exec, arith,
}
use doc_lens.Tokens.{Codec}
use doc_lens.Gateway.Http.{Request, Response, http_error}
use doc_lens.Gateway.Verifier.{verify_bearer}
use doc_lens.Gateway.Middleware.{
  Server, GatewayState, requires_auth, client_ip, admit, authenticate, serve, finish, after_admit,
  Clock, middleware,
}

same_world :
    {W : Type 0} (now : ℕ) (ip : String) (s : GatewayState W) → (admit now ip s).1.world ≡ s.world
unfolding admit
same_world now ip s = ground arith

refused_token :
    (c : Codec) (server : Server) (now : ℕ) (r : Request) (e : String)
    → server.auth_disabled ≡ false
    → requires_auth r ≡ true
    → verify_bearer c server.verifier now (r.header "Authorization") ≡ err e
    → authenticate c server now r ≡ err (http_error 401 "unauthorized")
unfolding authenticate
refused_token c server now r e enabled needed bad = ground arith

after_refusal :
    {W : Type 0} (next : Request → Exec W Response Response) (allowed : Bool) (s : GatewayState W)
    → ((after_admit next (err (http_error 401 "unauthorized")) allowed s).1.world ≡ s.world)
      × (((after_admit next (err (http_error 401 "unauthorized")) allowed s).0
            ≡ http_error 401 "unauthorized")
          ⊎ ((after_admit next (err (http_error 401 "unauthorized")) allowed s).0
              ≡ http_error 429 "rate limit exceeded"))
unfolding after_admit serve
after_refusal next true s = (refl, inl refl)
after_refusal next false s = (refl, inr refl)

-- A request that needs a token and whose token does not verify never reaches a handler: whatever
-- the handler is, the services' state stays as it was, and the answer is 401, or 429 from the
-- limiter.
pub unverified_refused :
    {W : Type 0} (c : Codec) (split_host : String → Option String) (server : Server)
    (next : Request → Exec W Response Response) (clock : Clock) (r : Request) (s : GatewayState W)
    (e : String)
    → server.auth_disabled ≡ false
    → requires_auth r ≡ true
    → verify_bearer c server.verifier clock.verified_at (r.header "Authorization") ≡ err e
    → ((middleware c split_host server next clock r s).1.world ≡ s.world)
      × (((middleware c split_host server next clock r s).0 ≡ http_error 401 "unauthorized")
          ⊎ ((middleware c split_host server next clock r s).0
              ≡ http_error 429 "rate limit exceeded"))
unfolding middleware finish
unverified_refused c split_host server next clock r s e enabled needed bad =
    rw (refused_token c server clock.verified_at r e enabled needed bad) (
      let (kept, answer) =
        after_refusal next (admit clock.limited_at (client_ip split_host r) s).0
          (admit clock.limited_at (client_ip split_host r) s).1 in
      (kept ∙ same_world clock.limited_at (client_ip split_host r) s, answer))
