-- ===== src/Proxy.antt =====
-- src/proxy.rs: a handler that forwards requests over a connection of HTTP/2. What the crates h2
-- and hyper do, and the server that is connected to, are parameters.
use laqista.Base.{
  ℕ, ◌≡◌, refl, String, List, [], ◌∷◌, Option, none, some, Outcome, ok, err, panic, ◌>>=◌, expect,
}

-- `Result::expect`
abbrev expect_ok : {E A : Type 0} → Outcome E A → Outcome E A
expect_ok (err e) = panic
expect_ok o = o

-- A request that came in. Its body may fail while it is read.
pub record Incoming : Type 0 where
  pub uri : String
  pub headers : List (String × String)
  pub body : Outcome String (List ℕ)

-- What is sent on a stream: the start of a request, and trailers.
pub data Frame (Uri : Type 0) : Type 0 where
  request : Uri → Frame Uri
  trailers : List (String × String) → Frame Uri

-- A server answers with the frames of a body, after the frames that it has been sent.
pub record Upstream : Type 1 where
  pub Uri : Type 0
  pub parse : String → Outcome String Uri
  pub connect : String → Outcome String (Unit {0})
  pub handshake : String → Outcome String (Unit {0})
  pub send_request : String → Uri → Outcome String (Unit {0})
  pub send_trailers : String → List (String × String) → Outcome String (Unit {0})
  pub response : String → List (Frame Uri) → Outcome String (List (Outcome String (List ℕ)))

-- `into_body().data()`: the first frame of a body.
abbrev first_frame : {A : Type 0} → List A → Option A
first_frame [] = none
first_frame (x ∷ xs) = some x

module _ ⦃u : Upstream⦄ where
  -- The closure of `any`. It sends a request of its own to a fixed address, and hands on the first
  -- frame of what comes back.
  unfoldable pub handler : String → Incoming → Outcome String (List ℕ)
  handler addr req = do
    _ ← expect_ok (u.connect addr)
    _ ← expect_ok (u.handshake addr)
    uri ← expect_ok (u.parse "https://http2.akamai.com/")
    _ ← expect_ok req.body
    _ ← expect_ok (u.send_request addr uri)
    let zomg = ("zomg", "hello") ∷ []
    _ ← expect_ok (u.send_trailers addr zomg)
    resp ← expect_ok (u.response addr (Frame.request uri ∷ Frame.trailers zomg ∷ []))
    body ← expect (first_frame resp)
    expect_ok body

  -- The routes of a package: any method is handled alike.
  unfoldable pub create_reverse_proxy :
      String → String → Outcome String (Incoming → Outcome String (List ℕ))
  unfolding handler
  create_reverse_proxy package_name addr = ok (handler addr)

-- The handler after the body.
expected_same :
    {B C D : Type 0} (before : Outcome String B) (body body' : Outcome String C)
    (rest : B → Outcome String D) (b b' : C)
    → body ≡ ok b
    → body' ≡ ok b'
    → (before >>= λ x. expect_ok body >>= λ _. rest x)
      ≡ (before >>= λ x. expect_ok body' >>= λ _. rest x)
expected_same before body body' rest b b' read read' = rw (read, read') refl

module _ ⦃u : Upstream⦄ where
  -- A proxy answers any two requests alike, also those for two packages: neither the address, the
  -- headers nor the body of a request counts, once the body could be read.
  pub proxy_forgets :
      (name name' addr : String) (req req' : Incoming) (b b' : List ℕ)
      → req.body ≡ ok b
      → req'.body ≡ ok b'
      → (create_reverse_proxy name addr >>= λ h. h req)
        ≡ (create_reverse_proxy name' addr >>= λ h. h req')
  unfolding create_reverse_proxy handler
  proxy_forgets name name' addr req req' b b' read read' = rw (read, read') refl
