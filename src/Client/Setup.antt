-- ===== src/Client/Setup.antt =====
-- src/client/Client.cpp: the connection of the client, from `main` and its early returns to `~Client`.
use communo.Prelude.{
  ℕ, ◌+◌, ◌-◌, ◌^◌, Bool, true, false, not, List, [], ◌∷◌, ◌++◌, Option, none, some, ℤ, pos, negsuc,
  Result, ok, undefined, ◌>>=◌, ltb, if◌then◌else◌, Pointer, indeterminate, null, at, is_null,
}

-- What is made and released, in the order of the calls.
pub data Call : Type 0 where
  socket_shutdown socket_close : ℕ → Call
  ctx_free ssl_shutdown ssl_free : ℕ → Call

-- What the system answers to `socket`, `inet_pton` and `connect`: a descriptor or -1, and whether the
-- other two succeed.
pub record Network : Type 0 where
  pub descriptor : ℤ
  pub address : Bool
  pub connects : Bool

-- What OpenSSL answers: the objects that it makes, and which of the calls return 1 (X509_V_OK for
-- the verification).
pub record Tls : Type 0 where
  pub ctx : Option ℕ
  pub min_version : Bool
  pub trust_store : Bool
  pub ssl : Option ℕ
  pub set_fd : Bool
  pub set_host : Bool
  pub handshake : Bool
  pub verified : Bool

-- The members of `Client` that the set-up concerns.
pub record Connection : Type 0 where
  pub sock : ℕ
  pub ctx : Pointer
  pub ssl : Pointer
  pub calls : List Call

-- `Client::Client`
abbrev pub new_connection : Connection
new_connection = record { sock = 0; ctx = indeterminate; ssl = indeterminate; calls = [] }

abbrev pub call : Call → Connection → Connection
call c connection = record connection { calls = connection.calls ++ (c ∷ []) }

-- An `int` in the `unsigned long long` of `m_Sock`.
unfoldable pub to_unsigned : ℤ → ℕ
to_unsigned (pos n) = n
to_unsigned (negsuc n) = 2 ^ 64 - (n + 1)

-- How a method ends: by CommunoException, or returning whether it succeeded.
pub data Attempt : Type 0 where
  threw : Connection → Attempt
  returned : Bool → Connection → Attempt

-- `initClientConnection`. The member is unsigned, so that the test of `< 0` is one on a natural number.
unfoldable pub init_client_connection : Network → Connection → Attempt
unfolding to_unsigned
init_client_connection network c =
    let opened = record c { sock = to_unsigned network.descriptor } in
    if ltb opened.sock 0
    then threw opened
    else if not network.address
    then returned false opened
    else returned network.connects opened

-- `create_tls_connection`, from the object on that `SSL_new` made: a null pointer where a step fails,
-- and the object is freed.
unfoldable pub attach : Tls → ℕ → Connection → Pointer × Connection
attach tls ssl c =
    if not tls.set_fd
    then (null, call (ssl_free ssl) c)
    else if not tls.set_host
    then (null, call (ssl_free ssl) c)
    else if not tls.handshake
    then (null, call (ssl_free ssl) c)
    else if not tls.verified
    then (null, call (ssl_free ssl) c)
    else (at ssl, c)

unfoldable pub create_tls_connection : Tls → Connection → Pointer × Connection
unfolding attach
create_tls_connection tls c = elim tls.ssl [ none ↦ (null, c) | some ssl ↦ attach tls ssl c ]

-- `m_ssl = create_tls_connection(…)` and the test of it.
unfoldable pub start_tls : ℕ → Pointer × Connection → Attempt
start_tls ctx (ssl, c) =
    let assigned = record c { ssl = ssl } in
    if is_null ssl
    then returned false (call (ctx_free ctx) (call (socket_close c.sock) assigned))
    else returned true assigned

-- `initTLS`
unfoldable pub init_tls : Tls → Connection → Attempt
unfolding create_tls_connection start_tls
init_tls tls c = elim tls.ctx [
  | none ↦ returned false (record c { ctx = null })
  | some ctx ↦
      let made = record c { ctx = at ctx } in
      if not tls.min_version
      then returned false (call (ctx_free ctx) made)
      else if not tls.trust_store
      then returned false (call (ctx_free ctx) made)
      else start_tls ctx (create_tls_connection tls made)
]

-- `if (m_ctx) SSL_CTX_free(m_ctx);`, and the same for `m_ssl`: an indeterminate value must not be read.
unfoldable pub free_ctx : Connection → Result Connection
free_ctx c = elim c.ctx [
  | indeterminate ↦ undefined
  | null ↦ ok c
  | at ctx ↦ ok (call (ctx_free ctx) c)
]

unfoldable pub free_ssl : Connection → Result Connection
free_ssl c = elim c.ssl [
  | indeterminate ↦ undefined
  | null ↦ ok c
  | at ssl ↦ ok (call (ssl_free ssl) (call (ssl_shutdown ssl) c))
]

-- `Client::~Client`
unfoldable pub destroy : Connection → Result Connection
unfolding free_ctx free_ssl
destroy c = do
  freed ← free_ctx (call (socket_close c.sock) (call (socket_shutdown c.sock) c))
  free_ssl freed

-- The end of the program that nothing catches, or the connection when `main` has returned.
pub data Lifetime : Type 0 where
  terminated : Lifetime
  ended : Result Connection → Lifetime

unfoldable pub after_tls : Attempt → Lifetime
unfolding destroy
after_tls (threw c) = terminated
after_tls (returned good c) = ended (destroy c)

unfoldable pub after_connection : Tls → Attempt → Lifetime
unfolding init_tls after_tls
after_connection tls (threw c) = terminated
after_connection tls (returned false c) = ended (destroy c)
after_connection tls (returned true c) = after_tls (init_tls tls c)

-- `main`, less the command line, which does not touch the connection's members.
unfoldable pub connection_lifetime : Network → Tls → Lifetime
unfolding init_client_connection after_connection
connection_lifetime network tls =
    after_connection tls (init_client_connection network new_connection)
