-- ===== src/Server/Setup.antt =====
-- src/server/Main.cpp and src/server/Server.cpp: what `main` does between the options and the loop, and
-- `~Server` behind it.
use communo.Prelude.{
  ℕ, zero, suc, Bool, true, false, not, List, [], ◌∷◌, ◌++◌, Option, none, some, ℤ, pos, negsuc,
  Bytes, Exception, runtime_error, Result, ok, undefined, ltb_ℤ, if◌then◌else◌, Pointer,
  indeterminate, null, at,
}
use communo.Chat.{Row, load_chat_rooms}
use communo.Server.{started, World}
use communo.Server.Main.{set_state}

-- What the system answers to `InitDaemon`; `limit` is the number of descriptors of `sysconf`.
pub record Process : Type 0 where
  pub fork : ℤ
  pub setsid : ℤ
  pub chdir : ℤ
  pub limit : ℤ

-- The end of the program with a code, or what stays: the descriptors that were closed, in order.
pub data Daemon : Type 0 where
  exits : ℕ → Daemon
  goes_on : List ℕ → Daemon

-- `for (long fd = maxFd; fd >= 0; --fd) close(fd);`
unfoldable pub closed_from : ℕ → List ℕ
closed_from zero = zero ∷ []
closed_from (suc fd) = suc fd ∷ closed_from fd

unfoldable pub max_fd : ℤ → ℕ
max_fd (pos n) = n
max_fd (negsuc n) = 1024

abbrev is_zero : ℤ → Bool
is_zero (pos zero) = true
is_zero _ = false

-- `InitDaemon`; the handlers that it sets are in the `closing_requested` of a tick.
unfoldable pub init_daemon : Bool → Process → Daemon
unfolding closed_from max_fd
init_daemon daemonize process =
    if not daemonize
    then goes_on []
    else if ltb_ℤ process.fork (pos 0)
    then exits 1
    else if ltb_ℤ (pos 0) process.fork
    then exits 0
    else if ltb_ℤ process.setsid (pos 0)
    then exits 1
    else if not (is_zero process.chdir)
    then exits 1
    else goes_on (closed_from (max_fd process.limit))

-- What OpenSSL and the system answer: the context, which of the calls on it return 1, the descriptor of
-- `socket` or -1, and which of the calls on it do not fail.
pub record Opening : Type 0 where
  pub ctx : Option ℕ
  pub min_version : Bool
  pub certificate : Bool
  pub key : Bool
  pub key_matches : Bool
  pub descriptor : ℤ
  pub options_set : Bool
  pub binds : Bool
  pub listens : Bool

-- The members that the set-up concerns, and the contexts that were freed.
pub record Boot : Type 0 where
  pub ctx : Pointer
  pub master : Option ℤ
  pub freed : List ℕ
  pub world : World

-- What sqlite answers: whether the database opens, its message where it does not, and the rows that the
-- query steps through; none, where it cannot be prepared.
pub record Storage : Type 0 where
  pub opens : Bool
  pub message : Bytes
  pub rows : List Row

-- How a step of the set-up ends: by CommunoException, by `exit`, by another exception, or by returning.
pub data Stage : Type 0 where
  threw passed : Boot → Stage
  exited : ℕ → Stage
  uncaught : Exception → Stage

abbrev free_and_throw : ℕ → Boot → Stage
free_and_throw ctx boot = threw (record boot { freed = boot.freed ++ (ctx ∷ []) })

-- `Server::InitSSL`
unfoldable pub init_ssl_context : Opening → Boot → Stage
init_ssl_context opening boot = elim opening.ctx [
  | none ↦ threw (record boot { ctx = null })
  | some ctx ↦
      let made = record boot { ctx = at ctx } in
      if not opening.min_version
      then free_and_throw ctx made
      else if not opening.certificate
      then free_and_throw ctx made
      else if not opening.key
      then free_and_throw ctx made
      else if not opening.key_matches
      then free_and_throw ctx made
      else passed made
]

-- `m_MasterSocket == -1`
abbrev pub is_error : ℤ → Bool
is_error (negsuc zero) = true
is_error _ = false

-- `Server::InitSocket`
unfoldable pub init_socket : Opening → Boot → Stage
init_socket opening boot =
    let opened = record boot { master = some opening.descriptor } in
    if is_error opening.descriptor
    then threw opened
    else if not opening.options_set
    then exited 1
    else if not opening.binds
    then exited 1
    else if not opening.listens
    then exited 1
    else passed (record opened { world = set_state started opened.world })

-- `Server::InitEntities`; `sDatabase` is made at its first use, by `Database::Database`.
unfoldable pub init_entities : ℕ → Storage → Boot → Stage
init_entities now storage boot =
    let w = boot.world in
    let loaded = record w {
      server = record w.server { start_time = now };
      chat = load_chat_rooms storage.rows w.chat;
    } in
    if not storage.opens
    then uncaught (runtime_error storage.message)
    else passed (record boot { world = loaded })

-- Where `main` is, after the set-up: in its loop, or at the end of the program.
pub data Started : Type 0 where
  running : Boot → Started
  exited_with : ℕ → Started
  stopped_by_dialog : Started
  terminated : Exception → Started

-- `try { … } catch (CommunoException &e) { … e.SendSystemErrDialogBox(); }`, where `dialog` is whether
-- that method, which is not in the repository, returns.
abbrev pub guarded : Bool → Stage → (Boot → Started) → Started
guarded dialog (passed boot) next = next boot
guarded dialog (exited code) next = exited_with code
guarded dialog (uncaught e) next = terminated e
guarded dialog (threw boot) next = if dialog then next boot else stopped_by_dialog

-- From `server.SetSendHelloMessagesToNewClients(true)` to the loop.
unfoldable pub set_up : Bool → Opening → ℕ → Storage → Boot → Started
unfolding init_ssl_context init_socket init_entities
set_up dialog opening now storage boot =
    let w = boot.world in
    let greeting = record boot {
      world = record w { server = record w.server { send_hello_msg = true } };
    } in
    guarded dialog (init_ssl_context opening greeting) (λ secured.
      guarded dialog (init_socket opening secured)
        (λ opened. guarded dialog (init_entities now storage opened) running))

-- `Server::~Server`: the contexts that were freed, or undefined behaviour.
unfoldable pub destroy_server : Boot → Result (List ℕ)
destroy_server boot = elim boot.ctx [
  | indeterminate ↦ undefined
  | null ↦ ok boot.freed
  | at ctx ↦ ok (boot.freed ++ (ctx ∷ []))
]
