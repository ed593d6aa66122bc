-- ===== src/Cli.antt =====
-- src/client/Main.cpp: the command line of the client. The table of commands maps a name to the handler
-- that `main` registers under it; the thread that shows the server's replies is left out, `Replies`
-- is what it does.
pub mod Blanks
pub mod Tokens
pub mod Handlers
pub mod Longest
pub mod Typed
pub mod Conversation
pub mod Talking
pub mod Messages
pub mod Total
pub mod Rounds
use communo.Prelude.{
  ℕ, ◌-◌, ◌<◌, Bool, true, false, not, ◌&&◌, ◌||◌, List, [], ◌∷◌, ◌++◌, Option, none, some, pos,
  negsuc, Bytes, codes, bytes_eq, Exception, Result, ok, throws, undefined, out_of_fuel,
  runtime_error, ◌>>=◌, ltb, leb, ◌==◌, if◌then◌else◌, length,
}
use communo.NumParser.{Number, int8, uint8, uint16, uint32, uint64, is_unsigned_integer, is_uint8_t}
use communo.NumParser.Parse.{FloatText, parse_number}
use communo.Chat.{is_empty}
use communo.Client.{
  Client, send_echo_request, send_addition_request, send_broadcast, send_ping, send_uptime,
  send_increment_counter, send_get_counter, send_get_clients, send_client_message,
  send_get_chat_rooms, send_get_room_info, send_join_room_request, send_chat_say,
}

-- `std::isspace` in the "C" locale.
unfoldable pub is_space : ℕ → Bool
is_space c = (c == b' ') || (leb 9 c && leb c 13)

-- `iss >> token` until it fails, with the part of a token that was read.
unfoldable pub read_tokens : Bytes → Bytes → List Bytes
unfolding is_space is_empty
read_tokens token [] = if is_empty token then [] else token ∷ []
read_tokens token (c ∷ s) = elim (is_space c) [
  | false ↦ read_tokens (token ++ (c ∷ [])) s
  | true ↦ let rest = read_tokens [] s in if is_empty token then rest else token ∷ rest
]

unfoldable pub tokenize : Bytes → List Bytes
unfolding read_tokens
tokenize line = read_tokens [] line

-- The lambdas of `main`, by the name that each is registered under.
pub data Command : Type 0 where
  echo add broadcast ping uptime : Command
  counter counter_increment counter_get : Command
  client client_get_clients client_set_username client_send_msg : Command
  chat chat_get_rooms chat_info chat_join chat_say : Command
  help : Command

abbrev pub Commands : Type 0
Commands = List (Bytes × Command)

-- `commands[name] = std::move(handler)`
unfoldable pub add_command : Bytes → Command → Commands → Commands
add_command name handler [] = (name, handler) ∷ []
add_command name handler ((key, old) ∷ commands) =
    let rest = add_command name handler commands in
    if bytes_eq key name then (key, handler) ∷ commands else (key, old) ∷ rest

unfoldable pub find_command : Bytes → Commands → Option Command
find_command name [] = none
find_command name ((key, handler) ∷ commands) =
    if bytes_eq key name then some handler else find_command name commands

abbrev pub is_known : Bytes → Commands → Bool
is_known name commands = elim (find_command name commands) [ none ↦ false | some handler ↦ true ]

-- The calls of `addCommand` in `main`, in their order.
abbrev pub registrations : List (Bytes × Command)
registrations =
    (codes "echo", echo)
    ∷ (codes "add", add)
    ∷ (codes "broadcast", broadcast)
    ∷ (codes "ping", ping)
    ∷ (codes "uptime", uptime)
    ∷ (codes "counter", counter)
    ∷ (codes "counter increment", counter_increment)
    ∷ (codes "counter get", counter_get)
    ∷ (codes "client", client)
    ∷ (codes "client get-clients", client_get_clients)
    ∷ (codes "client set-username", client_set_username)
    ∷ (codes "client send-msg", client_send_msg)
    ∷ (codes "chat", chat)
    ∷ (codes "chat get-rooms", chat_get_rooms)
    ∷ (codes "chat info", chat_info)
    ∷ (codes "chat join", chat_join)
    ∷ (codes "chat say", chat_say)
    ∷ (codes "help", help)
    ∷ []

abbrev register : List (Bytes × Command) → Commands → Commands
register [] commands = commands
register ((name, handler) ∷ more) commands = register more (add_command name handler commands)

unfoldable pub main_commands : Commands
unfolding add_command
main_commands = register registrations []

-- The inner loop: the words from the first on, with a blank before each but the first.
unfoldable pub candidate_loop : Bytes → List Bytes → Bytes
candidate_loop candidate [] = candidate
candidate_loop candidate (arg ∷ args) = candidate_loop (candidate ++ (b' ' ∷ arg)) args

unfoldable pub candidate_of : List Bytes → Bytes
unfolding candidate_loop
candidate_of [] = []
candidate_of (arg ∷ args) = candidate_loop arg args

-- The outer loop: `before` are the words up to index i, `found` what was assigned last.
unfoldable pub match_loop :
    Commands → List Bytes → List Bytes → Bytes × List Bytes → Bytes × List Bytes
unfolding candidate_of
match_loop commands before [] found = found
match_loop commands before (arg ∷ args) found =
    let candidate = candidate_of (before ++ (arg ∷ [])) in
    match_loop commands (before ++ (arg ∷ [])) args
      (if is_known candidate commands then (candidate, args) else found)

-- The command and its arguments; the empty command where nothing matched.
unfoldable pub match_command : Commands → List Bytes → Bytes × List Bytes
unfolding match_loop
match_command commands args = match_loop commands [] args ([], [])

-- What the command line prints: a text, or a text and the `what()` of an exception.
pub data Output : Type 0 where
  text : Bytes → Output
  failure : Bytes → Exception → Output

pub record Session : Type 0 where
  pub client : Client
  pub console : List Output

abbrev pub print : Output → Session → Session
print output s = record s { console = s.console ++ (output ∷ []) }

abbrev pub with_client : Client → Session → Session
with_client c s = record s { client = c }

-- `replyStr += arg + ' '` for each argument.
unfoldable pub spaced : List Bytes → Bytes
spaced [] = []
spaced (arg ∷ args) = arg ++ (b' ' ∷ spaced args)

unfoldable pub parse_numbers : FloatText → List Bytes → Result (List Number)
parse_numbers lib [] = ok []
parse_numbers lib (arg ∷ args) = do
  num ← parse_number lib arg
  nums ← parse_numbers lib args
  ok (num ∷ nums)

-- `try { … } catch (const std::exception &e)`: the exceptions of the model are all of that class.
abbrev pub try_catch {ℓ κ} :
    {A : Type ℓ} {B : Type κ} → Result A → (A → Result B) → (Exception → Result B) → Result B
try_catch undefined run handle = undefined
try_catch out_of_fuel run handle = out_of_fuel
try_catch (throws e) run handle = handle e
try_catch (ok a) run handle = run a
