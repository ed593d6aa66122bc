-- ===== src/Cli/Handlers.antt =====
-- src/client/Main.cpp: the lambdas that `main` registers, and `CLI::run` with them. The clock at a ping,
-- `SHA256`, `strtof` and `strtod` are parameters.
use communo.Prelude.{
  ℕ, ◌&&◌, ◌||◌, Bool, true, false, List, [], ◌∷◌, ◌++◌, Option, none, some, pos, Bytes, codes,
  bytes_eq, Exception, Result, ok, throws, runtime_error, ◌>>=◌, ltb, if◌then◌else◌, length,
}
use communo.NumParser.{Number, int8, uint8, uint16, uint32, uint64, is_unsigned_integer, is_uint8_t}
use communo.NumParser.Parse.{FloatText, parse_number}
use communo.Chat.{is_empty}
use communo.Client.{
  send_echo_request, send_addition_request, send_broadcast, send_ping, send_uptime,
  send_increment_counter, send_get_counter, send_get_clients, send_client_message,
  send_get_chat_rooms, send_get_room_info, send_join_room_request, send_chat_say,
}
use communo.Cli.{
  Command, echo, add, broadcast, ping, uptime, counter, counter_increment, counter_get, client,
  client_get_clients, client_set_username, client_send_msg, chat, chat_get_rooms, chat_info,
  chat_join, chat_say, help, Commands, find_command, match_command, tokenize, text, failure,
  Session, print, with_client, spaced, parse_numbers, try_catch,
}

-- What the handlers take from outside the program.
pub record Outside : Type 0 where
  pub float_text : FloatText
  pub sha256 : Bytes → Bytes
  pub now : ℕ

unfoldable pub run_add : Outside → List Bytes → Session → Result Session
run_add outside args s =
    let sum =
      try_catch (parse_numbers outside.float_text args)
        (λ nums. ok (with_client (send_addition_request nums s.client) s))
        (λ e. ok (print (failure (codes "invalid numbers: ") e) s)) in
    if ltb (length args) 2 then throws (runtime_error (codes "usage: add <a> <b> ...")) else sum

-- `static_cast<uint64_t>` of the alternative held, where it is unsigned; else the variable is never read.
unfoldable pub unsigned_value : Number → ℕ
unsigned_value (uint8 n) = n
unsigned_value (uint16 n) = n
unsigned_value (uint32 n) = n
unsigned_value (uint64 n) = n
unsigned_value _ = 0

-- The attempt to parse: the number, and whether there is one. `Number num;` is an int8_t zero.
unfoldable pub parse_or_default : Outside → Bytes → Session → Result ((Number × Bool) × Session)
parse_or_default outside arg s =
    try_catch (parse_number outside.float_text arg) (λ num. ok ((num, true), s))
      (λ e. ok ((int8 (pos 0), false), print (failure (codes "invalid room number: ") e) s))

unfoldable pub send_msg_to : Number × Bool → Bytes → List Bytes → Session → Session
unfolding is_unsigned_integer unsigned_value
send_msg_to (num, valid) id words s =
    if valid && is_unsigned_integer num
    then with_client (send_client_message (unsigned_value num) (spaced words) s.client) s
    else print (text (codes "invalid client ID: " ++ id)) s

unfoldable pub run_send_msg : Outside → List Bytes → Session → Result Session
unfolding send_msg_to parse_or_default
run_send_msg outside (id ∷ word ∷ words) s = do
  (num, s') ← parse_or_default outside id s
  ok (send_msg_to num id (word ∷ words) s')
run_send_msg outside (id ∷ []) s =
    throws (runtime_error (codes "usage: client send-msg <clientID> <msg>"))
run_send_msg outside [] s = throws (runtime_error (codes "usage: client send-msg <clientID> <msg>"))

unfoldable pub join_room : Outside → Number × Bool → Bytes → Bytes → Session → Session
unfolding is_unsigned_integer is_uint8_t unsigned_value
join_room outside (num, valid) id pwd s =
    if valid && (is_unsigned_integer num && is_uint8_t num)
    then with_client (send_join_room_request outside.sha256 (unsigned_value num) pwd s.client) s
    else print (text (codes "invalid room number: " ++ id)) s

unfoldable pub run_join : Outside → List Bytes → Session → Result Session
unfolding join_room parse_or_default
run_join outside (id ∷ []) s = do
  (num, s') ← parse_or_default outside id s
  ok (join_room outside num id [] s')
run_join outside (id ∷ pwd ∷ []) s = do
  (num, s') ← parse_or_default outside id s
  ok (join_room outside num id pwd s')
run_join outside [] s = throws (runtime_error (codes "usage: chat join <room ID> <opt: password>"))
run_join outside (id ∷ pwd ∷ more ∷ args) s =
    throws (runtime_error (codes "usage: chat join <room ID> <opt: password>"))

abbrev pub counter_usage : Bytes
counter_usage = codes "Available commands for counter:\n  increment\n  get\n"

abbrev pub client_usage : Bytes
client_usage =
    codes
      "Available commands for client:\n  get-clients\n  set-username <username>\n  send-msg <clientID> <msg>\n"

abbrev pub chat_usage : Bytes
chat_usage =
    codes
      "Available commands for chat:\n  get-rooms\n  info\n  join <room ID> <opt: password>\n  say\n"

abbrev pub help_text : Bytes
help_text =
    codes
      "Available commands:\n  echo <text...>\n  broadcast <text...>\n  add <a> <b> ...\n  ping\n  uptime\n  counter ..\n  chat ..\n  help\n  exit\n"

-- `commands.at(command)(commandArgs)`
unfoldable pub run_command : Outside → Command → List Bytes → Session → Result Session
unfolding run_add run_send_msg run_join
run_command outside echo args s = ok (with_client (send_echo_request (spaced args) s.client) s)
run_command outside add args s = run_add outside args s
run_command outside broadcast args s = ok (with_client (send_broadcast (spaced args) s.client) s)
run_command outside ping args s = ok (with_client (send_ping outside.now s.client) s)
run_command outside uptime args s = ok (with_client (send_uptime s.client) s)
run_command outside counter args s = ok (print (text counter_usage) s)
run_command outside counter_increment args s = ok (with_client (send_increment_counter s.client) s)
run_command outside counter_get args s = ok (with_client (send_get_counter s.client) s)
run_command outside client args s = ok (print (text client_usage) s)
run_command outside client_get_clients args s = ok (with_client (send_get_clients s.client) s)
run_command outside client_set_username args s = ok (print (text (codes "client set-username\n")) s)
run_command outside client_send_msg args s = run_send_msg outside args s
run_command outside chat args s = ok (print (text chat_usage) s)
run_command outside chat_get_rooms args s = ok (with_client (send_get_chat_rooms s.client) s)
run_command outside chat_info args s = ok (with_client (send_get_room_info s.client) s)
run_command outside chat_join args s = run_join outside args s
run_command outside chat_say args s = ok (with_client (send_chat_say (spaced args) s.client) s)
run_command outside help args s = ok (print (text help_text) s)

abbrev pub run_found : Outside → Option Command → List Bytes → Session → Result Session
run_found outside none args s = throws (Exception.out_of_range (codes "unordered_map::at"))
run_found outside (some handler) args s = run_command outside handler args s

-- A line of words other than `exit`: the longest match is run, and what it throws is printed.
unfoldable pub run_words : Outside → Commands → Bytes → List Bytes → Session → Result Session
unfolding is_empty
run_words outside commands first args s =
    let (command, command_args) = match_command commands (first ∷ args) in
    let run =
      try_catch (run_found outside (find_command command commands) command_args s) (λ s'. ok s')
        (λ e. ok (print (failure (codes "Error: ") e) s)) in
    if is_empty command then ok (print (text (codes "Unknown command: " ++ first)) s) else run

-- One round of the loop of `run`: the session, and whether there is another round.
unfoldable pub run_line : Outside → Commands → Bytes → Session → Result (Session × Bool)
unfolding run_words
run_line outside commands line s = elim (tokenize line) [
  | [] ↦ ok (s, true)
  | first ∷ args ↦
      if bytes_eq first (codes "exit") || bytes_eq first (codes "quit")
      then ok (s, false)
      else (do s' ← run_words outside commands first args s; ok (s', true))
]

-- What the test of `g_Running` and `std::getline` find: the flag cleared, or a line; the end of the
-- input is the end of the list.
pub data Input : Type 0 where
  stopped : Input
  line : Bytes → Input

abbrev pub go_on : Session × Bool → (Session → Result Session) → Result Session
go_on (s, true) next = next s
go_on (s, false) next = ok s

-- `CLI::run`; that an empty line is skipped before it is cut into words makes no difference.
unfoldable pub run : Outside → Commands → List Input → Session → Result Session
unfolding run_line
run outside commands [] s = ok s
run outside commands (stopped ∷ inputs) s = ok s
run outside commands (line bytes ∷ inputs) s = do
  outcome ← run_line outside commands bytes s
  go_on outcome (run outside commands inputs)
