-- ===== src/Cli/Typed.antt =====
-- Typed lines, from the words to the packet that is sent.
use communo.Prelude.{
  ℕ, ◌≤◌, ◌<◌, ◌^◌, ◌≡◌, refl, ap, true, false, List, [], ◌∷◌, ◌++◌, append_assoc, arith, Bytes,
  codes, bytes_eq, to_string, map, length, ok, ltb, if◌then◌else◌, All, some, Bool-cases, inl, inr,
  ◌&&◌,
}
use communo.NumParser.{uint8, is_unsigned_integer, is_uint8_t}
use communo.NumParser.Parse.{FloatText}
use communo.NumParser.RoundTrip.{smallest, parse_number-to_string}
use communo.Chat.{is_empty}
use communo.Client.{
  send_ssl_packet_to_server, send_addition_request, send_join_room_request, addition_packet,
  join_packet, send_chat_say,
}
use communo.OpCodes.{opcode_bytes, cmsg_say}
use communo.Cli.{
  Commands, add, add_command, chat_join, chat_say, is_known, find_command, main_commands,
  candidate_of, candidate_loop, match_loop, match_command, Session, with_client, spaced, print,
  text, parse_numbers,
}
use communo.Cli.Tokens.{Spells, tokenize-Spells}
use communo.Cli.Handlers.{
  Outside, run_add, run_join, join_room, parse_or_default, unsigned_value, run_command, run_words,
  run_line,
}

candidate_loop-append :
    (candidate : Bytes) (args : List Bytes) (a : Bytes)
    → candidate_loop candidate (args ++ (a ∷ [])) ≡ candidate_loop candidate args ++ (b' ' ∷ a)
unfolding candidate_loop
candidate_loop-append candidate [] a = refl
candidate_loop-append candidate (b ∷ args) a =
    candidate_loop-append (candidate ++ (b' ' ∷ b)) args a

-- No command is longer than `name` by further words.
abbrev pub IsLast : Commands → Bytes → Type 0
IsLast commands name = (t : Bytes) → is_known (name ++ (b' ' ∷ t)) commands ≡ false

-- Behind the last command of a line, the search finds no other.
pub match_loop_stays :
    (commands : Commands) (first : Bytes) (before args : List Bytes) (found : Bytes × List Bytes)
    → IsLast commands (candidate_loop first before)
    → match_loop commands (first ∷ before) args found ≡ found
unfolding match_loop candidate_of
match_loop_stays commands first before [] found last = refl
match_loop_stays commands first before (a ∷ args) found last =
    let grown = candidate_loop-append first before a in
    let unknown : is_known (candidate_loop first (before ++ (a ∷ []))) commands ≡ false =
      rw grown (last a) in
    rw unknown (
      match_loop_stays commands first (before ++ (a ∷ [])) args found
        (λ t. rw (grown, append_assoc) (last (a ++ (b' ' ∷ t)))))

add-IsLast : IsLast main_commands (codes "add")
unfolding main_commands add_command find_command bytes_eq
add-IsLast t = refl

match_add :
    (args : List Bytes) → match_command main_commands (codes "add" ∷ args) ≡ (codes "add", args)
unfolding match_command match_loop candidate_of candidate_loop main_commands add_command
    find_command bytes_eq
match_add args = match_loop_stays main_commands (codes "add") [] args (codes "add", args) add-IsLast

join-IsLast : IsLast main_commands (codes "chat join")
unfolding main_commands add_command find_command bytes_eq
join-IsLast t = refl

match_join :
    (args : List Bytes)
    → match_command main_commands (codes "chat" ∷ codes "join" ∷ args) ≡ (codes "chat join", args)
unfolding match_command match_loop candidate_of candidate_loop main_commands add_command
    find_command bytes_eq
match_join args =
    match_loop_stays main_commands (codes "chat") (codes "join" ∷ []) args (codes "chat join", args)
      join-IsLast

say-IsLast : IsLast main_commands (codes "chat say")
unfolding main_commands add_command find_command bytes_eq
say-IsLast t = refl

match_say :
    (args : List Bytes)
    → match_command main_commands (codes "chat" ∷ codes "say" ∷ args) ≡ (codes "chat say", args)
unfolding match_command match_loop candidate_of candidate_loop main_commands add_command
    find_command bytes_eq
match_say args =
    match_loop_stays main_commands (codes "chat") (codes "say" ∷ []) args (codes "chat say", args)
      say-IsLast

find_add : find_command (codes "add") main_commands ≡ some add
unfolding main_commands add_command find_command bytes_eq
find_add = refl

find_join : find_command (codes "chat join") main_commands ≡ some chat_join
unfolding main_commands add_command find_command bytes_eq
find_join = refl

find_say : find_command (codes "chat say") main_commands ≡ some chat_say
unfolding main_commands add_command find_command bytes_eq
find_say = refl

-- A line whose first words are `first`, which is no command to leave, is left to the command.
pub run_line-words :
    (outside : Outside) (line first : Bytes) (args : List Bytes) (s s' : Session)
    → Spells (first ∷ args) line
    → (bytes_eq first (codes "exit") ≡ false) × (bytes_eq first (codes "quit") ≡ false)
    → run_words outside main_commands first args s ≡ ok s'
    → run_line outside main_commands line s ≡ ok (s', true)
unfolding run_line
run_line-words outside line first args s s' spelled (no_exit, no_quit) r =
    rw (run_line, (tokenize-Spells line (first ∷ args)).0 spelled, no_exit, no_quit, r)

parse_numbers-to_string :
    (lib : FloatText) (ns : List ℕ)
    → All (λ n. n < 2 ^ 64) ns
    → parse_numbers lib (map to_string ns) ≡ ok (map smallest ns)
unfolding parse_numbers
parse_numbers-to_string lib [] h = refl
parse_numbers-to_string lib (n ∷ ns) h =
    rw (parse_number-to_string lib n h.0, parse_numbers-to_string lib ns h.1)

pub length-map : {A B : Type 0} (f : A → B) (xs : List A) → length (map f xs) ≡ length xs
length-map f [] = refl
length-map f (x ∷ xs) = ap ℕ.suc (length-map f xs)

-- A line of `add` and two or more numbers below 2 ^ 64 in decimal digits, with any blanks between
-- them, sends these numbers, each in its smallest type, if they fit a packet of 4096 bytes.
pub typed_add :
    (outside : Outside) (line : Bytes) (ns : List ℕ) (s : Session)
    → Spells (codes "add" ∷ map to_string ns) line
    → 2 ≤ length ns
    → All (λ n. n < 2 ^ 64) ns
    → length (addition_packet (map smallest ns)) ≤ 4096
    → run_line outside main_commands line s
      ≡ ok (
        with_client (send_ssl_packet_to_server (addition_packet (map smallest ns)) s.client) s,
        true,
      )
unfolding run_words run_command run_add send_addition_request is_empty
typed_add outside line ns s spelled two small fits =
    let enough : ltb (length (map to_string ns)) 2 ≡ false =
      rw (length-map to_string ns) (ground arith) in
    let enough' : ltb (length (map smallest ns)) 2 ≡ false =
      rw (length-map smallest ns) (ground arith) in
    let short : ltb 4096 (length (addition_packet (map smallest ns))) ≡ false = ground arith in
    run_line-words outside line (codes "add") (map to_string ns) s _ spelled
      (unfold bytes_eq in (refl, refl))
      (rw (
        run_words,
        match_add (map to_string ns),
        find_add,
        enough,
        parse_numbers-to_string outside.float_text ns small,
        enough',
        short,
      ))

joins : (id : ℕ) → id < 256 → smallest id ≡ uint8 id
joins id h = ground arith

not_room :
    (id : ℕ) → 256 ≤ id → (is_unsigned_integer (smallest id) && is_uint8_t (smallest id)) ≡ false
unfolding is_unsigned_integer is_uint8_t
not_room id h = ground arith

-- A line of `chat join`, a number below 2 ^ 64 and a password sends a request for the room of that
-- number with the password's hash, if the number fits a byte; a number that does not is refused on the
-- console, and nothing is sent.
pub typed_join :
    (outside : Outside) (line : Bytes) (id : ℕ) (pwd : Bytes) (s : Session)
    → Spells (codes "chat" ∷ codes "join" ∷ to_string id ∷ pwd ∷ []) line
    → id < 2 ^ 64
    → run_line outside main_commands line s
      ≡ ok (
        if ltb id 256
            then with_client
                (send_ssl_packet_to_server (join_packet id (outside.sha256 pwd)) s.client)
                s
            else print (text (codes "invalid room number: " ++ to_string id)) s,
        true,
      )
unfolding run_words run_command run_join join_room parse_or_default send_join_room_request
    unsigned_value is_unsigned_integer is_uint8_t is_empty
typed_join outside line id pwd s spelled fits =
    run_line-words outside line (codes "chat") (codes "join" ∷ to_string id ∷ pwd ∷ []) s _ spelled
      (unfold bytes_eq in (refl, refl))
      (rw
        (
          run_words,
          match_join (to_string id ∷ pwd ∷ []),
          find_join,
          parse_number-to_string outside.float_text id fits,
        )
        (elim (Bool-cases (ltb id 256)) [
          | inl byte ↦ let e = joins id (ground arith) in rw (e, byte)
          | inr wide ↦ let e = not_room id (ground arith) in rw (e, wide)
        ]))

-- A line of `chat say` and words sends the words, each with a blank behind it.
pub typed_say :
    (outside : Outside) (line : Bytes) (words : List Bytes) (s : Session)
    → Spells (codes "chat" ∷ codes "say" ∷ words) line
    → run_line outside main_commands line s
      ≡ ok (
        with_client (send_ssl_packet_to_server (opcode_bytes cmsg_say ++ spaced words) s.client) s,
        true,
      )
unfolding run_words run_command send_chat_say is_empty
typed_say outside line words s spelled =
    run_line-words outside line (codes "chat") (codes "say" ∷ words) s _ spelled
      (unfold bytes_eq in (refl, refl)) (rw (run_words, match_say words, find_say))
