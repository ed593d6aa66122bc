-- ===== src/Checks.antt =====
-- A server with three clients and two rooms, on which the theorems are applied.
mod Joining
mod Chatting
mod Numbers
mod Passing
mod Counting
mod Connecting
mod CommandLine
mod Talking
mod Running
mod Guarding
mod Starting
use communo.Prelude.{
  ℕ, zero, suc, ◌+◌, ◌%◌, ◌^◌, true, false, List, [], ◌∷◌, none, some, ℤ, pos, pos_part, Bytes,
  codes,
}
use communo.NumParser.Parse.{FloatText}
use communo.Chat.{ChatRoom}
use communo.Server.{started, ClientSocket, World, DoubleArith}

-- Integers for doubles, so that sums can be read.
abbrev pub integers : DoubleArith
integers = record { of_int = λ z. pos_part z; of_float = λ b. b; add = λ a b. (a + b) % 2 ^ 64 }

abbrev pub no_floats : FloatText
no_floats = record { strtof = λ s. (0, 0); strtod = λ s. (0, 0) }

abbrev pub zeros : ℕ → Bytes
zeros zero = []
zeros (suc n) = 0 ∷ zeros n

-- In no room.
abbrev pub alice : ClientSocket
alice = record {
  socket = pos 5;
  ssl = some 1;
  ssl_enabled = true;
  chat_room_joined = false;
  joined_chat_room_id = 0;
  client_id = 1;
  client_username = codes "<unk>";
}

-- In the open room.
abbrev pub bob : ClientSocket
bob = record {
  socket = pos 6;
  ssl = some 2;
  ssl_enabled = true;
  chat_room_joined = true;
  joined_chat_room_id = 1;
  client_id = 2;
  client_username = codes "bob";
}

-- In a room that is not there.
abbrev pub carol : ClientSocket
carol = record {
  socket = pos 7;
  ssl = some 3;
  ssl_enabled = true;
  chat_room_joined = true;
  joined_chat_room_id = 9;
  client_id = 3;
  client_username = codes "<unk>";
}

abbrev pub digest : Bytes
digest = 7 ∷ zeros 31

abbrev pub lobby : ChatRoom
lobby = record { name = codes "Lobby"; password_hash = [] }

abbrev pub vault : ChatRoom
vault = record { name = codes "Vault"; password_hash = digest }

abbrev pub world : World
world = record {
  server = record {
    client_sockets = alice ∷ bob ∷ carol ∷ [];
    server_state = started;
    unique_client_counter = 3;
    buffer = zeros 4096;
    send_hello_msg = false;
    start_time = 0;
  };
  chat = record { chat_rooms = (1, lobby) ∷ (2, vault) ∷ [] };
  universe = record { counter = 0 };
  events = [];
}
