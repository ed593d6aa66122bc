-- ===== src/Server/Stages.antt =====
-- How the stages of the set-up end.
use communo.Prelude.{
  ℕ, ◌≡◌, refl, ◌⊎◌, inl, inr, Bool, true, false, ◌&&◌, List, [], ◌∷◌, ◌++◌, none, some, Bytes, All,
  All-append, to_word, Bool-cases, Option-cases, indeterminate, null, at,
}
use communo.Chat.{ChatRoom, Rooms, Row, find, emplace, row_room, load_rooms}
use communo.Server.{not_started, started, World}
use communo.Server.Join.{IsHash, HashesWhole}
use communo.Server.Main.{set_state}
use communo.Server.Setup.{
  Opening, Boot, threw, passed, exited, init_ssl_context, is_error, init_socket,
}

-- `m_ctx` and the context that was made.
abbrev pub prepared : Opening → Bool
prepared opening = elim opening.ctx [
  | none ↦ false
  | some ctx ↦ opening.min_version && (opening.certificate && (opening.key && opening.key_matches))
]

-- `Server::Server`, with the singletons that the process starts with.
abbrev pub new_world : Bytes → World
new_world buffer = record {
  server = record {
    client_sockets = [];
    server_state = not_started;
    unique_client_counter = 0;
    buffer = buffer;
    send_hello_msg = false;
    start_time = 0;
  };
  chat = record { chat_rooms = [] };
  universe = record { counter = 0 };
  events = [];
}

abbrev pub new_boot : Bytes → Boot
new_boot buffer = record {
  ctx = indeterminate;
  master = none;
  freed = [];
  world = new_world buffer;
}

abbrev pub greeting_world : Bytes → World
greeting_world buffer =
    let w = new_world buffer in record w { server = record w.server { send_hello_msg = true } }

emplace-HashesWhole :
    (id : ℕ) (room : ChatRoom) (rooms : Rooms)
    → IsHash room.password_hash
    → HashesWhole rooms
    → HashesWhole (emplace id room rooms)
unfolding emplace
emplace-HashesWhole id room rooms h whole = elim (Option-cases (find id rooms)) [
  | inl absent ↦
      rw (emplace, absent)
        (All-append (λ entry. IsHash entry.1.password_hash) rooms ((id, room) ∷ []) whole (h, tt))
  | inr (old, there) ↦ rw (emplace, there) whole
]

pub load_rooms-HashesWhole :
    (rows : List Row) (rooms : Rooms)
    → All (λ row. IsHash (row_room row).password_hash) rows
    → HashesWhole rooms
    → HashesWhole (load_rooms rows rooms)
unfolding load_rooms
load_rooms-HashesWhole [] rooms h whole = whole
load_rooms-HashesWhole (row ∷ rows) rooms h whole =
    load_rooms-HashesWhole rows (emplace (to_word 128 row.id) (row_room row) rooms) h.1
      (emplace-HashesWhole (to_word 128 row.id) (row_room row) rooms h.0 whole)

-- How `InitSSL` ends: with a context that is not freed, or with none, or with one that is.
pub init_ssl_context_cases :
    (opening : Opening) (boot : Boot)
    → ((ctx : ℕ) × (prepared opening ≡ true)
        × (opening.ctx ≡ some ctx)
        × (init_ssl_context opening boot ≡ passed (record boot { ctx = at ctx })))
      ⊎ (((prepared opening ≡ false)
            × (opening.ctx ≡ none)
            × (init_ssl_context opening boot ≡ threw (record boot { ctx = null })))
          ⊎ ((ctx : ℕ) × (prepared opening ≡ false)
              × (opening.ctx ≡ some ctx)
              × (init_ssl_context opening boot
                  ≡ threw (record boot { ctx = at ctx; freed = boot.freed ++ (ctx ∷ []) }))))
unfolding init_ssl_context
init_ssl_context_cases opening boot = elim (Option-cases opening.ctx) [
  | inl unmade ↦ inr (inl (rw unmade refl, unmade, rw unmade refl))
  | inr (ctx, made) ↦ elim (Bool-cases opening.min_version) [
    | inr a ↦ inr (inr (ctx, rw (made, a) refl, made, rw (made, a) refl))
    | inl a ↦ elim (Bool-cases opening.certificate) [
      | inr b ↦ inr (inr (ctx, rw (made, a, b) refl, made, rw (made, a, b) refl))
      | inl b ↦ elim (Bool-cases opening.key) [
        | inr d ↦ inr (inr (ctx, rw (made, a, b, d) refl, made, rw (made, a, b, d) refl))
        | inl d ↦ elim (Bool-cases opening.key_matches) [
          | inr e ↦ inr (inr (ctx, rw (made, a, b, d, e) refl, made, rw (made, a, b, d, e) refl))
          | inl e ↦ inl (ctx, rw (made, a, b, d, e) refl, made, rw (made, a, b, d, e) refl)
        ]
      ]
    ]
  ]
]

-- The socket takes connections.
abbrev pub is_open : Opening → Bool
is_open opening = opening.options_set && (opening.binds && opening.listens)

pub init_socket_cases :
    (opening : Opening) (boot : Boot)
    → ((is_error opening.descriptor ≡ true)
        × (init_socket opening boot ≡ threw (record boot { master = some opening.descriptor })))
      ⊎ (((is_error opening.descriptor ≡ false)
            × (is_open opening ≡ false)
            × (init_socket opening boot ≡ exited 1))
          ⊎ ((is_error opening.descriptor ≡ false)
              × (is_open opening ≡ true)
              × (init_socket opening boot
                  ≡ passed (record boot {
                    master = some opening.descriptor;
                    world = set_state started boot.world;
                  }))))
unfolding init_socket
init_socket_cases opening boot = elim (Bool-cases (is_error opening.descriptor)) [
  | inl a ↦ inl (a, rw a refl)
  | inr a ↦ elim (Bool-cases opening.options_set) [
    | inr b ↦ inr (inl (a, rw b refl, rw (a, b) refl))
    | inl b ↦ elim (Bool-cases opening.binds) [
      | inr d ↦ inr (inl (a, rw (b, d) refl, rw (a, b, d) refl))
      | inl d ↦ elim (Bool-cases opening.listens) [
        | inr e ↦ inr (inl (a, rw (b, d, e) refl, rw (a, b, d, e) refl))
        | inl e ↦ inr (inr (a, rw (b, d, e) refl, rw (a, b, d, e) refl))
      ]
    ]
  ]
]
