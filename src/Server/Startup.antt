-- ===== src/Server/Startup.antt =====
-- What the set-up hands to the loop, and how many times the TLS context is freed.
use mathlib.Core.Path.{subst}
use communo.Prelude.{
  ℕ, ◌≡◌, refl, ◌⊎◌, inl, inr, Bool, true, false, not, ◌&&◌, List, [], ◌∷◌, Option, none, some,
  arith, ℤ, ok, runtime_error, Bytes, All, Bool-cases, if◌then◌else◌, Pointer, indeterminate, null,
  at,
}
use communo.Chat.{Row, row_room, load_rooms, load_chat_rooms}
use communo.Server.{ServerState, not_started, started, World}
use communo.Server.Join.{IsHash}
use communo.Server.Requests.{is_closing}
use communo.Server.Main.{set_state}
use communo.Server.Running.{Safe}
use communo.Server.Setup.{
  Opening, Boot, is_error, init_socket, init_entities, Started, running, exited_with,
  stopped_by_dialog, terminated, Storage, guarded, set_up, destroy_server,
}
use communo.Server.Stages.{
  prepared, is_open, new_world, new_boot, greeting_world, load_rooms-HashesWhole,
  init_ssl_context_cases, init_socket_cases,
}

-- Whether the context that the server runs with is one to use, and how often its end frees it.
pub data Context (opening : Opening) (dialog : Bool) (boot : Boot) : Type 0 where
  usable :
      (ctx : ℕ)
      → prepared opening ≡ true
      → boot.ctx ≡ at ctx
      → destroy_server boot ≡ ok (ctx ∷ [])
      → Context opening dialog boot
  missing :
      dialog ≡ true
      → prepared opening ≡ false
      → boot.ctx ≡ null
      → destroy_server boot ≡ ok []
      → Context opening dialog boot
  freed_twice :
      (ctx : ℕ)
      → dialog ≡ true
      → prepared opening ≡ false
      → boot.ctx ≡ at ctx
      → destroy_server boot ≡ ok (ctx ∷ ctx ∷ [])
      → Context opening dialog boot

-- A server at the first test of its state. If there is a socket, its options are set, it is bound, and it
-- listens.
pub record Launched (opening : Opening) (dialog : Bool) (storage : Storage) (boot : Boot)
    : Type 0 where
  pub safe : Safe 0 boot.world
  pub master : boot.master ≡ some opening.descriptor
  pub state :
      boot.world.server.server_state
      ≡ (if is_error opening.descriptor then not_started else started)
  pub listening :
      (is_error opening.descriptor ≡ true)
      ⊎ ((opening.options_set ≡ true) × (opening.binds ≡ true) × (opening.listens ≡ true))
  pub forgiven : (is_error opening.descriptor && not dialog) ≡ false
  pub stored : storage.opens ≡ true
  pub context : Context opening dialog boot

&&-true : (a b : Bool) → (a && b) ≡ true → (a ≡ true) × (b ≡ true)
&&-true a b h = (ground arith, ground arith)

-- The world that the loop begins with.
abbrev first_world : ServerState → ℕ → List Row → Bytes → World
first_world state now rows buffer =
    let w = new_world buffer in
    record w {
      server = record w.server { server_state = state; send_hello_msg = true; start_time = now };
      chat = record { chat_rooms = load_rooms rows [] };
    }

first_world-Safe :
    (state : ServerState) (now : ℕ) (rows : List Row) (buffer : Bytes)
    → All (λ row. IsHash (row_room row).password_hash) rows
    → is_closing state ≡ false
    → Safe 0 (first_world state now rows buffer)
first_world-Safe state now rows buffer h going = record {
  admitted = record { numbered = tt; distinct = tt; secured = tt };
  counted = omega arith;
  whole = load_rooms-HashesWhole rows [] h tt;
  going = going;
}

module _ (dialog : Bool) (opening : Opening) (now : ℕ) (storage : Storage) (buffer : Bytes) where
  abbrev Outcome : Started → Type 0
  Outcome s =
      ((boot : Boot) × (s ≡ running boot) × Launched opening dialog storage boot)
      ⊎ (((dialog ≡ false)
            × ((prepared opening && not (is_error opening.descriptor)) ≡ false)
            × (s ≡ stopped_by_dialog))
          ⊎ (((is_error opening.descriptor ≡ false)
                × (is_open opening ≡ false)
                × (s ≡ exited_with 1))
              ⊎ ((storage.opens ≡ false) × (s ≡ terminated (runtime_error storage.message)))))

  unusable :
      is_error opening.descriptor ≡ true
      → (prepared opening && not (is_error opening.descriptor)) ≡ false
  unusable broken = elim (Bool-cases (prepared opening)) [
    | inl p ↦ rw (p, broken) refl
    | inr p ↦ rw p refl
  ]

  is_open-parts :
      is_open opening ≡ true
      → (opening.options_set ≡ true) × (opening.binds ≡ true) × (opening.listens ≡ true)
  is_open-parts h =
      let (a, rest) = &&-true opening.options_set (opening.binds && opening.listens) h in
      let (b, c) = &&-true opening.binds opening.listens rest in (a, b, c)

  -- The set-up behind the socket.
  Outcome-loaded :
      (state : ServerState) (ctx : Pointer) (freed : List ℕ)
      → All (λ row. IsHash (row_room row).password_hash) storage.rows
      → ((w : World) (m : Option ℤ)
          → Context opening dialog (record { ctx = ctx; master = m; freed = freed; world = w }))
      → is_closing state ≡ false
      → state ≡ (if is_error opening.descriptor then not_started else started)
      → (is_error opening.descriptor && not dialog) ≡ false
      → (is_error opening.descriptor ≡ true)
        ⊎ ((opening.options_set ≡ true) × (opening.binds ≡ true) × (opening.listens ≡ true))
      → Outcome (
          guarded dialog
            (init_entities now storage (record {
              ctx = ctx;
              master = some opening.descriptor;
              freed = freed;
              world = set_state state (greeting_world buffer);
            }))
            running)
  unfolding init_entities load_chat_rooms
  Outcome-loaded state ctx freed h context going stands forgiven listening =
      let w = first_world state now storage.rows buffer in
      elim (Bool-cases storage.opens) [
        | inr shut ↦ inr (inr (inr (shut, rw shut refl)))
        | inl opens ↦ inl (
          record { ctx = ctx; master = some opening.descriptor; freed = freed; world = w },
          rw opens refl,
          record {
            safe = first_world-Safe state now storage.rows buffer h going;
            master = refl;
            state = stands;
            listening = listening;
            forgiven = forgiven;
            stored = opens;
            context = context w (some opening.descriptor);
          },
        )
      ]

  -- The set-up behind the TLS context.
  Context-Outcome :
      (ctx : Pointer) (freed : List ℕ)
      → All (λ row. IsHash (row_room row).password_hash) storage.rows
      → ((w : World) (m : Option ℤ)
          → Context opening dialog (record { ctx = ctx; master = m; freed = freed; world = w }))
      → Outcome (
          guarded dialog
            (init_socket opening
              (record { ctx = ctx; master = none; freed = freed; world = greeting_world buffer }))
            (λ opened. guarded dialog (init_entities now storage opened) running))
  Context-Outcome ctx freed h context =
      let secured : Boot = record {
        ctx = ctx;
        master = none;
        freed = freed;
        world = greeting_world buffer;
      } in
      elim (init_socket_cases opening secured) [
        | inr (inl (sound, shut, e)) ↦ inr (inr (inl (sound, shut, rw e refl)))
        | inr (inr (sound, open_, e)) ↦ rw e (
            Outcome-loaded started ctx freed h context refl (rw sound refl) (rw sound refl)
              (inr (is_open-parts open_)))
        | inl (broken, e) ↦ elim (Bool-cases dialog) [
          | inr ends ↦ inr (inl (ends, unusable broken, rw (e, ends) refl))
          | inl returns ↦ subst Outcome (rw (e, returns) refl) (
              Outcome-loaded not_started ctx freed h context refl (rw broken refl)
                (rw (returns, broken) refl) (inl broken))
        ]
      ]

-- What the set-up comes to, from the start of the process and where each stored digest is absent or
-- whole. It runs the loop, with a server that is safe and whose state is STARTED exactly if there is a
-- socket, and then the socket's options are set and it is bound and listens; its TLS context is the one that was made, and freed once at the end, or, where making or
-- setting it up failed and the dialog about that returned, there is none, or one that was freed and is
-- freed again at the end. Or the dialog ends the program, after such a failure. Or it exits with code 1,
-- where the socket could not be set up; or an exception that nothing catches ends it, where the database
-- does not open.
pub set_up_outcome :
    (dialog : Bool) (opening : Opening) (now : ℕ) (storage : Storage) (buffer : Bytes)
    → All (λ row. IsHash (row_room row).password_hash) storage.rows
    → ((boot : Boot) × (set_up dialog opening now storage (new_boot buffer) ≡ running boot)
        × Launched opening dialog storage boot)
      ⊎ (((dialog ≡ false)
            × ((prepared opening && not (is_error opening.descriptor)) ≡ false)
            × (set_up dialog opening now storage (new_boot buffer) ≡ stopped_by_dialog))
          ⊎ (((is_error opening.descriptor ≡ false)
                × (is_open opening ≡ false)
                × (set_up dialog opening now storage (new_boot buffer) ≡ exited_with 1))
              ⊎ ((storage.opens ≡ false)
                  × (set_up dialog opening now storage (new_boot buffer)
                      ≡ terminated (runtime_error storage.message)))))
unfolding set_up destroy_server
set_up_outcome dialog opening now storage buffer h =
    let start : Boot = record {
      ctx = indeterminate;
      master = none;
      freed = [];
      world = greeting_world buffer;
    } in
    elim (init_ssl_context_cases opening start) [
      | inl (ctx, prep, made, e) ↦
          subst (Outcome dialog opening now storage buffer) (rw (set_up, e) refl) (
            Context-Outcome dialog opening now storage buffer (at ctx) [] h
              (λ w m. usable ctx prep refl refl))
      | inr (inl (unprep, unmade, e)) ↦ elim (Bool-cases dialog) [
        | inr ends ↦ inr (inl (ends, rw unprep refl, rw (set_up, e, ends) refl))
        | inl returns ↦
            subst (Outcome dialog opening now storage buffer) (rw (set_up, e, returns) refl) (
              Context-Outcome dialog opening now storage buffer null [] h
                (λ w m. missing returns unprep refl refl))
      ]
      | inr (inr (ctx, unprep, made, e)) ↦ elim (Bool-cases dialog) [
        | inr ends ↦ inr (inl (ends, rw unprep refl, rw (set_up, e, ends) refl))
        | inl returns ↦
            subst (Outcome dialog opening now storage buffer) (rw (set_up, e, returns) refl) (
              Context-Outcome dialog opening now storage buffer (at ctx) (ctx ∷ []) h
                (λ w m. freed_twice ctx returns unprep refl refl))
      ]
    ]
