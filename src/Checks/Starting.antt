-- ===== src/Checks/Starting.antt =====
-- Set-ups that succeed and that fail.
use communo.Prelude.{
  ℕ, ◌+◌, ◌-◌, ◌≡◌, refl, arith, ◌⊎◌, inl, Bool, true, false, not, ◌&&◌, List, [], ◌∷◌, some, none,
  ok, pos, length, get_elem?, codes, runtime_error, All, Ends,
}
use communo.Chat.{row_room}
use communo.Client.Setup.{Network, Tls}
use communo.Server.Setup.{
  Process, goes_on, init_daemon, Opening, Boot, running, stopped_by_dialog, terminated, Storage,
  exited_with, is_error, set_up,
}
use communo.Client.Polling.{
  Poll, closed, server_disconnected, tls_read, process_reply_if_any, runs, reply_thread,
}
use communo.Client.Reading.{EndedBy, reply_thread-Ends}
use communo.Server.Daemon.{init_daemon_closes}
use communo.Server.Stages.{prepared, is_open, new_boot}
use communo.Server.Startup.{Launched, set_up_outcome}
use communo.Server.Join.{IsHash}
use communo.Checks.{zeros}

abbrev network : Network
network = record { descriptor = pos 3; address = true; connects = true }

-- The server's certificate does not verify.
abbrev tls : Tls
tls = record {
  ctx = some 1;
  min_version = true;
  trust_store = true;
  ssl = some 2;
  set_fd = true;
  set_host = true;
  handshake = true;
  verified = false;
}

-- The private key is not that of the certificate.
abbrev opening : Opening
opening = record {
  ctx = some 1;
  min_version = true;
  certificate = true;
  key = true;
  key_matches = false;
  descriptor = pos 3;
  options_set = true;
  binds = true;
  listens = true;
}

abbrev storage : Storage
storage = record {
  opens = true;
  message = [];
  rows = record { id = pos 1; name = some (codes "Lobby"); password_hash = none } ∷ [];
}

open_rows : All (λ row. IsHash (row_room row).password_hash) storage.rows
unfolding row_room
open_rows = (inl refl, tt)

set_up_outcome_example :
    ((boot : Boot) × (set_up true opening 7 storage (new_boot (zeros 4096)) ≡ running boot)
      × Launched opening true storage boot)
    ⊎ (((◌≡◌ {A = Bool} true false)
          × ((prepared opening && not (is_error opening.descriptor)) ≡ false)
          × (set_up true opening 7 storage (new_boot (zeros 4096)) ≡ stopped_by_dialog))
        ⊎ (((is_error opening.descriptor ≡ false)
              × (is_open opening ≡ false)
              × (set_up true opening 7 storage (new_boot (zeros 4096)) ≡ exited_with 1))
            ⊎ ((storage.opens ≡ false)
                × (set_up true opening 7 storage (new_boot (zeros 4096))
                    ≡ terminated (runtime_error storage.message)))))
set_up_outcome_example = set_up_outcome true opening 7 storage (zeros 4096) open_rows

abbrev process : Process
process = record { fork = pos 0; setsid = pos 10; chdir = pos 0; limit = pos 1024 }

init_daemon_closes_example :
    (closed : List ℕ) × (init_daemon true process ≡ goes_on closed)
    × (length closed ≡ 1024 + 1)
    × (get_elem? closed (1024 - 1) ≡ some 1)
init_daemon_closes_example =
    init_daemon_closes process 1024 1 refl refl refl (inl refl) (omega arith)

-- The server has closed the connection.
abbrev gone : ℕ → Poll
gone k = record {
  running = true;
  result = pos 1;
  interrupted = false;
  invalid = false;
  error = false;
  ready = true;
  read = closed;
  ping_start = 0;
  now = 0;
}

-- The thread goes on, and says so in each round.
gone_run :
    reply_thread gone 3 0 []
    ≡ ok (runs (server_disconnected ∷ server_disconnected ∷ server_disconnected ∷ []))
unfolding reply_thread process_reply_if_any tls_read
gone_run = refl

reply_thread-Ends_example : Ends (EndedBy gone) (reply_thread gone 3 0 [])
reply_thread-Ends_example = reply_thread-Ends gone 3 0 []
