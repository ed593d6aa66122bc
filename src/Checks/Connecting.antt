-- ===== src/Checks/Connecting.antt =====
-- A fourth client connects, and the second one leaves.
use communo.Prelude.{
  ℕ, zero, suc, ◌≡◌, refl, arith, true, some, none, ok, ℤ, pos, negsuc, ◌==◌, if◌then◌else◌,
}
use communo.Server.{World}
use communo.Server.Connect.{ready, Round, accepted, waiting, Incoming}
use communo.Server.Admission.{Admitted}
use communo.Server.Requests.{
  Activity, quiet, unread, drop_client, erase_at, shift_down, process_requests, process_loop,
}
use communo.Checks.{integers, bob, world}

-- One wait for the client's answer, and then the handshake is done.
abbrev pub two_rounds : ℕ → Round
two_rounds zero = waiting 5 ready
two_rounds (suc n) = accepted

abbrev pub incoming : Incoming
incoming = record {
  socket = pos 8;
  ssl = some 4;
  fd_set = true;
  now = 0;
  rounds = two_rounds;
  writes = λ k. none;
}

abbrev pub later_world : World
later_world = record world { server = record world.server { unique_client_counter = 4 } }

pub Admitted-world : Admitted later_world.server
Admitted-world = record {
  numbered = (omega arith, (omega arith, (omega arith, tt)));
  distinct = (
    ((λ e. omega (arith, e)), ((λ e. omega (arith, e)), tt)),
    (((λ e. omega (arith, e)), tt), (tt, tt)),
  );
  secured = ((refl, (1, refl)), ((refl, (2, refl)), ((refl, (3, refl)), tt)));
}

abbrev pub leaving : ℤ → Activity
leaving (negsuc n) = quiet
leaving (pos n) = if n == 6 then unread else quiet

-- What is left behind.
abbrev pub after_pass : World
after_pass = drop_client 1 bob later_world

pub pass_run : process_requests integers 0 leaving later_world ≡ ok after_pass
unfolding process_requests process_loop drop_client erase_at shift_down
pass_run = refl
