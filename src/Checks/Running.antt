-- ===== src/Checks/Running.antt =====
-- The server from its start on: a round in which a client leaves, and the end that a signal asks for.
use communo.Prelude.{
  ℕ, zero, suc, ◌≡◌, ◌≤◌, ◌<◌, ◌+◌, refl, arith, ◌⊎◌, true, false, ◌∷◌, some, none, ok, undefined,
  pos, Ends, All, get_elem?,
}
use communo.Server.{ClientSocket, clients}
use communo.Server.Connect.{handle_new_connections}
use communo.Server.Requests.{drop_client, erase_at, shift_down, process_loop, process_requests}
use communo.Server.Pool.{fd_add, is_positive, larger, fd_isset, pool_loop, pool_activity}
use communo.Server.Watching.{descriptors, pool_activity_bounds}
use communo.Server.Main.{Tick, finish_round, round, run_server}
use communo.Server.Running.{Safe}
use communo.Server.Reach.{Reach, here, next, Reach-Safe}
use communo.Server.Stopping.{IsPrompt}
use communo.Server.Ending.{Ended, run_server-Ended}
use communo.Checks.{integers, world}
use communo.Checks.Connecting.{incoming, later_world, Admitted-world, leaving, after_pass}
use communo.Checks.Joining.{whole}

pub Safe-later : Safe 4 later_world
Safe-later = record {
  admitted = Admitted-world;
  counted = omega arith;
  whole = whole;
  going = refl;
}

-- The second client leaves, and nobody connects.
abbrev leaving_tick : Tick
leaving_tick = record {
  incoming = none;
  fuel = 0;
  activity = leaving;
  now = 0;
  closing_requested = false;
}

round_run : round integers (pos 3) leaving_tick later_world ≡ ok after_pass
unfolding round pool_activity pool_loop fd_add is_positive larger fd_isset handle_new_connections
    process_requests process_loop drop_client erase_at shift_down finish_round
round_run = refl

Reach-after_pass : Reach integers (pos 3) later_world 1 after_pass
Reach-after_pass = next here refl leaving_tick round_run

Reach-Safe_example : Safe (4 + 1) after_pass
Reach-Safe_example =
    Reach-Safe integers (pos 3) later_world 4 1 after_pass Safe-later (omega arith) Reach-after_pass

-- Then one connects, and the end is asked for.
abbrev ticks : ℕ → Tick
ticks zero = leaving_tick
ticks (suc n) = record {
  incoming = some incoming;
  fuel = 2;
  activity = leaving;
  now = 0;
  closing_requested = true;
}

run_server-Ended_example :
    Ends (Ended (some 7)) (run_server integers (some 7) (pos 3) ticks 3 later_world)
run_server-Ended_example =
    run_server-Ended integers (some 7) (pos 3) ticks 1 4 later_world Safe-later refl (omega arith)
      prompt refl
  where
    prompt : (i : ℕ) → IsPrompt (ticks i).incoming (ticks i).fuel
    prompt zero = tt
    prompt (suc n) = (1, refl, tt)

pool_activity_bounds_example :
    ((top : ℕ) × (pool_activity (pos 3) world ≡ ok (3 ∷ descriptors (clients world), pos top))
      × All (λ fd. (fd ≤ top) × (fd < 1024)) (3 ∷ descriptors (clients world)))
    ⊎ ((i : ℕ) × (client : ClientSocket) × (fd : ℕ) × (get_elem? (clients world) i ≡ some client)
        × (client.socket ≡ pos fd)
        × (1024 ≤ fd)
        × (pool_activity (pos 3) world ≡ undefined))
pool_activity_bounds_example = pool_activity_bounds 3 world (omega arith)
