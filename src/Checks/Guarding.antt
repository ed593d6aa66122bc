-- ===== src/Checks/Guarding.antt =====
-- Passes and rounds in which a client asks for the protected room, and what is seen of them.
use communo.Prelude.{
  take-all, length, le_bytes, ◌≤◌, some, ◌∷◌, [], true, get_elem?, All, ◌++◌, codes, ℕ, List, ◌≡◌,
  refl, arith, ◌⊎◌, false, none, ok, ℤ, pos, negsuc, Ends, ◌==◌, if◌then◌else◌, bytes_eq,
}
use communo.Chat.{find, is_empty}
use communo.Server.{ClientSocket, World, clients}
use communo.Server.Send.{send_ssl_packet_to_client_socket}
use communo.Server.Connect.{handle_new_connections}
use communo.Server.Handlers.{finish_join}
use communo.Server.Requests.{
  buffer_size, Activity, quiet, unread, received, fill_buffer, serve_client, process_loop,
  process_requests,
}
use communo.Server.Pool.{fd_add, is_positive, larger, fd_isset, pool_loop, pool_activity}
use communo.Server.Main.{Tick, finish_round, round}
use communo.Server.Join.{join_error, asked, join_request}
use communo.Server.Reach.{Reach, here, next}
use communo.Server.View.{view, requests}
use communo.Server.Simulation.{process_requests-Followed}
use communo.Server.Traces.{Traced, Reach-Traced}
use communo.OpCodes.{opcode_bytes, cmsg_say, smsg_say, smsg_say_ok}
use communo.Server.Rooms.{IsMember, DeliversTo}
use communo.Server.Midway.{begins}
use communo.Server.Audience.{Moment, Entitled, say_stays_in_room}
use communo.Server.Guarded.{Knew, Reach-Guarded}
use communo.Membership.{Request, apply_all}
use communo.Membership.Entry.{IsIn}
use communo.Client.{join_packet}
use communo.Checks.{integers, alice, digest}
use communo.Checks.Connecting.{later_world, Admitted-world}
use communo.Checks.Running.{Safe-later}
use communo.Checks.Joining.{whole}

-- The first client brings the digest, and the second leaves.
abbrev active : ℤ → Activity
active (negsuc n) = quiet
active (pos n) =
    if n == 5 then received (join_packet 2 digest) else if n == 6 then unread else quiet

process_requests-Followed_example :
    Ends
      (λ w'. view w' ≡ apply_all (requests active (clients later_world)) (view later_world))
      (process_requests integers 0 active later_world)
process_requests-Followed_example =
    process_requests-Followed integers 0 active later_world
      (record { going = refl; distinct = Admitted-world.distinct; whole = whole })

abbrev joining : ℤ → Activity
joining (negsuc n) = quiet
joining (pos n) = if n == 5 then received (join_packet 2 digest) else quiet

abbrev joining_tick : Tick
joining_tick = record {
  incoming = none;
  fuel = 0;
  activity = joining;
  now = 0;
  closing_requested = false;
}

abbrev joined_world : World
joined_world =
    finish_join 0 alice 2 (join_error (find 2 later_world.chat.chat_rooms) digest)
      (asked 2 digest later_world)

served : serve_client integers 0 0 alice (join_packet 2 digest) later_world ≡ ok joined_world
served = join_request integers 0 0 alice 2 digest later_world refl (omega arith) refl whole

length-joining : length (join_packet 2 digest) ≤ buffer_size
unfolding opcode_bytes le_bytes
length-joining = omega arith

round_join : round integers (pos 3) joining_tick later_world ≡ ok joined_world
unfolding round pool_activity pool_loop fd_add is_positive larger fd_isset handle_new_connections
    process_requests process_loop finish_round finish_join find bytes_eq is_empty
    send_ssl_packet_to_client_socket
round_join = rw (take-all buffer_size (join_packet 2 digest) length-joining, served) refl

Reach-joined : Reach integers (pos 3) later_world 1 joined_world
Reach-joined = next here refl joining_tick round_join

is_in : IsIn 2 digest 1 (view joined_world)
unfolding finish_join find bytes_eq is_empty fill_buffer
is_in = refl

Reach-Guarded_example :
    IsIn 2 digest 1 (view later_world)
    ⊎ Knew 1 2 digest integers (pos 3) later_world 1 joined_world Reach-joined
unfolding find
Reach-Guarded_example =
    Reach-Guarded 1 2 digest integers (pos 3) later_world 4 1 joined_world (λ e. cc) Safe-later
      (omega arith) refl Reach-joined is_in

Reach-Traced_example :
    (trace : List (ℕ × Request)) × Traced integers
      (pos 3)
      later_world
      1
      joined_world
      Reach-joined
      trace
    × (view joined_world ≡ apply_all trace (view later_world))
Reach-Traced_example =
    Reach-Traced integers (pos 3) later_world 4 1 joined_world Safe-later (omega arith) Reach-joined

abbrev silent_tick : Tick
silent_tick = record {
  incoming = none;
  fuel = 0;
  activity = λ fd. quiet;
  now = 0;
  closing_requested = false;
}

watched : pool_activity (pos 3) joined_world ≡ ok (3 ∷ 5 ∷ 6 ∷ 7 ∷ [], pos 7)
unfolding pool_activity pool_loop fd_add is_positive larger finish_join find bytes_eq is_empty
    fill_buffer
watched = refl

nobody_comes :
    handle_new_connections
      (if fd_isset (pos 3) (3 ∷ 5 ∷ 6 ∷ 7 ∷ []) then none else none)
      0
      joined_world
    ≡ ok joined_world
unfolding handle_new_connections fd_isset
nobody_comes = refl

-- The next pass, before its first client.
abbrev moment : Moment integers (pos 3) later_world
moment = record {
  rounds = 1;
  before = joined_world;
  reached = Reach-joined;
  tick = silent_tick;
  fds = 3 ∷ 5 ∷ 6 ∷ 7 ∷ [];
  max_sd = pos 7;
  accepted = joined_world;
  pooled = watched;
  taken = nobody_comes;
  steps = 0;
  place = 0;
  world = joined_world;
  underway = begins;
}

abbrev alice_inside : ClientSocket
alice_inside = record alice { joined_chat_room_id = 2; chat_room_joined = true }

alice_first : get_elem? (clients joined_world) 0 ≡ some alice_inside
unfolding finish_join find bytes_eq is_empty fill_buffer
alice_first = refl

say_stays_in_room_example :
    (w' : World) × (serve_client integers 0 0 alice_inside
        (opcode_bytes cmsg_say ++ codes "hi")
        joined_world
      ≡ ok w')
    × DeliversTo
        (IsMember 2)
        (opcode_bytes smsg_say ++ codes "hi")
        (clients joined_world)
        (send_ssl_packet_to_client_socket alice_inside
          (opcode_bytes smsg_say_ok)
          (fill_buffer (opcode_bytes cmsg_say ++ codes "hi") joined_world))
        w'
    × All
        (λ c. (¬ IsMember 2 c) ⊎ Entitled 2 digest integers (pos 3) later_world moment c)
        (clients joined_world)
unfolding find
say_stays_in_room_example =
    say_stays_in_room 2 digest integers (pos 3) later_world moment 4 (λ e. cc) Safe-later
      (omega arith) refl alice_inside (codes "hi") alice_first refl refl
