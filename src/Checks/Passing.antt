-- ===== src/Checks/Passing.antt =====
-- The clients in the loop of the server.
use communo.Prelude.{
  Bytes, ◌≡◌, refl, arith, ok, codes, ◌++◌, [], ◌∷◌, length, ℤ, pos, negsuc, All, Ends, ◌==◌,
  if◌then◌else◌,
}
use communo.SharedDefinitions.{err_ok}
use communo.Server.{World, ssl_write, clients, shutdown_socket, close_socket, ssl_free}
use communo.Server.Requests.{
  Activity, quiet, unread, received, drop_client, emit, set_clients, process_requests, serve_client,
}
use communo.Server.Frame.{connections}
use communo.Server.Erase.{after_free, drop_client_releases}
use communo.Server.Passes.{Passed, survivors, process_requests-Passed}
use communo.Server.Listing.{Fits, listed, client_list_answered}
use communo.OpCodes.{opcode_bytes, cmsg_get_client_list}
use communo.Client.Replies.{process_reply, client_list}
use communo.Checks.{integers, alice, bob, carol, world}

-- Alice sends something, from Bob nothing can be read, Carol is quiet.
abbrev activity : ℤ → Activity
activity (negsuc n) = quiet
activity (pos n) = if n == 5 then received (codes "hi!") else if n == 6 then unread else quiet

process_requests-Passed_example :
    Ends
      (Passed (survivors activity (connections world)) world)
      (process_requests integers 0 activity world)
process_requests-Passed_example = process_requests-Passed integers 0 activity world refl

drop_client_releases_example :
    drop_client (length (alice ∷ [])) bob world
    ≡ emit
        (shutdown_socket (pos 6) ∷ close_socket (pos 6) ∷ ssl_free 2 ∷ after_free 2 6 (carol ∷ []))
        (set_clients ((alice ∷ []) ++ (carol ∷ [])) world)
drop_client_releases_example =
    drop_client_releases (alice ∷ []) bob (carol ∷ []) 2 6 world refl refl refl

All-Fits-world : All (Fits 1) (clients world)
All-Fits-world =
    ((omega arith, omega arith), ((omega arith, omega arith), ((omega arith, omega arith), tt)))

client_list_answered_example :
    (w' : World) × (reply : Bytes) × (serve_client integers 0 0 alice
        (opcode_bytes cmsg_get_client_list)
        world
      ≡ ok w')
    × (clients w' ≡ clients world)
    × (w'.events ≡ world.events ++ (ssl_write alice.ssl reply ∷ []))
    × (process_reply 0 5 reply
        ≡ ok (client_list err_ok (codes "[valid client list]\n" ++ listed 1 (clients world))))
client_list_answered_example =
    client_list_answered integers 0 0 0 5 alice world refl All-Fits-world (omega arith)
