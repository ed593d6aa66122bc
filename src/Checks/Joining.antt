-- ===== src/Checks/Joining.antt =====
-- Joining a room.
use communo.Prelude.{◌≡◌, refl, arith, inl, inr, ok}
use communo.Server.Requests.{serve_client}
use communo.Server.Verdicts.{Verdict, JoinAnswer, join_answered}
use communo.Server.{World}
use communo.Server.Join.{HashesWhole}
use communo.Client.{join_packet}
use communo.Checks.{integers, alice, digest, world}

pub whole : HashesWhole world.chat.chat_rooms
whole = (inl refl, (inr refl, tt))

-- With the hash of the protected room.
join_answered_example :
    (verdict : Verdict) × (w' : World) × (serve_client integers 0 0 alice
        (join_packet 2 digest)
        world
      ≡ ok w')
    × JoinAnswer verdict 0 alice 2 digest world w'
join_answered_example =
    join_answered integers 0 0 alice 2 digest world refl (omega arith) refl whole
