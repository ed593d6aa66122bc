-- ===== src/Server/Audience.antt =====
-- Who hears what is said in a protected room.
use mathlib.Core.Path.{subst}
use mathlib.Core.List.{Memᴰ}
use mathlib.Core.List.Memᴰ.{append_cases, append_left}
use communo.Prelude.{
  ℕ, suc, ◌+◌, ◌^◌, ◌<◌, ◌≡◌, ◌≢◌, refl, sym, ◌∙◌, ap, ◌⊎◌, inl, inr, true, false, List, [], ◌∷◌,
  ◌++◌, none, some, arith, Bytes, ℤ, ok, All, get_elem?, Bool-cases, Option-cases, if◌then◌else◌,
  ◌==◌,
}
use communo.OpCodes.{opcode_bytes, cmsg_say, smsg_say, smsg_say_ok}
use communo.Chat.{check_room_id, find, is_found}
use communo.Server.{ClientSocket, World, DoubleArith, clients}
use communo.Server.Requests.{fill_buffer, serve_client}
use communo.Server.Connect.{handle_new_connections}
use communo.Server.Send.{send_ssl_packet_to_client_socket}
use communo.Server.Admission.{Distinct, handle_new_connections-Accepted}
use communo.Server.Pool.{fd_isset, pool_activity}
use communo.Server.Main.{Tick, reported}
use communo.Server.Running.{Safe}
use communo.Server.Reach.{Reach, Reach-Safe}
use communo.Server.Rooms.{IsMember, DeliversTo, say_reaches_room}
use communo.Server.View.{view, standing, membership}
use communo.Server.Midway.{Underway, Midway, Underway-Midway}
use communo.Server.Entering.{Brought, requests-Brought}
use communo.Server.Traces.{Accepted-Ready, Accepted-view, Reach-Traced}
use communo.Server.Guarded.{Knew, Traced-Knew, Arrival-closed}
use communo.Membership.{apply_all, apply_all-append}
use communo.Membership.Entry.{IsIn, Stands, apply_all-IsIn, apply_all-Stands}

All-Mem :
    (P : ClientSocket → Type 0) (all : List ClientSocket) (c : ClientSocket)
    → All P all
    → Memᴰ c all
    → P c
All-Mem P [] c h m = elim m [ ]
All-Mem P (d ∷ all) c h (Memᴰ.head same) = subst P (sym same) h.0
All-Mem P (d ∷ all) c h (Memᴰ.tail m) = All-Mem P all c h.1 m

Mem-All :
    (P : ClientSocket → Type 0) (all : List ClientSocket)
    → ((c : ClientSocket) → Memᴰ c all → P c)
    → All P all
Mem-All P [] f = tt
Mem-All P (c ∷ all) f = (f c (Memᴰ.head refl), Mem-All P all (λ d m. f d (Memᴰ.tail m)))

Stands-known :
    (room : ℕ) (stored : Bytes) (w : World)
    → Stands room stored (view w)
    → check_room_id w.chat room ≡ true
unfolding check_room_id is_found
Stands-known room stored w s = elim (Option-cases (find room w.chat.chat_rooms)) [
  | inl none_there ↦ absurd (cc (rw none_there at s))
  | inr (kept, there) ↦ rw there refl
]

-- Where all numbers are different, the view has of each client where it stands.
membership-standing :
    (all : List ClientSocket) (c : ClientSocket)
    → Distinct all
    → Memᴰ c all
    → membership all c.client_id ≡ some (standing c)
membership-standing [] c d m = elim m [ ]
membership-standing (x ∷ all) c d (Memᴰ.head same) =
    let me : (c.client_id == x.client_id) ≡ true = rw same (ground arith) in rw (me, same) refl
membership-standing (x ∷ all) c d (Memᴰ.tail m) =
    let apart = All-Mem (λ y. y.client_id ≢ x.client_id) all c d.0 m in
    let other : (c.client_id == x.client_id) ≡ false = ground arith in
    rw other (membership-standing all c d.1 m)

-- A moment of a run: in the pass of a round, after some of the clients.
pub record Moment (lib : DoubleArith) (master : ℤ) (start : World) : Type 0 where
  pub rounds : ℕ
  pub before : World
  pub reached : Reach lib master start rounds before
  pub tick : Tick
  pub fds : List ℕ
  pub max_sd : ℤ
  pub accepted : World
  pub pooled : pool_activity master before ≡ ok (fds, max_sd)
  pub taken :
      handle_new_connections (if fd_isset master fds then tick.incoming else none) tick.fuel before
      ≡ ok accepted
  pub steps : ℕ
  pub place : ℕ
  pub world : World
  pub underway : Underway lib tick.now (reported fds tick.activity) accepted steps place world

module _ (room : ℕ) (stored : Bytes) (lib : DoubleArith) (master : ℤ) (start : World)
    (m : Moment lib master start) where
  -- The client was in the room at the start, or has since sent a request to join it with its digest.
  abbrev pub Entitled : ClientSocket → Type 0
  Entitled c =
      IsIn room stored c.client_id (view start)
      ⊎ Knew c.client_id room stored lib master start m.rounds m.before m.reached
      ⊎ Brought c.client_id room stored m.tick.activity (clients m.accepted)

  module _ (limit : ℕ) (full : stored ≢ []) (safe : Safe limit start)
      (fits : limit + suc m.rounds < 2 ^ 64) (stands : Stands room stored (view start)) where
    moment_seen :
        Midway lib m.tick.now (reported m.fds m.tick.activity) m.accepted m.place m.world
        × Stands room stored (view m.world)
        × ((who : ℕ)
            → IsIn room stored who (view m.world)
            → IsIn room stored who (view start)
              ⊎ Knew who room stored lib master start m.rounds m.before m.reached
              ⊎ Brought who room stored m.tick.activity (clients m.accepted))
    moment_seen =
        let s = Reach-Safe lib master start limit m.rounds m.before safe (omega arith) m.reached in
        let a =
          handle_new_connections-Accepted (if fd_isset master m.fds then m.tick.incoming else none)
            m.tick.fuel m.before m.accepted s.admitted (omega (arith, s.counted)) m.taken in
        let ready = Accepted-Ready (limit + m.rounds) m.before m.accepted s a in
        let mid =
          Underway-Midway lib m.tick.now (reported m.fds m.tick.activity) m.accepted m.steps m.place
            m.world ready m.underway in
        let (earlier, traced, seen) =
          Reach-Traced lib master start limit m.rounds m.before safe (omega arith) m.reached in
        let (new, arrival, came) = Accepted-view m.before m.accepted s.admitted a in
        let all = (earlier ++ new) ++ mid.trace in
        let whole : view m.world ≡ apply_all all (view start) =
          mid.seen
          ∙ ap (apply_all mid.trace)
              (came ∙ ap (apply_all new) seen ∙ sym (apply_all-append earlier new (view start)))
          ∙ sym (apply_all-append (earlier ++ new) mid.trace (view start)) in
        (
          mid,
          subst (Stands room stored) (sym whole)
              (apply_all-Stands room stored all (view start) stands),
          λ who h.
              elim (apply_all-IsIn room stored all who (view start) stands
                (subst (IsIn room stored who) whole h)) [
                  | inl at_first ↦ inl at_first
                  | inr (request, o, mem) ↦ inr (elim (append_cases (earlier ++ new) mem) [
                    | inl old ↦ elim (append_cases earlier old) [
                      | inl x ↦ inl (
                          Traced-Knew who room stored lib master start full m.rounds m.before
                            m.reached earlier request traced o x)
                      | inr x ↦
                          Arrival-closed who room stored lib master start m.before m.accepted new
                            request arrival o x
                    ]
                    | inr x ↦
                        let inside = subst (Memᴰ (who, request)) (sym mid.rest) (append_left _ x) in
                        inr (
                          requests-Brought who room stored m.tick.activity m.fds full
                            (clients m.accepted) request o inside)
                  ])
                ],
        )

    outsider_or_let_in :
        (c : ClientSocket) → Memᴰ c (clients m.world) → (¬ IsMember room c) ⊎ Entitled c
    outsider_or_let_in c listed =
        let (mid, known, entered) = moment_seen in
        let place = membership-standing (clients m.world) c mid.ready.distinct listed in
        elim (Bool-cases c.chat_room_joined) [
          | inr out ↦ inl (λ member. cc (out, member.1))
          | inl joined ↦ elim (Bool-cases (c.joined_chat_room_id == room)) [
            | inr elsewhere ↦ inl (λ member. ground (arith, member.2, elsewhere))
            | inl there ↦
                let same : c.joined_chat_room_id ≡ room = ground arith in
                inr (entered c.client_id (place ∙ rw (joined, same) refl))
          ]
        ]

    -- In any pass of a run of the server from a safe start, for as many rounds as fit its counter of
    -- clients: what a client in a room says, if the room was protected at the start, goes to the
    -- members of the room with a finished TLS handshake, once each and in order, and to no other
    -- client; and every client that is listed then is either no such member, or was in the room at
    -- the start, or has sent, in one of the rounds or in this pass, a request to join the room
    -- with its stored digest.
    pub say_stays_in_room :
        (client : ClientSocket) (text : Bytes)
        → get_elem? (clients m.world) m.place ≡ some client
        → client.chat_room_joined ≡ true
        → client.joined_chat_room_id ≡ room
        → (w' : World) × (serve_client lib m.tick.now m.place client
              (opcode_bytes cmsg_say ++ text)
              m.world
            ≡ ok w')
          × DeliversTo
              (IsMember room)
              (opcode_bytes smsg_say ++ text)
              (clients m.world)
              (send_ssl_packet_to_client_socket client
                (opcode_bytes smsg_say_ok)
                (fill_buffer (opcode_bytes cmsg_say ++ text) m.world))
              w'
          × All (λ c. (¬ IsMember room c) ⊎ Entitled c) (clients m.world)
    say_stays_in_room client text here joined same =
        let (mid, known, entered) = moment_seen in
        let exists = Stands-known room stored m.world known in
        let (w', served, delivered) =
          say_reaches_room lib m.tick.now m.place client text m.world here joined
            (rw same exists) in
        (
          w',
          served,
          subst
              (λ r.
                DeliversTo (IsMember r) (opcode_bytes smsg_say ++ text) (clients m.world)
                  (send_ssl_packet_to_client_socket client (opcode_bytes smsg_say_ok)
                    (fill_buffer (opcode_bytes cmsg_say ++ text) m.world))
                  w')
              same delivered,
          Mem-All (λ c. (¬ IsMember room c) ⊎ Entitled c) (clients m.world) outsider_or_let_in,
        )
