-- ===== src/Server/Frame.antt =====
-- What a handler leaves alone: who is connected and how, and the server's own state.
use communo.Prelude.{
  ◌||◌, ◌==◌, ℕ, zero, suc, ◌≡◌, refl, ◌∙◌, ap, sym, Bool, true, false, not, List, [], ◌∷◌, ◌++◌,
  append_assoc, append-nil, some, arith, Bytes, if◌then◌else◌, length, map, set, get_elem?,
}
use communo.Server.{ClientSocket, Event, World, clients, buffer_of}
use communo.Server.Send.{send_ssl_packet_to_client_socket}
use communo.Server.Handlers.{broadcast_loop, say_loop, set_client, finish_join}

-- A client less its room: what only a new connection or a disconnection changes.
abbrev pub stripped : ClientSocket → ClientSocket
stripped client = record client { chat_room_joined = false; joined_chat_room_id = 0 }

abbrev pub connections : World → List ClientSocket
connections w = map stripped (clients w)

-- From `w` to `w'` the connections stay, and of the server's members only rooms and the contents of
-- the buffer may differ; what was done before stays done.
pub record Keeps (w w' : World) : Type 0 where
  pub connected : connections w' ≡ connections w
  pub state : w'.server.server_state ≡ w.server.server_state
  pub counted : w'.server.unique_client_counter ≡ w.server.unique_client_counter
  pub greeting : w'.server.send_hello_msg ≡ w.server.send_hello_msg
  pub started_at : w'.server.start_time ≡ w.server.start_time
  pub buffered : length (buffer_of w') ≡ length (buffer_of w)
  pub history : (events : List Event) × (w'.events ≡ w.events ++ events)

pub Keeps-refl : (w : World) → Keeps w w
Keeps-refl w = record {
  connected = refl;
  state = refl;
  counted = refl;
  greeting = refl;
  started_at = refl;
  buffered = refl;
  history = ([], sym (append-nil w.events));
}

pub Keeps-trans : (u v w : World) → Keeps u v → Keeps v w → Keeps u w
Keeps-trans u v w p q =
    let (first, e) = p.history in
    let (second, f) = q.history in
    record {
      connected = q.connected ∙ p.connected;
      state = q.state ∙ p.state;
      counted = q.counted ∙ p.counted;
      greeting = q.greeting ∙ p.greeting;
      started_at = q.started_at ∙ p.started_at;
      buffered = q.buffered ∙ p.buffered;
      history = (first ++ second, f ∙ ap (λ x. x ++ second) e ∙ append_assoc u.events first second);
    }

pub send-Keeps :
    (client : ClientSocket) (packet : Bytes) (w : World)
    → Keeps w (send_ssl_packet_to_client_socket client packet w)
unfolding send_ssl_packet_to_client_socket
send-Keeps client packet w = record {
  connected = refl;
  state = refl;
  counted = refl;
  greeting = refl;
  started_at = refl;
  buffered = refl;
  history = (_, refl);
}

-- A change of the singletons alone.
pub singletons-Keeps : (w w' : World) → w'.server ≡ w.server → w'.events ≡ w.events → Keeps w w'
singletons-Keeps w w' s e = record {
  connected = ap (λ x. map stripped x.client_sockets) s;
  state = ap (λ x. x.server_state) s;
  counted = ap (λ x. x.unique_client_counter) s;
  greeting = ap (λ x. x.send_hello_msg) s;
  started_at = ap (λ x. x.start_time) s;
  buffered = ap (λ x. length x.buffer) s;
  history = ([], e ∙ sym (append-nil w.events));
}

map-set :
    (all : List ClientSocket) (i : ℕ) (old new : ClientSocket)
    → get_elem? all i ≡ some old
    → stripped new ≡ stripped old
    → map stripped (set all i new) ≡ map stripped all
map-set [] i old new h e = refl
map-set (c ∷ all) zero old new h e =
    let same : c ≡ old = ground arith in ap (λ x. x ∷ map stripped all) (e ∙ ap stripped (sym same))
map-set (c ∷ all) (suc i) old new h e = ap (◌∷◌ (stripped c)) (map-set all i old new h e)

pub set_client-Keeps :
    (i : ℕ) (old new : ClientSocket) (w : World)
    → get_elem? (clients w) i ≡ some old
    → stripped new ≡ stripped old
    → Keeps w (set_client i new w)
set_client-Keeps i old new w h e = record {
  connected = map-set (clients w) i old new h e;
  state = refl;
  counted = refl;
  greeting = refl;
  started_at = refl;
  buffered = refl;
  history = ([], sym (append-nil w.events));
}

pub if-Keeps : (b : Bool) (w x y : World) → Keeps w x → Keeps w y → Keeps w (if b then x else y)
if-Keeps true w x y p q = p
if-Keeps false w x y p q = q

pub finish_join-Keeps :
    (i : ℕ) (client : ClientSocket) (id error : ℕ) (w : World)
    → get_elem? (clients w) i ≡ some client
    → Keeps w (finish_join i client id error w)
unfolding finish_join
finish_join-Keeps i client id error w h =
    let joined = record client { joined_chat_room_id = id; chat_room_joined = true } in
    let moved = set_client-Keeps i client joined w h refl in
    if-Keeps _ w _ _ (Keeps-trans w (set_client i joined w) _ moved (send-Keeps joined _ _))
      (send-Keeps client _ w)

pub broadcast_loop-Keeps :
    (all : List ClientSocket) (packet : Bytes) (w : World) → Keeps w (broadcast_loop all packet w)
unfolding broadcast_loop
broadcast_loop-Keeps [] packet w = Keeps-refl w
broadcast_loop-Keeps (client ∷ rest) packet w =
    let next =
      if not client.ssl_enabled then w else send_ssl_packet_to_client_socket client packet w in
    Keeps-trans w next _
      (if-Keeps (not client.ssl_enabled) w w _ (Keeps-refl w) (send-Keeps client packet w))
      (broadcast_loop-Keeps rest packet next)

pub say_loop-Keeps :
    (all : List ClientSocket) (room_id : ℕ) (packet : Bytes) (w : World)
    → Keeps w (say_loop all room_id packet w)
unfolding say_loop
say_loop-Keeps [] room_id packet w = Keeps-refl w
say_loop-Keeps (client ∷ rest) room_id packet w =
    let sent = send_ssl_packet_to_client_socket client packet w in
    let elsewhere = not (client.joined_chat_room_id == room_id) || not client.chat_room_joined in
    let next = if not client.ssl_enabled then w else if elsewhere then w else sent in
    Keeps-trans w next _
      (if-Keeps (not client.ssl_enabled) w w _ (Keeps-refl w)
        (if-Keeps elsewhere w w sent (Keeps-refl w) (send-Keeps client packet w)))
      (say_loop-Keeps rest room_id packet next)
