-- ===== src/Gateways.antt =====
-- What the gateways of sockets share: the middleware and the connection handler of
-- src/modules/conversations/chat.gateway.ts and src/modules/notifications/notifications.gateway.ts.
-- The socket server is a list of emissions to rooms; the logs are left out.
pub mod Chat
pub mod Delivery
use Prim.Native.String.{◌++◌ as str_append}
use nestjs_learn.Prelude.{
  Bool, true, false, Option, none, some, List, [], ◌∷◌, String, if◌then◌else◌,
}
use nestjs_learn.Schema.{Notification}
use nestjs_learn.World.{Result, ok, err, Exception, plain}
use nestjs_learn.Auth.{TokenPayload}
use nestjs_learn.Guards.{extract_socket_auth_user}

-- A socket: the user that `data.authUser` names, its rooms, and whether it is connected.
pub record Socket : Type 0 where
  pub auth_user : Option String
  pub rooms : List String
  pub connected : Bool

unfoldable pub user_room : String → String
user_room user_id = str_append "user:" user_id

-- The middleware of `afterInit`, on the token of the handshake: the socket, or the error that
-- `next` is given; the decoder of cookies is not used.
unfoldable pub after_init :
    (String → Option String)
    → (String → Option TokenPayload)
    → Option String
    → Socket
    → Result Socket
unfolding extract_socket_auth_user
after_init decode verify token socket = elim (extract_socket_auth_user decode verify token) [
  | ok user_id ↦ ok (record socket { auth_user = some user_id })
  | err e ↦ err (plain "Unauthorized")
]

unfoldable pub handle_connection : Socket → Socket
unfolding user_room
handle_connection socket = elim socket.auth_user [
  | none ↦ record socket { connected = false }
  | some user_id ↦ record socket { rooms = user_room user_id ∷ socket.rooms }
]

-- `emitNewNotification`: the rooms that a notification is sent to. Before the server is up there is
-- none.
unfoldable pub emit_new_notification : Bool → String → Notification → List (String × Notification)
unfolding user_room
emit_new_notification server_up user_id payload =
    if server_up then (user_room user_id, payload) ∷ [] else []
