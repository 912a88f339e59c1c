-- ===== src/Core/Ipc.antt =====
-- crates/core/src/ipc.rs: mailboxes of messages between endpoints. Each of the two maps has a mutex
-- of its own, and a method locks one after the other: a definition here is one locked section, or
-- the method that runs its sections with nothing between them. An identifier of ulid is a number.
pub mod Interleaving
use Prim.Native.String.{◌++◌ as str_append}
use tordex.Prelude.{
  ℕ, String, Option, some, none, Bool, true, false, List, [], ◌∷◌, ◌++◌, nat_eq, length, or_default,
  Result, ok, err, if◌then◌else◌,
}
use tordex.Prelude.Map.{Map, get, contains_key, insert, remove}

pub record Message : Type 0 where
  pub id : ℕ
  pub source : ℕ
  pub target : ℕ
  pub kind : String
  pub payload : List ℕ
  pub reply_to : Option ℕ

pub record InMemoryIpc : Type 0 where
  pub mailboxes : Map ℕ (List Message)
  pub endpoints : Map ℕ Bool

unfoldable pub new_ipc : InMemoryIpc
new_ipc = record { mailboxes = []; endpoints = [] }

-- What waits for an endpoint.
unfoldable pub mailbox : InMemoryIpc → ℕ → List Message
mailbox ipc e = or_default (get ipc.mailboxes e)

-- The first section of `send`.
unfoldable pub knows_target : InMemoryIpc → Message → Bool
knows_target ipc msg = contains_key ipc.endpoints msg.target

-- The second section of `send`.
unfoldable pub deliver : InMemoryIpc → Message → InMemoryIpc
unfolding mailbox
deliver ipc msg = record ipc {
  mailboxes = insert ipc.mailboxes msg.target (mailbox ipc msg.target ++ msg ∷ []);
}

-- `show` is ulid's `Display`.
pub send : (ℕ → String) → InMemoryIpc → Message → Result ℕ String × InMemoryIpc
unfolding knows_target deliver
send show ipc msg =
    if knows_target ipc msg
    then (ok msg.id, deliver ipc msg)
    else (err (str_append "unknown endpoint: " (show msg.target)), ipc)

unfoldable pub receive : InMemoryIpc → ℕ → List Message × InMemoryIpc
unfolding mailbox
receive ipc e = (mailbox ipc e, record ipc { mailboxes = remove ipc.mailboxes e })

-- The two sections of `register_endpoint`.
unfoldable pub add_endpoint : InMemoryIpc → ℕ → InMemoryIpc
add_endpoint ipc id = record ipc { endpoints = insert ipc.endpoints id true }

pub add_mailbox : InMemoryIpc → ℕ → InMemoryIpc
unfolding mailbox
add_mailbox ipc id = record ipc { mailboxes = insert ipc.mailboxes id (mailbox ipc id) }

-- `id` is the fresh identifier.
pub register_endpoint : InMemoryIpc → ℕ → ℕ × InMemoryIpc
unfolding add_endpoint add_mailbox
register_endpoint ipc id = (id, add_mailbox (add_endpoint ipc id) id)

pub unregister_endpoint : InMemoryIpc → ℕ → Bool × InMemoryIpc
unregister_endpoint ipc id =
    (contains_key ipc.endpoints id, record ipc { endpoints = remove ipc.endpoints id })

pub pending_count : InMemoryIpc → ℕ → ℕ
unfolding mailbox
pending_count ipc e = length (mailbox ipc e)
