-- ===== src/Gateway.antt =====
-- backend/app/services/ws_manager.py: the WebSocket connections of one gateway, and the status
-- changes it buffers and sends in batches. A connection is a number; `alive` says whether sending to
-- it succeeds; `parse` is json.loads of a payload of `status:changes`, `none` where it raises;
-- the payloads are those of publish_status_change, which all have a device_id.
pub mod Batches
use network_monitoring.Dict
use network_monitoring.Dict.{Dict, values}
use network_monitoring.World.{Change}
use network_monitoring.Prelude.{
  ℕ, String, Bool, not, Option, none, some, List, [], map, nat_beq, keep, contains, ◌∷◌, ◌++◌, ◌==◌,
  if◌then◌else◌, nat_eq, string_eq,
}

-- the manager's set, the buffer of the subscriber, and the batch frames that reached a connection
pub record Gateway : Type 0 where
  pub connections : List ℕ
  pub pending : Dict ℕ Change
  pub frames : List (ℕ × List Change)

unfoldable pub connect : ℕ → Gateway → Gateway
connect ws g =
    if contains ws g.connections then g else record g { connections = ws ∷ g.connections }

unfoldable pub disconnect : ℕ → Gateway → Gateway
disconnect ws g = record g { connections = keep (λ c. not (nat_beq c ws)) g.connections }

-- every connection is tried, and one that fails is dropped
unfoldable pub fanout : (ℕ → Bool) → List Change → Gateway → Gateway
fanout alive changes g = record g {
  connections = keep alive g.connections;
  frames = g.frames ++ map (λ c. (c, changes)) (keep alive g.connections);
}

-- a message of the subscription: its type, and its data if that is a text
pub record Message : Type 0 where
  pub type_name : String
  pub data_text : Option String

abbrev buffered : Option Change → Gateway → Gateway
buffered none g = g
buffered (some change) g = record g { pending = Dict.put change.device_id change g.pending }

abbrev pub parsed : (String → Option Change) → Option String → Option Change
parsed parse none = none
parsed parse (some text) = parse text

-- the body of `async for message in pubsub.listen()`
unfoldable pub receive : (String → Option Change) → Message → Gateway → Gateway
unfolding Dict.put
receive parse m g = if m.type_name == "message" then buffered (parsed parse m.data_text) g else g

-- a round of `flusher`
unfoldable pub flush : (ℕ → Bool) → Gateway → Gateway
unfolding fanout
flush alive g = flush_batch g.pending
  where
    flush_batch : Dict ℕ Change → Gateway
    flush_batch [] = g
    flush_batch (e ∷ es) = fanout alive (values (e ∷ es)) (record g { pending = [] })
