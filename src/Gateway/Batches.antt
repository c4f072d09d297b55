-- ===== src/Gateway/Batches.antt =====
-- The batches of a gateway (backend/app/services/ws_manager.py).
use network_monitoring.Dict
use network_monitoring.Dict.{Dict, keys, values}
use network_monitoring.World.{Change}
use network_monitoring.Gateway.{Gateway, Message, parsed, receive}
use network_monitoring.Prelude.{
  ℕ, String, refl, ap, inl, inr, Option, none, some, List, [], arith, nat_beq, Bool-cases,
  Option-cases, ◌≡◌, ◌∙◌, ◌∷◌, ◌==◌, if◌then◌else◌, nat_eq, string_eq,
}

-- The change that a message carries, if it carries one.
abbrev pub change_of : (String → Option Change) → Message → Option Change
change_of parse m = if m.type_name == "message" then parsed parse m.data_text else none

pub receive_all : (String → Option Change) → List Message → Gateway → Gateway
unfolding receive
receive_all parse [] g = g
receive_all parse (m ∷ ms) g = receive_all parse ms (receive parse m g)

-- what the messages say of the device k: the last change about it, or `before`
abbrev pub about : ℕ → Option Change → Option Change → Option Change
about k before none = before
about k before (some c) = if nat_beq c.device_id k then some c else before

abbrev pub last_about : (String → Option Change) → ℕ → List Message → Option Change → Option Change
last_about parse k [] before = before
last_about parse k (m ∷ ms) before = last_about parse k ms (about k before (change_of parse m))

receive-about :
    (parse : String → Option Change) (k : ℕ) (m : Message) (g : Gateway)
    → Dict.get k (receive parse m g).pending ≡ about k (Dict.get k g.pending) (change_of parse m)
unfolding receive
receive-about parse k m g = elim (Bool-cases (m.type_name == "message")) [
  | inr e ↦ ground (arith, e)
  | inl e ↦ elim (Option-cases (parsed parse m.data_text)) [
    | inl f ↦ ground (arith, e, f)
    | inr (c, f) ↦ ground (arith, e, f, Dict.get-put c.device_id k c g.pending)
  ]
]

-- The latest change of each device wins: after any messages, of whatever types and contents, the
-- buffer holds for a device the last change that they carry about it, or what it held before.
pub receive_all-latest :
    (parse : String → Option Change) (k : ℕ) (ms : List Message) (g : Gateway)
    → Dict.get k (receive_all parse ms g).pending ≡ last_about parse k ms (Dict.get k g.pending)
unfolding receive_all
receive_all-latest parse k [] g = refl
receive_all-latest parse k (m ∷ ms) g =
    receive_all-latest parse k ms (receive parse m g)
    ∙ ap (last_about parse k ms) (receive-about parse k m g)
