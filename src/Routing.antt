-- ===== src/Routing.antt =====
-- The routing messages, which the two ends of a path send each other: udap/routing/path_confirm.cpp,
-- udap/routing/path_latency.cpp and the parser of udap/routing/message_parser.cpp.
pub mod Trips
use uplexa_network.Prelude.{
  ℕ, ◌+◌, ◌-◌, Bool, true, false, not, List, [], ◌∷◌, Option, none, some, if◌then◌else◌, ◌==◌,
  length,
}
use uplexa_network.Buffer.Memory.{Mem, store_all}
use uplexa_network.Buffer.{
  Buffer, Io, Result, ok, failed, stuck, ◌>>=◌, ◌>>◌, and_then, return, fail, eq, load_all,
}
use uplexa_network.Bencode.{
  start_dict, end, write_dict_msg_type, write_dict_int, read_string, read_dict, maybe_read_dict_int,
}

pub record PathConfirm : Type 0 where
  pub lifetime : ℕ
  pub created : ℕ

pub record PathLatency : Type 0 where
  pub t : ℕ
  pub l : ℕ

pub data RoutingMessage : Type 0 where
  confirm_message : PathConfirm → RoutingMessage
  latency_message : PathLatency → RoutingMessage

abbrev pub new_int : ℕ → Option ℕ → ℕ
new_int old none = old
new_int old (some new) = new

abbrev pub int_read : Bool → Option ℕ → Bool
int_read read none = read
int_read read (some _) = true

unfoldable pub encode_confirm : PathConfirm → Io (Unit {0})
encode_confirm m = do
  start_dict
  write_dict_msg_type b'A' b'P'
  write_dict_int b'L' m.lifetime
  write_dict_int b'S' m.created
  end

unfoldable pub decode_confirm : Buffer → PathConfirm → Io PathConfirm
decode_confirm key m = do
  l ← maybe_read_dict_int (b'L' ∷ []) key
  s ← maybe_read_dict_int (b'S' ∷ []) key
  if int_read (int_read false l) s
      then return (record { lifetime = new_int m.lifetime l; created = new_int m.created s })
      else fail

-- A number that is left out where it is 0.
abbrev pub write_if_set : ℕ → ℕ → Io (Unit {0})
write_if_set k i = if i == 0 then return tt else write_dict_int k i

unfoldable pub encode_latency : PathLatency → Io (Unit {0})
encode_latency m = do
  start_dict
  write_dict_msg_type b'A' b'L'
  write_if_set b'L' m.l
  write_if_set b'T' m.t
  end

unfoldable pub decode_latency : Buffer → PathLatency → Io PathLatency
decode_latency key m = do
  l ← maybe_read_dict_int (b'L' ∷ []) key
  t ← maybe_read_dict_int (b'T' ∷ []) key
  if int_read (int_read false l) t
      then return (record { t = new_int m.t t; l = new_int m.l l })
      else fail

unfoldable pub encode_routing : RoutingMessage → Io (Unit {0})
encode_routing (confirm_message m) = encode_confirm m
encode_routing (latency_message m) = encode_latency m

-- The message of the type that the first key gives.
unfoldable pub start_routing : Buffer → Io (Option RoutingMessage)
start_routing s b =
    if not (s.sz == 1)
    then (failed, b)
    else if s.mem s.cur == b'L'
    then (ok (some (latency_message (record { t = 0; l = 0 }))), b)
    else if s.mem s.cur == b'P'
    then (ok (some (confirm_message (record { lifetime = 0; created = 0 }))), b)
    else (failed, b)

-- OnKey, with the state `none` where the first key is still to come.
unfoldable pub on_routing_key : Option Buffer → Option RoutingMessage → Io (Option RoutingMessage)
on_routing_key none none b = (failed, b)
on_routing_key none (some m) b = (ok (some m), b)
on_routing_key (some key) none b =
    if not (eq key (b'A' ∷ [])) then (failed, b) else and_then (read_string b) start_routing
on_routing_key (some key) (some (confirm_message m)) b =
    and_then (decode_confirm key m b) (λ m'. return (some (confirm_message m')))
on_routing_key (some key) (some (latency_message m)) b =
    and_then (decode_latency key m b) (λ m'. return (some (latency_message m')))

-- ParseMessageBuffer up to the call of the message's handler.
abbrev pub the_routing : Result (Option RoutingMessage) → Option RoutingMessage
the_routing (ok m) = m
the_routing failed = none
the_routing stuck = none

abbrev pub buffer_of : List ℕ → Buffer
buffer_of bytes = record { mem = store_all (λ _. 0) 0 bytes; base = 0; cur = 0; sz = length bytes }

unfoldable pub parse_routing : List ℕ → Option RoutingMessage
parse_routing bytes = the_routing (read_dict on_routing_key none (buffer_of bytes)).0

-- MAX_LINK_MSG_SIZE / 2.
abbrev pub routing_room : ℕ
routing_room = 16384

-- The start of SendRoutingMessage: the bytes that the message takes in a buffer on the stack.
abbrev written_bytes : Result (Unit {0}) × Buffer → Option (List ℕ)
written_bytes (ok _, b) = some (load_all b.mem b.base (b.cur - b.base))
written_bytes (failed, b) = none
written_bytes (stuck, b) = none

unfoldable pub routing_bytes : Mem → RoutingMessage → Option (List ℕ)
routing_bytes tmp m =
    written_bytes (encode_routing m (record { mem = tmp; base = 0; cur = 0; sz = routing_room }))
