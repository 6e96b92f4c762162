-- ===== src/Discovery.antt =====
-- net/discovery.rs: the probe, and what is made of a reply. An IPv4 address is its 32 bits, the first
-- octet highest. serde_json is a parameter: a function from the bytes of a reply to its fields.
use remote_input_bridge.Base.{
  ℕ, ◌+◌, ◌-◌, ◌/◌, ◌%◌, ◌^◌, List, [], ◌∷◌, ◌++◌, Option, none, some, Bool, true, false, not, ◌&&◌,
  ◌||◌, ◌==◌, ltb, if◌then◌else◌, length, get_or, take, drop, replicate, ◌>>=◌,
}
use remote_input_bridge.Base.Text.{ascii, text_eq}
use remote_input_bridge.Base.Decimal.{decimal}
use remote_input_bridge.Wire.Bytes.{to_be_bytes, from_be_bytes}
pub mod Targets
pub mod Find
pub mod Reach
pub mod Answers
pub mod Search
pub mod Hosts

abbrev pub Text : Type 0
Text = List ℕ

abbrev pub magic : ℕ
magic = 0x5249_4244

abbrev pub version : ℕ
version = 1

abbrev pub probe_bytes : ℕ
probe_bytes = 256

abbrev pub default_discovery_port : ℕ
default_discovery_port = 47823

pub record Reply : Type 0 where
  pub name : Text
  pub host : Text
  pub tcp : ℕ
  pub udp : ℕ
  pub version : Text

-- The socket is bound to an IPv4 address, so every sender has one.
pub record SocketAddr : Type 0 where
  pub ip : ℕ
  pub port : ℕ

unfoldable pub same_address : SocketAddr → SocketAddr → Bool
same_address a b = a.ip == b.ip && a.port == b.port

pub record Found : Type 0 where
  pub address : SocketAddr
  pub reply : Reply

-- `Display` of an address: its octets.
unfoldable pub ip_text : ℕ → Text
unfolding decimal
ip_text ip =
    decimal (ip / 2 ^ 24 % 256)
    ++ (b'.' ∷ decimal (ip / 2 ^ 16 % 256))
    ++ (b'.' ∷ decimal (ip / 2 ^ 8 % 256))
    ++ (b'.' ∷ decimal (ip % 256))

unfoldable pub is_empty : Text → Bool
is_empty [] = true
is_empty (c ∷ cs) = false

unfoldable pub preferred_host : Found → Text
unfolding is_empty ip_text
preferred_host f = if is_empty f.reply.host then ip_text f.address.ip else f.reply.host

unfoldable pub label : Found → Text
unfolding ip_text
label f = f.reply.name ++ ascii " (" ++ ip_text f.address.ip ++ ascii ")"

-- `Vec::resize`.
unfoldable pub resize : ℕ → ℕ → List ℕ → List ℕ
resize n value bytes = take n bytes ++ replicate (n - length bytes) value

unfoldable pub probe_packet : List ℕ
unfolding resize to_be_bytes
probe_packet = resize probe_bytes 0 (to_be_bytes 4 magic ++ version ∷ [])

-- The header, before the JSON is read.
unfoldable pub has_header : List ℕ → Bool
unfolding from_be_bytes
has_header bytes =
    not (ltb (length bytes) 5)
    && (from_be_bytes (take 4 bytes) == magic && get_or bytes 4 0 == version)

unfoldable pub is_usable : Reply → Bool
unfolding is_empty
is_usable reply = not (reply.tcp == 0 || (reply.udp == 0 || is_empty reply.name))

unfoldable pub parse_reply : (List ℕ → Option Reply) → List ℕ → Option Reply
unfolding has_header is_usable
parse_reply from_json bytes =
    if has_header bytes
    then (do reply ← from_json (drop 5 bytes); if is_usable reply then some reply else none)
    else none
