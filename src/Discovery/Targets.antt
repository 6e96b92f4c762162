-- ===== src/Discovery/Targets.antt =====
-- net/discovery.rs, `local_broadcasts` and `broadcast_targets`. What GetAdaptersAddresses returns is
-- an argument: the status of the two calls, and the adapters with their addresses.
use remote_input_bridge.Base.{ℕ, ◌+◌, ◌-◌, ◌*◌, ◌/◌, ◌%◌, ◌^◌, ◌≤◌, min, ◌≡◌, refl, ap, List, []}
use remote_input_bridge.Base.{◌∷◌, ◌++◌, Option, none, some, Bool, true, false, not, ◌||◌, ◌==◌}
use remote_input_bridge.Base.{if◌then◌else◌, bit_or, arith, ==_iff}
use remote_input_bridge.Base.Masks.{each_below, each_below_sound, bit_or_ones}

-- The first address a unicast entry holds, with its prefix. `sockaddr` is none if the pointer is null.
pub record Unicast : Type 0 where
  pub sockaddr : Option (ℕ × ℕ)
  pub on_link_prefix_length : ℕ

pub record Adapter : Type 0 where
  pub oper_status : ℕ
  pub unicasts : List Unicast

abbrev pub af_inet : ℕ
af_inet = 2

abbrev pub if_oper_status_up : ℕ
if_oper_status_up = 1

abbrev pub broadcast : ℕ
broadcast = 2 ^ 32 - 1

-- `is_loopback() || is_link_local() || is_unspecified()`.
unfoldable pub is_unreachable : ℕ → Bool
is_unreachable ip = ip / 2 ^ 24 == 127 || (ip / 2 ^ 16 == 169 * 256 + 254 || ip == 0)

-- `u32::MAX << (32 - prefix)`.
unfoldable pub mask : ℕ → ℕ
mask prefix = if prefix == 0 then 0 else (2 ^ 32 - 1) * 2 ^ (32 - prefix) % 2 ^ 32

-- `u32::from(ip) | !mask`.
unfoldable pub directed_broadcast : ℕ → ℕ → ℕ
unfolding mask
directed_broadcast ip prefix_length = bit_or ip (2 ^ 32 - 1 - mask (min prefix_length 32))

unfoldable pub contains : ℕ → List ℕ → Bool
contains x [] = false
contains x (y ∷ ys) = y == x || contains x ys

unfoldable pub push_new : ℕ → List ℕ → List ℕ
unfolding contains
push_new x xs = if contains x xs then xs else xs ++ x ∷ []

-- What an entry adds to the list.
unfoldable pub with_entry : Option (ℕ × ℕ) → ℕ → List ℕ → List ℕ
unfolding is_unreachable directed_broadcast push_new
with_entry none prefix_length out = out
with_entry (some (family, ip)) prefix_length out =
    if not (family == af_inet) || is_unreachable ip
    then out
    else push_new (directed_broadcast ip prefix_length) out

unfoldable pub unicast_loop : List Unicast → List ℕ → List ℕ
unfolding with_entry
unicast_loop [] out = out
unicast_loop (u ∷ us) out = unicast_loop us (with_entry u.sockaddr u.on_link_prefix_length out)

unfoldable pub adapter_loop : List Adapter → List ℕ → List ℕ
unfolding unicast_loop
adapter_loop [] out = out
adapter_loop (a ∷ rest) out =
    adapter_loop rest
      (if a.oper_status == if_oper_status_up then unicast_loop a.unicasts out else out)

-- ERROR_BUFFER_OVERFLOW (111) asks for a second call.
unfoldable pub local_broadcasts : ℕ → ℕ → List Adapter → List ℕ
unfolding adapter_loop
local_broadcasts first second adapters =
    let status = if first == 111 then second else first in
    if status == 0 then adapter_loop adapters [] else []

-- `Vec::dedup`: neighbours that are equal become one.
unfoldable pub put_before : ℕ → List ℕ → List ℕ
put_before x [] = x ∷ []
put_before x (y ∷ ys) = if x == y then y ∷ ys else x ∷ y ∷ ys

unfoldable pub dedup : List ℕ → List ℕ
unfolding put_before
dedup [] = []
dedup (x ∷ xs) = put_before x (dedup xs)

unfoldable pub broadcast_targets : List ℕ → List ℕ
unfolding dedup
broadcast_targets local = dedup (local ++ broadcast ∷ [])

mask_table : each_below 33 (λ p. 2 ^ 32 - 1 - mask p == 2 ^ (32 - p) - 1) ≡ true
unfolding each_below mask
mask_table = refl

-- The directed broadcast of an address is the last address of its subnet.
pub directed_broadcast_last :
    (ip prefix : ℕ)
    → prefix ≤ 32
    → directed_broadcast ip prefix
      ≡ ip / 2 ^ (32 - prefix) * 2 ^ (32 - prefix) + (2 ^ (32 - prefix) - 1)
unfolding directed_broadcast
directed_broadcast_last ip prefix h =
    let least : min prefix 32 ≡ prefix = omega arith in
    let ones : 2 ^ 32 - 1 - mask prefix ≡ 2 ^ (32 - prefix) - 1 =
      (==_iff _ _).0 (each_below_sound 33 _ prefix mask_table (omega arith)) in
    rw (least, ones) (bit_or_ones (32 - prefix) ip)

pub directed_broadcast-min :
    (ip prefix : ℕ) → directed_broadcast ip prefix ≡ directed_broadcast ip (min prefix 32)
unfolding directed_broadcast
directed_broadcast-min ip prefix = ap (λ (p : ℕ). bit_or ip (2 ^ 32 - 1 - mask p)) (omega arith)
