-- ===== src/Discovery/Reach.antt =====
-- net/discovery.rs: which addresses a probe is sent to.
use remote_input_bridge.Base.{ℕ, ◌+◌, ◌-◌, ◌*◌, ◌/◌, ◌^◌, min, ◌≡◌, refl, ap, ◌∙◌, List, [], ◌∷◌}
use remote_input_bridge.Base.{◌++◌, Option, none, some, Bool, true, false, not, ◌&&◌, ◌||◌, ◌==◌}
use remote_input_bridge.Base.{if◌then◌else◌, arith}
use remote_input_bridge.Discovery.Targets.{Unicast, Adapter, af_inet, if_oper_status_up}
use remote_input_bridge.Discovery.Targets.{broadcast, is_unreachable, directed_broadcast}
use remote_input_bridge.Discovery.Targets.{contains, push_new, with_entry, unicast_loop}
use remote_input_bridge.Discovery.Targets.{adapter_loop, local_broadcasts, dedup, put_before}
use remote_input_bridge.Discovery.Targets.{broadcast_targets, directed_broadcast_last}
use remote_input_bridge.Discovery.Targets.{directed_broadcast-min}

-- The last address of a subnet with a prefix of at most 32 bits.
abbrev pub last_address : ℕ → ℕ → ℕ
last_address ip prefix = ip / 2 ^ (32 - prefix) * 2 ^ (32 - prefix) + (2 ^ (32 - prefix) - 1)

-- That `x` is the last address of the subnet of a usable address.
abbrev pub is_end_of : ℕ → Option (ℕ × ℕ) → ℕ → Bool
is_end_of x none prefix = false
is_end_of x (some (family, ip)) prefix =
    (family == af_inet && not (is_unreachable ip)) && last_address ip (min prefix 32) == x

pub ends_unicast : ℕ → List Unicast → Bool
ends_unicast x [] = false
ends_unicast x (u ∷ us) = is_end_of x u.sockaddr u.on_link_prefix_length || ends_unicast x us

-- That `x` is the last address of a subnet of an adapter that is up.
pub ends_subnet : ℕ → List Adapter → Bool
ends_subnet x [] = false
ends_subnet x (a ∷ rest) =
    (a.oper_status == if_oper_status_up && ends_unicast x a.unicasts) || ends_subnet x rest

contains-append :
    (x : ℕ) (xs ys : List ℕ) → contains x (xs ++ ys) ≡ (contains x xs || contains x ys)
unfolding contains
contains-append x [] ys = refl
contains-append x (y ∷ xs) ys = ground (arith, contains-append x xs ys)

contains-eq : (x y : ℕ) (xs : List ℕ) → (y == x) ≡ true → contains y xs ≡ contains x xs
contains-eq x y xs h = let e : y ≡ x = ground arith in rw e

contains-push_new : (x y : ℕ) (xs : List ℕ) → contains x (push_new y xs) ≡ (contains x xs || y == x)
unfolding push_new contains
contains-push_new x y xs = ground (arith, contains-append x xs (y ∷ []), contains-eq x y xs)

directed_broadcast_least :
    (ip prefix : ℕ) → directed_broadcast ip prefix ≡ last_address ip (min prefix 32)
directed_broadcast_least ip prefix =
    directed_broadcast-min ip prefix ∙ directed_broadcast_last ip (min prefix 32) (omega arith)

contains-with_entry :
    (x : ℕ) (o : Option (ℕ × ℕ)) (prefix : ℕ) (out : List ℕ)
    → contains x (with_entry o prefix out) ≡ (contains x out || is_end_of x o prefix)
unfolding with_entry
contains-with_entry x none prefix out = ground arith
contains-with_entry x (some (family, ip)) prefix out = ground (
  arith,
  contains-push_new x (directed_broadcast ip prefix) out,
  directed_broadcast_least ip prefix,
)

contains-unicast_loop :
    (x : ℕ) (us : List Unicast) (out : List ℕ)
    → contains x (unicast_loop us out) ≡ (contains x out || ends_unicast x us)
unfolding unicast_loop ends_unicast
contains-unicast_loop x [] out = ground arith
contains-unicast_loop x (u ∷ us) out = ground (
  arith,
  contains-unicast_loop x us (with_entry u.sockaddr u.on_link_prefix_length out),
  contains-with_entry x u.sockaddr u.on_link_prefix_length out,
)

contains-adapter_loop :
    (x : ℕ) (adapters : List Adapter) (out : List ℕ)
    → contains x (adapter_loop adapters out) ≡ (contains x out || ends_subnet x adapters)
unfolding adapter_loop ends_subnet
contains-adapter_loop x [] out = ground arith
contains-adapter_loop x (a ∷ rest) out = ground (
  arith,
  contains-adapter_loop x rest out,
  contains-adapter_loop x rest (unicast_loop a.unicasts out),
  contains-unicast_loop x a.unicasts out,
)

contains-put_before :
    (x y : ℕ) (ys : List ℕ) → contains x (put_before y ys) ≡ (y == x || contains x ys)
unfolding put_before contains
contains-put_before x y [] = refl
contains-put_before x y (z ∷ zs) = ground arith

contains-dedup : (x : ℕ) (xs : List ℕ) → contains x (dedup xs) ≡ contains x xs
unfolding dedup contains
contains-dedup x [] = refl
contains-dedup x (y ∷ xs) =
    contains-put_before x y (dedup xs) ∙ ap (λ (b : Bool). y == x || b) (contains-dedup x xs)

-- When the adapters can be read, at the first or the second call, a probe goes to an address just when
-- it is the limited broadcast or the last address of the subnet of a reachable address of an adapter
-- that is up.
pub broadcast_targets-reach :
    (x first second : ℕ) (adapters : List Adapter)
    → (if first == 111 then second else first) ≡ 0
    → contains x (broadcast_targets (local_broadcasts first second adapters))
      ≡ (ends_subnet x adapters || broadcast == x)
unfolding broadcast_targets local_broadcasts contains
broadcast_targets-reach x first second adapters read = rw read (
    ground (
      arith,
      contains-dedup x (adapter_loop adapters [] ++ broadcast ∷ []),
      contains-append x (adapter_loop adapters []) (broadcast ∷ []),
      contains-adapter_loop x adapters [],
    ))
