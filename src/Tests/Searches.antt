-- ===== src/Tests/Searches.antt =====
-- The search for Macs at concrete inputs: two replies of one address, one of another, and noise.
use remote_input_bridge.Base.{ℕ, ◌≡◌, refl, List, [], ◌∷◌, ◌++◌, Option, none, some, true, false}
use remote_input_bridge.Base.{if◌then◌else◌, ◌||◌, ◌==◌}
use remote_input_bridge.Base.Text.{ascii}
use remote_input_bridge.Frame.{ok}
use remote_input_bridge.Discovery.{Reply, Found, SocketAddr}
use remote_input_bridge.Discovery.Targets.{Adapter, broadcast, contains, local_broadcasts}
use remote_input_bridge.Discovery.Targets.{broadcast_targets}
use remote_input_bridge.Discovery.Reach.{ends_subnet, broadcast_targets-reach}
use remote_input_bridge.Discovery.Find.{Network, find}
use remote_input_bridge.Discovery.Answers.{any_sent, IsDistinct, reply_of, first_answer}
use remote_input_bridge.Discovery.Answers.{find-answers}
use remote_input_bridge.Discovery.Search.{starts, finishes, takes, initial, run}
use remote_input_bridge.Discovery.Search.Single.{IsSingle, search-IsSingle}

abbrev studio : Reply
studio = record {
  name = ascii "Studio";
  host = ascii "studio.local";
  tcp = 47821;
  udp = 47822;
  version = ascii "0.3.2";
}

abbrev laptop : Reply
laptop = record { name = ascii "Laptop"; host = []; tcp = 47821; udp = 47822; version = [] }

-- The first byte tells the two replies apart.
abbrev from_json : List ℕ → Option Reply
from_json [] = none
from_json (b ∷ rest) = if b == 1 then some studio else if b == 2 then some laptop else none

abbrev header : List ℕ
header = 0x52 ∷ 0x49 ∷ 0x42 ∷ 0x44 ∷ 1 ∷ []

abbrev here : SocketAddr
here = record { ip = 0xc0a8_0105; port = 47823 }

abbrev there : SocketAddr
there = record { ip = 0xc0a8_0106; port = 47823 }

abbrev network : Network
network = record {
  setup_error = none;
  send_error = λ target. if target == broadcast then some (ascii "no route to host") else none;
  receptions =
      some (header ++ 1 ∷ [], here)
      ∷ none
      ∷ some (header ++ 2 ∷ [], here)
      ∷ some (9 ∷ 9 ∷ [], there)
      ∷ some (header ++ 2 ∷ [], there)
      ∷ [];
}

-- 192.168.1.20 with a prefix of 24 bits, and loopback.
abbrev adapters : List Adapter
adapters =
    record {
      oper_status = 1;
      unicasts =
          record { sockaddr = some (2, 0xc0a8_0114); on_link_prefix_length = 24 }
          ∷ record { sockaddr = none; on_link_prefix_length = 64 }
          ∷ [];
    }
    ∷ record {
      oper_status = 1;
      unicasts = record { sockaddr = some (2, 0x7f00_0001); on_link_prefix_length = 8 } ∷ [];
    }
    ∷ []

abbrev targets : List ℕ
targets = 0xc0a8_01ff ∷ broadcast ∷ []

abbrev both : List Found
both = record { address = here; reply = studio } ∷ record { address = there; reply = laptop } ∷ []

broadcast_targets-reach_example :
    contains 0xc0a8_01ff (broadcast_targets (local_broadcasts 111 0 adapters))
    ≡ (ends_subnet 0xc0a8_01ff adapters || broadcast == 0xc0a8_01ff)
broadcast_targets-reach_example = broadcast_targets-reach 0xc0a8_01ff 111 0 adapters refl

find-answers_example :
    (found : List Found) × (find from_json targets network ≡ ok found)
    × IsDistinct found
    × ((a : SocketAddr) → reply_of a found ≡ first_answer from_json a network.receptions)
unfolding any_sent
find-answers_example = find-answers from_json targets network refl refl

search-IsSingle_example : IsSingle (
    run
      (starts true ∷ starts true ∷ finishes 1000 (ok both) ∷ takes ∷ starts false ∷ [])
      (record { search = initial; threads = 0 }))
search-IsSingle_example =
    search-IsSingle
      (starts true ∷ starts true ∷ finishes 1000 (ok both) ∷ takes ∷ starts false ∷ [])
