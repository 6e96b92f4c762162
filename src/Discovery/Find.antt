-- ===== src/Discovery/Find.antt =====
-- net/discovery.rs, `find`: the probes and the collection of the answers. What the calls of the
-- socket return is an argument: the error of its setup, of each send, and each reception that begins
-- before the deadline.
use remote_input_bridge.Base.{ℕ, ◌+◌, List, [], ◌∷◌, ◌++◌, Option, none, some, Bool, false, ◌||◌}
use remote_input_bridge.Base.{◌==◌, if◌then◌else◌}
use remote_input_bridge.Base.Text.{ascii}
use remote_input_bridge.Frame.{Result, ok, err}
use remote_input_bridge.Discovery.{Text, Reply, Found, SocketAddr, same_address, parse_reply}
use remote_input_bridge.Discovery.{ip_text, is_empty}

-- A datagram and its sender, or an error of `recv_from`, such as a timeout.
abbrev pub Reception : Type 0
Reception = Option (List ℕ × SocketAddr)

pub record Network : Type 0 where
  pub setup_error : Option Text
  pub send_error : ℕ → Option Text
  pub receptions : List Reception

-- What a send does to the number of probes sent and to the last error.
unfoldable pub count_probe : ℕ → Option Text → ℕ × Text → ℕ × Text
unfolding ip_text
count_probe target none (sent, last_error) = (sent + 1, last_error)
count_probe target (some e) (sent, last_error) = (sent, ip_text target ++ ascii ": " ++ e)

-- The loop over the targets.
unfoldable pub send_probes : (ℕ → Option Text) → List ℕ → ℕ × Text → ℕ × Text
unfolding count_probe
send_probes send_error [] counts = counts
send_probes send_error (target ∷ rest) counts =
    send_probes send_error rest (count_probe target (send_error target) counts)

unfoldable pub knows : SocketAddr → List Found → Bool
unfolding same_address
knows from [] = false
knows from (f ∷ rest) = same_address f.address from || knows from rest

unfoldable pub no_probe : Text → Text
unfolding is_empty
no_probe last_error =
    ascii "the probe could not be sent on any network"
    ++ (if is_empty last_error then [] else ascii " (" ++ last_error ++ ascii ")")

module _ (from_json : List ℕ → Option Reply) where
  -- The `let ... else` and the test of the loop, on a datagram.
  unfoldable pub take_answer : Option Reply → SocketAddr → List Found → List Found
  unfolding knows
  take_answer none from found = found
  take_answer (some reply) from found =
      if knows from found then found else found ++ record { address = from; reply = reply } ∷ []

  unfoldable pub take_reception : Reception → List Found → List Found
  unfolding take_answer parse_reply
  take_reception none found = found
  take_reception (some (bytes, from)) found = take_answer (parse_reply from_json bytes) from found

  -- The loop until the deadline.
  unfoldable pub listen : List Reception → List Found → List Found
  unfolding take_reception
  listen [] found = found
  listen (r ∷ rest) found = listen rest (take_reception r found)

  unfoldable pub find_on : List ℕ → Option Text → Network → Result Text (List Found)
  unfolding send_probes listen no_probe
  find_on targets (some e) w = err e
  find_on targets none w =
      let (sent, last_error) = send_probes w.send_error targets (0, []) in
      if sent == 0 then err (no_probe last_error) else ok (listen w.receptions [])

  -- `find` with the targets that `broadcast_targets` gives.
  unfoldable pub find : List ℕ → Network → Result Text (List Found)
  unfolding find_on
  find targets w = find_on targets w.setup_error w
