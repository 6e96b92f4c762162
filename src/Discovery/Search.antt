-- ===== src/Discovery/Search.antt =====
-- net/discovery.rs: the search that the settings window starts, its state and its thread. What the
-- thread finds, the clock, and whether the thread could be spawned are arguments.
use remote_input_bridge.Base.{
  ℕ, zero, suc, ◌+◌, ◌-◌, List, [], ◌∷◌, ◌++◌, Option, none, some, Bool, true, false, ◌||◌, ◌==◌,
  ltb, if◌then◌else◌, length, map,
}
use remote_input_bridge.Base.Text.{ascii, text_eq}
use remote_input_bridge.Base.Decimal.{decimal}
use remote_input_bridge.Frame.{Result, ok, err}
use remote_input_bridge.Discovery.{Text, Found, preferred_host, label, ip_text, is_empty}
pub mod Single

pub record Search : Type 0 where
  pub running : Bool
  pub fresh : Option (List Text)
  pub message : Text
  pub message_at_us : ℕ

abbrev pub initial : Search
initial = record { running = false; fresh = none; message = []; message_at_us = 0 }

abbrev pub message_lifetime_us : ℕ
message_lifetime_us = 8_000_000

unfoldable pub take_found : Search → Option (List Text) × Search
take_found s = (s.fresh, record s { fresh = none })

unfoldable pub message : ℕ → Search → Option Text
unfolding is_empty
message now_us s =
    if is_empty s.message
    then none
    else if ltb (now_us - s.message_at_us) message_lifetime_us
    then some s.message
    else none

unfoldable pub report : ℕ → Text → Option (List Text) → Search → Search
report now_us text hosts s = record {
  running = false;
  fresh = hosts;
  message = text;
  message_at_us = now_us;
}

unfoldable pub join : Text → List Text → Text
join separator [] = []
join separator (t ∷ []) = t
join separator (t ∷ u ∷ us) = t ++ separator ++ join separator (u ∷ us)

unfoldable pub has_text : Text → List Text → Bool
has_text t [] = false
has_text t (u ∷ us) = text_eq u t || has_text t us

unfoldable pub push_text : Text → List Text → List Text
unfolding has_text
push_text t hosts = if has_text t hosts then hosts else hosts ++ t ∷ []

-- The loop that offers both spellings of each entry.
unfoldable pub offer : List Found → List Text → List Text
unfolding push_text preferred_host ip_text
offer [] hosts = hosts
offer (f ∷ rest) hosts =
    offer rest (push_text (ip_text f.address.ip) (push_text (preferred_host f) hosts))

unfoldable pub found_text : List Found → Text
unfolding join label
found_text found =
    ascii "Found "
    ++ (if length found == 1 then ascii "one Mac" else decimal (length found) ++ ascii " Macs")
    ++ ascii ": "
    ++ join (ascii ", ") (map label found)

-- What the thread does with the outcome of `find`.
unfoldable pub finish : ℕ → Result Text (List Found) → Search → Search
unfolding report offer found_text
finish now_us (err e) s = report now_us (ascii "Could not search: " ++ e) none s
finish now_us (ok []) s =
    report now_us
      (ascii
        "No Macs answered. Check that the app is running on the Mac and that both machines are on the same network.")
      none s
finish now_us (ok (f ∷ rest)) s =
    report now_us (found_text (f ∷ rest)) (some (offer (f ∷ rest) [])) s

-- The state, and the threads that search.
pub record Searcher : Type 0 where
  pub search : Search
  pub threads : ℕ

unfoldable pub start_search : Bool → Searcher → Searcher
start_search spawned s = if s.search.running then s else record {
  search = record (s.search) { running = true };
  threads = if spawned then suc s.threads else s.threads;
}

-- A thread comes to its end, if there is one.
unfoldable pub finish_thread : ℕ → Result Text (List Found) → Searcher → ℕ → Searcher
unfolding finish
finish_thread now_us outcome s zero = s
finish_thread now_us outcome s (suc others) = record {
  search = finish now_us outcome s.search;
  threads = others;
}

pub data Event : Type 0 where
  starts : (spawned : Bool) → Event
  finishes : (now_us : ℕ) → Result Text (List Found) → Event
  takes : Event

unfoldable pub step : Event → Searcher → Searcher
unfolding start_search finish_thread take_found
step (starts spawned) s = start_search spawned s
step (finishes now_us outcome) s = finish_thread now_us outcome s s.threads
step takes s = record s { search = (take_found s.search).1 }

unfoldable pub run : List Event → Searcher → Searcher
unfolding step
run [] s = s
run (e ∷ es) s = run es (step e s)
