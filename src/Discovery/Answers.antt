-- ===== src/Discovery/Answers.antt =====
-- net/discovery.rs, `find`: which answers a search collects.
use remote_input_bridge.Base.{ℕ, ◌+◌, ◌≡◌, ◌≢◌, refl, ap, ◌∙◌, List, [], ◌∷◌, ◌++◌, Option, none}
use remote_input_bridge.Base.{some, Bool, true, false, ◌||◌, ◌&&◌, not, ◌==◌, if◌then◌else◌, All}
use remote_input_bridge.Base.{All-append, arith, Bool-cases, inl, inr}
use remote_input_bridge.Frame.{ok, err}
use remote_input_bridge.Discovery.{Text, Reply, Found, SocketAddr, same_address, parse_reply}
use remote_input_bridge.Discovery.Find.{Reception, Network, send_probes, count_probe, knows}
use remote_input_bridge.Discovery.Find.{take_answer, take_reception, listen, find_on, find}
use remote_input_bridge.Discovery.Find.{no_probe}

same_address→eq : (a b : SocketAddr) → same_address a b ≡ true → a ≡ b
unfolding same_address
same_address→eq a b h = ground arith

same_address_refl : (a : SocketAddr) → same_address a a ≡ true
unfolding same_address
same_address_refl a = ground arith

-- The reply on the list from an address.
pub reply_of : SocketAddr → List Found → Option Reply
reply_of a [] = none
reply_of a (f ∷ rest) = if same_address f.address a then some f.reply else reply_of a rest

abbrev pub or_else : Option Reply → Option Reply → Option Reply
or_else none o = o
or_else (some r) o = some r

-- No two entries come from one address.
pub IsDistinct : List Found → Type 0
IsDistinct [] = Unit {0}
IsDistinct (f ∷ rest) = All (λ g. same_address f.address g.address ≡ false) rest × IsDistinct rest

knows-reply_of :
    (a : SocketAddr) (found : List Found) → knows a found ≡ true → reply_of a found ≢ none
unfolding knows reply_of
knows-reply_of a [] h = cc
knows-reply_of a (f ∷ rest) h = ground (arith, knows-reply_of a rest)

knows-none :
    (a : SocketAddr) (found : List Found)
    → knows a found ≡ false
    → All (λ g. same_address g.address a ≡ false) found
unfolding knows
knows-none a [] h = tt
knows-none a (f ∷ rest) h = (ground (arith, h), knows-none a rest (ground (arith, h)))

reply_of-append :
    (a : SocketAddr) (xs ys : List Found)
    → reply_of a (xs ++ ys) ≡ or_else (reply_of a xs) (reply_of a ys)
unfolding reply_of
reply_of-append a [] ys = refl
reply_of-append a (f ∷ xs) ys = ground (arith, reply_of-append a xs ys)

IsDistinct-snoc :
    (found : List Found) (g : Found)
    → IsDistinct found
    → All (λ f. same_address f.address g.address ≡ false) found
    → IsDistinct (found ++ g ∷ [])
unfolding IsDistinct
IsDistinct-snoc [] g h k = (tt, tt)
IsDistinct-snoc (f ∷ rest) g h k =
    (All-append _ rest (g ∷ []) h.0 (k.0, tt), IsDistinct-snoc rest g h.1 k.1)

module _ (from_json : List ℕ → Option Reply) where
  -- The first usable reply that an address sends.
  pub first_answer : SocketAddr → List Reception → Option Reply
  first_answer a [] = none
  first_answer a (none ∷ rest) = first_answer a rest
  first_answer a (some (bytes, from) ∷ rest) =
      or_else (if same_address from a then parse_reply from_json bytes else none)
        (first_answer a rest)

  take_answer-reply_of :
      (a from : SocketAddr) (o : Option Reply) (found : List Found)
      → reply_of a (take_answer from_json o from found)
        ≡ or_else (reply_of a found) (if same_address from a then o else none)
  unfolding take_answer
  take_answer-reply_of a from none found = ground arith
  take_answer-reply_of a from (some r) found = elim (Bool-cases (knows from found)) [
    | inl e ↦ elim (Bool-cases (same_address from a)) [
      | inl at ↦
          let known = knows-reply_of from found e in
          let place = same_address→eq from a at in ground (arith, known, place)
      | inr past ↦ ground arith
    ]
    | inr e ↦ rw e (
        reply_of-append a found (record { address = from; reply = r } ∷ [])
        ∙ ap (or_else (reply_of a found)) (unfold reply_of in refl))
  ]

  take_answer-IsDistinct :
      (from : SocketAddr) (o : Option Reply) (found : List Found)
      → IsDistinct found
      → IsDistinct (take_answer from_json o from found)
  unfolding take_answer
  take_answer-IsDistinct from none found h = h
  take_answer-IsDistinct from (some r) found h = elim (Bool-cases (knows from found)) [
    | inl e ↦ rw e h
    | inr e ↦ rw e (IsDistinct-snoc found _ h (knows-none from found e))
  ]

  listen-reply_of :
      (a : SocketAddr) (rs : List Reception) (found : List Found)
      → reply_of a (listen from_json rs found) ≡ or_else (reply_of a found) (first_answer a rs)
  unfolding listen first_answer take_reception
  listen-reply_of a [] found = ground arith
  listen-reply_of a (none ∷ rest) found = listen-reply_of a rest found
  listen-reply_of a (some (bytes, from) ∷ rest) found = ground (
    arith,
    listen-reply_of a rest (take_answer from_json (parse_reply from_json bytes) from found),
    take_answer-reply_of a from (parse_reply from_json bytes) found,
  )

  listen-IsDistinct :
      (rs : List Reception) (found : List Found)
      → IsDistinct found
      → IsDistinct (listen from_json rs found)
  unfolding listen take_reception
  listen-IsDistinct [] found h = h
  listen-IsDistinct (none ∷ rest) found h = listen-IsDistinct rest found h
  listen-IsDistinct (some (bytes, from) ∷ rest) found h =
      listen-IsDistinct rest _ (take_answer-IsDistinct from (parse_reply from_json bytes) found h)

takes_probe : Option Text → Bool
takes_probe none = true
takes_probe (some e) = false

-- That one of the targets takes the probe.
unfoldable pub any_sent : (ℕ → Option Text) → List ℕ → Bool
unfolding takes_probe
any_sent send_error [] = false
any_sent send_error (t ∷ rest) = takes_probe (send_error t) || any_sent send_error rest

count_probe-sent :
    (t : ℕ) (o : Option Text) (counts : ℕ × Text)
    → (count_probe t o counts).0 ≡ counts.0 + (if takes_probe o then 1 else 0)
unfolding count_probe takes_probe
count_probe-sent t none (sent, last) = omega arith
count_probe-sent t (some e) (sent, last) = omega arith

send_probes-sent :
    (f : ℕ → Option Text) (targets : List ℕ) (counts : ℕ × Text)
    → ((send_probes f targets counts).0 == 0) ≡ (counts.0 == 0 && not (any_sent f targets))
unfolding send_probes any_sent
send_probes-sent f [] counts = ground arith
send_probes-sent f (t ∷ rest) counts =
    ground
      (arith, send_probes-sent f rest (count_probe t (f t) counts), count_probe-sent t (f t) counts)

module _ (from_json : List ℕ → Option Reply) (targets : List ℕ) (w : Network)
    (opened : w.setup_error ≡ none) where
  -- If a probe went out on some network, a search finds the first usable reply of each address that
  -- answers, once each, and nothing else.
  pub find-answers :
      any_sent w.send_error targets ≡ true
      → (found : List Found) × (find from_json targets w ≡ ok found)
        × IsDistinct found
        × ((a : SocketAddr) → reply_of a found ≡ first_answer from_json a w.receptions)
  unfolding find find_on
  find-answers sent = (
    listen from_json w.receptions [],
    rw opened (ground (arith, sent, send_probes-sent w.send_error targets (0, []))),
    listen-IsDistinct from_json w.receptions [] (unfold IsDistinct in tt),
    λ a. listen-reply_of from_json a w.receptions [] ∙ unfold reply_of in refl,
  )

  -- If no network takes the probe, a search fails without listening.
  find-unsent :
      any_sent w.send_error targets ≡ false → (e : Text) × (find from_json targets w ≡ err e)
  unfolding find find_on
  find-unsent silent = (
    no_probe (send_probes w.send_error targets (0, [])).1,
    rw opened (ground (arith, silent, send_probes-sent w.send_error targets (0, []))),
  )
