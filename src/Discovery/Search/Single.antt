-- ===== src/Discovery/Search/Single.antt =====
-- net/discovery.rs: one search at a time, and what the window is told of it.
use remote_input_bridge.Base.{ℕ, zero, suc, ◌-◌, ◌≤◌, ◌<◌, ◌≡◌, refl, ap, ◌∙◌, List, [], ◌∷◌}
use remote_input_bridge.Base.{none, some, true, false, ltb, if◌then◌else◌, All, arith}
use remote_input_bridge.Frame.{Result, ok, err}
use remote_input_bridge.Discovery.{Text, Found, is_empty}
use remote_input_bridge.Discovery.Search.{Search, Searcher, Event, starts, finishes, takes}
use remote_input_bridge.Discovery.Search.{initial, message_lifetime_us, take_found, message}
use remote_input_bridge.Discovery.Search.{report, found_text, finish, start_search, finish_thread}
use remote_input_bridge.Discovery.Search.{step, run}

-- As many threads as the flag says.
pub record IsSingle (s : Searcher) : Type 0 where
  pub one : s.threads ≤ (if s.search.running then 1 else 0)

finish-idle :
    (now_us : ℕ) (o : Result Text (List Found)) (s : Search) → (finish now_us o s).running ≡ false
unfolding finish report
finish-idle now_us (err e) s = refl
finish-idle now_us (ok []) s = refl
finish-idle now_us (ok (f ∷ rest)) s = refl

finish_thread-IsSingle :
    (now_us : ℕ) (o : Result Text (List Found)) (s : Searcher) (n : ℕ)
    → s.threads ≡ n
    → IsSingle s
    → IsSingle (finish_thread now_us o s n)
unfolding finish_thread
finish_thread-IsSingle now_us o s zero e h = h
finish_thread-IsSingle now_us o s (suc others) e h = record {
  one = ground (arith, finish-idle now_us o s.search, h.one);
}

step-IsSingle : (e : Event) (s : Searcher) → IsSingle s → IsSingle (step e s)
unfolding step start_search take_found
step-IsSingle (starts true) s h = record { one = ground (arith, h.one) }
step-IsSingle (starts false) s h = record { one = ground (arith, h.one) }
step-IsSingle (finishes now_us o) s h = finish_thread-IsSingle now_us o s s.threads refl h
step-IsSingle takes s h = record { one = h.one }

run-IsSingle : (es : List Event) (s : Searcher) → IsSingle s → IsSingle (run es s)
unfolding run
run-IsSingle [] s h = h
run-IsSingle (e ∷ es) s h = run-IsSingle es (step e s) (step-IsSingle e s h)

-- However clicks, ends of searches and refreshes follow one another, there is at most one search at a
-- time, and none unless the window says that it is searching.
pub search-IsSingle :
    (es : List Event) → IsSingle (run es (record { search = initial; threads = 0 }))
search-IsSingle es = run-IsSingle es _ (record { one = omega arith })

-- A search that does not end among the events.
pub IsPending : Event → Type 0
IsPending (finishes now_us o) = ⊥
IsPending e = Unit {0}

-- What the window is told, apart from the hosts.
abbrev told : Searcher → Text × ℕ
told s = (s.search.message, s.search.message_at_us)

step-told : (e : Event) (s : Searcher) → IsPending e → told (step e s) ≡ told s
unfolding step start_search take_found IsPending
step-told (starts b) s h = ground arith
step-told (finishes now_us o) s h = absurd h
step-told takes s h = refl

run-told : (es : List Event) (s : Searcher) → All IsPending es → told (run es s) ≡ told s
unfolding run
run-told [] s h = refl
run-told (e ∷ es) s h = run-told es (step e s) h.1 ∙ step-told e s h.0

told-message :
    (s t : Searcher) (now_us : ℕ)
    → told s ≡ told t
    → message now_us s.search ≡ message now_us t.search
unfolding message
told-message s t now_us h =
    let text : s.search.message ≡ t.search.message = ap (λ p. p.0) h in
    let time : s.search.message_at_us ≡ t.search.message_at_us = ap (λ p. p.1) h in rw (text, time)

finish-message :
    (now_us later : ℕ) (o : Result Text (List Found)) (s : Search)
    → message later (finish now_us o s) ≡ (
        if ltb (later - now_us) message_lifetime_us then some (finish now_us o s).message else none)
unfolding finish report message is_empty found_text
finish-message now_us later (err e) s = refl
finish-message now_us later (ok []) s = refl
finish-message now_us later (ok (f ∷ rest)) s = refl

-- The result of a search is on show for eight seconds, whatever else is clicked or refreshed until the
-- next search ends, and is gone then.
pub message_lifetime :
    (now_us later : ℕ) (o : Result Text (List Found)) (s : Searcher) (es : List Event)
    → 0 < s.threads
    → All IsPending es
    → message later (run es (step (finishes now_us o) s)).search ≡ (
        if ltb (later - now_us) message_lifetime_us
        then some (finish now_us o s.search).message
        else none)
unfolding step
message_lifetime now_us later o s es busy quiet =
    told-message (run es (finish_thread now_us o s s.threads)) (finish_thread now_us o s s.threads)
      later (run-told es _ quiet)
    ∙ ended s.threads busy
  where
    ended :
        (n : ℕ)
        → 0 < n
        → message later (finish_thread now_us o s n).search ≡ (
            if ltb (later - now_us) message_lifetime_us
            then some (finish now_us o s.search).message
            else none)
    ended zero h = absurd (omega arith)
    ended (suc n) h = unfold finish_thread in finish-message now_us later o s.search
