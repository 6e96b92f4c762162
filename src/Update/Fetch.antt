-- ===== src/Update/Fetch.antt =====
-- update.rs, `http::get`: a small resource, read into memory. What the reads return is an argument.
use remote_input_bridge.Base.{ℕ, ◌≡◌, List, [], ◌∷◌, ◌++◌, ◌==◌, leb, ltb, if◌then◌else◌, length}
use remote_input_bridge.Base.{length-append, append_assoc, append-nil, map, arith, ◌≤◌}
use remote_input_bridge.Base.Text.{ascii}
use remote_input_bridge.Frame.{Result, ok, err}
use remote_input_bridge.Update.{Text}

-- The loop of `get`; a read of no bytes is the end.
unfoldable pub get_loop : ℕ → List (Result Text (List ℕ)) → List ℕ → Result Text (List ℕ)
get_loop limit [] body = ok body
get_loop limit (err e ∷ rest) body = err e
get_loop limit (ok bytes ∷ rest) body =
    let more = get_loop limit rest (body ++ bytes) in
    if length bytes == 0
    then ok body
    else if ltb limit (length (body ++ bytes))
    then err (ascii "the response is larger than the limit")
    else more

-- `get` on the answer of `open`.
unfoldable pub get : ℕ → Result Text (List (Result Text (List ℕ))) → Result Text (List ℕ)
unfolding get_loop
get limit (err e) = err e
get limit (ok reads) = get_loop limit reads []

-- The bytes up to the first read of none.
pub body_of : List (List ℕ) → List ℕ
body_of [] = []
body_of (bytes ∷ rest) = let more = body_of rest in if length bytes == 0 then [] else bytes ++ more

get_loop-body_of :
    (limit : ℕ) (reads : List (List ℕ)) (body : List ℕ)
    → length body ≤ limit
    → get_loop limit (map ok reads) body ≡ (
        if leb (length (body ++ body_of reads)) limit
        then ok (body ++ body_of reads)
        else err (ascii "the response is larger than the limit"))
unfolding get_loop body_of
get_loop-body_of limit [] body h = ground (arith, append-nil body)
get_loop-body_of limit (bytes ∷ rest) body h = ground (
  arith,
  append-nil body,
  append_assoc body bytes (body_of rest),
  length-append (body ++ bytes) (body_of rest),
  get_loop-body_of limit rest (body ++ bytes),
)

-- When no read fails, a resource is what its reads bring up to the end, if that is within the limit,
-- and an error else.
pub get-body_of :
    (limit : ℕ) (reads : List (List ℕ))
    → get limit (ok (map ok reads)) ≡ (
        if leb (length (body_of reads)) limit
        then ok (body_of reads)
        else err (ascii "the response is larger than the limit"))
unfolding get
get-body_of limit reads = get_loop-body_of limit reads [] (omega arith)
