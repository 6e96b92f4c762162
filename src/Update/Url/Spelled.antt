-- ===== src/Update/Url/Spelled.antt =====
-- update.rs, `http::split`: a URL that is spelled out is split into what it was made of.
use remote_input_bridge.Base.{ℕ, ◌^◌, ◌<◌, ◌≡◌, ◌≢◌, refl, [], ◌∷◌, ◌++◌, Option, none, some}
use remote_input_bridge.Base.{Bool, true, false, if◌then◌else◌, length, All, arith, append-nil}
use remote_input_bridge.Base.{All-append, All-map}
use remote_input_bridge.Base.Text.{ascii}
use remote_input_bridge.Base.Decimal.{IsDigit, decimal, decimal-IsDigit, parse_number-decimal}
use remote_input_bridge.Config.{is_blank}
use remote_input_bridge.Frame.{ok}
use remote_input_bridge.Update.{Text}
use remote_input_bridge.Update.Url.{split_once, rsplit_once, with_path, numbered, host_and_port}
use remote_input_bridge.Update.Url.{target_of, split_rest, split_scheme, split}

-- A character of a host name: neither the one before a path nor the one before a port.
unfoldable pub IsPlain : ℕ → Type 0
IsPlain c = (c ≢ b'/') × (c ≢ b':')

port_text : Option ℕ → Text
port_text none = []
port_text (some port) = b':' ∷ decimal port

path_text : Option Text → Text
path_text none = []
path_text (some path) = b'/' ∷ path

-- A URL spelled out, with or without a port, with or without a path.
pub spell : Bool → Text → Option ℕ → Option Text → Text
unfolding port_text path_text
spell secure host port path =
    let scheme = if secure then ascii "https://" else ascii "http://" in
    scheme ++ ((host ++ port_text port) ++ path_text path)

pub port_or : Bool → Option ℕ → ℕ
port_or secure none = if secure then 443 else 80
port_or secure (some port) = port

pub path_or : Option Text → Text
path_or none = ascii "/"
path_or (some path) = b'/' ∷ path

split_once-apart :
    (a p : Text) → All (λ c. c ≢ b'/') a → split_once (ascii "/") (a ++ b'/' ∷ p) ≡ some (a, p)
unfolding split_once
split_once-apart [] p h = refl
split_once-apart (c ∷ a) p h = rw (split_once-apart a p h.1) (ground (arith, h.0))

split_once-none : (a : Text) → All (λ c. c ≢ b'/') a → split_once (ascii "/") a ≡ none
unfolding split_once
split_once-none [] h = refl
split_once-none (c ∷ a) h = rw (split_once-none a h.1) (ground (arith, h.0))

rsplit_once-none : (a : Text) → All (λ c. c ≢ b':') a → rsplit_once b':' a ≡ none
unfolding rsplit_once
rsplit_once-none [] h = refl
rsplit_once-none (c ∷ a) h = rw (rsplit_once-none a h.1) (ground (arith, h.0))

rsplit_once-apart :
    (a d : Text) → All (λ c. c ≢ b':') d → rsplit_once b':' (a ++ b':' ∷ d) ≡ some (a, d)
unfolding rsplit_once
rsplit_once-apart [] d h = rw (rsplit_once-none d h) refl
rsplit_once-apart (c ∷ a) d h = rw (rsplit_once-apart a d h) refl

with_path-spelled :
    (a : Text) (path : Option Text)
    → All (λ c. c ≢ b'/') a
    → with_path (a ++ path_text path) (split_once (ascii "/") (a ++ path_text path))
      ≡ (a, path_or path)
unfolding with_path path_text path_or
with_path-spelled a none h = rw (append-nil a, split_once-none a h) refl
with_path-spelled a (some path) h = rw (split_once-apart a path h) refl

-- Digits are neither kind of mark.
decimal-IsPlain : (n : ℕ) → All IsPlain (decimal n)
decimal-IsPlain n =
    All-map IsDigit IsPlain
      (λ c d. unfold IsDigit IsPlain in (ground (arith, d), ground (arith, d))) (decimal n)
      (decimal-IsDigit n)

unslashed : (cs : Text) → All IsPlain cs → All (λ c. c ≢ b'/') cs
unslashed cs = All-map IsPlain (λ c. c ≢ b'/') (λ c plain. (unfold IsPlain in plain.0)) cs

uncoloned : (cs : Text) → All IsPlain cs → All (λ c. c ≢ b':') cs
uncoloned cs = All-map IsPlain (λ c. c ≢ b':') (λ c plain. (unfold IsPlain in plain.1)) cs

authority-unslashed :
    (host : Text) (port : Option ℕ)
    → All IsPlain host
    → All (λ c. c ≢ b'/') (host ++ port_text port)
unfolding port_text
authority-unslashed host none h = All-append _ host [] (unslashed host h) tt
authority-unslashed host (some port) h =
    All-append _ host _ (unslashed host h)
      ((λ e. absurd (omega (arith, e))), unslashed (decimal port) (decimal-IsPlain port))

-- A port that is given has 16 bits.
unfoldable pub FitsPort : Option ℕ → Type 0
FitsPort none = Unit {0}
FitsPort (some port) = port < 2 ^ 16

host_and_port-spelled :
    (secure : Bool) (host : Text) (port : Option ℕ)
    → All IsPlain host
    → FitsPort port
    → host_and_port secure (host ++ port_text port) (rsplit_once b':' (host ++ port_text port))
      ≡ ok (host, port_or secure port)
unfolding host_and_port numbered port_text port_or FitsPort
host_and_port-spelled secure host none h fits =
    rw (append-nil host, rsplit_once-none host (uncoloned host h)) refl
host_and_port-spelled secure host (some port) h fits =
    rw
      (
        rsplit_once-apart host (decimal port) (uncoloned (decimal port) (decimal-IsPlain port)),
        parse_number-decimal (2 ^ 16) port fits,
      )
      refl

target_of-filled :
    (secure : Bool) (path host : Text) (port : ℕ)
    → 0 < length host
    → target_of secure path (ok (host, port))
      ≡ ok (record { host = host; path = path; port = port; secure = secure })
unfolding target_of
target_of-filled secure path [] port h = absurd (omega arith)
target_of-filled secure path (c ∷ cs) port h = unfold is_blank in refl

split_rest-spelled :
    (secure : Bool) (host : Text) (port : Option ℕ) (path : Option Text)
    → 0 < length host
    → All IsPlain host
    → FitsPort port
    → split_rest secure ((host ++ port_text port) ++ path_text path)
      ≡ ok
          (record { host = host; path = path_or path; port = port_or secure port; secure = secure })
unfolding split_rest
split_rest-spelled secure host port path filled plain fits =
    rw
      (
        with_path-spelled (host ++ port_text port) path (authority-unslashed host port plain),
        host_and_port-spelled secure host port plain fits,
      )
      (target_of-filled secure (path_or path) host (port_or secure port) filled)

-- A URL made of a scheme, a host without the marks of a path and of a port, a port of 16 bits or
-- none, and a path or none, is split into these, with the port of the scheme and the root where
-- there is none.
pub split-spell :
    (secure : Bool) (host : Text) (port : Option ℕ) (path : Option Text)
    → 0 < length host
    → All IsPlain host
    → FitsPort port
    → split (spell secure host port path)
      ≡ ok
          (record { host = host; path = path_or path; port = port_or secure port; secure = secure })
unfolding split split_scheme split_once spell
split-spell true host port path filled plain fits =
    split_rest-spelled true host port path filled plain fits
split-spell false host port path filled plain fits =
    split_rest-spelled false host port path filled plain fits
