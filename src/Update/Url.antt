-- ===== src/Update/Url.antt =====
-- update.rs, `http::split`: the parts of a URL.
use remote_input_bridge.Base.{
  ℕ, ◌^◌, List, [], ◌∷◌, Option, none, some, Bool, true, false, ◌==◌, if◌then◌else◌, length, take,
  drop,
}
use remote_input_bridge.Base.Text.{ascii, text_eq}
use remote_input_bridge.Base.Decimal.{parse_number}
use remote_input_bridge.Config.{is_blank}
use remote_input_bridge.Frame.{Result, ok, err}
use remote_input_bridge.Update.{Text}
pub mod Spelled

pub record Target : Type 0 where
  pub host : Text
  pub path : Text
  pub port : ℕ
  pub secure : Bool

abbrev pub put_left : ℕ → Option (Text × Text) → Option (Text × Text)
put_left c none = none
put_left c (some (left, right)) = some (c ∷ left, right)

-- `split_once`, at the first place where the separator stands.
unfoldable pub split_once : Text → Text → Option (Text × Text)
split_once sep [] = none
split_once sep (c ∷ cs) =
    let later = split_once sep cs in
    if text_eq (take (length sep) (c ∷ cs)) sep
    then some ([], drop (length sep) (c ∷ cs))
    else put_left c later

abbrev pub or_here : ℕ → ℕ → Text → Option (Text × Text) → Option (Text × Text)
or_here sep c cs (some (left, right)) = some (c ∷ left, right)
or_here sep c cs none = if c == sep then some ([], cs) else none

-- `rsplit_once`, at the last place.
unfoldable pub rsplit_once : ℕ → Text → Option (Text × Text)
rsplit_once sep [] = none
rsplit_once sep (c ∷ cs) = or_here sep c cs (rsplit_once sep cs)

unfoldable pub with_path : Text → Option (Text × Text) → Text × Text
with_path rest none = (rest, ascii "/")
with_path rest (some (authority, path)) = (authority, b'/' ∷ path)

-- The host and the port of a URL with a port in its text.
unfoldable pub numbered : Text → Option ℕ → Result Text (Text × ℕ)
numbered host none = err (ascii "bad port")
numbered host (some port) = ok (host, port)

unfoldable pub host_and_port : Bool → Text → Option (Text × Text) → Result Text (Text × ℕ)
unfolding numbered
host_and_port secure authority none = ok (authority, if secure then 443 else 80)
host_and_port secure authority (some (host, port)) = numbered host (parse_number (2 ^ 16) port)

unfoldable pub target_of : Bool → Text → Result Text (Text × ℕ) → Result Text Target
target_of secure path (err e) = err e
target_of secure path (ok (host, port)) =
    if is_blank host
    then err (ascii "the URL has no host")
    else ok (record { host = host; path = path; port = port; secure = secure })

-- The part behind the scheme.
unfoldable pub split_rest : Bool → Text → Result Text Target
unfolding split_once rsplit_once with_path host_and_port target_of
split_rest secure rest =
    let (authority, path) = with_path rest (split_once (ascii "/") rest) in
    target_of secure path (host_and_port secure authority (rsplit_once b':' authority))

unfoldable pub split_scheme : Option (Text × Text) → Result Text Target
unfolding split_rest
split_scheme none = err (ascii "the URL has no scheme")
split_scheme (some (scheme, rest)) =
    if text_eq scheme (ascii "https")
    then split_rest true rest
    else if text_eq scheme (ascii "http")
    then split_rest false rest
    else err (ascii "unsupported URL scheme")

unfoldable pub split : Text → Result Text Target
unfolding split_once split_scheme
split url = split_scheme (split_once (ascii "://") url)
