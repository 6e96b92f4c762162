-- ===== src/Banner.antt =====
-- ui/banner.rs: the banner that takes the foreground while the Mac has the input. A window is its
-- handle, 0 for none. What the calls of Windows answer are arguments, and the calls that change the
-- desktop are listed in order. The drawing and the placing on top are left out.
use remote_input_bridge.Base.{
  ℕ, List, [], ◌∷◌, ◌++◌, Bool, true, false, not, ◌&&◌, ◌==◌, if◌then◌else◌,
}
pub mod Focus

pub record Banner : Type 0 where
  pub banner : ℕ
  pub previous : ℕ
  pub minimised : Bool

pub data Call : Type 0 where
  show_window : ℕ → Call
  hide_window : ℕ → Call
  attach detach : Call
  set_foreground : ℕ → Call
  minimise : ℕ → Call
  restore : ℕ → Call

-- The window that CreateWindowExW gives, the foreground window before the banner is shown and after,
-- and whether the input queues could be attached.
pub record Desktop : Type 0 where
  pub created : ℕ
  pub before : ℕ
  pub after : ℕ
  pub attached : Bool

unfoldable pub ensure : ℕ → Banner → Banner
ensure created s = if s.banner == 0 then record s { banner = created } else s

unfoldable pub remember : ℕ → Banner → Banner
remember before s =
    if not (before == 0) && not (before == s.banner) then record s { previous = before } else s

-- The calls that ask for the foreground.
unfoldable pub ask_foreground : Bool → ℕ → List Call
ask_foreground attached window =
    if attached then attach ∷ set_foreground window ∷ detach ∷ [] else set_foreground window ∷ []

-- A window that kept the foreground is minimised.
unfoldable pub insist : Desktop → Banner → Banner × List Call
insist d s =
    if not (d.after == s.banner) && not (d.before == 0)
    then (record s { minimised = true }, minimise d.before ∷ [])
    else (record s { minimised = false }, [])

unfoldable pub present : Desktop → Banner → Banner × List Call
unfolding remember ask_foreground insist
present d s =
    let (after, calls) = insist d (remember d.before s) in
    (after, show_window s.banner ∷ ask_foreground d.attached s.banner ++ calls)

unfoldable pub show : Desktop → Banner → Banner × List Call
unfolding ensure present
show d s =
    let ready = ensure d.created s in if ready.banner == 0 then (ready, []) else present d ready

-- `IsWindow(previous)` is the first argument.
unfoldable pub give_back : Bool → Banner → Banner × List Call
give_back is_window s =
    let cleared = record s { previous = 0 } in
    if not (s.previous == 0) && is_window
    then (
      record cleared { minimised = false },
      (if s.minimised then restore s.previous ∷ [] else []) ++ set_foreground s.previous ∷ [],
    )
    else (cleared, [])

unfoldable pub hide : Bool → Banner → Banner × List Call
unfolding give_back
hide is_window s =
    if s.banner == 0
    then (s, [])
    else (let (after, calls) = give_back is_window s in (after, hide_window s.banner ∷ calls))
