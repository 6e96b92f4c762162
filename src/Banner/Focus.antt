-- ===== src/Banner/Focus.antt =====
-- ui/banner.rs: the window that had the focus gets it back.
use remote_input_bridge.Base.{ℕ, ◌≡◌, ◌≢◌, refl, sym, ◌∙◌, List, [], ◌∷◌, ◌++◌, Bool, true, false}
use remote_input_bridge.Base.{◌==◌, if◌then◌else◌, arith}
use remote_input_bridge.Banner.{Banner, Call, show_window, hide_window, set_foreground, minimise}
use remote_input_bridge.Banner.{restore, Desktop, ensure, remember, ask_foreground, insist}
use remote_input_bridge.Banner.{present, show, give_back, hide}

same_call : Call → Call → Bool
same_call (minimise a) (minimise b) = a == b
same_call (restore a) (restore b) = a == b
same_call x y = false

pub has_call : Call → List Call → Bool
unfolding same_call
has_call x [] = false
has_call x (y ∷ ys) = if same_call x y then true else has_call x ys

has_call-append :
    (x : Call) (xs ys : List Call)
    → has_call x (xs ++ ys) ≡ (if has_call x xs then true else has_call x ys)
unfolding has_call
has_call-append x [] ys = refl
has_call-append x (y ∷ xs) ys = ground (arith, has_call-append x xs ys)

has_call-cons :
    (x window : ℕ) (ys : List Call)
    → has_call (minimise x) (show_window window ∷ ys) ≡ has_call (minimise x) ys
unfolding has_call
has_call-cons x window ys = refl

ask_foreground-minimise :
    (attached : Bool) (window x : ℕ)
    → has_call (minimise x) (ask_foreground attached window) ≡ false
unfolding ask_foreground has_call
ask_foreground-minimise true window x = refl
ask_foreground-minimise false window x = refl

-- A window is minimised by the show just when it kept the foreground, and the flag says so.
insist-minimised :
    (d : Desktop) (s : Banner)
    → ((insist d s).0.minimised ≡ has_call (minimise d.before) (insist d s).1)
      × ((insist d s).0.previous ≡ s.previous)
      × ((insist d s).0.banner ≡ s.banner)
unfolding insist has_call
insist-minimised d s = (ground arith, ground arith, ground arith)

remembered :
    (before : ℕ) (s : Banner)
    → before ≢ 0
    → before ≢ s.banner
    → remember before s ≡ record s { previous = before }
unfolding remember
remembered before s other apart = ground arith

present-state :
    (d : Desktop) (s : Banner)
    → d.before ≢ 0
    → d.before ≢ s.banner
    → ((present d s).0.minimised ≡ has_call (minimise d.before) (present d s).1)
      × ((present d s).0.previous ≡ d.before)
      × ((present d s).0.banner ≡ s.banner)
unfolding present
present-state d s other apart =
    let r = record s { previous = d.before } in
    rw (remembered d.before s other apart) (
      ground (
        arith,
        insist-minimised d r,
        has_call-append (minimise d.before) (ask_foreground d.attached s.banner) (insist d r).1,
        ask_foreground-minimise d.attached s.banner d.before,
        has_call-cons d.before s.banner (ask_foreground d.attached s.banner ++ (insist d r).1),
      ),
      (insist-minimised d r).1,
      (insist-minimised d r).2,
    )

hide-gives_back :
    (s : Banner)
    → s.banner ≢ 0
    → s.previous ≢ 0
    → ((hide true s).1
        ≡ hide_window s.banner ∷ (if s.minimised then restore s.previous ∷ [] else [])
          ++ set_foreground s.previous ∷ [])
      × ((hide true s).0.previous ≡ 0)
      × ((hide true s).0.minimised ≡ false)
unfolding hide give_back
hide-gives_back s made held = (ground arith, ground arith, ground arith)

-- When another window had the foreground and the banner could be made, the hide that follows a show
-- hides the banner, restores that window just when the show had to minimise it, and gives it the
-- foreground, if it is still there; and nothing is left to give back.
pub show-hide :
    (d : Desktop) (s : Banner)
    → d.before ≢ 0
    → (ensure d.created s).banner ≢ 0
    → d.before ≢ (ensure d.created s).banner
    → ((hide true (show d s).0).1
        ≡ hide_window (ensure d.created s).banner
            ∷ (if has_call (minimise d.before) (show d s).1 then restore d.before ∷ [] else [])
          ++ set_foreground d.before ∷ [])
      × ((hide true (show d s).0).0.previous ≡ 0)
      × ((hide true (show d s).0).0.minimised ≡ false)
show-hide d s other made apart =
    let r = ensure d.created s in
    let (flag, held, kept) = present-state d r other apart in
    let back =
      hide-gives_back (present d r).0 (λ e. made (sym kept ∙ e)) (λ e. other (sym held ∙ e)) in
    let shown : show d s ≡ present d r = unfold show in ground (arith, made) in
    rw shown (rw (flag, held, kept) at back)
