-- ===== src/Tray/Tip.antt =====
-- ui/tray.rs, `set_tip`: the tip fits its array.
use remote_input_bridge.Base.{ℕ, ◌≡◌, refl, ◌∙◌, ap, sym, ◌-◌, ◌<◌, min, suc, List, [], ◌∷◌, ◌++◌}
use remote_input_bridge.Base.{some, length, take, drop, get_elem?, arith, length-append}
use remote_input_bridge.Base.{length-take, length-drop, take-length}
use remote_input_bridge.Tray.{encode_utf16, set_tip}

get_elem?-length : (xs ys : List ℕ) (y : ℕ) → get_elem? (xs ++ y ∷ ys) (length xs) ≡ some y
get_elem?-length [] ys y = refl
get_elem?-length (x ∷ xs) ys y = get_elem?-length xs ys y

-- In an array that is not empty, writing a tip never panics: the array keeps its length, and holds as
-- many units of the text as fit before a zero, and the zero.
pub set_tip-Fits :
    (tip text : List ℕ)
    → 0 < length tip
    → (t : List ℕ) × (set_tip tip text ≡ some t)
      × (length t ≡ length tip)
      × (take (min (length tip - 1) (length (encode_utf16 text))) t
          ≡ take (length tip - 1) (encode_utf16 text))
      × (get_elem? t (min (length tip - 1) (length (encode_utf16 text))) ≡ some 0)
unfolding set_tip
set_tip-Fits tip text h =
    let units = encode_utf16 text in
    let encoded = take (length tip - 1) units in
    let size = length-take (length tip - 1) units in
    let after = drop (suc (length encoded)) tip in
    (
      encoded ++ 0 ∷ after,
      ground (arith, size),
      omega
          (arith, size, length-append encoded (0 ∷ after), length-drop (suc (length encoded)) tip),
      take-length encoded (0 ∷ after) _ size,
      ap (get_elem? (encoded ++ 0 ∷ after)) (sym size) ∙ get_elem?-length encoded after 0,
    )
