-- ===== src/Window/Pinned.antt =====
-- ui/window.rs, `save_settings`: a change of the suppression while the Mac has the input.
use remote_input_bridge.Base.{◌≡◌, ◌≢◌, arith}
use remote_input_bridge.Config.{Config}
use remote_input_bridge.App.{AppState, remote_mac}
use remote_input_bridge.Window.Save.{adopt}

-- From every state with the input on the Mac in which the cursor is pinned just when local input is
-- suppressed, as a switch leaves it, a save that changes the suppression changes it at once and leaves
-- the pin as it is, so that the two do not agree any more.
pub adopt_splits :
    (c : Config) (st : AppState)
    → st.target ≡ remote_mac
    → st.clip_active ≡ st.suppress
    → c.suppress_local_input ≢ st.suppress
    → ((adopt c st).target ≡ remote_mac)
      × ((adopt c st).suppress ≡ c.suppress_local_input)
      × ((adopt c st).clip_active ≢ (adopt c st).suppress)
unfolding adopt
adopt_splits c st remote pinned other = (ground arith, ground arith, λ e. other (ground arith))
