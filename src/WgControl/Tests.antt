-- ===== src/WgControl/Tests.antt =====
-- The theorems on control messages at concrete inputs.
use obscuravpn_client.Prelude.{none, [], ◌∷◌, ◌≡◌, refl}
use obscuravpn_client.WgControl.{parse}

-- A data message that carries data is not a control message.
data_message : parse (4 ∷ 0 ∷ 0 ∷ 0 ∷ 7 ∷ 0 ∷ 0 ∷ 0 ∷ []) ≡ none
unfolding parse
data_message = refl
