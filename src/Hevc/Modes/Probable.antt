-- ===== src/Hevc/Modes/Probable.antt =====
-- The probable modes of hevc_intra.c.
use bc250_vulkan_encode_stop.Base.{ℕ, ◌<◌, ◌≢◌, arith, Bool, true, false, List, [], ◌∷◌}
use bc250_vulkan_encode_stop.Hevc.Modes.{hevc_derive_mpm}

-- Three different modes of the standard.
unfoldable pub AreProbable : List ℕ → Type 0
AreProbable (a ∷ b ∷ c ∷ []) = (a < 35) × (b < 35) × (c < 35) × (a ≢ b) × (a ≢ c) × (b ≢ c)
AreProbable other = ⊥

-- For neighbouring modes below 35, there or not, the probable modes are three different modes
-- below 35.
pub hevc_derive_mpm-AreProbable :
    (left_mode above_mode : ℕ) (left_avail above_avail : Bool)
    → left_mode < 35
    → above_mode < 35
    → AreProbable (hevc_derive_mpm left_mode left_avail above_mode above_avail)
unfolding hevc_derive_mpm AreProbable
hevc_derive_mpm-AreProbable left_mode above_mode true true h k = ground arith
hevc_derive_mpm-AreProbable left_mode above_mode true false h k = ground arith
hevc_derive_mpm-AreProbable left_mode above_mode false true h k = ground arith
hevc_derive_mpm-AreProbable left_mode above_mode false false h k = ground arith
