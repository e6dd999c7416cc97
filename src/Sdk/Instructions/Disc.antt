-- ===== src/Sdk/Instructions/Disc.antt =====
-- sdk/src/constants.ts: the discriminators of the instructions.
use pokeage.Prelude.{ℕ, ◌≡◌, ◌↔◌, refl, ap, sym, ◌∙◌, List, ◌∷◌, length, ◌==◌, if◌then◌else◌}
use pokeage.Sdk.Instructions.{
  Ix, initialize, deploy_agent, catch_attempt, gym_challenge, force_evolve, mint_card, list_card,
  cancel_listing, buy_card, instant_sell, update_floor, set_instant_sell, withdraw_treasury,
  set_pause, ix_disc,
}

-- A dispatcher on the third byte, which already tells all fourteen apart.
abbrev third : List ℕ → ℕ
third (a ∷ b ∷ c ∷ rest) = c
third _ = 0

dispatch : ℕ → Ix
dispatch b =
    if b == 109
    then initialize
    else if b == 144
    then deploy_agent
    else if b == 5
    then catch_attempt
    else if b == 232
    then gym_challenge
    else if b == 242
    then force_evolve
    else if b == 225
    then mint_card
    else if b == 80
    then list_card
    else if b == 50
    then cancel_listing
    else if b == 149
    then buy_card
    else if b == 93
    then instant_sell
    else if b == 204
    then update_floor
    else if b == 92
    then set_instant_sell
    else if b == 122
    then withdraw_treasury
    else set_pause

dispatch-disc : (i : Ix) → dispatch (third (ix_disc i)) ≡ i
unfolding ix_disc dispatch
dispatch-disc initialize = refl
dispatch-disc _ = refl

length-ix_disc : (i : Ix) → length (ix_disc i) ≡ 8
unfolding ix_disc
length-ix_disc initialize = refl
length-ix_disc _ = refl

-- No two instructions have the same discriminator, and each discriminator has 8 bytes.
pub ix_disc_distinct : (i j : Ix) → (length (ix_disc i) ≡ 8) × ((ix_disc i ≡ ix_disc j) ↔ (i ≡ j))
ix_disc_distinct i j = (
  length-ix_disc i,
  (
    λ e. sym (dispatch-disc i) ∙ ap (λ d. dispatch (third d)) e ∙ dispatch-disc j,
    λ e. ap ix_disc e,
  ),
)
