-- ===== src/Sync/Bits.antt =====
-- The mask of `awdl_sync_update_last` in src/sync.c, which clears the two lowest bits.
use owl.Base.{ℕ, ◌*◌, ◌/◌, ◌<◌, ◌^◌, ◌≡◌, refl, bit_and, true, agree, agree_lem}

every_counter : agree (λ c. bit_and c 0xfffc) (λ c. c / 4 * 4) (2 ^ 16) ≡ true
unfolding agree
every_counter = refl

pub bit_and_fffc : (c : ℕ) → c < 2 ^ 16 → bit_and c 0xfffc ≡ c / 4 * 4
bit_and_fffc c h = agree_lem (λ c. bit_and c 0xfffc) (λ c. c / 4 * 4) (2 ^ 16) h every_counter
