-- ===== src/Builder/Built.antt =====
-- What `build_batch_mint` of src/batch_mint_builder.rs copies from the builder.
use bubblegum_batch_sdk.Base.{◌≡◌, sym, ap, ok, >>=-eq-ok, ok_injective}
use bubblegum_batch_sdk.Base.Maps.{values}
use bubblegum_batch_sdk.Deps.{Deps}
use bubblegum_batch_sdk.Model.{BatchMint}
use bubblegum_batch_sdk.Builder.State.{BatchMintBuilder}
use bubblegum_batch_sdk.Builder.Building.{check_mints, build_batch_mint}

pub build_batch_mint_sound :
    (x : Deps) (b : BatchMintBuilder x) {bm : BatchMint x}
    → build_batch_mint x b ≡ ok bm
    → (bm.tree_id ≡ b.tree_account) × (bm.batch_mints ≡ values b.mints)
unfolding build_batch_mint
build_batch_mint_sound x b h =
    let (u, checked, built) = >>=-eq-ok (check_mints x b.collection_config (values b.mints)) _ h in
    let same = sym (ok_injective built) in (ap (λ m. m.tree_id) same, ap (λ m. m.batch_mints) same)
