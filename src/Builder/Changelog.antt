-- ===== src/Builder/Changelog.antt =====
-- src/batch_mint_builder.rs: `make_changelog_path`.
use bubblegum_batch_sdk.Base.{ℕ, suc, ◌+◌, ◌-◌, ◌/◌, ◌%◌, ◌^◌, List, [], ◌∷◌, ◌++◌}
use bubblegum_batch_sdk.Base.Bytes.{Bytes}
use bubblegum_batch_sdk.Deps.Data.{ChangeLog, path_len}
use bubblegum_batch_sdk.Model.{SplPathNode}

-- `.enumerate().map(…)` from level `lvl` on, with the arithmetic of u32. A path has at most 30
-- nodes, so that no shift reaches 32.
unfoldable pub path_nodes : ℕ → ℕ → ℕ → List Bytes → List SplPathNode
path_nodes len index lvl [] = []
path_nodes len index lvl (n ∷ ns) =
    record { node = n; index = (2 ^ (len - lvl) + index / 2 ^ lvl) % 2 ^ 32 }
    ∷ path_nodes len index (suc lvl) ns

unfoldable pub make_changelog_path : ChangeLog → List SplPathNode
make_changelog_path changelog =
    path_nodes (path_len changelog) changelog.index 0 changelog.path
    ++ record { node = changelog.root; index = 1 } ∷ []
