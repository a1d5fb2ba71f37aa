-- ===== src/Model/Conversions.antt =====
-- The conversions between the changelog events of the sdk and those of blockbuster.
use bubblegum_batch_sdk.Base.{◌≡◌, refl, ap, List, [], ◌∷◌, map}
use bubblegum_batch_sdk.Model.{
  PathNode, SplPathNode, ChangeLogEventV1, BlockbusterChangeLogEventV1, from_spl, to_spl,
  to_blockbuster, from_blockbuster,
}

from_spl-to_spl : (ns : List PathNode) → map from_spl (map to_spl ns) ≡ ns
unfolding from_spl to_spl
from_spl-to_spl [] = refl
from_spl-to_spl (n ∷ ns) = ap (λ r. n ∷ r) (from_spl-to_spl ns)

pub to_spl-from_spl : (ns : List SplPathNode) → map to_spl (map from_spl ns) ≡ ns
unfolding from_spl to_spl
to_spl-from_spl [] = refl
to_spl-from_spl (n ∷ ns) = ap (λ r. n ∷ r) (to_spl-from_spl ns)

-- No conversion of a changelog event loses anything: each of the two undoes the other.
pub blockbuster_inverse :
    ((e : ChangeLogEventV1) → from_blockbuster (to_blockbuster e) ≡ e)
    × ((e : BlockbusterChangeLogEventV1) → to_blockbuster (from_blockbuster e) ≡ e)
unfolding from_blockbuster to_blockbuster
blockbuster_inverse = (
  λ e. ap (λ p. record e { path = p }) (from_spl-to_spl e.path),
  λ e. ap (λ p. record e { path = p }) (to_spl-from_spl e.path),
)
