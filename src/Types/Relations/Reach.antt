-- ===== src/Types/Relations/Reach.antt =====
-- The types that the relations lead to from a type.
use hex_type.Prelude.{ℕ, ◌≡◌, some, List, Has, get_elem?}
use hex_type.Types.{TypeInfo}

module _ (edges : TypeInfo → List ℕ) (types : List TypeInfo) where
  -- There is a relation from one type to another.
  abbrev pub Edge : ℕ → ℕ → Type 0
  Edge u v = (t : TypeInfo) × (get_elem? types u ≡ some t) × Has v (edges t)

  -- The walks along relations.
  pub data Reach : ℕ → ℕ → Type 0 where
    here : {u : ℕ} → Reach u u
    step : {u v w : ℕ} → Edge u v → Reach v w → Reach u w
