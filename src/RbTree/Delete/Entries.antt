-- ===== src/RbTree/Delete/Entries.antt =====
-- The repair leaves the entries on either side of the place as they are.
use hex_type.Prelude.{
  ℕ, zero, suc, ◌≡◌, ◌∙◌, refl, Option, none, some, [], ◌∷◌, ◌&&◌, inl, inr, Bool-cases, ◌>>=◌,
  Holds, append_assoc,
}
use hex_type.RbTree.{red, black, leaf, node, Frame, in_left, in_right, Parents, node_color}
use hex_type.RbTree.Entries.{before, after}
use hex_type.RbTree.Delete.{
  is_black, delete_case6, delete_case5, delete_case4, delete_case3, delete_case2, delete_case1,
}

module _ {ℓ} {V : Type ℓ} where
  abbrev pub SameSides : Parents V → Parents V → Type ℓ
  SameSides up up' = (before up' ≡ before up) × (after up' ≡ after up)

  SameSides-trans :
      (up₁ up₂ : Parents V) (r : Option (Parents V))
      → SameSides up₁ up₂
      → Holds r (SameSides up₂)
      → Holds r (SameSides up₁)
  SameSides-trans up₁ up₂ none s h = tt
  SameSides-trans up₁ up₂ (some up) s h = (h.0 ∙ s.0, h.1 ∙ s.1)

  case6-SameSides : (p : Frame V) (up : Parents V) → Holds (delete_case6 p up) (SameSides (p ∷ up))
  unfolding delete_case6
  case6-SameSides (in_left c k v (node sc l sk sv (node red rl rk rv rr))) up =
      (refl, simp append_assoc)
  case6-SameSides (in_left c k v (node sc l sk sv (node black rl rk rv rr))) up = tt
  case6-SameSides (in_left c k v (node sc l sk sv leaf)) up = tt
  case6-SameSides (in_right c (node sc (node red ll lk lv lr) sk sv r) k v) up =
      (simp append_assoc, refl)
  case6-SameSides (in_right c (node sc (node black ll lk lv lr) sk sv r) k v) up = tt
  case6-SameSides (in_right c (node sc leaf sk sv r) k v) up = tt
  case6-SameSides p up = tt

  case5-SameSides : (p : Frame V) (up : Parents V) → Holds (delete_case5 p up) (SameSides (p ∷ up))
  unfolding delete_case5
  case5-SameSides (in_left c k v (node black (node red ll lk lv lr) sk sv (node red rl rk rv rr)))
        up =
      case6-SameSides
        (in_left c k v (node black (node red ll lk lv lr) sk sv (node red rl rk rv rr))) up
  case5-SameSides (in_left c k v (node black (node red ll lk lv lr) sk sv r)) up =
      let p : Frame V = in_left c k v (node black ll lk lv (node red lr sk sv r)) in
      SameSides-trans (in_left c k v (node black (node red ll lk lv lr) sk sv r) ∷ up) (p ∷ up)
        (delete_case6 p up) (refl, simp append_assoc) (case6-SameSides p up)
  case5-SameSides (in_right c (node black (node red ll lk lv lr) sk sv (node red rl rk rv rr)) k v)
        up =
      case6-SameSides
        (in_right c (node black (node red ll lk lv lr) sk sv (node red rl rk rv rr)) k v) up
  case5-SameSides (in_right c (node black l sk sv (node red rl rk rv rr)) k v) up =
      let p : Frame V = in_right c (node black (node red l sk sv rl) rk rv rr) k v in
      SameSides-trans (in_right c (node black l sk sv (node red rl rk rv rr)) k v ∷ up) (p ∷ up)
        (delete_case6 p up) (simp append_assoc, refl) (case6-SameSides p up)
  case5-SameSides p up = case6-SameSides p up

  case4-SameSides : (p : Frame V) (up : Parents V) → Holds (delete_case4 p up) (SameSides (p ∷ up))
  unfolding delete_case4
  case4-SameSides (in_left red k v (node black sl sk sv sr)) up =
      elim (Bool-cases (is_black (node_color sl) && is_black (node_color sr))) [
        | inl t ↦ rw t (refl, refl)
        | inr t ↦ rw t (case5-SameSides (in_left red k v (node black sl sk sv sr)) up)
      ]
  case4-SameSides (in_left red k v leaf) up = tt
  case4-SameSides (in_right red (node black sl sk sv sr) k v) up =
      elim (Bool-cases (is_black (node_color sl) && is_black (node_color sr))) [
        | inl t ↦ rw t (refl, refl)
        | inr t ↦ rw t (case5-SameSides (in_right red (node black sl sk sv sr) k v) up)
      ]
  case4-SameSides (in_right red leaf k v) up = tt
  case4-SameSides (in_left c k v s) up = case5-SameSides (in_left c k v s) up
  case4-SameSides (in_right c s k v) up = case5-SameSides (in_right c s k v) up

  sibling_below-SameSides :
      (p p' : Frame V) (up : Parents V) (r : Option (Parents V))
      → ((u u' : Parents V) → SameSides u u' → SameSides (p ∷ u) (p' ∷ u'))
      → Holds r (SameSides up)
      → Holds (r >>= λ up'. some (p' ∷ up')) (SameSides (p ∷ up))
  sibling_below-SameSides p p' up none e h = tt
  sibling_below-SameSides p p' up (some up') e h = e up up' h

  module _ (again : Parents V → Option (Parents V))
      (keeps : (u : Parents V) → Holds (again u) (SameSides u)) where
    case3-SameSides :
        (p : Frame V) (up : Parents V) → Holds (delete_case3 again p up) (SameSides (p ∷ up))
    unfolding delete_case3
    case3-SameSides (in_left black k v (node black sl sk sv sr)) up =
        elim (Bool-cases (is_black (node_color sl) && is_black (node_color sr))) [
          | inl t ↦ rw t (
              sibling_below-SameSides (in_left black k v (node black sl sk sv sr))
                (in_left black k v (node red sl sk sv sr)) up (again up) (λ u u' h. (h.0, rw h.1))
                (keeps up))
          | inr t ↦ rw t (case4-SameSides (in_left black k v (node black sl sk sv sr)) up)
        ]
    case3-SameSides (in_left black k v (node red sl sk sv sr)) up =
        case4-SameSides (in_left black k v (node red sl sk sv sr)) up
    case3-SameSides (in_left black k v leaf) up = tt
    case3-SameSides (in_right black (node black sl sk sv sr) k v) up =
        elim (Bool-cases (is_black (node_color sl) && is_black (node_color sr))) [
          | inl t ↦ rw t (
              sibling_below-SameSides (in_right black (node black sl sk sv sr) k v)
                (in_right black (node red sl sk sv sr) k v) up (again up) (λ u u' h. (rw h.0, h.1))
                (keeps up))
          | inr t ↦ rw t (case4-SameSides (in_right black (node black sl sk sv sr) k v) up)
        ]
    case3-SameSides (in_right black (node red sl sk sv sr) k v) up =
        case4-SameSides (in_right black (node red sl sk sv sr) k v) up
    case3-SameSides (in_right black leaf k v) up = tt
    case3-SameSides p up = case4-SameSides p up

    case2-SameSides :
        (p : Frame V) (up : Parents V) → Holds (delete_case2 again p up) (SameSides (p ∷ up))
    unfolding delete_case2
    case2-SameSides (in_left c k v (node red sl sk sv sr)) up =
        let low : Parents V = (in_left red k v sl) ∷ (in_left black sk sv sr) ∷ up in
        SameSides-trans ((in_left c k v (node red sl sk sv sr)) ∷ up) low
          (delete_case3 again (in_left red k v sl) ((in_left black sk sv sr) ∷ up))
          (refl, simp append_assoc)
          (case3-SameSides (in_left red k v sl) ((in_left black sk sv sr) ∷ up))
    case2-SameSides (in_right c (node red sl sk sv sr) k v) up =
        let low : Parents V = (in_right red sr k v) ∷ (in_right black sl sk sv) ∷ up in
        SameSides-trans ((in_right c (node red sl sk sv sr) k v) ∷ up) low
          (delete_case3 again (in_right red sr k v) ((in_right black sl sk sv) ∷ up))
          (simp append_assoc, refl)
          (case3-SameSides (in_right red sr k v) ((in_right black sl sk sv) ∷ up))
    case2-SameSides (in_left c k v s) up = case3-SameSides (in_left c k v s) up
    case2-SameSides (in_right c s k v) up = case3-SameSides (in_right c s k v) up

  pub delete_case1-SameSides :
      (fuel : ℕ) (up : Parents V) → Holds (delete_case1 fuel up) (SameSides up)
  unfolding delete_case1
  delete_case1-SameSides zero up = tt
  delete_case1-SameSides (suc fuel) [] = (refl, refl)
  delete_case1-SameSides (suc fuel) (p ∷ up) =
      case2-SameSides (delete_case1 fuel) (delete_case1-SameSides fuel) p up
