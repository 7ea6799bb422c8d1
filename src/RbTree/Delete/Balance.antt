-- ===== src/RbTree/Delete/Balance.antt =====
-- `delete_case1` to `delete_case6` repair a place that is one black node short, and follow no null
-- pointer.
use hex_type.Prelude.{
  ℕ, zero, suc, ◌<◌, ◌≡◌, refl, false, some, [], ◌∷◌, ◌&&◌, inl, inr, Bool-cases, Returns, length,
  arith,
}
use hex_type.RbTree.{
  Color, red, black, Tree, node, Frame, in_left, in_right, Parents, node_color, sibling,
  frame_color,
}
use hex_type.RbTree.Balance.{EvenAt, ProperAt}
use hex_type.RbTree.Delete.{
  is_black, black_family, delete_case6, delete_case5, delete_case4, delete_case3, delete_case2,
  delete_case1,
}

module _ {ℓ} {V : Type ℓ} where
  -- The siblings are one black node higher than the place.
  abbrev pub Short : ℕ → Parents V → Type 0
  Short h up = EvenAt up (suc h) × ProperAt up black

  abbrev pub TakesAny : Parents V → Type 0
  TakesAny [] = Unit
  TakesAny (p ∷ up) = frame_color p ≡ black

  -- The place is in balance, and takes a node of either color.
  abbrev pub Healed : ℕ → Parents V → Type 0
  Healed h up = EvenAt up h × ProperAt up black × TakesAny up

  -- Where a red node is proper, a black one is.
  pub ProperAt-black : (up : Parents V) → ProperAt up red → ProperAt up black
  ProperAt-black [] a = refl
  ProperAt-black (in_left red k v r ∷ up) a = ground arith
  ProperAt-black (in_left black k v r ∷ up) a = a
  ProperAt-black (in_right red l k v ∷ up) a = ground arith
  ProperAt-black (in_right black l k v ∷ up) a = a

  case6_left :
      (h : ℕ) (c : Color) (k : ℕ) (v : V) (l : Tree V) (sk : ℕ) (sv : V) (rl : Tree V) (rk : ℕ)
      (rv : V) (rr : Tree V) (up : Parents V)
      → Short h (in_left c k v (node black l sk sv (node red rl rk rv rr)) ∷ up)
      → Returns
          (delete_case6 (in_left c k v (node black l sk sv (node red rl rk rv rr))) up)
          (Healed h)
  unfolding delete_case6
  case6_left h red k v l sk sv rl rk rv rr up d =
      (in_left black k v l ∷ in_left red sk sv (node black rl rk rv rr) ∷ up, refl, ground arith)
  case6_left h black k v l sk sv rl rk rv rr up d =
      (in_left black k v l ∷ in_left black sk sv (node black rl rk rv rr) ∷ up, refl, ground arith)

  case6_right :
      (h : ℕ) (c : Color) (ll : Tree V) (lk : ℕ) (lv : V) (lr : Tree V) (sk : ℕ) (sv : V)
      (r : Tree V) (k : ℕ) (v : V) (up : Parents V)
      → Short h (in_right c (node black (node red ll lk lv lr) sk sv r) k v ∷ up)
      → Returns
          (delete_case6 (in_right c (node black (node red ll lk lv lr) sk sv r) k v) up)
          (Healed h)
  unfolding delete_case6
  case6_right h red ll lk lv lr sk sv r k v up d =
      (in_right black r k v ∷ in_right red (node black ll lk lv lr) sk sv ∷ up, refl, ground arith)
  case6_right h black ll lk lv lr sk sv r k v up d = (
    in_right black r k v ∷ in_right black (node black ll lk lv lr) sk sv ∷ up,
    refl,
    ground arith,
  )

  delete_case5-Healed :
      (h : ℕ) (p : Frame V) (up : Parents V)
      → Short h (p ∷ up)
      → node_color (sibling p) ≡ black
      → black_family (sibling p) ≡ some false
      → Returns (delete_case5 p up) (Healed h)
  unfolding delete_case5
  delete_case5-Healed h
        (in_left c k v (node black (node red ll lk lv lr) sk sv (node red rl rk rv rr))) up d s f =
      case6_left h c k v (node red ll lk lv lr) sk sv rl rk rv rr up d
  delete_case5-Healed h (in_left red k v (node black (node red ll lk lv lr) sk sv r)) up d s f =
      case6_left h red k v ll lk lv lr sk sv r up (ground arith)
  delete_case5-Healed h (in_left black k v (node black (node red ll lk lv lr) sk sv r)) up d s f =
      case6_left h black k v ll lk lv lr sk sv r up (ground arith)
  delete_case5-Healed h (in_left c k v (node black l sk sv (node red rl rk rv rr))) up d s f =
      case6_left h c k v l sk sv rl rk rv rr up d
  delete_case5-Healed h
        (in_right c (node black (node red ll lk lv lr) sk sv (node red rl rk rv rr)) k v) up d s f =
      case6_right h c ll lk lv lr sk sv (node red rl rk rv rr) k v up d
  delete_case5-Healed h (in_right red (node black l sk sv (node red rl rk rv rr)) k v) up d s f =
      case6_right h red l sk sv rl rk rv rr k v up (ground arith)
  delete_case5-Healed h (in_right black (node black l sk sv (node red rl rk rv rr)) k v) up d s f =
      case6_right h black l sk sv rl rk rv rr k v up (ground arith)
  delete_case5-Healed h (in_right c (node black (node red ll lk lv lr) sk sv r) k v) up d s f =
      case6_right h c ll lk lv lr sk sv r k v up d
  delete_case5-Healed h p up d s f = ground arith

  -- Below a black parent the sibling must have a red child; below a red one both sorts are repaired.
  delete_case4-Healed :
      (h : ℕ) (p : Frame V) (up : Parents V)
      → Short h (p ∷ up)
      → node_color (sibling p) ≡ black
      → (frame_color p ≡ black → black_family (sibling p) ≡ some false)
      → Returns (delete_case4 p up) (Healed h)
  unfolding delete_case4
  delete_case4-Healed h (in_left red k v (node black sl sk sv sr)) up d s f =
      elim (Bool-cases (is_black (node_color sl) && is_black (node_color sr))) [
        | inl t ↦
            rw t (
              in_left black k v (node red sl sk sv sr) ∷ up,
              refl,
              ground (arith, ProperAt-black up),
            )
        | inr t ↦
            rw t (delete_case5-Healed h (in_left red k v (node black sl sk sv sr)) up d refl (rw t))
      ]
  delete_case4-Healed h (in_right red (node black sl sk sv sr) k v) up d s f =
      elim (Bool-cases (is_black (node_color sl) && is_black (node_color sr))) [
        | inl t ↦ rw t (
          in_right black (node red sl sk sv sr) k v ∷ up,
          refl,
          ground (arith, ProperAt-black up),
        )
        | inr t ↦
            rw t
              (delete_case5-Healed h (in_right red (node black sl sk sv sr) k v) up d refl (rw t))
      ]
  delete_case4-Healed h (in_left black k v (node black sl sk sv sr)) up d s f =
      delete_case5-Healed h (in_left black k v (node black sl sk sv sr)) up d s (f refl)
  delete_case4-Healed h (in_right black (node black sl sk sv sr) k v) up d s f =
      delete_case5-Healed h (in_right black (node black sl sk sv sr) k v) up d s (f refl)
  delete_case4-Healed h p up d s f = ground arith

  -- At a place in a red-black tree that is one black node too low, `delete_case1` with more fuel than
  -- the place has parents follows no null pointer and ends in a place that is not too low, in a tree
  -- with no red child of a red node.
  pub delete_case1-Healed :
      (h fuel : ℕ) (up : Parents V)
      → length up < fuel
      → Short h up
      → Returns (delete_case1 fuel up) (Healed h)
  unfolding delete_case1 delete_case2 delete_case3
  delete_case1-Healed h zero up n d = elim n [ ]
  delete_case1-Healed h (suc fuel) [] n d = ([], refl, ground arith)
  delete_case1-Healed h (suc fuel) (in_left black k v (node black sl sk sv sr) ∷ up) n d =
      elim (Bool-cases (is_black (node_color sl) && is_black (node_color sr))) [
        | inl t ↦
            let (up', run, healed) =
              delete_case1-Healed (suc h) fuel up (omega arith) (ground arith) in
            rw t (rw run (in_left black k v (node red sl sk sv sr) ∷ up', refl, ground arith))
        | inr t ↦ rw t (
            delete_case4-Healed h (in_left black k v (node black sl sk sv sr)) up d refl
              (λ _. rw t))
      ]
  delete_case1-Healed h (suc fuel) (in_right black (node black sl sk sv sr) k v ∷ up) n d =
      elim (Bool-cases (is_black (node_color sl) && is_black (node_color sr))) [
        | inl t ↦
            let (up', run, healed) =
              delete_case1-Healed (suc h) fuel up (omega arith) (ground arith) in
            rw t (rw run (in_right black (node red sl sk sv sr) k v ∷ up', refl, ground arith))
        | inr t ↦ rw t (
            delete_case4-Healed h (in_right black (node black sl sk sv sr) k v) up d refl
              (λ _. rw t))
      ]
  delete_case1-Healed h (suc fuel) (in_left red k v (node black sl sk sv sr) ∷ up) n d =
      delete_case4-Healed h (in_left red k v (node black sl sk sv sr)) up d refl (λ e. cc)
  delete_case1-Healed h (suc fuel) (in_right red (node black sl sk sv sr) k v ∷ up) n d =
      delete_case4-Healed h (in_right red (node black sl sk sv sr) k v) up d refl (λ e. cc)
  delete_case1-Healed h (suc fuel) (in_left black k v (node red sl sk sv sr) ∷ up) n d =
      delete_case4-Healed h (in_left red k v sl) (in_left black sk sv sr ∷ up) (ground arith)
        (ground arith) (λ e. cc)
  delete_case1-Healed h (suc fuel) (in_right black (node red sl sk sv sr) k v ∷ up) n d =
      delete_case4-Healed h (in_right red sr k v) (in_right black sl sk sv ∷ up) (ground arith)
        (ground arith) (λ e. cc)
  delete_case1-Healed h (suc fuel) (p ∷ up) n d = ground arith
