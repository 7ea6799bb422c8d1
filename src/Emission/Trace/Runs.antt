-- ===== src/Emission/Trace/Runs.antt =====
-- Pieces of emitted code that work on addresses of their own, and what they do one after the other.
use hex_type.Prelude.{
  ℕ, ◌≡◌, refl, sym, subst, ◌∙◌, Option, none, some, List, [], ◌∷◌, ◌++◌, inl, inr, Has, Returns,
  ◌>>=◌,
}
use hex_type.Runtime.{Runtime, get_hash}
use hex_type.Objects.Find.{IsObjectMap, find, update-IsObjectMap}
use hex_type.Emission.Trace.Steps.{Adds, Removes}
use hex_type.Emission.Trace.Frame.{
  InWindow, Fronts, Once, Adds-Fronts, Removes-Fronts, Adds-find, Removes-find, Adds-Once,
  Removes-Once, Adds-Once_self, Removes-find_self,
}
use hex_type.Types.Relations.Spans.{Has-append_left, Has-append_right, Has-append_cases}

-- No address comes twice.
abbrev pub NoDup : List ℕ → Type 0
NoDup [] = Unit
NoDup (x ∷ xs) = ((Has x xs) → ⊥) × NoDup xs

pub NoDup-append :
    (xs ys : List ℕ) → NoDup (xs ++ ys) → NoDup xs × NoDup ys × ((x : ℕ) → Has x xs → Has x ys → ⊥)
NoDup-append [] ys h = (tt, h, λ x k. absurd k)
NoDup-append (x ∷ xs) ys (n, h) =
    let (a, b, c) = NoDup-append xs ys h in
    (
      (λ k. n (Has-append_left x xs ys k), a),
      b,
      λ y k l. elim k [ inl e ↦ n (Has-append_right x xs ys (rw (← e) l)) | inr k' ↦ c y k' l ],
    )

module _ (w : ℕ) where
  -- The trees are red-black trees, and all objects lie in the window.
  abbrev pub Good : Runtime → Type 0
  Good s = IsObjectMap s × Fronts w s

  -- For an address, nothing has changed.
  abbrev pub Framed : ℕ → Runtime → Runtime → Type 0
  Framed p s s' = (find p s' ≡ find p s) × (Once p s → Once p s')

  -- From a good state in which its addresses satisfy `P`, the code returns a good state in which they
  -- satisfy `Q`, and leaves the other addresses of the window alone.
  abbrev pub Runs :
      (ℕ → Runtime → Type 0) → (ℕ → Runtime → Type 0) → List ℕ → (Runtime → Option Runtime) → Type 0
  Runs P Q xs code =
      (s : Runtime)
      → Good s
      → ((x : ℕ) → Has x xs → P x s)
      → Returns (code s) λ s'.
        Good s'
        × ((p : ℕ) → InWindow w p → (Has p xs → ⊥) → Framed p s s')
        × ((x : ℕ) → Has x xs → Q x s')

  pub Runs-equal :
      (P Q : ℕ → Runtime → Type 0) (xs : List ℕ) (f g : Runtime → Option Runtime)
      → ((s : Runtime) → f s ≡ g s)
      → Runs P Q xs g
      → Runs P Q xs f
  Runs-equal P Q xs f g same runs s good pre =
      let (s', e, h) = runs s good pre in (s', same s ∙ e, h)

  abbrev pub Stable : (ℕ → Runtime → Type 0) → Type 0
  Stable P = (p : ℕ) (s s' : Runtime) → Framed p s s' → P p s → P p s'

  module _ (P Q : ℕ → Runtime → Type 0) (stable : Stable P) (stays : Stable Q) where
    pub Runs-some : Runs P Q [] some
    Runs-some s good pre = (s, refl, (good, λ p i n. (refl, λ o. o), λ x h. absurd h))

    pub Runs-bind :
        (xs ys : List ℕ) (f g : Runtime → Option Runtime)
        → NoDup (xs ++ ys)
        → ((x : ℕ) → Has x (xs ++ ys) → InWindow w x)
        → Runs P Q xs f
        → Runs P Q ys g
        → Runs P Q (xs ++ ys) (λ s. f s >>= g)
    Runs-bind xs ys f g nodup inside runs_f runs_g s good pre =
        let (_, _, apart) = NoDup-append xs ys nodup in
        let (s₁, e₁, (good₁, frame₁, post₁)) =
          runs_f s good (λ x h. pre x (Has-append_left x xs ys h)) in
        let (s₂, e₂, (good₂, frame₂, post₂)) = runs_g s₁ good₁ (λ x h.
          let k = Has-append_right x xs ys h in
          stable x s s₁ (frame₁ x (inside x k) (λ l. apart x l h)) (pre x k)) in
        (
          s₂,
          rw (e₁, ◌>>=◌) e₂,
          (
            good₂,
            λ p i n.
                let a = frame₁ p i (λ h. n (Has-append_left p xs ys h)) in
                let b = frame₂ p i (λ h. n (Has-append_right p xs ys h)) in
                (b.0 ∙ a.0, λ o. b.1 (a.1 o)),
            λ x h. elim (Has-append_cases x xs ys h) [
              | inl l ↦ stays x s₁ s₂ (frame₂ x (inside x h) (λ r. apart x l r)) (post₁ x l)
              | inr r ↦ post₂ x r
            ],
          ),
        )

  -- Nothing is found at the address.
  abbrev pub Missing : ℕ → Runtime → Type 0
  Missing p s = find p s ≡ none

  pub Missing-Stable : Stable Missing
  Missing-Stable p s s' f e = f.0 ∙ e

  pub Once-Stable : Stable Once
  Once-Stable p s s' f o = f.1 o

  pub Adds-Runs :
      (a hash offset rule : ℕ) (f : Runtime → Option Runtime)
      → InWindow w a
      → ((s : Runtime) → IsObjectMap s → Returns (f s) (Adds a hash offset rule s))
      → Runs Missing Once (a ∷ []) f
  Adds-Runs a hash offset rule f wa adds s (ok, fronts) pre =
      let (s', e, h) = adds s ok in
      let (e', table, (tree, _, _), _, _, _, _) = h in
      (
        s',
        e,
        (
          (
            update-IsObjectMap s (get_hash a) e' s' ok tree table,
            Adds-Fronts w a a s s' wa wa hash offset rule h fronts,
          ),
          λ p i n. (
            Adds-find w a p s s' wa i hash offset rule h fronts (λ q. n (inl q)),
            Adds-Once w a p s s' wa i hash offset rule h (λ q. n (inl q)),
          ),
          λ x k. elim k [
            | inl q ↦
                subst (λ y. Once y s') (sym q)
                  (Adds-Once_self w a s s' wa hash offset rule h fronts (pre a (inl refl)))
            | inr z ↦ absurd z
          ],
        ),
      )

  pub Removes-Runs :
      (a : ℕ) (f : Runtime → Option Runtime)
      → InWindow w a
      → ((s : Runtime) → IsObjectMap s → Returns (f s) (Removes a s))
      → Runs Once Missing (a ∷ []) f
  Removes-Runs a f wa removes s (ok, fronts) pre =
      let (s', e, h) = removes s ok in
      let (e', table, (tree, _)) = h in
      (
        s',
        e,
        (
          (
            update-IsObjectMap s (get_hash a) e' s' ok tree table,
            Removes-Fronts w a a s s' wa wa h fronts,
          ),
          λ p i n. (
            Removes-find w a p s s' wa i h (λ q. n (inl q)),
            Removes-Once w a p s s' wa i h (λ q. n (inl q)),
          ),
          λ x k. elim k [
            | inl q ↦
                subst (λ y. Missing y s') (sym q)
                  (Removes-find_self w a s s' wa h (pre a (inl refl)))
            | inr z ↦ absurd z
          ],
        ),
      )
