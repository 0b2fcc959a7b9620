-- ===== src/Engineers/Detail/Ordered.antt =====
-- The list view: which engineers it shows, and in which order.
use mathlib.Core.List.{Perm}
use mathlib.Core.List.Perm as P
use enterprise_llm_tracker.Base.{
  String, Bool, true, false, ◌≡◌, refl, sym, ap, ◌∙◌, subst, List, [], ◌∷◌, none, All, map, inl,
  inr, Bool-cases,
}
use enterprise_llm_tracker.Base.Act.{Result, ok}
use enterprise_llm_tracker.Engineers.{EngineerRow}
use enterprise_llm_tracker.Engineers.Detail.{
  EngineerWithUsage, insert_by, order_by, list_engineers, attach_usage, list, or_else,
}
use enterprise_llm_tracker.Float.{Float}
use enterprise_llm_tracker.Usage.Queries.{select, answer}

module _ {ℓ} {A : Type ℓ} (first : A → A → Bool) where
  -- every element comes before all that follow
  pub IsInOrder : List A → Type ℓ
  IsInOrder [] = Unit
  IsInOrder (x ∷ xs) = All (λ y. first x y ≡ true) xs × IsInOrder xs

  insert_by-Perm : (x : A) (ys : List A) → Perm (insert_by first x ys) (x ∷ ys)
  unfolding insert_by
  insert_by-Perm x [] = P.refl (x ∷ [])
  insert_by-Perm x (y ∷ ys) = elim (Bool-cases (first x y)) [
    | inl before ↦ rw (before, insert_by) (P.refl (x ∷ y ∷ ys))
    | inr after ↦ rw (after, insert_by) (P.trans (P.cons y (insert_by-Perm x ys)) (P.swap x y ys))
  ]

  order_by-Perm : (xs : List A) → Perm (order_by first xs) xs
  unfolding order_by
  order_by-Perm [] = P.refl []
  order_by-Perm (x ∷ xs) =
      P.trans (insert_by-Perm x (order_by first xs)) (P.cons x (order_by-Perm xs))

  module _ (total : (a b : A) → first a b ≡ false → first b a ≡ true)
      (trans : (a b c : A) → first a b ≡ true → first b c ≡ true → first a c ≡ true) where
    All-insert_by :
        (Q : A → Type 0) (x : A) (ys : List A) → Q x → All Q ys → All Q (insert_by first x ys)
    unfolding insert_by
    All-insert_by Q x [] q qs = (q, tt)
    All-insert_by Q x (y ∷ ys) q qs = elim (Bool-cases (first x y)) [
      | inl before ↦ rw (before, insert_by) (q, qs)
      | inr after ↦ rw (after, insert_by) (qs.0, All-insert_by Q x ys q qs.1)
    ]

    before-All :
        (x y : A) (ys : List A)
        → first x y ≡ true
        → All (λ z. first y z ≡ true) ys
        → All (λ z. first x z ≡ true) ys
    before-All x y [] h hs = tt
    before-All x y (z ∷ zs) h hs = (trans x y z h hs.0, before-All x y zs h hs.1)

    insert_by-IsInOrder : (x : A) (ys : List A) → IsInOrder ys → IsInOrder (insert_by first x ys)
    unfolding insert_by IsInOrder
    insert_by-IsInOrder x [] h = (tt, tt)
    insert_by-IsInOrder x (y ∷ ys) h = elim (Bool-cases (first x y)) [
      | inl before ↦ rw (before, insert_by) ((before, before-All x y ys before h.0), h)
      | inr after ↦
          rw (after, insert_by)
            (
              All-insert_by (λ z. first y z ≡ true) x ys (total x y after) h.0,
              insert_by-IsInOrder x ys h.1,
            )
    ]

    order_by-IsInOrder : (xs : List A) → IsInOrder (order_by first xs)
    unfolding order_by IsInOrder
    order_by-IsInOrder [] = tt
    order_by-IsInOrder (x ∷ xs) = insert_by-IsInOrder x (order_by first xs) (order_by-IsInOrder xs)

module _ {F : Type 0} (fl : Float F) (cost_counter : String → String → Result F) where
  engineers_attached :
      (rows : List (EngineerRow F))
      → map (λ (e : EngineerWithUsage F). e.engineer) (map (attach_usage fl cost_counter) rows)
        ≡ rows
  unfolding attach_usage
  engineers_attached [] = refl
  engineers_attached (r ∷ rows) = ap (λ rs. r ∷ rs) (engineers_attached rows)

  -- The list view shows exactly the active engineers, each as often as the table has them, in the
  -- order of their names, if the database's collation is a total order. That a counter cannot be read
  -- hides no engineer.
  pub list-IsInOrder :
      (collates : String → String → Bool)
      → ((a b : String) → collates a b ≡ false → collates b a ≡ true)
      → ((a b c : String) → collates a b ≡ true → collates b c ≡ true → collates a c ≡ true)
      → (t : List (EngineerRow F)) (out : List (EngineerWithUsage F))
      → list fl cost_counter collates none t ≡ ok out
      → IsInOrder (λ a b. collates a.name b.name) (map (λ e. e.engineer) out)
        × Perm (map (λ e. e.engineer) out) (select (λ r. r.active) t)
  unfolding list list_engineers answer
  list-IsInOrder collates total trans t out h =
      let first : EngineerRow F → EngineerRow F → Bool = λ a b. collates a.name b.name in
      let active = select (λ (r : EngineerRow F). r.active) t in
      let shown : order_by first active ≡ map (λ e. e.engineer) out =
        sym (engineers_attached (order_by first active))
        ∙ ap (λ r. map (λ (e : EngineerWithUsage F). e.engineer) (or_else [] r)) h in
      (
        subst (IsInOrder first) shown (
            order_by-IsInOrder first (λ a b. total a.name b.name)
              (λ a b c. trans a.name b.name c.name) active),
        subst (λ rs. Perm rs active) shown (order_by-Perm first active),
      )
