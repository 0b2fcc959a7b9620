-- ===== src/Reverts/Distinct.antt =====
-- No pull request is found twice.
use enterprise_llm_tracker.Base.{
  String, false, ◌||◌, ◌≡◌, refl, sym, ap, ◌∙◌, subst, inl, inr, Option, none, some, List, [], ◌∷◌,
  ◌++◌, map, arith, str_eq, Bool-cases, Option-cases, eq_iff,
}
use enterprise_llm_tracker.Base.Dict.{Dict, lookup, insert}
use enterprise_llm_tracker.Float.{Float}
use enterprise_llm_tracker.Models.{GitHubPr}
use enterprise_llm_tracker.Reverts.{
  RevertFinding, is_member, detect_from_title, detect_from_file_overlap, key_of, add_new,
  detect_loop, detect_reverts,
}

-- no text occurs twice
abbrev pub Distinct : List String → Type 0
Distinct [] = Unit
Distinct (k ∷ ks) = (is_member k ks ≡ false) × Distinct ks

-- the dictionary's keys are those of its findings, and distinct
record IsKeyed (m : Dict RevertFinding) : Type 0 where
  own : map (λ e. e.0) m ≡ map (λ e. key_of e.1) m
  distinct : Distinct (map (λ e. e.0) m)

insert_absent :
    (k : String) (f : RevertFinding) (m : Dict RevertFinding)
    → lookup k m ≡ none
    → insert k f m ≡ m ++ (k, f) ∷ []
unfolding lookup insert
insert_absent k f [] h = refl
insert_absent k f (e ∷ m) h = elim (Bool-cases (str_eq e.0 k)) [
  | inl same ↦ absurd (ground (arith, same, h))
  | inr other ↦ rw other (ap (λ r. e ∷ r) (insert_absent k f m (ground (arith, other, h))))
]

is_member-snoc :
    (j k : String) (f : RevertFinding) (m : Dict RevertFinding)
    → is_member j (map (λ e. e.0) (m ++ (k, f) ∷ []))
      ≡ (is_member j (map (λ e. e.0) m) || str_eq k j)
unfolding is_member
is_member-snoc j k f [] = ground arith
is_member-snoc j k f (e ∷ m) = ground (arith, is_member-snoc j k f m)

Distinct-snoc :
    (k : String) (f : RevertFinding) (m : Dict RevertFinding)
    → lookup k m ≡ none
    → Distinct (map (λ e. e.0) m)
    → Distinct (map (λ e. e.0) (m ++ (k, f) ∷ []))
unfolding lookup is_member
Distinct-snoc k f [] h d = (refl, tt)
Distinct-snoc k f (e ∷ m) h d = (
  is_member-snoc e.0 k f m ∙ ground (arith, h, d.0, eq_iff k e.0, eq_iff e.0 k),
  Distinct-snoc k f m (ground (arith, h)) d.1,
)

own_snoc :
    (f : RevertFinding) (m : Dict RevertFinding)
    → map (λ e. e.0) m ≡ map (λ e. key_of e.1) m
    → map (λ e. e.0) (m ++ (key_of f, f) ∷ []) ≡ map (λ e. key_of e.1) (m ++ (key_of f, f) ∷ [])
own_snoc f m h =
    map_snoc (λ e. e.0) m (key_of f, f)
    ∙ ap (λ ks. ks ++ key_of f ∷ []) h
    ∙ sym (map_snoc (λ e. key_of e.1) m (key_of f, f))
  where
    map_snoc :
        (g : String × RevertFinding → String) (m : Dict RevertFinding) (e : String × RevertFinding)
        → map g (m ++ e ∷ []) ≡ map g m ++ g e ∷ []
    map_snoc g [] e = refl
    map_snoc g (d ∷ m) e = ap (λ r. g d ∷ r) (map_snoc g m e)

add_new-IsKeyed :
    (o : Option RevertFinding) (m : Dict RevertFinding) → IsKeyed m → IsKeyed (add_new o m)
unfolding add_new
add_new-IsKeyed none m h = h
add_new-IsKeyed (some f) m h = elim (Option-cases (lookup (key_of f) m)) [
  | inr (g, old) ↦ rw (old, add_new) h
  | inl new ↦
      rw (new, add_new, insert_absent (key_of f) f m new)
        (record {
          own = own_snoc f m h.own;
          distinct = Distinct-snoc (key_of f) f m new h.distinct;
        })
]

detect_loop-IsKeyed :
    (detect : GitHubPr → Option RevertFinding) (prs : List GitHubPr) (seen : Dict RevertFinding)
    → IsKeyed seen
    → IsKeyed (detect_loop detect prs seen)
unfolding detect_loop
detect_loop-IsKeyed detect [] seen h = h
detect_loop-IsKeyed detect (c ∷ prs) seen h =
    detect_loop-IsKeyed detect prs (add_new (detect c) seen) (add_new-IsKeyed (detect c) seen h)

map_values : (m : Dict RevertFinding) → map key_of (map (λ e. e.1) m) ≡ map (λ e. key_of e.1) m
map_values [] = refl
map_values (e ∷ m) = ap (λ r. key_of e.1 ∷ r) (map_values m)

-- No two findings have the same repository and number: the keys made of them are distinct.
pub detect_reverts-Distinct :
    {F : Type 0} (fl : Float F) (prs : List GitHubPr)
    → Distinct (map key_of (detect_reverts fl prs))
unfolding detect_reverts
detect_reverts-Distinct fl prs =
    let titles =
      detect_loop-IsKeyed (λ c. detect_from_title c prs) prs []
        (record { own = refl; distinct = tt }) in
    let all = detect_loop-IsKeyed (λ c. detect_from_file_overlap fl c prs) prs _ titles in
    subst Distinct (sym (map_values _ ∙ sym all.own)) all.distinct
