-- ===== src/Kafka/Consumer/Delivery.antt =====
-- Which messages of a partition the handler has been given, over any run with restarts.
use mathlib.Core.List.{Memᴰ}
use mathlib.Core.Option.{some-injective}
use enterprise_llm_tracker.Base.{
  ℕ, suc, ◌≤◌, ◌<◌, String, Bool, true, false, ◌≡◌, refl, sym, subst, ap, Bool-cases, ltb, ◌∙◌, ◌⊎◌,
  inl, inr, Option, none, some, List, ◌∷◌, get_elem?, arith,
}
use enterprise_llm_tracker.Base.Act.{Result, ok, err, Act}
use enterprise_llm_tracker.Kafka.Consumer.{
  Reader, fetch_failed, message, commit, advance, finish, deliver, round, restart, start_offset,
}
use enterprise_llm_tracker.Models.{Event}

module _ {F W : Type 0} (log : List (Option (Event F)))
    (handler : Event F → Act W (Result (Unit {0}))) where
  -- a run of a group's consumers from the state `s₀`: rounds of the loop, each with the message at
  -- the reader's position, and restarts at any time. The offset is where the group last began without
  -- having committed anything: its first position, or the end of the log at a later restart.
  pub data Run (s₀ : Reader × W) : ℕ → Reader × W → Type 0 where
    started : Run s₀ s₀.0.position s₀
    waited :
        {base : ℕ} {s : Reader × W}
        → (accepted : Bool) → Run s₀ base s
        → Run s₀ base (round handler accepted fetch_failed s).1
    delivered :
        {base : ℕ} {s : Reader × W}
        → (accepted : Bool) → (m : Option (Event F)) → get_elem? log s.0.position ≡ some m
        → Run s₀ base s
        → Run s₀ base (round handler accepted (message m) s).1
    restarted_at :
        {base c : ℕ} {s : Reader × W}
        → (end : ℕ) → s.0.committed ≡ some c
        → Run s₀ base s
        → Run s₀ base (restart end s)
    restarted_new :
        {base : ℕ} {s : Reader × W}
        → (end : ℕ) → s.0.committed ≡ none
        → Run s₀ base s
        → Run s₀ end (restart end s)

-- the handler, which also notes every event that it is given
abbrev pub noting :
    {F W : Type 0}
    → (Event F → Act W (Result (Unit {0})))
    → Event F
    → Act (W × List (Event F)) (Result (Unit {0}))
noting handler e (w, seen) = let (result, w') = handler e w in (result, (w', e ∷ seen))

module _ {F W : Type 0} (handler : Event F → Act W (Result (Unit {0}))) where
  -- what the handler is given with a message, beyond what it was given before
  record IsSeen (m : Option (Event F)) (s s' : Reader × (W × List (Event F))) : Type 0 where
    moved : s'.0.position ≡ suc s.0.position
    commits : (s'.0.committed ≡ s.0.committed) ⊎ (s'.0.committed ≡ some (suc s.0.position))
    keeps : (e : Event F) → Memᴰ e s.1.1 → Memᴰ e s'.1.1
    given : (e : Event F) → m ≡ some e → Memᴰ e s'.1.1

  finish-reader :
      (accepted : Bool) (result : Result (Unit {0})) (v : W × List (Event F)) (r : Reader)
      → ((finish (noting handler) accepted (result, v) (advance r)).0.position ≡ suc r.position)
        × (((finish (noting handler) accepted (result, v) (advance r)).0.committed ≡ r.committed)
            ⊎ ((finish (noting handler) accepted (result, v) (advance r)).0.committed
                ≡ some (suc r.position)))
        × ((finish (noting handler) accepted (result, v) (advance r)).1 ≡ v)
  unfolding finish commit advance
  finish-reader true (ok _) v r = (refl, inr refl, refl)
  finish-reader false (ok _) v r = (refl, inl refl, refl)
  finish-reader accepted (err _) v r = (refl, inl refl, refl)

  deliver-IsSeen :
      (accepted : Bool) (m : Option (Event F)) (s : Reader × (W × List (Event F)))
      → IsSeen m s (deliver (noting handler) accepted m s)
  unfolding deliver commit advance
  deliver-IsSeen true none s = record {
    moved = refl;
    commits = inr refl;
    keeps = λ e h. h;
    given = λ e h. absurd (ground (arith, h));
  }
  deliver-IsSeen false none s = record {
    moved = refl;
    commits = inl refl;
    keeps = λ e h. h;
    given = λ e h. absurd (ground (arith, h));
  }
  deliver-IsSeen accepted (some e) (r, (w, seen)) =
      let (result, w') = handler e w in
      let (moved, commits, same) = finish-reader accepted result (w', e ∷ seen) r in
      record {
        moved = moved;
        commits = commits;
        keeps = λ x h. subst (λ v. Memᴰ x v.1) (sym same) (Memᴰ.tail h);
        given = λ x h. subst (λ v. Memᴰ x v.1) (sym same) (Memᴰ.head (sym (some-injective _ _ h)));
      }

  module _ (log : List (Option (Event F))) where
    -- what the run has seen since the group last began
    record IsCovered (base : ℕ) (s : Reader × (W × List (Event F))) : Type 0 where
      behind : (c : ℕ) → s.0.committed ≡ some c → c ≤ s.0.position
      seen :
          (k : ℕ) (e : Event F)
          → base ≤ k
          → k < s.0.position
          → get_elem? log k ≡ some (some e)
          → Memᴰ e s.1.1

    delivered-IsCovered :
        (base : ℕ) (m : Option (Event F)) (s s' : Reader × (W × List (Event F)))
        → get_elem? log s.0.position ≡ some m
        → IsSeen m s s'
        → IsCovered base s
        → IsCovered base s'
    delivered-IsCovered base m s s' at step before = record {
      behind = λ c h. elim step.commits [
        | inl kept ↦ omega (arith, step.moved, before.behind c (sym kept ∙ h))
        | inr next ↦ ground (arith, step.moved, next, h)
      ];
      seen = λ k e from below there. elim (Bool-cases (ltb k s.0.position)) [
        | inl old ↦ step.keeps e (before.seen k e from (ground (arith, old)) there)
        | inr new ↦
            let same : k ≡ s.0.position = ground (arith, new, below, step.moved) in
            step.given e (some-injective _ _ (sym at ∙ ap (get_elem? log) (sym same) ∙ there))
      ];
    }

    Run-IsCovered :
        {s₀ : Reader × (W × List (Event F))} {base : ℕ} {s : Reader × (W × List (Event F))}
        → ((c : ℕ) → s₀.0.committed ≡ some c → c ≤ s₀.0.position)
        → Run log (noting handler) s₀ base s
        → IsCovered base s
    unfolding round restart start_offset
    Run-IsCovered b started = record {
      behind = b;
      seen = λ k e from below there. absurd (omega (arith, from, below));
    }
    Run-IsCovered b (waited accepted run) = Run-IsCovered b run
    Run-IsCovered b (delivered {base = base} {s = s} accepted m at run) =
        delivered-IsCovered base m s (deliver (noting handler) accepted m s) at
          (deliver-IsSeen accepted m s) (Run-IsCovered b run)
    Run-IsCovered b (restarted_at {base = base} {c = c} {s = s} end has run) =
        let before = Run-IsCovered b run in
        record {
          behind = λ c' h. rw has (ground (arith, has, h));
          seen = λ k e from below there.
              before.seen k e from
                (omega (arith, before.behind c has, subst (λ o. k < start_offset o end) has below))
                there;
        }
    Run-IsCovered b (restarted_new {s = s} end has run) = record {
      behind = λ c' h. absurd (ground (arith, has, h));
      seen = λ k e from below there.
          absurd (omega (arith, from, subst (λ o. k < start_offset o end) has below));
    }

    -- Delivery is at least once: if the commit is not ahead of the reader at the start, then over
    -- any rounds and restarts, and whatever the handler and the broker answer, each event below the
    -- committed offset has been given to the handler, unless it lies before the offset where the
    -- group last began without a commit, which is the end of the log at that time.
    pub committed_seen :
        (s₀ : Reader × (W × List (Event F))) (base : ℕ) (s : Reader × (W × List (Event F)))
        → ((c : ℕ) → s₀.0.committed ≡ some c → c ≤ s₀.0.position)
        → Run log (noting handler) s₀ base s
        → (c k : ℕ) (e : Event F) → s.0.committed ≡ some c
        → base ≤ k
        → k < c
        → get_elem? log k ≡ some (some e)
        → Memᴰ e s.1.1
    committed_seen s₀ base s b run c k e has from below there =
        let covered = Run-IsCovered b run in
        covered.seen k e from (omega (arith, below, covered.behind c has)) there

  -- If the handler fails on one message and succeeds on the next, whose commit is accepted, a
  -- restarted consumer begins behind both: the message that failed is not delivered again. If it
  -- restarts directly after the failure, it begins at the offset that was committed before, or at
  -- the end of the log if nothing was.
  pub failed_is_skipped :
      (r : Reader) (w : W) (e₁ e₂ : Event F) (accepted : Bool) (reason : String) (w₁ w₂ : W)
      (end : ℕ)
      → handler e₁ w ≡ (err reason, w₁)
      → handler e₂ w₁ ≡ (ok tt, w₂)
      → let failed = (round handler accepted (message (some e₁)) (r, w)).1 in
        let later = (round handler true (message (some e₂)) failed).1 in
        ((restart end later).0.position ≡ suc (suc r.position))
        × ((restart end failed).0.position ≡ start_offset r.committed end)
  unfolding round deliver finish commit advance restart start_offset
  failed_is_skipped r w e₁ e₂ accepted reason w₁ w₂ end h₁ h₂ = rw h₁ (rw h₂ (refl, refl))
