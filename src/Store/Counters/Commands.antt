-- ===== src/Store/Counters/Commands.antt =====
-- What the two halves of the script do to each key.
use enterprise_llm_tracker.Base.{
  ℕ, ◌<◌, String, Bool, true, not, ◌||◌, ◌≡◌, refl, sym, ap, ◌∙◌, ◌≢◌, inl, inr, Bool-cases, Option,
  some, arith, ltb, if◌then◌else◌,
}
use enterprise_llm_tracker.Base.Int.{ℤ, pos, negsuc, ◌+ℤ◌, wrap_64, int_eq, is_pos}
use enterprise_llm_tracker.Float.{Float}
use enterprise_llm_tracker.Services.{Redis}
use enterprise_llm_tracker.Services.Laws.{RedisView, CounterLaws, float_or_zero, int_or_zero}
use enterprise_llm_tracker.Store.Counters.{add_cost, add_tokens}

int_eq_iff : (a b : ℤ) → int_eq a b ≡ true → a ≡ b
int_eq_iff (pos a) (pos b) h = ap pos (ground (arith, h))
int_eq_iff (pos a) (negsuc b) h = absurd (ground (arith, h))
int_eq_iff (negsuc a) (pos b) h = absurd (ground (arith, h))
int_eq_iff (negsuc a) (negsuc b) h = ap negsuc (ground (arith, h))

-- a counter after an amount: unchanged unless the amount is positive
abbrev pub float_after : {F R : Type 0} → Float F → RedisView F R → F → Option F → Option F
float_after fl v x old =
    if fl.lt (fl.decimal 0 0) x then some (v.sum (float_or_zero fl old) x) else old

abbrev pub int_after : ℤ → Option ℤ → Option ℤ
int_after n old = if is_pos n then some (int_or_zero old +ℤ n) else old

-- the counter can take the amount: it is not positive, or the sum is a number and an int64
abbrev pub takes_float : {F R : Type 0} → Float F → RedisView F R → F → Option F → Bool
takes_float fl v x old =
    not (fl.lt (fl.decimal 0 0) x) || fl.is_finite (v.sum (float_or_zero fl old) x)

abbrev pub takes_int : ℤ → Option ℤ → Bool
takes_int n old = not (is_pos n) || int_eq (wrap_64 (int_or_zero old +ℤ n)) (int_or_zero old +ℤ n)

module _ {F R : Type 0} (fl : Float F) (rd : Redis F R) (v : RedisView F R)
    (cl : CounterLaws fl rd v) where
  -- one half of the script for costs: INCRBYFLOAT, then EXPIREAT where its time lies ahead
  abbrev counted : String → F → ℕ → ℕ → R → R
  counted key x at now r =
      let r₁ = rd.incr_by_float key x r in if ltb now at then rd.expire_at key at r₁ else r₁

  module _ (key : String) (x : F) (at now : ℕ) (r : R) (clock : rd.time r ≡ now) where
    time-counted : rd.time (counted key x at now r) ≡ now
    time-counted =
        ground
          (arith, clock, cl.time_float key x r, cl.time_expire key at (rd.incr_by_float key x r))

    ahead : ltb now at ≡ true → rd.time (rd.incr_by_float key x r) < at
    ahead later = ground (arith, later, clock, cl.time_float key x r)

    float-counted :
        fl.is_finite (v.sum (float_or_zero fl (v.float_at r key)) x) ≡ true
        → v.float_at (counted key x at now r) key
          ≡ some (v.sum (float_or_zero fl (v.float_at r key)) x)
    float-counted finite = elim (Bool-cases (ltb now at)) [
      | inl later ↦ rw later (
          cl.float_kept_expire key key at (rd.incr_by_float key x r) (ahead later)
          ∙ cl.float_added key x r finite)
      | inr over ↦ rw over (cl.float_added key x r finite)
    ]

    float-counted_other :
        (j : String) → key ≢ j → v.float_at (counted key x at now r) j ≡ v.float_at r j
    float-counted_other j p = elim (Bool-cases (ltb now at)) [
      | inl later ↦ rw later (
          cl.float_kept_expire key j at (rd.incr_by_float key x r) (ahead later)
          ∙ cl.float_of_other key j x r p)
      | inr over ↦ rw over (cl.float_of_other key j x r p)
    ]

    int-counted : (j : String) → key ≢ j → v.int_at (counted key x at now r) j ≡ v.int_at r j
    int-counted j p = elim (Bool-cases (ltb now at)) [
      | inl later ↦ rw later (
          cl.int_kept_expire key j at (rd.incr_by_float key x r) (ahead later)
          ∙ cl.int_kept_float key j x r p)
      | inr over ↦ rw over (cl.int_kept_float key j x r p)
    ]

    expiry-counted :
        fl.is_finite (v.sum (float_or_zero fl (v.float_at r key)) x) ≡ true
        → v.expiry_at (counted key x at now r) key
          ≡ (if ltb now at then some at else v.expiry_at r key)
    expiry-counted finite = elim (Bool-cases (ltb now at)) [
      | inl later ↦ rw later (
          cl.expiry_moved key at _ (rd.incr_by_float key x r) (cl.float_added key x r finite)
            (ahead later))
      | inr over ↦ rw over (cl.expiry_kept_float key key x r)
    ]

    expiry-counted_other :
        (j : String) → key ≢ j → v.expiry_at (counted key x at now r) j ≡ v.expiry_at r j
    expiry-counted_other j p = ground (
      arith,
      cl.expiry_of_other key j at (rd.incr_by_float key x r) p,
      cl.expiry_kept_float key j x r,
    )

  module _ (today month : String) (apart : today ≢ month) (x : F) (eod eom now : ℕ) (r : R)
      (clock : rd.time r ≡ now) where
    abbrev after_today : R
    after_today = counted today x eod now r

    pub time-add_cost : rd.time (add_cost fl rd today month x eod eom now r) ≡ now
    unfolding add_cost
    time-add_cost = elim (Bool-cases (fl.lt (fl.decimal 0 0) x)) [
      | inl positive ↦
          rw positive
            (time-counted month x eom now after_today (time-counted today x eod now r clock))
      | inr other ↦ rw other clock
    ]

    pub float-add_cost_today :
        takes_float fl v x (v.float_at r today) ≡ true
        → v.float_at (add_cost fl rd today month x eod eom now r) today
          ≡ float_after fl v x (v.float_at r today)
    unfolding add_cost
    float-add_cost_today takes = elim (Bool-cases (fl.lt (fl.decimal 0 0) x)) [
      | inl positive ↦ rw positive (
          float-counted_other month x eom now after_today (time-counted today x eod now r clock)
            today (λ e. apart (sym e))
          ∙ float-counted today x eod now r clock (ground (arith, takes, positive)))
      | inr other ↦ rw other refl
    ]

    pub float-add_cost_month :
        takes_float fl v x (v.float_at r month) ≡ true
        → v.float_at (add_cost fl rd today month x eod eom now r) month
          ≡ float_after fl v x (v.float_at r month)
    unfolding add_cost
    float-add_cost_month takes = elim (Bool-cases (fl.lt (fl.decimal 0 0) x)) [
      | inl positive ↦
          let kept = float-counted_other today x eod now r clock month apart in
          let after = λ (old : Option F). some (v.sum (float_or_zero fl old) x) in
          rw positive (
            float-counted month x eom now after_today (time-counted today x eod now r clock) (
              ap (λ old. fl.is_finite (v.sum (float_or_zero fl old) x)) kept
              ∙ ground (arith, takes, positive))
            ∙ ap after kept)
      | inr other ↦ rw other refl
    ]

    pub int-add_cost :
        (key : String)
        → today ≢ key
        → month ≢ key
        → v.int_at (add_cost fl rd today month x eod eom now r) key ≡ v.int_at r key
    unfolding add_cost
    int-add_cost key p q = elim (Bool-cases (fl.lt (fl.decimal 0 0) x)) [
      | inl positive ↦ rw positive (
          int-counted month x eom now after_today (time-counted today x eod now r clock) key q
          ∙ int-counted today x eod now r clock key p)
      | inr other ↦ rw other refl
    ]

    -- today's counter expires at the end of the day, if that is still ahead
    pub expiry-add_cost_today :
        fl.lt (fl.decimal 0 0) x ≡ true
        → takes_float fl v x (v.float_at r today) ≡ true
        → v.expiry_at (add_cost fl rd today month x eod eom now r) today
          ≡ (if ltb now eod then some eod else v.expiry_at r today)
    unfolding add_cost
    expiry-add_cost_today positive takes = rw positive (
        expiry-counted_other month x eom now after_today (time-counted today x eod now r clock)
          today (λ e. apart (sym e))
        ∙ expiry-counted today x eod now r clock (ground (arith, takes, positive)))

  module _ (key : String) (n : ℤ) (eod now : ℕ) (r : R) (clock : rd.time r ≡ now) where
    tokens_ahead : ltb now eod ≡ true → rd.time (rd.incr_by key n r) < eod
    tokens_ahead later = ground (arith, later, clock, cl.time_incr key n r)

    pub float-add_tokens :
        (j : String) → key ≢ j → v.float_at (add_tokens fl rd key n eod now r) j ≡ v.float_at r j
    unfolding add_tokens
    float-add_tokens j p = elim (Bool-cases (ltb now eod)) [
      | inl later ↦ ground (
        arith,
        later,
        cl.float_kept_incr key j n r p,
        cl.float_kept_expire key j eod (rd.incr_by key n r) (tokens_ahead later),
      )
      | inr over ↦ ground (arith, over, cl.float_kept_incr key j n r p)
    ]

    pub int-add_tokens :
        takes_int n (v.int_at r key) ≡ true
        → v.int_at (add_tokens fl rd key n eod now r) key ≡ int_after n (v.int_at r key)
    unfolding add_tokens
    int-add_tokens takes = elim (Bool-cases (is_pos n)) [
      | inr none_counted ↦ rw none_counted refl
      | inl positive ↦
          let added = cl.int_added key n r (
            int_eq_iff (wrap_64 (int_or_zero (v.int_at r key) +ℤ n))
              (int_or_zero (v.int_at r key) +ℤ n) (ground (arith, takes, positive))) in
          elim (Bool-cases (ltb now eod)) [
            | inl later ↦
                rw (positive, later)
                  (cl.int_kept_expire key key eod (rd.incr_by key n r) (tokens_ahead later) ∙ added)
            | inr over ↦ rw (positive, over) added
          ]
    ]

    pub expiry-add_tokens :
        (j : String) → key ≢ j → v.expiry_at (add_tokens fl rd key n eod now r) j ≡ v.expiry_at r j
    unfolding add_tokens
    expiry-add_tokens j p =
        ground (
          arith,
          cl.expiry_kept_incr key j n r,
          cl.expiry_of_other key j eod (rd.incr_by key n r) p,
        )
