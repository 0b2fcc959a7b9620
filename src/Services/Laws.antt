-- ===== src/Services/Laws.antt =====
-- What the program relies on of Redis and Postgres, as their manuals state it.
use enterprise_llm_tracker.Base.{
  ℕ, String, Bool, true, false, not, Option, List, [], ◌∷◌, ◌++◌, ◌<◌, ◌≡◌, ◌≢◌, ◌⊎◌, none, some,
}
use enterprise_llm_tracker.Base.Act.{ok}
use enterprise_llm_tracker.Base.Int.{ℤ, pos, ◌+ℤ◌, wrap_64}
use enterprise_llm_tracker.Float.{Float}
use enterprise_llm_tracker.Models.{Event}
use enterprise_llm_tracker.Services.{Redis, Postgres, KafkaWriter, TriggerRow}

-- SET NX, by the keys that exist: it succeeds exactly on an absent key, which then exists. A key
-- that exists stays until its time to live runs out; `keeps` says that none does meanwhile.
pub record ClaimLaws {F R : Type 0} (rd : Redis F R) (held : R → String → Bool) : Type 0 where
  pub won_absent :
      (k v : String) (ttl : ℕ) (r : R) → (rd.set_nx k v ttl r).0 ≡ ok true → held r k ≡ false
  pub won_held :
      (k v : String) (ttl : ℕ) (r : R)
      → (rd.set_nx k v ttl r).0 ≡ ok true
      → held (rd.set_nx k v ttl r).1 k ≡ true
  pub lost_held :
      (k v : String) (ttl : ℕ) (r : R) → (rd.set_nx k v ttl r).0 ≡ ok false → held r k ≡ true
  pub keeps :
      (k v : String) (ttl : ℕ) (r : R) (j : String)
      → held r j ≡ true
      → held (rd.set_nx k v ttl r).1 j ≡ true
  pub get_keeps : (k j : String) (r : R) → held r j ≡ true → held (rd.get_float k r).1 j ≡ true

-- An INSERT appends its row, or fails and leaves the table or, where the reply was lost, not.
pub record InsertLaws {F P : Type 0} (pg : Postgres F P) (triggers : P → List (TriggerRow F))
    : Type 0 where
  pub inserted :
      (row : TriggerRow F) (p : P)
      → (pg.insert_trigger row p).0 ≡ ok tt
      → triggers (pg.insert_trigger row p).1 ≡ triggers p ++ row ∷ []
  pub at_most :
      (row : TriggerRow F) (p : P)
      → (triggers (pg.insert_trigger row p).1 ≡ triggers p ++ row ∷ [])
        ⊎ (triggers (pg.insert_trigger row p).1 ≡ triggers p)

-- Redis answers, no other process claims a key meanwhile, and no key expires: SET NX is decided by
-- the key, a refused one changes nothing, and neither does GET.
pub record SoleClaimLaws {F R : Type 0} (rd : Redis F R) (held : R → String → Bool) : Type 0 where
  pub answers : (k v : String) (ttl : ℕ) (r : R) → (rd.set_nx k v ttl r).0 ≡ ok (not (held r k))
  pub refused :
      (k v : String) (ttl : ℕ) (r : R) (j : String)
      → held r k ≡ true
      → held (rd.set_nx k v ttl r).1 j ≡ held r j
  pub get_same : (k j : String) (r : R) → held (rd.get_float k r).1 j ≡ held r j

-- How the keys of Redis read: as a number with a fraction, as an integer, as a text, and the Unix
-- time at which they expire; and what INCRBYFLOAT makes of two numbers, in Redis' own precision.
pub record RedisView (F R : Type 0) : Type 0 where
  pub float_at : R → String → Option F
  pub int_at : R → String → Option ℤ
  pub text_at : R → String → Option String
  pub expiry_at : R → String → Option ℕ
  pub sum : F → F → F

abbrev pub float_or_zero : {F : Type 0} → Float F → Option F → F
float_or_zero fl none = fl.decimal 0 0
float_or_zero fl (some x) = x

abbrev pub int_or_zero : Option ℤ → ℤ
int_or_zero none = pos 0
int_or_zero (some n) = n

-- What the commands do to the keys within a script, for which TIME stands still. INCRBYFLOAT and
-- INCRBY count a missing key as 0 and keep its time to live, if their result is a number and an
-- int64; EXPIREAT keeps the value if the time lies ahead (it deletes the key otherwise), SET
-- overwrites, and no command changes another key. A script whose call returns has run once.
pub record CounterLaws {F R : Type 0} (fl : Float F) (rd : Redis F R) (v : RedisView F R)
    : Type 0 where
  pub ran : (s : R → R) (r : R) → (rd.eval s r).0 ≡ ok tt → (rd.eval s r).1 ≡ s r
  pub time_float : (k : String) (x : F) (r : R) → rd.time (rd.incr_by_float k x r) ≡ rd.time r
  pub time_expire : (k : String) (t : ℕ) (r : R) → rd.time (rd.expire_at k t r) ≡ rd.time r
  pub time_incr : (k : String) (n : ℤ) (r : R) → rd.time (rd.incr_by k n r) ≡ rd.time r
  pub float_added :
      (k : String) (x : F) (r : R)
      → fl.is_finite (v.sum (float_or_zero fl (v.float_at r k)) x) ≡ true
      → v.float_at (rd.incr_by_float k x r) k ≡ some (v.sum (float_or_zero fl (v.float_at r k)) x)
  pub float_of_other :
      (k j : String) (x : F) (r : R)
      → k ≢ j
      → v.float_at (rd.incr_by_float k x r) j ≡ v.float_at r j
  pub float_kept_incr :
      (k j : String) (n : ℤ) (r : R) → k ≢ j → v.float_at (rd.incr_by k n r) j ≡ v.float_at r j
  pub float_kept_expire :
      (k j : String) (t : ℕ) (r : R)
      → rd.time r < t
      → v.float_at (rd.expire_at k t r) j ≡ v.float_at r j
  pub float_kept_set :
      (k j value : String) (r : R) → k ≢ j → v.float_at (rd.set k value r) j ≡ v.float_at r j
  pub int_added :
      (k : String) (n : ℤ) (r : R)
      → wrap_64 (int_or_zero (v.int_at r k) +ℤ n) ≡ int_or_zero (v.int_at r k) +ℤ n
      → v.int_at (rd.incr_by k n r) k ≡ some (int_or_zero (v.int_at r k) +ℤ n)
  pub int_kept_float :
      (k j : String) (x : F) (r : R) → k ≢ j → v.int_at (rd.incr_by_float k x r) j ≡ v.int_at r j
  pub int_kept_expire :
      (k j : String) (t : ℕ) (r : R)
      → rd.time r < t
      → v.int_at (rd.expire_at k t r) j ≡ v.int_at r j
  pub int_kept_set :
      (k j value : String) (r : R) → k ≢ j → v.int_at (rd.set k value r) j ≡ v.int_at r j
  pub text_set : (k value : String) (r : R) → v.text_at (rd.set k value r) k ≡ some value
  pub expiry_kept_float :
      (k j : String) (x : F) (r : R) → v.expiry_at (rd.incr_by_float k x r) j ≡ v.expiry_at r j
  pub expiry_kept_incr :
      (k j : String) (n : ℤ) (r : R) → v.expiry_at (rd.incr_by k n r) j ≡ v.expiry_at r j
  pub expiry_moved :
      (k : String) (t : ℕ) (x : F) (r : R)
      → v.float_at r k ≡ some x
      → rd.time r < t
      → v.expiry_at (rd.expire_at k t r) k ≡ some t
  pub expiry_of_other :
      (k j : String) (t : ℕ) (r : R) → k ≢ j → v.expiry_at (rd.expire_at k t r) j ≡ v.expiry_at r j
  pub expiry_kept_set :
      (k j value : String) (r : R) → k ≢ j → v.expiry_at (rd.set k value r) j ≡ v.expiry_at r j

-- The history of the writer's calls, by key and event: each call is recorded, whether it is accepted
-- or not. The writer is asynchronous; nothing is said of what reaches the topic.
pub record WriterLaws {F K : Type 0} (kw : KafkaWriter F K) (handed : K → List (String × Event F))
    : Type 0 where
  pub recorded :
      (key : String) (e : Event F) (k : K)
      → handed (kw.write_message key e k).1 ≡ handed k ++ (key, e) ∷ []
