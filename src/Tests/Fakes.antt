-- ===== src/Tests/Fakes.antt =====
-- Services that run: amounts in thousandths, Redis as dictionaries, tables and topics as lists, and
-- a clock that stands at noon of 15 January 2026.
use enterprise_llm_tracker.Base.{
  ℕ, suc, ◌+◌, ◌-◌, ◌*◌, ◌/◌, ◌^◌, ◌<◌, String, Bool, true, false, not, ◌≡◌, refl, ap, ◌∙◌, str_eq,
  if◌then◌else◌, ◌≢◌, inl, Option, none, some, List, [], ◌∷◌, ◌++◌, arith, ltb, leb, eq_iff,
  eq_refl,
}
use enterprise_llm_tracker.Base.Act.{Result, ok}
use enterprise_llm_tracker.Base.Dict.{Dict, lookup, insert, lookup-insert}
use enterprise_llm_tracker.Base.Format.{show_nat}
use enterprise_llm_tracker.Base.Int.{ℤ, pos, negsuc, add_int}
use enterprise_llm_tracker.Clock.{Time}
use enterprise_llm_tracker.Float.{Float, IsOrdered}
use enterprise_llm_tracker.Ingest.Atoi.{number}
use enterprise_llm_tracker.Models.{Event}
use enterprise_llm_tracker.Services.{
  Reply, value, missing, answer, TriggerRow, Redis, Postgres, SlackApi, KafkaWriter, Machine,
  Services, World,
}
use enterprise_llm_tracker.Services.Laws.{
  ClaimLaws, SoleClaimLaws, InsertLaws, WriterLaws, RedisView, CounterLaws, float_or_zero,
  int_or_zero,
}

abbrev pub int_of_thousandths : ℤ → ℕ
int_of_thousandths (pos n) = n * 1000
int_of_thousandths (negsuc n) = 0

abbrev pub times_thousand : Option ℕ → Option ℕ
times_thousand none = none
times_thousand (some n) = some (n * 1000)

abbrev pub thousandths : Float ℕ
thousandths = record {
  add = λ a b. a + b;
  sub = λ a b. a - b;
  mul = λ a b. a * b / 1000;
  div = λ a b. a * 1000 / b;
  sqrt = λ a. a;
  lt = ltb;
  le = leb;
  decimal = λ n k. n * 1000 / 10 ^ k;
  of_int = int_of_thousandths;
  to_int = λ a. pos (a / 1000);
  is_finite = λ a. true;
  parse = λ s. times_thousand (number s);
  general = show_nat;
  fixed_1 = show_nat;
  fixed_2 = show_nat;
  fixed_6 = show_nat;
}

pub thousandths-IsOrdered : IsOrdered thousandths
thousandths-IsOrdered = record {
  lt_asymm = λ a b h. ground arith;
  lt_cotrans = λ a b c h k. ground arith;
  le-eq-not-lt = λ a b. ground arith;
}

pub record Store : Type 0 where
  pub keys : Dict String
  pub floats : Dict ℕ
  pub ints : Dict ℤ
  pub expiries : Dict ℕ
  pub hashes : Dict (Dict String)
  pub seconds : ℕ

abbrev pub is_some {ℓ} : {A : Type ℓ} → Option A → Bool
is_some none = false
is_some (some a) = true

abbrev pub held : Store → String → Bool
held r k = is_some (lookup k r.keys)

abbrev pub reply_of : Option ℕ → Reply ℕ
reply_of none = missing
reply_of (some x) = value x

abbrev pub claim : String → String → Store → Option String → Result Bool × Store
claim k v r none = (ok true, record r { keys = insert k v r.keys })
claim k v r (some _) = (ok false, r)

abbrev pub hash_or_empty : Option (Dict String) → Dict String
hash_or_empty none = []
hash_or_empty (some h) = h

abbrev pub erase {ℓ} : {V : Type ℓ} → String → Dict V → Dict V
erase k [] = []
erase k ((j, v) ∷ m) = let rest = erase k m in if str_eq j k then rest else (j, v) ∷ rest

-- EXPIREAT: a time that does not lie ahead deletes the key
unfoldable pub expire : Bool → String → ℕ → Store → Store
expire true k t r = record r { expiries = insert k t r.expiries }
expire false k t r = record r {
  keys = erase k r.keys;
  floats = erase k r.floats;
  ints = erase k r.ints;
}

abbrev pub redis : Redis ℕ Store
redis = record {
  get_float = λ k r. (reply_of (lookup k r.floats), r);
  set_nx = λ k v ttl r. claim k v r (lookup k r.keys);
  time = λ r. r.seconds;
  incr_by_float = λ k x r. record r {
    floats = insert k (float_or_zero thousandths (lookup k r.floats) + x) r.floats;
  };
  incr_by =
      λ k n r. record r { ints = insert k (add_int (int_or_zero (lookup k r.ints)) n) r.ints };
  expire_at = λ k t r. expire (ltb r.seconds t) k t r;
  set = λ k v r. record r { keys = insert k v r.keys };
  eval = λ s r. (ok tt, s r);
  hget_all = λ k r. (ok (hash_or_empty (lookup k r.hashes)), r);
  burst_pipeline = λ k score m cutoff ttl r. (ok (m ∷ []), r);
  z_range_by_score = λ k start r. (ok [], r);
}

abbrev pub view : RedisView ℕ Store
view = record {
  float_at = λ r k. lookup k r.floats;
  int_at = λ r k. lookup k r.ints;
  text_at = λ r k. lookup k r.keys;
  expiry_at = λ r k. lookup k r.expiries;
  sum = λ a b. a + b;
}

insert_self {ℓ} : {V : Type ℓ} (k : String) (v : V) (m : Dict V) → lookup k (insert k v m) ≡ some v
insert_self k v m = rw (lookup-insert, eq_refl)

insert_other {ℓ} :
    {V : Type ℓ} (k j : String) (v : V) (m : Dict V) → k ≢ j → lookup j (insert k v m) ≡ lookup j m
insert_other k j v m h = rw lookup-insert (ground (arith, eq_iff k j))

insert_keeps :
    (k j v : String) (m : Dict String)
    → is_some (lookup j m) ≡ true
    → is_some (lookup j (insert k v m)) ≡ true
insert_keeps k j v m h = rw lookup-insert (ground (arith, h))

claim_cases :
    (k v : String) (r : Store) (o : Option String)
    → lookup k r.keys ≡ o
    → ((claim k v r o).0 ≡ ok true → held r k ≡ false)
      × ((claim k v r o).0 ≡ ok true → held (claim k v r o).1 k ≡ true)
      × ((claim k v r o).0 ≡ ok false → held r k ≡ true)
      × ((j : String) → held r j ≡ true → held (claim k v r o).1 j ≡ true)
claim_cases k v r none e =
    (λ _. rw e refl, λ _. rw insert_self refl, λ h. cc, λ j h. insert_keeps k j v r.keys h)
claim_cases k v r (some _) e = (λ h. cc, λ h. cc, λ _. rw e refl, λ j h. h)

pub claim_laws : ClaimLaws redis held
claim_laws = record {
  won_absent = λ k v ttl r. (claim_cases k v r (lookup k r.keys) refl).0;
  won_held = λ k v ttl r. (claim_cases k v r (lookup k r.keys) refl).1;
  lost_held = λ k v ttl r. (claim_cases k v r (lookup k r.keys) refl).2;
  keeps = λ k v ttl r. (claim_cases k v r (lookup k r.keys) refl).3;
  get_keeps = λ k j r h. h;
}

sole_cases :
    (k v : String) (r : Store) (o : Option String)
    → lookup k r.keys ≡ o
    → ((claim k v r o).0 ≡ ok (not (held r k)))
      × ((j : String) → held r k ≡ true → held (claim k v r o).1 j ≡ held r j)
sole_cases k v r none e = (rw e refl, λ j h. absurd (ground (arith, e, h)))
sole_cases k v r (some _) e = (rw e refl, λ j h. refl)

pub sole_claim_laws : SoleClaimLaws redis held
sole_claim_laws = record {
  answers = λ k v ttl r. (sole_cases k v r (lookup k r.keys) refl).0;
  refused = λ k v ttl r j. (sole_cases k v r (lookup k r.keys) refl).1 j;
  get_same = λ k j r. refl;
}

expire_later :
    (k : String) (t : ℕ) (r : Store)
    → r.seconds < t
    → expire (ltb r.seconds t) k t r ≡ record r { expiries = insert k t r.expiries }
unfolding expire
expire_later k t r h =
    let later : ltb r.seconds t ≡ true = ground (arith, h) in ap (λ b. expire b k t r) later

expire_clock : (b : Bool) (k : String) (t : ℕ) (r : Store) → (expire b k t r).seconds ≡ r.seconds
unfolding expire
expire_clock true k t r = refl
expire_clock false k t r = refl

expire_other :
    (b : Bool) (k j : String) (t : ℕ) (r : Store)
    → k ≢ j
    → lookup j (expire b k t r).expiries ≡ lookup j r.expiries
unfolding expire
expire_other true k j t r h = insert_other k j t r.expiries h
expire_other false k j t r h = refl

pub counter_laws : CounterLaws thousandths redis view
counter_laws = record {
  ran = λ s r h. refl;
  time_float = λ k x r. refl;
  time_expire = λ k t r. expire_clock (ltb r.seconds t) k t r;
  time_incr = λ k n r. refl;
  float_added = λ k x r h. insert_self k _ r.floats;
  float_of_other = λ k j x r h. insert_other k j _ r.floats h;
  float_kept_incr = λ k j n r h. refl;
  float_kept_expire = λ k j t r h. ap (λ s. lookup j s.floats) (expire_later k t r h);
  float_kept_set = λ k j v r h. refl;
  int_added = λ k n r h. insert_self k _ r.ints ∙ ap some h;
  int_kept_float = λ k j x r h. refl;
  int_kept_expire = λ k j t r h. ap (λ s. lookup j s.ints) (expire_later k t r h);
  int_kept_set = λ k j v r h. refl;
  text_set = λ k v r. insert_self k v r.keys;
  expiry_kept_float = λ k j x r. refl;
  expiry_kept_incr = λ k j n r. refl;
  expiry_moved = λ k t x r e h.
      ap (λ s. lookup k s.expiries) (expire_later k t r h) ∙ insert_self k t r.expiries;
  expiry_of_other = λ k j t r h. expire_other (ltb r.seconds t) k j t r h;
  expiry_kept_set = λ k j v r h. refl;
}

abbrev pub postgres : Postgres ℕ (List (TriggerRow ℕ))
postgres = record {
  insert_trigger = λ row p. (ok tt, p ++ row ∷ []);
  insert_signal = λ row p. (ok (pos 1), p);
  mark_notified = λ id at p. (ok tt, p);
}

abbrev pub table : List (TriggerRow ℕ) → List (TriggerRow ℕ)
table p = p

pub insert_laws : InsertLaws postgres table
insert_laws = record { inserted = λ row p h. refl; at_most = λ row p. inl refl }

abbrev pub Sent : Type 0
Sent = List (String × String)

abbrev pub slack : SlackApi Sent
slack = record { post = λ token channel text s. (answer true "1" "", s ++ (channel, text) ∷ []) }

abbrev pub Topic : Type 0
Topic = List (String × Event ℕ)

abbrev pub kafka : KafkaWriter ℕ Topic
kafka = record { write_message = λ key e k. (ok tt, k ++ (key, e) ∷ []) }

abbrev pub topic : Topic → Topic
topic k = k

pub writer_laws : WriterLaws kafka topic
writer_laws = record { recorded = λ key e k. refl }

-- 2026-01-15 12:00:00 UTC: 739630 days and a half after 1 January of year 1
abbrev pub noon : Time
noon = 63_904_075_200_000_000_000

abbrev pub machine : Machine ℕ
machine = record { now = λ c. (noon, suc c); new_uuid = λ c. ("id", suc c); rfc3339 = λ t. "noon" }

abbrev pub services : Services ℕ Store (List (TriggerRow ℕ)) Sent Topic ℕ
services = record {
  float = thousandths;
  redis = redis;
  postgres = postgres;
  slack = slack;
  kafka = kafka;
  machine = machine;
}

abbrev pub FakeWorld : Type 0
FakeWorld = World Store (List (TriggerRow ℕ)) Sent Topic ℕ

abbrev pub empty_store : Store
empty_store = record {
  keys = [];
  floats = [];
  ints = [];
  expiries = [];
  hashes = [];
  seconds = 1_768_478_400;
}

abbrev pub empty_world : FakeWorld
empty_world = record { redis = empty_store; postgres = []; slack = []; kafka = []; machine = 0 }
