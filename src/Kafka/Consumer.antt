-- ===== src/Kafka/Consumer.antt =====
-- internal/kafka/consumer.go: the loop that fetches, handles and commits. The reader keeps the offset
-- that it fetches next; the broker keeps the group's committed offset, if there is one, at which a
-- restarted consumer begins. A partition is the list of its messages: the event, or nothing where the JSON is bad.
pub mod Delivery
use enterprise_llm_tracker.Base.{
  ℕ, suc, String, Bool, true, false, Option, none, some, List, if◌then◌else◌,
}
use enterprise_llm_tracker.Base.Act.{Result, ok, err, Act}
use enterprise_llm_tracker.Models.{Event}

pub record Reader : Type 0 where
  pub position : ℕ
  pub committed : Option ℕ

-- what FetchMessage returns: the cancelled context's error, another error, or the next message
pub data Fetched (F : Type 0) : Type 0 where
  cancelled : Fetched F
  fetch_failed : Fetched F
  message : Option (Event F) → Fetched F

-- CommitMessages for the message just fetched, whose offset is below the position; `accepted` says
-- whether the broker takes the commit, and an error is only logged
unfoldable pub commit : Bool → Reader → Reader
commit accepted r = if accepted then record r { committed = some r.position } else r

-- FetchMessage moves on to the next offset
unfoldable pub advance : Reader → Reader
advance r = record r { position = suc r.position }

module _ {F W : Type 0} (handler : Event F → Act W (Result (Unit {0}))) where
  -- after the handler's result
  unfoldable pub finish : Bool → Result (Unit {0}) × W → Reader → Reader × W
  unfolding commit
  finish accepted (ok _, w) r = (commit accepted r, w)
  finish accepted (err _, w) r = (r, w)

  -- what the loop does with a message that was fetched
  unfoldable pub deliver : Bool → Option (Event F) → Reader × W → Reader × W
  unfolding advance commit finish
  deliver accepted none (r, w) = (commit accepted (advance r), w)
  deliver accepted (some e) (r, w) = finish accepted (handler e w) (advance r)

  -- one round of Run: whether the loop goes on, and the state after it
  unfoldable pub round : Bool → Fetched F → Reader × W → Bool × (Reader × W)
  unfolding deliver
  round accepted cancelled s = (false, s)
  round accepted fetch_failed s = (true, s)
  round accepted (message m) s = (true, deliver accepted m s)

-- where a group begins on a partition that ends at `end`: StartOffset is LastOffset
unfoldable pub start_offset : Option ℕ → ℕ → ℕ
start_offset none end = end
start_offset (some committed) end = committed

-- NewConsumer for a group that has run before, when the partition ends at `end`
unfoldable pub restart : {W : Type 0} → ℕ → Reader × W → Reader × W
unfolding start_offset
restart end (r, w) = (record r { position = start_offset r.committed end }, w)
