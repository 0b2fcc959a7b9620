-- ===== src/Kafka/Producer.antt =====
-- Producer.Publish of internal/kafka/producer.go. encoding/json fails on an event only for a cost
-- that is NaN or infinite.
use enterprise_llm_tracker.Base.{Bool, true, Option, none, some, if◌then◌else◌}
use enterprise_llm_tracker.Base.Act.{Result, err, Act, pure}
use enterprise_llm_tracker.Float.{Float}
use enterprise_llm_tracker.Models.{Event}
use enterprise_llm_tracker.Services.{Services, World, on_kafka}

unfoldable pub is_encodable : {F : Type 0} → Float F → Option F → Bool
is_encodable fl none = true
is_encodable fl (some c) = fl.is_finite c

unfoldable pub publish :
    {F R P S K C : Type 0}
    → Services F R P S K C
    → Event F
    → Act (World R P S K C) (Result (Unit {0}))
publish sv e =
    if is_encodable sv.float e.cost_usd
    then on_kafka (sv.kafka.write_message e.engineer_id e)
    else pure (err "json: unsupported value")
