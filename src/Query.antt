-- ===== src/Query.antt =====
-- What a statement on the database meets, what `db.Query` and the iteration over its rows yield, and
-- the loop of the source that scans them into a slice.
use enterprise_llm_tracker.Base.{String, Option, none, some, List, [], ◌∷◌}
use enterprise_llm_tracker.Base.Act.{Result, ok, err}

-- how the connection fails a statement that writes: it is refused and changes nothing, or it is
-- carried out and its reply is lost
pub data Fault : Type 0 where
  refused reply_lost : String → Fault

-- the query's error, or the rows in order, each scanned or not, and the error that ends the iteration
pub data QueryResult (A : Type 0) : Type 0 where
  query_failed : String → QueryResult A
  rows : List (Result A) → Option String → QueryResult A

module _ {A : Type 0} where
  abbrev cons_ok : A → Result (List A) → Result (List A)
  cons_ok x (ok xs) = ok (x ∷ xs)
  cons_ok x (err e) = err e

  -- `for rows.Next() { ... append ... }` and `rows.Err()`
  unfoldable pub scan_list : List (Result A) → Option String → Result (List A)
  scan_list [] none = ok []
  scan_list [] (some e) = err e
  scan_list (err e ∷ rs) after = err e
  scan_list (ok x ∷ rs) after = cons_ok x (scan_list rs after)

  unfoldable pub collect : QueryResult A → Result (List A)
  unfolding scan_list
  collect (query_failed e) = err e
  collect (rows rs after) = scan_list rs after
