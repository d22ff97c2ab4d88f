-- ===== src/Engine/LogQueries.antt =====
-- `QueryLogs` of engine.go beside the state.
use agidb_on_chain.Base.{
  ◌≡◌, refl, ◌∙◌, Option, none, some, [], ◌∷◌, Bytes, beq_iff, if◌then◌else◌, arith,
}
use agidb_on_chain.Go.Maps.{GoMap, keys, lookup, insert, Distinct, contains-keys, lookup-insert}
use agidb_on_chain.Go.Strings.{to_lower}
use agidb_on_chain.Engine.{Engine}
use agidb_on_chain.Engine.Executions.{is_match, collect_logs, query_logs}

-- the entry, if it passes
abbrev pub matched : Bytes → Bytes → Bytes → Option Bytes → Option Bytes
matched address topic k none = none
matched address topic k (some v) = if is_match address topic k v then some v else none

abbrev or_else : Option Bytes → Option Bytes → Option Bytes
or_else none q = q
or_else (some v) q = some v

lookup-collect_logs :
    (address topic : Bytes) (out m : GoMap Bytes) (k : Bytes)
    → Distinct (keys m)
    → lookup (collect_logs address topic out m) k
      ≡ or_else (matched address topic k (lookup m k)) (lookup out k)
unfolding collect_logs lookup
lookup-collect_logs address topic out [] k d = refl
lookup-collect_logs address topic out ((j, v) ∷ m) k d = ground (
  arith,
  lookup-collect_logs address topic (if is_match address topic j v then insert out j v else out) m k
      d.1,
  lookup-insert out j v k,
  contains-keys m j,
  beq_iff j k,
)

-- `QueryLogs` returns, of a state with distinct keys, exactly the entries under log/ whose value, in
-- lower case, contains the address and the topic, in lower case too; an empty word is contained in
-- all.
pub lookup-query_logs :
    {F : Type 0} (e : Engine F) (address topic k : Bytes)
    → Distinct (keys e.state)
    → lookup (query_logs e address topic) k
      ≡ matched (to_lower address) (to_lower topic) k (lookup e.state k)
unfolding query_logs lookup
lookup-query_logs e address topic k d =
    lookup-collect_logs (to_lower address) (to_lower topic) [] e.state k d ∙ ground arith
