-- ===== src/Processor/Tests/Order.antt =====
-- A world outside in which `range` over a set visits every element.
use argus_go.Base.{String, List, [], ◌∷◌, arith}
use argus_go.Base.Map.{Map, get}
use argus_go.Store.Contract.{has, Implements}
use argus_go.Processor.World.{Outside, memory_state_store}
use argus_go.Processor.Contract.{IsRange, Holds, memory_state_store-Implements}
use argus_go.Processor.Tests.History.{outside}

unfoldable pub keys : Map (Unit {0}) → List String
keys [] = []
keys ((k, u) ∷ m) = k ∷ keys m

pub keys-IsRange : IsRange keys
unfolding keys has get
keys-IsRange [] k = ground arith
keys-IsRange ((j, u) ∷ m) k = ground (arith, keys-IsRange m k)

abbrev ordered : Outside
ordered = record outside { order_set = keys }

memory_state_store-Implements_example : Implements (memory_state_store ordered) Holds
memory_state_store-Implements_example = memory_state_store-Implements ordered keys-IsRange
