-- ===== src/Traffic/Counter.antt =====
-- common/counter/traffic.go and xraytraffic.go: the counters of an inbound, by user key. Each atomic
-- operation is one step.
pub mod Laws
use ppanel_node.Base.{ℕ, suc, String, Option, none, some, List, [], ◌∷◌, length}
use ppanel_node.Base.Eq.{string_eq}
use ppanel_node.Base.Map.{Map, lookup, insert, delete}
use ppanel_node.Traffic.Word.{add64}

pub record TrafficStorage : Type 0 where
  pub up_counter : ℕ
  pub down_counter : ℕ

abbrev pub zero_storage : TrafficStorage
zero_storage = record { up_counter = 0; down_counter = 0 }

abbrev pub TrafficCounter : Type 0
TrafficCounter = Map String TrafficStorage

abbrev pub new_traffic_counter : TrafficCounter
new_traffic_counter = []

abbrev storage_or_zero : Option TrafficStorage → TrafficStorage
storage_or_zero none = zero_storage
storage_or_zero (some s) = s

-- `GetCounter`: load, or store a new one.
unfoldable pub get_counter : TrafficCounter → String → TrafficCounter × TrafficStorage
get_counter c uuid = elim (lookup uuid c) [
  | some s ↦ (c, s)
  | none ↦ (insert uuid zero_storage c, zero_storage)
]

unfoldable pub get_up_count : TrafficCounter → String → ℕ
get_up_count c uuid = (storage_or_zero (lookup uuid c)).up_counter

unfoldable pub get_down_count : TrafficCounter → String → ℕ
get_down_count c uuid = (storage_or_zero (lookup uuid c)).down_counter

-- `Len`, over the entries of `Range`
unfoldable pub len : TrafficCounter → ℕ
len [] = 0
len (entry ∷ c) = suc (len c)

unfoldable pub reset : TrafficCounter → String → TrafficCounter
reset c uuid = elim (lookup uuid c) [ none ↦ c | some s ↦ insert uuid zero_storage c ]

unfoldable pub remove : TrafficCounter → String → TrafficCounter
remove c uuid = delete uuid c

-- `n` is the bit pattern of `int64(n)`.
unfoldable pub rx : TrafficCounter → String → ℕ → TrafficCounter
unfolding get_counter
rx c uuid n =
    let (c', s) = get_counter c uuid in
    insert uuid (record s { down_counter = add64 s.down_counter n }) c'

unfoldable pub tx : TrafficCounter → String → ℕ → TrafficCounter
unfolding get_counter
tx c uuid n =
    let (c', s) = get_counter c uuid in
    insert uuid (record s { up_counter = add64 s.up_counter n }) c'

-- `XrayTrafficCounter` over one atomic counter: the value returned, and the counter afterwards.
abbrev pub counter_value : ℕ → ℕ
counter_value v = v

abbrev pub counter_set : ℕ → ℕ → ℕ × ℕ
counter_set v new = (v, new)

abbrev pub counter_add : ℕ → ℕ → ℕ × ℕ
counter_add v delta = (add64 v delta, add64 v delta)
