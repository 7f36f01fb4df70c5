-- ===== src/Control/History.antt =====
-- src/control/CommandHistory.h and CommandHistory.cpp: the results of recent commands. The map from
-- ids to results is a list of pairs.
pub mod Bounded
pub mod Retention
use nexus_firmware.Prelude.{
  ℕ, String, str_eq, Bool, true, false, Option, none, some, List, [], ◌∷◌, ◌++◌, length, leb,
  if◌then◌else◌,
}
use nexus_firmware.Control.Command.{CommandResult}

abbrev pub Results : Type 0
Results = List (String × CommandResult)

pub record CommandHistory : Type 0 where
  pub capacity : ℕ
  pub order : List String
  pub results : Results

unfoldable pub init : ℕ → CommandHistory
init capacity = record { capacity = capacity; order = []; results = [] }

unfoldable pub find : Results → String → Option CommandResult
find [] k = none
find ((j, r) ∷ rs) k = if str_eq j k then some r else find rs k

-- `results_[k] = r`
unfoldable pub assign : Results → String → CommandResult → Results
assign [] k r = (k, r) ∷ []
assign ((j, q) ∷ rs) k r = if str_eq j k then (j, r) ∷ rs else (j, q) ∷ assign rs k r

-- `results_.erase(k)`
unfoldable pub erase_key : Results → String → Results
erase_key [] k = []
erase_key ((j, q) ∷ rs) k = if str_eq j k then rs else (j, q) ∷ erase_key rs k

unfoldable pub is_found : Option CommandResult → Bool
is_found none = false
is_found (some r) = true

unfoldable pub seen : CommandHistory → String → Bool
unfolding is_found
seen h id = is_found (find h.results id)

unfoldable pub try_get : CommandHistory → String → Option CommandResult
try_get h id = find h.results id

unfoldable pub size : CommandHistory → ℕ
size h = length h.order

-- The front of the order is evicted. On an empty order, which is full only if the capacity is 0, the
-- source's call is undefined; here nothing happens.
unfoldable pub evict : List String → CommandHistory → CommandHistory
evict [] h = h
evict (oldest ∷ rest) h = record h { results = erase_key h.results oldest; order = rest }

unfoldable pub add : CommandHistory → String → CommandResult → CommandHistory
add h id r = record h { order = h.order ++ (id ∷ []); results = assign h.results id r }

unfoldable pub remember : CommandHistory → String → CommandResult → CommandHistory
remember h id r =
    if seen h id
    then record h { results = assign h.results id r }
    else if leb h.capacity (length h.order)
    then add (evict h.order h) id r
    else add h id r
