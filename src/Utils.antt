-- ===== src/Utils.antt =====
-- pkg/utils/utils.go: membership in and removal from a slice of texts.
pub mod Laws
use cnsbench.Prelude.{
  ℕ, zero, suc, ◌+◌, ◌-◌, String, Bool, true, false, Option, none, some, List, [], ◌∷◌, ◌++◌,
  length, take, drop, get_elem?, leb, ◌==◌, string_eq, if◌then◌else◌,
}

unfoldable pub contains : List String → String → Bool
contains [] s = false
contains (v ∷ list) s = if v == s then true else contains list s

-- A slice over an array that it shares with the slice which the loop ranges over.
pub record Slice : Type 0 where
  pub array : List String
  pub len : ℕ

-- `append(list[:i], list[i+1:]...)`: the elements behind `i` move one place down in the shared
-- array, and the last place keeps what it held. `list[i+1:]` panics where i + 1 > len(list).
unfoldable pub cut : ℕ → Slice → Option Slice
cut i list =
    if leb (suc i) list.len
    then some (record {
      array =
          take i list.array
          ++ drop (suc i) (take list.len list.array)
          ++ drop (list.len - 1) list.array;
      len = list.len - 1;
    })
    else none

-- One round: the range expression reads element `i` of the shared array.
unfoldable pub remove_round : String → ℕ → Slice → Option Slice
unfolding cut
remove_round s i list = elim (get_elem? list.array i) [
  | some v ↦ if v == s then cut i list else some list
  | none ↦ some list
]

-- `rounds` is the number of elements that the loop has yet to visit.
unfoldable pub remove_loop : String → ℕ → ℕ → Slice → Option (List String)
remove_loop s zero i list = some (take list.len list.array)
remove_loop s (suc rounds) i list = elim (remove_round s i list) [
  | some list' ↦ remove_loop s rounds (suc i) list'
  | none ↦ none
]

-- `none` is a panic.
unfoldable pub remove : List String → String → Option (List String)
unfolding remove_loop remove_round
remove list s = remove_loop s (length list) 0 (record { array = list; len = length list })
