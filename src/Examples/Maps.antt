-- ===== src/Examples/Maps.antt =====
-- The RCU map over numbers, and the single-producer ring.
use native.Mathlib.Nat.{dvd_of_mod-eq-zero}
use hotpathcplusplus.Base.{
  ℕ, ◌*◌, ◌^◌, ◌<◌, ◌≡◌, refl, Bool, List, [], ◌∷◌, ◌++◌, none, some, length, ltb, get_or-replicate,
  length-replicate, if◌then◌else◌, ◌==◌, ==_iff, u64_mod, arith,
}
use hotpathcplusplus.RcuMap.Table.{
  Key, Node, RcuHashMap, new_map, new_table, same, get, put, remove,
}
use hotpathcplusplus.RcuMap.Walks.{occurrences}
use hotpathcplusplus.RcuMap.View.{IsTable, remove-get}
use hotpathcplusplus.RcuMap.Growth.{get-put}
use hotpathcplusplus.Spsc.Ring.{
  SpscRingBuffer, new_ring, try_push_acquire_release, try_pop_acquire_release,
}
use hotpathcplusplus.Spsc.Window.{contents}
use hotpathcplusplus.Spsc.Refine.{IsRing, try_push-contents, try_pop-contents}

instance nat_key : Key ℕ
nat_key = record { equal = λ a b. a == b; equal_iff = ==_iff; hash = λ a. a }

abbrev nothing : RcuHashMap ℕ ℕ
nothing = new_map 4

nothing-IsTable : IsTable nothing.table
unfolding new_map new_table occurrences
nothing-IsTable = record {
  width = length-replicate {A = List (Node ℕ ℕ)} 4 [];
  roomy = omega arith;
  once = λ q i. rw (get_or-replicate {A = List (Node ℕ ℕ)} 4 i []) (omega arith);
  placed = λ q i far. rw (get_or-replicate {A = List (Node ℕ ℕ)} 4 i []) refl;
}

nothing_doubled : nothing.table.size * 2 < 2 ^ 64
unfolding new_map new_table
nothing_doubled = omega arith

get-put_example :
    (m' : RcuHashMap ℕ ℕ) × (put nothing 5 70 ≡ some m')
    × IsTable m'.table
    × ((q : ℕ) → get m' q ≡ (if same 5 q then some (some 70) else get nothing q))
get-put_example = get-put nothing 5 70 nothing-IsTable nothing_doubled

remove-get_example :
    (done : Bool) × (m' : RcuHashMap ℕ ℕ) × (remove nothing 5 ≡ some (done, m'))
    × IsTable m'.table
    × ((q : ℕ) → get m' q ≡ (if same 5 q then some none else get nothing q))
remove-get_example = remove-get nothing 5 nothing-IsTable

-- the item of an empty slot
abbrev none_yet : ℕ
none_yet = 0

abbrev quad : SpscRingBuffer ℕ
quad = new_ring 2 none_yet

quad-IsRing : IsRing 2 none_yet quad
unfolding new_ring
quad-IsRing = record {
  width = refl;
  divides = dvd_of_mod-eq-zero 4 {n = u64_mod} refl;
  small = omega arith;
  write_in = omega arith;
  read_in = omega arith;
  bounded = omega arith;
}

try_push-contents_example :
    let (done, b') = try_push_acquire_release 2 none_yet quad 9 in
    IsRing 2 none_yet b'
    × (done ≡ ltb (length (contents 2 none_yet quad)) (2 ^ 2))
    × (contents 2 none_yet b' ≡ (
        if ltb (length (contents 2 none_yet quad)) (2 ^ 2)
        then contents 2 none_yet quad ++ 9 ∷ []
        else contents 2 none_yet quad))
try_push-contents_example = try_push-contents 2 none_yet quad 9 quad-IsRing

try_pop-contents_example :
    let (out, b') = try_pop_acquire_release 2 none_yet quad in
    IsRing 2 none_yet b'
    × (out ≡ none → contents 2 none_yet quad ≡ [])
    × ((x : ℕ) → out ≡ some x → contents 2 none_yet quad ≡ x ∷ contents 2 none_yet b')
try_pop-contents_example = try_pop-contents 2 none_yet quad quad-IsRing
